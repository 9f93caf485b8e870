-- ===== src/Vdir/Union.antt =====
-- `read_vdir` lists the union of the branches.
use aufs.Common.{
  ℕ, zero, suc, ◌+◌, ◌≤◌, ◌<◌, ◌≡◌, ◌⊎◌, refl, ap, ◌∙◌, Bool, false, not, ◌&&◌, ◌||◌, Option, some,
  none, List, [], ◌∷◌, length, get_or, replicate, Result, ok, err, arith, inl, inr,
}
use aufs.Whout.{Name}
use aufs.Vdir.{
  nhash_size, empty_nhash, name_hash, known_in, test_known, Env, Fill, known_above, read_branch,
  BranchDir, read_branches, read_vdir,
}
use aufs.Vdir.Step.{de_known, wh_known, has_de, IsSized, IsFilled, known_above-same}
use aufs.Vdir.Total.{NoXinoError, read_branches-ok}
use aufs.Vdir.Merge.{shows, whiteouts, listed, read_branch-IsFilled}

-- No name is in the tables from the branch `k` on.
abbrev pub IsEmptyFrom : ℕ → Env → Fill → Type 0
IsEmptyFrom k env s =
    (j : ℕ) → k ≤ j → (n : Name) → (de_known env s j n ≡ false) × (wh_known env s j n ≡ false)

pub IsEmptyFrom-next :
    {m k : ℕ} {env : Env} {s s' : Fill} {p q : Name → Bool}
    → IsFilled m env k s s' p q
    → IsEmptyFrom k env s
    → IsEmptyFrom (k + 1) env s'
IsEmptyFrom-next {env = env} f empty j h n = (
  ap (λ nh. test_known env.hash nh n) (f.other_de j (omega arith)) ∙ (empty j (omega arith) n).0,
  ap (λ nh. test_known env.hash nh n) (f.other_wh j (omega arith)) ∙ (empty j (omega arith) n).1,
)

-- What is known above the next branch.
pub known_above-next :
    {m k : ℕ} {env : Env} {s s' : Fill} {p q : Name → Bool}
    → IsFilled m env k s s' p q
    → IsEmptyFrom k env s
    → (n : Name) → known_above (k + 1) env.hash s' n ≡ (known_above k env.hash s n || (p n || q n))
unfolding known_above
known_above-next {k = k} {env = env} {s = s} {s' = s'} f empty n = ground (
  arith,
  f.des n,
  f.whs n,
  (empty k (omega arith) n).0,
  (empty k (omega arith) n).1,
  known_above-same k env.hash s s' n (λ j h. f.other_de j (omega arith))
      (λ j h. f.other_wh j (omega arith)),
)

abbrev Lists : ℕ → Env → Fill → List (Option BranchDir) → Result (Unit {0}) × Fill → Type 0
Lists k env s ds out =
    (n : Name)
    → has_de out.1.entries n
      ≡ ((not (known_above k env.hash s n) && listed ds n) || has_de s.entries n)

Lists-cons :
    {m k : ℕ} {env : Env} {s s' : Fill} (d : BranchDir) (ds : List (Option BranchDir))
    (out : Result (Unit {0}) × Fill)
    → IsFilled m env k s s' (shows d.entries) (whiteouts d.entries)
    → IsEmptyFrom k env s
    → Lists (k + 1) env s' ds out
    → Lists k env s (some d ∷ ds) out
Lists-cons d ds out f empty rest n = ground (arith, rest n, f.listed n, known_above-next f empty n)

pub known_above-empty :
    (k : ℕ) (env : Env) (s : Fill)
    → IsEmptyFrom k env s
    → (n : Name) → known_above (k + 1) env.hash s n ≡ known_above k env.hash s n
unfolding known_above
known_above-empty k env s empty n =
    ground (arith, (empty k (omega arith) n).0, (empty k (omega arith) n).1)

-- A branch that was read, and the later ones.
Lists-read :
    (m k : ℕ) (env : Env) (d : BranchDir) (ds : List (Option BranchDir)) (s : Fill)
    → IsSized m s
    → k < m
    → IsEmptyFrom k env s
    → ((s1 : Fill)
        → IsSized m s1
        → IsEmptyFrom (k + 1) env s1
        → (read_branches env (k + 1) ds s1).0 ≡ ok tt
        → Lists (k + 1) env s1 ds (read_branches env (k + 1) ds s1))
    → (r : Result (Unit {0})) → (read_branch env k d.entries (record s { file = d.file })).0 ≡ r
    → let s1 = (read_branch env k d.entries (record s { file = d.file })).1 in
      let out : Result (Unit {0}) × Fill = (elim r [
        | err x ↦ (err x, s1)
        | ok u ↦ read_branches env (k + 1) ds s1
      ]) in
      out.0 ≡ ok tt → Lists k env s (some d ∷ ds) out
Lists-read m k env d ds s sized below empty rest (err x) q e = absurd (ground arith)
Lists-read m k env d ds s sized below empty rest (ok u) q e =
    let start : Fill = record s { file = d.file } in
    let sized' : IsSized m start = record {
      des = sized.des;
      whs = sized.whs;
      de_heads = sized.de_heads;
      wh_heads = sized.wh_heads;
    } in
    let f = read_branch-IsFilled m k env d.entries start sized' below q in
    let out = read_branches env (k + 1) ds (read_branch env k d.entries start).1 in
    λ n.
      Lists-cons d ds out f empty (rest _ f.sized (IsEmptyFrom-next f empty) e) n
      ∙ ap (λ b. (not b && listed (some d ∷ ds) n) || has_de s.entries n)
          (known_above-same k env.hash s start n (λ j h. refl) (λ j h. refl))

read_branches-Lists :
    (m k : ℕ) (env : Env) (ds : List (Option BranchDir)) (s : Fill)
    → IsSized m s
    → k + length ds ≤ m
    → IsEmptyFrom k env s
    → (read_branches env k ds s).0 ≡ ok tt
    → Lists k env s ds (read_branches env k ds s)
unfolding read_branches
read_branches-Lists m k env [] s sized h empty e = λ n. ground arith
read_branches-Lists m k env (none ∷ ds) s sized h empty e = λ n.
    read_branches-Lists m (k + 1) env ds s sized (omega arith) (λ j p. empty j (omega arith)) e n
    ∙ ap (λ b. (not b && listed ds n) || has_de s.entries n) (known_above-empty k env s empty n)
read_branches-Lists m k env (some d ∷ ds) s sized h empty e =
    Lists-read m k env d ds s sized (omega arith) empty
      (λ s1 z f q. read_branches-Lists m (k + 1) env ds s1 z (omega arith) f q)
      (read_branch env k d.entries (record s { file = d.file })).0 refl e

-- The tables that `read_vdir` starts with.
get_or-replicate :
    (m j : ℕ)
    → (get_or (replicate m empty_nhash) j [] ≡ empty_nhash)
      ⊎ (get_or (replicate m empty_nhash) j [] ≡ [])
get_or-replicate zero j = inr refl
get_or-replicate (suc m) zero = inl refl
get_or-replicate (suc m) (suc j) = get_or-replicate m j

get_or-replicate_lt : (m j : ℕ) → j < m → get_or (replicate m empty_nhash) j [] ≡ empty_nhash
get_or-replicate_lt zero j h = absurd (omega arith)
get_or-replicate_lt (suc m) zero h = refl
get_or-replicate_lt (suc m) (suc j) h = get_or-replicate_lt m j (omega arith)

length-replicate {ℓ} : {A : Type ℓ} (m : ℕ) (a : A) → length (replicate m a) ≡ m
length-replicate zero a = refl
length-replicate (suc m) a = ap suc (length-replicate m a)

no_names : (m i : ℕ) → get_or {A = List Name} (replicate m []) i [] ≡ []
no_names zero i = refl
no_names (suc m) zero = refl
no_names (suc m) (suc i) = no_names m i

pub test_known-fresh :
    (hash : Name → ℕ) (m j : ℕ) (n : Name)
    → test_known hash (get_or (replicate m empty_nhash) j []) n ≡ false
unfolding test_known
test_known-fresh hash m j n = elim (get_or-replicate m j) [
  | inl e ↦
      ap (λ nh. test_known hash nh n) e
      ∙ ap (λ xs. known_in xs n) (no_names nhash_size (name_hash hash n))
  | inr e ↦ ap (λ nh. test_known hash nh n) e
]

pub known_above-fresh :
    (k : ℕ) (env : Env) (s : Fill)
    → IsEmptyFrom 0 env s
    → (n : Name) → known_above k env.hash s n ≡ false
unfolding known_above
known_above-fresh zero env s empty n = refl
known_above-fresh (suc k) env s empty n = ground (
  arith,
  known_above-fresh k env s empty n,
  (empty k (omega arith) n).0,
  (empty k (omega arith) n).1,
)

module _ (bstart : ℕ) (ds : List (Option BranchDir)) (counter : ℕ) where
  abbrev pub slots : ℕ
  slots = bstart + length ds

  abbrev pub start : Fill
  start = record {
    delist = replicate slots empty_nhash;
    whlist = replicate slots empty_nhash;
    entries = [];
    counter = counter;
    file = record { size = 0; entry = λ p. 0 };
  }

  pub start-IsSized : IsSized slots start
  start-IsSized = record {
    des = length-replicate slots _;
    whs = length-replicate slots _;
    de_heads = λ j h. ap length (get_or-replicate_lt slots j h);
    wh_heads = λ j h. ap length (get_or-replicate_lt slots j h);
  }

-- Where the transfers of inode numbers meet no error, the listing is read without one, and it has a
-- name exactly when some branch shows the name that lies below no whiteout of it.
pub read_vdir-listed :
    (env : Env) (bstart : ℕ) (ds : List (Option BranchDir)) (counter : ℕ)
    → NoXinoError env
    → ((read_vdir env bstart ds counter).0 ≡ ok tt)
      × ((n : Name) → has_de (read_vdir env bstart ds counter).1.entries n ≡ listed ds n)
unfolding read_vdir
read_vdir-listed env bstart ds counter fine =
    let s = start bstart ds counter in
    let e = read_branches-ok env fine ds bstart s in
    let empty : IsEmptyFrom 0 env s = λ j h n. (
      test_known-fresh env.hash (bstart + length ds) j n,
      test_known-fresh env.hash (bstart + length ds) j n,
    ) in
    (
      e,
      λ n.
          read_branches-Lists (bstart + length ds) bstart env ds s (start-IsSized bstart ds counter)
            (omega arith) (λ j h. empty j (omega arith)) e n
          ∙ lists_all n (known_above-fresh bstart env s empty n),
    )
  where
    lists_all :
        (n : Name)
        → known_above bstart env.hash (start bstart ds counter) n ≡ false
        → ((not (known_above bstart env.hash (start bstart ds counter) n) && listed ds n) || false)
          ≡ listed ds n
    lists_all n h = ground arith
