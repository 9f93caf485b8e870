-- ===== src/Vdir/Merge.antt =====
-- The listing is the union of the branches.
use aufs.Common.{
  ℕ, ◌<◌, ◌≡◌, refl, subst, ◌==◌, Bool, true, false, not, ◌&&◌, ◌||◌, if◌then◌else◌, Option, some,
  none, List, [], ◌∷◌, drop, get_or, set, Result, ok, err, arith,
}
use aufs.Whout.{Name, eq_name, wh_len}
use aufs.Whout.Names.{eq_name_iff}
use aufs.Xino.{XinoFile, assign_ino}
use aufs.Vdir.{
  add_name, Raw, Env, Fill, known_above, append_de, append_wh, is_plain, fillvdir, read_branch,
  BranchDir,
}
use aufs.Vdir.Step.{
  wh_known, IsSized, IsFilled, IsFilled-trans, IsFilled-same, IsFilled-de, IsFilled-wh,
}

-- The specification: a branch shows its plain names and whiteouts the names behind the prefix.
abbrev pub shows : List Raw → Name → Bool
shows [] n = false
shows (r ∷ rs) n = (is_plain r.name && eq_name r.name n) || shows rs n

abbrev pub whiteouts : List Raw → Name → Bool
whiteouts [] n = false
whiteouts (r ∷ rs) n = (not (is_plain r.name) && eq_name (drop wh_len r.name) n) || whiteouts rs n

-- A name is listed when a branch shows it that lies below no whiteout of it.
abbrev pub listed : List (Option BranchDir) → Name → Bool
listed [] n = false
listed (none ∷ ds) n = listed ds n
listed (some d ∷ ds) n = shows d.entries n || (not (whiteouts d.entries n) && listed ds n)

module _ (m k : ℕ) (env : Env) (raw : Raw) (s : Fill) (sized : IsSized m s) (below : k < m) where
  append_de-IsFilled :
      (r : Result (ℕ × XinoFile) × ℕ)
      → known_above k env.hash s raw.name ≡ false
      → (append_de env k raw s r).0 ≡ ok tt
      → IsFilled m env k s (append_de env k raw s r).1 (eq_name raw.name) (λ n. false)
  append_de-IsFilled (err e, x) new h = absurd (ground arith)
  append_de-IsFilled (ok (ino, f), x) new h =
      IsFilled-de m k env s sized below (record { name = raw.name; ino = ino; d_type = raw.d_type })
        x f new

  same_name :
      (a : Name)
      → wh_known env s k a ≡ true
      → (n : Name) → eq_name a n ≡ true
      → wh_known env s k n ≡ true
  same_name a h n e = subst (λ o. wh_known env s k o ≡ true) ((eq_name_iff a n).0 e) h

  append_wh-IsFilled :
      (a : Name) → IsFilled m env k s (append_wh env k a s) (λ n. false) (eq_name a)
  append_wh-IsFilled a = go (not (k == 0) && wh_known env s k a) refl
    where
      go :
          (b : Bool)
          → (not (k == 0) && wh_known env s k a) ≡ b
          → IsFilled m env k s
              (if b then s else record s {
                whlist = set s.whlist k (add_name env.hash (get_or s.whlist k []) a);
              })
              (λ n. false)
              (eq_name a)
      go true e =
          IsFilled-same m k env s sized below (λ n. false) (eq_name a) (λ n h. ground arith)
            (same_name a (ground arith))
      go false e = IsFilled-wh m k env s sized below a

  plain-IsFilled :
      (b : Bool)
      → known_above k env.hash s raw.name ≡ b
      → let r = assign_ino env.xino env.io s.file raw.h_ino s.counter in
        let out = (if b then (ok tt, s) else append_de env k raw s r) in
        out.0 ≡ ok tt → IsFilled m env k s out.1 (eq_name raw.name) (λ n. false)
  plain-IsFilled true e = λ h.
      IsFilled-same m k env s sized below (eq_name raw.name) (λ n. false)
        (λ n q. subst (λ o. known_above k env.hash s o ≡ true) ((eq_name_iff raw.name n).0 q) e)
        (λ n q. ground arith)
  plain-IsFilled false e =
      append_de-IsFilled (assign_ino env.xino env.io s.file raw.h_ino s.counter) e

  pub fillvdir-IsFilled :
      (fillvdir env k raw s).0 ≡ ok tt
      → IsFilled m env k s
          (fillvdir env k raw s).1
          (λ n. is_plain raw.name && eq_name raw.name n)
          (λ n. not (is_plain raw.name) && eq_name (drop wh_len raw.name) n)
  unfolding fillvdir
  fillvdir-IsFilled = go (is_plain raw.name)
    where
      go :
          (b : Bool)
          → let r = assign_ino env.xino env.io s.file raw.h_ino s.counter in
            let out =
              (if b
                then (if known_above k env.hash s raw.name
                    then (ok tt, s)
                    else append_de env k raw s r)
                else (ok tt, append_wh env k (drop wh_len raw.name) s)) in
            out.0 ≡ ok tt
            → IsFilled m env k s out.1
                (λ n. b && eq_name raw.name n)
                (λ n. not b && eq_name (drop wh_len raw.name) n)
      go true = plain-IsFilled (known_above k env.hash s raw.name) refl
      go false = λ h. append_wh-IsFilled (drop wh_len raw.name)

pub read_branch-IsFilled :
    (m k : ℕ) (env : Env) (raws : List Raw) (s : Fill)
    → IsSized m s
    → k < m
    → (read_branch env k raws s).0 ≡ ok tt
    → IsFilled m env k s (read_branch env k raws s).1 (shows raws) (whiteouts raws)
unfolding read_branch
read_branch-IsFilled m k env [] s sized below h =
    IsFilled-same m k env s sized below (λ n. false) (λ n. false) (λ n q. ground arith)
      (λ n q. ground arith)
read_branch-IsFilled m k env (raw ∷ raws) s sized below h =
    go (λ s1 z q. read_branch-IsFilled m k env raws s1 z below q) (fillvdir env k raw s).0 refl h
  where
    go :
        ((s1 : Fill)
          → IsSized m s1
          → (read_branch env k raws s1).0 ≡ ok tt
          → IsFilled m env k s1 (read_branch env k raws s1).1 (shows raws) (whiteouts raws))
        → (r : Result (Unit {0})) → (fillvdir env k raw s).0 ≡ r
        → let s1 = (fillvdir env k raw s).1 in
          let out : Result (Unit {0}) × Fill = (elim r [
            | err e ↦ (err e, s1)
            | ok u ↦ read_branch env k raws s1
          ]) in
          out.0 ≡ ok tt → IsFilled m env k s out.1 (shows (raw ∷ raws)) (whiteouts (raw ∷ raws))
    go rest (err e) q h = absurd (ground arith)
    go rest (ok u) q h =
        let step = fillvdir-IsFilled m k env raw s sized below q in
        IsFilled-trans step (rest (fillvdir env k raw s).1 step.sized h)
