-- ===== src/Lookup/Rounds.antt =====
-- One round of `lkup_dentry` on each kind of layer.
use aufs.Common.{
  ℕ, zero, suc, ◌+◌, ◌<◌, ◌≡◌, ◌≢◌, refl, ◌⊎◌, ◌==◌, if◌then◌else◌, Bool, true, false, ◌&&◌, Option,
  some, none, List, [], ◌∷◌, get_or, set, length, Result, ok, err, is_ok, ◌>>=◌, arith, get_or-set,
  get_or-set_ne, length-set,
}
use aufs.Lower.{HDentry, s_ifdir, is_dir, is_positive}
use aufs.Dinfo.{Dinfo, h_dptr_i}
use aufs.Whout.{is_wh, is_diropq}
use aufs.Lookup.{
  Env, is_whable, record_found, do_lookup, Round, stop, next, after_lookup, lkup_round,
}
use aufs.Lookup.Stack.{Layer, missing, whited, nothing, node}

-- The parent directory of the name on a branch.
abbrev pub hidden_dir : Option HDentry → Option HDentry
hidden_dir none = none
hidden_dir (some hp) = elim hp.inode [ none ↦ none | some i ↦ if is_dir i then some hp else none ]

-- What one entry of a branch is: the name as it was looked up there, and whether it is opaque.
abbrev pub entry_layer : Env → ℕ → HDentry → Result Layer
entry_layer env b hd = elim hd.inode [
  | none ↦ ok nothing
  | some i ↦
      if is_dir i && is_whable env.table b
      then (do opaque ← is_diropq env.lkup hd; ok (node i.fmt opaque))
      else ok (node i.fmt false)
]

-- What a parent directory shows of the name, or the error that looking at it meets.
abbrev pub look : Env → ℕ → HDentry → Result Layer
look env b hp = do
  found ← (if is_whable env.table b then is_wh env.lkup hp env.wh_name else ok false)
  hd ← env.lkup hp env.name
  if found then ok whited else entry_layer env b hd

abbrev pub layer_of : Env → ℕ → Result Layer
layer_of env b = elim (hidden_dir (h_dptr_i env.parent b)) [
  | none ↦ ok missing
  | some hp ↦ look env b hp
]

-- Positive hidden dentries are the same.
abbrev pub SamePositive : Dinfo → Dinfo → Type 0
SamePositive d d' =
    (j : ℕ) → is_positive (get_or d'.hdentry j none) ≡ is_positive (get_or d.hdentry j none)

-- The end of a round, after `do_lookup`.
abbrev pub finish : Result (Option HDentry) × Dinfo → ℕ → ℕ → Round
finish (err e, d) type n = stop (err e) d
finish (ok found, d) type n = after_lookup found d type n

-- A negative hidden dentry in an empty slot.
set-negative :
    (xs : List (Option HDentry)) (b j : ℕ) (hd : HDentry)
    → get_or xs b none ≡ none
    → hd.inode ≡ none
    → is_positive (get_or (set xs b (some hd)) j none) ≡ is_positive (get_or xs j none)
set-negative [] b j hd e h = refl
set-negative (x ∷ xs) zero zero hd e h = ground arith
set-negative (x ∷ xs) zero (suc j) hd e h = refl
set-negative (x ∷ xs) (suc b) zero hd e h = refl
set-negative (x ∷ xs) (suc b) (suc j) hd e h = set-negative xs b j hd e h

record_found-slots :
    (d : Dinfo) (b : ℕ) (hd : HDentry)
    → ((record_found d b hd).hdentry ≡ set d.hdentry b (some hd))
      × ((record_found d b hd).bwh ≡ d.bwh)
      × ((record_found d b hd).bdiropq ≡ d.bdiropq)
record_found-slots d b hd = ground arith

module _ (env : Env) (b : ℕ) (hp : HDentry) (allow_neg : Bool) (type : ℕ) (d : Dinfo) where
  pub whited_positive :
      (j : ℕ) (r : Result HDentry)
      → env.lkup hp env.name ≡ r
      → get_or d.hdentry b none ≡ none
      → look env b hp ≡ ok whited
      → is_positive (get_or (do_lookup env b hp allow_neg type d).1.hdentry j none)
        ≡ is_positive (get_or d.hdentry j none)
  unfolding do_lookup
  whited_positive j (err x) q e l = ground arith
  whited_positive j (ok hd) q e l = ground (arith, set-negative d.hdentry b j hd e)

  -- A whiteout is marked, and nothing positive is recorded.
  pub do_lookup-whited :
      get_or d.hdentry b none ≡ none
      → look env b hp ≡ ok whited
      → (is_ok (do_lookup env b hp allow_neg type d).0 ≡ true)
        × ((do_lookup env b hp allow_neg type d).1.bwh ≡ some b)
        × SamePositive d (do_lookup env b hp allow_neg type d).1
  unfolding do_lookup
  do_lookup-whited e l = (ground arith, ground arith, λ j. whited_positive j _ refl e l)

  pub whited_stop :
      (n : ℕ)
      → get_or d.hdentry b none ≡ none
      → look env b hp ≡ ok whited
      → finish (do_lookup env b hp allow_neg type d) type n
        ≡ stop (ok n) (do_lookup env b hp allow_neg type d).1
  unfolding after_lookup
  whited_stop n e l = ground (arith, do_lookup-whited e l)

  -- Where there is nothing, at most a negative hidden dentry is recorded.
  pub nothing_positive :
      (j : ℕ) (r : Result HDentry)
      → env.lkup hp env.name ≡ r
      → get_or d.hdentry b none ≡ none
      → look env b hp ≡ ok nothing
      → is_positive (get_or (do_lookup env b hp allow_neg type d).1.hdentry j none)
        ≡ is_positive (get_or d.hdentry j none)
  unfolding do_lookup
  nothing_positive j (err x) q e l = ground arith
  nothing_positive j (ok hd) q e l = ground (arith, set-negative d.hdentry b j hd e)

  pub do_lookup-nothing :
      (n : ℕ)
      → d.bwh ≡ none
      → look env b hp ≡ ok nothing
      → (finish (do_lookup env b hp allow_neg type d) type n
          ≡ next (do_lookup env b hp allow_neg type d).1 type false n)
        × ((do_lookup env b hp allow_neg type d).1.bwh ≡ none)
        × ((do_lookup env b hp allow_neg type d).1.bdiropq ≡ d.bdiropq)
  unfolding do_lookup after_lookup
  do_lookup-nothing n w l = (ground arith, ground arith, ground arith)

  -- An entry of another type than the one that is looked for is left out.
  pub do_lookup-mismatch :
      (n fmt : ℕ) (opaque : Bool)
      → d.bwh ≡ none
      → type ≢ 0
      → type ≢ fmt
      → look env b hp ≡ ok (node fmt opaque)
      → finish (do_lookup env b hp allow_neg type d) type n ≡ next d type false n
  unfolding do_lookup after_lookup
  do_lookup-mismatch n fmt opaque w z m l = ground arith

  -- An entry of the type is recorded; a file or an opaque directory ends the search.
  pub do_lookup-last :
      (n fmt : ℕ) (opaque : Bool)
      → d.bwh ≡ none
      → d.bdiropq ≡ none
      → (type ≡ 0) ⊎ (type ≡ fmt)
      → (fmt ≢ s_ifdir) ⊎ (opaque ≡ true)
      → look env b hp ≡ ok (node fmt opaque)
      → finish (do_lookup env b hp allow_neg type d) type n
        ≡ stop (ok (n + 1)) (do_lookup env b hp allow_neg type d).1
  unfolding do_lookup after_lookup
  do_lookup-last n fmt opaque w o z m l = ground arith

  -- Below any other directory the search goes on, for directories.
  pub do_lookup-dir :
      (n : ℕ)
      → d.bwh ≡ none
      → d.bdiropq ≡ none
      → (type ≡ 0) ⊎ (type ≡ s_ifdir)
      → look env b hp ≡ ok (node s_ifdir false)
      → (finish (do_lookup env b hp allow_neg type d) type n
          ≡ next (do_lookup env b hp allow_neg type d).1 s_ifdir false (n + 1))
        × ((do_lookup env b hp allow_neg type d).1.bwh ≡ none)
        × ((do_lookup env b hp allow_neg type d).1.bdiropq ≡ none)
  unfolding do_lookup after_lookup
  do_lookup-dir n w o z l = (ground arith, ground arith, ground arith)

  -- Only the slot of the branch is written.
  pub slots_of :
      (j : ℕ) (r : Result HDentry)
      → env.lkup hp env.name ≡ r
      → b ≢ j
      → get_or (do_lookup env b hp allow_neg type d).1.hdentry j none ≡ get_or d.hdentry j none
  unfolding do_lookup
  slots_of j (err x) q h = ground arith
  slots_of j (ok hd) q h = ground (
    arith,
    get_or-set_ne d.hdentry b j (some hd) none h,
    get_or-set_ne (set d.hdentry b (some hd)) b j none none h,
  )

  pub length_of :
      (r : Result HDentry)
      → env.lkup hp env.name ≡ r
      → length (do_lookup env b hp allow_neg type d).1.hdentry ≡ length d.hdentry
  unfolding do_lookup
  length_of (err x) q = ground arith
  length_of (ok hd) q =
      ground
        (arith, length-set d.hdentry b (some hd), length-set (set d.hdentry b (some hd)) b none)

  pub node_positive :
      (fmt : ℕ) (opaque : Bool) (j : ℕ) (r : Result HDentry)
      → env.lkup hp env.name ≡ r
      → b < length d.hdentry
      → (type ≡ 0) ⊎ (type ≡ fmt)
      → look env b hp ≡ ok (node fmt opaque)
      → is_positive (get_or (do_lookup env b hp allow_neg type d).1.hdentry j none)
        ≡ (if b == j then true else is_positive (get_or d.hdentry j none))
  unfolding do_lookup
  node_positive fmt opaque j (err x) q h z l = ground arith
  node_positive fmt opaque j (ok hd) q h z l =
      ground (arith, get_or-set d.hdentry b j (some hd) none h)

module _ (env : Env) (b : ℕ) (d : Dinfo) (type : ℕ) (allow_neg : Bool) (n : ℕ) where
  empty_slot : get_or d.hdentry b none ≡ none → h_dptr_i d b ≡ none
  unfolding h_dptr_i
  empty_slot e = ground arith

  -- A branch without the parent directory is passed over.
  pub round-missing :
      get_or d.hdentry b none ≡ none
      → hidden_dir (h_dptr_i env.parent b) ≡ none
      → lkup_round env b d type allow_neg n ≡ next d type allow_neg n
  unfolding lkup_round
  round-missing e l = ground (arith, empty_slot e)

  -- On any other the round is what `do_lookup` makes of it.
  pub round-finish :
      (hp : HDentry)
      → get_or d.hdentry b none ≡ none
      → hidden_dir (h_dptr_i env.parent b) ≡ some hp
      → lkup_round env b d type allow_neg n ≡ finish (do_lookup env b hp allow_neg type d) type n
  unfolding lkup_round
  round-finish hp e l = ground (arith, empty_slot e)
