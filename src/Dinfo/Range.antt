-- ===== src/Dinfo/Range.antt =====
-- The loops over the branches of a dentry.
use aufs.Common.{
  set, List, [], ◌∷◌, first_such, first_such-first, IsFirstSuch, ℕ, zero, suc, ◌+◌, ◌-◌, ◌≤◌, ◌<◌,
  ◌≡◌, refl, ltb, leb, if◌then◌else◌, true, false, some, none, get_or, arith, Bool-cases, Bindex,
  set-get_or, get_or-set_default, ◌⊎◌, subst, ap, ap₂, sym, ◌∙◌, from_branch, le-cases, inl, inr,
  Option, get_or-set_ne, count_to,
}
use aufs.Lower.{HDentry, is_positive}
use aufs.Dinfo.{
  Dinfo, h_dptr_i, update_dbstart_from, update_dbstart, find_dbindex, holds, set_dbstart,
  set_h_dptr,
}

-- `au_find_dbindex` returns the first branch of the range that holds the hidden dentry, and -1
-- exactly when no branch of the range holds it.
pub find_dbindex_lem :
    (d : Dinfo) (id lo hi : ℕ)
    → d.bstart ≡ some lo
    → d.bend ≡ some hi
    → lo ≤ hi
    → IsFirstSuch (λ b. holds (h_dptr_i d b) id) lo (suc hi) (find_dbindex d id)
unfolding find_dbindex
find_dbindex_lem d id lo hi s t h =
    rw
      (ap₂
        (λ x y.
          first_such (λ b. holds (h_dptr_i d b) id) (count_to y - from_branch x) (from_branch x))
        s t)
      (first_such-first (λ b. holds (h_dptr_i d b) id) (suc hi - lo) lo (suc hi) (omega arith))

-- What the loop of `au_update_dbstart` leaves behind, started at `lo` with `n` rounds left.
-- `stop` is the branch at which it stopped, past the range if it met no positive entry.
pub record Trimmed (d d' : Dinfo) (lo stop : ℕ) : Type 0 where
  pub dropped : (j : ℕ) → lo ≤ j → j < stop → get_or d'.hdentry j none ≡ none
  pub above : (j : ℕ) → stop ≤ j → get_or d'.hdentry j none ≡ get_or d.hdentry j none
  pub before : (j : ℕ) → j < lo → get_or d'.hdentry j none ≡ get_or d.hdentry j none
  pub same_bend : d'.bend ≡ d.bend
  pub same_bwh : d'.bwh ≡ d.bwh
  pub same_bdiropq : d'.bdiropq ≡ d.bdiropq

h_dptr_i_at :
    (d : Dinfo) (s j : ℕ) → d.bstart ≡ some s → s ≤ j → h_dptr_i d j ≡ get_or d.hdentry j none
unfolding h_dptr_i
h_dptr_i_at d s j e h = ground arith

update_dbstart_from_step :
    (n b s : ℕ) (d : Dinfo)
    → d.bstart ≡ some s
    → s ≤ b
    → update_dbstart_from (suc n) b d ≡ (
        if is_positive (get_or d.hdentry b none)
        then set_dbstart d (some b)
        else update_dbstart_from n (b + 1) (set_h_dptr d b none))
unfolding update_dbstart_from
update_dbstart_from_step n b s d e h =
    ground (arith, h_dptr_i_at d s b e h, set-get_or d.hdentry b none)

-- Nothing is trimmed where the loop stops at once.
Trimmed-stop : (d : Dinfo) (b : Bindex) (lo : ℕ) → Trimmed d (set_dbstart d b) lo lo
Trimmed-stop d b lo = record {
  dropped = λ i p q. absurd (omega arith);
  above = λ i p. refl;
  before = λ i p. refl;
  same_bend = refl;
  same_bwh = refl;
  same_bdiropq = refl;
}

-- A round that drops the entry at `lo`, and what the later rounds do.
Trimmed-drop :
    (d d' : Dinfo) (lo j : ℕ)
    → lo < j
    → Trimmed (set_h_dptr d lo none) d' (lo + 1) j
    → Trimmed d d' lo j
Trimmed-drop d d' lo j h t = record {
  dropped = λ i p q. elim (le-cases lo i p) [
    | inl e ↦
        subst (λ k. get_or d'.hdentry k none ≡ none) e
          (t.before lo (omega arith) ∙ get_or-set_default d.hdentry lo none)
    | inr e ↦ t.dropped i e q
  ];
  above = λ i p. t.above i p ∙ get_or-set_ne d.hdentry lo i none none (omega arith);
  before = λ i p. t.before i (omega arith) ∙ get_or-set_ne d.hdentry lo i none none (omega arith);
  same_bend = t.same_bend;
  same_bwh = t.same_bwh;
  same_bdiropq = t.same_bdiropq;
}

abbrev IsStop : Dinfo → ℕ → ℕ → ℕ → Type 0
IsStop d lo n j =
    (lo ≤ j)
    × (j ≤ lo + n)
    × ((j ≡ lo + n) ⊎ (is_positive (get_or d.hdentry j none) ≡ true))
    × ((i : ℕ) → lo ≤ i → i < j → is_positive (get_or d.hdentry i none) ≡ false)

module _ (d : Dinfo) (lo n j : ℕ) where
  IsStop-here : IsStop d lo (suc n) j → is_positive (get_or d.hdentry lo none) ≡ true → j ≡ lo
  IsStop-here (p, q, end, before) pos = elim (le-cases lo j p) [
    | inl e ↦ sym e
    | inr e ↦ absurd (let b = before lo (omega arith) (omega arith) in cc)
  ]

  IsStop-after : IsStop d lo (suc n) j → is_positive (get_or d.hdentry lo none) ≡ false → lo < j
  IsStop-after (p, q, end, before) neg = elim (le-cases lo j p) [
    | inl e ↦ absurd (elim end [
      | inl last ↦ omega arith
      | inr pos ↦
          let pos' = subst (λ k. is_positive (get_or d.hdentry k none) ≡ true) (sym e) pos in cc
    ])
    | inr e ↦ omega arith
  ]

  IsStop-next : IsStop d lo (suc n) j → lo < j → IsStop (set_h_dptr d lo none) (lo + 1) n j
  IsStop-next (p, q, end, before) h = (
    omega arith,
    omega arith,
    elim end [
      | inl last ↦ inl (omega arith)
      | inr pos ↦ inr (ap is_positive (get_or-set_ne d.hdentry lo j none none (omega arith)) ∙ pos)
    ],
    λ i a b.
        ap is_positive (get_or-set_ne d.hdentry lo i none none (omega arith))
        ∙ before i (omega arith) b,
  )

update_dbstart_from_lem :
    (n lo s : ℕ) (d : Dinfo)
    → d.bstart ≡ some s
    → s ≤ lo
    → (j : ℕ) → IsStop d lo n j
    → Trimmed d (update_dbstart_from n lo d) lo j
      × ((update_dbstart_from n lo d).bstart ≡ (if ltb j (lo + n) then some j else d.bstart))
update_dbstart_from_lem zero lo s d e h j (p, q, end, neg) =
    let same : j ≡ lo = omega arith in
    unfold update_dbstart_from in (rw same (Trimmed-stop d d.bstart lo), ground arith)
update_dbstart_from_lem (suc n) lo s d e h j stop =
    elim (Bool-cases (is_positive (get_or d.hdentry lo none))) [
      | inl pos ↦
          let same : j ≡ lo = IsStop-here d lo n j stop pos in
          rw (update_dbstart_from_step n lo s d e h, pos, same)
            (Trimmed-stop d (some lo) lo, ground arith)
      | inr neg ↦
          let later = IsStop-after d lo n j stop neg in
          let rec =
            update_dbstart_from_lem n (lo + 1) s (set_h_dptr d lo none) e (omega arith) j
              (IsStop-next d lo n j stop later) in
          rw (update_dbstart_from_step n lo s d e h, neg)
            (Trimmed-drop d _ lo j later rec.0, ground (arith, rec.1))
    ]

-- `au_update_dbstart` moves dbstart to the first branch of the range whose hidden dentry is
-- positive, drops the hidden dentries before it, and leaves all others, dbend and the marks alone.
-- Where the range holds no positive one, it drops every hidden dentry of the range and leaves
-- dbstart as it was. `j` is that first branch, or one more than dbend.
pub update_dbstart_lem :
    (d : Dinfo) (lo hi j : ℕ)
    → d.bstart ≡ some lo
    → d.bend ≡ some hi
    → lo ≤ hi
    → IsStop d lo (suc hi - lo) j
    → Trimmed d (update_dbstart d) lo j
      × ((update_dbstart d).bstart ≡ (if leb j hi then some j else some lo))
unfolding update_dbstart
update_dbstart_lem d lo hi j s t h stop =
    rw (ap₂ (λ x y. update_dbstart_from (count_to y - from_branch x) (from_branch x) d) s t)
      (lem.0, ground (arith, lem.1))
  where
    lem :
        Trimmed d (update_dbstart_from (suc hi - lo) lo d) lo j
        × ((update_dbstart_from (suc hi - lo) lo d).bstart
            ≡ (if ltb j (lo + (suc hi - lo)) then some j else d.bstart))
    lem = update_dbstart_from_lem (suc hi - lo) lo lo d s (omega arith) j stop

-- Dropping a negative entry takes no positive one away.
set-none-positive :
    (xs : List (Option HDentry)) (b j : ℕ)
    → is_positive (get_or xs b none) ≡ false
    → is_positive (get_or (set xs b none) j none) ≡ is_positive (get_or xs j none)
set-none-positive [] b j e = refl
set-none-positive (x ∷ xs) zero zero e = sym e
set-none-positive (x ∷ xs) zero (suc j) e = refl
set-none-positive (x ∷ xs) (suc b) zero e = refl
set-none-positive (x ∷ xs) (suc b) (suc j) e = set-none-positive xs b j e

update_dbstart_from-positive :
    (n b : ℕ) (d : Dinfo) (j : ℕ)
    → is_positive (get_or (update_dbstart_from n b d).hdentry j none)
      ≡ is_positive (get_or d.hdentry j none)
unfolding update_dbstart_from h_dptr_i
update_dbstart_from-positive zero b d j = refl
update_dbstart_from-positive (suc n) b d j = ground (
  arith,
  update_dbstart_from-positive n (b + 1) d j,
  update_dbstart_from-positive n (b + 1) (set_h_dptr d b none) j,
  set-none-positive d.hdentry b j,
)

-- `au_update_dbstart` drops negative hidden dentries only.
pub update_dbstart-positive :
    (d : Dinfo) (j : ℕ)
    → is_positive (get_or (update_dbstart d).hdentry j none) ≡ is_positive (get_or d.hdentry j none)
unfolding update_dbstart
update_dbstart-positive d j = update_dbstart_from-positive _ _ d j
