-- ===== src/Iinfo/Brange.antt =====
-- `au_update_brange`: the range of an inode is fitted to the hidden inodes that it has.
use aufs.Common.{
  first_such, first_such-first, last_such-last, IsFirstSuch, IsLastSuch, ℕ, zero, suc, ◌+◌, ◌-◌,
  ◌≤◌, ◌<◌, ◌≡◌, refl, ap, ◌∙◌, ◌==◌, if◌then◌else◌, Bool, true, false, ◌&&◌, Option, some, none,
  List, [], ◌∷◌, get_or, arith, Bool-cases, not_both, inl, inr, subst, Bindex, leb, ltb, eq_bindex,
  count_to, from_branch, set,
}
use aufs.Lower.{HInode}
use aufs.Iinfo.{
  Hinode, Iinfo, zero_hinode, new_slot, h_iptr_i, set_h_iptr, is_unlinked, put_zero_from, has_iptr,
  fit_range, update_brange,
}

-- The range is fitted to `n` slots: it runs from the first inode to the last, or is empty.
abbrev pub IsFitted : ℕ → Iinfo → Bindex → Bindex → Type 0
IsFitted n ii (some s) (some e) =
    (s ≤ e)
    × (e < n)
    × (has_iptr ii (s) ≡ true)
    × (has_iptr ii (e) ≡ true)
    × ((j : ℕ) → j < s → has_iptr ii (j) ≡ false)
    × ((j : ℕ) → e < j → j < n → has_iptr ii (j) ≡ false)
IsFitted n ii none none = (j : ℕ) → j < n → has_iptr ii (j) ≡ false
IsFitted n ii none (some e) = ⊥
IsFitted n ii (some s) none = ⊥

join :
    (n : ℕ) (ii : Iinfo) (s : ℕ) (l : Bindex)
    → IsFirstSuch (has_iptr ii) 0 n (some s)
    → IsLastSuch (has_iptr ii) n l
    → IsFitted n ii (some s) l
join n ii s none (from, below, here, first) rest = not_both here (rest s (omega arith))
join n ii s (some e) (from, below, here, first) (below', here', last) = (
  elim (Bool-cases (leb s e)) [
    | inl le ↦ ground arith
    | inr gt ↦ absurd (not_both here (last s (omega arith) (ground arith)))
  ],
  below',
  here,
  here',
  λ j p. first j (omega arith) p,
  λ j p q. last j q p,
)

fit_range-IsFitted :
    (ii : Iinfo) (r : Bindex)
    → IsFirstSuch (has_iptr ii) 0 (count_to ii.bend) r
    → first_such (has_iptr ii) (count_to ii.bend) 0 ≡ r
    → IsFitted (count_to ii.bend) (fit_range ii) (fit_range ii).bstart (fit_range ii).bend
unfolding fit_range
fit_range-IsFitted ii none absent e = rw (e, fit_range) (λ j p. absent j (omega arith) p)
fit_range-IsFitted ii (some s) first e =
    rw (e, fit_range)
      (join (count_to ii.bend) ii s _ first (last_such-last (has_iptr ii) (count_to ii.bend)))

get_or-set-inode :
    (xs : List Hinode) (b j : ℕ)
    → (get_or (set xs b (new_slot (get_or xs b zero_hinode) none 0)) j zero_hinode).inode
      ≡ (if b == j then none else (get_or xs j zero_hinode).inode)
get_or-set-inode [] b j = ground arith
get_or-set-inode (x ∷ xs) zero zero = refl
get_or-set-inode (x ∷ xs) zero (suc j) = ground arith
get_or-set-inode (x ∷ xs) (suc b) zero = ground arith
get_or-set-inode (x ∷ xs) (suc b) (suc j) = ground (arith, get_or-set-inode xs b j)

put_zero-iptr :
    (n lo : ℕ) (ii : Iinfo) (j : ℕ)
    → h_iptr_i (put_zero_from n lo ii) j ≡ (
        if leb lo j && (ltb j (lo + n) && is_unlinked (h_iptr_i ii j)) then none else h_iptr_i ii j)
unfolding put_zero_from
put_zero-iptr zero lo ii j = ground arith
put_zero-iptr (suc n) lo ii j = ground (
  arith,
  get_or-set-inode ii.hinode lo j,
  put_zero-iptr n (lo + 1) ii j,
  put_zero-iptr n (lo + 1) (set_h_iptr ii lo none 0) j,
)

put_zero-range :
    (n lo : ℕ) (ii : Iinfo)
    → ((put_zero_from n lo ii).bstart ≡ ii.bstart) × ((put_zero_from n lo ii).bend ≡ ii.bend)
unfolding put_zero_from
put_zero-range zero lo ii = (refl, refl)
put_zero-range (suc n) lo ii =
    ground
      (arith, put_zero-range n (lo + 1) ii, put_zero-range n (lo + 1) (set_h_iptr ii lo none 0))

-- The hidden inodes after the optional pass that puts the unlinked ones of the range `s` to `e`.
abbrev pub kept : Iinfo → Bool → ℕ → ℕ → ℕ → Option HInode
kept ii do_put_zero s e j =
    if do_put_zero && (leb s j && (leb j e && is_unlinked (h_iptr_i ii j)))
    then none
    else h_iptr_i ii j

fit_range-bend :
    (jj : Iinfo) (e : ℕ)
    → jj.bend ≡ some e
    → IsFitted (suc e) (fit_range jj) (fit_range jj).bstart (fit_range jj).bend
fit_range-bend jj e h =
    subst (λ b. IsFitted (count_to b) (fit_range jj) (fit_range jj).bstart (fit_range jj).bend) h
      (fit_range-IsFitted jj _
        (first_such-first (has_iptr jj) (count_to jj.bend) 0 (count_to jj.bend) (omega arith)) refl)

fit_range-same : (ii : Iinfo) → (fit_range ii).hinode ≡ ii.hinode
unfolding fit_range
fit_range-same ii = ground arith

fit_after :
    (ii jj : Iinfo) (s e : ℕ) (do_put_zero : Bool)
    → ii.bstart ≡ some s
    → ii.bend ≡ some e
    → (if do_put_zero
        then put_zero_from (count_to ii.bend - from_branch ii.bstart) (from_branch ii.bstart) ii
        else ii)
      ≡ jj
    → (jj.bend ≡ some e) × ((j : ℕ) → h_iptr_i jj j ≡ kept ii do_put_zero s e j)
fit_after ii jj s e false hs he h = (ground arith, λ j. ground arith)
fit_after ii jj s e true hs he h = (
  ground (arith, put_zero-range (suc e - s) s ii),
  λ j. ground (arith, put_zero-iptr (suc e - s) s ii j),
)

-- `au_update_brange` on an inode with a range: the hidden inodes that had no link left are put when
-- that is asked for, all others stay, and the range then runs from the first hidden inode up to
-- the old end to the last one, or is -1 at both ends when there is none.
pub update_brange_lem :
    (ii : Iinfo) (do_put_zero : Bool) (s e : ℕ)
    → ii.bstart ≡ some s
    → ii.bend ≡ some e
    → let r = update_brange ii do_put_zero in
      IsFitted (suc e) r r.bstart r.bend × ((j : ℕ) → h_iptr_i r j ≡ kept ii do_put_zero s e j)
unfolding update_brange
update_brange_lem ii do_put_zero s e hs he =
    let jj =
      if do_put_zero
      then put_zero_from (count_to ii.bend - from_branch ii.bstart) (from_branch ii.bstart) ii
      else ii in
    let (same_bend, iptr) = fit_after ii jj s e do_put_zero hs he refl in
    let entered : eq_bindex ii.bstart none ≡ false = ap (λ b. eq_bindex b none) hs in
    rw entered (
      fit_range-bend jj e same_bend,
      λ j. ap (λ xs. (get_or xs j zero_hinode).inode) (fit_range-same jj) ∙ iptr j,
    )
