-- ===== src/Branch/Writable.antt =====
-- Which branch takes a write: `find_rw_br`, `find_rw_parent` and `find_rw_parent_br`.
use aufs.Common.{
  ℕ, suc, ◌≤◌, ◌<◌, ◌≡◌, refl, true, false, some, none, Result, ok, err, erofs, arith, Bool-cases,
  inl, inr, from_branch, not_both, Bindex, first_such-first, last_such-last, IsFirstSuch,
  IsLastSuch,
}
use aufs.Dinfo.{Dinfo}
use aufs.Branch.{Brtable, or_rofs, is_rw, find_rw_br, parent_rw, find_rw_parent, find_rw_parent_br}

-- The last branch before the `n`-th that can be written; -EROFS if there is none.
abbrev pub Nearest : Brtable → ℕ → Result ℕ → Type 0
Nearest t n (ok b) = (b < n) × (is_rw t b ≡ true) × ((j : ℕ) → j < n → b < j → is_rw t j ≡ false)
Nearest t n (err e) = (e ≡ erofs) × ((j : ℕ) → j < n → is_rw t j ≡ false)

or_rofs-Nearest :
    (t : Brtable) (n : ℕ) (r : Bindex) → IsLastSuch (is_rw t) n r → Nearest t n (or_rofs r)
or_rofs-Nearest t n none h = (refl, h)
or_rofs-Nearest t n (some b) h = h

-- `find_rw_br` takes the branch nearest above `bend`, `bend` included, that can be written, and
-- returns -EROFS exactly when every branch up to `bend` is read-only.
pub find_rw_br-Nearest : (t : Brtable) (bend : ℕ) → Nearest t (suc bend) (find_rw_br t bend)
unfolding find_rw_br
find_rw_br-Nearest t bend = or_rofs-Nearest t (suc bend) _ (last_such-last (is_rw t) (suc bend))

-- What `find_rw_parent_br` promises its callers.
abbrev pub Chosen : Brtable → Dinfo → ℕ → Result ℕ → Type 0
Chosen t parent bend (ok b) =
    (b ≤ bend)
    × (is_rw t b ≡ true)
    × ((j : ℕ)
        → from_branch parent.bstart ≤ j
        → j ≤ bend
        → parent_rw t parent j ≡ true
        → parent_rw t parent b ≡ true)
Chosen t parent bend (err e) = (e ≡ erofs) × ((j : ℕ) → j ≤ bend → is_rw t j ≡ false)

parent_rw-is_rw :
    (t : Brtable) (parent : Dinfo) (b : ℕ) → parent_rw t parent b ≡ true → is_rw t b ≡ true
parent_rw-is_rw t parent b h = ground arith

-- What `find_rw_parent` finds: the parent can be written there, or nowhere in the range.
abbrev WithParent : Brtable → Dinfo → ℕ → Result ℕ → Type 0
WithParent t parent bend (ok b) = (b ≤ bend) × (parent_rw t parent b ≡ true)
WithParent t parent bend (err e) =
    (j : ℕ) → from_branch parent.bstart ≤ j → j ≤ bend → parent_rw t parent j ≡ false

or_rofs-WithParent :
    (t : Brtable) (parent : Dinfo) (bend : ℕ) (r : Bindex)
    → IsFirstSuch (parent_rw t parent) (from_branch parent.bstart) (suc bend) r
    → WithParent t parent bend (or_rofs r)
or_rofs-WithParent t parent bend none h = λ j p q. h j p (omega arith)
or_rofs-WithParent t parent bend (some b) h = (omega arith, h.2)

find_rw_parent-WithParent :
    (t : Brtable) (parent : Dinfo) (bend : ℕ)
    → from_branch parent.bstart ≤ bend
    → WithParent t parent bend (find_rw_parent t parent bend)
unfolding find_rw_parent
find_rw_parent-WithParent t parent bend h = elim (Bool-cases (parent_rw t parent bend)) [
  | inl here ↦ rw here (omega arith, here)
  | inr no_rw ↦ rw no_rw (
      or_rofs-WithParent t parent bend _
        (first_such-first (parent_rw t parent) _ _ (suc bend) (omega arith)))
]

fallback :
    (t : Brtable) (parent : Dinfo) (bend : ℕ) (r : Result ℕ)
    → ((j : ℕ) → from_branch parent.bstart ≤ j → j ≤ bend → parent_rw t parent j ≡ false)
    → Nearest t (suc bend) r
    → Chosen t parent bend r
fallback t parent bend (ok b) none_rw (below, free, rest) =
    (omega arith, free, λ j p q k. absurd (not_both k (none_rw j p q)))
fallback t parent bend (err e) none_rw (is_rofs, rest) = (is_rofs, λ j p. rest j (omega arith))

choose :
    (t : Brtable) (parent : Dinfo) (bend : ℕ) (r : Result ℕ)
    → WithParent t parent bend r
    → Chosen t parent bend (elim r [ ok b ↦ ok b | err _ ↦ find_rw_br t bend ])
choose t parent bend (ok b) (below, here) =
    (below, parent_rw-is_rw t parent b here, λ j p q k. here)
choose t parent bend (err e) none_rw = fallback t parent bend _ none_rw (find_rw_br-Nearest t bend)

-- The branch chosen for a copy-up lies at or above `bend` and can be written. It is one that the
-- parent directory has, if the parent has any such branch from its dbstart to `bend`. The call
-- fails, with -EROFS, only if every branch up to `bend` is read-only.
pub find_rw_parent_br-Chosen :
    (t : Brtable) (parent : Dinfo) (bend : ℕ)
    → from_branch parent.bstart ≤ bend
    → Chosen t parent bend (find_rw_parent_br t parent bend)
unfolding find_rw_parent_br
find_rw_parent_br-Chosen t parent bend h =
    choose t parent bend _ (find_rw_parent-WithParent t parent bend h)
