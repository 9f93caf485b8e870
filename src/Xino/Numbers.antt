-- ===== src/Xino/Numbers.antt =====
-- `xino_new_ino`: the numbers that it hands out.
use aufs.Common.{
  ℕ, zero, suc, ◌+◌, ◌≤◌, ◌<◌, ◌≡◌, ◌⊎◌, inl, inr, refl, List, [], ◌∷◌, arith, Bool-cases, ltb,
}
use aufs.Xino.{new_ino, first_ino, ino_mod}

-- The number is one more than the counter and becomes the counter, and is 0 with the counter left
-- alone exactly when the counter has reached its largest value.
pub new_ino_lem :
    (x : ℕ)
    → first_ino ≤ x
    → x < ino_mod
    → ((x + 1 < ino_mod) × (new_ino x ≡ (x + 1, x + 1)))
      ⊎ ((x + 1 ≡ ino_mod) × (new_ino x ≡ (0, x)))
unfolding new_ino
new_ino_lem x h k = elim (Bool-cases (ltb (x + 1) ino_mod)) [
  | inl room ↦ inl (ground arith, ground arith)
  | inr full ↦ inr (ground arith, ground arith)
]

-- The numbers of `n` successive calls.
pub issue : ℕ → ℕ → List ℕ
issue zero x = []
issue (suc n) x = (new_ino x).0 ∷ issue n (new_ino x).1

-- Each number is 0 or larger than `x` and all numbers before it.
abbrev pub IsAscending : ℕ → List ℕ → Type 0
IsAscending x [] = Unit
IsAscending x (y ∷ ys) = ((y ≡ 0) × IsAscending x ys) ⊎ ((x < y) × IsAscending y ys)

-- The numbers handed out in a row, started at the first free number or later, are different from
-- one another and from every number up to the start, as long as they are not 0.
pub issue-IsAscending : (n x : ℕ) → first_ino ≤ x → x < ino_mod → IsAscending x (issue n x)
unfolding issue
issue-IsAscending zero x h k = tt
issue-IsAscending (suc n) x h k = elim (new_ino_lem x h k) [
  | inl (room, e) ↦ rw e (inr (omega arith, issue-IsAscending n (x + 1) (omega arith) room))
  | inr (full, e) ↦ rw e (inl (refl, issue-IsAscending n x h k))
]
