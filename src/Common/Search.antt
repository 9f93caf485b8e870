-- ===== src/Common/Search.antt =====
-- The two loops that look for a branch: upwards and downwards, with an early return.
use Prim.Native.Nat.{ℕ, zero, suc, ◌+◌, ◌≤◌, ◌<◌}
use mathlib.Core.Path.{◌≡◌}
use mathlib.Core.Logic.{inl, inr}
use mathlib.Core.Bool.{Bool, true, false}
use mathlib.Core.Option.{none, some}
use native.Mathlib.Omega.{arith}
use aufs.Common.Tests.{if◌then◌else◌, Bool-cases, from-cons, below-snoc}
use aufs.Common.Index.{Bindex}

-- `for (b = lo; ...; b++) if (p(b)) return b;` with `n` rounds.
unfoldable pub first_such : (ℕ → Bool) → ℕ → ℕ → Bindex
first_such p zero b = none
first_such p (suc n) b = let rest = first_such p n (b + 1) in if p b then some b else rest

-- `for (b = n - 1; b >= 0; b--) if (p(b)) return b;`
unfoldable pub last_such : (ℕ → Bool) → ℕ → Bindex
last_such p zero = none
last_such p (suc n) = let rest = last_such p n in if p n then some n else rest

-- A result of the first loop over the branches from `lo` up to but not including `hi`.
abbrev pub IsFirstSuch : (ℕ → Bool) → ℕ → ℕ → Bindex → Type 0
IsFirstSuch p lo hi none = (j : ℕ) → lo ≤ j → j < hi → p j ≡ false
IsFirstSuch p lo hi (some b) =
    (lo ≤ b) × (b < hi) × (p b ≡ true) × ((j : ℕ) → lo ≤ j → j < b → p j ≡ false)

-- A result of the second.
abbrev pub IsLastSuch : (ℕ → Bool) → ℕ → Bindex → Type 0
IsLastSuch p n none = (j : ℕ) → j < n → p j ≡ false
IsLastSuch p n (some b) = (b < n) × (p b ≡ true) × ((j : ℕ) → j < n → b < j → p j ≡ false)

module _ (p : ℕ → Bool) where
  first-cons :
      (lo hi : ℕ) (r : Bindex) → p lo ≡ false → IsFirstSuch p (lo + 1) hi r → IsFirstSuch p lo hi r
  first-cons lo hi none miss rest = from-cons (λ j. p j ≡ false) lo hi miss rest
  first-cons lo hi (some b) miss (from, below, here, rest) =
      (omega arith, below, here, from-cons (λ j. p j ≡ false) lo b miss rest)

  pub first_such-first : (n lo hi : ℕ) → lo + n ≡ hi → IsFirstSuch p lo hi (first_such p n lo)
  unfolding first_such
  first_such-first zero lo hi e = λ j h k. absurd (omega arith)
  first_such-first (suc n) lo hi e = elim (Bool-cases (p lo)) [
    | inl hit ↦ rw hit (omega arith, omega arith, hit, λ j h k. absurd (omega arith))
    | inr miss ↦ rw miss (first-cons lo hi _ miss (first_such-first n (lo + 1) hi (omega arith)))
  ]

  last-snoc : (n : ℕ) (r : Bindex) → p n ≡ false → IsLastSuch p n r → IsLastSuch p (suc n) r
  last-snoc n none miss rest = below-snoc (λ j. p j ≡ false) n miss rest
  last-snoc n (some b) miss (below, here, rest) =
      (omega arith, here, below-snoc (λ j. b < j → p j ≡ false) n (λ h. miss) rest)

  pub last_such-last : (n : ℕ) → IsLastSuch p n (last_such p n)
  unfolding last_such
  last_such-last zero = λ j h. absurd (omega arith)
  last_such-last (suc n) = elim (Bool-cases (p n)) [
    | inl hit ↦ rw hit (omega arith, hit, λ j h k. absurd (omega arith))
    | inr miss ↦ rw miss (last-snoc n _ miss (last_such-last n))
  ]
