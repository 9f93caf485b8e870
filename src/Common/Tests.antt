-- ===== src/Common/Tests.antt =====
-- Boolean tests on the native numbers, and the conditional.
use Prim.Native.Nat.{ℕ, suc, ◌+◌, ◌≤◌, ◌<◌, compare, Ordering}
use mathlib.Core.Path.{◌≡◌, refl, sym, subst}
use mathlib.Core.Logic.{◌↔◌, ◌⊎◌, inl, inr}
use mathlib.Core.Bool.{Bool, true, false}
use mathlib.Core.Option.{Option, none, some}
use native.Mathlib.Omega.{arith}

abbrev pub ltb : ℕ → ℕ → Bool
ltb a b = elim (compare a b) [ Ordering.lt ↦ true | _ ↦ false ]

abbrev pub leb : ℕ → ℕ → Bool
leb a b = elim (compare a b) [ Ordering.gt ↦ false | _ ↦ true ]

infix 50 ◌==◌
abbrev pub ◌==◌ : ℕ → ℕ → Bool
a == b = elim (compare a b) [ Ordering.eq ↦ true | _ ↦ false ]

infix 1 if◌then◌else◌
abbrev pub if◌then◌else◌ {ℓ} : {A : Type ℓ} → Bool → A → A → A
if true then x else y = x
if false then x else y = y

pub ==_iff : (a b : ℕ) → ((a == b) ≡ true) ↔ (a ≡ b)
==_iff a b = ground arith

-- To split on a computed value and keep the equation.
pub Bool-cases : (b : Bool) → (b ≡ true) ⊎ (b ≡ false)
Bool-cases true = inl refl
Bool-cases false = inr refl

pub Option-cases {ℓ} : {A : Type ℓ} (o : Option A) → (o ≡ none) ⊎ ((a : A) × (o ≡ some a))
Option-cases none = inl refl
Option-cases (some a) = inr (a, refl)

pub le-cases : (a b : ℕ) → a ≤ b → (a ≡ b) ⊎ (a + 1 ≤ b)
le-cases a b h = elim (Bool-cases (a == b)) [
  | inl e ↦ inl (ground arith)
  | inr e ↦ inr (ground arith)
]

pub not_both : {b : Bool} → b ≡ true → b ≡ false → ⊥
not_both p q = cc

-- A statement about a range of numbers, extended at its lower and at its upper end.
module _ {ℓ} (P : ℕ → Type ℓ) where
  pub from-cons :
      (lo hi : ℕ) → P lo → ((j : ℕ) → lo + 1 ≤ j → j < hi → P j) → (j : ℕ) → lo ≤ j → j < hi → P j
  from-cons lo hi here rest j p q = elim (le-cases lo j p) [
    | inl e ↦ subst P e here
    | inr h ↦ rest j h q
  ]

  pub below-snoc : (n : ℕ) → P n → ((j : ℕ) → j < n → P j) → (j : ℕ) → j < suc n → P j
  below-snoc n here rest j p = elim (le-cases j n (omega arith)) [
    | inl e ↦ subst P (sym e) here
    | inr h ↦ rest j (omega arith)
  ]
