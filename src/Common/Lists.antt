-- ===== src/Common/Lists.antt =====
-- C arrays as lists with native indices. `insert_at` and `erase_at` are the two `memmove` idioms.
use Prim.Native.Nat.{ℕ, zero, suc, ◌+◌, ◌≤◌, ◌<◌}
use mathlib.Core.Path.{◌≡◌, refl, ap, sym, subst}
use mathlib.Core.Logic.{◌≢◌, inl, inr}
use mathlib.Core.List.{List, [], ◌∷◌, ◌++◌}
use mathlib.Core.Option.{Option, none, some}
use mathlib.Core.Bool.{Bool, true, false, ◌||◌}
use native.Mathlib.Omega.{arith}
use aufs.Common.Tests.{◌==◌, if◌then◌else◌, Bool-cases}

module _ {ℓ} {A : Type ℓ} where
  abbrev pub length : List A → ℕ
  length [] = 0
  length (x ∷ xs) = suc (length xs)

  abbrev pub get_elem? : List A → ℕ → Option A
  get_elem? [] i = none
  get_elem? (x ∷ xs) zero = some x
  get_elem? (x ∷ xs) (suc i) = get_elem? xs i

  abbrev pub get_or : List A → ℕ → A → A
  get_or [] i d = d
  get_or (x ∷ xs) zero d = x
  get_or (x ∷ xs) (suc i) d = get_or xs i d

  -- A write out of bounds changes nothing.
  abbrev pub set : List A → ℕ → A → List A
  set [] i v = []
  set (x ∷ xs) zero v = v ∷ xs
  set (x ∷ xs) (suc i) v = x ∷ set xs i v

  -- `memmove(a + i + 1, a + i, ...)`, then a store at `i`.
  abbrev pub insert_at : ℕ → A → List A → List A
  insert_at zero v xs = v ∷ xs
  insert_at (suc i) v [] = v ∷ []
  insert_at (suc i) v (x ∷ xs) = x ∷ insert_at i v xs

  -- `memmove(a + i, a + i + 1, ...)`, with the last slot given up.
  abbrev pub erase_at : ℕ → List A → List A
  erase_at i [] = []
  erase_at zero (x ∷ xs) = xs
  erase_at (suc i) (x ∷ xs) = x ∷ erase_at i xs

  -- The first `n` slots of an array; a slot past its end reads as `d`.
  abbrev pub window : ℕ → A → List A → List A
  window zero d xs = []
  window (suc n) d [] = d ∷ window n d []
  window (suc n) d (x ∷ xs) = x ∷ window n d xs

  -- The loop `for (i = b; ...; i++) if (p(a[i])) return i;` over the slots from `b` on.
  abbrev pub find_slot : (A → Bool) → List A → ℕ → Option ℕ
  find_slot p [] b = none
  find_slot p (x ∷ xs) b = if p x then some b else find_slot p xs (b + 1)

  abbrev pub drop : ℕ → List A → List A
  drop zero xs = xs
  drop (suc n) [] = []
  drop (suc n) (x ∷ xs) = drop n xs

  abbrev pub replicate : ℕ → A → List A
  replicate zero a = []
  replicate (suc n) a = a ∷ replicate n a

module _ {ℓ} {A : Type ℓ} where
  pub length-append : (xs ys : List A) → length (xs ++ ys) ≡ length xs + length ys
  length-append [] ys = omega arith
  length-append (x ∷ xs) ys = omega (arith, length-append xs ys)

  pub length-set : (xs : List A) (i : ℕ) (v : A) → length (set xs i v) ≡ length xs
  length-set [] i v = refl
  length-set (x ∷ xs) zero v = refl
  length-set (x ∷ xs) (suc i) v = ap suc (length-set xs i v)

  pub length-insert_at : (i : ℕ) (v : A) (xs : List A) → length (insert_at i v xs) ≡ suc (length xs)
  length-insert_at zero v xs = refl
  length-insert_at (suc i) v [] = refl
  length-insert_at (suc i) v (x ∷ xs) = ap suc (length-insert_at i v xs)

  pub length-erase_at :
      (i : ℕ) (xs : List A) → i < length xs → suc (length (erase_at i xs)) ≡ length xs
  length-erase_at i [] h = absurd (omega arith)
  length-erase_at zero (x ∷ xs) h = refl
  length-erase_at (suc i) (x ∷ xs) h = ap suc (length-erase_at i xs (omega arith))

  pub erase_at-insert_at :
      (i : ℕ) (v : A) (xs : List A) → i ≤ length xs → erase_at i (insert_at i v xs) ≡ xs
  erase_at-insert_at zero v xs h = refl
  erase_at-insert_at (suc i) v [] h = absurd (omega arith)
  erase_at-insert_at (suc i) v (x ∷ xs) h = ap (◌∷◌ x) (erase_at-insert_at i v xs (omega arith))

  pub get_or-set_self :
      (xs : List A) (i : ℕ) (v d : A) → i < length xs → get_or (set xs i v) i d ≡ v
  get_or-set_self [] i v d h = absurd (omega arith)
  get_or-set_self (x ∷ xs) zero v d h = refl
  get_or-set_self (x ∷ xs) (suc i) v d h = get_or-set_self xs i v d (omega arith)

  pub get_or-set_ne :
      (xs : List A) (i j : ℕ) (v d : A) → i ≢ j → get_or (set xs i v) j d ≡ get_or xs j d
  get_or-set_ne [] i j v d h = refl
  get_or-set_ne (x ∷ xs) zero zero v d h = absurd (h refl)
  get_or-set_ne (x ∷ xs) zero (suc j) v d h = refl
  get_or-set_ne (x ∷ xs) (suc i) zero v d h = refl
  get_or-set_ne (x ∷ xs) (suc i) (suc j) v d h = get_or-set_ne xs i j v d (λ e. h (ap suc e))

module _ {ℓ} {A : Type ℓ} where
  -- Storing what is there already, or storing past the end, changes nothing.
  pub set-get_or : (xs : List A) (i : ℕ) (d : A) → get_or xs i d ≡ d → set xs i d ≡ xs
  set-get_or [] i d e = refl
  set-get_or (x ∷ xs) zero d e = ap (λ y. y ∷ xs) (sym e)
  set-get_or (x ∷ xs) (suc i) d e = ap (◌∷◌ x) (set-get_or xs i d e)

  -- A store of the default is read back also past the end.
  pub get_or-set_default : (xs : List A) (i : ℕ) (d : A) → get_or (set xs i d) i d ≡ d
  get_or-set_default [] i d = refl
  get_or-set_default (x ∷ xs) zero d = refl
  get_or-set_default (x ∷ xs) (suc i) d = get_or-set_default xs i d

module _ {ℓ} {A : Type ℓ} where
  pub length-window : (n : ℕ) (d : A) (xs : List A) → length (window n d xs) ≡ n
  length-window zero d xs = refl
  length-window (suc n) d [] = ap suc (length-window n d [])
  length-window (suc n) d (x ∷ xs) = ap suc (length-window n d xs)

  pub get_or-window :
      (n i : ℕ) (d : A) (xs : List A) → i < n → get_or (window n d xs) i d ≡ get_or xs i d
  get_or-window zero i d xs h = absurd (omega arith)
  get_or-window (suc n) zero d [] h = refl
  get_or-window (suc n) (suc i) d [] h = get_or-window n i d [] (omega arith)
  get_or-window (suc n) zero d (x ∷ xs) h = refl
  get_or-window (suc n) (suc i) d (x ∷ xs) h = get_or-window n i d xs (omega arith)

  -- A search that ends at `b + i` passed the test there, and at no slot before.
  pub find_slot-some :
      (p : A → Bool) (xs : List A) (b j : ℕ) (d : A)
      → find_slot p xs b ≡ some j
      → (i : ℕ) × (j ≡ b + i)
        × (i < length xs)
        × (p (get_or xs i d) ≡ true)
        × ((k : ℕ) → k < i → p (get_or xs k d) ≡ false)
  find_slot-some p [] b j d e = cc
  find_slot-some p (x ∷ xs) b j d e = elim (Bool-cases (p x)) [
    | inl hit ↦ (0, ground arith, omega arith, hit, λ k h. absurd (omega arith))
    | inr miss ↦
        let (i, at, below, here, first) = find_slot-some p xs (b + 1) j d (ground arith) in
        (
          suc i,
          omega arith,
          omega arith,
          here,
          elim [ zero ↦ λ h. miss | suc k ↦ λ h. first k (omega arith) ],
        )
  ]

  pub find_slot-none :
      (p : A → Bool) (xs : List A) (b : ℕ) (d : A)
      → find_slot p xs b ≡ none
      → (k : ℕ) → k < length xs
      → p (get_or xs k d) ≡ false
  find_slot-none p [] b d e k h = absurd (omega arith)
  find_slot-none p (x ∷ xs) b d e zero h = ground arith
  find_slot-none p (x ∷ xs) b d e (suc k) h =
      find_slot-none p xs (b + 1) d (ground arith) k (omega arith)

  pub get_or-set :
      (xs : List A) (i j : ℕ) (v d : A)
      → i < length xs
      → get_or (set xs i v) j d ≡ (if i == j then v else get_or xs j d)
  get_or-set xs i j v d h = elim (Bool-cases (i == j)) [
    | inl e ↦
        rw e (subst (λ k. get_or (set xs i v) k d ≡ v) (ground arith) (get_or-set_self xs i v d h))
    | inr e ↦ rw e (get_or-set_ne xs i j v d (ground arith))
  ]

-- Membership of a number, as a loop with a flag computes it.
abbrev pub contains : List ℕ → ℕ → Bool
contains [] a = false
contains (x ∷ xs) a = x == a || contains xs a

-- The predicate holds of each element.
module _ {ℓ κ} {A : Type ℓ} (P : A → Type κ) where
  abbrev pub All : List A → Type κ
  All [] = Unit
  All (x ∷ xs) = P x × All xs
