-- ===== src/Common/Arrays.antt =====
-- The arrays with a slot for each branch: growing one, and shifting a part of it by `memmove`.
-- `window n` is what the code reads of one, its first `n` slots.
use Prim.Native.Nat.{ℕ, zero, suc, ◌≤◌}
use mathlib.Core.Path.{◌≡◌, refl, ap, ◌∙◌}
use mathlib.Core.List.{List, [], ◌∷◌}
use native.Mathlib.Omega.{arith}
use aufs.Common.Lists.{length, window, insert_at, erase_at}

module _ {ℓ} {A : Type ℓ} where
  -- `au_kzrealloc` where it succeeds: at least `n` slots, the new ones zeroed to `d`.
  abbrev pub grow : ℕ → A → List A → List A
  grow zero d xs = xs
  grow (suc n) d [] = d ∷ grow n d []
  grow (suc n) d (x ∷ xs) = x ∷ grow n d xs

  -- `memmove(a + i + 1, a + i, (m - i) * size); a[i] = v;`
  abbrev pub shift_up : ℕ → ℕ → A → List A → List A
  shift_up i m v xs = insert_at i v (erase_at m xs)

  -- `memmove(a + i, a + i + 1, (m - i) * size); a[m] = d;`
  abbrev pub shift_down : ℕ → ℕ → A → List A → List A
  shift_down i m d xs = insert_at m d (erase_at i xs)

module _ {ℓ} {A : Type ℓ} where
  pub window-grow : (m n : ℕ) (d : A) (xs : List A) → window m d (grow n d xs) ≡ window m d xs
  window-grow zero n d xs = refl
  window-grow (suc m) zero d xs = refl
  window-grow (suc m) (suc n) d [] = ap (◌∷◌ d) (window-grow m n d [])
  window-grow (suc m) (suc n) d (x ∷ xs) = ap (◌∷◌ x) (window-grow m n d xs)

  pub length-grow : (n : ℕ) (d : A) (xs : List A) → n ≤ length (grow n d xs)
  length-grow zero d xs = omega arith
  length-grow (suc n) d [] = omega (arith, length-grow n d [])
  length-grow (suc n) d (x ∷ xs) = omega (arith, length-grow n d xs)

  pub length-grow-le : (n : ℕ) (d : A) (xs : List A) → length xs ≤ length (grow n d xs)
  length-grow-le zero d xs = omega arith
  length-grow-le (suc n) d [] = omega arith
  length-grow-le (suc n) d (x ∷ xs) = omega (arith, length-grow-le n d xs)

  window-erase_at : (m : ℕ) (d : A) (xs : List A) → window m d (erase_at m xs) ≡ window m d xs
  window-erase_at zero d xs = refl
  window-erase_at (suc m) d [] = refl
  window-erase_at (suc m) d (x ∷ xs) = ap (◌∷◌ x) (window-erase_at m d xs)

  window-insert_at : (m : ℕ) (d : A) (xs : List A) → window m d (insert_at m d xs) ≡ window m d xs
  window-insert_at zero d xs = refl
  window-insert_at (suc m) d [] = refl
  window-insert_at (suc m) d (x ∷ xs) = ap (◌∷◌ x) (window-insert_at m d xs)

  erase_at-window :
      (i m : ℕ) (d : A) (xs : List A)
      → i ≤ m
      → window m d (erase_at i xs) ≡ erase_at i (window (suc m) d xs)
  erase_at-window zero m d [] h = refl
  erase_at-window zero m d (x ∷ xs) h = refl
  erase_at-window (suc i) zero d xs h = absurd (omega arith)
  erase_at-window (suc i) (suc m) d [] h = ap (◌∷◌ d) (erase_at-window i m d [] (omega arith))
  erase_at-window (suc i) (suc m) d (x ∷ xs) h = ap (◌∷◌ x) (erase_at-window i m d xs (omega arith))

  -- A slot is opened at `i`, and the `m` slots that were read stay in order round it.
  pub window-shift_up :
      (i m : ℕ) (v d : A) (xs : List A)
      → i ≤ m
      → i ≤ length xs
      → window (suc m) d (shift_up i m v xs) ≡ insert_at i v (window m d xs)
  window-shift_up zero m v d xs h k = ap (◌∷◌ v) (window-erase_at m d xs)
  window-shift_up (suc i) zero v d xs h k = absurd (omega arith)
  window-shift_up (suc i) (suc m) v d [] h k = absurd (omega arith)
  window-shift_up (suc i) (suc m) v d (x ∷ xs) h k =
      ap (◌∷◌ x) (window-shift_up i m v d xs (omega arith) (omega arith))

  -- The slot `i` is closed, and the other of the `m + 1` slots stay in order.
  pub window-shift_down :
      (i m : ℕ) (d : A) (xs : List A)
      → i ≤ m
      → window m d (shift_down i m d xs) ≡ erase_at i (window (suc m) d xs)
  window-shift_down i m d xs h = window-insert_at m d (erase_at i xs) ∙ erase_at-window i m d xs h
