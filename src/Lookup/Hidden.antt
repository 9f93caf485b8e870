-- ===== src/Lookup/Hidden.antt =====
-- What hides a name: branches without it, down to a whiteout.
use aufs.Common.{
  ℕ, zero, suc, ◌+◌, ◌≤◌, ◌<◌, ◌≡◌, ◌⊎◌, refl, ap, ◌-◌, ◌∷◌, ◌==◌, false, ap₂, ◌∙◌, inl, inr, [],
  arith, le-cases, sym, subst,
}
use aufs.Lower.{s_ifdir}
use aufs.Lookup.Stack.{Layer, missing, whited, nothing, node, visible}

-- The branch has neither an entry nor a whiteout of the name.
abbrev pub IsSilent : Layer → Type 0
IsSilent l = (l ≡ missing) ⊎ (l ≡ nothing)

silent-visible :
    (layers : ℕ → Layer) (n b type : ℕ)
    → IsSilent (layers b)
    → visible layers (suc n) b type ≡ visible layers n (b + 1) type
unfolding visible
silent-visible layers n b type (inl e) = rw (e, visible) refl
silent-visible layers n b type (inr e) = rw (e, visible) refl

pub visible-whited :
    (layers : ℕ → Layer) (n lo b type : ℕ)
    → lo ≤ b
    → ((j : ℕ) → lo ≤ j → j < b → j < lo + n → IsSilent (layers j))
    → (b < lo + n → layers b ≡ whited)
    → visible layers n lo type ≡ []
unfolding visible
visible-whited layers zero lo b type h above at = refl
visible-whited layers (suc n) lo b type h above at = elim (le-cases lo b h) [
  | inl e ↦ rw (subst (λ k. layers k ≡ whited) (sym e) (at (omega arith)), visible) refl
  | inr below ↦
      silent-visible layers n lo type (above lo (omega arith) (omega arith) (omega arith))
      ∙ visible-whited layers n (lo + 1) b type below
          (λ j p q r. above j (omega arith) q (omega arith)) (λ r. at (omega arith))
]

pub visible-silent :
    (layers : ℕ → Layer) (m n lo type : ℕ)
    → ((j : ℕ) → lo ≤ j → j < lo + m → IsSilent (layers j))
    → visible layers (m + n) lo type ≡ visible layers n (lo + m) type
unfolding visible
visible-silent layers zero n lo type above =
    ap₂ (λ a b. visible layers a b type) (omega arith) (omega arith)
visible-silent layers (suc m) n lo type above =
    ap (λ a. visible layers a lo type) {y = suc (m + n)} (omega arith)
    ∙ silent-visible layers (m + n) lo type (above lo (omega arith) (omega arith))
    ∙ visible-silent layers m n (lo + 1) type (λ j p q. above j (omega arith) (omega arith))
    ∙ ap (λ b. visible layers n b type) {x = lo + 1 + m} (omega arith)

-- The first branch that shows the name is the only one, where it holds no directory.
pub visible-only :
    (layers : ℕ → Layer) (n k fmt : ℕ)
    → k < n
    → ((j : ℕ) → j < k → IsSilent (layers j))
    → layers k ≡ node fmt false
    → (fmt == s_ifdir) ≡ false
    → visible layers n 0 0 ≡ k ∷ []
unfolding visible
visible-only layers n k fmt h above at file =
    ap (λ m. visible layers m 0 0) {y = k + suc (n - (k + 1))} (omega arith)
    ∙ visible-silent layers k (suc (n - (k + 1))) 0 0 (λ j p q. above j (omega arith))
    ∙ ap (λ b. visible layers (suc (n - (k + 1))) b 0) {y = k} (omega arith)
    ∙ rw (at, visible, file) refl
