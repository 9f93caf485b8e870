-- ===== src/Lookup/Stack.antt =====
-- What a name is in each branch, and what the union of the branches shows of it. This is the
-- specification of `lkup_dentry`: it knows nothing of hidden dentries, marks or the order of tests.
use aufs.Common.{ℕ, zero, suc, ◌+◌, ◌==◌, if◌then◌else◌, Bool, not, ◌&&◌, ◌||◌, List, [], ◌∷◌}
use aufs.Lower.{s_ifdir}

-- A branch lacks the parent directory, has a whiteout of the name, has nothing of the name, or has
-- it, with a type and, for a directory, perhaps marked opaque.
pub data Layer : Type 0 where
  missing whited nothing : Layer
  node : ℕ → Bool → Layer

-- The branches whose entry is part of what the union shows, from branch `b` on: entries of another
-- type than the first are passed over, and what lies below a whiteout, a file or an opaque
-- directory is hidden.
unfoldable pub visible : (ℕ → Layer) → ℕ → ℕ → ℕ → List ℕ
visible layers zero b type = []
visible layers (suc n) b type = elim (layers b) [
  | missing ↦ visible layers n (b + 1) type
  | whited ↦ []
  | nothing ↦ visible layers n (b + 1) type
  | node fmt opaque ↦
      let rest = visible layers n (b + 1) type in
      let below = visible layers n (b + 1) s_ifdir in
      if not (type == 0) && not (type == fmt)
      then rest
      else if not (fmt == s_ifdir) || opaque
      then b ∷ []
      else b ∷ below
]
