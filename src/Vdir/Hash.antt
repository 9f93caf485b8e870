-- ===== src/Vdir/Hash.antt =====
-- The hashed tables of names are sets.
use aufs.Common.{
  ℕ, ◌≡◌, refl, ap, ◌∙◌, ◌==◌, Bool, true, false, ◌||◌, if◌then◌else◌, [], ◌∷◌, length, get_or,
  get_or-set, arith, Bool-cases, inl, inr,
}
use aufs.Whout.{Name, eq_name}
use aufs.Whout.Names.{eq_name_iff}
use aufs.Vdir.{Nhash, nhash_size, name_hash, known_in, test_known, add_name}

-- After a name was added to a table with all its heads, exactly it and the names before are known,
-- whatever the hash is.
pub test_known-add_name :
    (hash : Name → ℕ) (nh : Nhash) (name other : Name)
    → length nh ≡ nhash_size
    → test_known hash (add_name hash nh name) other
      ≡ (eq_name name other || test_known hash nh other)
unfolding test_known add_name
test_known-add_name hash nh name other full =
    ap (λ xs. known_in xs other)
      (get_or-set nh (name_hash hash name) (name_hash hash other) _ [] (omega arith))
    ∙ go (name_hash hash name == name_hash hash other) refl
  where
    go :
        (b : Bool)
        → (name_hash hash name == name_hash hash other) ≡ b
        → known_in
            (if b
              then name ∷ get_or nh (name_hash hash name) []
              else get_or nh (name_hash hash other) [])
            other
          ≡ (eq_name name other || known_in (get_or nh (name_hash hash other) []) other)
    go true e = ap (λ k. eq_name name other || known_in (get_or nh k []) other) (ground arith)
    go false e = elim (Bool-cases (eq_name name other)) [
      | inl same ↦
          absurd (let eq = ap (name_hash hash) ((eq_name_iff name other).0 same) in ground arith)
      | inr diff ↦ rw diff refl
    ]
