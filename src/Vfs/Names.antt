-- ===== src/Vfs/Names.antt =====
-- A name, its whiteout and the marker of an opaque directory are three names.
use aufs.Common.{
  ℕ, ◌≡◌, refl, ap, [], ◌∷◌, subst, not_both, ◌∙◌, true, false, ◌++◌, length, ok, arith, Bool-cases,
  inl, inr,
}
use aufs.Whout.{Name, has_wh_pfx, alloc_whname, wh_pfx, eq_name, diropq_name}
use aufs.Whout.Names.{eq_name_iff}

pub whname-pfx : (name wh : Name) → alloc_whname name ≡ ok wh → wh ≡ wh_pfx ++ name
unfolding alloc_whname
whname-pfx name wh h = ground arith

pub whname-ne : (name wh : Name) → alloc_whname name ≡ ok wh → eq_name wh name ≡ false
whname-ne name wh h = elim (Bool-cases (eq_name wh name)) [
  | inl same ↦ absurd (
      omega (
        arith,
        ap (length {A = ℕ}) ((eq_name_iff wh name).0 same),
        ap (length {A = ℕ}) (whname-pfx name wh h),
      ))
  | inr other ↦ other
]

pub eq_name-sym : (a b : Name) → eq_name a b ≡ eq_name b a
eq_name-sym [] [] = refl
eq_name-sym [] (y ∷ ys) = refl
eq_name-sym (x ∷ xs) [] = refl
eq_name-sym (x ∷ xs) (y ∷ ys) = ground (arith, eq_name-sym xs ys)

-- A name without the prefix is not the marker's, and neither is its whiteout.
pub diropq-ne : (name : Name) → has_wh_pfx name ≡ false → eq_name diropq_name name ≡ false
diropq-ne name h = elim (Bool-cases (eq_name diropq_name name)) [
  | inl same ↦
      absurd
        (not_both (subst (λ n. has_wh_pfx n ≡ true) ((eq_name_iff diropq_name name).0 same) refl) h)
  | inr other ↦ other
]

after_pfx : (xs ys : Name) → wh_pfx ++ xs ≡ wh_pfx ++ ys → xs ≡ ys
after_pfx xs ys h = cc

pub diropq-ne_wh :
    (name wh : Name)
    → has_wh_pfx name ≡ false
    → alloc_whname name ≡ ok wh
    → eq_name diropq_name wh ≡ false
diropq-ne_wh name wh h a = elim (Bool-cases (eq_name diropq_name wh)) [
  | inl same ↦
      let e : diropq_name ≡ wh_pfx ++ name =
        (eq_name_iff diropq_name wh).0 same ∙ whname-pfx name wh a in
      absurd (not_both (subst (λ n. has_wh_pfx n ≡ true) (after_pfx _ name e) refl) h)
  | inr other ↦ other
]
