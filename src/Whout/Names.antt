-- ===== src/Whout/Names.antt =====
-- Whiteout names: the prefix can be taken off again, and a temporary name is free and hidden.
use aufs.Common.{
  ℕ, zero, suc, ◌+◌, ◌%◌, ◌<◌, ◌≤◌, ◌≡◌, ◌↔◌, refl, true, none, [], ◌∷◌, ◌++◌, length, drop, ok,
  err, arith, Bool-cases, inl, inr, ltb, ◌-◌, ◌⊎◌, enametoolong,
}
use aufs.Lower.{HDentry}
use aufs.Whout.{
  Name, Lkup, eq_name, wh_pfx, wh_len, path_max, has_wh_pfx, alloc_whname, whtmp_name,
  lkup_whtmp_try, lkup_whtmp,
}

pub eq_name_iff : (xs ys : Name) → (eq_name xs ys ≡ true) ↔ (xs ≡ ys)
eq_name_iff [] [] = ((λ h. refl), (λ h. refl))
eq_name_iff [] (y ∷ ys) = ((λ h. cc), (λ h. cc))
eq_name_iff (x ∷ xs) [] = ((λ h. cc), (λ h. cc))
eq_name_iff (x ∷ xs) (y ∷ ys) =
    (ground (arith, eq_name_iff xs ys), ground (arith, eq_name_iff xs ys))

-- `au_alloc_whname` fails with -ENAMETOOLONG exactly for a name longer than PATH_MAX - 4. Else it
-- returns a whiteout name: it has the prefix, gives the name back when the prefix is taken off, and
-- is 4 bytes longer, within PATH_MAX.
pub alloc_whname_lem :
    (name : Name)
    → ((path_max < length name + wh_len) × (alloc_whname name ≡ err enametoolong))
      ⊎ ((w : Name) × (alloc_whname name ≡ ok w)
          × (has_wh_pfx w ≡ true)
          × (drop wh_len w ≡ name)
          × (length w ≡ length name + wh_len)
          × (length w ≤ path_max))
unfolding alloc_whname
alloc_whname_lem name = elim (Bool-cases (ltb (path_max - wh_len) (length name))) [
  | inl long ↦ inl (ground arith, ground arith)
  | inr fits ↦ inr (wh_pfx ++ name, ground arith, refl, refl, ground arith, ground arith)
]

-- What a successful search for a temporary name found.
pub record IsFreeName (lkup : Lkup) (parent : HDentry) (prefix : Name) (r : Name × HDentry)
    : Type 0 where
  pub negative : r.1.inode ≡ none
  pub looked_up : lkup parent r.0 ≡ ok r.1
  pub hidden : has_wh_pfx r.0 ≡ true
  pub hidden_twice : has_wh_pfx (drop wh_len r.0) ≡ true

lkup_whtmp_try-free :
    (n : ℕ) (lkup : Lkup) (parent : HDentry) (prefix : Name) (cnt : ℕ) (r : Name × HDentry)
    → (lkup_whtmp_try n lkup parent prefix cnt).0 ≡ ok r
    → IsFreeName lkup parent prefix r
unfolding lkup_whtmp_try
lkup_whtmp_try-free zero lkup parent prefix cnt r h = cc
lkup_whtmp_try-free (suc n) lkup parent prefix cnt r h =
    ground (arith, lkup_whtmp_try-free n lkup parent prefix ((cnt + 1) % 256) r)

-- `lkup_whtmp` succeeds only with a name that the directory does not have. The name is a whiteout's,
-- also when its own whiteout prefix is taken off.
pub lkup_whtmp-free :
    (lkup : Lkup) (parent : HDentry) (prefix : Name) (cnt : ℕ) (r : Name × HDentry)
    → (lkup_whtmp lkup parent prefix cnt).0 ≡ ok r
    → IsFreeName lkup parent prefix r
unfolding lkup_whtmp
lkup_whtmp-free lkup parent prefix cnt r h =
    lkup_whtmp_try-free 3 lkup parent prefix cnt r (ground arith)

append_cancel : (xs ys zs : Name) → xs ++ ys ≡ xs ++ zs → ys ≡ zs
append_cancel [] ys zs h = h
append_cancel (x ∷ xs) ys zs h = append_cancel xs ys zs (cc)

-- The names that the counter runs through are all different for one prefix.
pub whtmp_name-injective :
    (prefix : Name) (a b : ℕ)
    → a < 256
    → b < 256
    → whtmp_name prefix a ≡ whtmp_name prefix b
    → a ≡ b
whtmp_name-injective prefix a b p q h =
    let digits = append_cancel prefix _ _ (append_cancel wh_pfx _ _ (append_cancel wh_pfx _ _ h)) in
    ground arith
