-- ===== src/Opts/Perms.antt =====
-- The names of the permissions in the text of the options.
use aufs.Common.{
  ℕ, ◌<◌, ◌≡◌, refl, ap, ◌∙◌, Bool, false, if◌then◌else◌, ltb, List, [], ◌∷◌, contains, All, ok,
  err, e2big, arith,
}
use aufs.Branch.Permission.{Perm, rw, ro, rr, rw_nolwh, rowh, rrwh}
use aufs.Whout.{Name, eq_name}
use aufs.Opts.Text.{Matches, match_token, brperms, br_perm_val, br_perm_str}

-- A pattern without `%` is matched by itself only.
abbrev pub IsLiteral : Name → Type 0
IsLiteral p = contains p b'%' ≡ false

abbrev flip : Name → Name → Bool
flip text p = eq_name p text

match_token-literal {ℓ} :
    {A : Type ℓ} (m : Matches) (text : Name) (ps : List (A × Name)) (d : A)
    → ((t p : Name) → IsLiteral p → m t p ≡ eq_name p t)
    → All (λ q. IsLiteral q.1) ps
    → match_token m text ps d ≡ match_token flip text ps d
match_token-literal m text [] d h l = refl
match_token-literal m text ((a, p) ∷ ps) d h (l, ls) =
    ap (λ b. if b then a else match_token m text ps d) (h text p l)
    ∙ ap (λ r. if eq_name p text then a else r) (match_token-literal m text ps d h ls)

brperms-IsLiteral : All (λ q. IsLiteral q.1) brperms
brperms-IsLiteral = (refl, (refl, (refl, (refl, (refl, (refl, (refl, tt)))))))

-- The text of a permission.
abbrev pub HasText : Matches → Perm → ℕ → Type 0
HasText m p len = (s : Name) × (br_perm_str p len ≡ ok s) × (br_perm_val m s ≡ p)

has_text :
    (m : Matches) (p : Perm) (len : ℕ) (s : Name)
    → ((t q : Name) → IsLiteral q → m t q ≡ eq_name q t)
    → br_perm_str p len ≡ ok s
    → match_token flip s brperms ro ≡ p
    → HasText m p len
unfolding br_perm_val
has_text m p len s h e v = (s, e, match_token-literal m s brperms ro h brperms-IsLiteral ∙ v)

fits_in : (n len : ℕ) (s : Name) → n < len → (if ltb n len then ok s else err e2big) ≡ ok s
fits_in n len s h = ground arith

-- `br_perm_str` writes each permission into a buffer of more than eight bytes, and `br_perm_val`
-- reads it back, where `match_token` matches a pattern without `%` with the same text only.
pub br_perm_val-br_perm_str :
    (m : Matches) (p : Perm) (len : ℕ)
    → ((t q : Name) → IsLiteral q → m t q ≡ eq_name q t)
    → 8 < len
    → HasText m p len
unfolding br_perm_str
br_perm_val-br_perm_str m rw len h k = has_text m rw len _ h (fits_in 2 len _ (omega arith)) refl
br_perm_val-br_perm_str m ro len h k = has_text m ro len _ h (fits_in 2 len _ (omega arith)) refl
br_perm_val-br_perm_str m rr len h k = has_text m rr len _ h (fits_in 2 len _ (omega arith)) refl
br_perm_val-br_perm_str m rw_nolwh len h k =
    has_text m rw_nolwh len _ h (fits_in 8 len _ (omega arith)) refl
br_perm_val-br_perm_str m rowh len h k =
    has_text m rowh len _ h (fits_in 5 len _ (omega arith)) refl
br_perm_val-br_perm_str m rrwh len h k =
    has_text m rrwh len _ h (fits_in 5 len _ (omega arith)) refl
