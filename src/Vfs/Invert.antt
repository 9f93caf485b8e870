-- ===== src/Vfs/Invert.antt =====
-- A sequence of calls that ends well has come through each of them.
use aufs.Common.{◌≡◌, refl, sym, ap, ◌∙◌, Result, ok, err, arith}
use aufs.Vfs.{Op, Run, System, and_then, hidden_parent}
use aufs.Dinfo.{Dinfo, h_dptr_i}
use aufs.Lower.{HDentry}
use aufs.Common.{ℕ, some, none, Option}

pub ok-injective : {A : Type 0} (a b : A) → ok a ≡ ok b → a ≡ b
ok-injective a b h = cc

-- A step that changed the dentry alone.
pub dentry_only :
    {W : Type 0} (s t : Op W) (d : Dinfo)
    → t ≡ record s { dentry = d }
    → t ≡ record s { dentry = t.dentry }
dentry_only {W} s t d e =
    e ∙ ap (λ (x : Dinfo). record s { dentry = x }) (sym (ap (λ (u : Op W). u.dentry) e))

module _ {W A B : Type 0} where
  pub and_then-ok :
      (r : Result A × Op W) (next : A → Run W B) (b : B) (u : Op W)
      → and_then r next ≡ (ok b, u)
      → (a : A) × (t : Op W) × (r ≡ (ok a, t)) × (next a t ≡ (ok b, u))
  and_then-ok (err e, t) next b u h = absurd (cc)
  and_then-ok (ok a, t) next b u h = (a, t, refl, h)

module _ {W A : Type 0} where
  pub ok-pair :
      (a b : A) (t u : Op W) → ◌≡◌ {A = Result A × Op W} (ok a, t) (ok b, u) → (a ≡ b) × (t ≡ u)
  ok-pair a b t u h =
      (ok-injective a b (ap (λ (x : Result A × Op W). x.0) h), ap (λ (x : Result A × Op W). x.1) h)

module _ (sys : System) (b : ℕ) (s : Op sys.World) (hp : HDentry) (t : Op sys.World) where
  parent-ok :
      (o : Option HDentry)
      → h_dptr_i s.parent b ≡ o
      → hidden_parent sys b s ≡ (ok hp, t)
      → (h_dptr_i s.parent b ≡ some hp) × (t ≡ s)
  parent-ok none e h = absurd (ground arith)
  parent-ok (some hp') e h = (
    ground arith,
    sym (ap (λ (x : Result HDentry × Op sys.World). x.1) (rw (e, hidden_parent) at h)),
  )

  pub hidden_parent-ok :
      hidden_parent sys b s ≡ (ok hp, t) → (h_dptr_i s.parent b ≡ some hp) × (t ≡ s)
  hidden_parent-ok h = parent-ok _ refl h

pub hidden_parent-found :
    (sys : System) (b : ℕ) (s : Op sys.World) (hp : HDentry)
    → h_dptr_i s.parent b ≡ some hp
    → hidden_parent sys b s ≡ (ok hp, s)
hidden_parent-found sys b s hp e = rw (e, hidden_parent) refl
