-- ===== src/Manage/Modified.antt =====
-- What a change of permission leaves: the permission, the refresh that it asks for, and no file that
-- can still be written on a branch that cannot.
use aufs.Common.{
  ℕ, ◌==◌, ◌≡◌, ◌≢◌, refl, ap, ◌∙◌, sym, subst, Bool, true, false, not, ◌||◌, some, none, List, [],
  ◌∷◌, map, Result, ok, err, set, All, get_or-set_ne, not_both, arith, Bool-cases, inl, inr,
  if◌then◌else◌, ◌⊎◌,
}
use aufs.Dinfo.{find_dbindex}
use aufs.Branch.{Branch, stobr}
use aufs.Branch.Permission.{
  Perm, ro, eq_perm, br_writable, br_whable, do_need_sigen_inc, need_sigen_inc,
}
use aufs.Whout.{WhBase, init_wh}
use aufs.Manage.{test_br}
use aufs.Manage.Entries.{get_or-set_there, update_br-at}
use aufs.Manage.Mod.{
  OptMod, OpenFile, take_write, Mounted, store_perm, base_of, after_clear, change_perm, mod_branch,
  tested_mod, begin_mod, br_mod,
}

-- A regular file opened for writing whose first branch is `i` cannot be written there.
abbrev pub NoWrite : ℕ → OpenFile → Type 0
NoWrite i f = (f.regular ≡ false) ⊎ (f.write ≡ false) ⊎ (f.bstart ≢ i) ⊎ (f.h_write ≡ false)

take_write-NoWrite : (i : ℕ) (f : OpenFile) → NoWrite i (take_write i f)
take_write-NoWrite i f = elim (Bool-cases (not f.regular || (not f.write || not (f.bstart == i)))) [
  | inl other ↦ rw other (ground arith)
  | inr ours ↦ rw ours (inr (inr (inr refl)))
]

map-NoWrite : (i : ℕ) (fs : List OpenFile) → All (NoWrite i) (map (take_write i) fs)
map-NoWrite i [] = tt
map-NoWrite i (f ∷ fs) = (take_write-NoWrite i f, map-NoWrite i fs)

abbrev pub differ : Bool → Bool → Bool
differ a b = if a then not b else b

-- The branch `br` at `i` was given the permission `p`.
pub record IsChanged (m : Mounted) (i : ℕ) (br : Branch) (p : Perm)
    (out : Result (Unit {0}) × Mounted) : Type 0 where
  pub returned : out.0 ≡ ok tt
  pub changed : Branch
  pub at : stobr out.1.super.table i ≡ some changed
  pub perm : changed.perm ≡ p
  pub id : changed.id ≡ br.id
  pub others : (j : ℕ) → i ≢ j → stobr out.1.super.table j ≡ stobr m.super.table j
  pub update : out.1.do_update ≡ (m.do_update || differ (br_whable br.perm) (br_whable p))
  pub files : (br_writable br.perm ≡ false) ⊎ (br_writable p ≡ true) ⊎ All (NoWrite i) out.1.files

need_sigen_inc-differ : (p q : Perm) → need_sigen_inc p q ≡ differ (br_whable p) (br_whable q)
unfolding need_sigen_inc do_need_sigen_inc
need_sigen_inc-differ p q = ground arith

module _ (m : Mounted) (i : ℕ) (br : Branch) (opt : OptMod)
    (at : stobr m.super.table i ≡ some br) where
  abbrev changed_perm : WhBase → Branch
  changed_perm w = record br { perm = opt.perm; wh = w.has_wh; plink = w.has_plink }

  stored_at :
      (w : WhBase) (fs : List OpenFile)
      → (store_perm m i br opt w fs).super.table
        ≡ record m.super.table { branch = set m.super.table.branch i (some (changed_perm w)) }
  stored_at w fs = update_br-at m.super.table i br _ at

  store_perm-IsChanged :
      (w : WhBase) (fs : List OpenFile)
      → (br_writable br.perm ≡ false) ⊎ (br_writable opt.perm ≡ true) ⊎ All (NoWrite i) fs
      → IsChanged m i br opt.perm (ok tt, store_perm m i br opt w fs)
  store_perm-IsChanged w fs h = record {
    returned = refl;
    changed = changed_perm w;
    at =
        ap (λ t. stobr t i) (stored_at w fs)
        ∙ get_or-set_there m.super.table.branch i br (changed_perm w) at;
    perm = refl;
    id = refl;
    others = λ j ne.
        ap (λ t. stobr t j) (stored_at w fs)
        ∙ get_or-set_ne m.super.table.branch i j (some (changed_perm w)) none ne;
    update = ap (λ u. m.do_update || u) (need_sigen_inc-differ br.perm opt.perm);
    files = h;
  }

  after_clear-IsChanged :
      (p : Result (Unit {0}) × WhBase)
      → p.0 ≡ ok tt
      → IsChanged m i br opt.perm (after_clear m i br opt p)
  after_clear-IsChanged (err e, w) q = absurd (ground arith)
  after_clear-IsChanged (ok u, w) q =
      store_perm-IsChanged w _
        (elim (br_writable opt.perm)
          as (λ b.
            (br_writable br.perm ≡ false)
            ⊎ (b ≡ true)
            ⊎ All (NoWrite i) (if b then m.files else map (take_write i) m.files)) [
              | true ↦ inr (inl refl)
              | false ↦ inr (inr (map-NoWrite i m.files))
            ])

  change_perm-IsChanged :
      (br_writable br.perm ≡ false) ⊎ ((init_wh ro m.super.plink opt.base (base_of br)).0 ≡ ok tt)
      → IsChanged m i br opt.perm (change_perm m i br opt)
  change_perm-IsChanged h = go (br_writable br.perm) refl
    where
      go :
          (b : Bool)
          → br_writable br.perm ≡ b
          → IsChanged m i br opt.perm (
              if b
              then after_clear m i br opt (init_wh ro m.super.plink opt.base (base_of br))
              else (ok tt, store_perm m i br opt (base_of br) m.files))
      go false e = store_perm-IsChanged (base_of br) m.files (inl e)
      go true e = after_clear-IsChanged _ (elim h [ inl w ↦ absurd (not_both e w) | inr c ↦ c ])

-- Where a branch holds the directory, `br_mod` gives it another permission that the filesystem
-- allows, unless taking the old whiteout base away fails. The branch keeps its id, the others stay,
-- a refresh is asked for exactly when whiteouts were turned on or off, and a file whose first branch
-- it is can no longer be written there if the branch could be written and can no longer.
pub br_mod-IsChanged :
    (m : Mounted) (opt : OptMod) (remount : Bool) (i : ℕ) (br : Branch)
    → find_dbindex m.super.root opt.h_root.id ≡ some i
    → stobr m.super.table i ≡ some br
    → test_br opt.perm opt.rdonly ≡ ok tt
    → eq_perm br.perm opt.perm ≡ false
    → (br_writable br.perm ≡ false) ⊎ ((init_wh ro m.super.plink opt.base (base_of br)).0 ≡ ok tt)
    → IsChanged m i br opt.perm (br_mod m opt remount)
unfolding br_mod
br_mod-IsChanged m opt remount i br found at allowed other h =
    subst (λ b. IsChanged m i br opt.perm (begin_mod m opt remount b)) (sym found)
      (subst (λ t. IsChanged m i br opt.perm (tested_mod m i opt t)) (sym allowed)
        (subst (λ o. IsChanged m i br opt.perm (mod_branch m i opt o)) (sym at)
          (subst (λ e. IsChanged m i br opt.perm (if e then (ok tt, m) else change_perm m i br opt))
            (sym other) (change_perm-IsChanged m i br opt at h))))
