-- ===== src/Manage/Stays.antt =====
-- Removing a branch and changing its permission put no branch inside another.
use aufs.Common.{
  count_to, from_branch, Option-cases, ℕ, zero, suc, ◌-◌, ◌≤◌, ◌≡◌, ◌≢◌, refl, ap, ◌∙◌, sym, subst,
  ◌⊎◌, inl, inr, Bool, true, false, if◌then◌else◌, Option, some, none, List, [], ◌∷◌, map, length,
  erase_at, All, Result, ok, err, Bindex, eq_bindex, last_of, arith, first_such,
}
use aufs.Dinfo.{find_dbindex, h_dptr_i, holds}
use aufs.Branch.{Branch, stobr, update_br}
use aufs.Branch.Permission.{ro, eq_perm, br_writable}
use aufs.Whout.{WhBase, init_wh}
use aufs.Manage.{Super, test_br}
use aufs.Manage.Del.{OptDel, set_base, del_branch, begin_del, br_del}
use aufs.Manage.Mod.{
  OptMod, Mounted, store_perm, after_clear, change_perm, mod_branch, tested_mod, begin_mod, br_mod,
  base_of,
}
use aufs.Manage.Entries.{Entry, Represents}
use aufs.Manage.Removed.{br_del-IsRemoved}
use aufs.Manage.Kept.{
  base_again, branch_at, map-branch_at, Represents-branch, IsKept, br_del-IsKept,
}
use aufs.Manage.Disjoint.{IsApart, IsDisjoint, StaysDisjoint, br_add-IsDisjoint}
use aufs.Lower.{HDentry}
use aufs.Manage.Add.{OptAdd, XinoEnv, is_overlap, br_add}

abbrev dentries : List Entry → List HDentry
dentries es = map (λ e. e.dentry) es

All-dentries :
    (e e' : Entry) (es es' : List Entry)
    → e'.dentry ≡ e.dentry
    → dentries es' ≡ dentries es
    → All (IsApart e) es
    → All (IsApart e') es'
All-dentries e e' [] [] p q a = tt
All-dentries e e' [] (y ∷ ys) p q a = absurd (ground arith)
All-dentries e e' (x ∷ xs) [] p q a = absurd (ground arith)
All-dentries e e' (x ∷ xs) (y ∷ ys) p q (a, rest) =
    let head : y.dentry ≡ x.dentry = cc in
    let tail : dentries ys ≡ dentries xs = cc in
    let apart : is_overlap e'.dentry y.dentry ≡ false = cc in
    (apart, All-dentries e e' xs ys p tail rest)

-- Only the directories matter.
IsDisjoint-dentries :
    (es es' : List Entry) → dentries es' ≡ dentries es → IsDisjoint es → IsDisjoint es'
IsDisjoint-dentries [] [] q d = tt
IsDisjoint-dentries [] (y ∷ ys) q d = absurd (ground arith)
IsDisjoint-dentries (x ∷ xs) [] q d = absurd (ground arith)
IsDisjoint-dentries (x ∷ xs) (y ∷ ys) q (a, d) =
    let head : y.dentry ≡ x.dentry = cc in
    let tail : dentries ys ≡ dentries xs = cc in
    (All-dentries x y xs ys head tail a, IsDisjoint-dentries xs ys tail d)

All-erase_at {ℓ κ} :
    {A : Type ℓ} (P : A → Type κ) (i : ℕ) (xs : List A) → All P xs → All P (erase_at i xs)
All-erase_at P i [] a = tt
All-erase_at P zero (x ∷ xs) (p, ps) = ps
All-erase_at P (suc i) (x ∷ xs) (p, ps) = (p, All-erase_at P i xs ps)

IsDisjoint-erase_at : (i : ℕ) (es : List Entry) → IsDisjoint es → IsDisjoint (erase_at i es)
IsDisjoint-erase_at i [] d = tt
IsDisjoint-erase_at zero (e ∷ es) (p, d) = d
IsDisjoint-erase_at (suc i) (e ∷ es) (p, d) =
    (All-erase_at (IsApart e) i es p, IsDisjoint-erase_at i es d)

IsKept-StaysDisjoint :
    (s : Super) (del : OptDel) (es : List Entry) (u : Super)
    → IsDisjoint es
    → IsKept s del es u
    → StaysDisjoint u
IsKept-StaysDisjoint s del es u d (inl r) = (es, r, d)
IsKept-StaysDisjoint s del es u d (inr (i, br, found, at, based, r)) =
    let f = set_base (base_again s del br) in
    (
      branch_at i f es,
      r,
      IsDisjoint-dentries es (branch_at i f es) (map-branch_at (λ e. e.dentry) i f es (λ e. refl))
          d,
    )

find_dbindex-empty : (s : Super) (id : ℕ) → s.root.bend ≡ none → find_dbindex s.root id ≡ none
unfolding find_dbindex first_such
find_dbindex-empty s id e =
    ap (λ n. first_such (λ b. holds (h_dptr_i s.root b) id) n (from_branch s.root.bstart)) none_left
  where
    none_left : count_to s.root.bend - from_branch s.root.bstart ≡ 0
    none_left = ground arith

two_of :
    (n i id : ℕ) (s : Super) (es : List Entry)
    → Represents s es
    → find_dbindex s.root id ≡ some i
    → eq_bindex s.table.bend (some 0) ≡ false
    → length es ≡ n
    → 2 ≤ n
two_of zero i id s es r found more c =
    absurd (let gone = find_dbindex-empty s id (r.root_bend ∙ ap last_of c) in ground arith)
two_of (suc zero) i id s es r found more c = absurd (let e = r.bend ∙ ap last_of c in ground arith)
two_of (suc (suc n)) i id s es r found more c = omega arith

-- `br_del` succeeds on a branch only when it is neither the last one nor in use.
del_branch-ok :
    (s : Super) (i : ℕ) (br : Branch) (del : OptDel)
    → (del_branch s i del (some br)).0 ≡ ok tt
    → (eq_bindex s.table.bend (some 0) ≡ false) × (br.count ≡ 0) × (del.busy ≡ ok tt)
del_branch-ok s i br del h = ground arith

module _ (s : Super) (del : OptDel) (remount : Bool) (es : List Entry) (r : Represents s es)
    (d : IsDisjoint es) where
  kept :
      ((br_del s del remount).0 ≢ ok tt) ⊎ (find_dbindex s.root del.h_root.id ≡ none)
      → StaysDisjoint (br_del s del remount).1
  kept h = IsKept-StaysDisjoint s del es _ d (br_del-IsKept s del remount es r h)

  br_del-at :
      (i : ℕ) (o : Option Branch)
      → find_dbindex s.root del.h_root.id ≡ some i
      → stobr s.table i ≡ o
      → br_del s del remount ≡ del_branch s i del o
  unfolding br_del
  br_del-at i o found at = ap (begin_del s del remount) found ∙ ap (del_branch s i del) at

  removed :
      (i : ℕ) (br : Branch)
      → find_dbindex s.root del.h_root.id ≡ some i
      → stobr s.table i ≡ some br
      → (br_del s del remount).0 ≡ ok tt
      → StaysDisjoint (br_del s del remount).1
  removed i br found at h =
      let (more, free, idle) =
        del_branch-ok s i br del (ap (λ p. p.0) (sym (br_del-at i (some br) found at)) ∙ h) in
      let gone =
        br_del-IsRemoved s del remount es i br r
          (two_of (length es) i del.h_root.id s es r found more refl) found at free idle in
      (erase_at i es, gone.1.1, IsDisjoint-erase_at i es d)

  del-StaysDisjoint :
      (b : Bindex) (o : Result (Unit {0}))
      → find_dbindex s.root del.h_root.id ≡ b
      → (br_del s del remount).0 ≡ o
      → StaysDisjoint (br_del s del remount).1
  del-StaysDisjoint none o found h = kept (inr found)
  del-StaysDisjoint (some i) (err e) found h = kept (inl (λ q. absurd (ground arith)))
  del-StaysDisjoint (some i) (ok u) found h = with_branch (stobr s.table i) refl
    where
      with_branch :
          (x : Option Branch) → stobr s.table i ≡ x → StaysDisjoint (br_del s del remount).1
      with_branch none at = kept (
          inl (λ q.
            absurd (let e = ap (λ p. p.0) (sym (br_del-at i none found at)) ∙ q in ground arith)))
      with_branch (some br) at = removed i br found at h

-- Whatever `br_del` returns, the arrays still stand for one list of branches, and none of them is
-- inside another if none was before.
pub br_del-StaysDisjoint :
    (s : Super) (del : OptDel) (remount : Bool)
    → StaysDisjoint s
    → StaysDisjoint (br_del s del remount).1
br_del-StaysDisjoint s del remount (es, r, d) = del-StaysDisjoint s del remount es r d _ _ refl refl

-- A change of one branch that keeps its id.
update-StaysDisjoint :
    (s : Super) (i : ℕ) (br : Branch) (f : Branch → Branch)
    → stobr s.table i ≡ some br
    → ((b : Branch) → (f b).id ≡ b.id)
    → StaysDisjoint s
    → StaysDisjoint (record s { table = update_br s.table i f })
update-StaysDisjoint s i br f at keeps (es, r, d) = (
  branch_at i f es,
  Represents-branch s i br f es r at keeps,
  IsDisjoint-dentries es (branch_at i f es) (map-branch_at (λ e. e.dentry) i f es (λ e. refl)) d,
)

module _ (m : Mounted) (i : ℕ) (br : Branch) (opt : OptMod) (at : stobr m.super.table i ≡ some br)
    (d : StaysDisjoint m.super) where
  after_clear-StaysDisjoint :
      (p : Result (Unit {0}) × WhBase) → StaysDisjoint (after_clear m i br opt p).1.super
  after_clear-StaysDisjoint (err e, w) =
      update-StaysDisjoint m.super i br (set_base w) at (λ b. refl) d
  after_clear-StaysDisjoint (ok u, w) = update-StaysDisjoint m.super i br _ at (λ b. refl) d

  change_perm-StaysDisjoint : StaysDisjoint (change_perm m i br opt).1.super
  change_perm-StaysDisjoint =
      elim (br_writable br.perm)
        as (λ b.
          StaysDisjoint
            (if b
              then after_clear m i br opt (init_wh ro m.super.plink opt.base (base_of br))
              else (ok tt, store_perm m i br opt (base_of br) m.files)).1.super) [
                | true ↦ after_clear-StaysDisjoint _
                | false ↦ update-StaysDisjoint m.super i br _ at (λ b. refl) d
              ]

begin_mod-StaysDisjoint :
    (m : Mounted) (opt : OptMod) (remount : Bool) (b : Bindex)
    → StaysDisjoint m.super
    → StaysDisjoint (begin_mod m opt remount b).1.super
begin_mod-StaysDisjoint m opt true none d = d
begin_mod-StaysDisjoint m opt false none d = d
begin_mod-StaysDisjoint m opt remount (some i) d = tested (test_br opt.perm opt.rdonly)
  where
    at_branch :
        (o : Option Branch)
        → stobr m.super.table i ≡ o
        → StaysDisjoint (mod_branch m i opt o).1.super
    at_branch none at = d
    at_branch (some br) at =
        elim (eq_perm br.perm opt.perm)
          as (λ b. StaysDisjoint (if b then (ok tt, m) else change_perm m i br opt).1.super) [
            | true ↦ d
            | false ↦ change_perm-StaysDisjoint m i br opt at d
          ]

    tested : (t : Result (Unit {0})) → StaysDisjoint (tested_mod m i opt t).1.super
    tested (err e) = d
    tested (ok u) = at_branch (stobr m.super.table i) refl

-- Neither does `br_mod`.
pub br_mod-StaysDisjoint :
    (m : Mounted) (opt : OptMod) (remount : Bool)
    → StaysDisjoint m.super
    → StaysDisjoint (br_mod m opt remount).1.super
unfolding br_mod
br_mod-StaysDisjoint m opt remount d = begin_mod-StaysDisjoint m opt remount _ d

-- With `br_add-IsDisjoint`: neither does `br_add`.
pub br_add-StaysDisjoint :
    (env : XinoEnv) (s : Super) (add : OptAdd) (remount : Bool)
    → StaysDisjoint s
    → StaysDisjoint (br_add env s add remount).1
br_add-StaysDisjoint env s add remount (es, r, d) = br_add-IsDisjoint env s add remount es r d

pub update_br-missing :
    (s : Super) (i : ℕ) (f : Branch → Branch)
    → stobr s.table i ≡ none
    → update_br s.table i f ≡ s.table
update_br-missing s i f e = ground arith

-- The same where no branch may be there.
pub update_br-StaysDisjoint :
    (s : Super) (i : ℕ) (f : Branch → Branch)
    → ((b : Branch) → (f b).id ≡ b.id)
    → StaysDisjoint s
    → StaysDisjoint (record s { table = update_br s.table i f })
update_br-StaysDisjoint s i f keeps d = elim (Option-cases (stobr s.table i)) [
  | inl missing ↦
      subst (λ t. StaysDisjoint (record s { table = t })) (sym (update_br-missing s i f missing)) d
  | inr (br, at) ↦ update-StaysDisjoint s i br f at keeps d
]
