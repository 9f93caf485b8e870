-- ===== src/Manage/Kept.antt =====
-- `br_del` where it returns an error.
use aufs.Common.{
  ℕ, zero, suc, ◌≤◌, ◌≡◌, ◌≢◌, ◌⊎◌, refl, ap, ap₂, ◌∙◌, sym, subst, Bool, true, false, not, ◌||◌,
  ◌==◌, if◌then◌else◌, Option, some, none, List, [], ◌∷◌, map, length, window, get_or, set, Result,
  ok, err, ebusy, Bindex, eq_bindex, arith, inl, inr, last_of,
}
use aufs.Dinfo.{find_dbindex}
use aufs.Iinfo.{zero_hinode}
use aufs.Branch.{Branch, stobr, update_br}
use aufs.Whout.{WhBase, no_base, init_wh}
use aufs.Manage.{Super}
use aufs.Manage.Del.{
  OptDel, set_base, drop_base, revert_base, finish_del, del_branch, begin_del, br_del,
}
use aufs.Manage.Entries.{Entry, slot_of, start_of, Represents, update_br-at, stobr-update_br}

-- The entry at `i` with its branch changed.
abbrev pub with_branch : (Branch → Branch) → Entry → Entry
with_branch f e = record e { branch = f e.branch }

abbrev pub branch_at : ℕ → (Branch → Branch) → List Entry → List Entry
branch_at i f [] = []
branch_at zero f (e ∷ es) = with_branch f e ∷ es
branch_at (suc i) f (e ∷ es) = e ∷ branch_at i f es

length-branch_at :
    (i : ℕ) (f : Branch → Branch) (es : List Entry) → length (branch_at i f es) ≡ length es
length-branch_at i f [] = refl
length-branch_at zero f (e ∷ es) = refl
length-branch_at (suc i) f (e ∷ es) = ap suc (length-branch_at i f es)

-- What is read of the entries apart from what is changed stays.
pub map-branch_at {ℓ} :
    {B : Type ℓ} (g : Entry → B) (i : ℕ) (f : Branch → Branch) (es : List Entry)
    → ((e : Entry) → g (with_branch f e) ≡ g e)
    → map g (branch_at i f es) ≡ map g es
map-branch_at g i f [] h = refl
map-branch_at g zero f (e ∷ es) h = ap (λ y. y ∷ map g es) (h e)
map-branch_at g (suc i) f (e ∷ es) h = ap (◌∷◌ (g e)) (map-branch_at g i f es h)

window-branch_at :
    (xs : List (Option Branch)) (i : ℕ) (br : Branch) (f : Branch → Branch) (es : List Entry)
    → get_or xs i none ≡ some br
    → window (length es) none xs ≡ map (λ e. some e.branch) es
    → window (length es) none (set xs i (some (f br))) ≡ map (λ e. some e.branch) (branch_at i f es)
window-branch_at xs i br f [] at e = refl
window-branch_at [] i br f (y ∷ ys) at e = absurd (ground arith)
window-branch_at (x ∷ xs) zero br f (y ∷ ys) at e =
    let same : br ≡ y.branch = cc in ap₂ (λ b zs. some (f b) ∷ zs) same cc
window-branch_at (x ∷ xs) (suc i) br f (y ∷ ys) at e =
    let head : x ≡ some y.branch = cc in ap₂ (◌∷◌) head (window-branch_at xs i br f ys at cc)

-- A change that keeps the ids, of a branch that is there.
pub Represents-branch :
    (s : Super) (i : ℕ) (br : Branch) (f : Branch → Branch) (es : List Entry)
    → Represents s es
    → stobr s.table i ≡ some br
    → ((b : Branch) → (f b).id ≡ b.id)
    → Represents (record s { table = update_br s.table i f }) (branch_at i f es)
Represents-branch s i br f es r at keeps =
    subst (λ t. Represents (record s { table = t }) (branch_at i f es))
      (sym (update_br-at s.table i br f at))
      (record {
        bend = r.bend ∙ ap last_of len;
        root_bend = r.root_bend ∙ ap last_of len;
        inode_bend = r.inode_bend ∙ ap last_of len;
        root_start = r.root_start ∙ ap start_of len;
        inode_start = r.inode_start ∙ ap start_of len;
        branches =
            ap (λ n. window n none (set s.table.branch i (some (f br)))) (sym len)
            ∙ window-branch_at s.table.branch i br f es at r.branches;
        dentries =
            ap (λ n. window n none s.root.hdentry) (sym len)
            ∙ r.dentries
            ∙ sym (map-branch_at (λ e. some e.dentry) i f es (λ e. refl));
        inodes =
            ap (λ n. window n zero_hinode s.root_inode.hinode) (sym len)
            ∙ r.inodes
            ∙ sym (
                map-branch_at slot_of i f es
                  (λ e. ap (λ b. record { inode = some e.inode; hid = some b }) (keeps e.branch)));
        slots = subst (λ n. n ≤ length s.root_inode.hinode) len r.slots;
      })
  where
    len : length es ≡ length (branch_at i f es)
    len = sym (length-branch_at i f es)

-- A second base replaces the first.
branch_at-twice :
    (i : ℕ) (v w : WhBase) (es : List Entry)
    → branch_at i (set_base w) (branch_at i (set_base v) es) ≡ branch_at i (set_base w) es
branch_at-twice i v w [] = refl
branch_at-twice zero v w (e ∷ es) = refl
branch_at-twice (suc i) v w (e ∷ es) = ap (◌∷◌ e) (branch_at-twice i v w es)

-- The base that was set up again for the branch that was to be removed.
abbrev pub base_again : Super → OptDel → Branch → WhBase
base_again s del br = (init_wh br.perm s.plink del.base no_base).1

-- The arrays of `u` stand for the branches of `s`: all as they were, or with another base of the one
-- that holds the directory, where it had a base.
abbrev pub IsKept : Super → OptDel → List Entry → Super → Type 0
IsKept s del es u =
    Represents u es
    ⊎ ((i : ℕ) × (br : Branch) × (find_dbindex s.root del.h_root.id ≡ some i)
        × (stobr s.table i ≡ some br)
        × ((br.wh || br.plink) ≡ true)
        × Represents u (branch_at i (set_base (base_again s del br)) es))

module _ (s : Super) (del : OptDel) (es : List Entry) (r : Represents s es) where
  reverted :
      (i : ℕ) (br : Branch)
      → find_dbindex s.root del.h_root.id ≡ some i
      → stobr s.table i ≡ some br
      → (br.wh || br.plink) ≡ true
      → IsKept s del es (revert_base (drop_base s i) i br del)
  reverted i br found at based =
      let w = base_again s del br in
      inr (
        i,
        br,
        found,
        at,
        based,
        subst (Represents (revert_base (drop_base s i) i br del)) (branch_at-twice i no_base w es) (
            Represents-branch (drop_base s i) i (set_base no_base br) (set_base w)
              (branch_at i (set_base no_base) es)
              (Represents-branch s i br (set_base no_base) es r at (λ b. refl))
              (stobr-update_br s.table i br (set_base no_base) at) (λ b. refl)),
      )

  finish_del-IsKept :
      (i : ℕ) (br : Branch) (busy : Result (Unit {0}))
      → find_dbindex s.root del.h_root.id ≡ some i
      → stobr s.table i ≡ some br
      → (finish_del s i br del busy).0 ≢ ok tt
      → IsKept s del es (finish_del s i br del busy).1
  finish_del-IsKept i br (ok u) found at h = absurd (h refl)
  finish_del-IsKept i br (err e) found at h = go (br.wh || br.plink) refl
    where
      go :
          (b : Bool)
          → (br.wh || br.plink) ≡ b
          → IsKept s del es (if b then revert_base (drop_base s i) i br del else s)
      go true based = reverted i br found at based
      go false based = inl r

  del_branch-IsKept :
      (i : ℕ) (o : Option Branch)
      → find_dbindex s.root del.h_root.id ≡ some i
      → stobr s.table i ≡ o
      → (del_branch s i del o).0 ≢ ok tt
      → IsKept s del es (del_branch s i del o).1
  del_branch-IsKept i none found at = λ h. inl r
  del_branch-IsKept i (some br) found at =
      go (eq_bindex s.table.bend (some 0) || not (br.count == 0))
    where
      go :
          (b : Bool)
          → (if b then (err ebusy, s) else finish_del s i br del del.busy).0 ≢ ok tt
          → IsKept s del es (if b then (err ebusy, s) else finish_del s i br del del.busy).1
      go true h = inl r
      go false h = finish_del-IsKept i br del.busy found at h

  begin_del-IsKept :
      (remount : Bool) (b : Bindex)
      → find_dbindex s.root del.h_root.id ≡ b
      → ((begin_del s del remount b).0 ≢ ok tt) ⊎ (b ≡ none)
      → IsKept s del es (begin_del s del remount b).1
  begin_del-IsKept true none found h = inl r
  begin_del-IsKept false none found h = inl r
  begin_del-IsKept remount (some i) found (inl h) =
      del_branch-IsKept i (stobr s.table i) found refl h
  begin_del-IsKept remount (some i) found (inr e) = absurd (ground arith)

-- Where `br_del` returns an error, or no branch holds the directory, the branches stay. Only of the
-- branch that holds the directory, and only where it had a whiteout base, may the base be another:
-- the one that is set up again.
pub br_del-IsKept :
    (s : Super) (del : OptDel) (remount : Bool) (es : List Entry)
    → Represents s es
    → ((br_del s del remount).0 ≢ ok tt) ⊎ (find_dbindex s.root del.h_root.id ≡ none)
    → IsKept s del es (br_del s del remount).1
unfolding br_del
br_del-IsKept s del remount es r h = begin_del-IsKept s del es r remount _ refl h
