-- ===== src/Manage/Removed.antt =====
-- `br_del` against the list of branches.
use aufs.Common.{
  ℕ, zero, suc, ◌-◌, ◌≤◌, ◌<◌, ◌≡◌, refl, ap, ap₂, ◌∙◌, sym, subst, IsFirstSuch, subst₂, insert_at,
  length-insert_at, Bool, Option, some, none, List, [], ◌∷◌, map, length, window, get_or, set,
  erase_at, shift_down, window-shift_down, length-erase_at, Result, ok, count_to, last_of, arith,
}
use aufs.Dinfo.{find_dbindex, pred_bindex, h_dptr_i, holds}
use aufs.Dinfo.Range.{find_dbindex_lem}
use aufs.Iinfo.{Hinode, zero_hinode}
use aufs.Branch.{Branch, stobr, update_br}
use aufs.Whout.{no_base}
use aufs.Manage.{Super}
use aufs.Manage.Del.{
  OptDel, close_slot, after_close, finish_del, del_branch, begin_del, br_del, set_base,
}
use aufs.Manage.Entries.{
  Entry, slot_of, start_of, Represents, update_br-at, map-erase_at, length-erase_at-le,
  window-shift_down_any,
}

module _ {ℓ} {A : Type ℓ} where
  erase_at-set : (i : ℕ) (v : A) (xs : List A) → erase_at i (set xs i v) ≡ erase_at i xs
  erase_at-set i v [] = refl
  erase_at-set zero v (x ∷ xs) = refl
  erase_at-set (suc i) v (x ∷ xs) = ap (◌∷◌ x) (erase_at-set i v xs)

  length-erased : (i n : ℕ) (xs : List A) → length xs ≡ suc n → i ≤ n → length (erase_at i xs) ≡ n
  length-erased i n xs e h = omega (arith, length-erase_at i xs (omega arith))

  window-remove {κ} :
      {B : Type κ} (f : A → B) (i n : ℕ) (ys : List A) (d : B) (xs : List B)
      → length ys ≡ suc n
      → i ≤ n
      → window (length ys) d xs ≡ map f ys
      → window (length (erase_at i ys)) d (shift_down i n d xs) ≡ map f (erase_at i ys)
  window-remove f i n ys d xs c h e =
      ap (λ k. window k d (shift_down i n d xs)) (length-erased i n ys c h)
      ∙ window-shift_down i n d xs h
      ∙ ap (λ k. erase_at i (window k d xs)) (sym c)
      ∙ ap (erase_at i) e
      ∙ sym (map-erase_at f i ys)

-- The branch was removed, and the others stay in their order.
abbrev pub IsRemoved : List Entry → ℕ → Result (Unit {0}) × Super → Type 0
IsRemoved es i out = (out.0 ≡ ok tt) × Represents out.1 (erase_at i es)

-- `v` is what the slot of the branch holds when it is closed.
module _ (s : Super) (i n : ℕ) (v : Option Branch) (es : List Entry) (r : Represents s es)
    (c : length es ≡ suc (suc n)) (h : i ≤ suc n) where
  abbrev freed : Super
  freed = record s { table = record s.table { branch = set s.table.branch i v } }

  erased : length (erase_at i es) ≡ suc n
  erased = length-erased i (suc n) es c h

  same_count : count_to (pred_bindex s.table.bend) ≡ suc n
  same_count = ap (λ b. count_to (pred_bindex b)) (r.bend ∙ ap last_of c)

  last_of-erased : some n ≡ last_of (length (erase_at i es))
  last_of-erased = sym (ap last_of erased)

  same_start : start_of (length es) ≡ start_of (length (erase_at i es))
  same_start = ap start_of c ∙ sym (ap start_of erased)

  abbrev last_slot : ℕ → Hinode
  last_slot m = record (get_or s.root_inode.hinode m zero_hinode) { inode = none }

  closed_inodes :
      window (suc n) zero_hinode (shift_down i (suc n) (last_slot (suc n)) s.root_inode.hinode)
      ≡ map slot_of (erase_at i es)
  closed_inodes =
      window-shift_down_any i (suc n) _ zero_hinode s.root_inode.hinode (omega (arith, r.slots))
      ∙ ap (λ k. window k zero_hinode (shift_down i (suc n) zero_hinode s.root_inode.hinode))
          (sym erased)
      ∙ window-remove slot_of i (suc n) es zero_hinode s.root_inode.hinode c h r.inodes

  closed_slots : suc n ≤ length (shift_down i (suc n) (last_slot (suc n)) s.root_inode.hinode)
  closed_slots = omega (
    arith,
    r.slots,
    length-erase_at-le i s.root_inode.hinode,
    length-insert_at (suc n) (last_slot (suc n)) (erase_at i s.root_inode.hinode),
  )

  Represents-close : Represents (close_slot freed i) (erase_at i es)
  Represents-close = record {
    bend = ap pred_bindex (r.bend ∙ ap last_of c) ∙ last_of-erased;
    root_bend = ap pred_bindex (r.root_bend ∙ ap last_of c) ∙ last_of-erased;
    inode_bend = ap pred_bindex (r.inode_bend ∙ ap last_of c) ∙ last_of-erased;
    root_start = r.root_start ∙ same_start;
    inode_start = r.inode_start ∙ same_start;
    branches =
        ap₂ (λ m xs. window (length (erase_at i es)) none (insert_at m none xs)) same_count
          (erase_at-set i v s.table.branch)
        ∙ window-remove (λ e. some e.branch) i (suc n) es none s.table.branch c h r.branches;
    dentries =
        ap (λ m. window (length (erase_at i es)) none (shift_down i m none s.root.hdentry))
          same_count
        ∙ window-remove (λ e. some e.dentry) i (suc n) es none s.root.hdentry c h r.dentries;
    inodes =
        ap₂ (λ k m. window k zero_hinode (shift_down i m (last_slot m) s.root_inode.hinode)) erased
          same_count
        ∙ closed_inodes;
    slots =
        subst₂ (λ k m. k ≤ length (shift_down i m (last_slot m) s.root_inode.hinode)) (sym erased)
          (sym same_count) closed_slots;
  }

-- The later steps change nothing of the arrays.
Represents-after :
    {s : Super} {es : List Entry} (i id : ℕ) (del : OptDel)
    → Represents s es
    → Represents (after_close s i id del) es
Represents-after i id del r = record {
  bend = r.bend;
  root_bend = r.root_bend;
  inode_bend = r.inode_bend;
  root_start = r.root_start;
  inode_start = r.inode_start;
  branches = r.branches;
  dentries = r.dentries;
  inodes = r.inodes;
  slots = r.slots;
}

finish_del-IsRemoved :
    (s : Super) (i n : ℕ) (br : Branch) (del : OptDel) (es : List Entry)
    → Represents s es
    → length es ≡ suc (suc n)
    → i ≤ suc n
    → stobr s.table i ≡ some br
    → IsRemoved es i (finish_del s i br del (ok tt))
finish_del-IsRemoved s i n br del es r c h at = (
  refl,
  Represents-after i br.id del (
      subst (λ t. Represents (close_slot (record s { table = t }) i) (erase_at i es)) (sym dropped)
        (Represents-close s i n (some (set_base no_base br)) es r c h)),
)
  where
    dropped :
        update_br s.table i (set_base no_base)
        ≡ record s.table { branch = set s.table.branch i (some (set_base no_base br)) }
    dropped = update_br-at s.table i br _ at

del_branch-finish :
    (s : Super) (i n : ℕ) (br : Branch) (del : OptDel)
    → s.table.bend ≡ some (suc n)
    → br.count ≡ 0
    → del_branch s i del (some br) ≡ finish_del s i br del del.busy
del_branch-finish s i n br del e free = ground arith

pub found_below :
    (s : Super) (id i n : ℕ) (es : List Entry)
    → Represents s es
    → length es ≡ suc (suc n)
    → find_dbindex s.root id ≡ some i
    → i < suc (suc n)
found_below s id i n es r c found =
    let first =
      find_dbindex_lem s.root id 0 (suc n) (r.root_start ∙ ap start_of c)
        (r.root_bend ∙ ap last_of c) (omega arith) in
    (subst (IsFirstSuch (λ b. holds (h_dptr_i s.root b) id) 0 (suc (suc n))) found first).1

-- Where a branch holds the directory and is neither the last one nor in use, `br_del` succeeds and
-- takes exactly that branch out of the three arrays; `i` is its index.
pub br_del-IsRemoved :
    (s : Super) (del : OptDel) (remount : Bool) (es : List Entry) (i : ℕ) (br : Branch)
    → Represents s es
    → 2 ≤ length es
    → find_dbindex s.root del.h_root.id ≡ some i
    → stobr s.table i ≡ some br
    → br.count ≡ 0
    → del.busy ≡ ok tt
    → (i < length es) × IsRemoved es i (br_del s del remount)
unfolding br_del
br_del-IsRemoved s del remount es i br r two found at free idle =
    let n = length es - 2 in
    let c : length es ≡ suc (suc n) = omega arith in
    let below : i < suc (suc n) = found_below s del.h_root.id i n es r c found in
    (
      omega arith,
      subst (λ b. IsRemoved es i (begin_del s del remount b)) (sym found)
          (subst (λ o. IsRemoved es i (del_branch s i del o)) (sym at)
            (subst (IsRemoved es i)
              (sym (del_branch-finish s i n br del (r.bend ∙ ap last_of c) free))
              (subst (λ b. IsRemoved es i (finish_del s i br del b)) (sym idle)
                (finish_del-IsRemoved s i n br del es r c (omega arith) at)))),
    )
