-- ===== src/Manage/Del.antt =====
-- `br_del`.
use aufs.Common.{
  ℕ, max, ◌==◌, if◌then◌else◌, Bool, not, ◌||◌, Option, some, none, List, [], ◌∷◌, get_or, Result,
  ok, err, enoent, ebusy, Bindex, eq_bindex, count_to, shift_down,
}
use aufs.Lower.{HInode, HDentry}
use aufs.Dinfo.{find_dbindex, pred_bindex}
use aufs.Iinfo.{zero_hinode}
use aufs.Branch.{Branch, live, stobr, update_br}
use aufs.Whout.{BaseDir, WhBase, no_base, init_wh}
use aufs.Plink.{half_refresh_plink}
use aufs.Manage.{Super, sub_nlink, cpup_nlink}

-- `struct opt_del`: the root of the branch, its inode, and `s_maxbytes` of its filesystem. `busy` is
-- the result of `test_children_busy`, a walk over the dentry cache that looks for users of the
-- branch; `base` is what `init_wh` meets in the directory.
pub record OptDel : Type 0 where
  pub h_root : HDentry
  pub inode : HInode
  pub maxbytes : ℕ
  pub busy : Result (Unit {0})
  pub base : BaseDir

abbrev pub set_base : WhBase → Branch → Branch
set_base w br = record br { wh = w.has_wh; plink = w.has_plink }

-- `br->br_wh = br->br_plink = NULL`, and the revert of it by `init_br_wh`.
abbrev pub drop_base : Super → ℕ → Super
drop_base s i = record s { table = update_br s.table i (set_base no_base) }

abbrev pub revert_base : Super → ℕ → Branch → OptDel → Super
revert_base s i br del = record s {
  table = update_br s.table i (set_base (init_wh br.perm s.plink del.base no_base).1);
}

-- The loop that finds the largest file size of the branches.
abbrev pub slot_maxbytes : Option Branch → ℕ
slot_maxbytes none = 0
slot_maxbytes (some br) = br.mnt.maxbytes

abbrev pub all_maxbytes : List (Option Branch) → ℕ → ℕ
all_maxbytes [] m = m
all_maxbytes (x ∷ xs) m = all_maxbytes xs (max m (slot_maxbytes x))

-- The three arrays shifted down at `i`, and the new ends. The last slot of the inode keeps its
-- branch id.
abbrev pub close_slot : Super → ℕ → Super
close_slot s i =
    let m = count_to (pred_bindex s.table.bend) in
    record s {
      table = record s.table {
        branch = shift_down i m none s.table.branch;
        bend = pred_bindex s.table.bend;
      };
      root = record s.root {
        hdentry = shift_down i m none s.root.hdentry;
        bend = pred_bindex s.root.bend;
      };
      root_inode = record s.root_inode {
        hinode =
            shift_down i m (record (get_or s.root_inode.hinode m zero_hinode) { inode = none })
              s.root_inode.hinode;
        bend = pred_bindex s.root_inode.bend;
      };
    }

-- The rest of `br_del` after the arrays.
abbrev pub after_close : Super → ℕ → ℕ → OptDel → Super
after_close s i br_id del = record s {
  nlink = if i == 0 then cpup_nlink s.root_inode s.nlink else sub_nlink s.nlink del.inode.nlink;
  plinks = if s.plink then half_refresh_plink br_id s.plinks else s.plinks;
  maxbytes = if s.maxbytes == del.maxbytes then all_maxbytes (live s.table) 0 else s.maxbytes;
}

-- With the result of `test_children_busy`.
abbrev pub finish_del : Super → ℕ → Branch → OptDel → Result (Unit {0}) → Result (Unit {0}) × Super
finish_del s i br del (ok u) = (ok tt, after_close (close_slot (drop_base s i) i) i br.id del)
finish_del s i br del (err e) =
    (err e, if br.wh || br.plink then revert_base (drop_base s i) i br del else s)

-- The branch at `i`; a missing one would be a NULL pointer.
abbrev pub del_branch : Super → ℕ → OptDel → Option Branch → Result (Unit {0}) × Super
del_branch s i del none = (err enoent, s)
del_branch s i del (some br) =
    if eq_bindex s.table.bend (some 0) || not (br.count == 0)
    then (err ebusy, s)
    else finish_del s i br del del.busy

abbrev pub begin_del : Super → OptDel → Bool → Bindex → Result (Unit {0}) × Super
begin_del s del remount none = if remount then (ok tt, s) else (err enoent, s)
begin_del s del remount (some i) = del_branch s i del (stobr s.table i)

unfoldable pub br_del : Super → OptDel → Bool → Result (Unit {0}) × Super
br_del s del remount = begin_del s del remount (find_dbindex s.root del.h_root.id)
