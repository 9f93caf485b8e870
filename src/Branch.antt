-- ===== src/Branch.antt =====
-- fs/aufs/branch.c and sbinfo.c: the branches of a mount and how one is found.
pub mod Permission
pub mod NewId
pub mod Writable
use aufs.Common.{
  first_such, last_such, ℕ, zero, suc, ◌+◌, ◌-◌, ◌%◌, ◌==◌, ltb, leb, if◌then◌else◌, Bool, true,
  false, not, ◌&&◌, ◌||◌, Option, some, none, List, [], ◌∷◌, get_or, set, window, find_slot, Bindex,
  eq_bindex, count_to, from_branch, Result, ok, err, erofs,
}
use aufs.Dinfo.{Dinfo, h_dptr_i}
use Permission.{Perm, br_writable, br_whable}

-- The part of `struct vfsmount` and its superblock that is read: the address of the superblock,
-- `s_flags & MS_RDONLY`, `s_maxbytes`, and whether it is NFS.
pub record Mount : Type 0 where
  pub sb_id : ℕ
  pub rdonly : Bool
  pub maxbytes : ℕ
  pub nfs : Bool

-- `struct aufs_branch`. `xino` is the inode number of the xino file; of the whiteout base and the
-- pseudo-link directory only their presence is kept. An id is a bit pattern of `aufs_bindex_t`.
pub record Branch : Type 0 where
  pub id : ℕ
  pub perm : Perm
  pub mnt : Mount
  pub count : ℕ
  pub wh : Bool
  pub plink : Bool
  pub xino : Option ℕ

-- AUFS_BRANCH_MAX and the number of values of `aufs_bindex_t`, a `char`, in the default
-- configuration (CONFIG_AUFS_BRANCH_MAX_127).
abbrev pub branch_max : ℕ
branch_max = 127

abbrev pub bindex_mod : ℕ
bindex_mod = 256

-- The branch table of `struct aufs_sbinfo`. Slots past `bend` hold NULL.
pub record Brtable : Type 0 where
  pub bend : Bindex
  pub last_br_id : ℕ
  pub branch : List (Option Branch)

-- The slots from 0 to `si_bend`, over which the loops run.
abbrev pub live : Brtable → List (Option Branch)
live t = window (count_to t.bend) none t.branch

-- `stobr`.
abbrev pub stobr : Brtable → ℕ → Option Branch
stobr t b = get_or t.branch b none

abbrev pub has_id : ℕ → Option Branch → Bool
has_id id none = false
has_id id (some br) = br.id == id

unfoldable pub find_brindex : Brtable → ℕ → Bindex
find_brindex t id = find_slot (has_id id) (live t) 0

-- `br_rdonly`: true for -EROFS.
abbrev pub br_rdonly : Branch → Bool
br_rdonly br = br.mnt.rdonly || not (br_writable br.perm)

abbrev pub slot_rdonly : Option Branch → Bool
slot_rdonly none = true
slot_rdonly (some br) = br_rdonly br

-- A branch that is found, or -EROFS.
abbrev pub or_rofs : Bindex → Result ℕ
or_rofs none = err erofs
or_rofs (some b) = ok b

abbrev pub is_rw : Brtable → ℕ → Bool
is_rw t b = not (slot_rdonly (stobr t b))

unfoldable pub find_rw_br : Brtable → ℕ → Result ℕ
find_rw_br t bend = or_rofs (last_such (is_rw t) (suc bend))

-- The parent has a dentry on the branch, and the branch is not read-only.
abbrev pub parent_rw : Brtable → Dinfo → ℕ → Bool
parent_rw t parent b = elim (h_dptr_i parent b) [ none ↦ false | some _ ↦ is_rw t b ]

unfoldable pub find_rw_parent : Brtable → Dinfo → ℕ → Result ℕ
find_rw_parent t parent bend =
    if parent_rw t parent bend
    then ok bend
    else or_rofs (
        first_such (parent_rw t parent) (suc bend - from_branch parent.bstart)
          (from_branch parent.bstart))

unfoldable pub find_rw_parent_br : Brtable → Dinfo → ℕ → Result ℕ
find_rw_parent_br t parent bend = elim (find_rw_parent t parent bend) [
  | ok b ↦ ok b
  | err _ ↦ find_rw_br t bend
]

abbrev pub is_free_id : Brtable → ℕ → Bool
is_free_id t id = eq_bindex (find_brindex t id) none

-- The loop of `new_br_id` (sbinfo.c) on fuel: the table with the new `si_last_br_id`.
pub new_br_id_fuel : ℕ → Brtable → Option (ℕ × Brtable)
new_br_id_fuel zero t = none
new_br_id_fuel (suc f) t =
    let id = (t.last_br_id + 1) % bindex_mod in
    let t' : Brtable = record t { last_br_id = id } in
    let rest = new_br_id_fuel f t' in
    if not (id == 0) && is_free_id t' id then some (id, t') else rest

-- `new_br_id`, with fuel for two more rounds than there are branches.
unfoldable pub new_br_id : Brtable → ℕ × Brtable
unfolding new_br_id_fuel
new_br_id t = elim (new_br_id_fuel (count_to t.bend + 2) t) [ some r ↦ r | none ↦ (0, t) ]

-- A store into a branch of the table.
abbrev pub update_br : Brtable → ℕ → (Branch → Branch) → Brtable
update_br t b f = elim (stobr t b) [
  | none ↦ t
  | some br ↦ record t { branch = set t.branch b (some (f br)) }
]
