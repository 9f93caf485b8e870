-- ===== src/Dinfo.antt =====
-- fs/aufs/dinfo.c: the private data of a dentry, one hidden dentry for each branch, and the marks
-- dbstart, dbend, dbwh and dbdiropq. Locks and reference counts are left out: the functions here
-- run under the lock of the dentry, and a put only releases.
pub mod Range
pub mod Tail
use aufs.Common.{
  first_such, ℕ, zero, suc, ◌+◌, ◌-◌, ◌==◌, ltb, if◌then◌else◌, Bool, true, false, ◌&&◌, ◌||◌,
  Option, some, none, List, get_or, set, replicate, Bindex, lt_bindex, le_bindex, eq_bindex,
  count_to, from_branch,
}
use aufs.Lower.{HDentry, is_positive}

pub record Dinfo : Type 0 where
  pub hdentry : List (Option HDentry)
  pub bstart : Bindex
  pub bend : Bindex
  pub bwh : Bindex
  pub bdiropq : Bindex
  pub generation : ℕ

-- `au_alloc_dinfo`, when the allocations succeed: `kcalloc` of one slot for each branch, at least
-- one. `sb_bend` and `sigen` are those of the superblock.
unfoldable pub alloc_dinfo : Bindex → ℕ → Dinfo
alloc_dinfo sb_bend sigen = record {
  hdentry = replicate (if count_to sb_bend == 0 then 1 else count_to sb_bend) none;
  bstart = none;
  bend = none;
  bwh = none;
  bdiropq = none;
  generation = sigen;
}

-- `au_h_dptr_i`.
unfoldable pub h_dptr_i : Dinfo → ℕ → Option HDentry
h_dptr_i d b =
    if eq_bindex d.bstart none || lt_bindex (some b) d.bstart then none else get_or d.hdentry b none

-- `au_h_dptr`.
unfoldable pub h_dptr : Dinfo → Option HDentry
h_dptr d = elim d.bstart [ none ↦ none | some b ↦ h_dptr_i d b ]

abbrev pub pred_bindex : Bindex → Bindex
pred_bindex none = none
pred_bindex (some zero) = none
pred_bindex (some (suc b)) = some b

unfoldable pub dbtail : Dinfo → Bindex
dbtail d =
    if le_bindex (some 0) d.bend
    then (if eq_bindex d.bwh (some 0)
        then d.bwh
        else if lt_bindex (some 0) d.bwh && lt_bindex d.bwh d.bend
        then pred_bindex d.bwh
        else d.bend)
    else d.bend

unfoldable pub dbtaildir : Dinfo → Bindex
dbtaildir d =
    if le_bindex (some 0) (dbtail d)
      && (le_bindex (some 0) d.bdiropq && lt_bindex d.bdiropq (dbtail d))
    then d.bdiropq
    else dbtail d

-- `isdir` says whether the dentry has an inode that is a directory.
unfoldable pub dbtail_generic : Dinfo → Bool → Bindex
dbtail_generic d isdir = if isdir then dbtaildir d else dbtail d

-- The setters `set_dbstart`, `set_dbend`, `set_dbwh`, `set_dbdiropq`.
abbrev pub set_dbstart : Dinfo → Bindex → Dinfo
set_dbstart d b = record d { bstart = b }

abbrev pub set_dbend : Dinfo → Bindex → Dinfo
set_dbend d b = record d { bend = b }

abbrev pub set_dbwh : Dinfo → Bindex → Dinfo
set_dbwh d b = record d { bwh = b }

abbrev pub set_dbdiropq : Dinfo → Bindex → Dinfo
set_dbdiropq d b = record d { bdiropq = b }

-- `set_h_dptr`: a slot past the array is never written (the array has a slot for each branch).
abbrev pub set_h_dptr : Dinfo → ℕ → Option HDentry → Dinfo
set_h_dptr d b h = record d { hdentry = set d.hdentry b h }

-- The loop of `au_update_dbstart`, with the rounds left. A negative entry is put on the way.
pub update_dbstart_from : ℕ → ℕ → Dinfo → Dinfo
update_dbstart_from zero b d = d
update_dbstart_from (suc n) b d = elim (h_dptr_i d b) [
  | none ↦ update_dbstart_from n (b + 1) d
  | some h ↦ elim h.inode [
    | some _ ↦ set_dbstart d (some b)
    | none ↦ update_dbstart_from n (b + 1) (set_h_dptr d b none)
  ]
]

unfoldable pub update_dbstart : Dinfo → Dinfo
unfolding update_dbstart_from
update_dbstart d =
    update_dbstart_from (count_to d.bend - from_branch d.bstart) (from_branch d.bstart) d

-- A slot holds the hidden dentry that is looked for (`NULL` never is).
abbrev pub holds : Option HDentry → ℕ → Bool
holds none id = false
holds (some h) id = h.id == id

-- `au_find_dbindex`.
unfoldable pub find_dbindex : Dinfo → ℕ → Bindex
find_dbindex d id =
    first_such (λ b. holds (h_dptr_i d b) id) (count_to d.bend - from_branch d.bstart)
      (from_branch d.bstart)
