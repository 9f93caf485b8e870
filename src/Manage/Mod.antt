-- ===== src/Manage/Mod.antt =====
-- `br_mod`: another permission for a branch.
use aufs.Common.{
  ℕ, ◌==◌, if◌then◌else◌, Bool, false, not, ◌||◌, Option, some, none, List, map, Result, ok, err,
  enoent, Bindex,
}
use aufs.Lower.{HDentry}
use aufs.Dinfo.{find_dbindex}
use aufs.Branch.{Branch, stobr, update_br}
use aufs.Branch.Permission.{Perm, ro, eq_perm, br_writable, need_sigen_inc}
use aufs.Whout.{BaseDir, WhBase, init_wh}
use aufs.Manage.{Super, test_br}
use aufs.Manage.Del.{set_base}

-- `struct opt_mod`; `rdonly` says whether the filesystem of the branch is mounted read-only, and
-- `base` is what `init_wh` meets in its root.
pub record OptMod : Type 0 where
  pub h_root : HDentry
  pub perm : Perm
  pub rdonly : Bool
  pub base : BaseDir

-- An open file of the union: whether it is a regular file, opened for writing, with its first branch,
-- and whether the file of that branch may be written.
pub record OpenFile : Type 0 where
  pub regular : Bool
  pub write : Bool
  pub bstart : ℕ
  pub h_write : Bool

-- One round of the loop over the open files.
abbrev pub take_write : ℕ → OpenFile → OpenFile
take_write i f =
    if not f.regular || (not f.write || not (f.bstart == i))
    then f
    else record f { h_write = false }

-- The mount, its open files, and the flag that asks for a refresh.
pub record Mounted : Type 0 where
  pub super : Super
  pub files : List OpenFile
  pub do_update : Bool

-- The new permission, beside the base that is left and the files.
abbrev pub store_perm : Mounted → ℕ → Branch → OptMod → WhBase → List OpenFile → Mounted
store_perm m i br opt w files = record {
  super = record m.super {
    table =
        update_br m.super.table i
          (λ b. record b { perm = opt.perm; wh = w.has_wh; plink = w.has_plink });
  };
  files = files;
  do_update = m.do_update || need_sigen_inc br.perm opt.perm;
}

abbrev pub base_of : Branch → WhBase
base_of br = record { has_wh = br.wh; has_plink = br.plink }

-- With the result of `init_br_wh` for the permission `ro`, where the branch could be written.
abbrev pub after_clear :
    Mounted → ℕ → Branch → OptMod → Result (Unit {0}) × WhBase → Result (Unit {0}) × Mounted
after_clear m i br opt (err e, w) =
    (err e, record m { super = record m.super { table = update_br m.super.table i (set_base w) } })
after_clear m i br opt (ok u, w) = (
  ok tt,
  store_perm m i br opt w (if br_writable opt.perm then m.files else map (take_write i) m.files),
)

abbrev pub change_perm : Mounted → ℕ → Branch → OptMod → Result (Unit {0}) × Mounted
change_perm m i br opt =
    if br_writable br.perm
    then after_clear m i br opt (init_wh ro m.super.plink opt.base (base_of br))
    else (ok tt, store_perm m i br opt (base_of br) m.files)

-- The branch at `i`; a missing one would be a NULL pointer.
abbrev pub mod_branch : Mounted → ℕ → OptMod → Option Branch → Result (Unit {0}) × Mounted
mod_branch m i opt none = (err enoent, m)
mod_branch m i opt (some br) =
    if eq_perm br.perm opt.perm then (ok tt, m) else change_perm m i br opt

abbrev pub tested_mod : Mounted → ℕ → OptMod → Result (Unit {0}) → Result (Unit {0}) × Mounted
tested_mod m i opt (err e) = (err e, m)
tested_mod m i opt (ok u) = mod_branch m i opt (stobr m.super.table i)

abbrev pub begin_mod : Mounted → OptMod → Bool → Bindex → Result (Unit {0}) × Mounted
begin_mod m opt remount none = if remount then (ok tt, m) else (err enoent, m)
begin_mod m opt remount (some i) = tested_mod m i opt (test_br opt.perm opt.rdonly)

unfoldable pub br_mod : Mounted → OptMod → Bool → Result (Unit {0}) × Mounted
br_mod m opt remount = begin_mod m opt remount (find_dbindex m.super.root opt.h_root.id)
