-- ===== src/Tests/Remove.antt =====
-- An unlink that fails, on two branches that both have the file.
use aufs.Common.{
  ℕ, zero, suc, ◌≤◌, ◌≡◌, refl, get_or, ◌==◌, if◌then◌else◌, true, some, none, [], ◌∷◌, err, eperm,
  erofs,
}
use aufs.Lower.{HDentry, s_ifdir, s_ifreg}
use aufs.Dinfo.{Dinfo, dbtail, dbtaildir, h_dptr_i, update_dbstart}
use aufs.Whout.{Name, eq_name, alloc_whname, is_wh, is_diropq}
use aufs.Whout.Change.{lkup_wh, link_or_create_wh, simple_create_wh, unlink_wh_dentry}
use aufs.Lookup.{lkup_round, lkup_dentry}
use aufs.Remove.{aufs_unlink}
use aufs.Remove.Undone.{Undone, aufs_unlink-Undone}
use aufs.Tests.Disk.{Disk, disk, disk-IsVfs, entry}
use aufs.Vfs.{Op, Run}

abbrev pub wh_f : Name
wh_f = b'.' ∷ b'w' ∷ b'h' ∷ b'.' ∷ b'f' ∷ []

-- The file in both directories.
abbrev both : Disk
both q m =
    if eq_name m (b'f' ∷ [])
    then (if q == 10 then some (1, s_ifreg) else if q == 20 then some (2, s_ifreg) else none)
    else none

abbrev pub dir : ℕ → HDentry
dir id = entry (some (id, s_ifdir))

abbrev pub parent : Dinfo
parent = record {
  hdentry = some (dir 10) ∷ some (dir 20) ∷ [];
  bstart = some 0;
  bend = some 1;
  bwh = none;
  bdiropq = none;
  generation = 1;
}

abbrev dentry : Dinfo
dentry = record {
  hdentry = some (entry (some (1, s_ifreg))) ∷ none ∷ [];
  bstart = some 0;
  bend = some 0;
  bwh = none;
  bdiropq = none;
  generation = 1;
}

abbrev pub fresh : Dinfo
fresh = record {
  hdentry = none ∷ none ∷ [];
  bstart = none;
  bend = none;
  bwh = none;
  bdiropq = none;
  generation = 1;
}

abbrev start : Op Disk
start = record {
  world = both;
  dentry = dentry;
  parent = parent;
  nlink = 1;
  dir_nlink = 2;
  dir_version = 5;
  hashed = true;
  reinits = 0;
  later = 0;
}

-- A copy-up that is refused.
abbrev pub no_cpup : ℕ → Run Disk (Unit {0})
no_cpup b s = (err erofs, s)

pub fresh-slots : (j : ℕ) → 0 ≤ j → get_or fresh.hdentry j none ≡ none
fresh-slots zero h = refl
fresh-slots (suc zero) h = refl
fresh-slots (suc (suc j)) h = refl

-- The file cannot be removed, and the whiteout goes again.
aufs_unlink-Undone_example : Undone (disk true) start (aufs_unlink (disk true) no_cpup true start)
unfolding alloc_whname h_dptr_i
aufs_unlink-Undone_example =
    aufs_unlink-Undone (disk true) (disk-IsVfs true) no_cpup wh_f start 0 (dir 10) refl refl refl
      refl refl

stuck_unlink : (aufs_unlink (disk true) no_cpup true start).0 ≡ err eperm
unfolding aufs_unlink lkup_wh link_or_create_wh simple_create_wh unlink_wh_dentry h_dptr_i
    lkup_dentry alloc_whname update_dbstart is_wh is_diropq dbtaildir dbtail lkup_round
stuck_unlink = refl
