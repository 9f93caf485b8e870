-- ===== src/Tests/Unlink.antt =====
-- An unlink of a file on the lower branch, which can only be read: the parent directory is copied up to
-- the upper branch, and the whiteout is made there.
use aufs.Common.{
  inl, ℕ, zero, suc, ◌+◌, ◌≤◌, ◌<◌, ◌≡◌, ◌≢◌, refl, ap, subst, count_to, get_or, length, ◌==◌, ◌&&◌,
  if◌then◌else◌, true, false, some, none, [], ◌∷◌, ok, first_such, last_such, arith,
}
use aufs.Lower.{HDentry, s_ifreg}
use aufs.Dinfo.{Dinfo, dbtail, dbtaildir, h_dptr_i, set_h_dptr, update_dbstart}
use aufs.Branch.{find_rw_parent_br, find_rw_parent, find_rw_br}
use aufs.Whout.{eq_name, alloc_whname, is_wh, is_diropq}
use aufs.Whout.Change.{lkup_wh, link_or_create_wh, simple_create_wh, unlink_wh_dentry}
use aufs.Lookup.{lkup_round, lkup_dentry}
use aufs.Lookup.Stack.{missing, Layer, whited, node}
use aufs.Lookup.Rounds.{layer_of}
use aufs.Remove.{aufs_unlink}
use aufs.Remove.Gone.{IsFound, IsCopied, CopiesUp, WritesAreSeen}
use aufs.Remove.Unlink.{aufs_unlink-gone}
use aufs.Tests.Disk.{Disk, disk, disk-IsVfs, entry, two_branches}
use aufs.Tests.Remove.{wh_f, dir, fresh, fresh-slots}
use aufs.Vfs.{Op, Run, lkup_in}
use aufs.Vfs.Look.{env_of}

abbrev below : Disk
below q m = if q == 20 && eq_name m (b'f' ∷ []) then some (2, s_ifreg) else none

-- Neither the parent nor the file has a slot on the upper branch.
abbrev on_lower : HDentry → Dinfo
on_lower h = record {
  hdentry = none ∷ some h ∷ [];
  bstart = some 1;
  bend = some 1;
  bwh = none;
  bdiropq = none;
  generation = 1;
}

abbrev start : Op Disk
start = record {
  world = below;
  dentry = on_lower (entry (some (2, s_ifreg)));
  parent = on_lower (dir 20);
  nlink = 1;
  dir_nlink = 2;
  dir_version = 5;
  hashed = true;
  reinits = 0;
  later = 0;
}

-- Like `cpup_dirs`: nothing is done where the parent has its slot, else an empty directory is made.
abbrev cpup : ℕ → Run Disk (Unit {0})
cpup b s = elim (h_dptr_i s.parent b) [
  | some hp ↦ (ok tt, s)
  | none ↦ (
    ok tt,
    record s { parent = record (set_h_dptr s.parent b (some (dir 10))) { bstart = some b } },
  )
]

seen : WritesAreSeen two_branches
seen zero h = refl
seen (suc zero) h = cc
seen (suc (suc b)) h = cc

slots : (j : ℕ) → 1 + 1 ≤ j → get_or start.dentry.hdentry j none ≡ none
slots zero h = absurd (omega arith)
slots (suc zero) h = absurd (omega arith)
slots (suc (suc j)) h = refl

apart :
    (i j : ℕ) (hp hq : HDentry)
    → i ≢ j
    → h_dptr_i start.parent i ≡ some hp
    → h_dptr_i start.parent j ≡ some hq
    → hp.id ≢ hq.id
unfolding h_dptr_i
apart zero j hp hq ne e f k = ground arith
apart (suc zero) zero hp hq ne e f k = ground arith
apart (suc zero) (suc zero) hp hq ne e f k = absurd (ne refl)
apart (suc zero) (suc (suc j)) hp hq ne e f k = ground arith
apart (suc (suc i)) j hp hq ne e f k = ground arith

copied-slots : (j : ℕ) → j ≢ 0 → h_dptr_i (cpup 0 start).1.parent j ≡ h_dptr_i start.parent j
unfolding h_dptr_i
copied-slots zero ne = absurd (ne refl)
copied-slots (suc zero) ne = refl
copied-slots (suc (suc j)) ne = ground arith

copied-apart :
    (j : ℕ) (hp hq : HDentry)
    → j ≢ 0
    → h_dptr_i (cpup 0 start).1.parent 0 ≡ some hp
    → h_dptr_i (cpup 0 start).1.parent j ≡ some hq
    → hq.id ≢ hp.id
unfolding h_dptr_i
copied-apart zero hp hq ne e f k = absurd (ne refl)
copied-apart (suc zero) hp hq ne e f k = ground arith
copied-apart (suc (suc j)) hp hq ne e f k = ground arith

copied : IsCopied (disk false) 0 start (cpup 0 start).1
unfolding h_dptr_i
copied = record {
  dir = (dir 10, refl, refl);
  slots = copied-slots;
  views = λ j hq ne e m. refl;
  apart = copied-apart;
}

copies : CopiesUp (disk false) cpup start 1
copies zero t h e = subst (IsCopied (disk false) 0 start) (ap (λ x. x.1) e) copied
copies (suc b) t h e = absurd (omega arith)

above :
    (j : ℕ) → j < 1 → layer_of (env_of (disk false) start.world start.parent wh_f) j ≡ ok missing
unfolding h_dptr_i
above zero h = refl
above (suc j) h = absurd (omega arith)

found : IsFound (disk false) start wh_f 1
unfolding h_dptr_i dbtaildir dbtail
found = record {
  first = refl;
  clear = record { slots = slots; no_wh = refl; no_opq = refl };
  above = λ j h. inl (above j h);
  dir = (dir 20, refl, refl);
  apart = apart;
  from = omega arith;
  tail = omega arith;
  room = omega arith;
}

after : Op Disk
after = (aufs_unlink (disk false) cpup true start).1

unlinked : aufs_unlink (disk false) cpup true start ≡ (ok tt, after)
unfolding after aufs_unlink lkup_wh link_or_create_wh simple_create_wh unlink_wh_dentry h_dptr_i
    lkup_dentry alloc_whname update_dbstart is_wh is_diropq dbtaildir dbtail lkup_round
    find_rw_parent_br find_rw_parent find_rw_br first_such last_such
unlinked = refl

-- The upper branch has the whiteout, the lower one still has the file.
abbrev layers : ℕ → Layer
layers zero = whited
layers (suc j) = node s_ifreg false

shows :
    (j : ℕ)
    → j < count_to (dbtaildir after.parent)
    → layer_of (env_of (disk false) after.world after.parent wh_f) j ≡ ok (layers j)
unfolding after aufs_unlink lkup_wh link_or_create_wh simple_create_wh unlink_wh_dentry h_dptr_i
    lkup_dentry alloc_whname update_dbstart is_wh is_diropq dbtaildir dbtail lkup_round
    find_rw_parent_br find_rw_parent find_rw_br first_such last_such
shows zero h = refl
shows (suc zero) h = refl
shows (suc (suc j)) h = absurd (omega arith)

after_room : count_to (dbtaildir after.parent) ≤ length fresh.hdentry
unfolding after aufs_unlink lkup_wh link_or_create_wh simple_create_wh unlink_wh_dentry h_dptr_i
    lkup_dentry alloc_whname update_dbstart is_wh is_diropq dbtaildir dbtail lkup_round
    find_rw_parent_br find_rw_parent find_rw_br first_such last_such
after_room = omega arith

aufs_unlink-gone_example :
    (lkup_dentry
      (lkup_in (disk false) after.world)
      two_branches
      after.parent
      (b'f' ∷ [])
      fresh
      0
      0).0
    ≡ ok 0
unfolding alloc_whname
aufs_unlink-gone_example =
    aufs_unlink-gone (disk false) (disk-IsVfs false) cpup seen wh_f refl refl start after 1 found
      copies fresh layers unlinked (record { slots = fresh-slots; no_wh = refl; no_opq = refl })
      after_room shows
