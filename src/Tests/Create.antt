-- ===== src/Tests/Create.antt =====
-- A file made over a whiteout.
use aufs.Common.{
  ℕ, zero, suc, ◌≤◌, ◌<◌, ◌≡◌, refl, count_to, length, ◌==◌, if◌then◌else◌, true, false, ◌&&◌, some,
  none, [], ◌∷◌, ok, arith, inl,
}
use aufs.Lower.{s_ifreg}
use aufs.Dinfo.{dbtail, dbtaildir, h_dptr_i}
use aufs.Whout.{eq_name, alloc_whname, is_wh, is_diropq}
use aufs.Whout.Change.{lkup_wh, unlink_wh_dentry}
use aufs.Lookup.{lkup_dentry}
use aufs.Lookup.Stack.{Layer, node}
use aufs.Lookup.Rounds.{layer_of}
use aufs.Lookup.Refine.{Outcome}
use aufs.Create.{add_simple}
use aufs.Create.Shown.{IsNew, add_simple-shown}
use aufs.Tests.Disk.{Disk, disk, disk-IsVfs, entry}
use aufs.Tests.Remove.{wh_f, dir, parent, fresh, fresh-slots, no_cpup}
use aufs.Vfs.{Op, lkup_in}
use aufs.Vfs.Look.{env_of}

-- The upper directory has the whiteout of a file of the lower one.
abbrev whited_f : Disk
whited_f q m =
    if q == 10 && eq_name m wh_f
    then some (3, s_ifreg)
    else if q == 20 && eq_name m (b'f' ∷ [])
    then some (2, s_ifreg)
    else none

abbrev start : Op Disk
start = record {
  world = whited_f;
  dentry = record {
    hdentry = some (entry none) ∷ none ∷ [];
    bstart = some 0;
    bend = some 0;
    bwh = some 0;
    bdiropq = none;
    generation = 1;
  };
  parent = parent;
  nlink = 0;
  dir_nlink = 2;
  dir_version = 5;
  hashed = true;
  reinits = 0;
  later = 0;
}

after : Op Disk
after = (add_simple (disk false) no_cpup (ok tt) s_ifreg start).1

created : add_simple (disk false) no_cpup (ok tt) s_ifreg start ≡ (ok tt, after)
unfolding after add_simple lkup_wh unlink_wh_dentry h_dptr_i alloc_whname
created = refl

new : IsNew (disk false) start wh_f 0 (dir 10)
unfolding h_dptr_i dbtaildir dbtail
new = record {
  first = refl;
  at = refl;
  dir = refl;
  above = λ j h. absurd (omega arith);
  apart = λ j hq h. absurd (omega arith);
  marked = inl refl;
  tail = omega arith;
}

abbrev layers : ℕ → Layer
layers j = node s_ifreg false

shows :
    (j : ℕ)
    → j < count_to (dbtaildir after.parent)
    → layer_of (env_of (disk false) after.world after.parent wh_f) j ≡ ok (layers j)
unfolding after add_simple lkup_wh unlink_wh_dentry h_dptr_i alloc_whname is_wh is_diropq dbtaildir
    dbtail
shows zero h = refl
shows (suc zero) h = refl
shows (suc (suc j)) h = absurd (omega arith)

after_room : count_to (dbtaildir after.parent) ≤ length fresh.hdentry
unfolding after add_simple lkup_wh unlink_wh_dentry h_dptr_i alloc_whname dbtaildir dbtail
after_room = omega arith

add_simple-shown_example : Outcome fresh 0 (0 ∷ []) (
    lkup_dentry
      (lkup_in (disk false) after.world)
      (disk false).table
      after.parent
      (b'f' ∷ [])
      fresh
      0
      0)
unfolding alloc_whname h_dptr_i
add_simple-shown_example =
    add_simple-shown (disk false) (disk-IsVfs false) no_cpup (ok tt) wh_f start after 0 s_ifreg
      (dir 10) fresh layers refl refl new refl refl created
      (record { slots = fresh-slots; no_wh = refl; no_opq = refl }) after_room shows
