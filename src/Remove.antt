-- ===== src/Remove.antt =====
-- fs/aufs/i_op_del.c: unlink and rmdir. Locks, time stamps and reference counts are left out.
-- `cpup_dirs` copies the parent directory up to a branch; `cnt` is the counter of temporary names.
pub mod Steps
pub mod Final
pub mod Gone
pub mod Unlink
pub mod Undone
use aufs.Common.{
  ℕ, zero, suc, ◌+◌, ◌-◌, ◌==◌, ltb, leb, if◌then◌else◌, Bool, true, false, not, ◌&&◌, ◌||◌, Option,
  some, none, List, [], ◌∷◌, Result, ok, err, eio, enoent, Bindex, eq_bindex, from_branch,
}
use aufs.Lower.{HDentry}
use aufs.Dinfo.{Dinfo, h_dptr, set_dbend, set_dbwh, set_dbdiropq, set_h_dptr, update_dbstart}
use aufs.Branch.{find_rw_parent_br}
use aufs.Whout.{Name}
use aufs.Whout.Change.{simple_create_wh, unlink_wh_dentry, rename_whtmp, rmdir_whtmp}
use aufs.Lookup.{lkup_dentry}
use aufs.Vfs.{
  test_ro, Op, Run, System, settle, pure, throw, lift, gets, modify, try, and_then, call, lkup_in,
  hidden_parent, ◌>>=◌, ◌>>◌,
}

-- The loop of `is_longer_wh` (vdir.c), with the count so far.
pub longer_from : List (Name × ℕ) → ℕ → ℕ → ℕ → Bool
longer_from [] btgt limit n = false
longer_from ((name, b) ∷ whs) btgt limit n =
    let n' = (if b == btgt then n + 1 else n) in
    b == btgt && ltb limit n' || longer_from whs btgt limit n'

-- `is_longer_wh`: the list has more than `limit` whiteouts of the branch.
unfoldable pub is_longer_wh : List (Name × ℕ) → ℕ → ℕ → Bool
unfolding longer_from
is_longer_wh whlist btgt limit = longer_from whlist btgt limit 0

module _ (sys : System) (cpup_dirs : ℕ → Run sys.World (Unit {0})) where
  -- The lookup below the first branch. A negative entry that it left is dropped.
  abbrev pub restored : Dinfo → Dinfo → Dinfo
  restored old new =
      if eq_bindex old.bend new.bend
      then new
      else set_dbend (set_h_dptr new (from_branch new.bend) none) old.bend

  abbrev pub after_below : Bool → Op sys.World → Result ℕ → Dinfo → Result Bool × Op sys.World
  after_below isdir s r d1 =
      let d2 : Dinfo = (if isdir then set_dbdiropq d1 s.dentry.bdiropq else d1) in
      elim r [
        | err e ↦ (err e, record s { dentry = d2 })
        | ok n ↦
            (ok (not (n == 0)), record s { dentry = if n == 0 then restored s.dentry d2 else d2 })
      ]

  unfoldable pub exists_below : Bool → ℕ → Run sys.World Bool
  exists_below isdir bstart s =
      let (r, d1) =
        lkup_dentry (lkup_in sys s.world) sys.table s.parent sys.name
          (if isdir then set_dbdiropq s.dentry none else s.dentry) (bstart + 1) 0 in
      after_below isdir s r d1

  -- The branch to work on, where the caller names none.
  abbrev pub wr_target : Bindex → Op sys.World → Result ℕ
  wr_target (some b) s = ok b
  wr_target none s =
      let bstart = from_branch s.dentry.bstart in
      if test_ro sys bstart then find_rw_parent_br sys.table s.parent bstart else ok bstart

  abbrev pub need_wh_at : Bool → ℕ → Run sys.World (Bool × ℕ)
  need_wh_at isdir b s =
      if b == from_branch s.dentry.bstart
      then (exists_below isdir b >>= λ need_wh. pure (need_wh, b)) s
      else (cpup_dirs b >> pure (true, b)) s

  -- `wr_dir_need_wh`: whether a whiteout is needed, and the branch for it.
  unfoldable pub wr_dir_need_wh : Bool → Bindex → Run sys.World (Bool × ℕ)
  unfolding exists_below
  wr_dir_need_wh isdir bcpup s = and_then (wr_target bcpup s, s) (need_wh_at isdir)

  abbrev pub make_wh : Bool × ℕ → Run sys.World (Bool × ℕ × HDentry)
  make_wh (need_wh, b) = do
    hp ← hidden_parent sys b
    (if need_wh then simple_create_wh sys b hp else pure tt)
    pure (need_wh, b, hp)

  -- `lock_hdir_create_wh`: the whiteout is made where one is needed. The result has the parent
  -- directory on the branch, which is left locked.
  unfoldable pub create_wh : Bool → Bindex → Run sys.World (Bool × ℕ × HDentry)
  unfolding wr_dir_need_wh
  create_wh isdir bcpup s = and_then (wr_dir_need_wh isdir bcpup s) make_wh

  -- `epilog`.
  abbrev pub epilog : Op sys.World → Op sys.World
  epilog s = record s {
    hashed = false;
    dentry =
        if sys.alone
        then update_dbstart (set_h_dptr s.dentry (from_branch s.dentry.bstart) none)
        else s.dentry;
    dir_version = s.dir_version + 1;
  }

  -- `do_revert`: the whiteout is removed again, and the mark set back.
  unfoldable pub do_revert : HDentry → Bindex → Run sys.World (Unit {0})
  do_revert hp bwh s = settle (unlink_wh_dentry sys hp s) (λ r t. elim r [
    | ok _ ↦ (ok tt, record t { dentry = set_dbwh t.dentry bwh })
    | err e ↦ (err eio, t)
  ])

  -- The label `revert`: the first error is returned, or -EIO where the revert fails.
  abbrev pub reverted : {A : Type 0} → Bool → HDentry → Bindex → Run sys.World A → Run sys.World A
  reverted wh hp bwh failed = if wh then (do_revert hp bwh >> failed) else failed

  -- The entry is removed where the branch is the first one of the dentry.
  abbrev pub remove_entry : ℕ → ℕ → HDentry → Run sys.World (Unit {0})
  remove_entry bstart b hp =
      if b == bstart then call sys (λ w. sys.unlink w hp.id sys.name) else pure tt

  abbrev pub finish_unlink : Bool → HDentry → Bindex → Result (Unit {0}) → Run sys.World (Unit {0})
  finish_unlink wh hp bwh (ok _) t = (ok tt, epilog (record t { nlink = t.nlink - 1 }))
  finish_unlink wh hp bwh (err e) t = reverted wh hp bwh (throw e) t

  abbrev pub unlink_at : ℕ → Bindex → Bool × ℕ × HDentry → Run sys.World (Unit {0})
  unlink_at bstart bwh (wh, b, hp) t = settle (remove_entry bstart b hp t) (finish_unlink wh hp bwh)

  -- `aufs_unlink`. `has_inode` says that the dentry is positive.
  unfoldable pub aufs_unlink : Bool → Run sys.World (Unit {0})
  unfolding create_wh do_revert
  aufs_unlink has_inode s =
      if not has_inode
      then (err enoent, s)
      else and_then (create_wh false none s) (unlink_at (from_branch s.dentry.bstart) s.dentry.bwh)

  -- `renwh_and_rmdir`: `true` where the removal is left to the work queue. `dirwh` is the mount
  -- option, and `nfs` says that the branch is one. An error after the renaming is ignored.
  unfoldable pub renwh_and_rmdir :
      HDentry → HDentry → ℕ → ℕ → Bool → ℕ → List (Name × ℕ) → Bool → Run sys.World Bool
  unfolding is_longer_wh
  renwh_and_rmdir hp hd b dirwh nfs cnt whlist top = do
    tmp ← rename_whtmp sys hp cnt
    (if not nfs && (leb dirwh 1 || is_longer_wh whlist b dirwh)
        then pure true
        else (do try (rmdir_whtmp sys hp hd tmp whlist b top); pure false))

  -- `aufs_rmdir`. `empty` is what `test_empty` answers, the whiteouts in the directory or an error.
  unfoldable pub aufs_rmdir :
      Bool → ℕ → Bool → ℕ → Result (List (Name × ℕ)) → Bool → Run sys.World (Unit {0})
  unfolding create_wh do_revert renwh_and_rmdir
  aufs_rmdir has_inode dirwh nfs cnt empty top s =
      if not has_inode
      then (err enoent, s)
      else (let bwh = s.dentry.bwh in
          let bstart = from_branch s.dentry.bstart in
          (do
            whlist ← lift empty
            r ← create_wh true none
            hidden ← gets (λ t. h_dptr t.dentry)
            done ← try (elim hidden [
              | none ↦ throw eio
              | some hd ↦
                  if r.1 == bstart
                  then renwh_and_rmdir r.2 hd bstart dirwh nfs cnt whlist top
                  else pure false
            ])
            elim done [
              | ok kick ↦ modify (λ t. epilog (record t {
                nlink = 0;
                dentry = set_dbdiropq t.dentry none;
                later = if kick then t.later + 1 else t.later;
              }))
              | err e ↦ reverted r.0 r.2 bwh (throw e)
            ])
            s)
