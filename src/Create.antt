-- ===== src/Create.antt =====
-- fs/aufs/i_op_add.c: mknod, symlink and create, which differ in the type of the new entry, and
-- mkdir, with `wr_dir` of i_op.c. Locks, time stamps and reference counts are left out. `cpup_dirs`
-- copies the parent directory up to a branch, and `new_inode` is what `au_new_inode` returns. That a
-- hidden dentry becomes positive with the kernel's call is seen in the branches, not in its slot.
pub mod Steps
pub mod Shown
use aufs.Common.{
  ℕ, zero, suc, ◌+◌, ◌==◌, ltb, if◌then◌else◌, Bool, true, false, not, ◌&&◌, ◌||◌, Option, some,
  none, Result, ok, err, Errno, eio, Bindex, eq_bindex, from_branch,
}
use aufs.Lower.{HDentry}
use aufs.Dinfo.{Dinfo, h_dptr_i, update_dbstart}
use aufs.Branch.{find_rw_parent_br}
use aufs.Whout.{Name}
use aufs.Whout.Change.{lkup_wh, lookup_under, simple_create_wh, unlink_wh_dentry, do_diropq}
use aufs.Lookup.{lkup_neg}
use aufs.Vfs.{
  test_ro, Op, Run, System, settle, pure, throw, gets, modify, and_then, call, lkup_in,
  hidden_parent, ◌>>=◌, ◌>>◌,
}

module _ (sys : System) (cpup_dirs : ℕ → Run sys.World (Unit {0})) where
  -- The branch to write to: the one asked for, or that of the source where it lies above the first
  -- one of the dentry, or else the first one; another where that is read-only.
  abbrev pub wr_branch : Option ℕ → Bindex → Op sys.World → Result ℕ
  wr_branch src (some b) s = ok b
  wr_branch src none s =
      let bstart = from_branch s.dentry.bstart in
      let b : ℕ = elim src [ none ↦ bstart | some a ↦ if ltb a bstart then a else bstart ] in
      if test_ro sys b then find_rw_parent_br sys.table s.parent b else ok b

  abbrev pub trim_dentry : Bool → Op sys.World → Op sys.World
  trim_dentry false s = s
  trim_dentry true s = record s { dentry = update_dbstart s.dentry }

  -- The name must not be there on the new branch.
  abbrev pub look_up_neg : ℕ → Run sys.World (Unit {0})
  look_up_neg b s =
      let (r, d) = lkup_neg (lkup_in sys s.world) s.parent sys.name s.dentry b in
      (r, record s { dentry = d })

  abbrev pub with_parent : ℕ → Run sys.World (Unit {0})
  with_parent b s = elim (h_dptr_i s.parent b) [ none ↦ cpup_dirs b s | some _ ↦ (ok tt, s) ]

  abbrev pub wr_dir_at : Bool → ℕ → Run sys.World ℕ
  wr_dir_at add_entry b s =
      if b == from_branch s.dentry.bstart
      then (ok b, s)
      else (do with_parent b; (if add_entry then look_up_neg b else pure tt); pure b)
          (trim_dentry add_entry s)

  -- `wr_dir` (i_op.c).
  unfoldable pub wr_dir : Bool → Option ℕ → Bindex → Run sys.World ℕ
  wr_dir add_entry src force_btgt s = and_then (wr_branch src force_btgt s, s) (wr_dir_at add_entry)

  -- The whiteout of the new name is looked up where the dentry has one on the branch.
  abbrev pub find_wh : ℕ → HDentry → Run sys.World (ℕ × HDentry × Bool)
  find_wh b hp s =
      if eq_bindex (some b) s.dentry.bwh
      then (lkup_wh sys hp sys.name >>= λ _. pure (b, hp, true)) s
      else (ok (b, hp, false), s)

  -- `lock_hdir_lkup_wh`: the branch, the parent directory there, and whether there is a whiteout.
  unfoldable pub lkup_wh_for : Option ℕ → Run sys.World (ℕ × HDentry × Bool)
  unfolding wr_dir
  lkup_wh_for src = do b ← wr_dir true src none; hp ← hidden_parent sys b; find_wh b hp

  -- The end of a successful addition: the dentry gets the inode.
  abbrev pub instantiate : Op sys.World → Op sys.World
  instantiate s = record s { dir_version = s.dir_version + 1 }

  -- The whiteout is made again where there is no inode.
  abbrev pub remake_wh : Bool → HDentry → Bindex → Errno → Run sys.World (Unit {0})
  remake_wh false hp bwh e s = (err e, s)
  remake_wh true hp bwh e s =
      settle (simple_create_wh sys (from_branch bwh) hp s)
        (λ r t. elim r [ ok _ ↦ (err e, t) | err x ↦ (err eio, t) ])

  module _ (new_inode : Result (Unit {0})) where
    -- `epilog`.
    unfoldable pub epilog : Bool → HDentry → Run sys.World (Unit {0})
    epilog wh hp s =
        let bwh = s.dentry.bwh in
        and_then ((if wh then unlink_wh_dentry sys hp else pure tt) s) (λ _ t. elim new_inode [
          | ok _ ↦ (ok tt, instantiate t)
          | err e ↦ remake_wh wh hp bwh e t
        ])

    -- The label `out`: after an error the range of the dentry is fitted, and it is dropped.
    abbrev pub out : Result (Unit {0}) → Run sys.World (Unit {0})
    out (ok _) s = (ok tt, s)
    out (err e) s = (err e, record s { dentry = update_dbstart s.dentry; hashed = false })

    -- The new entry is removed again: it exists where the creation itself succeeded.
    abbrev pub remove_new : HDentry → Result (Unit {0}) → Run sys.World (Unit {0})
    remove_new hp (ok _) s = (ok tt, s)
    remove_new hp (err e) s = settle (call sys (λ w. sys.unlink w hp.id sys.name) s) (λ r t.
        elim r [
          | ok _ ↦ (err e, record t { hashed = false })
          | err x ↦ (err eio, record t { hashed = false })
        ])

    abbrev pub after_create : ℕ × HDentry × Bool → Run sys.World (Unit {0})
    after_create (b, hp, wh) t = settle (epilog wh hp t) (remove_new hp)

    abbrev pub create_at : ℕ → ℕ × HDentry × Bool → Run sys.World (Unit {0})
    create_at fmt (b, hp, wh) s =
        and_then (call sys (λ w. sys.create w hp.id sys.name fmt) s) (λ _. after_create (b, hp, wh))

    -- `add_simple`, for an entry of the type `fmt`.
    unfoldable pub add_simple : ℕ → Run sys.World (Unit {0})
    unfolding lkup_wh_for epilog
    add_simple fmt s = settle (and_then (lkup_wh_for none s) (create_at fmt)) out

    -- `out_dir`: the new directory is removed again.
    abbrev pub remove_dir : HDentry → Errno → Run sys.World (Unit {0})
    remove_dir hp e s = settle (call sys (λ w. sys.rmdir w hp.id sys.name) s) (λ r t. elim r [
      | ok _ ↦ (err e, record t { hashed = false })
      | err x ↦ (err eio, record t { hashed = false })
    ])

    -- After an error of the end, the marker and then the directory are removed.
    abbrev pub revert_dir : ℕ → HDentry → HDentry → Bool → Errno → Run sys.World (Unit {0})
    revert_dir b hp hd false e s = remove_dir hp e s
    revert_dir b hp hd true e s =
        settle (do_diropq sys b hd false s)
          (λ r t. elim r [ ok _ ↦ remove_dir hp e t | err x ↦ remove_dir hp eio t ])

    abbrev pub finish_dir :
        ℕ → HDentry → HDentry → Bool → Result (Unit {0}) → Run sys.World (Unit {0})
    finish_dir b hp hd opq (ok _) s = (ok tt, record s { dir_nlink = s.dir_nlink + 1 })
    finish_dir b hp hd opq (err e) s = revert_dir b hp hd opq e s

    abbrev pub after_opq :
        ℕ → HDentry → HDentry → Bool → Bool → Result (Unit {0}) → Run sys.World (Unit {0})
    after_opq b hp hd wh opq (ok _) s = settle (epilog wh hp s) (finish_dir b hp hd opq)
    after_opq b hp hd wh opq (err e) s = remove_dir hp e s

    -- `always` is the option diropq=always.
    abbrev pub mkdir_at : Bool → ℕ × HDentry × Bool → Run sys.World (Unit {0})
    mkdir_at always (b, hp, wh) = do
      call sys (λ w. sys.mkdir w hp.id sys.name)
      hd ← lookup_under sys hp sys.name
      (λ s.
          settle ((if wh || always then do_diropq sys b hd true else pure tt) s)
            (after_opq b hp hd wh (wh || always)))

    -- `aufs_mkdir`.
    unfoldable pub aufs_mkdir : Bool → Run sys.World (Unit {0})
    unfolding lkup_wh_for epilog
    aufs_mkdir always s = settle (and_then (lkup_wh_for none s) (mkdir_at always)) out
