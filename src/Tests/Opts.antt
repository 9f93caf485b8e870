-- ===== src/Tests/Opts.antt =====
-- Mounting with options, from a superblock without branches.
use aufs.Common.{
  ℕ, ◌≡◌, refl, true, false, some, none, List, [], ◌∷◌, ok, err, arith, first_such, ebusy,
}
use aufs.Lower.{HInode, HDentry, s_ifdir}
use aufs.Dinfo.{find_dbindex, h_dptr_i}
use aufs.Branch.{find_brindex, new_br_id}
use aufs.Branch.Permission.{Perm, rw, ro}
use aufs.Whout.{BaseDir, init_wh, base_fits}
use aufs.Xino.{is_sb_shared, xino_write}
use aufs.Manage.{Super, add_nlink, cpup_nlink, test_br}
use aufs.Manage.Add.{
  OptAdd, XinoEnv, xino_init, test_add, test_new, is_overlap, do_is_overlap, walk_up, br_add,
}
use aufs.Manage.Disjoint.{StaysDisjoint}
use aufs.Opts.{
  Udba, Opt, opt_append, opt_prepend, opt_udba, opt_dlgt, opt_noplink, opt_nodlgt, opt_mod, opt_del,
  Sbinfo, au_do_opt_simple, au_do_opt_br, au_do_opt_xino,
}
use aufs.Opts.Run.{
  OptsEnv, verify_from, verify_opts, simple_opts, br_opts, xino_opts, init_all, au_do_opts_mount,
  au_do_opts_remount,
}
use aufs.Opts.Verify.{AllFit, verify_opts-AllFit}
use aufs.Opts.Remount.{IsRemounted, au_do_opts_remount-IsRemounted}
use aufs.Opts.Mount.{IsMounted, au_do_opts_mount-IsMounted}

abbrev inode : ℕ → HInode
inode ino = record { ino = ino; fmt = s_ifdir; nlink = 2 }

abbrev dentry : ℕ → HDentry
dentry id = record { id = id; inode = some (inode id); ancestors = 1 ∷ [] }

abbrev base : BaseDir
base = record {
  wh = ok (record { id = 7; inode = none; ancestors = [] });
  plink = ok (record { id = 8; inode = none; ancestors = [] });
  linkable = true;
  create = ok tt;
  mkdir = ok tt;
}

abbrev pub xino : XinoEnv
xino = record {
  create = ok 5;
  readf = ok tt;
  writef = ok tt;
  io = record { reads = λ p. ok true; writes = λ p. ok true };
  contents = λ f. record { size = 0; entry = λ p. 0 };
}

abbrev pub add : ℕ → Perm → OptAdd
add id perm = record {
  bindex = some 0;
  dentry = dentry id;
  inode = inode id;
  mnt = record { sb_id = 3; rdonly = false; maxbytes = 4096; nfs = false };
  perm = perm;
  inside = false;
  nested = false;
  base = base;
}

abbrev no_branch : Super
no_branch = record {
  table = record { bend = none; last_br_id = 0; branch = [] };
  root = record {
    hdentry = [];
    bstart = none;
    bend = none;
    bwh = none;
    bdiropq = none;
    generation = 1;
  };
  root_inode = record { hinode = []; bstart = none; bend = none; generation = 1 };
  nlink = 1;
  maxbytes = 0;
  xino = true;
  plink = true;
  plinks = [];
}

abbrev fresh : Sbinfo
fresh = record {
  mount = record { super = no_branch; files = []; do_update = false };
  udba = Udba.reval;
  diropq = true;
  dlgt = false;
  warn_perm = true;
  dirwh = 3;
  rdcache = 10;
}

abbrev env : OptsEnv
env = record { hz = 100; bases = λ b. base; def = ok 9; init = λ b. xino }

-- Two branches, the lower one first, and flags between.
abbrev options : List Opt
options =
    opt_append (add 20 ro) xino
    ∷ opt_udba Udba.inotify
    ∷ opt_prepend (add 10 rw) xino
    ∷ opt_dlgt
    ∷ opt_noplink
    ∷ []

no_branch-StaysDisjoint : StaysDisjoint no_branch
no_branch-StaysDisjoint = (
  [],
  record {
    bend = refl;
    root_bend = refl;
    inode_bend = refl;
    root_start = refl;
    inode_start = refl;
    branches = refl;
    dentries = refl;
    inodes = refl;
    slots = omega arith;
  },
  tt,
)

mounts : (au_do_opts_mount env options fresh).0 ≡ ok tt
unfolding au_do_opts_mount simple_opts br_opts xino_opts init_all verify_opts verify_from
    au_do_opt_simple au_do_opt_br au_do_opt_xino br_add test_add test_new is_overlap do_is_overlap
    walk_up find_dbindex h_dptr_i find_brindex new_br_id init_wh base_fits xino_init is_sb_shared
    xino_write test_br add_nlink cpup_nlink first_such
mounts = refl

au_do_opts_mount-IsMounted_example : IsMounted options fresh (au_do_opts_mount env options fresh).1
au_do_opts_mount-IsMounted_example =
    au_do_opts_mount-IsMounted env options fresh no_branch-StaysDisjoint mounts

-- The pseudo-links are turned on again: the directory of the upper branch is missing.
abbrev relinked : Super
relinked = record (au_do_opts_mount env options fresh).1.mount.super { plink = true }

verify_opts-AllFit_example :
    ((verify_opts (λ b. base) relinked).1.table.bend ≡ relinked.table.bend)
    × AllFit (verify_opts (λ b. base) relinked).1
unfolding au_do_opts_mount simple_opts br_opts xino_opts init_all verify_opts verify_from
    au_do_opt_simple au_do_opt_br au_do_opt_xino br_add test_add test_new is_overlap do_is_overlap
    walk_up find_dbindex h_dptr_i find_brindex new_br_id init_wh base_fits xino_init is_sb_shared
    xino_write test_br add_nlink cpup_nlink first_such
verify_opts-AllFit_example = verify_opts-AllFit (λ b. base) relinked refl

-- The upper branch is made read-only, and the delegation is turned off.
abbrev changes : List Opt
changes =
    opt_nodlgt
    ∷ opt_mod (record { h_root = dentry 10; perm = ro; rdonly = false; base = base })
    ∷ opt_dlgt
    ∷ opt_del (record {
      h_root = dentry 20;
      inode = inode 20;
      maxbytes = 4096;
      busy = err ebusy;
      base = base;
    })
    ∷ []

abbrev mounted : Sbinfo
mounted = (au_do_opts_mount env options fresh).1

au_do_opts_remount-IsRemounted_example :
    IsRemounted changes mounted (au_do_opts_remount env changes mounted)
au_do_opts_remount-IsRemounted_example =
    au_do_opts_remount-IsRemounted env changes mounted
      (au_do_opts_mount-IsMounted env options fresh no_branch-StaysDisjoint mounts).apart
