-- ===== src/Tests/Manage.antt =====
-- Adding, removing and changing a branch, on one and two branches.
use aufs.Common.{
  inl, err, ebusy, zero, suc, All, ℕ, ◌<◌, ◌≡◌, refl, true, false, some, none, List, [], ◌∷◌, ok,
  arith, inr, first_such, ◌==◌, ◌||◌, contains,
}
use aufs.Lower.{HInode, HDentry, s_ifdir}
use aufs.Dinfo.{h_dptr_i, find_dbindex}
use aufs.Branch.{Brtable, Mount}
use aufs.Branch.Permission.{Perm, rw, ro}
use aufs.Whout.{BaseDir, init_wh}
use aufs.Xino.{XinoFile, store_entry, xino_pos, root_ino}
use aufs.Plink.{PseudoLink, half_refresh_plink}
use aufs.Plink.Refresh.{IsFree, IsOnce, half_refresh_plink-IsFree}
use aufs.Manage.Kept.{IsKept, br_del-IsKept}
use aufs.Manage.{Super, add_nlink, sub_nlink, test_br}
use aufs.Manage.Add.{OptAdd, XinoEnv, test_add, test_new, is_overlap, do_is_overlap, br_add}
use aufs.Manage.Del.{OptDel, br_del}
use aufs.Manage.Mod.{OptMod, Mounted, br_mod}
use aufs.Manage.Entries.{Entry, Represents, slot_of}
use aufs.Manage.Added.{IsAdded, br_add-IsAdded, br_add-Represents}
use aufs.Manage.Removed.{IsRemoved, br_del-IsRemoved}
use aufs.Manage.Modified.{IsChanged, br_mod-IsChanged}
use aufs.Manage.Disjoint.{is_overlap_lem, StaysDisjoint, br_add-IsDisjoint}
use aufs.Manage.Nlink.{sub_nlink-add_nlink}

abbrev inode : ℕ → HInode
inode ino = record { ino = ino; fmt = s_ifdir; nlink = 2 }

abbrev dentry : ℕ → HDentry
dentry id = record { id = id; inode = some (inode id); ancestors = 1 ∷ [] }

abbrev mount : Mount
mount = record { sb_id = 3; rdonly = false; maxbytes = 4096; nfs = false }

abbrev entry : ℕ → ℕ → Perm → Entry
entry b id p = record {
  branch = record {
    id = b;
    perm = p;
    mnt = mount;
    count = 0;
    wh = false;
    plink = false;
    xino = none;
  };
  dentry = dentry id;
  inode = inode id;
}

abbrev upper : Entry
upper = entry 1 10 rw

abbrev lower : Entry
lower = entry 2 20 ro

abbrev two : Super
two = record {
  table = record {
    bend = some 1;
    last_br_id = 2;
    branch = some upper.branch ∷ some lower.branch ∷ [];
  };
  root = record {
    hdentry = some upper.dentry ∷ some lower.dentry ∷ [];
    bstart = some 0;
    bend = some 1;
    bwh = none;
    bdiropq = none;
    generation = 1;
  };
  root_inode = record {
    hinode = slot_of upper ∷ slot_of lower ∷ [];
    bstart = some 0;
    bend = some 1;
    generation = 1;
  };
  nlink = 2;
  maxbytes = 4096;
  xino = false;
  plink = false;
  plinks = [];
}

abbrev entries : List Entry
entries = upper ∷ lower ∷ []

two-Represents : Represents two entries
two-Represents = record {
  bend = refl;
  root_bend = refl;
  inode_bend = refl;
  root_start = refl;
  inode_start = refl;
  branches = refl;
  dentries = refl;
  inodes = refl;
  slots = omega arith;
}

abbrev base : BaseDir
base = record {
  wh = ok (record { id = 7; inode = none; ancestors = [] });
  plink = ok (record { id = 8; inode = none; ancestors = [] });
  linkable = true;
  create = ok tt;
  mkdir = ok tt;
}

abbrev env : XinoEnv
env = record {
  create = ok 5;
  readf = ok tt;
  writef = ok tt;
  io = record { reads = λ p. ok true; writes = λ p. ok true };
  contents = λ f. record { size = 0; entry = λ p. 0 };
}

-- A branch between the two, and one that is there already.
abbrev add : ℕ → OptAdd
add id = record {
  bindex = some 1;
  dentry = dentry id;
  inode = inode id;
  mnt = mount;
  perm = ro;
  inside = false;
  nested = false;
  base = base;
}

br_add-IsAdded_example : IsAdded two (add 30) entries (br_add env two (add 30) false)
unfolding test_add test_new is_overlap do_is_overlap test_br find_dbindex h_dptr_i first_such
br_add-IsAdded_example = br_add-IsAdded env two (add 30) false entries two-Represents refl refl

br_add-Represents_example : Represents (br_add env two (add 20) true).1 entries
unfolding test_add find_dbindex h_dptr_i first_such
br_add-Represents_example =
    br_add-Represents env two (add 20) true entries two-Represents (inr refl)

abbrev del : OptDel
del = record { h_root = dentry 20; inode = inode 20; maxbytes = 4096; busy = ok tt; base = base }

br_del-IsRemoved_example : (1 < 2) × IsRemoved entries 1 (br_del two del false)
unfolding find_dbindex h_dptr_i first_such
br_del-IsRemoved_example =
    br_del-IsRemoved two del false entries 1 lower.branch two-Represents (omega arith) refl refl
      refl refl

abbrev mounted : Mounted
mounted = record {
  super = two;
  files = record { regular = true; write = true; bstart = 0; h_write = true } ∷ [];
  do_update = false;
}

abbrev opt : OptMod
opt = record { h_root = dentry 10; perm = ro; rdonly = false; base = base }

br_mod-IsChanged_example : IsChanged mounted 0 upper.branch ro (br_mod mounted opt false)
unfolding find_dbindex h_dptr_i test_br init_wh first_such
br_mod-IsChanged_example =
    br_mod-IsChanged mounted opt false 0 upper.branch refl refl refl refl (inr refl)

sub_nlink-add_nlink_example : sub_nlink (add_nlink 4294967295 1) 1 ≡ 4294967295
sub_nlink-add_nlink_example = sub_nlink-add_nlink 4294967295 1 (omega arith) (omega arith)

is_overlap_lem_example :
    is_overlap (dentry 10) (dentry 20)
    ≡ (10 == 20 || (contains (1 ∷ []) 20 || contains (1 ∷ []) 10))
is_overlap_lem_example = is_overlap_lem (dentry 10) (dentry 20)

br_add-IsDisjoint_example : StaysDisjoint (br_add env two (add 30) false).1
unfolding is_overlap do_is_overlap
br_add-IsDisjoint_example =
    br_add-IsDisjoint env two (add 30) false entries two-Represents ((refl, tt), (tt, tt))

-- The upper branch has a file already, and both are on one filesystem.
abbrev with_file : Brtable
with_file = record {
  bend = some 1;
  last_br_id = 2;
  branch = some (record upper.branch { xino = some 6 }) ∷ some lower.branch ∷ [];
}

abbrev root_file : XinoFile
root_file = store_entry (env.contents 6) (xino_pos 20) root_ino

-- A pseudo-linked inode on both branches.
abbrev linked : PseudoLink
linked = record { inode = 5; ii = two.root_inode }

linked-IsOnce : IsOnce 2 linked.ii
linked-IsOnce zero b h k = absurd (ground arith)
linked-IsOnce (suc zero) zero h k = absurd (ground arith)
linked-IsOnce (suc zero) (suc zero) h k = refl
linked-IsOnce (suc zero) (suc (suc b)) h k = absurd (ground arith)
linked-IsOnce (suc (suc a)) b h k = absurd (ground arith)

half_refresh_plink-IsFree_example : All (λ p. IsFree 2 p.ii) (half_refresh_plink 2 (linked ∷ []))
half_refresh_plink-IsFree_example = half_refresh_plink-IsFree 2 (linked ∷ []) (linked-IsOnce, tt)

-- A branch in use is not removed; its whiteout base is set up again.
abbrev based : Entry
based = record upper { branch = record upper.branch { wh = true } }

abbrev with_base : Super
with_base = record two {
  table = record two.table { branch = some based.branch ∷ some lower.branch ∷ [] };
}

with_base-Represents : Represents with_base (based ∷ lower ∷ [])
with_base-Represents = record {
  bend = refl;
  root_bend = refl;
  inode_bend = refl;
  root_start = refl;
  inode_start = refl;
  branches = refl;
  dentries = refl;
  inodes = refl;
  slots = omega arith;
}

abbrev in_use : OptDel
in_use = record del { h_root = dentry 10; busy = err ebusy }

br_del-IsKept_example :
    IsKept with_base in_use (based ∷ lower ∷ []) (br_del with_base in_use false).1
unfolding br_del find_dbindex h_dptr_i first_such
br_del-IsKept_example =
    br_del-IsKept with_base in_use false (based ∷ lower ∷ []) with_base-Represents
      (inl (λ e. ground arith))
