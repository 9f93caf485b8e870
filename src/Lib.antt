-- ===== src/Lib.antt =====
-- A model of aufs, the stackable union filesystem of fs/aufs and include/linux/aufs_type.h, in its
-- default configuration (local.mk: CONFIG_AUFS_BRANCH_MAX_127, no export, no inotify).
--
-- A mount is a stack of branches, branch 0 on top. A dentry and an inode of the union keep one
-- slot for each branch, with the range of the slots in use. Names are looked up from the top
-- branch down; a whiteout, a file or an opaque directory hides what lies below.
--
--   Common: tests on numbers, lists, results, and branch indices, an index being a number or -1,
--     and the memmove idioms on arrays.
--   Lower: inodes and dentries of the branches, which are kernel objects.
--   Dinfo: fs/aufs/dinfo.c, slots and marks of a dentry.
--   Iinfo: fs/aufs/iinfo.c, slots of an inode.
--   Branch: fs/aufs/branch.c, branch.h and new_br_id of sbinfo.c.
--   Whout: fs/aufs/whout.c, names of whiteouts, the tests for them, and the whiteout base of a
--     branch.
--   Xino: fs/aufs/xino.c, the table of inode numbers.
--   Lookup: fs/aufs/dentry.c, lkup_dentry, with the specification in Lookup/Stack.
--   Plink: fs/aufs/plink.c, the list of pseudo-linked inodes.
--   Manage: fs/aufs/branch.c, br_add, br_del and br_mod with xino_init of xino.c and the link
--     counts of dir.c; Manage/Entries says which list of branches the three arrays stand for.
--   Vdir: fs/aufs/vdir.c, the listing of a directory, against the union of names in Vdir/Merge.
--   Vfs: the kernel's calls on the branches, and the state of an operation on a name; its
--     children say how what a branch shows of a name changes with them.
--   Whout/Change: fs/aufs/whout.c, making and removing whiteouts and markers.
--   Remove: fs/aufs/i_op_del.c, unlink and rmdir.
--   Create: fs/aufs/i_op_add.c, mknod, symlink, create and mkdir, with wr_dir of i_op.c.
--   Cpup: fs/aufs/cpup.c, the directories of a path on a branch; copying one of them up is a
--     parameter.
--   Opts: fs/aufs/opts.c, carrying out the mount options, with xino_set and xino_clr of xino.c;
--     Opts/Run has the order at mount and remount, and Opts/Text turns the tokens of the text into
--     options; match_token of the kernel is a parameter.
--   Tests: runs of the theorems at concrete inputs.
--
-- Kernel services are parameters: a lookup in a branch is a function from a directory and a name
-- to a dentry or an error (Whout.Lkup), and a transfer of an entry of a xino file is a function of
-- its position (Xino.Io). Loops over branches recurse on the number of rounds that the bounds of
-- the loop give. The loop of new_br_id has no bound in the source; it runs on fuel for two more
-- rounds than there are branches: of that many ids in a row one is neither 0 nor taken.
--
-- br_add refuses the 128th branch, so the table never has more than 127 branches and the fuel of
-- new_br_id is enough. The hash of a name, the dentry cache that br_del walks over, and the
-- results of creating files are parameters as well.
--
-- The operations on names run on a record of kernel calls (Vfs.System) that stands for vfs_unlink,
-- vfs_create, vfs_link, vfs_mkdir, vfs_rmdir and vfs_rename; Vfs.IsVfs states what these are
-- documented to do. The copy-up of a parent directory (cpup_dirs), and the results of au_new_inode
-- and test_empty, are arguments; the theorem on unlink asks Remove.Gone.CopiesUp of the copy-up,
-- in the state of the unlink only. Time stamps are left out.
--
-- The loop of cpup_dirs runs on fuel for one round more than the path has directories; each round
-- makes one.
--
-- Allocation failures, locks, reference counts and trace output are left out. The functions run
-- under the lock of the superblock, the dentry or the inode that the source asks for.
pub mod Common
pub mod Lower
pub mod Dinfo
pub mod Iinfo
pub mod Branch
pub mod Whout
pub mod Xino
pub mod Lookup
pub mod Cpup
pub mod Opts
pub mod Plink
pub mod Manage
pub mod Vdir
pub mod Vfs
pub mod Remove
pub mod Create
pub mod Tests
