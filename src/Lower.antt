-- ===== src/Lower.antt =====
-- What the branch filesystems hold, as aufs sees it: `struct inode` and `struct dentry` of a branch
-- with the fields that the modelled code reads. These kernel objects are not aufs's own code.
use aufs.Common.{ℕ, ◌==◌, Option, some, none, Bool, true, false, List}

-- `i_mode & S_IFMT`, as a number; 0 stands for no type.
abbrev pub s_ifdir : ℕ
s_ifdir = 0o040000

abbrev pub s_ifreg : ℕ
s_ifreg = 0o100000

pub record HInode : Type 0 where
  pub ino : ℕ
  pub fmt : ℕ
  pub nlink : ℕ

-- `id` is the address, by which the code compares dentries. A negative dentry has no inode.
-- `ancestors` are the addresses met on the way along `d_parent` to the root, itself left out.
pub record HDentry : Type 0 where
  pub id : ℕ
  pub inode : Option HInode
  pub ancestors : List ℕ

abbrev pub is_dir : HInode → Bool
is_dir i = i.fmt == s_ifdir

abbrev pub is_reg : HInode → Bool
is_reg i = i.fmt == s_ifreg

-- An entry of `di_hdentry` that has an inode behind it.
abbrev pub is_positive : Option HDentry → Bool
is_positive none = false
is_positive (some h) = elim h.inode [ none ↦ false | some _ ↦ true ]
