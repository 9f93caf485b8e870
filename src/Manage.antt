-- ===== src/Manage.antt =====
-- fs/aufs/branch.c: adding, removing and changing a branch of a mount. The state is what these
-- operations change of the superblock, of the root dentry and of the root inode.
pub mod Add
pub mod Del
pub mod Entries
pub mod Inserted
pub mod Added
pub mod Removed
pub mod Mod
pub mod Modified
pub mod Nlink
pub mod Disjoint
pub mod Shared
pub mod Kept
pub mod Stays
use aufs.Common.{
  ℕ, zero, suc, ◌+◌, ◌-◌, ◌%◌, ◌^◌, max, ◌==◌, ltb, leb, if◌then◌else◌, Bool, true, false, not,
  ◌&&◌, ◌||◌, Option, some, none, List, [], ◌∷◌, length, Result, ok, err, Errno, einval, Bindex,
  count_to, from_branch, first_such,
}
use aufs.Lower.{HInode, HDentry}
use aufs.Dinfo.{Dinfo}
use aufs.Iinfo.{Iinfo, h_iptr_i}
use aufs.Branch.{Brtable}
use aufs.Branch.Permission.{Perm, br_writable}
use aufs.Plink.{PseudoLink}

-- `nlink` is `i_nlink` of the root inode, an unsigned number of 32 bits.
pub record Super : Type 0 where
  pub table : Brtable
  pub root : Dinfo
  pub root_inode : Iinfo
  pub nlink : ℕ
  pub maxbytes : ℕ
  pub xino : Bool
  pub plink : Bool
  pub plinks : List PseudoLink

abbrev pub nlink_mod : ℕ
nlink_mod = 2 ^ 32

-- `au_add_nlink` and `au_sub_nlink` (dir.c) on the two counts.
unfoldable pub add_nlink : ℕ → ℕ → ℕ
add_nlink n h =
    let m = (n + (h + nlink_mod - 2)) % nlink_mod in if ltb h 2 then (m + 2) % nlink_mod else m

unfoldable pub sub_nlink : ℕ → ℕ → ℕ
sub_nlink n h =
    let m = (n + nlink_mod - (h + nlink_mod - 2) % nlink_mod) % nlink_mod in
    if ltb h 2 then (m + nlink_mod - 2) % nlink_mod else m

abbrev pub nlink_of : Option HInode → ℕ → (ℕ → ℕ → ℕ) → ℕ
nlink_of none n f = n
nlink_of (some i) n f = f n i.nlink

-- The loop of `au_cpup_attr_nlink` (cpup.c), with the rounds left.
pub cpup_nlink_from : ℕ → ℕ → Iinfo → ℕ → ℕ
unfolding add_nlink
cpup_nlink_from zero b ii n = n
cpup_nlink_from (suc k) b ii n = cpup_nlink_from k (b + 1) ii (nlink_of (h_iptr_i ii b) n add_nlink)

-- What `au_cpup_attr_all` does to `i_nlink` of a directory; the other attributes are left out.
unfoldable pub cpup_nlink : Iinfo → ℕ → ℕ
unfolding cpup_nlink_from
cpup_nlink ii n = if n == 0 then n else elim ii.bstart [
  | none ↦ n
  | some s ↦
      cpup_nlink_from (count_to ii.bend - suc s) (suc s) ii
        (nlink_of (h_iptr_i ii s) n (λ old new. new))
]

-- `test_br`: `rdonly` says whether the filesystem is mounted read-only.
unfoldable pub test_br : Perm → Bool → Result (Unit {0})
test_br perm rdonly = if br_writable perm && rdonly then err einval else ok tt
