-- ===== src/Plink.antt =====
-- fs/aufs/plink.c: the list of pseudo-linked inodes, in memory. The entries in the pseudo-link
-- directories of the branches, and the lock of the list, are left out.
pub mod Refresh
use aufs.Common.{
  ℕ, ◌-◌, ◌==◌, if◌then◌else◌, Bool, false, ◌&&◌, ◌||◌, Option, some, none, List, [], ◌∷◌,
  first_such, count_to, from_branch,
}
use aufs.Iinfo.{Iinfo, has_iptr, itoid_index, set_h_iptr}

-- `struct pseudo_link`: the inode, by its address, with its private data.
pub record PseudoLink : Type 0 where
  pub inode : ℕ
  pub ii : Iinfo

-- `au_is_plinked`.
abbrev pub is_plinked : List PseudoLink → ℕ → Bool
is_plinked [] i = false
is_plinked (p ∷ ps) i = p.inode == i || is_plinked ps i

-- The part of `append_plink` that adds to the list: an inode that is there is not added again.
unfoldable pub append_plink : List PseudoLink → PseudoLink → List PseudoLink
append_plink ps p = if is_plinked ps p.inode then ps else p ∷ ps

abbrev pub is_id : Option ℕ → ℕ → Bool
is_id none id = false
is_id (some a) id = a == id

-- The slot holds a hidden inode of the branch `br_id`.
abbrev pub has_branch : Iinfo → ℕ → ℕ → Bool
has_branch ii br_id b = has_iptr ii b && is_id (itoid_index ii b) br_id

-- The second loop of `half_refresh_plink`: the entry is dropped when no hidden inode is left.
unfoldable pub drop_empty : Iinfo → Option Iinfo
drop_empty ii =
    elim (first_such (has_iptr ii) (count_to ii.bend - from_branch ii.bstart)
      (from_branch ii.bstart)) [ none ↦ none | some _ ↦ some ii ]

-- One round of `half_refresh_plink`; `none` for an entry that is dropped.
unfoldable pub refresh_plink : ℕ → Iinfo → Option Iinfo
unfolding drop_empty
refresh_plink br_id ii = elim ii.bstart [
  | none ↦ none
  | some s ↦ elim (first_such (has_branch ii br_id) (count_to ii.bend - s) s) [
    | none ↦ some ii
    | some b ↦ drop_empty (set_h_iptr ii b none 0)
  ]
]

abbrev pub keep_plink : PseudoLink → Option Iinfo → List PseudoLink → List PseudoLink
keep_plink p none ps = ps
keep_plink p (some ii) ps = record p { ii = ii } ∷ ps

unfoldable pub half_refresh_plink : ℕ → List PseudoLink → List PseudoLink
half_refresh_plink br_id [] = []
half_refresh_plink br_id (p ∷ ps) =
    keep_plink p (refresh_plink br_id p.ii) (half_refresh_plink br_id ps)
