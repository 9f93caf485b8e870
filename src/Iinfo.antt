-- ===== src/Iinfo.antt =====
-- fs/aufs/iinfo.c: the private data of an inode, one hidden inode for each branch. Reference counts
-- and the inotify watch itself are left out.
pub mod Brange
use aufs.Common.{
  first_such, last_such, ℕ, zero, suc, ◌+◌, ◌-◌, ◌==◌, if◌then◌else◌, Bool, true, false, ◌&&◌,
  Option, some, none, List, get_or, set, replicate, Bindex, eq_bindex, count_to, from_branch,
  length,
}
use aufs.Lower.{HInode}

-- `struct aufs_hinode` without the watch. `hid` is the id of the branch; -1 is `none`.
pub record Hinode : Type 0 where
  pub inode : Option HInode
  pub hid : Option ℕ

-- What `kzalloc` leaves in a slot (an id of 0), and what `au_iinfo_init` puts there.
abbrev pub zero_hinode : Hinode
zero_hinode = record { inode = none; hid = some 0 }

abbrev pub fresh_hinode : Hinode
fresh_hinode = record { inode = none; hid = none }

pub record Iinfo : Type 0 where
  pub hinode : List Hinode
  pub bstart : Bindex
  pub bend : Bindex
  pub generation : ℕ

-- `au_iinfo_init`, when the allocation succeeds.
unfoldable pub iinfo_init : Bindex → ℕ → Iinfo
iinfo_init sb_bend sigen = record {
  hinode = replicate (if count_to sb_bend == 0 then 1 else count_to sb_bend) fresh_hinode;
  bstart = none;
  bend = none;
  generation = sigen;
}

-- `au_h_iptr_i`.
abbrev pub h_iptr_i : Iinfo → ℕ → Option HInode
h_iptr_i ii b = (get_or ii.hinode b zero_hinode).inode

-- `itoid_index`.
abbrev pub itoid_index : Iinfo → ℕ → Option ℕ
itoid_index ii b = (get_or ii.hinode b zero_hinode).hid

-- The slot that `set_h_iptr` writes: the id changes only with a new inode.
abbrev pub new_slot : Hinode → Option HInode → ℕ → Hinode
new_slot old none br_id = record old { inode = none }
new_slot old (some i) br_id = record { inode = some i; hid = some br_id }

-- `set_h_iptr` with no flags; `br_id` is the id of the branch.
abbrev pub set_h_iptr : Iinfo → ℕ → Option HInode → ℕ → Iinfo
set_h_iptr ii b h br_id = record ii {
  hinode = set ii.hinode b (new_slot (get_or ii.hinode b zero_hinode) h br_id);
}

abbrev pub is_unlinked : Option HInode → Bool
is_unlinked none = false
is_unlinked (some i) = i.nlink == 0

abbrev pub is_there : Option HInode → Bool
is_there none = false
is_there (some i) = true

-- The loop of `au_update_brange` that puts the inodes with no link left.
pub put_zero_from : ℕ → ℕ → Iinfo → Iinfo
put_zero_from zero b ii = ii
put_zero_from (suc n) b ii =
    put_zero_from n (b + 1) (if is_unlinked (h_iptr_i ii b) then set_h_iptr ii b none 0 else ii)

-- The branch has a hidden inode.
abbrev pub has_iptr : Iinfo → ℕ → Bool
has_iptr ii b = is_there (h_iptr_i ii b)

-- The second half of `au_update_brange`.
pub fit_range : Iinfo → Iinfo
fit_range ii = elim (first_such (has_iptr ii) (count_to ii.bend) 0) [
  | none ↦ record ii { bstart = none; bend = none }
  | some b ↦ record ii { bstart = some b; bend = last_such (has_iptr ii) (count_to ii.bend) }
]

unfoldable pub update_brange : Iinfo → Bool → Iinfo
unfolding put_zero_from fit_range
update_brange ii do_put_zero =
    if eq_bindex ii.bstart none
    then ii
    else fit_range (
        if do_put_zero
        then put_zero_from (count_to ii.bend - from_branch ii.bstart) (from_branch ii.bstart) ii
        else ii)
