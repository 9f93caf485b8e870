-- ===== src/Manage/Nlink.antt =====
-- The link count of the root over the branches, on 32 bits.
use aufs.Common.{ℕ, ◌<◌, ◌≡◌, arith}
use aufs.Manage.{nlink_mod, add_nlink, sub_nlink}

-- `au_sub_nlink` takes back what `au_add_nlink` added, also across a wrap and for the directories
-- whose link count is below 2.
pub sub_nlink-add_nlink :
    (n h : ℕ) → n < nlink_mod → h < nlink_mod → sub_nlink (add_nlink n h) h ≡ n
unfolding sub_nlink add_nlink
sub_nlink-add_nlink n h p q = ground arith
