-- ===== src/Tests/Names.antt =====
-- Whiteout names, the whiteout base, permissions and inode numbers.
use aufs.Common.{
  drop, length, enametoolong, ℕ, ◌+◌, ◌≤◌, ◌<◌, ◌≡◌, ◌≢◌, ◌⊎◌, ◌↔◌, refl, if◌then◌else◌, true, ◌==◌,
  some, none, [], ◌∷◌, ok, err, arith,
}
use aufs.Lower.{HDentry, s_ifdir}
use aufs.Branch.Permission.{rw, ro, need_sigen_inc, br_whable, need_sigen_inc_iff}
use aufs.Whout.{
  path_max, wh_len, alloc_whname, has_wh_pfx, Name, Lkup, BaseDir, no_base, init_wh, base_fits,
  lkup_whtmp, lkup_whtmp_try, whtmp_name, eq_name,
}
use aufs.Whout.Base.{init_wh_fits}
use aufs.Whout.Names.{IsFreeName, lkup_whtmp-free, whtmp_name-injective, alloc_whname_lem}
use aufs.Xino.{XinoFile, Io, store_entry, xino_pos, xino_write, xino_read, assign_ino, new_ino}
use aufs.Xino.Numbers.{issue, IsAscending, issue-IsAscending}
use aufs.Xino.Files.{IsSparse, IsBelow, IsAssigned, xino_read-write, assign_ino-IsAssigned}

abbrev nothing : HDentry
nothing = record { id = 9; inode = none; ancestors = [] }

abbrev directory : HDentry
directory = record {
  id = 1;
  inode = some (record { ino = 5; fmt = s_ifdir; nlink = 2 });
  ancestors = [];
}

abbrev prefix : Name
prefix = b'd' ∷ []

-- The name for the counter 3 is taken.
abbrev lkup : Lkup
lkup p n = ok (if eq_name n (whtmp_name prefix 3) then directory else nothing)

lkup_whtmp-free_example : IsFreeName lkup directory prefix (whtmp_name prefix 4, nothing)
unfolding lkup_whtmp lkup_whtmp_try
lkup_whtmp-free_example =
    lkup_whtmp-free lkup directory prefix 3 (whtmp_name prefix 4, nothing) refl

whtmp_name-injective_example : ◌≡◌ {A = ℕ} 7 7
whtmp_name-injective_example = whtmp_name-injective prefix 7 7 (omega arith) (omega arith) refl

abbrev base_dir : BaseDir
base_dir = record {
  wh = ok nothing;
  plink = ok nothing;
  linkable = true;
  create = ok tt;
  mkdir = ok tt;
}

init_wh_fits_example : base_fits rw true (init_wh rw true base_dir no_base).1 ≡ true
unfolding init_wh
init_wh_fits_example = init_wh_fits rw true base_dir no_base refl

need_sigen_inc_iff_example : (need_sigen_inc rw ro ≡ true) ↔ (br_whable rw ≢ br_whable ro)
need_sigen_inc_iff_example = need_sigen_inc_iff rw ro

issue-IsAscending_example : IsAscending 11 (issue 2 11)
issue-IsAscending_example = issue-IsAscending 2 11 (omega arith) (omega arith)

abbrev io : Io
io = record { reads = λ p. ok true; writes = λ p. ok true }

-- One entry, for the hidden inode 3.
abbrev file : XinoFile
file = record { size = 32; entry = λ p. if p == 24 then 12 else 0 }

file-IsSparse : IsSparse file
file-IsSparse p h = ground arith

file-IsBelow : IsBelow file 12
file-IsBelow p = ground arith

xino_read-write_example :
    IsSparse (store_entry file (xino_pos 5) 13)
    × (xino_read true io (store_entry file (xino_pos 5) 13) 3
        ≡ (if 5 == 3 then ok 13 else xino_read true io file 3))
unfolding xino_write
xino_read-write_example =
    xino_read-write io file (store_entry file (xino_pos 5) 13) 5 3 13 file-IsSparse (omega arith)
      (omega arith) (λ p. refl) refl

abbrev file' : XinoFile
file' = store_entry file (xino_pos 5) 13

assign_ino-IsAssigned_example :
    (file' ≡ store_entry file (xino_pos 5) 13) × IsBelow file' 13 × IsAssigned file 5 12 13 13
unfolding assign_ino xino_read xino_write new_ino
assign_ino-IsAssigned_example =
    assign_ino-IsAssigned io file file' 5 12 13 13 file-IsSparse file-IsBelow (omega arith)
      (omega arith) refl refl

alloc_whname_lem_example :
    ((path_max < 1 + wh_len) × (alloc_whname prefix ≡ err enametoolong))
    ⊎ ((w : Name) × (alloc_whname prefix ≡ ok w)
        × (has_wh_pfx w ≡ true)
        × (drop wh_len w ≡ prefix)
        × (length w ≡ 1 + wh_len)
        × (length w ≤ path_max))
alloc_whname_lem_example = alloc_whname_lem prefix
