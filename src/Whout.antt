-- ===== src/Whout.antt =====
-- fs/aufs/whout.c: whiteouts. Names are lists of bytes. `Lkup` stands for the kernel's lookup of a
-- name in a branch directory (lkup_one, sio_lkup_one): a dentry, perhaps negative, or an error.
pub mod Names
pub mod Base
pub mod Change
use aufs.Common.{
  ℕ, zero, suc, ◌+◌, ◌-◌, ◌/◌, ◌%◌, ◌==◌, ltb, leb, if◌then◌else◌, Bool, true, false, not, ◌&&◌,
  ◌||◌, Option, some, none, List, [], ◌∷◌, ◌++◌, length, Result, ok, err, Errno, ◌>>=◌, eio,
  enametoolong, eexist, enosys,
}
use aufs.Lower.{HInode, HDentry, is_reg, is_dir}
use aufs.Branch.Permission.{Perm, rw, ro, rr, rw_nolwh, rowh, rrwh}

abbrev pub Name : Type 0
Name = List ℕ

abbrev pub Lkup : Type 0
Lkup = HDentry → Name → Result HDentry

abbrev pub eq_name : Name → Name → Bool
eq_name [] [] = true
eq_name [] (y ∷ ys) = false
eq_name (x ∷ xs) [] = false
eq_name (x ∷ xs) (y ∷ ys) = x == y && eq_name xs ys

-- AUFS_WH_PFX, and PATH_MAX of the kernel.
abbrev pub wh_pfx : Name
wh_pfx = b'.' ∷ b'w' ∷ b'h' ∷ b'.' ∷ []

abbrev pub wh_len : ℕ
wh_len = 4

abbrev pub path_max : ℕ
path_max = 4096

-- AUFS_WH_DIROPQ, `.wh..wh..opq`: the marker of an opaque directory.
abbrev pub diropq_name : Name
diropq_name = wh_pfx ++ (wh_pfx ++ (b'.' ∷ b'o' ∷ b'p' ∷ b'q' ∷ []))

-- `!strncmp(name, AUFS_WH_PFX, AUFS_WH_LEN)`.
abbrev pub has_wh_pfx : Name → Bool
has_wh_pfx (a ∷ b ∷ c ∷ d ∷ xs) = a == b'.' && (b == b'w' && (c == b'h' && d == b'.'))
has_wh_pfx xs = false

-- `au_alloc_whname`, when the allocation succeeds.
unfoldable pub alloc_whname : Name → Result Name
alloc_whname name =
    if ltb (path_max - wh_len) (length name) then err enametoolong else ok (wh_pfx ++ name)

-- `is_wh`: the entry exists and is a regular file; anything else of that name is an error.
abbrev pub wh_entry : HDentry → Result Bool
wh_entry d = elim d.inode [ none ↦ ok false | some i ↦ if is_reg i then ok true else err eio ]

unfoldable pub is_wh : Lkup → HDentry → Name → Result Bool
is_wh lkup parent wh_name = do d ← lkup parent wh_name; wh_entry d

unfoldable pub is_diropq : Lkup → HDentry → Result Bool
unfolding is_wh
is_diropq lkup dir = is_wh lkup dir diropq_name

-- `sprintf(p, "%.*d", HEX_LEN, cnt)` for a value below 10000.
abbrev pub four_digits : ℕ → Name
four_digits n =
    (b'0' + n / 1000 % 10) ∷ (b'0' + n / 100 % 10) ∷ (b'0' + n / 10 % 10) ∷ (b'0' + n % 10) ∷ []

-- The temporary name for `prefix`, whiteouted doubly.
abbrev pub whtmp_name : Name → ℕ → Name
whtmp_name prefix cnt = wh_pfx ++ (wh_pfx ++ (prefix ++ (b'.' ∷ four_digits cnt)))

-- The loop of `lkup_whtmp` with the tries left; `cnt` is the static counter, an `unsigned char`.
-- Each try returns the counter that it leaves. Running out of tries is BUG() in the source.
unfoldable pub lkup_whtmp_try : ℕ → Lkup → HDentry → Name → ℕ → Result (Name × HDentry) × ℕ
lkup_whtmp_try zero lkup parent prefix cnt = (err eexist, cnt)
lkup_whtmp_try (suc n) lkup parent prefix cnt = elim (lkup parent (whtmp_name prefix cnt)) [
  | err e ↦ (err e, (cnt + 1) % 256)
  | ok d ↦ elim d.inode [
    | none ↦ (ok (whtmp_name prefix cnt, d), (cnt + 1) % 256)
    | some _ ↦ lkup_whtmp_try n lkup parent prefix ((cnt + 1) % 256)
  ]
]

abbrev pub dname_inline_len_min : ℕ
dname_inline_len_min = 36

-- `lkup_whtmp`, when the allocation for a long name succeeds. `len` is the length of the name.
unfoldable pub lkup_whtmp : Lkup → HDentry → Name → ℕ → Result (Name × HDentry) × ℕ
unfolding lkup_whtmp_try
lkup_whtmp lkup parent prefix cnt =
    if ltb dname_inline_len_min (length prefix) && leb path_max (length prefix + 13)
    then (err enametoolong, cnt)
    else lkup_whtmp_try 3 lkup parent prefix cnt

-- What `init_wh` meets in the root of a branch: the two entries that it looks up, whether the
-- filesystem has link(2), and what creating the base and making the directory would return.
pub record BaseDir : Type 0 where
  pub wh : Result HDentry
  pub plink : Result HDentry
  pub linkable : Bool
  pub create : Result (Unit {0})
  pub mkdir : Result (Unit {0})

-- `br->br_wh` and `br->br_plink`, by their presence.
pub record WhBase : Type 0 where
  pub has_wh : Bool
  pub has_plink : Bool

abbrev pub no_base : WhBase
no_base = record { has_wh = false; has_plink = false }

-- `test_linkable`.
abbrev pub test_linkable : BaseDir → Result (Unit {0})
test_linkable b = if b.linkable then ok tt else err enosys

-- `plink_dir`.
abbrev pub plink_dir : BaseDir → HDentry → Result (Unit {0})
plink_dir b plink = elim plink.inode [
  | none ↦ b.mkdir
  | some i ↦ if is_dir i then ok tt else err eexist
]

-- The whiteout base of a branch with the permission `rw`.
abbrev pub wh_base : BaseDir → HDentry → Result (Unit {0})
wh_base b wh = elim wh.inode [ none ↦ b.create | some i ↦ if is_reg i then ok tt else err eexist ]

-- `do_plink`: make the directory and keep it, or clean it.
abbrev pub plink_part : Bool → BaseDir → HDentry → Result Bool
plink_part false b plink = ok false
plink_part true b plink = do _ ← plink_dir b plink; ok true

-- The `switch` of `init_wh`: the result, and the base it leaves, also where it fails. The cleaning
-- of entries that are not wanted has no result that is kept.
abbrev pub init_wh_switch : Perm → Bool → BaseDir → HDentry → HDentry → Result WhBase
init_wh_switch rr do_plink b wh plink = ok no_base
init_wh_switch ro do_plink b wh plink = ok no_base
init_wh_switch rrwh do_plink b wh plink = ok no_base
init_wh_switch rowh do_plink b wh plink = ok no_base
init_wh_switch rw_nolwh false b wh plink = ok no_base
init_wh_switch rw_nolwh true b wh plink = do
  _ ← test_linkable b
  _ ← plink_dir b plink
  ok (record { has_wh = false; has_plink = true })
init_wh_switch rw do_plink b wh plink = do
  _ ← test_linkable b
  _ ← wh_base b wh
  p ← plink_part do_plink b plink
  ok (record { has_wh = true; has_plink = p })

-- `init_wh`: the result beside the base afterwards. The old base is dropped once both lookups have
-- succeeded, and no part of a new one is kept on an error.
unfoldable pub init_wh : Perm → Bool → BaseDir → WhBase → Result (Unit {0}) × WhBase
init_wh perm do_plink b old = elim b.wh [
  | err e ↦ (err e, old)
  | ok wh ↦ elim b.plink [
    | err e ↦ (err e, old)
    | ok plink ↦ elim (init_wh_switch perm do_plink b wh plink) [
      | ok new ↦ (ok tt, new)
      | err e ↦ (err e, no_base)
    ]
  ]
]

-- The test of `verify_opts` (opts.c): the base is already what the permission asks for.
unfoldable pub base_fits : Perm → Bool → WhBase → Bool
base_fits rr do_plink w = not w.has_wh && not w.has_plink
base_fits ro do_plink w = not w.has_wh && not w.has_plink
base_fits rrwh do_plink w = not w.has_wh && not w.has_plink
base_fits rowh do_plink w = not w.has_wh && not w.has_plink
base_fits rw_nolwh do_plink w = not w.has_wh && (if do_plink then w.has_plink else not w.has_plink)
base_fits rw do_plink w = w.has_wh && (if do_plink then w.has_plink else not w.has_plink)
