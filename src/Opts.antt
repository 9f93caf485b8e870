-- ===== src/Opts.antt =====
-- fs/aufs/opts.c: carrying out the mount options, with `xino_set`, `xino_clr` of xino.c and
-- `au_put_plink` of plink.c. An option carries what the parser looked up (Opts/Text), and what the
-- calls on it meet. `coo` is never parsed. Locks and the watches of inotify are left out.
pub mod Run
pub mod Verify
pub mod Asked
pub mod Steps
pub mod Mount
pub mod Fits
pub mod Perms
pub mod Text
pub mod Remount
pub mod Tables
pub mod Branches
use aufs.Common.{
  ℕ, zero, suc, ◌+◌, ◌*◌, ◌==◌, ltb, if◌then◌else◌, Bool, true, false, not, ◌&&◌, ◌||◌, Option,
  some, none, List, [], ◌∷◌, Result, ok, err, Errno, eio, einval, ◌>>=◌, is_ok, count_to, eq_bindex,
}
use aufs.Lower.{HInode}
use aufs.Iinfo.{h_iptr_i}
use aufs.Branch.{Branch, Brtable, live, stobr, update_br}
use aufs.Whout.{BaseDir, WhBase, init_wh, base_fits}
use aufs.Xino.{XinoFile}
use aufs.Manage.{Super}
use aufs.Manage.Add.{OptAdd, XinoEnv, xino_of, xino_init, inc_bindex, br_add}
use aufs.Manage.Del.{OptDel, set_base, br_del}
use aufs.Manage.Mod.{OptMod, Mounted, base_of, br_mod}

-- The flags AuFlag_UDBA_*.
pub data Udba : Type 0 where
  none_ reval inotify : Udba

-- `struct opt_xino`: `same` when the file of the first branch has the name and the directory of this
-- one; what creating a file at its place and copying the table of a branch into it return, for each
-- branch, and what `xino_init` meets.
pub record OptXino : Type 0 where
  pub same : Bool
  pub create2 : ℕ → Result ℕ
  pub copy : ℕ → Result (Unit {0})
  pub init : ℕ → XinoEnv

-- `struct opt`. An added branch has what `xino_init` meets beside it.
pub data Opt : Type 0 where
  opt_add opt_append opt_prepend : OptAdd → XinoEnv → Opt
  opt_del : OptDel → Opt
  opt_mod : OptMod → Opt
  opt_xino : OptXino → Opt
  opt_dirwh opt_rdcache : ℕ → Opt
  opt_udba : Udba → Opt
  opt_plink opt_noplink opt_list_plink opt_clean_plink opt_diropq_a opt_diropq_w : Opt
  opt_warn_perm opt_nowarn_perm opt_dlgt opt_nodlgt opt_noxino : Opt

-- What the options change: the branches and the flags of `struct aufs_sbinfo`, with the flags
-- AuFlag_XINO and AuFlag_PLINK in the superblock of Manage.
pub record Sbinfo : Type 0 where
  pub mount : Mounted
  pub udba : Udba
  pub diropq : Bool
  pub dlgt : Bool
  pub warn_perm : Bool
  pub dirwh : ℕ
  pub rdcache : ℕ

-- The bits of `given`; `udba` when one of AuMask_UDBA is set.
pub record Given : Type 0 where
  pub udba : Bool
  pub plink : Bool
  pub diropq : Bool
  pub dlgt : Bool
  pub warn_perm : Bool

abbrev pub set_super : Sbinfo → Super → Sbinfo
set_super s u = record s { mount = record s.mount { super = u } }

abbrev pub set_plink : Sbinfo → Bool → Sbinfo
set_plink s b = set_super s (record s.mount.super { plink = b })

-- `if (au_flag_test(sb, AuFlag_PLINK)) au_put_plink(sb);`
abbrev pub put_plink : Sbinfo → Sbinfo
put_plink s = if s.mount.super.plink then set_super s (record s.mount.super { plinks = [] }) else s

-- `au_do_opt_simple`: whether the option is handled, with the state and `given`. `hz` is HZ; the
-- numbers are not negative, and the product fits.
unfoldable pub au_do_opt_simple : ℕ → Opt → Sbinfo → Given → Bool × (Sbinfo × Given)
au_do_opt_simple hz (opt_udba u) s g = (true, (record s { udba = u }, record g { udba = true }))
au_do_opt_simple hz opt_plink s g = (true, (set_plink s true, record g { plink = true }))
au_do_opt_simple hz opt_noplink s g =
    (true, (set_plink (put_plink s) false, record g { plink = true }))
au_do_opt_simple hz opt_list_plink s g = (true, (s, g))
au_do_opt_simple hz opt_clean_plink s g = (true, (put_plink s, g))
au_do_opt_simple hz opt_diropq_a s g =
    (true, (record s { diropq = true }, record g { diropq = true }))
au_do_opt_simple hz opt_diropq_w s g =
    (true, (record s { diropq = false }, record g { diropq = true }))
au_do_opt_simple hz opt_dlgt s g = (true, (record s { dlgt = true }, record g { dlgt = true }))
au_do_opt_simple hz opt_nodlgt s g = (true, (record s { dlgt = false }, record g { dlgt = true }))
au_do_opt_simple hz opt_warn_perm s g =
    (true, (record s { warn_perm = true }, record g { warn_perm = true }))
au_do_opt_simple hz opt_nowarn_perm s g =
    (true, (record s { warn_perm = false }, record g { warn_perm = true }))
au_do_opt_simple hz (opt_dirwh n) s g = (true, (record s { dirwh = n }, g))
au_do_opt_simple hz (opt_rdcache n) s g = (true, (record s { rdcache = n * hz }, g))
au_do_opt_simple hz (opt_add a e) s g = (false, (s, g))
au_do_opt_simple hz (opt_append a e) s g = (false, (s, g))
au_do_opt_simple hz (opt_prepend a e) s g = (false, (s, g))
au_do_opt_simple hz (opt_del d) s g = (false, (s, g))
au_do_opt_simple hz (opt_mod m) s g = (false, (s, g))
au_do_opt_simple hz (opt_xino x) s g = (false, (s, g))
au_do_opt_simple hz opt_noxino s g = (false, (s, g))

-- With the result of `br_add` or `br_del`: handled, and a refresh is asked for.
abbrev pub refreshed : Sbinfo → Result (Unit {0}) × Super → Result Bool × Sbinfo
refreshed s (err e, u) = (err e, set_super s u)
refreshed s (ok t, u) =
    (ok true, record s { mount = record s.mount { super = u; do_update = true } })

abbrev pub modified : Sbinfo → Result (Unit {0}) × Mounted → Result Bool × Sbinfo
modified s (err e, m) = (err e, record s { mount = m })
modified s (ok t, m) = (ok true, record s { mount = m })

-- `au_do_opt_br`: `ok true` for a positive result, `ok false` for 0.
unfoldable pub au_do_opt_br : Opt → Bool → Sbinfo → Result Bool × Sbinfo
unfolding br_add br_del br_mod
au_do_opt_br (opt_append a e) remount s =
    refreshed s
      (br_add e s.mount.super (record a { bindex = inc_bindex s.mount.super.table.bend }) remount)
au_do_opt_br (opt_prepend a e) remount s =
    refreshed s (br_add e s.mount.super (record a { bindex = some 0 }) remount)
au_do_opt_br (opt_add a e) remount s = refreshed s (br_add e s.mount.super a remount)
au_do_opt_br (opt_del d) remount s = refreshed s (br_del s.mount.super d remount)
au_do_opt_br (opt_mod m) remount s = modified s (br_mod s.mount m remount)
au_do_opt_br o remount s = (ok false, s)

-- The references to a xino file, all of them from branches.
abbrev pub file_count : ℕ → List (Option Branch) → ℕ
file_count f [] = 0
file_count f (b ∷ bs) =
    let rest = file_count f bs in
    elim (xino_of b) [ none ↦ rest | some g ↦ if f == g then suc rest else rest ]

abbrev pub set_xino : Option ℕ → Branch → Branch
set_xino f br = record br { xino = f }

-- The first loop of `xino_set`, downwards: a shared file is given up.
unfoldable pub drop_shared : ℕ → Brtable → Brtable
drop_shared zero t = t
drop_shared (suc b) t = drop_shared b (elim (xino_of (stobr t b)) [
  | none ↦ t
  | some f ↦ if ltb 1 (file_count f (live t)) then update_br t b (set_xino none) else t
])

-- The second loop: each table that is left is copied into a new file.
unfoldable pub copy_xino : ℕ → ℕ → OptXino → Brtable → Result (Unit {0}) × Brtable
copy_xino zero b x t = (ok tt, t)
copy_xino (suc k) b x t = elim (xino_of (stobr t b)) [
  | none ↦ copy_xino k (b + 1) x t
  | some g ↦ elim (do f ← x.create2 b; _ ← x.copy b; ok f) [
    | err e ↦ (err e, t)
    | ok f ↦ copy_xino k (b + 1) x (update_br t b (set_xino (some f)))
  ]
]

-- `au_h_iptr_i(inode, bindex)->i_ino`; a missing inode would be a NULL pointer.
abbrev pub ino_of : Option HInode → ℕ
ino_of none = 0
ino_of (some i) = i.ino

-- The third loop, with `err` as the loop before left it: a branch without a file gets one, and the
-- result of that replaces `err`.
unfoldable pub init_missing :
    ℕ → ℕ → OptXino → Super → Result (Unit {0}) → Brtable → Result (Unit {0}) × Brtable
unfolding xino_init
init_missing zero b x s e t = (e, t)
init_missing (suc k) b x s e t = elim (xino_of (stobr t b)) [
  | some g ↦ init_missing k (b + 1) x s e t
  | none ↦
      (let (r, t') = xino_init (x.init b) t b (ino_of (h_iptr_i s.root_inode b)) true in
        elim r [ ok f ↦ init_missing k (b + 1) x s (ok tt) t' | err _ ↦ (err eio, t') ])
]

abbrev pub has_xino : Option ℕ → Bool
has_xino none = false
has_xino (some f) = true

-- The end of `xino_set`: the flag says whether there was an error.
abbrev pub flag_xino : Super → Result (Unit {0}) × Brtable → Result (Unit {0}) × Super
flag_xino s (r, t) = (r, record s { table = t; xino = is_ok r })

unfoldable pub xino_set : Super → OptXino → Bool → Result (Unit {0}) × Super
unfolding drop_shared copy_xino init_missing
xino_set s x remount =
    if remount && (has_xino (xino_of (stobr s.table 0)) && x.same)
    then flag_xino s (ok tt, s.table)
    else (let n = count_to s.table.bend in
        let (e, t) = copy_xino n 0 x (drop_shared n s.table) in
        flag_xino s (init_missing n 0 x s e t))

-- The loop of `xino_clr`, with the rounds left.
unfoldable pub clear_xino : ℕ → ℕ → Brtable → Brtable
clear_xino zero b t = t
clear_xino (suc k) b t = clear_xino k (b + 1) (update_br t b (set_xino none))

unfoldable pub xino_clr : Super → Super
unfolding clear_xino
xino_clr s = record s { table = clear_xino (count_to s.table.bend) 0 s.table; xino = false }

-- `au_do_opt_xino`; `opt_xino` is kept as whether it points to an option.
abbrev pub xino_given :
    Sbinfo → Bool → Result (Unit {0}) × Super → Result (Unit {0}) × (Sbinfo × Bool)
xino_given s given (err e, u) = (err e, (set_super s u, given))
xino_given s given (ok t, u) = (ok tt, (set_super s u, true))

unfoldable pub au_do_opt_xino : Opt → Bool → Sbinfo → Bool → Result (Unit {0}) × (Sbinfo × Bool)
unfolding xino_set xino_clr
au_do_opt_xino (opt_xino x) remount s given = xino_given s given (xino_set s.mount.super x remount)
au_do_opt_xino opt_noxino remount s given = (ok tt, (set_super s (xino_clr s.mount.super), given))
au_do_opt_xino o remount s given = (ok tt, (s, given))
