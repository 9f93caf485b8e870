-- ===== src/Opts/Run.antt =====
-- fs/aufs/opts.c: the order in which a mount and a remount carry their options out, and the check of
-- the whiteout bases at the end.
use aufs.Common.{
  ℕ, zero, suc, ◌+◌, ◌==◌, if◌then◌else◌, Bool, true, false, not, ◌&&◌, ◌||◌, Option, some, none,
  List, [], ◌∷◌, Result, ok, err, einval, count_to, eq_bindex,
}
use aufs.Iinfo.{h_iptr_i}
use aufs.Branch.{Branch, stobr, update_br}
use aufs.Whout.{BaseDir, WhBase, init_wh, base_fits}
use aufs.Manage.{Super}
use aufs.Manage.Add.{XinoEnv, xino_init}
use aufs.Manage.Del.{set_base}
use aufs.Manage.Mod.{base_of}
use aufs.Opts.{
  Udba, Opt, Sbinfo, Given, set_super, ino_of, au_do_opt_simple, au_do_opt_br, au_do_opt_xino,
}

-- The results of the calls that no option makes: what `init_wh` meets in each branch, the file of
-- `xino_def`, and what `xino_init` meets with it.
pub record OptsEnv : Type 0 where
  pub hz : ℕ
  pub bases : ℕ → BaseDir
  pub def : Result ℕ
  pub init : ℕ → XinoEnv

-- One round of the loop of `verify_opts`: a base that is not as the permission asks is set up.
abbrev pub store_base : Super → ℕ → Result (Unit {0}) × WhBase → Result (Unit {0}) × Super
store_base s b (r, w) = (r, record s { table = update_br s.table b (set_base w) })

abbrev pub verify_br : (ℕ → BaseDir) → ℕ → Super → Option Branch → Result (Unit {0}) × Super
verify_br bases b s none = (ok tt, s)
verify_br bases b s (some br) =
    if base_fits br.perm s.plink (base_of br)
    then (ok tt, s)
    else store_base s b (init_wh br.perm s.plink (bases b) (base_of br))

-- The loop, with the rounds left.
unfoldable pub verify_from : ℕ → ℕ → (ℕ → BaseDir) → Super → Result (Unit {0}) × Super
verify_from zero b bases s = (ok tt, s)
verify_from (suc k) b bases s =
    let (r, s') = verify_br bases b s (stobr s.table b) in
    elim r [ err e ↦ (err e, s') | ok u ↦ verify_from k (b + 1) bases s' ]

unfoldable pub verify_opts : (ℕ → BaseDir) → Super → Result (Unit {0}) × Super
unfolding verify_from
verify_opts bases s = verify_from (count_to s.table.bend) 0 bases s

-- The three loops over the options. The first cannot fail.
unfoldable pub simple_opts : ℕ → List Opt → Sbinfo → Given → Sbinfo × Given
unfolding au_do_opt_simple
simple_opts hz [] s g = (s, g)
simple_opts hz (o ∷ os) s g =
    let (handled, (s', g')) = au_do_opt_simple hz o s g in simple_opts hz os s' g'

unfoldable pub br_opts : List Opt → Sbinfo → Result (Unit {0}) × Sbinfo
unfolding au_do_opt_br
br_opts [] s = (ok tt, s)
br_opts (o ∷ os) s =
    let (r, s') = au_do_opt_br o false s in
    elim r [ err e ↦ (err e, s') | ok handled ↦ br_opts os s' ]

unfoldable pub xino_opts : List Opt → Sbinfo → Bool → Result (Unit {0}) × (Sbinfo × Bool)
unfolding au_do_opt_xino
xino_opts [] s given = (ok tt, (s, given))
xino_opts (o ∷ os) s given =
    let (r, (s', given')) = au_do_opt_xino o false s given in
    elim r [ err e ↦ (err e, (s', given')) | ok u ↦ xino_opts os s' given' ]

-- The loop that starts the default inode number tables, with the rounds left.
unfoldable pub init_all : ℕ → ℕ → OptsEnv → Super → Result (Unit {0}) × Super
unfolding xino_init
init_all zero b env s = (ok tt, s)
init_all (suc k) b env s =
    let (r, t) =
      xino_init (env.init b) s.table b (ino_of (h_iptr_i s.root_inode b)) (not (b == 0)) in
    let s' : Super = record s { table = t } in
    elim r [ err e ↦ (err e, s') | ok f ↦ init_all k (b + 1) env s' ]

-- The flags that are turned off while the branches change.
abbrev pub disable : Sbinfo → Sbinfo
disable s = record s {
  mount = record s.mount { super = record s.mount.super { xino = false }; do_update = false };
  udba = Udba.reval;
  dlgt = false;
}

-- The end of `au_do_opts_mount`; `old` is the state that has the flags.
abbrev pub restore : Sbinfo → Sbinfo → Sbinfo
restore old s = record s { udba = old.udba; dlgt = old.dlgt || s.dlgt }

abbrev pub finish_mount : Sbinfo → Sbinfo → Result (Unit {0}) × Super → Result (Unit {0}) × Sbinfo
finish_mount old s (err e, u) = (err e, set_super s u)
finish_mount old s (ok t, u) = (ok tt, restore old (set_super s u))

-- The default table, where the flag is on and no option named a file.
abbrev pub default_xino : OptsEnv → Super → Bool → Result (Unit {0}) × Super
default_xino env s given =
    if s.xino && not given
    then elim env.def [ err e ↦ (err e, s) | ok f ↦ init_all (count_to s.table.bend) 0 env s ]
    else (ok tt, s)

abbrev pub after_verify :
    OptsEnv → Sbinfo → Sbinfo → Bool → Result (Unit {0}) × Super → Result (Unit {0}) × Sbinfo
after_verify env old s given (err e, u) = (err e, set_super s u)
after_verify env old s given (ok t, u) = finish_mount old s (default_xino env u given)

abbrev pub after_xino :
    OptsEnv → Sbinfo → Result (Unit {0}) × (Sbinfo × Bool) → Result (Unit {0}) × Sbinfo
after_xino env old (err e, (s, given)) = (err e, s)
after_xino env old (ok t, (s, given)) =
    after_verify env old s given (verify_opts env.bases s.mount.super)

-- `if (flags & AuFlag_XINO) au_flag_set(sb, AuFlag_XINO);`
abbrev pub set_flag : Sbinfo → Sbinfo → Sbinfo
set_flag old s =
    set_super s (record s.mount.super { xino = old.mount.super.xino || s.mount.super.xino })

abbrev pub after_br :
    OptsEnv → List Opt → Sbinfo → Result (Unit {0}) × Sbinfo → Result (Unit {0}) × Sbinfo
after_br env opts old (err e, s) = (err e, s)
after_br env opts old (ok t, s) =
    if eq_bindex s.mount.super.table.bend none
    then (err einval, s)
    else after_xino env old (xino_opts opts (set_flag old s) false)

abbrev pub no_given : Given
no_given = record { udba = false; plink = false; diropq = false; dlgt = false; warn_perm = false }

unfoldable pub au_do_opts_mount : OptsEnv → List Opt → Sbinfo → Result (Unit {0}) × Sbinfo
unfolding simple_opts br_opts xino_opts verify_opts init_all
au_do_opts_mount env opts s =
    let (old, g) = simple_opts env.hz opts s no_given in
    after_br env opts old (br_opts opts (disable old))

-- One round of the loop of `au_do_opts_remount`, without the flag AuFlag_DLGT.
abbrev pub try_xino : Opt → Result Bool × Sbinfo → Result (Unit {0}) × Sbinfo
try_xino o (err e, s) = (err e, s)
try_xino o (ok true, s) = (ok tt, s)
try_xino o (ok false, s) = let (r, (s', given)) = au_do_opt_xino o true s false in (r, s')

abbrev pub with_dlgt : Bool → Sbinfo → Sbinfo
with_dlgt b s = record s { dlgt = b || s.dlgt }

abbrev pub remount_opt : Opt → Bool → Sbinfo → Result (Unit {0}) × Sbinfo
remount_opt o true s = (ok tt, s)
remount_opt o false s =
    let (r, s') = try_xino o (au_do_opt_br o true (record s { dlgt = false })) in
    (r, with_dlgt s.dlgt s')

unfoldable pub remount_opts : ℕ → List Opt → Sbinfo → Given → Result (Unit {0}) × (Sbinfo × Given)
unfolding au_do_opt_simple au_do_opt_br au_do_opt_xino
remount_opts hz [] s g = (ok tt, (s, g))
remount_opts hz (o ∷ os) s g =
    let (handled, (s1, g')) = au_do_opt_simple hz o s g in
    let (r, s2) = remount_opt o handled s1 in
    elim r [ err e ↦ (err e, (s2, g')) | ok u ↦ remount_opts hz os s2 g' ]

-- `*do_refresh` at the end, where no option set it.
abbrev pub ask_refresh : Given → Sbinfo → Sbinfo
ask_refresh g s = record s {
  mount = record s.mount { do_update = s.mount.do_update || (g.udba || s.mount.super.xino) };
}

-- `au_do_opts_remount`: the result of the check of the bases is not used.
unfoldable pub au_do_opts_remount :
    OptsEnv → List Opt → Sbinfo → Result (Unit {0}) × (Sbinfo × Given)
unfolding remount_opts verify_opts
au_do_opts_remount env opts s =
    let (r, (s1, g)) =
      remount_opts env.hz opts (record s { mount = record s.mount { do_update = false } })
        no_given in
    let (checked, u) = verify_opts env.bases s1.mount.super in
    (r, (ask_refresh g (set_super s1 u), g))
