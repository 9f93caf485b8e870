-- ===== src/Opts/Steps.antt =====
-- The later steps of a mount, each of which leaves the branches apart.
use aufs.Common.{
  ℕ, zero, suc, ◌+◌, ◌≡◌, refl, ◌∙◌, Bool, true, false, not, ◌&&◌, ◌==◌, if◌then◌else◌, Option,
  some, none, List, [], ◌∷◌, Result, ok, err, count_to,
}
use aufs.Iinfo.{h_iptr_i}
use aufs.Branch.{Branch, stobr}
use aufs.Whout.{BaseDir, init_wh, base_fits}
use aufs.Xino.{XinoFile}
use aufs.Manage.{Super}
use aufs.Manage.Add.{xino_init}
use aufs.Manage.Del.{set_base}
use aufs.Manage.Mod.{base_of}
use aufs.Manage.Disjoint.{StaysDisjoint}
use aufs.Manage.Stays.{update_br-StaysDisjoint}
use aufs.Opts.{
  Opt, opt_add, opt_append, opt_prepend, opt_del, opt_mod, opt_xino, opt_dirwh, opt_rdcache,
  opt_udba, opt_plink, opt_noplink, opt_list_plink, opt_clean_plink, opt_diropq_a, opt_diropq_w,
  opt_warn_perm, opt_nowarn_perm, opt_dlgt, opt_nodlgt, opt_noxino, Sbinfo, ino_of, xino_given,
  au_do_opt_xino,
}
use aufs.Opts.Run.{
  OptsEnv, store_base, verify_br, verify_from, verify_opts, xino_opts, init_all, default_xino,
}
use aufs.Opts.Tables.{
  OnlyTables, xino_set-OnlyTables, xino_clr-OnlyTables, OnlyXino-OnlyTables, xino_init-OnlyXino,
}

-- `verify_opts` puts no branch inside another.
abbrev pub StaysOut : Super → Result (Unit {0}) × Super → Type 0
StaysOut s out = StaysDisjoint s → StaysDisjoint out.1

verify_br-StaysOut :
    (bases : ℕ → BaseDir) (b : ℕ) (s : Super) (o : Option Branch)
    → StaysOut s (verify_br bases b s o)
verify_br-StaysOut bases b s none d = d
verify_br-StaysOut bases b s (some br) d =
    let p = init_wh br.perm s.plink (bases b) (base_of br) in
    elim (base_fits br.perm s.plink (base_of br))
      as (λ c. StaysDisjoint (if c then (ok tt, s) else store_base s b p).1) [
        | true ↦ d
        | false ↦ update_br-StaysDisjoint s b (set_base p.1) (λ c. refl) d
      ]

round :
    (s : Super) (next : Super → Result (Unit {0}) × Super) (p : Result (Unit {0}) × Super)
    → StaysOut s p
    → StaysOut p.1 (next p.1)
    → StaysOut s (elim p.0 [ err e ↦ (err e, p.1) | ok u ↦ next p.1 ])
round s next (err e, u) h k d = h d
round s next (ok t, u) h k d = k (h d)

verify_from-StaysOut :
    (k b : ℕ) (bases : ℕ → BaseDir) (s : Super) → StaysOut s (verify_from k b bases s)
unfolding verify_from
verify_from-StaysOut zero b bases s = λ d. d
verify_from-StaysOut (suc k) b bases s =
    let p = verify_br bases b s (stobr s.table b) in
    round s (verify_from k (b + 1) bases) p (verify_br-StaysOut bases b s _)
      (verify_from-StaysOut k (b + 1) bases p.1)

pub verify_opts-StaysOut : (bases : ℕ → BaseDir) (s : Super) → StaysOut s (verify_opts bases s)
unfolding verify_opts
verify_opts-StaysOut bases s = verify_from-StaysOut (count_to s.table.bend) 0 bases s

-- The default inode number tables.
abbrev pub TablesOut : Super → Result (Unit {0}) × Super → Type 0
TablesOut s out = OnlyTables s out.1

OnlyTables-trans : (s t u : Super) → OnlyTables s t → OnlyTables t u → OnlyTables s u
OnlyTables-trans s t u (p, q, r) (p', q', r') = (λ d. p' (p d), q' ∙ q, λ j. r' j ∙ r j)

init_round :
    (s u : Super) (next : Super → Result (Unit {0}) × Super) (r : Result XinoFile)
    → OnlyTables s u
    → TablesOut u (next u)
    → TablesOut s (elim r [ err e ↦ (err e, u) | ok f ↦ next u ])
init_round s u next (err e) h k = h
init_round s u next (ok f) h k = OnlyTables-trans s u (next u).1 h k

init_all-OnlyTables : (k b : ℕ) (env : OptsEnv) (s : Super) → TablesOut s (init_all k b env s)
unfolding init_all
init_all-OnlyTables zero b env s = (λ d. d, refl, λ j. refl)
init_all-OnlyTables (suc k) b env s =
    let h_ino = ino_of (h_iptr_i s.root_inode b) in
    let p = xino_init (env.init b) s.table b h_ino (not (b == 0)) in
    let s' : Super = record s { table = p.1 } in
    init_round s s' (init_all k (b + 1) env) p.0
      (OnlyXino-OnlyTables s p.1 s.xino
        (xino_init-OnlyXino s (env.init b) s.table b h_ino (not (b == 0))))
      (init_all-OnlyTables k (b + 1) env s')

pub default_xino-OnlyTables :
    (env : OptsEnv) (s : Super) (given : Bool) → TablesOut s (default_xino env s given)
default_xino-OnlyTables env s given = go (s.xino && not given) env.def
  where
    go :
        (b : Bool) (r : Result ℕ)
        → TablesOut s (
            if b
            then elim r [ err e ↦ (err e, s) | ok f ↦ init_all (count_to s.table.bend) 0 env s ]
            else (ok tt, s))
    go true (err e) = (λ d. d, refl, λ j. refl)
    go true (ok f) = init_all-OnlyTables (count_to s.table.bend) 0 env s
    go false r = (λ d. d, refl, λ j. refl)

-- The options on the inode number tables.
abbrev pub XinoKeeps : Sbinfo → Result (Unit {0}) × (Sbinfo × Bool) → Type 0
XinoKeeps s out =
    (StaysDisjoint s.mount.super → StaysDisjoint out.1.0.mount.super)
    × (out.1.0.mount.super.table.bend ≡ s.mount.super.table.bend)
    × (out.1.0.dlgt ≡ s.dlgt)

xino_given-XinoKeeps :
    (s : Sbinfo) (given : Bool) (p : Result (Unit {0}) × Super)
    → OnlyTables s.mount.super p.1
    → XinoKeeps s (xino_given s given p)
xino_given-XinoKeeps s given (err e, u) (p, q, r) = (p, q, refl)
xino_given-XinoKeeps s given (ok t, u) (p, q, r) = (p, q, refl)

pub au_do_opt_xino-XinoKeeps :
    (o : Opt) (remount : Bool) (s : Sbinfo) (given : Bool)
    → XinoKeeps s (au_do_opt_xino o remount s given)
unfolding au_do_opt_xino
au_do_opt_xino-XinoKeeps (opt_xino x) remount s given =
    xino_given-XinoKeeps s given _ (xino_set-OnlyTables s.mount.super x remount)
au_do_opt_xino-XinoKeeps opt_noxino remount s given =
    let (p, q, r) = xino_clr-OnlyTables s.mount.super in (p, q, refl)
au_do_opt_xino-XinoKeeps (opt_add a e) remount s given = (λ d. d, refl, refl)
au_do_opt_xino-XinoKeeps (opt_append a e) remount s given = (λ d. d, refl, refl)
au_do_opt_xino-XinoKeeps (opt_prepend a e) remount s given = (λ d. d, refl, refl)
au_do_opt_xino-XinoKeeps (opt_del x) remount s given = (λ d. d, refl, refl)
au_do_opt_xino-XinoKeeps (opt_mod m) remount s given = (λ d. d, refl, refl)
au_do_opt_xino-XinoKeeps (opt_dirwh n) remount s given = (λ d. d, refl, refl)
au_do_opt_xino-XinoKeeps (opt_rdcache n) remount s given = (λ d. d, refl, refl)
au_do_opt_xino-XinoKeeps (opt_udba u) remount s given = (λ d. d, refl, refl)
au_do_opt_xino-XinoKeeps opt_plink remount s given = (λ d. d, refl, refl)
au_do_opt_xino-XinoKeeps opt_noplink remount s given = (λ d. d, refl, refl)
au_do_opt_xino-XinoKeeps opt_list_plink remount s given = (λ d. d, refl, refl)
au_do_opt_xino-XinoKeeps opt_clean_plink remount s given = (λ d. d, refl, refl)
au_do_opt_xino-XinoKeeps opt_diropq_a remount s given = (λ d. d, refl, refl)
au_do_opt_xino-XinoKeeps opt_diropq_w remount s given = (λ d. d, refl, refl)
au_do_opt_xino-XinoKeeps opt_warn_perm remount s given = (λ d. d, refl, refl)
au_do_opt_xino-XinoKeeps opt_nowarn_perm remount s given = (λ d. d, refl, refl)
au_do_opt_xino-XinoKeeps opt_dlgt remount s given = (λ d. d, refl, refl)
au_do_opt_xino-XinoKeeps opt_nodlgt remount s given = (λ d. d, refl, refl)

xino_round :
    (s : Sbinfo) (next : Sbinfo → Bool → Result (Unit {0}) × (Sbinfo × Bool))
    (p : Result (Unit {0}) × (Sbinfo × Bool))
    → XinoKeeps s p
    → XinoKeeps p.1.0 (next p.1.0 p.1.1)
    → XinoKeeps s (elim p.0 [ err e ↦ (err e, (p.1.0, p.1.1)) | ok u ↦ next p.1.0 p.1.1 ])
xino_round s next (err e, (u, g)) h k = h
xino_round s next (ok t, (u, g)) (p, q, r) (p', q', r') = (λ d. p' (p d), q' ∙ q, r' ∙ r)

pub xino_opts-XinoKeeps :
    (os : List Opt) (s : Sbinfo) (given : Bool) → XinoKeeps s (xino_opts os s given)
unfolding xino_opts
xino_opts-XinoKeeps [] s given = (λ d. d, refl, refl)
xino_opts-XinoKeeps (o ∷ os) s given =
    let p = au_do_opt_xino o false s given in
    xino_round s (xino_opts os) p (au_do_opt_xino-XinoKeeps o false s given)
      (xino_opts-XinoKeeps os p.1.0 p.1.1)
