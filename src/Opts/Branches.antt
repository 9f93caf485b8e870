-- ===== src/Opts/Branches.antt =====
-- The options that change branches put none inside another.
use aufs.Common.{◌≡◌, refl, ◌∙◌, Bool, false, some, List, [], ◌∷◌, Result, ok, err}
use aufs.Manage.{Super}
use aufs.Manage.Add.{inc_bindex}
use aufs.Manage.Mod.{Mounted}
use aufs.Manage.Disjoint.{StaysDisjoint}
use aufs.Manage.Stays.{br_add-StaysDisjoint, br_del-StaysDisjoint, br_mod-StaysDisjoint}
use aufs.Opts.{
  Opt, opt_add, opt_append, opt_prepend, opt_del, opt_mod, opt_xino, opt_dirwh, opt_rdcache,
  opt_udba, opt_plink, opt_noplink, opt_list_plink, opt_clean_plink, opt_diropq_a, opt_diropq_w,
  opt_warn_perm, opt_nowarn_perm, opt_dlgt, opt_nodlgt, opt_noxino, Sbinfo, refreshed, modified,
  au_do_opt_br,
}
use aufs.Opts.Run.{br_opts}

-- A step that leaves the branches apart, and the flag that is off meanwhile.
abbrev pub Keeps : Sbinfo → Sbinfo → Type 0
Keeps s s' = (StaysDisjoint s.mount.super → StaysDisjoint s'.mount.super) × (s'.dlgt ≡ s.dlgt)

refreshed-Keeps :
    (s : Sbinfo) (p : Result (Unit {0}) × Super)
    → (StaysDisjoint s.mount.super → StaysDisjoint p.1)
    → Keeps s (refreshed s p).1
refreshed-Keeps s (err e, u) h = (h, refl)
refreshed-Keeps s (ok t, u) h = (h, refl)

modified-Keeps :
    (s : Sbinfo) (p : Result (Unit {0}) × Mounted)
    → (StaysDisjoint s.mount.super → StaysDisjoint p.1.super)
    → Keeps s (modified s p).1
modified-Keeps s (err e, m) h = (h, refl)
modified-Keeps s (ok t, m) h = (h, refl)

-- Whatever `au_do_opt_br` returns.
pub au_do_opt_br-Keeps :
    (o : Opt) (remount : Bool) (s : Sbinfo) → Keeps s (au_do_opt_br o remount s).1
unfolding au_do_opt_br
au_do_opt_br-Keeps (opt_append a e) remount s = refreshed-Keeps s _ (
    br_add-StaysDisjoint e s.mount.super (record a { bindex = inc_bindex s.mount.super.table.bend })
      remount)
au_do_opt_br-Keeps (opt_prepend a e) remount s =
    refreshed-Keeps s _
      (br_add-StaysDisjoint e s.mount.super (record a { bindex = some 0 }) remount)
au_do_opt_br-Keeps (opt_add a e) remount s =
    refreshed-Keeps s _ (br_add-StaysDisjoint e s.mount.super a remount)
au_do_opt_br-Keeps (opt_del d) remount s =
    refreshed-Keeps s _ (br_del-StaysDisjoint s.mount.super d remount)
au_do_opt_br-Keeps (opt_mod m) remount s =
    modified-Keeps s _ (br_mod-StaysDisjoint s.mount m remount)
au_do_opt_br-Keeps (opt_xino x) remount s = (λ d. d, refl)
au_do_opt_br-Keeps (opt_dirwh n) remount s = (λ d. d, refl)
au_do_opt_br-Keeps (opt_rdcache n) remount s = (λ d. d, refl)
au_do_opt_br-Keeps (opt_udba u) remount s = (λ d. d, refl)
au_do_opt_br-Keeps opt_plink remount s = (λ d. d, refl)
au_do_opt_br-Keeps opt_noplink remount s = (λ d. d, refl)
au_do_opt_br-Keeps opt_list_plink remount s = (λ d. d, refl)
au_do_opt_br-Keeps opt_clean_plink remount s = (λ d. d, refl)
au_do_opt_br-Keeps opt_diropq_a remount s = (λ d. d, refl)
au_do_opt_br-Keeps opt_diropq_w remount s = (λ d. d, refl)
au_do_opt_br-Keeps opt_warn_perm remount s = (λ d. d, refl)
au_do_opt_br-Keeps opt_nowarn_perm remount s = (λ d. d, refl)
au_do_opt_br-Keeps opt_dlgt remount s = (λ d. d, refl)
au_do_opt_br-Keeps opt_nodlgt remount s = (λ d. d, refl)
au_do_opt_br-Keeps opt_noxino remount s = (λ d. d, refl)

pub Keeps-after : (a b c : Sbinfo) → Keeps a b → Keeps b c → Keeps a c
Keeps-after a b c (p, q) (p', q') = (λ d. p' (p d), q' ∙ q)

abbrev KeepsOut : Sbinfo → Result (Unit {0}) × Sbinfo → Type 0
KeepsOut s out = Keeps s out.1

br_round :
    (s : Sbinfo) (next : Sbinfo → Result (Unit {0}) × Sbinfo) (p : Result Bool × Sbinfo)
    → Keeps s p.1
    → KeepsOut p.1 (next p.1)
    → KeepsOut s (elim p.0 [ err e ↦ (err e, p.1) | ok handled ↦ next p.1 ])
br_round s next (err e, u) h k = h
br_round s next (ok b, u) h k = Keeps-after s u (next u).1 h k

-- Whatever the loop over the options returns, it puts no branch inside another.
pub br_opts-Keeps : (os : List Opt) (s : Sbinfo) → Keeps s (br_opts os s).1
unfolding br_opts
br_opts-Keeps [] s = (λ d. d, refl)
br_opts-Keeps (o ∷ os) s =
    let p = au_do_opt_br o false s in
    br_round s (br_opts os) p (au_do_opt_br-Keeps o false s) (br_opts-Keeps os p.1)
