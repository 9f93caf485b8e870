-- ===== src/Opts/Mount.antt =====
-- What a mount with options that met no error has.
use aufs.Common.{
  arith, ◌≤◌, ◌<◌, ◌≡◌, refl, ap, ◌∙◌, subst, Bool, true, false, ◌||◌, if◌then◌else◌, none, List,
  Result, ok, err, einval, count_to, eq_bindex,
}
use aufs.Manage.{Super}
use aufs.Manage.Disjoint.{StaysDisjoint}
use aufs.Opts.{Opt, Sbinfo}
use aufs.Opts.Run.{
  OptsEnv, verify_opts, simple_opts, br_opts, xino_opts, disable, finish_mount, default_xino,
  after_verify, after_xino, set_flag, after_br, no_given, au_do_opts_mount,
}
use aufs.Opts.Asked.{asked_udba, asked_dlgt, simple_opts-asked}
use aufs.Opts.Verify.{AllFit, verify_opts-AllFit}
use aufs.Opts.Branches.{br_opts-Keeps}
use aufs.Opts.Tables.{StaysDisjoint-flags}
use aufs.Opts.Steps.{
  verify_opts-StaysOut, default_xino-OnlyTables, xino_opts-XinoKeeps, XinoKeeps, TablesOut,
}

-- A mount with the policies `udba` and `dlgt` of `old`.
record IsReady (old out : Sbinfo) : Type 0 where
  some_branch : eq_bindex out.mount.super.table.bend none ≡ false
  apart : StaysDisjoint out.mount.super
  fit : AllFit out.mount.super
  udba : out.udba ≡ old.udba
  dlgt : out.dlgt ≡ old.dlgt

or_false : (a b : Bool) → b ≡ false → (a || b) ≡ a
or_false a b e = ground arith

module _ (env : OptsEnv) (old s : Sbinfo) (off : s.dlgt ≡ false) where
  finish_mount-IsReady :
      (u : Super) (w : Result (Unit {0}) × Super)
      → TablesOut u w
      → eq_bindex u.table.bend none ≡ false
      → StaysDisjoint u
      → AllFit u
      → (finish_mount old s w).0 ≡ ok tt
      → IsReady old (finish_mount old s w).1
  finish_mount-IsReady u (err e, v) t some_br d fit h = absurd (ground arith)
  finish_mount-IsReady u (ok t, v) (p, q, r) some_br d fit h = record {
    some_branch = ap (λ b. eq_bindex b none) q ∙ some_br;
    apart = p d;
    fit = λ b k. r b ∙ fit b (subst (λ e. b < count_to e) q k);
    udba = refl;
    dlgt = or_false old.dlgt s.dlgt off;
  }

  after_verify-IsReady :
      (given : Bool) (v : Result (Unit {0}) × Super)
      → StaysDisjoint v.1
      → (v.0 ≡ ok tt → (eq_bindex v.1.table.bend none ≡ false) × AllFit v.1)
      → (after_verify env old s given v).0 ≡ ok tt
      → IsReady old (after_verify env old s given v).1
  after_verify-IsReady given (err e, u) d fit h = absurd (ground arith)
  after_verify-IsReady given (ok t, u) d fit h =
      finish_mount-IsReady u (default_xino env u given) (default_xino-OnlyTables env u given)
        (fit refl).0 d (fit refl).1 h

-- After the options on branches.
module _ (env : OptsEnv) (old s : Sbinfo) (off : s.dlgt ≡ false)
    (some_br : eq_bindex s.mount.super.table.bend none ≡ false)
    (d : StaysDisjoint s.mount.super) where
  after_xino-IsReady :
      (q : Result (Unit {0}) × (Sbinfo × Bool))
      → XinoKeeps s q
      → (after_xino env old q).0 ≡ ok tt
      → IsReady old (after_xino env old q).1
  after_xino-IsReady (err e, (u, given)) k h = absurd (ground arith)
  after_xino-IsReady (ok t, (u, given)) (p, q, r) h =
      after_verify-IsReady env old u (r ∙ off) given (verify_opts env.bases u.mount.super)
        (verify_opts-StaysOut env.bases u.mount.super (p d))
        (λ v.
          let (same, fit) = verify_opts-AllFit env.bases u.mount.super v in
          (ap (λ b. eq_bindex b none) (same ∙ q) ∙ some_br, fit))
        h

set_flag-StaysDisjoint :
    (old s : Sbinfo) → StaysDisjoint s.mount.super → StaysDisjoint (set_flag old s).mount.super
set_flag-StaysDisjoint old s d =
    let u : Super = s.mount.super in
    StaysDisjoint-flags u (old.mount.super.xino || u.xino) u.plink u.plinks d

after_br-IsReady :
    (env : OptsEnv) (opts : List Opt) (old : Sbinfo) (p : Result (Unit {0}) × Sbinfo)
    → StaysDisjoint p.1.mount.super
    → p.1.dlgt ≡ false
    → (after_br env opts old p).0 ≡ ok tt
    → IsReady old (after_br env opts old p).1
after_br-IsReady env opts old (err e, s) d off = λ h. absurd (ground arith)
after_br-IsReady env opts old (ok t, s) d off = go (eq_bindex s.mount.super.table.bend none) refl
  where
    rest : Result (Unit {0}) × Sbinfo
    rest = after_xino env old (xino_opts opts (set_flag old s) false)

    go :
        (b : Bool)
        → eq_bindex s.mount.super.table.bend none ≡ b
        → (if b then (err einval, s) else rest).0 ≡ ok tt
        → IsReady old (if b then (err einval, s) else rest).1
    go true e h = absurd (ground arith)
    go false e h =
        after_xino-IsReady env old (set_flag old s) off e (set_flag-StaysDisjoint old s d)
          (xino_opts opts (set_flag old s) false) (xino_opts-XinoKeeps opts (set_flag old s) false)
          h

-- What a mount with these options has.
pub record IsMounted (opts : List Opt) (s out : Sbinfo) : Type 0 where
  pub some_branch : 1 ≤ count_to out.mount.super.table.bend
  pub apart : StaysDisjoint out.mount.super
  pub fit : AllFit out.mount.super
  pub udba : out.udba ≡ asked_udba opts s.udba
  pub dlgt : out.dlgt ≡ asked_dlgt opts s.dlgt

-- A mount that met no error has a branch, no branch inside another, every whiteout base as the
-- permission and the plink option ask for, and the policy and the delegation that the last options
-- on them ask for, although both are turned off meanwhile. Before it no branch is inside another.
pub au_do_opts_mount-IsMounted :
    (env : OptsEnv) (opts : List Opt) (s : Sbinfo)
    → StaysDisjoint s.mount.super
    → (au_do_opts_mount env opts s).0 ≡ ok tt
    → IsMounted opts s (au_do_opts_mount env opts s).1
unfolding au_do_opts_mount
au_do_opts_mount-IsMounted env opts s d h =
    let old : Sbinfo = (simple_opts env.hz opts s no_given).0 in
    let (p, q, r) = simple_opts-asked env.hz opts s no_given in
    let (keep, off) = br_opts-Keeps opts (disable old) in
    let u : Super = old.mount.super in
    let apart = keep (StaysDisjoint-flags u false u.plink u.plinks (p d)) in
    let ready = after_br-IsReady env opts old (br_opts opts (disable old)) apart off h in
    record {
      some_branch = let e = ready.some_branch in ground arith;
      apart = ready.apart;
      fit = ready.fit;
      udba = ready.udba ∙ q;
      dlgt = ready.dlgt ∙ r;
    }
