-- ===== src/Opts/Remount.antt =====
-- What a remount leaves, with an error or without.
use aufs.Common.{
  ◌≢◌, ◌⊎◌, inl, inr, arith, ℕ, ◌≡◌, refl, ap, ◌∙◌, Bool, true, false, ◌||◌, List, [], ◌∷◌, Result,
  ok, err,
}
use aufs.Manage.Disjoint.{StaysDisjoint}
use aufs.Opts.{Opt, Sbinfo, Given, au_do_opt_simple, au_do_opt_br}
use aufs.Opts.Run.{OptsEnv, no_given, try_xino, remount_opt, remount_opts, au_do_opts_remount}
use aufs.Opts.Asked.{dlgt_of, asked_dlgt, au_do_opt_simple-IsAsked}
use aufs.Opts.Branches.{Keeps, au_do_opt_br-Keeps}
use aufs.Opts.Steps.{verify_opts-StaysOut, au_do_opt_xino-XinoKeeps}

-- The delegation is off before and after.
abbrev Holds : Sbinfo → Result (Unit {0}) × Sbinfo → Type 0
Holds s out =
    (StaysDisjoint s.mount.super → StaysDisjoint out.1.mount.super) × (out.1.dlgt ≡ s.dlgt)

try_xino-Holds :
    (o : Opt) (s : Sbinfo) (p : Result Bool × Sbinfo) → Keeps s p.1 → Holds s (try_xino o p)
try_xino-Holds o s (err e, u) h = h
try_xino-Holds o s (ok true, u) h = h
try_xino-Holds o s (ok false, u) (p, q) =
    let (p', q', r') = au_do_opt_xino-XinoKeeps o true u false in (λ d. p' (p d), r' ∙ q)

remount_opt-Holds : (o : Opt) (handled : Bool) (s : Sbinfo) → Holds s (remount_opt o handled s)
remount_opt-Holds o true s = (λ d. d, refl)
remount_opt-Holds o false s =
    let off : Sbinfo = record s { dlgt = false } in
    let (p, q) = try_xino-Holds o off (au_do_opt_br o true off) (au_do_opt_br-Keeps o true off) in
    (p, or_false s.dlgt _ q)
  where
    or_false : (a b : Bool) → b ≡ false → (a || b) ≡ a
    or_false a b e = ground arith

-- The branches after some options, and the delegation where none of them failed.
abbrev Remounts : List Opt → Sbinfo → Result (Unit {0}) × Sbinfo → Type 0
Remounts opts s out =
    (StaysDisjoint s.mount.super → StaysDisjoint out.1.mount.super)
    × (out.0 ≡ ok tt → out.1.dlgt ≡ asked_dlgt opts s.dlgt)

abbrev without_given : Result (Unit {0}) × (Sbinfo × Given) → Result (Unit {0}) × Sbinfo
without_given out = (out.0, out.1.0)

remount_round :
    (o : Opt) (os : List Opt) (s s1 : Sbinfo) (g : Given)
    (next : Sbinfo → Result (Unit {0}) × (Sbinfo × Given)) (p : Result (Unit {0}) × Sbinfo)
    → (StaysDisjoint s.mount.super → StaysDisjoint s1.mount.super)
    → s1.dlgt ≡ dlgt_of o s.dlgt
    → Holds s1 p
    → Remounts os p.1 (without_given (next p.1))
    → Remounts (o ∷ os) s (without_given (elim p.0 [ err e ↦ (err e, (p.1, g)) | ok u ↦ next p.1 ]))
remount_round o os s s1 g next (err e, u) i j (p, q) h = (λ d. p (i d), λ k. absurd (ground arith))
remount_round o os s s1 g next (ok t, u) i j (p, q) (p', q') =
    (λ d. p' (p (i d)), λ k. q' k ∙ ap (asked_dlgt os) (q ∙ j))

remount_opts-Remounts :
    (hz : ℕ) (os : List Opt) (s : Sbinfo) (g : Given)
    → Remounts os s (without_given (remount_opts hz os s g))
unfolding remount_opts
remount_opts-Remounts hz [] s g = (λ d. d, λ k. refl)
remount_opts-Remounts hz (o ∷ os) s g =
    let r = au_do_opt_simple hz o s g in
    let (i, u, j) = au_do_opt_simple-IsAsked hz o s g in
    let p = remount_opt o r.0 r.1.0 in
    remount_round o os s r.1.0 r.1.1 (λ s2. remount_opts hz os s2 r.1.1) p i j
      (remount_opt-Holds o r.0 r.1.0) (remount_opts-Remounts hz os p.1 r.1.1)

-- No branch is inside another, and the delegation is as the options ask for unless one failed.
abbrev pub IsRemounted : List Opt → Sbinfo → Result (Unit {0}) × (Sbinfo × Given) → Type 0
IsRemounted opts s out =
    StaysDisjoint out.1.0.mount.super × ((out.0 ≢ ok tt) ⊎ (out.1.0.dlgt ≡ asked_dlgt opts s.dlgt))

ok-or : {P : Type 0} (r : Result (Unit {0})) → (r ≡ ok tt → P) → (r ≢ ok tt) ⊎ P
ok-or (err e) h = inl (λ k. absurd (ground arith))
ok-or (ok tt) h = inr (h refl)

-- Whatever a remount returns, no branch is inside another, where none was before; unless it returns
-- an error, the delegation is as the last option on it asks for, although the options on branches
-- are carried out without it.
pub au_do_opts_remount-IsRemounted :
    (env : OptsEnv) (opts : List Opt) (s : Sbinfo)
    → StaysDisjoint s.mount.super
    → IsRemounted opts s (au_do_opts_remount env opts s)
unfolding au_do_opts_remount
au_do_opts_remount-IsRemounted env opts s d =
    let start : Sbinfo = record s { mount = record s.mount { do_update = false } } in
    let out = remount_opts env.hz opts start no_given in
    let (p, q) = remount_opts-Remounts env.hz opts start no_given in
    (verify_opts-StaysOut env.bases out.1.0.mount.super (p d), ok-or out.0 q)
