-- ===== src/Opts/Asked.antt =====
-- The simple options: each decides its flag until another one does.
use aufs.Common.{ℕ, ◌≡◌, refl, ap, ◌∙◌, Bool, true, false, if◌then◌else◌, List, [], ◌∷◌}
use aufs.Plink.{PseudoLink}
use aufs.Manage.{Super}
use aufs.Manage.Disjoint.{StaysDisjoint}
use aufs.Opts.{
  Udba, Opt, opt_add, opt_append, opt_prepend, opt_del, opt_mod, opt_xino, opt_dirwh, opt_rdcache,
  opt_udba, opt_plink, opt_noplink, opt_list_plink, opt_clean_plink, opt_diropq_a, opt_diropq_w,
  opt_warn_perm, opt_nowarn_perm, opt_dlgt, opt_nodlgt, opt_noxino, Sbinfo, Given, set_super,
  put_plink, au_do_opt_simple,
}
use aufs.Opts.Run.{simple_opts}
use aufs.Opts.Tables.{StaysDisjoint-flags}

-- What the options ask for: the last one that names a policy, and the last `dlgt` or `nodlgt`.
abbrev pub udba_of : Opt → Udba → Udba
udba_of (opt_udba v) u = v
udba_of o u = u

abbrev pub dlgt_of : Opt → Bool → Bool
dlgt_of opt_dlgt b = true
dlgt_of opt_nodlgt b = false
dlgt_of o b = b

abbrev pub asked_udba : List Opt → Udba → Udba
asked_udba [] u = u
asked_udba (o ∷ os) u = asked_udba os (udba_of o u)

abbrev pub asked_dlgt : List Opt → Bool → Bool
asked_dlgt [] b = b
asked_dlgt (o ∷ os) b = asked_dlgt os (dlgt_of o b)

-- The state after one simple option.
abbrev pub IsAsked : Opt → Sbinfo → Sbinfo → Type 0
IsAsked o s s' =
    (StaysDisjoint s.mount.super → StaysDisjoint s'.mount.super)
    × (s'.udba ≡ udba_of o s.udba)
    × (s'.dlgt ≡ dlgt_of o s.dlgt)

flags_only :
    (s : Super) (p : Bool) (l : List PseudoLink)
    → StaysDisjoint s
    → StaysDisjoint (record s { plink = p; plinks = l })
flags_only s p l d = StaysDisjoint-flags s s.xino p l d

put_plink-StaysDisjoint :
    (s : Sbinfo) → StaysDisjoint s.mount.super → StaysDisjoint (put_plink s).mount.super
put_plink-StaysDisjoint s d = go s.mount.super.plink
  where
    go :
        (b : Bool)
        → StaysDisjoint
            (if b then set_super s (record s.mount.super { plinks = [] }) else s).mount.super
    go true = flags_only s.mount.super s.mount.super.plink [] d
    go false = d

put_plink-flags : (s : Sbinfo) → ((put_plink s).udba ≡ s.udba) × ((put_plink s).dlgt ≡ s.dlgt)
put_plink-flags s = go s.mount.super.plink
  where
    go :
        (b : Bool)
        → ((if b then set_super s (record s.mount.super { plinks = [] }) else s).udba ≡ s.udba)
          × ((if b then set_super s (record s.mount.super { plinks = [] }) else s).dlgt ≡ s.dlgt)
    go true = (refl, refl)
    go false = (refl, refl)

put_plink-kept :
    (s : Sbinfo) (p : Bool)
    → StaysDisjoint s.mount.super
    → StaysDisjoint (record (put_plink s).mount.super { plink = p })
put_plink-kept s p d =
    let u : Super = (put_plink s).mount.super in
    flags_only u p u.plinks (put_plink-StaysDisjoint s d)

pub au_do_opt_simple-IsAsked :
    (hz : ℕ) (o : Opt) (s : Sbinfo) (g : Given) → IsAsked o s (au_do_opt_simple hz o s g).1.0
unfolding au_do_opt_simple
au_do_opt_simple-IsAsked hz opt_plink s g =
    (flags_only s.mount.super true s.mount.super.plinks, refl, refl)
au_do_opt_simple-IsAsked hz opt_noplink s g =
    let (p, q) = put_plink-flags s in (put_plink-kept s false, p, q)
au_do_opt_simple-IsAsked hz opt_clean_plink s g =
    let (p, q) = put_plink-flags s in (put_plink-StaysDisjoint s, p, q)
au_do_opt_simple-IsAsked hz (opt_udba u) s g = (λ d. d, refl, refl)
au_do_opt_simple-IsAsked hz opt_list_plink s g = (λ d. d, refl, refl)
au_do_opt_simple-IsAsked hz opt_diropq_a s g = (λ d. d, refl, refl)
au_do_opt_simple-IsAsked hz opt_diropq_w s g = (λ d. d, refl, refl)
au_do_opt_simple-IsAsked hz opt_dlgt s g = (λ d. d, refl, refl)
au_do_opt_simple-IsAsked hz opt_nodlgt s g = (λ d. d, refl, refl)
au_do_opt_simple-IsAsked hz opt_warn_perm s g = (λ d. d, refl, refl)
au_do_opt_simple-IsAsked hz opt_nowarn_perm s g = (λ d. d, refl, refl)
au_do_opt_simple-IsAsked hz (opt_dirwh n) s g = (λ d. d, refl, refl)
au_do_opt_simple-IsAsked hz (opt_rdcache n) s g = (λ d. d, refl, refl)
au_do_opt_simple-IsAsked hz (opt_add a e) s g = (λ d. d, refl, refl)
au_do_opt_simple-IsAsked hz (opt_append a e) s g = (λ d. d, refl, refl)
au_do_opt_simple-IsAsked hz (opt_prepend a e) s g = (λ d. d, refl, refl)
au_do_opt_simple-IsAsked hz (opt_del x) s g = (λ d. d, refl, refl)
au_do_opt_simple-IsAsked hz (opt_mod m) s g = (λ d. d, refl, refl)
au_do_opt_simple-IsAsked hz (opt_xino x) s g = (λ d. d, refl, refl)
au_do_opt_simple-IsAsked hz opt_noxino s g = (λ d. d, refl, refl)

pub simple_opts-asked :
    (hz : ℕ) (os : List Opt) (s : Sbinfo) (g : Given)
    → (StaysDisjoint s.mount.super → StaysDisjoint (simple_opts hz os s g).0.mount.super)
      × ((simple_opts hz os s g).0.udba ≡ asked_udba os s.udba)
      × ((simple_opts hz os s g).0.dlgt ≡ asked_dlgt os s.dlgt)
unfolding simple_opts
simple_opts-asked hz [] s g = (λ d. d, refl, refl)
simple_opts-asked hz (o ∷ os) s g =
    let (p, q, r) = au_do_opt_simple-IsAsked hz o s g in
    let s' = (au_do_opt_simple hz o s g).1.0 in
    let (p', q', r') = simple_opts-asked hz os s' (au_do_opt_simple hz o s g).1.1 in
    (λ d. p' (p d), q' ∙ ap (asked_udba os) q, r' ∙ ap (asked_dlgt os) r)
