-- ===== src/Create/Steps.antt =====
-- What an addition on the first branch of the dentry has done where it succeeded.
use aufs.Common.{
  ℕ, ◌≡◌, ◌≢◌, ◌⊎◌, refl, sym, ap, subst, subst₂, ◌∙◌, ◌==◌, if◌then◌else◌, Bool, true, false, ◌&&◌,
  ◌||◌, some, none, Result, ok, err, Errno, Bindex, eq_bindex, from_branch, Bool-cases, inl, inr,
  arith,
}
use aufs.Lower.{HDentry}
use aufs.Dinfo.{h_dptr_i}
use aufs.Whout.{Name, alloc_whname, eq_name}
use aufs.Whout.Change.{lookup_under, lkup_wh, unlink_wh_dentry}
use aufs.Whout.Change.Effect.{eq_name_refl, unlink_wh_dentry-ok}
use aufs.Create.{
  wr_branch, wr_dir_at, wr_dir, find_wh, lkup_wh_for, remake_wh, instantiate, epilog, out,
  remove_new, after_create, create_at, add_simple,
}
use aufs.Vfs.{◌>>=◌, Op, Run, System, IsVfs, view, and_then, pure, call, hidden_parent}
use aufs.Vfs.Invert.{ok-pair, and_then-ok, hidden_parent-found}
use aufs.Vfs.Names.{whname-ne, eq_name-sym}

module _ (sys : System) (cpup_dirs : ℕ → Run sys.World (Unit {0})) (s : Op sys.World) (k : ℕ)
    (first : s.dentry.bstart ≡ some k) (target : wr_branch sys cpup_dirs none none s ≡ ok k) where
  wr_dir-eq : wr_dir sys cpup_dirs true none none s ≡ (ok k, s)
  unfolding wr_dir
  wr_dir-eq =
      let same : (k == from_branch s.dentry.bstart) ≡ true = ground arith in
      rw (target, same, wr_dir_at) refl

  looked_up :
      (hp : HDentry) (r : Result Name) (x : HDentry) (t : Op sys.World)
      → and_then (r, s) (lookup_under sys hp) ≡ (ok x, t)
      → t ≡ s
  looked_up hp (err e) x t h = absurd (cc)
  looked_up hp (ok n) x t h = sym (ap (λ (y : Result HDentry × Op sys.World). y.1) h)

  lkup_wh-state :
      (hp : HDentry) (x : HDentry) (t : Op sys.World)
      → lkup_wh sys hp sys.name s ≡ (ok x, t)
      → t ≡ s
  unfolding lkup_wh
  lkup_wh-state hp x t h = looked_up hp (alloc_whname sys.name) x t h

  -- The whiteout was looked for on that branch, and nothing changed.
  find_wh-ok :
      (hp : HDentry) (r : ℕ × HDentry × Bool) (t : Op sys.World)
      → find_wh sys cpup_dirs k hp s ≡ (ok r, t)
      → (r ≡ (k, hp, eq_bindex (some k) s.dentry.bwh)) × (t ≡ s)
  find_wh-ok hp r t h = elim (Bool-cases (eq_bindex (some k) s.dentry.bwh)) [
    | inl wh ↦
        let (x, u, e, f) =
          and_then-ok (lkup_wh sys hp sys.name s) (λ (y : HDentry). pure (k, hp, true)) r t
            (rw (wh, find_wh) at h) in
        let (p, q) = ok-pair (k, hp, true) r u t f in rw wh (sym p, sym q ∙ lkup_wh-state hp x u e)
    | inr no_wh ↦
        let (p, q) = ok-pair (k, hp, false) r s t (rw (no_wh, find_wh) at h) in
        rw no_wh (sym p, sym q)
  ]

  pub lkup_wh_for-ok :
      (hp : HDentry) (r : ℕ × HDentry × Bool) (t : Op sys.World)
      → h_dptr_i s.parent k ≡ some hp
      → lkup_wh_for sys cpup_dirs none s ≡ (ok r, t)
      → (r ≡ (k, hp, eq_bindex (some k) s.dentry.bwh)) × (t ≡ s)
  unfolding lkup_wh_for
  lkup_wh_for-ok hp r t at h =
      let eq =
        ap
          (λ (x : Result ℕ × Op sys.World).
            and_then x (λ b. hidden_parent sys b >>= λ p. find_wh sys cpup_dirs b p))
          wr_dir-eq
        ∙ ap (λ (x : Result HDentry × Op sys.World). and_then x (find_wh sys cpup_dirs k))
            (hidden_parent-found sys k s hp at) in
      find_wh-ok hp r t (sym eq ∙ h)

-- What an addition made of the branches.
pub record IsCreated (sys : System) (hp : HDentry) (wh_name : Name) (wh : Bool) (fmt : ℕ)
    (s t : Op sys.World) : Type 0 where
  pub parent : t.parent ≡ s.parent
  pub there : (id : ℕ) × (view sys t.world hp.id sys.name ≡ ok (some (id, fmt)))
  pub no_wh :
      (wh ≡ true) ⊎ (view sys s.world hp.id wh_name ≡ ok none)
      → view sys t.world hp.id wh_name ≡ ok none
  pub others :
      (q : ℕ) (m : Name)
      → (q == hp.id && (eq_name m wh_name || eq_name m sys.name)) ≡ false
      → view sys t.world q m ≡ view sys s.world q m

module _ (sys : System) (vfs : IsVfs sys) (wh_name : Name)
    (named : alloc_whname sys.name ≡ ok wh_name) (hp : HDentry) (fmt : ℕ) (s : Op sys.World) where
  made :
      (t : Op sys.World)
      → call sys (λ w. sys.create w hp.id sys.name fmt) s ≡ (ok tt, t)
      → IsCreated sys hp wh_name false fmt s t
  made t h =
      let done = ap (λ (r : Result (Unit {0}) × Op sys.World). r.0) h in
      let after = ap (λ (r : Result (Unit {0}) × Op sys.World). r.1) h in
      let (id, new) = (vfs.creates hp.id sys.name fmt s.world).0 done in
      subst (λ (y : Op sys.World). IsCreated sys hp wh_name false fmt s y) after
        (record {
          parent = refl;
          there = (id, new hp.id sys.name ∙ ground (arith, eq_name_refl sys.name));
          no_wh = λ o. elim o [
            | inl e ↦ absurd (cc)
            | inr absent ↦
                new hp.id wh_name ∙ ground (arith, absent, whname-ne sys.name wh_name named)
          ];
          others = λ q m e. new q m ∙ (ground arith);
        })

  name_ne : eq_name sys.name wh_name ≡ false
  name_ne = eq_name-sym sys.name wh_name ∙ whname-ne sys.name wh_name named

  unwhited :
      (wh : Bool) (t u : Op sys.World)
      → IsCreated sys hp wh_name false fmt s t
      → (if wh then unlink_wh_dentry sys hp else pure tt) t ≡ (ok tt, u)
      → IsCreated sys hp wh_name wh fmt s u
  unwhited false t u c h =
      subst (λ (y : Op sys.World). IsCreated sys hp wh_name false fmt s y) (ok-pair tt tt t u h).1 c
  unwhited true t u c h =
      let (p, gone) = unlink_wh_dentry-ok sys wh_name named hp t vfs u h in
      let (id, here) = c.there in
      record {
        parent = p ∙ c.parent;
        there = (id, gone hp.id sys.name ∙ ground (arith, here, name_ne));
        no_wh = λ o. gone hp.id wh_name ∙ ground (arith, eq_name_refl wh_name);
        others = λ q m e. gone q m ∙ ground (arith, c.others q m);
      }

module _ (sys : System) (cpup_dirs : ℕ → Run sys.World (Unit {0})) (new_inode : Result (Unit {0}))
    (hp : HDentry) where
  remake_wh-ne-ok :
      (wh : Bool) (bwh : Bindex) (e : Errno) (s t : Op sys.World)
      → remake_wh sys cpup_dirs wh hp bwh e s ≢ (ok tt, t)
  remake_wh-ne-ok false bwh e s t h = ground arith
  remake_wh-ne-ok true bwh e s t h = ground arith

  inode-ok :
      (r : Result (Unit {0})) (wh : Bool) (bwh : Bindex) (s t : Op sys.World)
      → elim r [
        | ok _ ↦ (ok tt, instantiate sys cpup_dirs s)
        | err e ↦ remake_wh sys cpup_dirs wh hp bwh e s
      ]
        ≡ (ok tt, t)
      → t ≡ instantiate sys cpup_dirs s
  inode-ok (ok x) wh bwh s t h = sym (ok-pair tt tt _ t h).1
  inode-ok (err e) wh bwh s t h = absurd (remake_wh-ne-ok wh bwh e s t h)

  epilog-ok :
      (wh : Bool) (s t : Op sys.World)
      → epilog sys cpup_dirs new_inode wh hp s ≡ (ok tt, t)
      → (u : Op sys.World) × ((if wh then unlink_wh_dentry sys hp else pure tt) s ≡ (ok tt, u))
        × (t ≡ instantiate sys cpup_dirs u)
  unfolding epilog
  epilog-ok wh s t h =
      let (x, u, e, f) =
        and_then-ok ((if wh then unlink_wh_dentry sys hp else pure tt) s)
          (λ (_ : Unit {0}) (u : Op sys.World). elim new_inode [
            | ok _ ↦ (ok tt, instantiate sys cpup_dirs u)
            | err e ↦ remake_wh sys cpup_dirs wh hp s.dentry.bwh e u
          ])
          tt t h in
      (u, e, inode-ok new_inode wh s.dentry.bwh u t f)

  remove_new-ok :
      (r : Result (Unit {0})) (s t : Op sys.World)
      → remove_new sys cpup_dirs new_inode hp r s ≡ (ok tt, t)
      → (r ≡ ok tt) × (s ≡ t)
  remove_new-ok (ok tt) s t h = (refl, (ok-pair tt tt s t h).1)
  remove_new-ok (err e) s t h = absurd (ground arith)

  out-ok :
      (r : Result (Unit {0})) (s t : Op sys.World)
      → out sys cpup_dirs new_inode r s ≡ (ok tt, t)
      → (r ≡ ok tt) × (s ≡ t)
  out-ok (ok tt) s t h = (refl, (ok-pair tt tt s t h).1)
  out-ok (err e) s t h = absurd (cc)

  -- After the branch and the whiteout were found.
  create_at-IsCreated :
      (vfs : IsVfs sys) (wh_name : Name) (k fmt : ℕ) (wh : Bool) (s t : Op sys.World)
      → alloc_whname sys.name ≡ ok wh_name
      → create_at sys cpup_dirs new_inode fmt (k, hp, wh) s ≡ (ok tt, t)
      → IsCreated sys hp wh_name wh fmt s t
  create_at-IsCreated vfs wh_name k fmt wh s t named h =
      let (x, u, e, f) =
        and_then-ok (call sys (λ w. sys.create w hp.id sys.name fmt) s)
          (λ (_ : Unit {0}). after_create sys cpup_dirs new_inode (k, hp, wh)) tt t h in
      let end = epilog sys cpup_dirs new_inode wh hp u in
      let (p, q) = remove_new-ok end.0 end.1 t f in
      let (v, l, m) = epilog-ok wh u end.1 (ap (λ r. (r, end.1)) p) in
      let c =
        unwhited sys vfs wh_name named hp fmt s wh u v (made sys vfs wh_name named hp fmt s u e)
          l in
      subst (λ (y : Op sys.World). IsCreated sys hp wh_name wh fmt s y) (sym m ∙ q)
        (record { parent = c.parent; there = c.there; no_wh = c.no_wh; others = c.others })

  pub add_simple-IsCreated :
      (vfs : IsVfs sys) (wh_name : Name) (k fmt : ℕ) (s s' : Op sys.World)
      → alloc_whname sys.name ≡ ok wh_name
      → s.dentry.bstart ≡ some k
      → wr_branch sys cpup_dirs none none s ≡ ok k
      → h_dptr_i s.parent k ≡ some hp
      → add_simple sys cpup_dirs new_inode fmt s ≡ (ok tt, s')
      → IsCreated sys hp wh_name (eq_bindex (some k) s.dentry.bwh) fmt s s'
  unfolding add_simple
  add_simple-IsCreated vfs wh_name k fmt s s' named first target at h =
      let all =
        and_then (lkup_wh_for sys cpup_dirs none s) (create_at sys cpup_dirs new_inode fmt) in
      let (p, q) = out-ok all.0 all.1 s' h in
      let (r, t, e, f) =
        and_then-ok (lkup_wh_for sys cpup_dirs none s) (create_at sys cpup_dirs new_inode fmt) tt
          all.1 (ap (λ x. (x, all.1)) p) in
      let (l, m) = lkup_wh_for-ok sys cpup_dirs s k first target hp r t at e in
      create_at-IsCreated vfs wh_name k fmt (eq_bindex (some k) s.dentry.bwh) s s' named (
        subst₂
          (λ (a : ℕ × HDentry × Bool) (b : Op sys.World).
            create_at sys cpup_dirs new_inode fmt a b ≡ (ok tt, s'))
          l m (f ∙ ap (λ x. (ok tt, x)) q))
