-- ===== src/Remove/Steps.antt =====
-- What an unlink that succeeded has done, step by step.
use aufs.Common.{
  ℕ, ◌+◌, ◌-◌, ◌≡◌, ◌≢◌, Bindex, refl, sym, ap, ap₂, subst, subst₂, ◌∙◌, ◌==◌, if◌then◌else◌, Bool,
  true, false, some, none, Result, ok, err, Errno, from_branch, Bool-cases, inl, inr, arith,
}
use aufs.Lower.{HDentry}
use aufs.Dinfo.{Dinfo, h_dptr_i}
use aufs.Whout.Change.{simple_create_wh}
use aufs.Lookup.{lkup_dentry}
use aufs.Remove.{
  reverted, remove_entry, epilog, make_wh, unlink_at, finish_unlink, after_below, wr_target,
  need_wh_at, exists_below, wr_dir_need_wh, create_wh, do_revert, aufs_unlink,
}
use aufs.Vfs.{Op, Run, System, and_then, throw, pure, lkup_in, hidden_parent, ◌>>◌}
use aufs.Vfs.Invert.{ok-pair, dentry_only, and_then-ok, hidden_parent-ok}

-- The lookup below, for a name that is not a directory's.
module _ (sys : System) (s : Op sys.World) (b : ℕ) where
  abbrev pub below_lookup : Result ℕ × Dinfo
  below_lookup = lkup_dentry (lkup_in sys s.world) sys.table s.parent sys.name s.dentry (b + 1) 0

module _ (sys : System) (cpup_dirs : ℕ → Run sys.World (Unit {0})) where
  -- Whether a whiteout is needed, and where: on the first branch of the dentry, or above it with
  -- the parent directory copied up.
  pub data Decided (s : Op sys.World) : Bool → ℕ → Op sys.World → Type 0 where
    here :
        {need : Bool} {b : ℕ} {t : Op sys.World}
        → (b == from_branch s.dentry.bstart) ≡ true
        → t ≡ record s { dentry = t.dentry }
        → (need ≡ false → (below_lookup sys s b).0 ≡ ok 0)
        → Decided s need b t
    higher :
        {need : Bool} {b : ℕ} {t : Op sys.World}
        → (b == from_branch s.dentry.bstart) ≡ false
        → need ≡ true
        → cpup_dirs b s ≡ (ok tt, t)
        → Decided s need b t

  after_below-ok :
      (s : Op sys.World) (r : Result ℕ) (d : Dinfo) (need : Bool) (t : Op sys.World)
      → after_below sys cpup_dirs false s r d ≡ (ok need, t)
      → (t ≡ record s { dentry = t.dentry }) × (need ≡ false → r ≡ ok 0)
  after_below-ok s (err e) d need t h = absurd (ground arith)
  after_below-ok s (ok n) d need t h =
      (dentry_only s t _ (sym (ap (λ (x : Result Bool × Op sys.World). x.1) h)), ground arith)

  exists_below-ok :
      (s : Op sys.World) (b : ℕ) (need : Bool) (t : Op sys.World)
      → exists_below sys cpup_dirs false b s ≡ (ok need, t)
      → (t ≡ record s { dentry = t.dentry }) × (need ≡ false → (below_lookup sys s b).0 ≡ ok 0)
  unfolding exists_below
  exists_below-ok s b need t h =
      after_below-ok s (below_lookup sys s b).0 (below_lookup sys s b).1 need t h

  need_wh_at-Decided :
      (s : Op sys.World) (b' : ℕ) (need : Bool) (b : ℕ) (t : Op sys.World)
      → wr_target sys cpup_dirs none s ≡ ok b'
      → need_wh_at sys cpup_dirs false b' s ≡ (ok (need, b), t)
      → Decided s need b t × (wr_target sys cpup_dirs none s ≡ ok b)
  need_wh_at-Decided s b' need b t target h =
      elim (Bool-cases (b' == from_branch s.dentry.bstart)) [
        | inl same ↦
            let (n, u, e, f) =
              and_then-ok (exists_below sys cpup_dirs false b' s) (λ (n : Bool). pure (n, b'))
                (need, b) t (rw (same, need_wh_at) at h) in
            let (p, q) = ok-pair (n, b') (need, b) u t f in
            let en : n ≡ need = ap (λ (x : Bool × ℕ). x.0) p in
            let eb : b' ≡ b = ap (λ (x : Bool × ℕ). x.1) p in
            let (k, z) = exists_below-ok s b need t (
              subst₂
                (λ (x : ℕ) (y : Result Bool × Op sys.World).
                  exists_below sys cpup_dirs false x s ≡ y)
                eb (ap₂ (λ x y. (ok x, y)) en q) e) in
            (here (rw (sym eb) same) k z, target ∙ ap ok eb)
        | inr other ↦
            let (n, u, e, f) =
              and_then-ok (cpup_dirs b' s) (λ (n : Unit {0}). pure (true, b')) (need, b) t
                (rw (other, need_wh_at) at h) in
            let (p, q) = ok-pair (true, b') (need, b) u t f in
            let eb : b' ≡ b = ap (λ (x : Bool × ℕ). x.1) p in
            (
              higher (rw (sym eb) other) (sym (ap (λ (x : Bool × ℕ). x.0) p))
                  (subst₂ (λ (x : ℕ) (y : Op sys.World). cpup_dirs x s ≡ (ok tt, y)) eb q e),
              target ∙ ap ok eb,
            )
      ]

  decided :
      (s : Op sys.World) (r : Result ℕ) (need : Bool) (b : ℕ) (t : Op sys.World)
      → wr_target sys cpup_dirs none s ≡ r
      → and_then (r, s) (need_wh_at sys cpup_dirs false) ≡ (ok (need, b), t)
      → Decided s need b t × (wr_target sys cpup_dirs none s ≡ ok b)
  decided s (err e) need b t target h = absurd (cc)
  decided s (ok b') need b t target h = need_wh_at-Decided s b' need b t target h

  pub wr_dir_need_wh-Decided :
      (s : Op sys.World) (need : Bool) (b : ℕ) (t : Op sys.World)
      → wr_dir_need_wh sys cpup_dirs false none s ≡ (ok (need, b), t)
      → Decided s need b t × (wr_target sys cpup_dirs none s ≡ ok b)
  unfolding wr_dir_need_wh
  wr_dir_need_wh-Decided s need b t h = decided s _ need b t refl h

  -- The steps of an unlink that succeeded.
  pub record Unlinked (s s' : Op sys.World) : Type 0 where
    pub need : Bool
    pub b : ℕ
    pub hp : HDentry
    pub start : Op sys.World
    pub middle : Op sys.World
    pub last : Op sys.World
    pub decided : Decided s need b start
    pub target : wr_target sys cpup_dirs none s ≡ ok b
    pub parent : h_dptr_i start.parent b ≡ some hp
    pub made : (if need then simple_create_wh sys b hp else pure tt) start ≡ (ok tt, middle)
    pub removed :
        remove_entry sys cpup_dirs (from_branch s.dentry.bstart) b hp middle ≡ (ok tt, last)
    pub finished : s' ≡ epilog sys cpup_dirs (record last { nlink = last.nlink - 1 })

  make_wh-ok :
      (need : Bool) (b : ℕ) (s t : Op sys.World) (r : Bool × ℕ × HDentry)
      → make_wh sys cpup_dirs (need, b) s ≡ (ok r, t)
      → (r.0 ≡ need)
        × (r.1 ≡ b)
        × (h_dptr_i s.parent b ≡ some r.2)
        × ((if need then simple_create_wh sys b r.2 else pure tt) s ≡ (ok tt, t))
  make_wh-ok need b s t r h =
      let (hp, u, e, f) =
        and_then-ok (hidden_parent sys b s)
          (λ (hp : HDentry).
            (if need then simple_create_wh sys b hp else pure tt) >> pure (need, b, hp))
          r t h in
      let (p, same) = hidden_parent-ok sys b s hp u e in
      let (x, v, k, z) =
        and_then-ok ((if need then simple_create_wh sys b hp else pure tt) u)
          (λ (y : Unit {0}). pure (need, b, hp)) r t f in
      let (q, l) = ok-pair (need, b, hp) r v t z in
      (
        ap (λ (y : Bool × ℕ × HDentry). y.0) (sym q),
        ap (λ (y : Bool × ℕ × HDentry). y.1) (sym q),
        p ∙ ap (λ (y : Bool × ℕ × HDentry). some y.2) q,
        subst
            (λ (y : Bool × ℕ × HDentry).
              (if need then simple_create_wh sys b y.2 else pure tt) s ≡ (ok tt, t))
            q
            (subst₂
              (λ (y y' : Op sys.World).
                (if need then simple_create_wh sys b hp else pure tt) y ≡ (ok tt, y'))
              same l k),
      )

  reverted-ne-ok :
      (wh : Bool) (hp : HDentry) (bwh : Bindex) (e : Errno) (t u : Op sys.World)
      → reverted sys cpup_dirs wh hp bwh (throw e) t ≢ (ok tt, u)
  unfolding do_revert
  reverted-ne-ok false hp bwh e t u h = ground arith
  reverted-ne-ok true hp bwh e t u h = ground arith

  finish_unlink-ok :
      (wh : Bool) (hp : HDentry) (bwh : Bindex) (r : Result (Unit {0})) (t s' : Op sys.World)
      → finish_unlink sys cpup_dirs wh hp bwh r t ≡ (ok tt, s')
      → (r ≡ ok tt) × (s' ≡ epilog sys cpup_dirs (record t { nlink = t.nlink - 1 }))
  finish_unlink-ok wh hp bwh (ok tt) t s' h = (refl, sym (ok-pair tt tt _ s' h).1)
  finish_unlink-ok wh hp bwh (err e) t s' h = absurd (reverted-ne-ok wh hp bwh e t s' h)

  pub aufs_unlink-Unlinked :
      (s s' : Op sys.World) → aufs_unlink sys cpup_dirs true s ≡ (ok tt, s') → Unlinked s s'
  unfolding aufs_unlink
  aufs_unlink-Unlinked s s' h =
      let bstart = from_branch s.dentry.bstart in
      let (r, t, e, f) =
        and_then-ok (create_wh sys cpup_dirs false none s)
          (unlink_at sys cpup_dirs bstart s.dentry.bwh) tt s' h in
      let (d, u, k, l) =
        and_then-ok (wr_dir_need_wh sys cpup_dirs false none s) (make_wh sys cpup_dirs) r t e in
      let (decided, target) = wr_dir_need_wh-Decided s d.0 d.1 u k in
      let (wh, b, parent, made) = make_wh-ok d.0 d.1 u t r l in
      let last = (remove_entry sys cpup_dirs bstart r.1 r.2 t).1 in
      let (done, finished) =
        finish_unlink-ok r.0 r.2 s.dentry.bwh (remove_entry sys cpup_dirs bstart r.1 r.2 t).0 last
          s' f in
      record {
        need = d.0;
        b = d.1;
        hp = r.2;
        start = u;
        middle = t;
        last = last;
        decided = decided;
        target = target;
        parent = parent;
        made = made;
        removed =
            subst (λ (y : ℕ). remove_entry sys cpup_dirs bstart y r.2 t ≡ (ok tt, last)) b
              (ap (λ (x : Result (Unit {0})). (x, last)) done);
        finished = finished;
      }
