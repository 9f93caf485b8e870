-- ===== src/Remove/Undone.antt =====
-- An unlink that fails leaves the branches as they were.
use aufs.Common.{
  ℕ, ◌≡◌, ◌≢◌, refl, sym, ap, subst, subst₂, ◌∙◌, ◌==◌, if◌then◌else◌, Bool, true, false, some,
  none, Result, ok, err, Errno, eio, Bindex, from_branch, Bool-cases, ◌&&◌, inl, inr, arith,
}
use aufs.Lower.{HDentry}
use aufs.Dinfo.{Dinfo, h_dptr_i}
use aufs.Whout.{Name, alloc_whname, eq_name}
use aufs.Whout.Names.{eq_name_iff}
use aufs.Whout.Change.{simple_create_wh}
use aufs.Whout.Change.Effect.{Whited, simple_create_wh-Whited, unlink_wh_dentry-eq}
use aufs.Remove.{
  after_below, exists_below, need_wh_at, wr_target, wr_dir_need_wh, make_wh, do_revert, reverted,
  finish_unlink, unlink_at, aufs_unlink,
}
use aufs.Vfs.Invert.{ok-injective, hidden_parent-found}
use aufs.Vfs.{Op, Run, System, IsVfs, View, view, put, and_then, pure, throw, call, ◌>>◌}

-- The branches, the link count and the dentry's place in the cache are what they were.
pub record IsIntact (sys : System) (s t : Op sys.World) : Type 0 where
  pub views : (q : ℕ) (m : Name) → view sys t.world q m ≡ view sys s.world q m
  pub nlink : t.nlink ≡ s.nlink
  pub hashed : t.hashed ≡ s.hashed

module _ (sys : System) (s : Op sys.World) where
  -- Where a call returned an error other than -EIO, everything is as it was.
  abbrev pub Undone : {A : Type 0} → Result A × Op sys.World → Type 0
  Undone r = (e : Errno) → r.0 ≡ err e → e ≢ eio → IsIntact sys s r.1

  and_then-Undone :
      {A B : Type 0} (r : Result A × Op sys.World) (next : A → Run sys.World B)
      → Undone r
      → ((a : A) (t : Op sys.World) → r ≡ (ok a, t) → Undone (next a t))
      → Undone (and_then r next)
  and_then-Undone (err e, t) next bad good = λ x h ne. bad x (ground arith) ne
  and_then-Undone (ok a, t) next bad good = good a t refl

module _ (sys : System) (vfs : IsVfs sys) (cpup_dirs : ℕ → Run sys.World (Unit {0}))
    (wh_name : Name) (named : alloc_whname sys.name ≡ ok wh_name) (s : Op sys.World) (k : ℕ)
    (first : s.dentry.bstart ≡ some k) (target : wr_target sys cpup_dirs none s ≡ ok k) where
  after_below-only :
      (r : Result ℕ) (d : Dinfo)
      → (after_below sys cpup_dirs false s r d).1
        ≡ record s { dentry = (after_below sys cpup_dirs false s r d).1.dentry }
  after_below-only (err e) d = refl
  after_below-only (ok n) d = refl

  wr_dir-eq :
      wr_dir_need_wh sys cpup_dirs false none s
      ≡ and_then (exists_below sys cpup_dirs false k s) (λ (n : Bool). pure (n, k))
  unfolding wr_dir_need_wh
  wr_dir-eq =
      let same : (k == from_branch s.dentry.bstart) ≡ true = ground arith in
      rw (target, same, need_wh_at) refl

  -- A result of the kind of `wr_dir_need_wh`, from a state in which the dentry alone differs.
  abbrev OnlyDentry : Result (Bool × ℕ) × Op sys.World → Type 0
  OnlyDentry r = (r.1 ≡ record s { dentry = r.1.dentry }) × ((a : Bool × ℕ) → r.0 ≡ ok a → a.1 ≡ k)

  with_branch :
      (r : Result Bool × Op sys.World)
      → r.1 ≡ record s { dentry = r.1.dentry }
      → OnlyDentry (and_then r (λ (n : Bool). pure (n, k)))
  with_branch (err e, t) only = (only, λ a h. absurd (cc))
  with_branch (ok n, t) only = (only, λ a h. ap (λ (x : Bool × ℕ). x.1) (sym (ok-injective _ a h)))

  -- To find out whether a whiteout is needed changes the dentry alone.
  wr_dir-only : OnlyDentry (wr_dir_need_wh sys cpup_dirs false none s)
  unfolding exists_below
  wr_dir-only = subst OnlyDentry (sym wr_dir-eq) (with_branch _ (after_below-only _ _))

  -- From a state with the same branches, link count and place in the cache.
  module _ (hp : HDentry) (absent : view sys s.world hp.id wh_name ≡ ok none) where
    -- The removal of a whiteout that was made brings the branches back.
    unmade :
        (v v' : View)
        → ((q : ℕ) (m : Name)
            → (q == hp.id && eq_name m wh_name) ≡ false
            → v q m ≡ view sys s.world q m)
        → ((q : ℕ) (m : Name) → v' q m ≡ put v hp.id wh_name none q m)
        → (q : ℕ) (m : Name) → v' q m ≡ view sys s.world q m
    unmade v v' same gone q m = elim (Bool-cases (q == hp.id && eq_name m wh_name)) [
      | inl at ↦
          let eq : q ≡ hp.id = ground arith in
          let em : m ≡ wh_name = (eq_name_iff m wh_name).0 (ground arith) in
          gone q m
          ∙ rw at (subst₂ (λ a b. ok none ≡ view sys s.world a b) (sym eq) (sym em) (sym absent))
      | inr other ↦ gone q m ∙ (rw other (same q m other))
    ]

    -- The entry stays, and no whiteout was made.
    plain-Undone :
        (t : Op sys.World) (bwh : Bindex) (e : Errno)
        → IsIntact sys s t
        → Undone sys s (reverted sys cpup_dirs false hp bwh (throw {A = Unit {0}} e) t)
    plain-Undone t bwh e intact = λ x h ne. intact

    abbrev SameButWh : Op sys.World → Type 0
    SameButWh t =
        ((q : ℕ) (m : Name)
          → (q == hp.id && eq_name m wh_name) ≡ false
          → view sys t.world q m ≡ view sys s.world q m)
        × (t.nlink ≡ s.nlink)
        × (t.hashed ≡ s.hashed)

    do_revert-Undone :
        (t : Op sys.World) (bwh : Bindex) (e : Errno) (r : Result (Unit {0}))
        → SameButWh t
        → (sys.unlink t.world hp.id wh_name).0 ≡ r
        → Undone sys s (reverted sys cpup_dirs true hp bwh (throw {A = Unit {0}} e) t)
    unfolding do_revert
    do_revert-Undone t bwh e (ok tt) (same, l, c) h =
        rw (unlink_wh_dentry-eq sys wh_name named hp t, h)
          (λ x k ne. record {
            views = unmade (view sys t.world) _ same ((vfs.unlinks hp.id wh_name t.world).0 h);
            nlink = l;
            hashed = c;
          })
    do_revert-Undone t bwh e (err x) same h =
        rw (unlink_wh_dentry-eq sys wh_name named hp t, h) (λ y k ne. absurd (ne (cc)))

    -- A whiteout was made, and is removed again.
    whited-Undone :
        (t : Op sys.World) (bwh : Bindex) (e : Errno)
        → SameButWh t
        → Undone sys s (reverted sys cpup_dirs true hp bwh (throw {A = Unit {0}} e) t)
    whited-Undone t bwh e same = do_revert-Undone t bwh e _ same refl

    entry-Undone :
        (need : Bool) (u : Op sys.World) (bwh : Bindex) (r : Result (Unit {0}))
        → (need ≡ false → IsIntact sys s u)
        → (need ≡ true → SameButWh u)
        → (sys.unlink u.world hp.id sys.name).0 ≡ r
        → Undone sys s (
            finish_unlink sys cpup_dirs need hp bwh r
              (call sys (λ w. sys.unlink w hp.id sys.name) u).1)
    entry-Undone need u bwh (ok tt) plain whited h = λ x k ne. absurd (cc)
    entry-Undone false u bwh (err e) plain whited h =
        let i = plain refl in
        plain-Undone (call sys (λ w. sys.unlink w hp.id sys.name) u).1 bwh e (record {
          views = λ q m. (vfs.unlinks hp.id sys.name u.world).1 e h q m ∙ i.views q m;
          nlink = i.nlink;
          hashed = i.hashed;
        })
    entry-Undone true u bwh (err e) plain whited h =
        let (same, l, c) = whited refl in
        whited-Undone (call sys (λ w. sys.unlink w hp.id sys.name) u).1 bwh e
          ((λ q m o. (vfs.unlinks hp.id sys.name u.world).1 e h q m ∙ same q m o), l, c)

    unlink_at-Undone :
        (need : Bool) (u : Op sys.World) (bwh : Bindex)
        → (need ≡ false → IsIntact sys s u)
        → (need ≡ true → SameButWh u)
        → Undone sys s (unlink_at sys cpup_dirs k bwh (need, k, hp) u)
    unlink_at-Undone need u bwh plain whited =
        let same : (k == k) ≡ true = ground arith in
        rw (same, unlink_at) (entry-Undone need u bwh _ plain whited refl)

    -- Making the whiteout, from a state that differs from the first one in the dentry.
    made-Whited :
        (d : Dinfo) (r : Result (Unit {0}) × Op sys.World)
        → Whited sys hp wh_name (record s { dentry = d }) r
        → Undone sys s r × (r.0 ≡ ok tt → SameButWh r.1)
    made-Whited d r w = (
      (λ e h ne. record {
        views = (w.failed e h).0;
        nlink = ap (λ (x : Op sys.World). x.nlink) w.kept;
        hashed = ap (λ (x : Op sys.World). x.hashed) w.kept;
      }),
      (λ h. (
        w.others,
        ap (λ (x : Op sys.World). x.nlink) w.kept,
        ap (λ (x : Op sys.World). x.hashed) w.kept,
      )),
    )

    module _ (at : h_dptr_i s.parent k ≡ some hp) (bwh : Bindex) where
      after_wh :
          (d : Dinfo) (r : Result (Unit {0}) × Op sys.World)
          → Whited sys hp wh_name (record s { dentry = d }) r
          → Undone sys s (
              and_then
                (and_then r (λ (x : Unit {0}). pure (true, k, hp)))
                (unlink_at sys cpup_dirs k bwh))
      after_wh d (err e, t) w = (made-Whited d (err e, t) w).0
      after_wh d (ok tt, t) w =
          unlink_at-Undone true t bwh (λ h. absurd (cc)) (λ h. (made-Whited d (ok tt, t) w).1 refl)

      from_locked :
          (d : Dinfo) (need : Bool)
          → Undone sys s (
              and_then
                (((if need then simple_create_wh sys k hp else pure tt) >> pure (need, k, hp))
                  (record s { dentry = d }))
                (unlink_at sys cpup_dirs k bwh))
      from_locked d false =
          unlink_at-Undone false (record s { dentry = d }) bwh
            (λ h. record { views = λ q m. refl; nlink = refl; hashed = refl }) (λ h. absurd (cc))
      from_locked d true =
          after_wh d _
            (simple_create_wh-Whited sys vfs k hp wh_name (record s { dentry = d }) named)

      from_make :
          (d : Dinfo) (need : Bool)
          → Undone sys s (
              and_then
                (make_wh sys cpup_dirs (need, k) (record s { dentry = d }))
                (unlink_at sys cpup_dirs k bwh))
      from_make d need =
          subst
            (λ (r : Result HDentry × Op sys.World). Undone sys s (
              and_then
                (and_then r (λ (h : HDentry).
                  (if need then simple_create_wh sys k h else pure tt) >> pure (need, k, h)))
                (unlink_at sys cpup_dirs k bwh)))
            (sym (hidden_parent-found sys k (record s { dentry = d }) hp at)) (from_locked d need)

      from_decision :
          (r : Result (Bool × ℕ) × Op sys.World)
          → OnlyDentry r
          → Undone sys s
              (and_then (and_then r (make_wh sys cpup_dirs)) (unlink_at sys cpup_dirs k bwh))
      from_decision (err e, t) (only, _) = λ x h ne. record {
        views = λ q m. ap (λ (u : Op sys.World). view sys u.world q m) only;
        nlink = ap (λ (u : Op sys.World). u.nlink) only;
        hashed = ap (λ (u : Op sys.World). u.hashed) only;
      }
      from_decision (ok (need, b), t) (only, branch) =
          subst₂
            (λ (c : ℕ) (u : Op sys.World).
              Undone sys s
                (and_then (make_wh sys cpup_dirs (need, c) u) (unlink_at sys cpup_dirs k bwh)))
            (sym (branch (need, b) refl)) (sym only) (from_make t.dentry need)

-- An unlink on the first branch of the dentry that returns an error other than -EIO leaves
-- what the branches show as it was, and so the link count and the dentry's place in the cache. A
-- whiteout that was made on the way is removed again. The name has no whiteout on the branch before.
pub aufs_unlink-Undone :
    (sys : System) (vfs : IsVfs sys) (cpup_dirs : ℕ → Run sys.World (Unit {0})) (wh_name : Name)
    (s : Op sys.World) (k : ℕ) (hp : HDentry)
    → alloc_whname sys.name ≡ ok wh_name
    → s.dentry.bstart ≡ some k
    → wr_target sys cpup_dirs none s ≡ ok k
    → h_dptr_i s.parent k ≡ some hp
    → view sys s.world hp.id wh_name ≡ ok none
    → Undone sys s (aufs_unlink sys cpup_dirs true s)
unfolding aufs_unlink
aufs_unlink-Undone sys vfs cpup_dirs wh_name s k hp named first target at absent =
    subst
      (λ (b : Bindex). Undone sys s (
        and_then (and_then (wr_dir_need_wh sys cpup_dirs false none s) (make_wh sys cpup_dirs))
          (unlink_at sys cpup_dirs (from_branch b) s.dentry.bwh)))
      (sym first)
      (from_decision sys vfs cpup_dirs wh_name named s k first target hp absent at s.dentry.bwh
        (wr_dir_need_wh sys cpup_dirs false none s)
        (wr_dir-only sys vfs cpup_dirs wh_name named s k first target))
