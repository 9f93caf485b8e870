-- ===== src/Whout/Change/Effect.antt =====
-- What making a whiteout, and removing it, does to the branches and to the dentry.
use aufs.Common.{
  ℕ, ◌+◌, ◌≡◌, refl, sym, ap, ◌∙◌, ◌==◌, true, false, ◌&&◌, Option, some, none, Result, ok, err,
  Errno, inl, inr, arith, Bool-cases,
}
use aufs.Lower.{HDentry, s_ifreg, is_positive}
use aufs.Dinfo.{set_dbwh}
use aufs.Whout.{Name, alloc_whname, eq_name}
use aufs.Whout.Names.{eq_name_iff}
use aufs.Whout.Change.{
  has_base, is_emlink, create_wh_file, after_link, made_or_found, lkup_wh, link_or_create_wh,
  simple_create_wh, unlink_wh_dentry,
}
use aufs.Vfs.Invert.{and_then-ok}
use aufs.Vfs.{Op, System, IsVfs, Makes, and_then, call, shown, View, view, put}

-- What a call that makes a file returned, and how the branches look then.
pub record Made (sys : System) (p : ℕ) (n : Name) (s : Op sys.World)
    (r : Result (Unit {0}) × Op sys.World) : Type 0 where
  pub kept : r.1 ≡ record s { world = r.1.world; reinits = r.1.reinits }
  pub made :
      r.0 ≡ ok tt
      → (id : ℕ) × ((q : ℕ) (m : Name)
          → view sys r.1.world q m ≡ put (view sys s.world) p n (some (id, s_ifreg)) q m)
  pub failed :
      (e : Errno) → r.0 ≡ err e → (q : ℕ) (m : Name) → view sys r.1.world q m ≡ view sys s.world q m

put-same :
    (v v' : View) (p : ℕ) (n : Name) (x : Option (ℕ × ℕ)) (q : ℕ) (m : Name)
    → v q m ≡ v' q m
    → put v p n x q m ≡ put v' p n x q m
put-same v v' p n x q m e = rw e refl

module _ (sys : System) (vfs : IsVfs sys) where
  Makes-Made :
      (f : sys.World → Result (Unit {0}) × sys.World) (p : ℕ) (n : Name) (s : Op sys.World)
      → Makes sys f p n s_ifreg s.world
      → Made sys p n s (call sys f s)
  Makes-Made f p n s (good, bad) = record { kept = refl; made = good; failed = bad }

  -- A second attempt after a first one that failed.
  Made-retry :
      (p : ℕ) (n : Name) (s t : Op sys.World) (r : Result (Unit {0}) × Op sys.World)
      → t ≡ record s { world = t.world; reinits = t.reinits }
      → ((q : ℕ) (m : Name) → view sys t.world q m ≡ view sys s.world q m)
      → Made sys p n t r
      → Made sys p n s r
  Made-retry p n s t r e same m = record {
    kept =
        m.kept ∙ ap (λ (u : Op sys.World). record u { world = r.1.world; reinits = r.1.reinits }) e;
    made = λ h.
        let (id, new) = m.made h in
        (id, λ q k. new q k ∙ put-same (view sys t.world) (view sys s.world) p n _ q k (same q k));
    failed = λ e h q k. m.failed e h q k ∙ same q k;
  }

  create_wh_file-Made :
      (hp : HDentry) (n : Name) (s : Op sys.World) → Made sys hp.id n s (create_wh_file sys hp n s)
  create_wh_file-Made hp n s =
      Makes-Made (λ w. sys.create w hp.id n s_ifreg) hp.id n s (vfs.creates hp.id n s_ifreg s.world)

  -- After a link that was tried on `s`.
  module _ (b : ℕ) (hp : HDentry) (n : Name) (s : Op sys.World) where
    abbrev linked : Op sys.World
    linked = (call sys (λ w. sys.link w b hp.id n) s).1

    link-Made : Made sys hp.id n s (call sys (λ w. sys.link w b hp.id n) s)
    link-Made = Makes-Made (λ w. sys.link w b hp.id n) hp.id n s (vfs.links b hp.id n s.world)

    after_link-Made :
        (r : Result (Unit {0}))
        → (sys.link s.world b hp.id n).0 ≡ r
        → Made sys hp.id n s (after_link sys hp n r linked)
    after_link-Made (ok tt) e = record {
      kept = refl;
      made = λ h. link-Made.made e;
      failed = λ x h. absurd (cc);
    }
    after_link-Made (err x) e = elim (Bool-cases (is_emlink x)) [
      | inl full ↦ rw full (
          Made-retry hp.id n s (record linked { reinits = s.reinits + 1 }) _ refl
            (link-Made.failed x e)
            (create_wh_file-Made hp n (record linked { reinits = s.reinits + 1 })))
      | inr other ↦
          rw other
            (record { kept = refl; made = λ h. absurd (cc); failed = λ y h. link-Made.failed x e })
    ]

  -- A whiteout that is made is a regular file; where it is not made, the branches show what they did.
  pub link_or_create_wh-Made :
      (b : ℕ) (hp : HDentry) (n : Name) (s : Op sys.World)
      → Made sys hp.id n s (link_or_create_wh sys b hp n s)
  unfolding link_or_create_wh
  link_or_create_wh-Made b hp n s = elim (Bool-cases (has_base sys b)) [
    | inl base ↦ rw base (after_link-Made b hp n s _ refl)
    | inr no_base ↦ rw no_base (create_wh_file-Made hp n s)
  ]

-- What making the whiteout of the name returned: on success it is there, and nothing else changed
-- on the branches; without success nothing did.
pub record Whited (sys : System) (hp : HDentry) (wh_name : Name) (s : Op sys.World)
    (r : Result (Unit {0}) × Op sys.World) : Type 0 where
  pub kept : r.1 ≡ record s {
    world = r.1.world;
    reinits = r.1.reinits;
    dentry = set_dbwh s.dentry r.1.dentry.bwh;
  }
  pub there : r.0 ≡ ok tt → (x : ℕ × ℕ) × (view sys r.1.world hp.id wh_name ≡ ok (some x))
  pub others :
      (q : ℕ) (m : Name)
      → (q == hp.id && eq_name m wh_name) ≡ false
      → view sys r.1.world q m ≡ view sys s.world q m
  pub failed :
      (e : Errno)
      → r.0 ≡ err e
      → ((q : ℕ) (m : Name) → view sys r.1.world q m ≡ view sys s.world q m)
        × (r.1.dentry ≡ s.dentry)

pub eq_name_refl : (n : Name) → eq_name n n ≡ true
eq_name_refl n = (eq_name_iff n n).1 refl

module _ (sys : System) (vfs : IsVfs sys) (b : ℕ) (hp : HDentry) (wh_name : Name)
    (s : Op sys.World) where
  -- The whiteout is made, and the mark set.
  Made-Whited :
      (r : Result (Unit {0}) × Op sys.World)
      → Made sys hp.id wh_name s r
      → Whited sys hp wh_name s
          (and_then r (λ _ t. (ok tt, record t { dentry = set_dbwh t.dentry (some b) })))
  Made-Whited (ok tt, t) m =
      let (id, new) = m.made refl in
      record {
        kept = ap (λ (u : Op sys.World). record u { dentry = set_dbwh u.dentry (some b) }) m.kept;
        there = λ h. ((id, s_ifreg), new hp.id wh_name ∙ ground (arith, eq_name_refl wh_name));
        others = λ q n h. new q n ∙ rw h refl;
        failed = λ e h. absurd (cc);
      }
  Made-Whited (err e, t) m = record {
    kept =
        m.kept
        ∙ ap (λ x. record s { world = t.world; reinits = t.reinits; dentry = set_dbwh s.dentry x })
            (sym (ap (λ (u : Op sys.World). u.dentry.bwh) m.kept));
    there = λ h. absurd (cc);
    others = λ q n h. m.failed e refl q n;
    failed = λ x h. (m.failed e refl, ap (λ (u : Op sys.World). u.dentry) m.kept);
  }

  found_there :
      (d : HDentry)
      → sys.lookup s.world hp.id wh_name ≡ ok d
      → is_positive (some d) ≡ true
      → (x : ℕ × ℕ) × (view sys s.world hp.id wh_name ≡ ok (some x))
  found_there d l found = rw l (
      elim d.inode
          as (λ o.
            elim o [ none ↦ false | some _ ↦ true ] ≡ true
            → (x : ℕ × ℕ) × (shown (ok (record d { inode = o })) ≡ ok (some x))) [
              | none ↦ λ h. absurd (cc)
              | some i ↦ λ h. ((d.id, i.fmt), refl)
            ]
        found)

  lkup_wh-eq :
      alloc_whname sys.name ≡ ok wh_name
      → lkup_wh sys hp sys.name s ≡ (sys.lookup s.world hp.id wh_name, s)
  unfolding lkup_wh
  lkup_wh-eq a = rw a refl

  after_lookup-Whited :
      (r : Result HDentry)
      → sys.lookup s.world hp.id wh_name ≡ r
      → alloc_whname sys.name ≡ ok wh_name
      → Whited sys hp wh_name s (and_then (r, s) (made_or_found sys b hp))
  after_lookup-Whited (err e) l a = record {
    kept = refl;
    there = λ h. absurd (cc);
    others = λ q n h. refl;
    failed = λ y h. ((λ q n. refl), refl);
  }
  after_lookup-Whited (ok d) l a = elim (Bool-cases (is_positive (some d))) [
    | inl found ↦
        rw (found, and_then)
          (record {
            kept = refl;
            there = λ h. found_there d l found;
            others = λ q n h. refl;
            failed = λ y h. absurd (cc);
          })
    | inr free ↦ rw (free, a) (Made-Whited _ (link_or_create_wh-Made sys vfs b hp wh_name s))
  ]

  -- `simple_create_wh`.
  pub simple_create_wh-Whited :
      alloc_whname sys.name ≡ ok wh_name → Whited sys hp wh_name s (simple_create_wh sys b hp s)
  unfolding simple_create_wh
  simple_create_wh-Whited a = rw (lkup_wh-eq a) (after_lookup-Whited _ refl a)

module _ (sys : System) (wh_name : Name) (named : alloc_whname sys.name ≡ ok wh_name) (hp : HDentry)
    (s : Op sys.World) where
  pub unlink_wh_dentry-eq :
      unlink_wh_dentry sys hp s
      ≡ and_then
          (call sys (λ w. sys.unlink w hp.id wh_name) s)
          (λ _ t. (ok tt, record t { dentry = set_dbwh t.dentry none }))
  unfolding unlink_wh_dentry
  unlink_wh_dentry-eq = rw named refl

  -- A whiteout that was removed is gone, and the other entries stay.
  pub unlink_wh_dentry-ok :
      (vfs : IsVfs sys) (t : Op sys.World)
      → unlink_wh_dentry sys hp s ≡ (ok tt, t)
      → (t.parent ≡ s.parent)
        × ((q : ℕ) (m : Name)
            → view sys t.world q m ≡ put (view sys s.world) hp.id wh_name none q m)
  unlink_wh_dentry-ok vfs t h =
      let (x, u, e, f) =
        and_then-ok (call sys (λ w. sys.unlink w hp.id wh_name) s)
          (λ (_ : Unit {0}) (t : Op sys.World).
            (ok tt, record t { dentry = set_dbwh t.dentry none }))
          tt t (sym unlink_wh_dentry-eq ∙ h) in
      let done = ap (λ (r : Result (Unit {0}) × Op sys.World). r.0) e in
      let after = ap (λ (r : Result (Unit {0}) × Op sys.World). r.1) e in
      let last = ap (λ (r : Result (Unit {0}) × Op sys.World). r.1) f in
      (
        ap (λ (y : Op sys.World). y.parent) (sym last)
            ∙ ap (λ (y : Op sys.World). y.parent) (sym after),
        λ q m.
            ap (λ (y : Op sys.World). view sys y.world q m) (sym last)
            ∙ ap (λ (y : Op sys.World). view sys y.world q m) (sym after)
            ∙ (vfs.unlinks hp.id wh_name s.world).0 done q m,
      )
