-- ===== src/Remove/Final.antt =====
-- How the branches look after an unlink that succeeded.
use aufs.Common.{
  ℕ, ◌≡◌, refl, ap, subst, ◌∙◌, ◌==◌, if◌then◌else◌, Bool, true, false, ◌&&◌, ◌||◌, some, none,
  Result, ok, Bool-cases, inl, inr, arith,
}
use aufs.Lower.{HDentry}
use aufs.Whout.{Name, alloc_whname, eq_name}
use aufs.Whout.Change.{simple_create_wh}
use aufs.Whout.Change.Effect.{Whited, simple_create_wh-Whited, eq_name_refl}
use aufs.Remove.{remove_entry}
use aufs.Vfs.{Op, Run, System, IsVfs, view, pure, call}
use aufs.Vfs.Invert.{ok-pair}
use aufs.Vfs.Names.{whname-ne}

-- A change of the whiteout and of the entry in the directory `hp`, and nowhere else.
pub record Changed (sys : System) (hp : HDentry) (wh_name : Name) (need gone : Bool)
    (s t : Op sys.World) : Type 0 where
  pub parent : t.parent ≡ s.parent
  pub there : need ≡ true → (x : ℕ × ℕ) × (view sys t.world hp.id wh_name ≡ ok (some x))
  pub removed : gone ≡ true → view sys t.world hp.id sys.name ≡ ok none
  pub others :
      (q : ℕ) (m : Name)
      → (q == hp.id && (eq_name m wh_name || eq_name m sys.name)) ≡ false
      → view sys t.world q m ≡ view sys s.world q m

module _ (sys : System) (vfs : IsVfs sys) (wh_name : Name)
    (named : alloc_whname sys.name ≡ ok wh_name) (hp : HDentry) where
  pub made-Changed :
      (need : Bool) (b : ℕ) (s t : Op sys.World)
      → (if need then simple_create_wh sys b hp else pure tt) s ≡ (ok tt, t)
      → Changed sys hp wh_name need false s t
  made-Changed false b s t h =
      subst (λ (u : Op sys.World). Changed sys hp wh_name false false s u) (ok-pair tt tt s t h).1
        (record {
          parent = refl;
          there = λ e. absurd (cc);
          removed = λ e. absurd (cc);
          others = λ q m e. refl;
        })
  made-Changed true b s t h =
      let w =
        subst (λ (r : Result (Unit {0}) × Op sys.World). Whited sys hp wh_name s r) h
          (simple_create_wh-Whited sys vfs b hp wh_name s named) in
      record {
        parent = ap (λ (u : Op sys.World). u.parent) w.kept;
        there = λ e. w.there refl;
        removed = λ e. absurd (cc);
        others = λ q m e. w.others q m (ground arith);
      }

  entry-Changed :
      (need : Bool) (s t u : Op sys.World)
      → Changed sys hp wh_name need false s t
      → call sys (λ w. sys.unlink w hp.id sys.name) t ≡ (ok tt, u)
      → Changed sys hp wh_name need true s u
  entry-Changed need s t u c h =
      let done = ap (λ (r : Result (Unit {0}) × Op sys.World). r.0) h in
      let after = ap (λ (r : Result (Unit {0}) × Op sys.World). r.1) h in
      subst (λ (y : Op sys.World). Changed sys hp wh_name need true s y) after
        (record {
          parent = c.parent;
          there = λ e.
              let (x, here) = c.there e in
              (
                x,
                (vfs.unlinks hp.id sys.name t.world).0 done hp.id wh_name
                    ∙ ground (arith, here, whname-ne sys.name wh_name named),
              );
          removed = λ e.
              (vfs.unlinks hp.id sys.name t.world).0 done hp.id sys.name
              ∙ ground (arith, eq_name_refl sys.name);
          others = λ q m e.
              (vfs.unlinks hp.id sys.name t.world).0 done q m ∙ ground (arith, c.others q m);
        })

  module _ (cpup_dirs : ℕ → Run sys.World (Unit {0})) where
    pub removed-Changed :
        (need : Bool) (bstart b : ℕ) (s t u : Op sys.World)
        → Changed sys hp wh_name need false s t
        → remove_entry sys cpup_dirs bstart b hp t ≡ (ok tt, u)
        → Changed sys hp wh_name need (b == bstart) s u
    removed-Changed need bstart b s t u c h = elim (Bool-cases (b == bstart)) [
      | inl same ↦ rw same (entry-Changed need s t u c (rw (same, remove_entry) at h))
      | inr other ↦ rw other (
          subst (λ (y : Op sys.World). Changed sys hp wh_name need false s y)
            (ok-pair tt tt t u (rw (other, remove_entry) at h)).1 c)
    ]
