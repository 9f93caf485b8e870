-- ===== src/Remove/Unlink.antt =====
-- `aufs_unlink` against the lookup: a name that was unlinked is not found again.
use aufs.Common.{
  ℕ, ◌+◌, ◌≤◌, ◌<◌, ◌≡◌, sym, ap, subst, ◌∙◌, ◌==◌, Bool, true, false, List, [], length, ok,
  from_branch, count_to, Bool-cases, not_both, inl, inr, arith,
}
use aufs.Dinfo.{Dinfo, h_dptr_i, dbtaildir}
use aufs.Whout.{Name, alloc_whname, has_wh_pfx}
use aufs.Lookup.{lkup_dentry}
use aufs.Lookup.Stack.{Layer, visible}
use aufs.Lookup.Rounds.{layer_of}
use aufs.Lookup.Refine.{IsClear, lkup_dentry-Outcome}
use aufs.Remove.{aufs_unlink}
use aufs.Remove.Final.{Changed, made-Changed, removed-Changed}
use aufs.Remove.Gone.{IsFound, IsCopied, CopiesUp, WritesAreSeen, target_rw, gone-need, gone-here}
use aufs.Remove.Steps.{Decided, here, higher, Unlinked, aufs_unlink-Unlinked, below_lookup}
use aufs.Vfs.{Op, Run, System, IsVfs, lkup_in, view}
use aufs.Vfs.Look.{env_of}

module _ (sys : System) (vfs : IsVfs sys) (cpup_dirs : ℕ → Run sys.World (Unit {0}))
    (seen : WritesAreSeen sys.table) (wh_name : Name) (named : alloc_whname sys.name ≡ ok wh_name)
    (plain : has_wh_pfx sys.name ≡ false) (s : Op sys.World) (k : ℕ)
    (found : IsFound sys s wh_name k) (copies : CopiesUp sys cpup_dirs s k) where
  from-k : from_branch s.dentry.bstart ≡ k
  from-k = ap from_branch found.first

  -- With nothing copied up, the parent directories are those of before.
  IsCopied-here :
      (b : ℕ) (t : Op sys.World) → b ≡ k → t ≡ record s { dentry = t.dentry } → IsCopied sys b s t
  IsCopied-here b t at same =
      let (hp, e, d) = found.dir in
      let parent : t.parent ≡ s.parent = ap (λ (x : Op sys.World). x.parent) same in
      record {
        dir = (hp, ap (λ p. h_dptr_i p b) parent ∙ ap (h_dptr_i s.parent) at ∙ e, d);
        slots = λ j ne. ap (λ p. h_dptr_i p j) parent;
        views = λ j hq ne f m. ap (λ (x : Op sys.World). view sys x.world hq.id m) same;
        apart = λ j hp hq ne f g.
            found.apart j b hq hp ne (ap (λ p. h_dptr_i p j) (sym parent) ∙ g)
              (ap (λ p. h_dptr_i p b) (sym parent) ∙ f);
      }

  IsCopied-of :
      (need : Bool) (b : ℕ) (t : Op sys.World)
      → b ≤ k
      → Decided sys cpup_dirs s need b t
      → IsCopied sys b s t
  IsCopied-of need b t h (here same kept below) = IsCopied-here b t (ground (arith, from-k)) kept
  IsCopied-of need b t h (higher other must done) = copies b t (ground (arith, from-k)) done

  none_needed :
      (need : Bool) (b : ℕ) (t : Op sys.World)
      → Decided sys cpup_dirs s need b t
      → need ≡ false
      → ((b == from_branch s.dentry.bstart) ≡ true)
        × (t ≡ record s { dentry = t.dentry })
        × ((below_lookup sys s b).0 ≡ ok 0)
  none_needed need b t (here same kept below) h = (same, kept, below h)
  none_needed need b t (higher other must done) h = absurd (not_both must h)

  module _ (s' : Op sys.World) (steps : Unlinked sys cpup_dirs s s') where
    changed :
        Changed sys steps.hp wh_name steps.need
          (steps.b == from_branch s.dentry.bstart)
          steps.start
          s'
    changed =
        let c =
          removed-Changed sys vfs wh_name named steps.hp cpup_dirs steps.need
            (from_branch s.dentry.bstart) steps.b steps.start steps.middle steps.last
            (made-Changed sys vfs wh_name named steps.hp steps.need steps.b steps.start steps.middle
              steps.made)
            steps.removed in
        subst
          (λ (u : Op sys.World).
            Changed sys steps.hp wh_name steps.need (steps.b == from_branch s.dentry.bstart)
              steps.start u)
          (sym steps.finished)
          (record { parent = c.parent; there = c.there; removed = c.removed; others = c.others })

    module _ (layers : ℕ → Layer)
        (shows : (j : ℕ)
          → j < count_to (dbtaildir s'.parent)
          → layer_of (env_of sys s'.world s'.parent wh_name) j ≡ ok (layers j)) where
      vanishes : visible layers (count_to (dbtaildir s'.parent)) 0 0 ≡ []
      vanishes =
          let (below, writable) =
            target_rw sys wh_name named plain s k found steps.b cpup_dirs steps.target in
          let copied = IsCopied-of steps.need steps.b steps.start below steps.decided in
          elim (Bool-cases steps.need) [
            | inl needed ↦
                gone-need sys wh_name named plain s k found steps.b steps.hp steps.need _
                  steps.start s' seen below writable copied steps.parent changed layers _ shows
                  needed
            | inr not_needed ↦
                let (same, kept, nothing_below) =
                  none_needed steps.need steps.b steps.start steps.decided not_needed in
                let at : steps.b ≡ k = ground (arith, from-k) in
                gone-here sys wh_name named plain s k found steps.b steps.hp steps.need _
                  steps.start s' seen below writable copied steps.parent changed layers _ shows same
                  at kept (subst (λ b. (below_lookup sys s b).0 ≡ ok 0) at nothing_below)
                  (ap (λ p. count_to (dbtaildir p))
                    (changed.parent ∙ ap (λ (x : Op sys.World). x.parent) kept))
          ]

-- A name that was found on a branch and unlinked without an error is not found again: a lookup of it
-- that meets no error counts no branch. This needs that each branch which can be written is searched
-- for whiteouts, and that copying the parent up in this state, to a branch above the one of the name,
-- leaves what the other branches show.
pub aufs_unlink-gone :
    (sys : System) (vfs : IsVfs sys) (cpup_dirs : ℕ → Run sys.World (Unit {0}))
    (seen : WritesAreSeen sys.table) (wh_name : Name) (named : alloc_whname sys.name ≡ ok wh_name)
    (plain : has_wh_pfx sys.name ≡ false) (s s' : Op sys.World) (k : ℕ)
    (found : IsFound sys s wh_name k) (copies : CopiesUp sys cpup_dirs s k) (d : Dinfo)
    (layers : ℕ → Layer)
    → aufs_unlink sys cpup_dirs true s ≡ (ok tt, s')
    → IsClear d 0
    → count_to (dbtaildir s'.parent) ≤ length d.hdentry
    → ((j : ℕ)
        → j < count_to (dbtaildir s'.parent)
        → layer_of (env_of sys s'.world s'.parent wh_name) j ≡ ok (layers j))
    → (lkup_dentry (lkup_in sys s'.world) sys.table s'.parent sys.name d 0 0).0 ≡ ok 0
aufs_unlink-gone sys vfs cpup_dirs seen wh_name named plain s s' k found copies d layers h clear
      room shows =
    (lkup_dentry-Outcome (lkup_in sys s'.world) sys.table s'.parent sys.name wh_name d 0 0 layers
      plain named (omega arith) room clear (λ j p q. shows j q)).counted
    ∙ ap (λ m. ok (0 + length (visible layers m 0 0))) {y = count_to (dbtaildir s'.parent)}
        (omega arith)
    ∙ ap (λ (xs : List ℕ). ok (0 + length xs))
        (vanishes sys vfs cpup_dirs seen wh_name named plain s k found copies s'
          (aufs_unlink-Unlinked sys cpup_dirs s s' h) layers shows)
