-- ===== src/Create/Shown.antt =====
-- After mknod, symlink or create the union shows the new entry.
use aufs.Common.{
  ℕ, ◌≤◌, ◌<◌, ◌≡◌, ◌≢◌, ◌⊎◌, sym, ap, subst, ◌∙◌, ◌==◌, Bool, true, false, some, none, List, [],
  ◌∷◌, length, Result, ok, count_to, eq_bindex, inl, inr, arith,
}
use aufs.Lower.{HDentry, s_ifdir}
use aufs.Dinfo.{Dinfo, h_dptr_i, dbtaildir}
use aufs.Whout.{Name, alloc_whname, has_wh_pfx}
use aufs.Lookup.{is_whable, lkup_dentry}
use aufs.Lookup.Stack.{Layer, missing, nothing, node, visible}
use aufs.Lookup.Rounds.{layer_of}
use aufs.Lookup.Hidden.{IsSilent, visible-only}
use aufs.Lookup.Refine.{IsClear, Outcome, lkup_dentry-Outcome}
use aufs.Create.{wr_branch, add_simple}
use aufs.Create.Steps.{IsCreated, add_simple-IsCreated}
use aufs.Remove.Gone.{dir-some}
use aufs.Vfs.{Op, Run, System, IsVfs, View, view, lkup_in}
use aufs.Vfs.Look.{env_of, seen_layer}
use aufs.Vfs.Layers.{IsDir, silent-kept, layer-dir}

-- Branch `k`, with the directory `hp`, is the first one of a name that no branch above it shows. The
-- mark of a whiteout there is right.
pub record IsNew (sys : System) (s : Op sys.World) (wh_name : Name) (k : ℕ) (hp : HDentry)
    : Type 0 where
  pub first : s.dentry.bstart ≡ some k
  pub at : h_dptr_i s.parent k ≡ some hp
  pub dir : IsDir hp
  pub above :
      (j : ℕ)
      → j < k
      → (layer_of (env_of sys s.world s.parent wh_name) j ≡ ok missing)
        ⊎ (layer_of (env_of sys s.world s.parent wh_name) j ≡ ok nothing)
  pub apart : (j : ℕ) (hq : HDentry) → j < k → h_dptr_i s.parent j ≡ some hq → hq.id ≢ hp.id
  pub marked : (eq_bindex (some k) s.dentry.bwh ≡ true) ⊎ (view sys s.world hp.id wh_name ≡ ok none)
  pub tail : k < count_to (dbtaildir s.parent)

seen_layer-file :
    (whable : Bool) (v : View) (q : ℕ) (name wh_name : Name) (id fmt : ℕ)
    → v q name ≡ ok (some (id, fmt))
    → v q wh_name ≡ ok none
    → (fmt == s_ifdir) ≡ false
    → seen_layer whable v q name wh_name ≡ ok (node fmt false)
seen_layer-file whable v q name wh_name id fmt e f file = ground arith

module _ (sys : System) (wh_name : Name) (s s' : Op sys.World) (k fmt : ℕ) (hp : HDentry)
    (new : IsNew sys s wh_name k hp) (file : (fmt == s_ifdir) ≡ false)
    (c : IsCreated sys hp wh_name (eq_bindex (some k) s.dentry.bwh) fmt s s') (layers : ℕ → Layer)
    (shows : (j : ℕ)
      → j < count_to (dbtaildir s'.parent)
      → layer_of (env_of sys s'.world s'.parent wh_name) j ≡ ok (layers j)) where
  in_range : k < count_to (dbtaildir s'.parent)
  in_range = subst (λ p. k < count_to (dbtaildir p)) (sym c.parent) new.tail

  IsSilent-above : (j : ℕ) → j < k → IsSilent (layers j)
  IsSilent-above j h =
      elim (silent-kept sys s.world s'.world s.parent s'.parent wh_name j
        (ap (λ p. h_dptr_i p j) c.parent)
        (λ hq e.
          let ne = new.apart j hq h (dir-some _ hq e) in
          (c.others hq.id sys.name (ground arith), c.others hq.id wh_name (ground arith)))
        (new.above j h)) [
          | inl e ↦ inl (ground (arith, shows j (omega (arith, in_range)), e))
          | inr e ↦ inr (ground (arith, shows j (omega (arith, in_range)), e))
        ]

  file_at : layers k ≡ node fmt false
  file_at =
      let (id, there) = c.there in
      let e =
        sym (shows k in_range)
        ∙ layer-dir sys s'.world s'.parent wh_name k hp (ap (λ p. h_dptr_i p k) c.parent ∙ new.at)
            new.dir
        ∙ seen_layer-file (is_whable sys.table k) (view sys s'.world) hp.id sys.name wh_name id fmt
            there (c.no_wh new.marked) file in
      ground (arith, e)

  shown_once : visible layers (count_to (dbtaildir s'.parent)) 0 0 ≡ k ∷ []
  shown_once = visible-only layers _ k fmt in_range IsSilent-above file_at file

-- After mknod, symlink or create of a name has succeeded on the first branch of its dentry, which no
-- branch above shows, a lookup that meets no error finds the name on exactly that branch, also where
-- the branch had a whiteout of it.
pub add_simple-shown :
    (sys : System) (vfs : IsVfs sys) (cpup_dirs : ℕ → Run sys.World (Unit {0}))
    (new_inode : Result (Unit {0})) (wh_name : Name) (s s' : Op sys.World) (k fmt : ℕ)
    (hp : HDentry) (d : Dinfo) (layers : ℕ → Layer)
    → alloc_whname sys.name ≡ ok wh_name
    → has_wh_pfx sys.name ≡ false
    → IsNew sys s wh_name k hp
    → wr_branch sys cpup_dirs none none s ≡ ok k
    → (fmt == s_ifdir) ≡ false
    → add_simple sys cpup_dirs new_inode fmt s ≡ (ok tt, s')
    → IsClear d 0
    → count_to (dbtaildir s'.parent) ≤ length d.hdentry
    → ((j : ℕ)
        → j < count_to (dbtaildir s'.parent)
        → layer_of (env_of sys s'.world s'.parent wh_name) j ≡ ok (layers j))
    → Outcome d 0 (k ∷ []) (lkup_dentry (lkup_in sys s'.world) sys.table s'.parent sys.name d 0 0)
add_simple-shown sys vfs cpup_dirs new_inode wh_name s s' k fmt hp d layers named plain new target
      file h clear room shows =
    let c =
      add_simple-IsCreated sys cpup_dirs new_inode hp vfs wh_name k fmt s s' named new.first target
        new.at h in
    subst
      (λ (vis : List ℕ).
        Outcome d 0 vis (lkup_dentry (lkup_in sys s'.world) sys.table s'.parent sys.name d 0 0))
      (ap (λ m. visible layers m 0 0) {y = count_to (dbtaildir s'.parent)} (omega arith)
        ∙ shown_once sys wh_name s s' k fmt hp new file c layers shows)
      (lkup_dentry-Outcome (lkup_in sys s'.world) sys.table s'.parent sys.name wh_name d 0 0 layers
        plain named (omega arith) room clear (λ j p q. shows j q))
