-- ===== src/Vfs/Layers.antt =====
-- How what a branch shows of a name changes with the lookups in it.
use aufs.Common.{
  ℕ, ◌≡◌, ◌≢◌, ◌⊎◌, refl, ap, ◌∙◌, Bool, true, Option, some, none, ok, inl, inr, arith,
}
use aufs.Lower.{HDentry}
use aufs.Dinfo.{Dinfo, h_dptr_i}
use aufs.Whout.{Name}
use aufs.Lookup.{is_whable}
use aufs.Lookup.Stack.{Layer, missing, whited, nothing}
use aufs.Lookup.Rounds.{hidden_dir, layer_of}
use aufs.Lookup.Refine.{look-ne-missing}
use aufs.Vfs.{System, View, view}
use aufs.Vfs.Look.{seen_layer, env_of, look-seen, SameLooks, seen_layer-same}

-- What one branch shows, from its hidden parent directory.
module _ (whable : Bool) (v v' : View) (q : ℕ) (name wh_name : Name) where
  -- A branch that showed neither still does so, where the two lookups of it did not change.
  pub seen_layer-nothing :
      v' q name ≡ v q name
      → v' q wh_name ≡ v q wh_name
      → seen_layer whable v q name wh_name ≡ ok nothing
      → seen_layer whable v' q name wh_name ≡ ok nothing
  seen_layer-nothing e f h = ground arith

  -- Where the whiteout is there and the lookups meet no error, the branch is whiteouted.
  pub seen_layer-whited :
      (x : ℕ × ℕ) (l : Layer)
      → v q wh_name ≡ ok (some x)
      → seen_layer true v q name wh_name ≡ ok l
      → l ≡ whited
  seen_layer-whited (id, fmt) l e h = ground arith

  -- Where the name is gone, the branch is whiteouted or shows nothing.
  pub seen_layer-gone :
      (l : Layer)
      → v q name ≡ ok none
      → seen_layer whable v q name wh_name ≡ ok l
      → (l ≡ whited) ⊎ (l ≡ nothing)
  seen_layer-gone l e h = grind (arith, inl, inr)

not_missing : ok missing ≢ ok nothing
not_missing h = cc

-- A hidden directory with its address.
abbrev pub IsDir : HDentry → Type 0
IsDir hp = hidden_dir (some hp) ≡ some hp

-- Two states of the branches and of the parent, at one branch where the parent's slot is the same.
module _ (sys : System) (w w' : sys.World) (parent parent' : Dinfo) (wh_name : Name) (b : ℕ)
    (slot : h_dptr_i parent' b ≡ h_dptr_i parent b) where
  nothing-at :
      (o : Option HDentry)
      → hidden_dir (h_dptr_i parent b) ≡ o
      → ((hp : HDentry)
          → hidden_dir (h_dptr_i parent b) ≡ some hp
          → (view sys w' hp.id sys.name ≡ view sys w hp.id sys.name)
            × (view sys w' hp.id wh_name ≡ view sys w hp.id wh_name))
      → layer_of (env_of sys w parent wh_name) b ≡ ok nothing
      → layer_of (env_of sys w' parent' wh_name) b ≡ ok nothing
  unfolding h_dptr_i
  nothing-at none e same h = absurd (not_missing (rw e at h))
  nothing-at (some hp) e same h =
      let (p, q) = same hp e in
      rw (slot, e, look-seen sys w' parent' wh_name b hp)
        (seen_layer-nothing _ (view sys w) (view sys w') hp.id sys.name wh_name p q
          (rw (e, look-seen sys w parent wh_name b hp) at h))

  missing-at :
      (o : Option HDentry)
      → hidden_dir (h_dptr_i parent b) ≡ o
      → layer_of (env_of sys w parent wh_name) b ≡ ok missing
      → layer_of (env_of sys w' parent' wh_name) b ≡ ok missing
  unfolding h_dptr_i
  missing-at none e h = rw (slot, e) refl
  missing-at (some hp) e h = absurd (look-ne-missing (env_of sys w parent wh_name) b hp (rw e at h))

  pub silent-kept :
      ((hp : HDentry)
        → hidden_dir (h_dptr_i parent b) ≡ some hp
        → (view sys w' hp.id sys.name ≡ view sys w hp.id sys.name)
          × (view sys w' hp.id wh_name ≡ view sys w hp.id wh_name))
      → (layer_of (env_of sys w parent wh_name) b ≡ ok missing)
        ⊎ (layer_of (env_of sys w parent wh_name) b ≡ ok nothing)
      → (layer_of (env_of sys w' parent' wh_name) b ≡ ok missing)
        ⊎ (layer_of (env_of sys w' parent' wh_name) b ≡ ok nothing)
  silent-kept same (inl h) = inl (missing-at _ refl h)
  silent-kept same (inr h) = inr (nothing-at _ refl same h)

  same-at :
      (o : Option HDentry)
      → hidden_dir (h_dptr_i parent b) ≡ o
      → ((hp : HDentry)
          → hidden_dir (h_dptr_i parent b) ≡ some hp
          → SameLooks (view sys w') (view sys w) hp.id sys.name wh_name)
      → layer_of (env_of sys w' parent' wh_name) b ≡ layer_of (env_of sys w parent wh_name) b
  unfolding h_dptr_i
  same-at none e same = rw (slot, e) refl
  same-at (some hp) e same =
      rw (slot, e, look-seen sys w' parent' wh_name b hp, look-seen sys w parent wh_name b hp)
        (seen_layer-same _ (view sys w') (view sys w) hp.id sys.name wh_name (same hp e))

  pub layer-same :
      ((hp : HDentry)
        → hidden_dir (h_dptr_i parent b) ≡ some hp
        → SameLooks (view sys w') (view sys w) hp.id sys.name wh_name)
      → layer_of (env_of sys w' parent' wh_name) b ≡ layer_of (env_of sys w parent wh_name) b
  layer-same same = same-at _ refl same

-- A branch that has the parent directory.
pub layer-dir :
    (sys : System) (w : sys.World) (parent : Dinfo) (wh_name : Name) (b : ℕ) (hp : HDentry)
    → h_dptr_i parent b ≡ some hp
    → IsDir hp
    → layer_of (env_of sys w parent wh_name) b
      ≡ seen_layer (is_whable sys.table b) (view sys w) hp.id sys.name wh_name
unfolding h_dptr_i
layer-dir sys w parent wh_name b hp e d =
    let at : hidden_dir (h_dptr_i parent b) ≡ some hp = ap hidden_dir e ∙ d in
    rw at (look-seen sys w parent wh_name b hp)
