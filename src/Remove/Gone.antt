-- ===== src/Remove/Gone.antt =====
-- After an unlink the union does not show the name any more.
use aufs.Common.{
  ℕ, Bindex, ◌+◌, ◌-◌, ◌≤◌, ◌<◌, ◌≡◌, ◌≢◌, ◌⊎◌, refl, sym, ap, subst, le-cases, ◌∷◌, ◌∙◌,
  if◌then◌else◌, Bool, true, false, Option, some, none, List, [], length, Result, ok, err,
  from_branch, count_to, Bool-cases, inl, inr, arith,
}
use aufs.Lower.{HDentry}
use aufs.Dinfo.{Dinfo, h_dptr_i, dbtaildir}
use aufs.Branch.{Brtable, is_rw, find_rw_parent_br}
use aufs.Branch.Writable.{Chosen, find_rw_parent_br-Chosen}
use aufs.Whout.{Name, diropq_name, alloc_whname, has_wh_pfx}
use aufs.Lookup.{is_whable}
use aufs.Lookup.Stack.{Layer, missing, nothing, visible}
use aufs.Lookup.Rounds.{hidden_dir, layer_of}
use aufs.Lookup.Hidden.{IsSilent, visible-whited, visible-silent}
use aufs.Lookup.Refine.{IsClear, lkup_dentry-Outcome}
use aufs.Remove.{wr_target}
use aufs.Remove.Final.{Changed}
use aufs.Remove.Steps.{below_lookup}
use aufs.Vfs.{test_ro, Op, Run, System, view, lkup_in}
use aufs.Vfs.Look.{env_of, seen_layer}
use aufs.Vfs.Layers.{IsDir, silent-kept, layer-same, seen_layer-whited, layer-dir, seen_layer-gone}
use aufs.Vfs.Names.{diropq-ne, diropq-ne_wh}

-- Where the first branch of the dentry lies, and what the branches above it show.
pub record IsFound (sys : System) (s : Op sys.World) (wh_name : Name) (k : ℕ) : Type 0 where
  pub first : s.dentry.bstart ≡ some k
  pub clear : IsClear s.dentry (k + 1)
  pub above :
      (j : ℕ)
      → j < k
      → (layer_of (env_of sys s.world s.parent wh_name) j ≡ ok missing)
        ⊎ (layer_of (env_of sys s.world s.parent wh_name) j ≡ ok nothing)
  pub dir : (hp : HDentry) × (h_dptr_i s.parent k ≡ some hp) × IsDir hp
  pub apart :
      (i j : ℕ) (hp hq : HDentry)
      → i ≢ j
      → h_dptr_i s.parent i ≡ some hp
      → h_dptr_i s.parent j ≡ some hq
      → hp.id ≢ hq.id
  pub from : from_branch s.parent.bstart ≤ k
  pub tail : k < count_to (dbtaildir s.parent)
  pub room : count_to (dbtaildir s.parent) ≤ length s.dentry.hdentry

-- What copying the parent directory up to a branch does where it succeeds: the parent has a
-- directory there, and its other directories show what they did.
pub record IsCopied (sys : System) (b : ℕ) (s t : Op sys.World) : Type 0 where
  pub dir : (hp : HDentry) × (h_dptr_i t.parent b ≡ some hp) × IsDir hp
  pub slots : (j : ℕ) → j ≢ b → h_dptr_i t.parent j ≡ h_dptr_i s.parent j
  pub views :
      (j : ℕ) (hq : HDentry)
      → j ≢ b
      → h_dptr_i s.parent j ≡ some hq
      → (m : Name) → view sys t.world hq.id m ≡ view sys s.world hq.id m
  pub apart :
      (j : ℕ) (hp hq : HDentry)
      → j ≢ b
      → h_dptr_i t.parent b ≡ some hp
      → h_dptr_i t.parent j ≡ some hq
      → hq.id ≢ hp.id

-- So it is for an unlink in the state `s`, on the branches above the first one of the dentry.
abbrev pub CopiesUp : (sys : System) → (ℕ → Run sys.World (Unit {0})) → Op sys.World → ℕ → Type 0
CopiesUp sys cpup_dirs s k =
    (b : ℕ) (t : Op sys.World) → b < k → cpup_dirs b s ≡ (ok tt, t) → IsCopied sys b s t

-- Each branch that can be written is searched for whiteouts.
abbrev pub WritesAreSeen : Brtable → Type 0
WritesAreSeen t = (b : ℕ) → is_rw t b ≡ true → is_whable t b ≡ true

pub dir-some : (o : Option HDentry) (hp : HDentry) → hidden_dir o ≡ some hp → o ≡ some hp
dir-some none hp h = absurd (cc)
dir-some (some hq) hp h = ground arith

Chosen-rw :
    (t : Brtable) (parent : Dinfo) (k b : ℕ) (r : Result ℕ)
    → Chosen t parent k r
    → r ≡ ok b
    → (b ≤ k) × (is_rw t b ≡ true)
Chosen-rw t parent k b (ok c) (below, free, _) h =
    let e : c ≡ b = ground arith in (omega arith, subst (λ x. is_rw t x ≡ true) e free)
Chosen-rw t parent k b (err e) c h = absurd (cc)

empty_of : (xs : List ℕ) → ok 0 ≡ ok (0 + length xs) → xs ≡ []
empty_of [] h = refl
empty_of (x ∷ xs) h = absurd (ground arith)

IsSilent-to :
    (b : ℕ) (layers : ℕ → Layer)
    → layers b ≡ nothing
    → ((j : ℕ) → j < b → IsSilent (layers j))
    → (j : ℕ) → j < b + 1
    → IsSilent (layers j)
IsSilent-to b layers h before j p = elim (le-cases j b (omega arith)) [
  | inl e ↦ inr (ap layers e ∙ h)
  | inr q ↦ before j (omega arith)
]

module _ (sys : System) (wh_name : Name) (named : alloc_whname sys.name ≡ ok wh_name)
    (plain : has_wh_pfx sys.name ≡ false) (s : Op sys.World) (k : ℕ)
    (found : IsFound sys s wh_name k) where
  abbrev layer_in : Op sys.World → ℕ → Result Layer
  layer_in t j = layer_of (env_of sys t.world t.parent wh_name) j

  -- A branch other than the one that was changed.
  module _ (b : ℕ) (hp : HDentry) (need gone : Bool) (t u : Op sys.World)
      (changed : Changed sys hp wh_name need gone t u) where
    other_dir : (q : ℕ) (m : Name) → q ≢ hp.id → view sys u.world q m ≡ view sys t.world q m
    other_dir q m ne = changed.others q m (ground arith)

    opq_same : (id : ℕ) → view sys u.world id diropq_name ≡ view sys t.world id diropq_name
    opq_same id =
        changed.others id diropq_name
          (ground (arith, diropq-ne sys.name plain, diropq-ne_wh sys.name wh_name plain named))

    -- A branch below shows what it did.
    below-same :
        (j : ℕ)
        → ((hq : HDentry) → h_dptr_i t.parent j ≡ some hq → hq.id ≢ hp.id)
        → layer_in u j ≡ layer_in t j
    below-same j apart =
        layer-same sys t.world u.world t.parent u.parent wh_name j
          (ap (λ p. h_dptr_i p j) changed.parent)
          (λ hq e.
            let ne = apart hq (dir-some _ hq e) in
            record {
              at_name = other_dir hq.id sys.name ne;
              at_wh = other_dir hq.id wh_name ne;
              at_opq = opq_same;
            })

  -- The target of an unlink.
  pub target_rw :
      (b : ℕ) (cpup_dirs : ℕ → Run sys.World (Unit {0}))
      → wr_target sys cpup_dirs none s ≡ ok b
      → (b ≤ k) × (is_rw sys.table b ≡ true)
  target_rw b cpup_dirs h =
      let at : (if test_ro sys k then find_rw_parent_br sys.table s.parent k else ok k) ≡ ok b =
        subst
          (λ (x : Bindex).
            (if test_ro sys (from_branch x)
              then find_rw_parent_br sys.table s.parent (from_branch x)
              else ok (from_branch x))
            ≡ ok b)
          found.first h in
      elim (Bool-cases (test_ro sys k)) [
        | inl ro ↦
            Chosen-rw sys.table s.parent k b _
              (find_rw_parent_br-Chosen sys.table s.parent k found.from) (rw ro at at)
        | inr free ↦
            let p : ok k ≡ ok b = rw free at at in
            let e : k ≡ b = ground arith in
            (omega arith, subst (λ x. is_rw sys.table x ≡ true) e (ground arith))
      ]

  module _ (b : ℕ) (hp : HDentry) (need gone : Bool) (t u : Op sys.World)
      (seen : WritesAreSeen sys.table) (below : b ≤ k) (writable : is_rw sys.table b ≡ true)
      (copied : IsCopied sys b s t) (parent : h_dptr_i t.parent b ≡ some hp)
      (changed : Changed sys hp wh_name need gone t u) (layers : ℕ → Layer) (n : ℕ)
      (shows : (j : ℕ) → j < n → layer_in u j ≡ ok (layers j)) where
    IsDir-hp : IsDir hp
    IsDir-hp = let (hq, at, d) = copied.dir in subst IsDir (ground (arith, at, parent)) d

    silent-after : (j : ℕ) → j < b → (layer_in u j ≡ ok missing) ⊎ (layer_in u j ≡ ok nothing)
    silent-after j h =
        let slot : h_dptr_i t.parent j ≡ h_dptr_i s.parent j = copied.slots j (omega arith) in
        silent-kept sys s.world u.world s.parent u.parent wh_name j
          (ap (λ p. h_dptr_i p j) changed.parent ∙ slot)
          (λ hq e.
            let at = dir-some _ hq e in
            let ne = copied.apart j hp hq (omega arith) parent (slot ∙ at) in
            (
              other_dir b hp need gone t u changed hq.id sys.name ne
                  ∙ copied.views j hq (omega arith) at sys.name,
              other_dir b hp need gone t u changed hq.id wh_name ne
                  ∙ copied.views j hq (omega arith) at wh_name,
            ))
          (found.above j (omega arith))

    IsSilent-after : (j : ℕ) → j < b → j < n → IsSilent (layers j)
    IsSilent-after j h m = elim (silent-after j h) [
      | inl e ↦ inl (ground (arith, shows j m, e))
      | inr e ↦ inr (ground (arith, shows j m, e))
    ]

    layer_at :
        layer_in u b ≡ seen_layer (is_whable sys.table b) (view sys u.world) hp.id sys.name wh_name
    layer_at =
        layer-dir sys u.world u.parent wh_name b hp (ap (λ p. h_dptr_i p b) changed.parent ∙ parent)
          IsDir-hp

    -- A whiteout was needed.
    pub gone-need : need ≡ true → visible layers n 0 0 ≡ []
    gone-need e =
        let (x, at) = changed.there e in
        visible-whited layers n 0 b 0 (omega arith) (λ j p q r. IsSilent-after j q (omega arith))
          (λ h.
            seen_layer-whited true (view sys u.world) (view sys u.world) hp.id sys.name wh_name x
              (layers b) at
              (subst (λ w. seen_layer w (view sys u.world) hp.id sys.name wh_name ≡ ok (layers b))
                (seen b writable) (sym layer_at ∙ shows b (omega arith))))

    -- No whiteout was needed: nothing was seen below.
    pub gone-here :
        gone ≡ true
        → b ≡ k
        → t ≡ record s { dentry = t.dentry }
        → (below_lookup sys s k).0 ≡ ok 0
        → n ≡ count_to (dbtaildir s.parent)
        → visible layers n 0 0 ≡ []
    gone-here e at same none_below all =
        elim (seen_layer-gone (is_whable sys.table b) (view sys u.world) (view sys u.world) hp.id
          sys.name wh_name (layers b) (changed.removed e) (sym layer_at ∙ shows b reach)) [
            | inl w ↦
                visible-whited layers n 0 b 0 (omega arith)
                  (λ j p q r. IsSilent-after j q (omega arith)) (λ h. w)
            | inr empty ↦
                ap (λ m. visible layers m 0 0) {y = b + 1 + (n - (b + 1))} (omega arith)
                ∙ visible-silent layers (b + 1) (n - (b + 1)) 0 0 (λ j p q.
                  IsSilent-to b layers empty (λ i r. IsSilent-after i r (omega arith)) j
                    (omega arith))
                ∙ ap (λ l. visible layers (n - (b + 1)) l 0) {y = b + 1} (omega arith)
                ∙ subst (λ l. visible layers (n - l) l 0 ≡ []) (ap (λ x. x + 1) (sym at))
                    (subst (λ m. visible layers (m - (k + 1)) (k + 1) 0 ≡ []) (sym all) below_none)
          ]
      where
        reach : b < n
        reach = omega (arith, found.tail)

        see : (j : ℕ) → k + 1 ≤ j → j < count_to (dbtaildir s.parent) → layer_in s j ≡ ok (layers j)
        see j p q =
            let same_world : layer_in t j ≡ layer_in s j =
              ap (λ (x : Op sys.World). layer_in x j) same in
            sym same_world
            ∙ sym (
                below-same b hp need gone t u changed j
                  (λ hq h. copied.apart j hp hq (omega arith) parent h))
            ∙ shows j (omega arith)

        below_none : visible layers (count_to (dbtaildir s.parent) - (k + 1)) (k + 1) 0 ≡ []
        below_none = empty_of _ (
            sym none_below
            ∙ (lkup_dentry-Outcome (lkup_in sys s.world) sys.table s.parent sys.name wh_name
                s.dentry (k + 1) 0 layers plain named (omega (arith, found.tail)) found.room
                found.clear see).counted)
