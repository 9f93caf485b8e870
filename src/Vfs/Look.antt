-- ===== src/Vfs/Look.antt =====
-- What a branch shows of a name depends on three lookups: of the name, of its whiteout, and of the
-- marker in the entry found.
use aufs.Common.{
  ℕ, ◌≡◌, refl, ap, ◌==◌, if◌then◌else◌, Bool, true, false, ◌&&◌, Option, some, none, Result, ok,
  err, eio, ◌>>=◌, arith,
}
use mathlib.Core.Path.{fun_ext}
use aufs.Lower.{HDentry, s_ifreg, s_ifdir}
use aufs.Dinfo.{Dinfo}
use aufs.Whout.{Name, diropq_name, wh_entry, is_wh, is_diropq}
use aufs.Lookup.{Env, is_whable}
use aufs.Lookup.Stack.{Layer, whited, nothing, node}
use aufs.Lookup.Rounds.{entry_layer, look}
use aufs.Vfs.{System, Shown, shown, View, view, lkup_in}

abbrev pub seen_wh : Shown → Result Bool
seen_wh (err e) = err e
seen_wh (ok none) = ok false
seen_wh (ok (some (id, fmt))) = if fmt == s_ifreg then ok true else err eio

abbrev pub seen_entry : Bool → View → Option (ℕ × ℕ) → Result Layer
seen_entry whable v none = ok nothing
seen_entry whable v (some (id, fmt)) =
    if fmt == s_ifdir && whable
    then (do opaque ← seen_wh (v id diropq_name); ok (node fmt opaque))
    else ok (node fmt false)

abbrev pub seen_layer : Bool → View → ℕ → Name → Name → Result Layer
seen_layer whable v q name wh_name = do
  found ← (if whable then seen_wh (v q wh_name) else ok false)
  x ← v q name
  if found then ok whited else seen_entry whable v x

abbrev pub env_of : (sys : System) → sys.World → Dinfo → Name → Env
env_of sys w parent wh_name = record {
  lkup = lkup_in sys w;
  table = sys.table;
  parent = parent;
  name = sys.name;
  wh_name = wh_name;
}

wh_entry-seen : (r : Result HDentry) → (r >>= wh_entry) ≡ seen_wh (shown r)
wh_entry-seen (err e) = refl
wh_entry-seen (ok hd) = ground arith

module _ (sys : System) (w : sys.World) (parent : Dinfo) (wh_name : Name) (b : ℕ) where
  abbrev env : Env
  env = env_of sys w parent wh_name

  entry-seen :
      (r : Result HDentry)
      → (r >>= entry_layer env b) ≡ (shown r >>= seen_entry (is_whable sys.table b) (view sys w))
  unfolding is_diropq is_wh
  entry-seen (err e) = refl
  entry-seen (ok hd) =
      elim hd.inode
        as (λ o. entry_layer env b (record hd { inode = o }) ≡ (
          shown (ok (record hd { inode = o }))
          >>= seen_entry (is_whable sys.table b) (view sys w))) [
            | none ↦ refl
            | some i ↦ ground (arith, wh_entry-seen (sys.lookup w hd.id diropq_name))
          ]

  pub look-seen :
      (hp : HDentry)
      → look env b hp ≡ seen_layer (is_whable sys.table b) (view sys w) hp.id sys.name wh_name
  unfolding is_wh
  look-seen hp =
      ground (
        arith,
        wh_entry-seen (sys.lookup w hp.id wh_name),
        entry-seen (sys.lookup w hp.id sys.name),
      )

-- The three lookups agree in two views.
pub record SameLooks (v v' : View) (q : ℕ) (name wh_name : Name) : Type 0 where
  pub at_name : v q name ≡ v' q name
  pub at_wh : v q wh_name ≡ v' q wh_name
  pub at_opq : (id : ℕ) → v id diropq_name ≡ v' id diropq_name

entry-same :
    (whable : Bool) (v v' : View) (x : Option (ℕ × ℕ))
    → ((id : ℕ) → v id diropq_name ≡ v' id diropq_name)
    → seen_entry whable v x ≡ seen_entry whable v' x
entry-same whable v v' none same = refl
entry-same whable v v' (some (id, fmt)) same = rw (same id)

pub seen_layer-same :
    (whable : Bool) (v v' : View) (q : ℕ) (name wh_name : Name)
    → SameLooks v v' q name wh_name
    → seen_layer whable v q name wh_name ≡ seen_layer whable v' q name wh_name
seen_layer-same whable v v' q name wh_name same =
    rw (same.at_name, same.at_wh)
      (ap
        (λ (f : Option (ℕ × ℕ) → Result Layer).
          (if whable then seen_wh (v' q wh_name) else ok false) >>= λ found.
          v' q name >>= λ x. if found then ok whited else f x)
        (fun_ext (λ x. entry-same whable v v' x same.at_opq)))
