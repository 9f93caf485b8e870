-- ===== src/Lookup/Refine.antt =====
-- `lkup_dentry` finds what the union shows.
use aufs.Common.{
  ℕ, zero, suc, ◌+◌, ◌-◌, ◌≤◌, ◌<◌, ◌≡◌, ◌≢◌, refl, sym, ap, ap₂, ◌∙◌, inl, inr, ◌==◌,
  if◌then◌else◌, Bool, true, false, not, ◌&&◌, ◌||◌, Option, some, none, List, ◌∷◌, get_or, length,
  contains, Result, ok, err, arith, Bool-cases, count_to,
}
use aufs.Lower.{HDentry, s_ifdir, is_positive}
use aufs.Dinfo.{Dinfo, h_dptr_i, dbtaildir}
use aufs.Dinfo.Range.{update_dbstart-positive}
use aufs.Branch.{Brtable}
use aufs.Whout.{Name, Lkup, has_wh_pfx, alloc_whname}
use aufs.Lookup.{Env, do_lookup, lkup_round, lkup_loop, lkup_end, lkup_dentry}
use aufs.Lookup.Stack.{Layer, missing, whited, nothing, node, visible}
use aufs.Lookup.Rounds.{
  hidden_dir, look, layer_of, SamePositive, finish, round-missing, round-finish, whited_stop,
  whited_positive, do_lookup-nothing, nothing_positive, do_lookup-mismatch, do_lookup-last,
  do_lookup-dir, node_positive, slots_of, length_of,
}

-- The dentry has nothing recorded from branch `b` on, and no marks.
pub record IsClear (d : Dinfo) (b : ℕ) : Type 0 where
  pub slots : (j : ℕ) → b ≤ j → get_or d.hdentry j none ≡ none
  pub no_wh : d.bwh ≡ none
  pub no_opq : d.bdiropq ≡ none

-- What a run of the loop from `d` on counted and recorded, where the union shows `vis`.
pub record Outcome (d : Dinfo) (count : ℕ) (vis : List ℕ) (res : Result ℕ × Dinfo) : Type 0 where
  pub counted : res.0 ≡ ok (count + length vis)
  pub shown :
      (j : ℕ)
      → is_positive (get_or res.1.hdentry j none)
        ≡ (contains vis j || is_positive (get_or d.hdentry j none))

Outcome-same :
    {d d' : Dinfo} {count : ℕ} {vis : List ℕ} {res : Result ℕ × Dinfo}
    → SamePositive d d'
    → Outcome d' count vis res
    → Outcome d count vis res
Outcome-same {vis = vis} same o = record {
  counted = o.counted;
  shown = λ j. o.shown j ∙ ap (λ p. contains vis j || p) (same j);
}

Outcome-cons :
    {d d' : Dinfo} {count b : ℕ} {vis : List ℕ} {res : Result ℕ × Dinfo}
    → ((j : ℕ)
        → is_positive (get_or d'.hdentry j none)
          ≡ (if b == j then true else is_positive (get_or d.hdentry j none)))
    → Outcome d' (count + 1) vis res
    → Outcome d count (b ∷ vis) res
Outcome-cons {b = b} {vis = vis} here o = record {
  counted = o.counted ∙ ap ok (omega arith);
  shown = λ j. ground (arith, o.shown j, here j);
}

abbrev Loops : Env → (ℕ → Layer) → ℕ → ℕ → Type 0
Loops env layers n b =
    (d : Dinfo) (type : ℕ) (allow_neg : Bool) (count : ℕ)
    → b + n ≤ length d.hdentry
    → IsClear d b
    → Outcome d count (visible layers n b type) (lkup_loop n b env d type allow_neg count)

IsClear-next : {d : Dinfo} {b : ℕ} → IsClear d b → IsClear d (b + 1)
IsClear-next c = record {
  slots = λ j h. c.slots j (omega arith);
  no_wh = c.no_wh;
  no_opq = c.no_opq;
}

pub look-ne-missing : (env : Env) (b : ℕ) (hp : HDentry) → look env b hp ≢ ok missing
look-ne-missing env b hp h = ground arith

-- One round and the later ones, for each kind of layer.
module _ (env : Env) (layers : ℕ → Layer) (n b : ℕ) (d : Dinfo) (type : ℕ) (allow_neg : Bool)
    (count : ℕ) (ih : Loops env layers n (b + 1)) (room : b + suc n ≤ length d.hdentry)
    (clear : IsClear d b) where
  empty : get_or d.hdentry b none ≡ none
  empty = clear.slots b (omega arith)

  abbrev Goal : Type 0
  Goal =
      Outcome d count (visible layers (suc n) b type)
        (lkup_loop (suc n) b env d type allow_neg count)

  loop-missing : layers b ≡ missing → hidden_dir (h_dptr_i env.parent b) ≡ none → Goal
  unfolding lkup_loop visible
  loop-missing l h =
      rw (l, round-missing env b d type allow_neg count empty h, visible, lkup_loop)
        (ih d type allow_neg count (omega arith) (IsClear-next clear))

  module _ (hp : HDentry) (at : hidden_dir (h_dptr_i env.parent b) ≡ some hp) where
    abbrev d' : Dinfo
    d' = (do_lookup env b hp allow_neg type d).1

    IsClear-after : d'.bwh ≡ none → d'.bdiropq ≡ none → IsClear d' (b + 1)
    IsClear-after w o = record {
      slots = λ j h.
          slots_of env b hp allow_neg type d j _ refl (omega arith) ∙ clear.slots j (omega arith);
      no_wh = w;
      no_opq = o;
    }

    room_after : b + 1 + n ≤ length d'.hdentry
    room_after = omega (arith, length_of env b hp allow_neg type d _ refl)

    round :
        lkup_round env b d type allow_neg count
        ≡ finish (do_lookup env b hp allow_neg type d) type count
    round = round-finish env b d type allow_neg count hp empty at

    loop-whited : layers b ≡ whited → look env b hp ≡ ok whited → Goal
    unfolding lkup_loop visible
    loop-whited l k =
        rw (l, round ∙ whited_stop env b hp allow_neg type d count empty k, visible, lkup_loop)
          (record {
            counted = ap ok (omega arith);
            shown = λ j. whited_positive env b hp allow_neg type d j _ refl empty k;
          })

    loop-nothing : layers b ≡ nothing → look env b hp ≡ ok nothing → Goal
    unfolding lkup_loop visible
    loop-nothing l k =
        let (e, w, o) = do_lookup-nothing env b hp allow_neg type d count clear.no_wh k in
        rw (l, round ∙ e, visible, lkup_loop)
          (Outcome-same (λ j. nothing_positive env b hp allow_neg type d j _ refl empty k)
            (ih d' type false count room_after (IsClear-after w (o ∙ clear.no_opq))))

    loop-mismatch :
        (fmt : ℕ) (opaque : Bool)
        → (not (type == 0) && not (type == fmt)) ≡ true
        → layers b ≡ node fmt opaque
        → look env b hp ≡ ok (node fmt opaque)
        → Goal
    unfolding lkup_loop visible
    loop-mismatch fmt opaque m l k =
        rw
          (
            l,
            round
                ∙ do_lookup-mismatch env b hp allow_neg type d count fmt opaque clear.no_wh
                    (ground arith) (ground arith) k,
            visible,
            lkup_loop,
            m,
          )
          (ih d type false count (omega arith) (IsClear-next clear))

    loop-last :
        (fmt : ℕ) (opaque : Bool)
        → (not (type == 0) && not (type == fmt)) ≡ false
        → (not (fmt == s_ifdir) || opaque) ≡ true
        → layers b ≡ node fmt opaque
        → look env b hp ≡ ok (node fmt opaque)
        → Goal
    unfolding lkup_loop visible
    loop-last fmt opaque m z l k =
        rw
          (
            l,
            round
                ∙ do_lookup-last env b hp allow_neg type d count fmt opaque clear.no_wh clear.no_opq
                    (ground arith) (ground arith) k,
            visible,
            lkup_loop,
            m,
            z,
          )
          (Outcome-cons {d' = d'}
            (λ j.
              node_positive env b hp allow_neg type d fmt opaque j _ refl (omega arith)
                (ground arith) k)
            (record { counted = ap ok (omega arith); shown = λ j. refl }))

    loop-dir :
        (not (type == 0) && not (type == s_ifdir)) ≡ false
        → layers b ≡ node s_ifdir false
        → look env b hp ≡ ok (node s_ifdir false)
        → Goal
    unfolding lkup_loop visible
    loop-dir m l k =
        let (e, w, o) =
          do_lookup-dir env b hp allow_neg type d count clear.no_wh clear.no_opq (ground arith) k in
        rw (l, round ∙ e, visible, lkup_loop, m)
          (Outcome-cons
            (λ j.
              node_positive env b hp allow_neg type d s_ifdir false j _ refl (omega arith)
                (ground arith) k)
            (ih d' s_ifdir false (count + 1) room_after (IsClear-after w o)))

    loop-node :
        (fmt : ℕ) (opaque : Bool)
        → layers b ≡ node fmt opaque
        → look env b hp ≡ ok (node fmt opaque)
        → Goal
    loop-node fmt opaque l k = elim (Bool-cases (not (type == 0) && not (type == fmt))) [
      | inl m ↦ loop-mismatch fmt opaque m l k
      | inr m ↦ elim (Bool-cases (not (fmt == s_ifdir) || opaque)) [
        | inl z ↦ loop-last fmt opaque m z l k
        | inr z ↦
            let same : s_ifdir ≡ fmt = ground arith in
            let clear_opq : false ≡ opaque = ground arith in
            loop-dir (ground arith) (l ∙ ap₂ node (sym same) (sym clear_opq))
              (k ∙ ap₂ (λ f o. ok (node f o)) (sym same) (sym clear_opq))
      ]
    ]

    loop-look : (L : Layer) → layers b ≡ L → look env b hp ≡ ok L → Goal
    loop-look missing l k = absurd (look-ne-missing env b hp k)
    loop-look whited l k = loop-whited l k
    loop-look nothing l k = loop-nothing l k
    loop-look (node fmt opaque) l k = loop-node fmt opaque l k

  loop-layer :
      (o : Option HDentry)
      → hidden_dir (h_dptr_i env.parent b) ≡ o
      → layer_of env b ≡ ok (layers b)
      → Goal
  loop-layer none at l = loop-missing (ground arith) at
  loop-layer (some hp) at l = loop-look hp at (layers b) refl (ground arith)

loop-Outcome :
    (n b : ℕ) (env : Env) (layers : ℕ → Layer)
    → ((j : ℕ) → b ≤ j → j < b + n → layer_of env j ≡ ok (layers j))
    → Loops env layers n b
unfolding lkup_loop visible
loop-Outcome zero b env layers see d type allow_neg count room clear = record {
  counted = ap ok (omega arith);
  shown = λ j. refl;
}
loop-Outcome (suc n) b env layers see d type allow_neg count room clear =
    loop-layer env layers n b d type allow_neg count
      (loop-Outcome n (b + 1) env layers (λ j p q. see j (omega arith) (omega arith))) room clear _
      refl (see b (omega arith) (omega arith))

lkup_end-Outcome :
    (d : Dinfo) (vis : List ℕ) (res : Result ℕ × Dinfo)
    → Outcome d 0 vis res
    → Outcome d 0 vis (lkup_end res)
unfolding lkup_end
lkup_end-Outcome d vis (err e, d') o = o
lkup_end-Outcome d vis (ok m, d') o = record {
  counted = o.counted;
  shown = λ j. ground (arith, update_dbstart-positive d' j, o.shown j);
}

-- A lookup of a name without the whiteout prefix, for a dentry that has nothing recorded, returns
-- how many branches the union shows the name in, and records a positive hidden dentry on exactly
-- those. `layers` says what each branch from `bstart` to the tail of the parent shows of the name;
-- none of these lookups meets an error.
pub lkup_dentry-Outcome :
    (lkup : Lkup) (t : Brtable) (parent : Dinfo) (name wh_name : Name) (d : Dinfo) (bstart type : ℕ)
    (layers : ℕ → Layer)
    → has_wh_pfx name ≡ false
    → alloc_whname name ≡ ok wh_name
    → bstart ≤ count_to (dbtaildir parent)
    → count_to (dbtaildir parent) ≤ length d.hdentry
    → IsClear d bstart
    → ((j : ℕ)
        → bstart ≤ j
        → j < count_to (dbtaildir parent)
        → layer_of
            (record { lkup = lkup; table = t; parent = parent; name = name; wh_name = wh_name })
            j
          ≡ ok (layers j))
    → Outcome d 0
        (visible layers (count_to (dbtaildir parent) - bstart) bstart type)
        (lkup_dentry lkup t parent name d bstart type)
unfolding lkup_dentry
lkup_dentry-Outcome lkup t parent name wh_name d bstart type layers p w lo hi clear see =
    rw (p, w, lkup_dentry)
      (lkup_end-Outcome d _ _ (
        loop-Outcome (count_to (dbtaildir parent) - bstart) bstart
          (record { lkup = lkup; table = t; parent = parent; name = name; wh_name = wh_name })
          layers (λ j h k. see j h (omega arith)) d type (type == 0) 0 (omega arith) clear))
