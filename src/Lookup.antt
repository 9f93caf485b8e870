-- ===== src/Lookup.antt =====
-- fs/aufs/dentry.c: how a name is looked up through the branches.
pub mod Stack
pub mod Hidden
pub mod Rounds
pub mod Refine
use aufs.Common.{
  ℕ, zero, suc, ◌+◌, ◌-◌, ◌==◌, ltb, leb, if◌then◌else◌, Bool, true, false, not, ◌&&◌, ◌||◌, Option,
  some, none, List, [], ◌∷◌, Result, ok, err, Errno, eperm, eio, ◌>>=◌, Bindex, eq_bindex,
  lt_bindex, le_bindex, count_to,
}
use aufs.Lower.{HInode, HDentry, s_ifdir, is_dir, is_positive}
use aufs.Dinfo.{
  Dinfo, h_dptr_i, set_dbstart, set_dbend, set_dbwh, set_dbdiropq, set_h_dptr, update_dbstart,
  dbtaildir,
}
use aufs.Branch.{Branch, Brtable, stobr}
use aufs.Branch.Permission.{br_whable}
use aufs.Whout.{Name, Lkup, has_wh_pfx, alloc_whname, is_wh, is_diropq}

-- What stays the same during one lookup.
pub record Env : Type 0 where
  pub lkup : Lkup
  pub table : Brtable
  pub parent : Dinfo
  pub name : Name
  pub wh_name : Name

-- `sbr_is_whable`.
abbrev pub is_whable : Brtable → ℕ → Bool
is_whable t b = elim (stobr t b) [ none ↦ false | some br ↦ br_whable br.perm ]

-- `do_lookup` marks the range of the dentry and stores the hidden dentry.
abbrev pub record_found : Dinfo → ℕ → HDentry → Dinfo
record_found d b hd =
    let d1 : Dinfo = (if le_bindex d.bend (some b) then set_dbend d (some b) else d) in
    let d2 : Dinfo =
      (if eq_bindex d1.bstart none || lt_bindex (some b) d1.bstart
        then set_dbstart d1 (some b)
        else d1) in
    set_h_dptr d2 b (some hd)

-- The last part of `do_lookup`: a directory on a branch with whiteouts is tested for opaqueness.
unfoldable pub lookup_opq : Env → ℕ → HDentry → Dinfo → Result (Option HDentry) × Dinfo
lookup_opq env b hd d =
    if elim hd.inode [ none ↦ false | some i ↦ is_dir i ] && is_whable env.table b
    then elim (is_diropq env.lkup hd) [
      | ok true ↦ (ok (some hd), set_dbdiropq d (some b))
      | ok false ↦ (ok (some hd), d)
      | err e ↦ (err e, set_h_dptr d b none)
    ]
    else (ok (some hd), d)

-- The lookup of the name itself, from the label `real_lookup` on.
unfoldable pub real_lookup :
    Env → ℕ → HDentry → Bool → Bool → ℕ → Dinfo → Result (Option HDentry) × Dinfo
unfolding lookup_opq
real_lookup env b hp wh_found allow_neg type d = elim (env.lkup hp env.name) [
  | err e ↦ (err e, d)
  | ok hd ↦ elim hd.inode [
    | none ↦ if not allow_neg then (ok none, d) else lookup_opq env b hd (record_found d b hd)
    | some i ↦
        if wh_found || (not (type == 0) && not (type == i.fmt))
        then (ok none, d)
        else lookup_opq env b hd (record_found d b hd)
  ]
]

-- `do_lookup`: the hidden dentry, positive or negative; `ok none` for whiteouted or not found.
unfoldable pub do_lookup : Env → ℕ → HDentry → Bool → ℕ → Dinfo → Result (Option HDentry) × Dinfo
unfolding real_lookup
do_lookup env b hp allow_neg type d =
    elim (if is_whable env.table b then is_wh env.lkup hp env.wh_name else ok false) [
      | err e ↦ (err e, d)
      | ok false ↦ real_lookup env b hp false allow_neg type d
      | ok true ↦
          if not allow_neg
          then (ok none, set_dbwh d (some b))
          else real_lookup env b hp true allow_neg type (set_dbwh d (some b))
    ]

-- How a round of the loop of `lkup_dentry` ends: the loop is left with a result, or goes on with
-- the dentry, the type, `allow_neg` and the number of positive hidden dentries.
pub data Round : Type 0 where
  stop : Result ℕ → Dinfo → Round
  next : Dinfo → ℕ → Bool → ℕ → Round

-- What the loop makes of a hidden dentry that `do_lookup` returned.
unfoldable pub after_lookup : Option HDentry → Dinfo → ℕ → ℕ → Round
after_lookup found d type npositive =
    if not (eq_bindex d.bwh none) then stop (ok npositive) d else elim found [
      | none ↦ next d type false npositive
      | some hd ↦ elim hd.inode [
        | none ↦ next d type false npositive
        | some i ↦
            let type' = (if type == 0 then i.fmt else type) in
            if not (type' == s_ifdir) || not (eq_bindex d.bdiropq none)
            then stop (ok (npositive + 1)) d
            else next d type' false (npositive + 1)
      ]
    ]

unfoldable pub lkup_round : Env → ℕ → Dinfo → ℕ → Bool → ℕ → Round
unfolding do_lookup after_lookup
lkup_round env b d type allow_neg npositive = elim (h_dptr_i d b) [
  | some hd ↦
      let npositive' = (if is_positive (some hd) then npositive + 1 else npositive) in
      if not (type == s_ifdir) then stop (ok npositive') d else next d type allow_neg npositive'
  | none ↦ elim (h_dptr_i env.parent b) [
    | none ↦ next d type allow_neg npositive
    | some hp ↦
        if not (elim hp.inode [ none ↦ false | some i ↦ is_dir i ])
        then next d type allow_neg npositive
        else (let (r, d') = do_lookup env b hp allow_neg type d in
            elim r [ err e ↦ stop (err e) d' | ok found ↦ after_lookup found d' type npositive ])
  ]
]

-- The loop of `lkup_dentry`, with the rounds left.
pub lkup_loop : ℕ → ℕ → Env → Dinfo → ℕ → Bool → ℕ → Result ℕ × Dinfo
lkup_loop zero b env d type allow_neg npositive = (ok npositive, d)
lkup_loop (suc n) b env d type allow_neg npositive =
    elim (lkup_round env b d type allow_neg npositive) [
      | stop r d' ↦ (r, d')
      | next d' type' allow_neg' npositive' ↦ lkup_loop n (b + 1) env d' type' allow_neg' npositive'
    ]

-- The end of `lkup_dentry`: the hidden dentries before the first positive one are dropped.
unfoldable pub lkup_end : Result ℕ × Dinfo → Result ℕ × Dinfo
lkup_end (err e, d) = (err e, d)
lkup_end (ok npositive, d) = (ok npositive, if not (npositive == 0) then update_dbstart d else d)

-- `lkup_dentry`: the number of positive hidden dentries, or an error.
unfoldable pub lkup_dentry : Lkup → Brtable → Dinfo → Name → Dinfo → ℕ → ℕ → Result ℕ × Dinfo
unfolding lkup_loop lkup_end
lkup_dentry lkup t parent name d bstart type =
    if has_wh_pfx name then (err eperm, d) else elim (alloc_whname name) [
      | err e ↦ (err e, d)
      | ok wh_name ↦
          let env : Env = record {
            lkup = lkup;
            table = t;
            parent = parent;
            name = name;
            wh_name = wh_name;
          } in
          lkup_end
            (lkup_loop (count_to (dbtaildir parent) - bstart) bstart env d type (type == 0) 0)
    ]

-- `lkup_neg`: the name must not exist on the branch. The source takes it for granted that the parent
-- is on the branch (DEBUG_ON); where it is not, the model gives -EIO.
unfoldable pub lkup_neg : Lkup → Dinfo → Name → Dinfo → ℕ → Result (Unit {0}) × Dinfo
lkup_neg lkup parent name d b = elim (h_dptr_i parent b) [
  | none ↦ (err eio, d)
  | some hp ↦ elim (lkup hp name) [
    | err e ↦ (err e, d)
    | ok hd ↦ elim hd.inode [
      | some i ↦ (err eio, d)
      | none ↦
          let d1 : Dinfo = (if lt_bindex (some b) d.bstart then set_dbstart d (some b) else d) in
          let d2 : Dinfo = (if lt_bindex d1.bend (some b) then set_dbend d1 (some b) else d1) in
          (ok tt, set_h_dptr d2 b (some hd))
    ]
  ]
]
