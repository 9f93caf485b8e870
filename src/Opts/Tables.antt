-- ===== src/Opts/Tables.antt =====
-- The steps on the inode number tables change only the files of the branches.
use aufs.Common.{
  arith, is_ok, ℕ, zero, suc, ◌+◌, ◌≡◌, refl, ap, ◌∙◌, sym, subst, Bool, true, false, ◌==◌, ltb,
  Bool-cases, inl, inr, Option-cases, if◌then◌else◌, Option, some, none, List, Result, ok, err,
  Errno, eio, count_to, ==_iff,
}
use aufs.Iinfo.{h_iptr_i}
use aufs.Branch.{Branch, Brtable, live, stobr, update_br}
use aufs.Xino.{XinoFile}
use aufs.Plink.{PseudoLink}
use aufs.Manage.{Super}
use aufs.Manage.Add.{XinoEnv, xino_of, keep_xino, use_xino, xino_init}
use aufs.Manage.Entries.{stobr-update_br}
use aufs.Manage.Disjoint.{StaysDisjoint}
use aufs.Manage.Stays.{update_br-StaysDisjoint, update_br-missing}
use aufs.Opts.{
  OptXino, file_count, set_xino, drop_shared, copy_xino, ino_of, init_missing, flag_xino, xino_set,
  clear_xino, xino_clr,
}
use aufs.Opts.Verify.{fits_at, stobr-update_br_ne, bend-update_br}

-- The branches stay apart, their number stays, and so does whether the base of each fits.
abbrev pub OnlyXino : Brtable → Brtable → Type 0
OnlyXino t t' =
    ((s : Super) → StaysDisjoint (record s { table = t }) → StaysDisjoint (record s { table = t' }))
    × (t'.bend ≡ t.bend)
    × ((s : Super) (j : ℕ) → fits_at s (stobr t' j) ≡ fits_at s (stobr t j))

OnlyXino-refl : (t : Brtable) → OnlyXino t t
OnlyXino-refl t = (λ s d. d, refl, λ s j. refl)

OnlyXino-trans : (t u v : Brtable) → OnlyXino t u → OnlyXino u v → OnlyXino t v
OnlyXino-trans t u v (p, q, r) (p', q', r') = (λ s d. p' s (p s d), q' ∙ q, λ s j. r' s j ∙ r s j)

set_xino-fits :
    (s w : Super) (i j : ℕ) (f : Option ℕ)
    → fits_at s (stobr (update_br w.table i (set_xino f)) j) ≡ fits_at s (stobr w.table j)
unfolding fits_at
set_xino-fits s w i j f = elim (Option-cases (stobr w.table i)) [
  | inl missing ↦ ap (λ t. fits_at s (stobr t j)) (update_br-missing w i (set_xino f) missing)
  | inr (br, at) ↦ elim (Bool-cases (i == j)) [
    | inl same ↦
        subst
          (λ k.
            fits_at s (stobr (update_br w.table i (set_xino f)) k) ≡ fits_at s (stobr w.table k))
          ((==_iff i j).0 same)
          (ap (fits_at s) (stobr-update_br w.table i br (set_xino f) at) ∙ sym (ap (fits_at s) at))
    | inr other ↦
        ap (fits_at s) (stobr-update_br_ne w i j (set_xino f) (λ e. absurd (ground arith)))
  ]
]

-- A super with the table, for the lemmas that are stated on one.
module _ (w : Super) where
  pub update_br-OnlyXino :
      (t : Brtable) (i : ℕ) (f : Option ℕ) → OnlyXino t (update_br t i (set_xino f))
  update_br-OnlyXino t i f = (
    λ s d. update_br-StaysDisjoint (record s { table = t }) i (set_xino f) (λ b. refl) d,
    bend-update_br (record w { table = t }) i (set_xino f),
    λ s j. set_xino-fits s (record w { table = t }) i j f,
  )

  keep_xino-OnlyXino :
      (t : Brtable) (b f : ℕ) (r : Result XinoFile) → OnlyXino t (keep_xino t b f r).1
  keep_xino-OnlyXino t b f (err e) = update_br-OnlyXino t b none
  keep_xino-OnlyXino t b f (ok file) = update_br-OnlyXino t b (some f)

  use_xino-OnlyXino :
      (env : XinoEnv) (t : Brtable) (b h_ino : ℕ) (r : Result ℕ)
      → OnlyXino t (use_xino env t b h_ino r).1
  use_xino-OnlyXino env t b h_ino (err e) = OnlyXino-refl t
  use_xino-OnlyXino env t b h_ino (ok f) = keep_xino-OnlyXino t b f _

  pub xino_init-OnlyXino :
      (env : XinoEnv) (t : Brtable) (b h_ino : ℕ) (test : Bool)
      → OnlyXino t (xino_init env t b h_ino test).1
  unfolding xino_init
  xino_init-OnlyXino env t b h_ino test = use_xino-OnlyXino env t b h_ino _

  drop_shared-OnlyXino : (n : ℕ) (t : Brtable) → OnlyXino t (drop_shared n t)
  unfolding drop_shared
  drop_shared-OnlyXino zero t = OnlyXino-refl t
  drop_shared-OnlyXino (suc b) t =
      let t' = dropped (xino_of (stobr t b)) in
      OnlyXino-trans t t' (drop_shared b t') (step (xino_of (stobr t b)))
        (drop_shared-OnlyXino b t')
    where
      dropped : Option ℕ → Brtable
      dropped o = elim o [
        | none ↦ t
        | some f ↦ if ltb 1 (file_count f (live t)) then update_br t b (set_xino none) else t
      ]

      step : (o : Option ℕ) → OnlyXino t (dropped o)
      step none = OnlyXino-refl t
      step (some f) =
          elim (ltb 1 (file_count f (live t)))
            as (λ c. OnlyXino t (if c then update_br t b (set_xino none) else t)) [
              | true ↦ update_br-OnlyXino t b none
              | false ↦ OnlyXino-refl t
            ]

  clear_xino-OnlyXino : (k b : ℕ) (t : Brtable) → OnlyXino t (clear_xino k b t)
  unfolding clear_xino
  clear_xino-OnlyXino zero b t = OnlyXino-refl t
  clear_xino-OnlyXino (suc k) b t =
      let t' = update_br t b (set_xino none) in
      OnlyXino-trans t t' (clear_xino k (b + 1) t') (update_br-OnlyXino t b none)
        (clear_xino-OnlyXino k (b + 1) t')

  abbrev TableOut : Brtable → Result (Unit {0}) × Brtable → Type 0
  TableOut t out = OnlyXino t out.1

  copy_round :
      (t : Brtable) (b : ℕ) (next : Brtable → Result (Unit {0}) × Brtable) (o : Option ℕ)
      (r : Result ℕ)
      → ((u : Brtable) → TableOut u (next u))
      → TableOut t (elim o [
        | none ↦ next t
        | some g ↦ elim r [ err e ↦ (err e, t) | ok f ↦ next (update_br t b (set_xino (some f))) ]
      ])
  copy_round t b next none r h = h t
  copy_round t b next (some g) (err e) h = OnlyXino-refl t
  copy_round t b next (some g) (ok f) h =
      let t' = update_br t b (set_xino (some f)) in
      OnlyXino-trans t t' (next t').1 (update_br-OnlyXino t b (some f)) (h t')

  copy_xino-OnlyXino : (k b : ℕ) (x : OptXino) (t : Brtable) → OnlyXino t (copy_xino k b x t).1
  unfolding copy_xino
  copy_xino-OnlyXino zero b x t = OnlyXino-refl t
  copy_xino-OnlyXino (suc k) b x t =
      copy_round t b (copy_xino k (b + 1) x) (xino_of (stobr t b)) _
        (copy_xino-OnlyXino k (b + 1) x)

  init_round :
      (t : Brtable) (same next : Result (Unit {0}) × Brtable) (stop : Errno → Errno) (o : Option ℕ)
      (p : Result XinoFile × Brtable)
      → OnlyXino t p.1
      → TableOut t same
      → TableOut p.1 next
      → TableOut t
          (elim o [ some g ↦ same | none ↦ elim p.0 [ ok f ↦ next | err e ↦ (err (stop e), p.1) ] ])
  init_round t same next stop (some g) p h i j = i
  init_round t same next stop none (ok f, t') h i j = OnlyXino-trans t t' next.1 h j
  init_round t same next stop none (err e, t') h i j = h

  init_missing-OnlyXino :
      (k b : ℕ) (x : OptXino) (s : Super) (e : Result (Unit {0})) (t : Brtable)
      → OnlyXino t (init_missing k b x s e t).1
  unfolding init_missing
  init_missing-OnlyXino zero b x s e t = OnlyXino-refl t
  init_missing-OnlyXino (suc k) b x s e t =
      let p = xino_init (x.init b) t b (ino_of (h_iptr_i s.root_inode b)) true in
      init_round t (init_missing k (b + 1) x s e t) (init_missing k (b + 1) x s (ok tt) p.1)
        (λ c. eio) (xino_of (stobr t b)) p (xino_init-OnlyXino (x.init b) t b _ true)
        (init_missing-OnlyXino k (b + 1) x s e t) (init_missing-OnlyXino k (b + 1) x s (ok tt) p.1)

-- The same for a mount, whose flag of the table may change too.
abbrev pub OnlyTables : Super → Super → Type 0
OnlyTables s u =
    (StaysDisjoint s → StaysDisjoint u)
    × (u.table.bend ≡ s.table.bend)
    × ((j : ℕ) → fits_at u (stobr u.table j) ≡ fits_at s (stobr s.table j))

pub StaysDisjoint-flags :
    (s : Super) (x p : Bool) (l : List PseudoLink)
    → StaysDisjoint s
    → StaysDisjoint (record s { xino = x; plink = p; plinks = l })
StaysDisjoint-flags s x p l (es, r, d) = (
  es,
  record {
    bend = r.bend;
    root_bend = r.root_bend;
    inode_bend = r.inode_bend;
    root_start = r.root_start;
    inode_start = r.inode_start;
    branches = r.branches;
    dentries = r.dentries;
    inodes = r.inodes;
    slots = r.slots;
  },
  d,
)

fits_at-xino :
    (s : Super) (t : Brtable) (b : Bool) (o : Option Branch)
    → fits_at (record s { table = t; xino = b }) o ≡ fits_at s o
unfolding fits_at
fits_at-xino s t b none = refl
fits_at-xino s t b (some br) = refl

pub OnlyXino-OnlyTables :
    (s : Super) (t : Brtable) (b : Bool)
    → OnlyXino s.table t
    → OnlyTables s (record s { table = t; xino = b })
OnlyXino-OnlyTables s t b (p, q, r) = (
  λ d. StaysDisjoint-flags (record s { table = t }) b s.plink s.plinks (p s d),
  q,
  λ j. fits_at-xino s t b (stobr t j) ∙ r s j,
)

xino_set-table :
    (s : Super) (x : OptXino) (b : Bool)
    → OnlyTables s
        (if b
          then flag_xino s (ok tt, s.table)
          else (let n = count_to s.table.bend in
              let (e, t) = copy_xino n 0 x (drop_shared n s.table) in
              flag_xino s (init_missing n 0 x s e t))).1
xino_set-table s x true = OnlyXino-OnlyTables s s.table true (OnlyXino-refl s.table)
xino_set-table s x false =
    let n = count_to s.table.bend in
    let t1 = drop_shared n s.table in
    let c = copy_xino n 0 x t1 in
    let m = init_missing n 0 x s c.0 c.1 in
    OnlyXino-OnlyTables s m.1 (is_ok m.0) (
      OnlyXino-trans s.table t1 m.1 (drop_shared-OnlyXino s n s.table) (
        OnlyXino-trans t1 c.1 m.1 (copy_xino-OnlyXino s n 0 x t1)
          (init_missing-OnlyXino s n 0 x s c.0 c.1)))

-- Whatever `xino_set` returns.
pub xino_set-OnlyTables :
    (s : Super) (x : OptXino) (remount : Bool) → OnlyTables s (xino_set s x remount).1
unfolding xino_set
xino_set-OnlyTables s x remount = xino_set-table s x _

pub xino_clr-OnlyTables : (s : Super) → OnlyTables s (xino_clr s)
unfolding xino_clr
xino_clr-OnlyTables s =
    OnlyXino-OnlyTables s _ false (clear_xino-OnlyXino s (count_to s.table.bend) 0 s.table)
