-- ===== src/Vdir/Once.antt =====
-- No name is listed twice.
use aufs.Common.{
  ℕ, ◌+◌, ◌≤◌, ◌<◌, ◌≡◌, refl, sym, subst, Bool, true, false, ◌&&◌, ◌||◌, if◌then◌else◌, Option,
  some, none, List, [], ◌∷◌, length, drop, Result, ok, err, arith, Bool-cases, inl, inr, All,
}
use aufs.Whout.{Name, eq_name, wh_len}
use aufs.Whout.Names.{eq_name_iff}
use aufs.Xino.{XinoFile, assign_ino}
use aufs.Vdir.{
  Raw, De, Env, Fill, known_above, append_de, append_wh, is_plain, fillvdir, read_branch, BranchDir,
  read_branches, read_vdir,
}
use aufs.Vdir.Step.{IsSized, IsFilled-above, known_above-same}
use aufs.Vdir.Merge.{shows, whiteouts, fillvdir-IsFilled, read_branch-IsFilled}
use aufs.Vdir.Total.{NoXinoError, fillvdir-ok, read_branch-ok}
use aufs.Vdir.Union.{
  IsEmptyFrom, IsEmptyFrom-next, known_above-next, known_above-empty, test_known-fresh, start,
  start-IsSized,
}

-- How often a listing has a name, and how often a branch shows it.
abbrev pub one : Bool → ℕ
one true = 1
one false = 0

abbrev pub times : List De → Name → ℕ
times [] n = 0
times (d ∷ ds) n = one (eq_name d.name n) + times ds n

abbrev pub times_shown : List Raw → Name → ℕ
times_shown [] n = 0
times_shown (r ∷ rs) n = one (is_plain r.name && eq_name r.name n) + times_shown rs n

-- How often the union shows it.
abbrev times_listed : List (Option BranchDir) → Name → ℕ
times_listed [] n = 0
times_listed (none ∷ ds) n = times_listed ds n
times_listed (some d ∷ ds) n =
    times_shown d.entries n
    + (if shows d.entries n || whiteouts d.entries n then 0 else times_listed ds n)

module _ (k : ℕ) (env : Env) (raw : Raw) (s : Fill) (n : Name) where
  abbrev Adds : Fill → Bool → Type 0
  Adds s' b =
      times s'.entries n ≡ times s.entries n + (if known_above k env.hash s n then 0 else one b)

  append_de-Adds :
      (r : Result (ℕ × XinoFile) × ℕ)
      → known_above k env.hash s raw.name ≡ false
      → (append_de env k raw s r).0 ≡ ok tt
      → Adds (append_de env k raw s r).1 (eq_name raw.name n)
  append_de-Adds (err e, x) new h = absurd (ground arith)
  append_de-Adds (ok (i, f), x) new h = elim (Bool-cases (eq_name raw.name n)) [
    | inl e ↦
        let same =
          subst (λ o. known_above k env.hash s o ≡ false) ((eq_name_iff raw.name n).0 e) new in
        ground arith
    | inr e ↦ ground arith
  ]

  plain-Adds :
      (b : Bool)
      → known_above k env.hash s raw.name ≡ b
      → let r = assign_ino env.xino env.io s.file raw.h_ino s.counter in
        let out : Result (Unit {0}) × Fill = (if b then (ok tt, s) else append_de env k raw s r) in
        out.0 ≡ ok tt → Adds out.1 (eq_name raw.name n)
  plain-Adds true e = λ h. elim (Bool-cases (eq_name raw.name n)) [
    | inl q ↦
        let same =
          subst (λ o. known_above k env.hash s o ≡ true) ((eq_name_iff raw.name n).0 q) e in
        ground arith
    | inr q ↦ ground arith
  ]
  plain-Adds false e = append_de-Adds (assign_ino env.xino env.io s.file raw.h_ino s.counter) e

  wh-Adds : (a : Name) → Adds (append_wh env k a s) false
  wh-Adds a = ground arith

  fillvdir-Adds :
      (fillvdir env k raw s).0 ≡ ok tt
      → Adds (fillvdir env k raw s).1 (is_plain raw.name && eq_name raw.name n)
  unfolding fillvdir
  fillvdir-Adds = go (is_plain raw.name)
    where
      go :
          (b : Bool)
          → let r = assign_ino env.xino env.io s.file raw.h_ino s.counter in
            let out : Result (Unit {0}) × Fill =
              (if b
                then (if known_above k env.hash s raw.name
                    then (ok tt, s)
                    else append_de env k raw s r)
                else (ok tt, append_wh env k (drop wh_len raw.name) s)) in
            out.0 ≡ ok tt → Adds out.1 (b && eq_name raw.name n)
      go true = plain-Adds (known_above k env.hash s raw.name) refl
      go false = λ h. wh-Adds (drop wh_len raw.name)

read_branch-times :
    (m k : ℕ) (env : Env) (fine : NoXinoError env) (n : Name) (raws : List Raw) (s : Fill)
    → IsSized m s
    → k < m
    → times (read_branch env k raws s).1.entries n
      ≡ times s.entries n + (if known_above k env.hash s n then 0 else times_shown raws n)
unfolding read_branch
read_branch-times m k env fine n [] s sized below = ground arith
read_branch-times m k env fine n (raw ∷ raws) s sized below =
    let good = fillvdir-ok env fine k raw s in
    let s1 = (fillvdir env k raw s).1 in
    let step = fillvdir-IsFilled m k env raw s sized below good in
    let rest = read_branch-times m k env fine n raws s1 step.sized below in
    subst
      (λ r.
        times
          (elim r as (λ _. Result (Unit {0}) × Fill) [
            | err e ↦ (err e, s1)
            | ok u ↦ read_branch env k raws s1
          ]).1.entries
          n
        ≡ times s.entries n
          + (if known_above k env.hash s n then 0 else times_shown (raw ∷ raws) n))
      (sym good) (ground (arith, rest, fillvdir-Adds k env raw s n good, IsFilled-above step n))

read_branches-times :
    (m k : ℕ) (env : Env) (fine : NoXinoError env) (n : Name) (ds : List (Option BranchDir))
    (s : Fill)
    → IsSized m s
    → k + length ds ≤ m
    → IsEmptyFrom k env s
    → times (read_branches env k ds s).1.entries n
      ≡ times s.entries n + (if known_above k env.hash s n then 0 else times_listed ds n)
unfolding read_branches
read_branches-times m k env fine n [] s sized h empty = ground arith
read_branches-times m k env fine n (none ∷ ds) s sized h empty =
    let rest =
      read_branches-times m (k + 1) env fine n ds s sized (omega arith)
        (λ j p. empty j (omega arith)) in
    ground (arith, rest, known_above-empty k env s empty n)
read_branches-times m k env fine n (some d ∷ ds) s sized h empty =
    let begun : Fill = record s { file = d.file } in
    let sized' : IsSized m begun = record {
      des = sized.des;
      whs = sized.whs;
      de_heads = sized.de_heads;
      wh_heads = sized.wh_heads;
    } in
    let good = read_branch-ok env fine d.entries k begun in
    let s1 = (read_branch env k d.entries begun).1 in
    let f = read_branch-IsFilled m k env d.entries begun sized' (omega arith) good in
    let rest =
      read_branches-times m (k + 1) env fine n ds s1 f.sized (omega arith)
        (IsEmptyFrom-next f empty) in
    let here = read_branch-times m k env fine n d.entries begun sized' (omega arith) in
    subst
      (λ r.
        times
          (elim r as (λ _. Result (Unit {0}) × Fill) [
            | err e ↦ (err e, s1)
            | ok u ↦ read_branches env (k + 1) ds s1
          ]).1.entries
          n
        ≡ times s.entries n
          + (if known_above k env.hash s n then 0 else times_listed (some d ∷ ds) n))
      (sym good)
      (ground (
        arith,
        rest,
        here,
        known_above-next f empty n,
        known_above-same k env.hash s begun n (λ j p. refl) (λ j p. refl),
      ))

-- A name that a branch does not show is not counted there.
times_shown-none : (rs : List Raw) (n : Name) → shows rs n ≡ false → times_shown rs n ≡ 0
times_shown-none [] n h = refl
times_shown-none (r ∷ rs) n h = ground (arith, times_shown-none rs n)

-- No directory of a branch has a name twice.
abbrev pub IsDistinct : Option BranchDir → Type 0
IsDistinct none = Unit
IsDistinct (some d) = (n : Name) → times_shown d.entries n ≤ 1

times_listed-le :
    (ds : List (Option BranchDir)) (n : Name) → All IsDistinct ds → times_listed ds n ≤ 1
times_listed-le [] n h = omega arith
times_listed-le (none ∷ ds) n (u, h) = times_listed-le ds n h
times_listed-le (some d ∷ ds) n (u, h) = elim (Bool-cases (shows d.entries n)) [
  | inl e ↦ let one_here = u n in ground arith
  | inr e ↦ ground (arith, times_listed-le ds n h, times_shown-none d.entries n e)
]

-- Where no directory of a branch has a name twice, the listing has no name twice.
pub read_vdir-times :
    (env : Env) (bstart : ℕ) (ds : List (Option BranchDir)) (counter : ℕ) (n : Name)
    → NoXinoError env
    → All IsDistinct ds
    → times (read_vdir env bstart ds counter).1.entries n ≤ 1
unfolding read_vdir
read_vdir-times env bstart ds counter n fine distinct =
    let s = start bstart ds counter in
    let empty : IsEmptyFrom 0 env s = λ j h o. (
      test_known-fresh env.hash (bstart + length ds) j o,
      test_known-fresh env.hash (bstart + length ds) j o,
    ) in
    let count =
      read_branches-times (bstart + length ds) bstart env fine n ds s
        (start-IsSized bstart ds counter) (omega arith) (λ j h. empty j (omega arith)) in
    ground (arith, count, times_listed-le ds n distinct)
