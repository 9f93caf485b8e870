-- ===== src/Vdir/Total.antt =====
-- When reading a directory meets no error.
use aufs.Common.{
  ℕ, ◌+◌, ◌≡◌, ◌⊎◌, refl, sym, subst, ◌>>=◌, ◌==◌, Bool, true, false, if◌then◌else◌, Option, some,
  none, List, [], ◌∷◌, drop, Result, ok, err, is_ok, arith, inl, inr,
}
use aufs.Whout.{wh_len}
use aufs.Xino.{XinoFile, xino_pos, assign_ino, xino_read, xino_write, new_ino}
use aufs.Vdir.{
  Raw, Env, Fill, known_above, append_de, append_wh, is_plain, fillvdir, read_branch, BranchDir,
  read_branches,
}

-- The table of inode numbers is off, or no transfer fails.
abbrev pub NoXinoError : Env → Type 0
NoXinoError env =
    (env.xino ≡ false)
    ⊎ (((p : ℕ) → env.io.reads p ≡ ok true) × ((p : ℕ) → env.io.writes p ≡ ok true))

xino_read-ok :
    (env : Env)
    → NoXinoError env
    → (f : XinoFile) (h : ℕ) → is_ok (xino_read env.xino env.io f h) ≡ true
unfolding xino_read
xino_read-ok env (inl off) f h = ground arith
xino_read-ok env (inr (reads, writes)) f h = ground (arith, reads (xino_pos h))

xino_write-ok :
    (env : Env)
    → NoXinoError env
    → (f : XinoFile) (h i : ℕ) → is_ok (xino_write env.xino env.io f h i) ≡ true
unfolding xino_write
xino_write-ok env (inl off) f h i = ground arith
xino_write-ok env (inr (reads, writes)) f h i = ground (arith, writes (xino_pos h))

is_ok-pair :
    (i : ℕ) (r : Result XinoFile)
    → is_ok r ≡ true
    → is_ok {A = ℕ × XinoFile} (r >>= λ f. ok (i, f)) ≡ true
is_ok-pair i (err e) h = absurd (ground arith)
is_ok-pair i (ok f) h = refl

assign_ino-ok :
    (env : Env)
    → NoXinoError env
    → (f : XinoFile) (h x : ℕ) → is_ok (assign_ino env.xino env.io f h x).0 ≡ true
unfolding assign_ino
assign_ino-ok env fine f h x = go (xino_read env.xino env.io f h) (xino_read-ok env fine f h)
  where
    go :
        (r : Result ℕ)
        → is_ok r ≡ true
        → is_ok
            (elim r as (λ _. Result (ℕ × XinoFile) × ℕ) [
              | err e ↦ (err e, x)
              | ok found ↦
                  let (ino, x') = (if found == 0 then new_ino x else (found, x)) in
                  ((do f' ← xino_write env.xino env.io f h ino; ok (ino, f')), x')
            ]).0
          ≡ true
    go (err e) q = absurd (ground arith)
    go (ok found) q = is_ok-pair _ _ (xino_write-ok env fine f h _)

append_de-ok :
    (env : Env) (k : ℕ) (raw : Raw) (s : Fill) (r : Result (ℕ × XinoFile) × ℕ)
    → is_ok r.0 ≡ true
    → (append_de env k raw s r).0 ≡ ok tt
append_de-ok env k raw s (err e, x) h = absurd (ground arith)
append_de-ok env k raw s (ok (i, f), x) h = refl

pub fillvdir-ok :
    (env : Env)
    → NoXinoError env
    → (k : ℕ) (raw : Raw) (s : Fill) → (fillvdir env k raw s).0 ≡ ok tt
unfolding fillvdir
fillvdir-ok env fine k raw s = go (is_plain raw.name) (known_above k env.hash s raw.name)
  where
    go :
        (b c : Bool)
        → (if b
            then (if c
                then (ok tt, s)
                else append_de env k raw s (assign_ino env.xino env.io s.file raw.h_ino s.counter))
            else (ok tt, append_wh env k (drop wh_len raw.name) s)).0
          ≡ ok tt
    go true true = refl
    go true false = append_de-ok env k raw s _ (assign_ino-ok env fine s.file raw.h_ino s.counter)
    go false c = refl

pub read_branch-ok :
    (env : Env)
    → NoXinoError env
    → (raws : List Raw) (k : ℕ) (s : Fill) → (read_branch env k raws s).0 ≡ ok tt
unfolding read_branch
read_branch-ok env fine [] k s = refl
read_branch-ok env fine (raw ∷ raws) k s =
    subst
      (λ r.
        (elim r as (λ _. Result (Unit {0}) × Fill) [
          | err e ↦ (err e, (fillvdir env k raw s).1)
          | ok u ↦ read_branch env k raws (fillvdir env k raw s).1
        ]).0
        ≡ ok tt)
      (sym (fillvdir-ok env fine k raw s)) (read_branch-ok env fine raws k (fillvdir env k raw s).1)

pub read_branches-ok :
    (env : Env)
    → NoXinoError env
    → (ds : List (Option BranchDir)) (k : ℕ) (s : Fill) → (read_branches env k ds s).0 ≡ ok tt
unfolding read_branches
read_branches-ok env fine [] k s = refl
read_branches-ok env fine (none ∷ ds) k s = read_branches-ok env fine ds (k + 1) s
read_branches-ok env fine (some d ∷ ds) k s =
    let start : Fill = record s { file = d.file } in
    let s1 = (read_branch env k d.entries start).1 in
    subst
      (λ r.
        (elim r as (λ _. Result (Unit {0}) × Fill) [
          | err e ↦ (err e, s1)
          | ok u ↦ read_branches env (k + 1) ds s1
        ]).0
        ≡ ok tt)
      (sym (read_branch-ok env fine d.entries k start)) (read_branches-ok env fine ds (k + 1) s1)
