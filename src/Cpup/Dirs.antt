-- ===== src/Cpup/Dirs.antt =====
-- `cpup_dirs` ends, and makes the directories from the top down.
use aufs.Common.{
  arith, ℕ, zero, suc, ◌+◌, ◌-◌, ◌<◌, ◌==◌, ◌≡◌, refl, ap, ◌∙◌, sym, subst, ◌⊎◌, inl, inr, le-cases,
  Bool, true, false, Option, some, ◌∷◌, ◌++◌, length, replicate, get_or, set, Result, ok, err,
  Errno, if◌then◌else◌,
}
use aufs.Cpup.{DirPath, top_from, cpup_loop, cpup_dirs, test_and_cpup_dirs}

-- The `k` nearest directories lack their slot, and the one above them has it.
abbrev pub lacking : ℕ → DirPath → DirPath
lacking k above = replicate k false ++ (true ∷ above)

top_from-lacking : (k d : ℕ) (above : DirPath) → top_from (lacking k above) d ≡ some (d + k)
unfolding top_from
top_from-lacking zero d above = ap some (omega arith)
top_from-lacking (suc k) d above = top_from-lacking k (d + 1) above ∙ ap some (omega arith)

top_at : (k : ℕ) (above : DirPath) → top_from (lacking k above) 0 ≡ some k
top_at k above = let e : 0 + k ≡ k = omega arith in top_from-lacking k 0 above ∙ ap some e

get_or-lacking : (k : ℕ) (above : DirPath) → get_or (lacking (suc k) above) k false ≡ false
get_or-lacking zero above = refl
get_or-lacking (suc k) above = get_or-lacking k above

set-lacking :
    (k : ℕ) (above : DirPath) → set (lacking (suc k) above) k true ≡ lacking k (true ∷ above)
set-lacking zero above = refl
set-lacking (suc k) above = ap (◌∷◌ false) (set-lacking k above)

replicate-snoc :
    (n : ℕ) (above : DirPath) → replicate n true ++ (true ∷ above) ≡ replicate (suc n) true ++ above
replicate-snoc zero above = refl
replicate-snoc (suc n) above = ap (◌∷◌ true) (replicate-snoc n above)

module _ (cpup : ℕ → Result (Unit {0})) where
  -- Either every directory was made, or the one at `d` could not be, after all above it were made
  -- and before any below it.
  abbrev pub IsMade : ℕ → DirPath → Result (Unit {0}) × DirPath → Type 0
  IsMade k above out =
      (((i : ℕ) → i < k → cpup i ≡ ok tt) × (out ≡ (ok tt, replicate (suc k) true ++ above)))
      ⊎ ((d : ℕ) × (e : Errno) × (d < k)
          × (cpup d ≡ err e)
          × ((i : ℕ) → d < i → i < k → cpup i ≡ ok tt)
          × (out ≡ (err e, lacking (suc d) (replicate (k - suc d) true ++ above))))

  IsMade-failed :
      (k : ℕ) (above : DirPath) (e : Errno)
      → cpup k ≡ err e
      → IsMade (suc k) above (err e, lacking (suc k) above)
  IsMade-failed k above e h =
      let none_above : 0 ≡ suc k - suc k = omega arith in
      inr (
        k,
        e,
        omega arith,
        h,
        λ i p q. absurd (omega arith),
        ap (λ n. (err e, lacking (suc k) (replicate n true ++ above))) none_above,
      )

  below : (k : ℕ) → cpup k ≡ ok tt → (i : ℕ) → i < suc k → (i < k → cpup i ≡ ok tt) → cpup i ≡ ok tt
  below k h i p f = elim (le-cases (suc i) (suc k) (omega arith)) [
    | inl e ↦ subst (λ j. cpup j ≡ ok tt) (omega arith) h
    | inr q ↦ f (omega arith)
  ]

  IsMade-suc :
      (k : ℕ) (above : DirPath) (out : Result (Unit {0}) × DirPath)
      → cpup k ≡ ok tt
      → IsMade k (true ∷ above) out
      → IsMade (suc k) above out
  IsMade-suc k above out h (inl (all, same)) =
      inl (λ i p. below k h i p (all i), same ∙ ap (λ l. (ok tt, l)) (replicate-snoc (suc k) above))
  IsMade-suc k above out h (inr (d, e, small, failed, rest, same)) =
      let more : suc (k - suc d) ≡ suc k - suc d = omega arith in
      inr (
        d,
        e,
        omega arith,
        failed,
        λ i p q. below k h i q (rest i p),
        same
            ∙ ap (λ l. (err e, lacking (suc d) l)) (replicate-snoc (k - suc d) above)
            ∙ ap (λ n. (err e, lacking (suc d) (replicate n true ++ above))) more,
      )

  -- The loop returns, with an outcome of that kind.
  abbrev pub Returns : ℕ → DirPath → Option (Result (Unit {0}) × DirPath) → Type 0
  Returns k above o = (out : Result (Unit {0}) × DirPath) × (o ≡ some out) × IsMade k above out

  with_copy :
      (k : ℕ) (above : DirPath) (r : Result (Unit {0}))
      (next : Option (Result (Unit {0}) × DirPath))
      → cpup k ≡ r
      → Returns k (true ∷ above) next
      → Returns (suc k) above (elim r [ err e ↦ some (err e, lacking (suc k) above) | ok u ↦ next ])
  with_copy k above (err e) next h n =
      ((err e, lacking (suc k) above), refl, IsMade-failed k above e h)
  with_copy k above (ok u) next h (out, e, m) = (out, e, IsMade-suc k above out h m)

  abbrev with_next :
      ℕ → ℕ → DirPath → Result (Unit {0}) → DirPath → Option (Result (Unit {0}) × DirPath)
  with_next f k above r l = elim r [
    | err e ↦ some (err e, lacking (suc k) above)
    | ok u ↦ cpup_loop f cpup l
  ]

  loop_round :
      (f k : ℕ) (above : DirPath)
      → cpup_loop (suc f) cpup (lacking (suc k) above) ≡ elim (cpup k) [
        | err e ↦ some (err e, lacking (suc k) above)
        | ok u ↦ cpup_loop f cpup (lacking k (true ∷ above))
      ]
  unfolding cpup_loop
  loop_round f k above =
      rw (top_at k above) rw (get_or-lacking k above)
        (ap (with_next f k above (cpup k)) (set-lacking k above))

  loop_top :
      (f : ℕ) (above : DirPath) → Returns zero above (cpup_loop (suc f) cpup (lacking zero above))
  unfolding cpup_loop
  loop_top f above = ((ok tt, true ∷ above), refl, inl (λ i p. absurd (omega arith), refl))

  cpup_loop-Returns :
      (k f : ℕ) (above : DirPath) → k < f → Returns k above (cpup_loop f cpup (lacking k above))
  cpup_loop-Returns k zero above h = absurd (omega arith)
  cpup_loop-Returns zero (suc f) above h = loop_top f above
  cpup_loop-Returns (suc k) (suc f) above h =
      subst (Returns (suc k) above) (sym (loop_round f k above)) (
        with_copy k above (cpup k) (cpup_loop f cpup (lacking k (true ∷ above))) refl
          (cpup_loop-Returns k f (true ∷ above) (omega arith)))

length-lacking : (k : ℕ) (above : DirPath) → length (lacking k above) ≡ k + suc (length above)
length-lacking zero above = omega arith
length-lacking (suc k) above = omega (arith, length-lacking k above)

module _ (cpup : ℕ → Result (Unit {0})) where
  enough : (k : ℕ) (above : DirPath) → k < suc (length (lacking k above))
  enough k above = omega (arith, length-lacking k above)

  cpup_dirs-Returns :
      (k : ℕ) (above : DirPath) → Returns cpup k above (cpup_dirs cpup (lacking k above))
  unfolding cpup_dirs
  cpup_dirs-Returns zero above =
      elim (length (lacking zero above) == 1)
        as (λ b. Returns cpup zero above (
          if b
          then some (ok tt, lacking zero above)
          else cpup_loop (suc (length (lacking zero above))) cpup (lacking zero above))) [
            | true ↦ ((ok tt, true ∷ above), refl, inl (λ i p. absurd (omega arith), refl))
            | false ↦ cpup_loop-Returns cpup zero _ above (enough zero above)
          ]
  cpup_dirs-Returns (suc k) above =
      rw (long k above) (cpup_loop-Returns cpup (suc k) _ above (enough (suc k) above))
    where
      long : (k : ℕ) (above : DirPath) → (length (lacking (suc k) above) == 1) ≡ false
      long k above = ground (arith, length-lacking k above)

-- On a path whose `k` nearest directories lack their slot on the branch below one that has it,
-- `cpup_dirs` and `test_and_cpup_dirs` return. Either each of the `k` directories was copied up and
-- all have their slot, or the copy of one failed: its error is returned, every directory above it
-- was copied before, and none from it down has a slot. `has_inode` says of the parent whether it has
-- its slot.
pub cpup_dirs-IsMade :
    (cpup : ℕ → Result (Unit {0})) (k : ℕ) (above : DirPath) (has_inode : Bool)
    → has_inode ≡ get_or (lacking k above) 0 false
    → Returns cpup k above (cpup_dirs cpup (lacking k above))
      × Returns cpup k above (test_and_cpup_dirs cpup has_inode (lacking k above))
unfolding test_and_cpup_dirs
cpup_dirs-IsMade cpup k above false h =
    (cpup_dirs-Returns cpup k above, cpup_dirs-Returns cpup k above)
cpup_dirs-IsMade cpup zero above true h = (
  cpup_dirs-Returns cpup zero above,
  ((ok tt, true ∷ above), refl, inl (λ i p. absurd (omega arith), refl)),
)
cpup_dirs-IsMade cpup (suc k) above true h = absurd (ground arith)
