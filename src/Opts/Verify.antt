-- ===== src/Opts/Verify.antt =====
-- `verify_opts`: the whiteout base of every branch.
use aufs.Common.{
  ℕ, zero, suc, ◌+◌, ◌≤◌, ◌<◌, ◌≡◌, ◌≢◌, refl, ap, ◌∙◌, subst, inl, inr, Bool, true, Bool-cases,
  le-cases, Option, some, none, set, get_or-set_ne, Result, ok, err, count_to, arith,
}
use aufs.Branch.{Branch, stobr, update_br}
use aufs.Whout.{BaseDir, WhBase, base_fits}
use aufs.Whout.Base.{init_wh_fits}
use aufs.Manage.{Super}
use aufs.Manage.Del.{set_base}
use aufs.Manage.Mod.{base_of}
use aufs.Manage.Entries.{stobr-update_br, update_br-at}
use aufs.Opts.Run.{store_base, verify_br, verify_from, verify_opts}

-- The branch at `b` has the base that its permission and the plink option ask for.
unfoldable pub fits_at : Super → Option Branch → Bool
unfolding base_fits
fits_at s none = true
fits_at s (some br) = base_fits br.perm s.plink (base_of br)

pub stobr-update_br_ne :
    (s : Super) (i j : ℕ) (f : Branch → Branch)
    → i ≢ j
    → stobr (update_br s.table i f) j ≡ stobr s.table j
stobr-update_br_ne s i j f h = go (stobr s.table i) refl
  where
    go :
        (o : Option Branch)
        → stobr s.table i ≡ o
        → stobr (update_br s.table i f) j ≡ stobr s.table j
    go none e =
        ap
          (λ o.
            stobr
              (elim o [
                | none ↦ s.table
                | some br ↦ record s.table { branch = set s.table.branch i (some (f br)) }
              ])
              j)
          e
    go (some br) e =
        ap (λ t. stobr t j) (update_br-at s.table i br f e)
        ∙ get_or-set_ne s.table.branch i j (some (f br)) none h

pub bend-update_br :
    (s : Super) (i : ℕ) (f : Branch → Branch) → (update_br s.table i f).bend ≡ s.table.bend
bend-update_br s i f = ground arith

-- What a round of the loop leaves of another branch, and what it makes of its own.
abbrev IsVerified : Super → ℕ → Result (Unit {0}) × Super → Type 0
IsVerified s b out =
    (out.1.table.bend ≡ s.table.bend)
    × (out.1.plink ≡ s.plink)
    × ((j : ℕ) → b ≢ j → stobr out.1.table j ≡ stobr s.table j)
    × (out.0 ≡ ok tt → fits_at out.1 (stobr out.1.table b) ≡ true)

module _ (bases : ℕ → BaseDir) (s : Super) (b : ℕ) where
  store_base-IsVerified :
      (br : Branch) (p : Result (Unit {0}) × WhBase)
      → stobr s.table b ≡ some br
      → (p.0 ≡ ok tt → base_fits br.perm s.plink p.1 ≡ true)
      → IsVerified s b (store_base s b p)
  unfolding fits_at
  store_base-IsVerified br (r, w) at fit = (
    bend-update_br s b (set_base w),
    refl,
    λ j h. stobr-update_br_ne s b j (set_base w) h,
    λ h. ap (fits_at s) (stobr-update_br s.table b br (set_base w) at) ∙ fit h,
  )

  verify_br-IsVerified :
      (o : Option Branch) → stobr s.table b ≡ o → IsVerified s b (verify_br bases b s o)
  unfolding fits_at
  verify_br-IsVerified none at = (refl, refl, λ j h. refl, λ h. ap (fits_at s) at)
  verify_br-IsVerified (some br) at = elim (Bool-cases (base_fits br.perm s.plink (base_of br))) [
    | inl fits ↦ rw fits (refl, refl, λ j h. refl, λ h. ap (fits_at s) at ∙ fits)
    | inr other ↦
        rw other
          (store_base-IsVerified br _ at (init_wh_fits br.perm s.plink (bases b) (base_of br)))
  ]

-- A loop that has `k` rounds left at `b`.
abbrev AreVerified : ℕ → ℕ → Super → Result (Unit {0}) × Super → Type 0
AreVerified k b s out =
    (out.1.table.bend ≡ s.table.bend)
    × ((j : ℕ) → j < b → stobr out.1.table j ≡ stobr s.table j)
    × (out.1.plink ≡ s.plink)
    × (out.0 ≡ ok tt → (j : ℕ) → b ≤ j → j < b + k → fits_at out.1 (stobr out.1.table j) ≡ true)

fits_at-same :
    (s u : Super) (o p : Option Branch)
    → u.plink ≡ s.plink
    → p ≡ o
    → fits_at s o ≡ true
    → fits_at u p ≡ true
unfolding fits_at
fits_at-same s u none p e q h = ap (fits_at u) q
fits_at-same s u (some br) p e q h =
    ap (fits_at u) q ∙ ap (λ l. base_fits br.perm l (base_of br)) e ∙ h

-- One round, and the rounds after it.
AreVerified-round :
    (k b : ℕ) (s : Super) (next : Super → Result (Unit {0}) × Super) (p : Result (Unit {0}) × Super)
    → IsVerified s b p
    → AreVerified k (b + 1) p.1 (next p.1)
    → AreVerified (suc k) b s (elim p.0 [ err e ↦ (err e, p.1) | ok u ↦ next p.1 ])
AreVerified-round k b s next (err e, u) (end, pl, rest, here) later =
    (end, λ j h. rest j (λ q. absurd (omega arith)), pl, λ h j p q. absurd (ground arith))
AreVerified-round k b s next (ok t, u) (end, pl, rest, here) (end', rest', pl', all) = (
  end' ∙ end,
  λ j h. rest' j (omega arith) ∙ rest j (λ q. absurd (omega arith)),
  pl' ∙ pl,
  λ h j p q. elim (le-cases b j p) [
    | inl e ↦
        subst (λ i. fits_at (next u).1 (stobr (next u).1.table i) ≡ true) e
          (fits_at-same u (next u).1 (stobr u.table b) (stobr (next u).1.table b) pl'
            (rest' b (omega arith)) (here refl))
    | inr above ↦ all h j above (omega arith)
  ],
)

verify_from-AreVerified :
    (k b : ℕ) (bases : ℕ → BaseDir) (s : Super) → AreVerified k b s (verify_from k b bases s)
unfolding verify_from
verify_from-AreVerified zero b bases s = (refl, λ j h. refl, refl, λ h j p q. absurd (omega arith))
verify_from-AreVerified (suc k) b bases s =
    let p = verify_br bases b s (stobr s.table b) in
    AreVerified-round k b s (verify_from k (b + 1) bases) p (verify_br-IsVerified bases s b _ refl)
      (verify_from-AreVerified k (b + 1) bases p.1)

-- Every branch has the base that its permission and the plink option ask for.
abbrev pub AllFit : Super → Type 0
AllFit s = (b : ℕ) → b < count_to s.table.bend → fits_at s (stobr s.table b) ≡ true

-- After `verify_opts` without an error, every branch has the base that its permission and the plink
-- option ask for, and there are as many branches as before.
pub verify_opts-AllFit :
    (bases : ℕ → BaseDir) (s : Super)
    → (verify_opts bases s).0 ≡ ok tt
    → ((verify_opts bases s).1.table.bend ≡ s.table.bend) × AllFit (verify_opts bases s).1
unfolding verify_opts
verify_opts-AllFit bases s h =
    let (end, rest, pl, all) = verify_from-AreVerified (count_to s.table.bend) 0 bases s in
    (end, λ b k. all h b (omega arith) (subst (λ e. b < 0 + count_to e) end (omega arith)))
