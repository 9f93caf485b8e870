-- ===== src/Plink/Refresh.antt =====
-- What `half_refresh_plink` leaves in the list.
use aufs.Common.{
  ℕ, zero, suc, ◌+◌, ◌-◌, ◌≤◌, ◌<◌, ◌≡◌, refl, ap, ◌∙◌, subst, ◌==◌, true, false, ◌&&◌,
  if◌then◌else◌, Option, some, none, List, [], ◌∷◌, get_or, set, get_or-set_ne, first_such,
  first_such-first, IsFirstSuch, Bindex, count_to, from_branch, All, arith, Bool-cases, inl, inr,
}
use aufs.Iinfo.{is_there, Hinode, Iinfo, zero_hinode, new_slot, set_h_iptr}
use aufs.Plink.{
  PseudoLink, is_id, has_branch, drop_empty, refresh_plink, keep_plink, half_refresh_plink,
}

-- No hidden inode in the range is of the branch.
abbrev pub IsFree : ℕ → Iinfo → Type 0
IsFree br_id ii =
    (b : ℕ) → from_branch ii.bstart ≤ b → b < count_to ii.bend → has_branch ii br_id b ≡ false

-- At most one hidden inode is of the branch.
abbrev pub IsOnce : ℕ → Iinfo → Type 0
IsOnce br_id ii = (a b : ℕ) → has_branch ii br_id a ≡ true → has_branch ii br_id b ≡ true → a ≡ b

-- The slot that was put holds nothing, and the others are what they were.
has_branch-set :
    (xs : List Hinode) (b j : ℕ)
    → (get_or (set xs b (new_slot (get_or xs b zero_hinode) none 0)) j zero_hinode).inode
      ≡ (if b == j then none else (get_or xs j zero_hinode).inode)
has_branch-set [] b j = ground arith
has_branch-set (x ∷ xs) zero zero = refl
has_branch-set (x ∷ xs) zero (suc j) = ground arith
has_branch-set (x ∷ xs) (suc b) zero = ground arith
has_branch-set (x ∷ xs) (suc b) (suc j) = ground (arith, has_branch-set xs b j)

module _ (br_id : ℕ) (ii : Iinfo) (once : IsOnce br_id ii) where
  put-IsFree :
      (b j : ℕ) → has_branch ii br_id b ≡ true → has_branch (set_h_iptr ii b none 0) br_id j ≡ false
  put-IsFree b j h = elim (Bool-cases (b == j)) [
    | inl e ↦ ground (arith, has_branch-set ii.hinode b j)
    | inr ne ↦
        let same : has_branch (set_h_iptr ii b none 0) br_id j ≡ has_branch ii br_id j =
          ap (λ h. is_there h.inode && is_id h.hid br_id)
            (get_or-set_ne ii.hinode b j (new_slot (get_or ii.hinode b zero_hinode) none 0)
              zero_hinode (ground arith)) in
        elim (Bool-cases (has_branch ii br_id j)) [
          | inl e ↦ absurd (let eq = once b j h e in ground arith)
          | inr e ↦ same ∙ e
        ]
  ]

  drop_empty-IsFree :
      (b : ℕ) (ii' : Iinfo)
      → has_branch ii br_id b ≡ true
      → drop_empty (set_h_iptr ii b none 0) ≡ some ii'
      → IsFree br_id ii'
  unfolding drop_empty
  drop_empty-IsFree b ii' h e = subst (IsFree br_id) (kept _ e) (λ j p q. put-IsFree b j h)
    where
      kept :
          (r : Bindex)
          → elim r as (λ _. Option Iinfo) [ none ↦ none | some _ ↦ some (set_h_iptr ii b none 0) ]
            ≡ some ii'
          → set_h_iptr ii b none 0 ≡ ii'
      kept none e' = absurd (ground arith)
      kept (some x) e' = ground arith

  -- With the first slot of the branch, from `s` on.
  searched :
      (s : ℕ) (r : Bindex) (ii' : Iinfo)
      → ii.bstart ≡ some s
      → IsFirstSuch (has_branch ii br_id) s (s + (count_to ii.bend - s)) r
      → elim r as (λ _. Option Iinfo) [
        | none ↦ some ii
        | some b ↦ drop_empty (set_h_iptr ii b none 0)
      ]
        ≡ some ii'
      → IsFree br_id ii'
  searched s none ii' start absent e =
      let same : ii ≡ ii' = ground arith in
      subst (IsFree br_id) same (λ j p q. absent j (ground arith) (omega arith))
  searched s (some b) ii' start (from, below, here, first) e = drop_empty-IsFree b ii' here e

  refresh_plink-IsFree : (ii' : Iinfo) → refresh_plink br_id ii ≡ some ii' → IsFree br_id ii'
  unfolding refresh_plink
  refresh_plink-IsFree ii' e = go ii.bstart refl e
    where
      go :
          (b : Bindex)
          → ii.bstart ≡ b
          → elim b as (λ _. Option Iinfo) [
            | none ↦ none
            | some s ↦
                elim (first_such (has_branch ii br_id) (count_to ii.bend - s) s)
                  as (λ _. Option Iinfo) [
                    | none ↦ some ii
                    | some c ↦ drop_empty (set_h_iptr ii c none 0)
                  ]
          ]
            ≡ some ii'
          → IsFree br_id ii'
      go none q k = absurd (ground arith)
      go (some s) q k =
          searched s _ ii' q
            (first_such-first (has_branch ii br_id) (count_to ii.bend - s) s _ refl) k

-- When a branch is removed, no pseudo-linked inode keeps a hidden inode of it in its range, if none
-- had two of them.
pub half_refresh_plink-IsFree :
    (br_id : ℕ) (ps : List PseudoLink)
    → All (λ p. IsOnce br_id p.ii) ps
    → All (λ p. IsFree br_id p.ii) (half_refresh_plink br_id ps)
unfolding half_refresh_plink
half_refresh_plink-IsFree br_id [] once = tt
half_refresh_plink-IsFree br_id (p ∷ ps) (once, rest) =
    keep (refresh_plink br_id p.ii) refl (half_refresh_plink-IsFree br_id ps rest)
  where
    keep :
        (o : Option Iinfo)
        → refresh_plink br_id p.ii ≡ o
        → All (λ q. IsFree br_id q.ii) (half_refresh_plink br_id ps)
        → All (λ q. IsFree br_id q.ii) (keep_plink p o (half_refresh_plink br_id ps))
    keep none e kept = kept
    keep (some ii) e kept = (refresh_plink-IsFree br_id p.ii once ii e, kept)
