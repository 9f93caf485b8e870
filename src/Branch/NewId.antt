-- ===== src/Branch/NewId.antt =====
-- `new_br_id` (fs/aufs/sbinfo.c): the loop ends, and what it returns is new.
use aufs.Common.{
  ℕ, zero, suc, ◌+◌, ◌-◌, ◌%◌, ◌≤◌, ◌<◌, ◌==◌, if◌then◌else◌, true, false, not, ◌≡◌, refl, ◌≢◌,
  Option, some, none, List, [], ◌∷◌, length, arith, contains, Bool-cases, le-cases, not_both, subst,
  sym, ◌∙◌, inl, inr, find_slot, count_to, length-window, eq_bindex,
}
use aufs.Branch.{
  Branch, Brtable, live, has_id, find_brindex, is_free_id, new_br_id_fuel, new_br_id, bindex_mod,
}

-- The list without any `x`.

remove : ℕ → List ℕ → List ℕ
remove x [] = []
remove x (y ∷ ys) = if y == x then remove x ys else y ∷ remove x ys

length-remove-le : (x : ℕ) (xs : List ℕ) → length (remove x xs) ≤ length xs
unfolding remove
length-remove-le x [] = omega arith
length-remove-le x (y ∷ ys) = ground (arith, length-remove-le x ys)

length-remove-lt : (x : ℕ) (xs : List ℕ) → contains xs x ≡ true → length (remove x xs) < length xs
unfolding remove
length-remove-lt x [] h = cc
length-remove-lt x (y ∷ ys) h = ground (arith, length-remove-lt x ys, length-remove-le x ys)

contains-remove : (x y : ℕ) (xs : List ℕ) → x ≢ y → contains (remove x xs) y ≡ contains xs y
unfolding remove
contains-remove x y [] h = refl
contains-remove x y (z ∷ zs) h = ground (arith, contains-remove x y zs h)

-- Of more than `length used` successive values one is not used.
unused_value :
    (n c : ℕ) (used : List ℕ)
    → length used < n
    → n ≤ bindex_mod
    → (i : ℕ) × (i < n) × (contains used ((c + 1 + i) % bindex_mod) ≡ false)
unused_value zero c used h m = absurd (omega arith)
unused_value (suc n) c used h m = elim (Bool-cases (contains used ((c + 1) % bindex_mod))) [
  | inr new ↦ (0, omega arith, subst (λ k. contains used k ≡ false) (omega arith) new)
  | inl taken ↦
      let x : ℕ = (c + 1) % bindex_mod in
      let (i, below, free) =
        unused_value n x (remove x used) (omega (arith, length-remove-lt x used taken))
          (omega arith) in
      (
        suc i,
        omega arith,
        subst (λ k. contains used k ≡ false) (omega arith)
            (sym (contains-remove x ((x + 1 + i) % bindex_mod) used (omega arith)) ∙ free),
      )
]

-- The ids in use, 0 not counted.
ids : List (Option Branch) → List ℕ
ids [] = []
ids (none ∷ xs) = ids xs
ids (some br ∷ xs) = br.id ∷ ids xs

length-ids-le : (xs : List (Option Branch)) → length (ids xs) ≤ length xs
unfolding ids
length-ids-le [] = omega arith
length-ids-le (none ∷ xs) = omega (arith, length-ids-le xs)
length-ids-le (some br ∷ xs) = omega (arith, length-ids-le xs)

find_slot-ids :
    (xs : List (Option Branch)) (id b : ℕ)
    → eq_bindex (find_slot (has_id id) xs b) none ≡ not (contains (ids xs) id)
unfolding ids
find_slot-ids [] id b = refl
find_slot-ids (none ∷ xs) id b = find_slot-ids xs id (b + 1)
find_slot-ids (some br ∷ xs) id b = ground (arith, find_slot-ids xs id (b + 1))

is_free_id-ids : (t : Brtable) (id : ℕ) → is_free_id t id ≡ not (contains (ids (live t)) id)
unfolding find_brindex
is_free_id-ids t id = find_slot-ids (live t) id 0

-- The values that the loop passes over.
abbrev used : Brtable → List ℕ
used t = 0 ∷ ids (live t)

record Fresh (t : Brtable) (f id : ℕ) : Type 0 where
  found : new_br_id_fuel f t ≡ some (id, record t { last_br_id = id })
  small : id < bindex_mod
  unused : contains (used t) id ≡ false

new_br_id_step :
    (f : ℕ) (t : Brtable)
    → let id = (t.last_br_id + 1) % bindex_mod in
      let t' : Brtable = record t { last_br_id = id } in
      new_br_id_fuel (suc f) t
      ≡ (if contains (used t) id then new_br_id_fuel f t' else some (id, t'))
unfolding new_br_id_fuel
new_br_id_step f t = ground (
  arith,
  is_free_id-ids (record t { last_br_id = (t.last_br_id + 1) % bindex_mod })
      ((t.last_br_id + 1) % bindex_mod),
)

new_br_id-reaches :
    (i f : ℕ) (t : Brtable)
    → i < f
    → contains (used t) ((t.last_br_id + 1 + i) % bindex_mod) ≡ false
    → (id : ℕ) × Fresh t f id
new_br_id-reaches i zero t h free = absurd (omega arith)
new_br_id-reaches i (suc f) t h free =
    elim (Bool-cases (contains (used t) ((t.last_br_id + 1) % bindex_mod))) [
      | inr new ↦ (
        (t.last_br_id + 1) % bindex_mod,
        record { found = rw (new_br_id_step f t, new); small = omega arith; unused = new },
      )
      | inl taken ↦ elim (le-cases 0 i (omega arith)) [
        | inl e ↦ absurd (
            let same =
              subst (λ k. contains (used t) ((t.last_br_id + 1 + k) % bindex_mod) ≡ false) (sym e)
                free in
            let taken' = subst (λ k. contains (used t) k ≡ true) (omega arith) taken in
            not_both taken' same)
        | inr e ↦
            let x = (t.last_br_id + 1) % bindex_mod in
            let (id, fresh) =
              new_br_id-reaches (i - 1) f (record t { last_br_id = x }) (omega arith)
                (subst (λ k. contains (used t) k ≡ false) (omega arith) free) in
            (
              id,
              record {
                found = rw (new_br_id_step f t, taken) fresh.found;
                small = fresh.small;
                unused = fresh.unused;
              },
            )
      ]
    ]

Fresh-new : (t : Brtable) (f id : ℕ) → Fresh t f id → (id ≢ 0) × (find_brindex t id ≡ none)
Fresh-new t f id fresh =
    let free = fresh.unused in (ground arith, ground (arith, is_free_id-ids t id))

-- With at most 254 branches the loop of `new_br_id` ends within two more rounds than there are
-- branches. The id it returns is not 0, no branch has it, it is a value of `aufs_bindex_t`, and it
-- is kept as `si_last_br_id`, with nothing else changed.
pub new_br_id_total :
    (t : Brtable) (f : ℕ)
    → count_to t.bend ≤ 254
    → count_to t.bend + 2 ≤ f
    → (id : ℕ) × (new_br_id_fuel f t ≡ some (id, record t { last_br_id = id }))
      × (id ≢ 0)
      × (id < bindex_mod)
      × (find_brindex t id ≡ none)
new_br_id_total t f h enough =
    let (i, below, free) =
      unused_value (count_to t.bend + 2) t.last_br_id (used t)
        (omega (arith, length-ids-le (live t), length-window (count_to t.bend) none t.branch))
        (omega arith) in
    let (id, fresh) = new_br_id-reaches i f t (omega arith) free in
    (id, fresh.found, (Fresh-new t f id fresh).0, fresh.small, (Fresh-new t f id fresh).1)

-- So `new_br_id` returns an id that is new.
pub new_br_id_lem :
    (t : Brtable)
    → count_to t.bend ≤ 254
    → let id = (new_br_id t).0 in
      ((new_br_id t).1 ≡ record t { last_br_id = id })
      × (id ≢ 0)
      × (id < bindex_mod)
      × (find_brindex t id ≡ none)
unfolding new_br_id
new_br_id_lem t h =
    let (id, found, new, small, unused) = new_br_id_total t (count_to t.bend + 2) h (omega arith) in
    rw (new_br_id, found) (refl, new, small, unused)
