-- ===== src/Manage/Disjoint.antt =====
-- No branch lies inside another.
use aufs.Common.{
  ℕ, zero, suc, ◌<◌, ◌≡◌, ◌≢◌, refl, ap, ◌∙◌, sym, subst, Bool, true, false, ◌||◌, ◌==◌, some, none,
  List, [], ◌∷◌, map, length, get_or, get_or-window, insert_at, contains, All, Result, ok, err,
  count_to, arith, Errno, ◌⊎◌, inl, inr, first_such, first_such-first, IsFirstSuch,
}
use aufs.Lower.{HDentry}
use aufs.Dinfo.{Dinfo, h_dptr_i}
use aufs.Whout.{WhBase}
use aufs.Manage.{Super}
use aufs.Manage.Add.{
  OptAdd, XinoEnv, walk_up, do_is_overlap, is_overlap, overlaps, test_new, test_add, add_base,
  br_add,
}
use aufs.Manage.Entries.{Entry, Represents, Represents-count, start_of}
use aufs.Manage.Added.{
  IsAdded, br_add-IsAdded, br_add-Represents, br_add-refused, br_add-no_base, test_add-new,
}

walk_up-contains : (d : ℕ) (ps : List ℕ) (t : ℕ) → walk_up d ps t ≡ contains (d ∷ ps) t
unfolding walk_up
walk_up-contains d [] t = ground arith
walk_up-contains d (p ∷ ps) t = ap (λ b. d == t || b) (walk_up-contains p ps t)

-- Two directories overlap exactly when they are the same or one is an ancestor of the other.
pub is_overlap_lem :
    (d1 d2 : HDentry)
    → is_overlap d1 d2
      ≡ (d1.id == d2.id || (contains d1.ancestors d2.id || contains d2.ancestors d1.id))
unfolding is_overlap do_is_overlap
is_overlap_lem d1 d2 =
    ground
      (arith, walk_up-contains d1.id d1.ancestors d2.id, walk_up-contains d2.id d2.ancestors d1.id)

is_overlap-sym : (d1 d2 : HDentry) → is_overlap d1 d2 ≡ is_overlap d2 d1
is_overlap-sym d1 d2 = ground (arith, is_overlap_lem d1 d2, is_overlap_lem d2 d1)

abbrev pub IsApart : Entry → Entry → Type 0
IsApart a b = is_overlap a.dentry b.dentry ≡ false

abbrev pub IsDisjoint : List Entry → Type 0
IsDisjoint [] = Unit
IsDisjoint (e ∷ es) = All (IsApart e) es × IsDisjoint es

All-insert_at {ℓ κ} :
    {A : Type ℓ} (P : A → Type κ) (i : ℕ) (a : A) (xs : List A)
    → P a
    → All P xs
    → All P (insert_at i a xs)
All-insert_at P zero a xs p ps = (p, ps)
All-insert_at P (suc i) a [] p ps = (p, tt)
All-insert_at P (suc i) a (x ∷ xs) p (q, qs) = (q, All-insert_at P i a xs p qs)

IsDisjoint-insert_at :
    (i : ℕ) (e : Entry) (es : List Entry)
    → All (IsApart e) es
    → IsDisjoint es
    → IsDisjoint (insert_at i e es)
IsDisjoint-insert_at zero e es p d = (p, d)
IsDisjoint-insert_at (suc i) e [] p d = (tt, tt)
IsDisjoint-insert_at (suc i) e (x ∷ xs) (p, ps) (q, d) = (
  All-insert_at (IsApart x) i e xs (is_overlap-sym x.dentry e.dentry ∙ p) q,
  IsDisjoint-insert_at i e xs ps d,
)

All-from {ℓ κ μ} :
    {A : Type ℓ} {B : Type κ} (Q : B → Type μ) (f : A → B) (d : B) (xs : List A)
    → ((b : ℕ) → b < length xs → Q (get_or (map f xs) b d))
    → All (λ x. Q (f x)) xs
All-from Q f d [] h = tt
All-from Q f d (x ∷ xs) h = (h 0 (omega arith), All-from Q f d xs (λ b k. h (suc b) (omega arith)))

-- The last test of `test_add`.
test_new-apart :
    (s : Super) (add : OptAdd)
    → test_new s add ≡ ok tt
    → (b : ℕ) → b < count_to s.table.bend
    → overlaps add.dentry (h_dptr_i s.root b) ≡ false
unfolding test_new
test_new-apart s add h b k =
    subst (IsFirstSuch (λ c. overlaps add.dentry (h_dptr_i s.root c)) 0 (count_to s.table.bend))
      clear
      (first_such-first (λ c. overlaps add.dentry (h_dptr_i s.root c)) (count_to s.table.bend) 0 _
        (omega arith))
      b (omega arith) k
  where
    clear :
        first_such (λ c. overlaps add.dentry (h_dptr_i s.root c)) (count_to s.table.bend) 0 ≡ none
    clear = ground arith

start_of-some : (b n : ℕ) → b < n → start_of n ≡ some 0
start_of-some b zero h = absurd (omega arith)
start_of-some b (suc n) h = refl

h_dptr_i-first : (d : Dinfo) (b : ℕ) → d.bstart ≡ some 0 → h_dptr_i d b ≡ get_or d.hdentry b none
unfolding h_dptr_i
h_dptr_i-first d b e = ground arith

h_dptr_i-entry :
    (s : Super) (es : List Entry) (b : ℕ)
    → Represents s es
    → b < length es
    → h_dptr_i s.root b ≡ get_or (map (λ e. some e.dentry) es) b none
h_dptr_i-entry s es b r h =
    h_dptr_i-first s.root b (r.root_start ∙ start_of-some b (length es) h)
    ∙ sym (get_or-window (length es) b none s.root.hdentry h)
    ∙ ap (λ xs. get_or xs b none) r.dentries

IsApart-All :
    (s : Super) (add : OptAdd) (es : List Entry)
    → Represents s es
    → test_new s add ≡ ok tt
    → All (λ e. is_overlap add.dentry e.dentry ≡ false) es
IsApart-All s add es r h =
    All-from (λ o. overlaps add.dentry o ≡ false) (λ e. some e.dentry) none es
      (λ b k.
        ap (overlaps add.dentry) (sym (h_dptr_i-entry s es b r k))
        ∙ test_new-apart s add h b (subst (λ n. b < n) (sym (Represents-count r)) k))

-- The branches that a mount has after a call, with none inside another.
abbrev pub StaysDisjoint : Super → Type 0
StaysDisjoint s = (es : List Entry) × Represents s es × IsDisjoint es

module _ (env : XinoEnv) (s : Super) (add : OptAdd) (remount : Bool) (es : List Entry)
    (r : Represents s es) (d : IsDisjoint es) where
  unchanged :
      ((br_add env s add remount).0 ≢ ok tt) ⊎ (test_add s add remount ≡ ok false)
      → StaysDisjoint (br_add env s add remount).1
  unchanged h = (es, br_add-Represents env s add remount es r h, d)

  inserted :
      test_add s add remount ≡ ok true
      → IsAdded s add es (br_add env s add remount)
      → StaysDisjoint (br_add env s add remount).1
  inserted h a = (
    insert_at a.index a.added es,
    a.represented,
    IsDisjoint-insert_at a.index a.added es
        (subst (λ x. All (λ e. is_overlap x e.dentry ≡ false) es) (sym a.dentry)
          (IsApart-All s add es r (test_add-new s add remount h)))
        d,
  )

err-ne-ok : (x : Result (Unit {0})) (e : Errno) → x ≡ err e → x ≢ ok tt
err-ne-ok x e h k = ground arith

-- Whatever `br_add` returns, the three arrays still stand for one list of branches, and none of
-- them is inside another if none was before.
pub br_add-IsDisjoint :
    (env : XinoEnv) (s : Super) (add : OptAdd) (remount : Bool) (es : List Entry)
    → Represents s es
    → IsDisjoint es
    → StaysDisjoint (br_add env s add remount).1
br_add-IsDisjoint env s add remount es r d = go (test_add s add remount) refl
  where
    go : (t : Result Bool) → test_add s add remount ≡ t → StaysDisjoint (br_add env s add remount).1
    go (err e) q =
        unchanged env s add remount es r d
          (inl (err-ne-ok _ e (br_add-refused env s add remount e q)))
    go (ok false) q = unchanged env s add remount es r d (inr q)
    go (ok true) q = with_base (add_base s add) refl
      where
        with_base :
            (p : Result (Unit {0}) × WhBase)
            → add_base s add ≡ p
            → StaysDisjoint (br_add env s add remount).1
        with_base (err e, w) k =
            unchanged env s add remount es r d
              (inl (err-ne-ok _ e (br_add-no_base env s add remount e q (ap (λ p. p.0) k))))
        with_base (ok u, w) k =
            inserted env s add remount es r d q
              (br_add-IsAdded env s add remount es r q (ap (λ p. p.0) k))
