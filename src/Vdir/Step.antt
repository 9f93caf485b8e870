-- ===== src/Vdir/Step.antt =====
-- What one call of `fillvdir` changes of the tables and of the listing.
use aufs.Common.{
  ℕ, zero, suc, ◌<◌, ◌≡◌, ◌≢◌, refl, ap, ap₂, ◌∙◌, subst, ◌==◌, Bool, true, false, not, ◌&&◌, ◌||◌,
  List, [], ◌∷◌, length, get_or, set, get_or-set, get_or-set_ne, get_or-set_self, length-set, arith,
  Bool-cases, inl, inr,
}
use aufs.Whout.{Name, eq_name}
use aufs.Whout.Names.{eq_name_iff}
use aufs.Xino.{XinoFile}
use aufs.Vdir.{Nhash, nhash_size, test_known, add_name, De, Env, Fill, known_above}
use aufs.Vdir.Hash.{test_known-add_name}

abbrev pub de_known : Env → Fill → ℕ → Name → Bool
de_known env s k n = test_known env.hash (get_or s.delist k []) n

abbrev pub wh_known : Env → Fill → ℕ → Name → Bool
wh_known env s k n = test_known env.hash (get_or s.whlist k []) n

-- The listing has an entry of the name.
abbrev pub has_de : List De → Name → Bool
has_de [] n = false
has_de (d ∷ ds) n = eq_name d.name n || has_de ds n

-- Both tables have all the heads, for each of `m` branches.
pub record IsSized (m : ℕ) (s : Fill) : Type 0 where
  pub des : length s.delist ≡ m
  pub whs : length s.whlist ≡ m
  pub de_heads : (j : ℕ) → j < m → length (get_or s.delist j []) ≡ nhash_size
  pub wh_heads : (j : ℕ) → j < m → length (get_or s.whlist j []) ≡ nhash_size

-- Reading a part of the branch `k` that shows the names `p` and whiteouts the names `q`.
pub record IsFilled (m : ℕ) (env : Env) (k : ℕ) (s s' : Fill) (p q : Name → Bool) : Type 0 where
  pub sized : IsSized m s'
  pub other_de : (j : ℕ) → k ≢ j → get_or s'.delist j [] ≡ get_or s.delist j []
  pub other_wh : (j : ℕ) → k ≢ j → get_or s'.whlist j [] ≡ get_or s.whlist j []
  pub des :
      (n : Name)
      → de_known env s' k n ≡ ((not (known_above k env.hash s n) && p n) || de_known env s k n)
  pub whs : (n : Name) → wh_known env s' k n ≡ (q n || wh_known env s k n)
  pub listed :
      (n : Name)
      → has_de s'.entries n ≡ ((not (known_above k env.hash s n) && p n) || has_de s.entries n)

-- What is known above depends on the tables above only.
pub known_above-same :
    (n : ℕ) (hash : Name → ℕ) (s s' : Fill) (name : Name)
    → ((j : ℕ) → j < n → get_or s'.delist j [] ≡ get_or s.delist j [])
    → ((j : ℕ) → j < n → get_or s'.whlist j [] ≡ get_or s.whlist j [])
    → known_above n hash s' name ≡ known_above n hash s name
unfolding known_above
known_above-same zero hash s s' name d w = refl
known_above-same (suc n) hash s s' name d w =
    ap₂ (λ a b. a || b)
      (known_above-same n hash s s' name (λ j h. d j (omega arith)) (λ j h. w j (omega arith)))
      (ap₂ (λ x y. test_known hash x name || test_known hash y name) (d n (omega arith))
        (w n (omega arith)))

pub IsFilled-above :
    {m k : ℕ} {env : Env} {s s' : Fill} {p q : Name → Bool}
    → IsFilled m env k s s' p q
    → (n : Name) → known_above k env.hash s' n ≡ known_above k env.hash s n
IsFilled-above {k = k} {env = env} {s = s} {s' = s'} f n =
    known_above-same k env.hash s s' n (λ j h. f.other_de j (omega arith))
      (λ j h. f.other_wh j (omega arith))

pub IsFilled-trans :
    {m k : ℕ} {env : Env} {s s1 s2 : Fill} {p q p' q' : Name → Bool}
    → IsFilled m env k s s1 p q
    → IsFilled m env k s1 s2 p' q'
    → IsFilled m env k s s2 (λ n. p n || p' n) (λ n. q n || q' n)
IsFilled-trans f g = record {
  sized = g.sized;
  other_de = λ j h. g.other_de j h ∙ f.other_de j h;
  other_wh = λ j h. g.other_wh j h ∙ f.other_wh j h;
  des = λ n. ground (arith, g.des n, f.des n, IsFilled-above f n);
  whs = λ n. ground (arith, g.whs n, f.whs n);
  listed = λ n. ground (arith, g.listed n, f.listed n, IsFilled-above f n);
}

length-add_name :
    (hash : Name → ℕ) (nh : Nhash) (n : Name) → length (add_name hash nh n) ≡ length nh
unfolding add_name
length-add_name hash nh n = length-set nh _ _

-- A table of the branch `k` with a name added: all tables keep their heads.
heads-add :
    (hash : Name → ℕ) (ts : List Nhash) (k j m : ℕ) (n : Name)
    → length ts ≡ m
    → k < m
    → ((i : ℕ) → i < m → length (get_or ts i []) ≡ nhash_size)
    → j < m
    → length (get_or (set ts k (add_name hash (get_or ts k []) n)) j []) ≡ nhash_size
heads-add hash ts k j m n c h heads b =
    ap length (get_or-set ts k j (add_name hash (get_or ts k []) n) [] (omega arith))
    ∙ elim (Bool-cases (k == j)) [
      | inl e ↦ rw e (length-add_name hash (get_or ts k []) n ∙ heads k h)
      | inr e ↦ rw e (heads j b)
    ]

known-add :
    (hash : Name → ℕ) (ts : List Nhash) (k m : ℕ) (n o : Name)
    → length ts ≡ m
    → k < m
    → ((i : ℕ) → i < m → length (get_or ts i []) ≡ nhash_size)
    → test_known hash (get_or (set ts k (add_name hash (get_or ts k []) n)) k []) o
      ≡ (eq_name n o || test_known hash (get_or ts k []) o)
known-add hash ts k m n o c h heads =
    ap (λ nh. test_known hash nh o)
      (get_or-set_self ts k (add_name hash (get_or ts k []) n) [] (omega arith))
    ∙ test_known-add_name hash (get_or ts k []) n o (heads k h)

module _ (m k : ℕ) (env : Env) (s : Fill) (sized : IsSized m s) (below : k < m) where
  -- Nothing changes where nothing new is shown.
  pub IsFilled-same :
      (p q : Name → Bool)
      → ((n : Name) → p n ≡ true → known_above k env.hash s n ≡ true)
      → ((n : Name) → q n ≡ true → wh_known env s k n ≡ true)
      → IsFilled m env k s s p q
  IsFilled-same p q known wh = record {
    sized = sized;
    other_de = λ j h. refl;
    other_wh = λ j h. refl;
    des = λ n. ground (arith, known n);
    whs = λ n. ground (arith, wh n);
    listed = λ n. ground (arith, known n);
  }

  -- A name that is not known above is listed.
  pub IsFilled-de :
      (d : De) (x : ℕ) (f : XinoFile)
      → known_above k env.hash s d.name ≡ false
      → IsFilled m env k s
          (record s {
            delist = set s.delist k (add_name env.hash (get_or s.delist k []) d.name);
            entries = d ∷ s.entries;
            counter = x;
            file = f;
          })
          (eq_name d.name)
          (λ n. false)
  IsFilled-de d x f new = record {
    sized = record {
      des = length-set s.delist k _ ∙ sized.des;
      whs = sized.whs;
      de_heads = λ j h. heads-add env.hash s.delist k j m d.name sized.des below sized.de_heads h;
      wh_heads = sized.wh_heads;
    };
    other_de = λ j h. get_or-set_ne s.delist k j _ [] h;
    other_wh = λ j h. refl;
    des =
        λ n. known-add env.hash s.delist k m d.name n sized.des below sized.de_heads ∙ guarded n _;
    whs = λ n. refl;
    listed = λ n. guarded n _;
  }
    where
      guarded :
          (n : Name) (b : Bool)
          → (eq_name d.name n || b) ≡ ((not (known_above k env.hash s n) && eq_name d.name n) || b)
      guarded n b = elim (Bool-cases (eq_name d.name n)) [
        | inl e ↦
            let same =
              subst (λ o. known_above k env.hash s o ≡ false) ((eq_name_iff d.name n).0 e) new in
            ground arith
        | inr e ↦ ground arith
      ]

  pub IsFilled-wh :
      (a : Name)
      → IsFilled m env k s
          (record s { whlist = set s.whlist k (add_name env.hash (get_or s.whlist k []) a) })
          (λ n. false)
          (eq_name a)
  IsFilled-wh a = record {
    sized = record {
      des = sized.des;
      whs = length-set s.whlist k _ ∙ sized.whs;
      de_heads = sized.de_heads;
      wh_heads = λ j h. heads-add env.hash s.whlist k j m a sized.whs below sized.wh_heads h;
    };
    other_de = λ j h. refl;
    other_wh = λ j h. get_or-set_ne s.whlist k j _ [] h;
    des = λ n. ground arith;
    whs = λ n. known-add env.hash s.whlist k m a n sized.whs below sized.wh_heads;
    listed = λ n. ground arith;
  }
