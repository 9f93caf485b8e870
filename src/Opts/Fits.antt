-- ===== src/Opts/Fits.antt =====
-- The array of `au_parse_opts` is not written past its end.
use aufs.Common.{
  arith, ap, ◌∙◌, ◌++◌, ℕ, ◌+◌, ◌-◌, ◌≤◌, ◌<◌, ◌≡◌, refl, ◌⊎◌, inl, inr, Bool, true, false,
  Bool-cases, ltb, Option, some, none, List, [], ◌∷◌, length, length-append, Result, ok, err, e2big,
  Bindex,
}
use aufs.Manage.Add.{OptAdd}
use aufs.Opts.{Opt, opt_add}
use aufs.Opts.Text.{
  Matches, parse_add, AddText, Token, Parsed, char_index, push, store, store_br, inc_index,
  store_ok, set_index, parse_br, parse_token, parse_from, au_parse_opts, no_opts,
}
use aufs.Opts.Text.Token.{
  br, add, append, prepend, del, mod_perm, xino_file, dirwh, rdcache, udba, plain, ignore, unknown,
}

-- There is room for Opt_tail, and it stands after the options.
abbrev pub HasRoom : ℕ → Parsed → Type 0
HasRoom max_opt p = (length p.opts < max_opt) × (p.ended ≡ true)

-- The array is full, without Opt_tail.
abbrev pub IsFull : ℕ → Result (Unit {0}) × Parsed → Type 0
IsFull max_opt out = (out.0 ≡ err e2big) × (length out.1.opts ≡ max_opt) × (out.1.ended ≡ false)

-- After the tokens before it, the branches of a `br` are too many for the array.
abbrev pub HasLongBr : ℕ → Matches → Bool → List Token → Parsed → Type 0
HasLongBr max_opt m rdonly tokens p =
    (before : List Token) × (ts : List AddText) × (after : List Token) × (q : Parsed) × (tokens
      ≡ before ++ (br ts ∷ after))
    × (parse_from max_opt m rdonly before p ≡ (ok tt, q))
    × (max_opt ≤ length q.opts + length ts)

abbrev pub Fits : ℕ → Matches → Bool → List Token → Parsed → Result (Unit {0}) × Parsed → Type 0
Fits max_opt m rdonly tokens p out =
    HasRoom max_opt out.1 ⊎ (HasLongBr max_opt m rdonly tokens p × IsFull max_opt out)

abbrev next_of :
    Result (Unit {0}) × Parsed → (Parsed → Result (Unit {0}) × Parsed) → Result (Unit {0}) × Parsed
next_of out next = elim out.0 [ err e ↦ (err e, out.1) | ok u ↦ next out.1 ]

length-push : (p : Parsed) (o : Option Opt) → length (push p o).opts ≡ length p.opts + 1
length-push p o = length-append p.opts (o ∷ [])

module _ (max_opt : ℕ) where
  store-HasRoom :
      (p : Parsed) (o : Option Opt) → HasRoom max_opt p → HasRoom max_opt (store max_opt p o).1
  store-HasRoom p o (room, end) = elim (Bool-cases (ltb (max_opt - 1) (length p.opts + 1))) [
    | inl full ↦ rw full (room, end)
    | inr free ↦ rw free (ground (arith, length-push p o), end)
  ]

  store_ok-HasRoom :
      (p : Parsed) (r : Result Opt) → HasRoom max_opt p → HasRoom max_opt (store_ok max_opt p r).1
  store_ok-HasRoom p (err e) h = h
  store_ok-HasRoom p (ok o) h = store-HasRoom p (some o) h

  -- The branches of `br` from the state `p` on.
  abbrev BrFits : List AddText → Parsed → Result (Unit {0}) × Parsed → Type 0
  BrFits ts p out =
      HasRoom max_opt out.1 ⊎ ((max_opt ≤ length p.opts + length ts) × IsFull max_opt out)

  -- One branch is stored, or fills the array.
  abbrev BrStored : Parsed → Result (Unit {0}) × Parsed → Type 0
  BrStored p out =
      ((out.0 ≡ ok tt) × HasRoom max_opt out.1 × (length out.1.opts ≡ length p.opts + 1))
      ⊎ ((max_opt ≤ length p.opts + 1) × IsFull max_opt out)

  store_br-BrStored :
      (p : Parsed) (o : Option Opt) → HasRoom max_opt p → BrStored p (store_br max_opt p o)
  store_br-BrStored p o (room, end) = elim (Bool-cases (ltb (max_opt - 1) (length p.opts + 1))) [
    | inl full ↦ rw full (inr (ground arith, (refl, ground (arith, length-push p o), refl)))
    | inr free ↦ rw free (inl (refl, (ground (arith, length-push p o), end), length-push p o))
  ]

  br_round :
      (t : AddText) (ts : List AddText) (p : Parsed) (out : Result (Unit {0}) × Parsed)
      (next : Parsed → Result (Unit {0}) × Parsed)
      → BrStored p out
      → ((q : Parsed) → HasRoom max_opt q → BrFits ts q (next q))
      → BrFits (t ∷ ts) p (next_of out next)
  br_round t ts p (err e, q) next (inl (r, h, l)) rest = absurd (ground arith)
  br_round t ts p (err e, q) next (inr (long, full)) rest = inr (omega arith, full)
  br_round t ts p (ok u, q) next (inl (r, h, l)) rest = elim (rest q h) [
    | inl room ↦ inl room
    | inr (long, full) ↦ inr (omega arith, full)
  ]
  br_round t ts p (ok u, q) next (inr (long, (e, k, l))) rest = absurd (ground arith)

  parse_br-BrFits :
      (parse : AddText → Bindex → Result OptAdd) (ts : List AddText) (p : Parsed)
      → HasRoom max_opt p
      → BrFits ts p (parse_br max_opt parse ts p)
  unfolding parse_br
  parse_br-BrFits parse [] p h = inl h
  parse_br-BrFits parse (t ∷ ts) p h =
      elim (parse t (char_index p.bindex))
        as (λ r. BrFits (t ∷ ts) p (elim r [
          | err e ↦ (err e, inc_index p)
          | ok a ↦
              (let (r, q) = store_br max_opt (inc_index p) (some (opt_add a t.xino)) in
                elim r [ err e ↦ (err e, q) | ok u ↦ parse_br max_opt parse ts q ])
        ])) [
          | err e ↦ inl h
          | ok a ↦
              br_round t ts (inc_index p) (store_br max_opt (inc_index p) (some (opt_add a t.xino)))
                (parse_br max_opt parse ts)
                (store_br-BrStored (inc_index p) (some (opt_add a t.xino)) h)
                (parse_br-BrFits parse ts)
        ]

  set_index-HasRoom :
      (p : Parsed) (n : Option ℕ) → HasRoom max_opt p → HasRoom max_opt (set_index p n)
  set_index-HasRoom p none h = h
  set_index-HasRoom p (some n) h = h

  -- One token.
  abbrev TokenFits : Token → Parsed → Result (Unit {0}) × Parsed → Type 0
  TokenFits t p out =
      HasRoom max_opt out.1
      ⊎ ((ts : List AddText) × (t ≡ br ts)
          × (max_opt ≤ length p.opts + length ts)
          × IsFull max_opt out)

  br-TokenFits :
      (ts : List AddText) (p : Parsed) (out : Result (Unit {0}) × Parsed)
      → BrFits ts p out
      → TokenFits (br ts) p out
  br-TokenFits ts p out (inl h) = inl h
  br-TokenFits ts p out (inr (long, full)) = inr (ts, refl, long, full)

  parse_token-TokenFits :
      (m : Matches) (rdonly : Bool) (t : Token) (p : Parsed)
      → HasRoom max_opt p
      → TokenFits t p (parse_token max_opt m rdonly t p)
  unfolding parse_token
  parse_token-TokenFits m rdonly (br []) p h = inl (store-HasRoom p none h)
  parse_token-TokenFits m rdonly (br (t ∷ ts)) p h =
      br-TokenFits (t ∷ ts) p (parse_br max_opt (parse_add m rdonly) (t ∷ ts) p)
        (parse_br-BrFits (parse_add m rdonly) (t ∷ ts) p h)
  parse_token-TokenFits m rdonly (add n t) p h =
      inl (store_ok-HasRoom (set_index p n) _ (set_index-HasRoom p n h))
  parse_token-TokenFits m rdonly (append t) p h = inl (store_ok-HasRoom p _ h)
  parse_token-TokenFits m rdonly (prepend t) p h = inl (store_ok-HasRoom p _ h)
  parse_token-TokenFits m rdonly (del d) p h = inl (store_ok-HasRoom p _ h)
  parse_token-TokenFits m rdonly (mod_perm q d) p h = inl (store_ok-HasRoom p _ h)
  parse_token-TokenFits m rdonly (xino_file x) p h = inl (store_ok-HasRoom p _ h)
  parse_token-TokenFits m rdonly (dirwh n) p h = inl (store_ok-HasRoom p _ h)
  parse_token-TokenFits m rdonly (rdcache n) p h = inl (store_ok-HasRoom p _ h)
  parse_token-TokenFits m rdonly (udba s) p h = inl (store_ok-HasRoom p _ h)
  parse_token-TokenFits m rdonly (plain o) p h = inl (store-HasRoom p (some o) h)
  parse_token-TokenFits m rdonly ignore p h = inl h
  parse_token-TokenFits m rdonly unknown p h = inl h

  module _ (m : Matches) (rdonly : Bool) where
    -- A token more before the `br`.
    HasLongBr-after :
        (t : Token) (tokens : List Token) (p q : Parsed)
        → parse_token max_opt m rdonly t p ≡ (ok tt, q)
        → HasLongBr max_opt m rdonly tokens q
        → HasLongBr max_opt m rdonly (t ∷ tokens) p
    unfolding parse_from
    HasLongBr-after t tokens p q e (before, ts, after, u, same, run, long) = (
      t ∷ before,
      ts,
      after,
      u,
      ap (◌∷◌ t) same,
      ap
            (λ (x : Result (Unit {0}) × Parsed).
              next_of x (λ (y : Parsed). parse_from max_opt m rdonly before y))
            e
          ∙ run,
      long,
    )

    round :
        (t : Token) (tokens : List Token) (p : Parsed) (out : Result (Unit {0}) × Parsed)
        (next : Parsed → Result (Unit {0}) × Parsed)
        → parse_token max_opt m rdonly t p ≡ out
        → TokenFits t p out
        → ((q : Parsed) → HasRoom max_opt q → Fits max_opt m rdonly tokens q (next q))
        → Fits max_opt m rdonly (t ∷ tokens) p (next_of out next)
    unfolding parse_from
    round t tokens p (err e, q) next run (inl h) rest = inl h
    round t tokens p (err e, q) next run (inr (ts, same, long, full)) rest =
        inr (([], ts, tokens, p, ap (λ x. x ∷ tokens) same, refl, long), full)
    round t tokens p (ok u, q) next run (inl h) rest = elim (rest q h) [
      | inl room ↦ inl room
      | inr (long, full) ↦ inr (HasLongBr-after t tokens p q run long, full)
    ]
    round t tokens p (ok u, q) next run (inr (ts, same, long, (e, k, l))) rest =
        absurd (ground arith)

    parse_from-Fits :
        (tokens : List Token) (p : Parsed)
        → HasRoom max_opt p
        → Fits max_opt m rdonly tokens p (parse_from max_opt m rdonly tokens p)
    unfolding parse_from
    parse_from-Fits [] p h = inl h
    parse_from-Fits (t ∷ tokens) p h =
        round t tokens p _ (parse_from max_opt m rdonly tokens) refl
          (parse_token-TokenFits m rdonly t p h) (parse_from-Fits tokens)

-- Whatever `au_parse_opts` returns for an array that is not empty, the options leave room for the
-- entry Opt_tail and it stands after them. Only where, after the tokens before it were taken, the
-- branches of a `br` are at least as many as the entries left is the array full without it, and then
-- E2BIG is returned.
pub au_parse_opts-Fits :
    (max_opt : ℕ) (m : Matches) (rdonly : Bool) (tokens : List Token)
    → 1 ≤ max_opt
    → Fits max_opt m rdonly tokens no_opts (au_parse_opts max_opt m rdonly tokens)
unfolding au_parse_opts
au_parse_opts-Fits max_opt m rdonly tokens h =
    parse_from-Fits max_opt m rdonly tokens no_opts (omega arith, refl)
