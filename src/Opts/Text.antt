-- ===== src/Opts/Text.antt =====
-- fs/aufs/opts.c: the text of the options. The kernel's `match_token` splits the text into tokens:
-- a token carries the strings it matched and what looking them up returns.
use aufs.Common.{
  ℕ, zero, ◌+◌, ◌-◌, ◌%◌, ltb, if◌then◌else◌, Bool, true, false, Option, some, none, List, [], ◌∷◌,
  ◌++◌, length, Result, ok, err, eio, einval, e2big, ◌>>=◌, Bindex,
}
use aufs.Branch.Permission.{Perm, rw, ro, rr, rw_nolwh, rowh, rrwh, eq_perm}
use aufs.Whout.{Name}
use aufs.Manage.Add.{OptAdd, XinoEnv}
use aufs.Manage.Del.{OptDel}
use aufs.Manage.Mod.{OptMod}
use aufs.Opts.{
  Udba, Opt, opt_add, opt_append, opt_prepend, opt_del, opt_mod, opt_xino, opt_dirwh, opt_rdcache,
  opt_udba, OptXino,
}

-- Whether a text matches a pattern, for `match_token`.
abbrev pub Matches : Type 0
Matches = Name → Name → Bool

abbrev pub match_token {ℓ} : {A : Type ℓ} → Matches → Name → List (A × Name) → A → A
match_token m text [] d = d
match_token m text ((a, p) ∷ ps) d = if m text p then a else match_token m text ps d

-- `brperms`, without the entry at the end, which is the default.
abbrev pub brperms : List (Perm × Name)
brperms =
    (rr, b'r' ∷ b'r' ∷ [])
    ∷ (ro, b'r' ∷ b'o' ∷ [])
    ∷ (rw, b'r' ∷ b'w' ∷ [])
    ∷ (rrwh, b'r' ∷ b'r' ∷ b'+' ∷ b'w' ∷ b'h' ∷ [])
    ∷ (rowh, b'r' ∷ b'o' ∷ b'+' ∷ b'w' ∷ b'h' ∷ [])
    ∷ (rw_nolwh, b'r' ∷ b'w' ∷ b'+' ∷ b'n' ∷ b'o' ∷ b'l' ∷ b'w' ∷ b'h' ∷ [])
    ∷ (rowh, b'n' ∷ b'f' ∷ b's' ∷ b'r' ∷ b'o' ∷ [])
    ∷ []

unfoldable pub br_perm_val : Matches → Name → Perm
br_perm_val m perm = match_token m perm brperms ro

-- The loop of `br_perm_str`.
abbrev pub str_from : List (Perm × Name) → Perm → ℕ → Result Name
str_from [] perm len = err eio
str_from ((q, s) ∷ ps) perm len =
    if eq_perm q perm
    then (if ltb (length s) len then ok s else err e2big)
    else str_from ps perm len

unfoldable pub br_perm_str : Perm → ℕ → Result Name
br_perm_str perm len = str_from brperms perm len

-- `udbalevel` without inotify, and `udba_val`, with `none` for -1.
abbrev pub udbalevel : List (Option Udba × Name)
udbalevel =
    (some Udba.reval, b'r' ∷ b'e' ∷ b'v' ∷ b'a' ∷ b'l' ∷ [])
    ∷ (some Udba.none_, b'n' ∷ b'o' ∷ b'n' ∷ b'e' ∷ [])
    ∷ []

unfoldable pub udba_val : Matches → Name → Option Udba
udba_val m str = match_token m str udbalevel none

-- A branch in the text: what follows the first `=`, and what `path_lookup` returns; the index and
-- the permission of the directory are stored by `opt_add`.
pub record AddText : Type 0 where
  pub perm : Option Name
  pub dir : Result OptAdd
  pub xino : XinoEnv

-- A token. A number is the bit pattern of an `int`, `none` where it cannot be read; the permission of
-- `mod` is `none` without a `=`; `xino` says whether the file is on the union itself. `plain` stands
-- for the options that are stored as they are.
pub data Token : Type 0 where
  br : List AddText → Token
  add : Option ℕ → AddText → Token
  append prepend : AddText → Token
  del : Result OptDel → Token
  mod_perm : Option Name → Result OptMod → Token
  xino_file : Result (Bool × OptXino) → Token
  dirwh rdcache : Option ℕ → Token
  udba : Name → Token
  plain : Opt → Token
  ignore unknown : Token

-- A bit pattern as an `aufs_bindex_t`, a signed `char`.
abbrev pub char_index : ℕ → Bindex
char_index n = let b = n % 256 in if ltb b 128 then some b else none

-- The permission that `opt_add` stores; `rdonly` is MS_RDONLY of the mount.
abbrev pub perm_of : Matches → Bool → Bindex → Option Name → Perm
perm_of m rdonly (some zero) none = if rdonly then ro else rw
perm_of m rdonly b none = ro
perm_of m rdonly (some zero) (some []) = if rdonly then ro else rw
perm_of m rdonly b (some []) = ro
perm_of m rdonly b (some (c ∷ cs)) = br_perm_val m (c ∷ cs)

-- `opt_add`: a failed lookup is EINVAL.
abbrev pub parse_add : Matches → Bool → AddText → Bindex → Result OptAdd
parse_add m rdonly t b = elim t.dir [
  | err e ↦ err einval
  | ok a ↦ ok (record a { bindex = b; perm = perm_of m rdonly b t.perm })
]

-- `opts->opt` up to the pointer `opt`, `none` for an entry that has the type Opt_tail; `ended` says
-- that the entry at the pointer is one of the array and has that type. `bindex` is a bit pattern.
pub record Parsed : Type 0 where
  pub opts : List (Option Opt)
  pub bindex : ℕ
  pub ended : Bool

abbrev pub push : Parsed → Option Opt → Parsed
push p o = record p { opts = p.opts ++ (o ∷ []) }

-- The end of the loop of `au_parse_opts`: the last entry of the array is for Opt_tail.
abbrev pub store : ℕ → Parsed → Option Opt → Result (Unit {0}) × Parsed
store max_opt p o =
    if ltb (max_opt - 1) (length p.opts + 1) then (err e2big, p) else (ok tt, push p o)

-- The same in the loop over the branches of `br`, which leaves the pointer past the array.
abbrev pub store_br : ℕ → Parsed → Option Opt → Result (Unit {0}) × Parsed
store_br max_opt p o =
    if ltb (max_opt - 1) (length p.opts + 1)
    then (err e2big, record (push p o) { ended = false })
    else (ok tt, push p o)

abbrev pub inc_index : Parsed → Parsed
inc_index p = record p { bindex = (p.bindex + 1) % 256 }

unfoldable pub parse_br :
    ℕ → (AddText → Bindex → Result OptAdd) → List AddText → Parsed → Result (Unit {0}) × Parsed
parse_br max_opt parse [] p = (ok tt, p)
parse_br max_opt parse (t ∷ ts) p = elim (parse t (char_index p.bindex)) [
  | err e ↦ (err e, inc_index p)
  | ok a ↦
      (let (r, q) = store_br max_opt (inc_index p) (some (opt_add a t.xino)) in
        elim r [ err e ↦ (err e, q) | ok u ↦ parse_br max_opt parse ts q ])
]

-- A result that is stored.
abbrev pub store_ok : ℕ → Parsed → Result Opt → Result (Unit {0}) × Parsed
store_ok max_opt p (err e) = (err e, p)
store_ok max_opt p (ok o) = store max_opt p (some o)

abbrev pub read_int : Option ℕ → Result ℕ
read_int none = err einval
read_int (some n) = ok n

abbrev pub outside : Result (Bool × OptXino) → Result Opt
outside (err e) = err e
outside (ok (true, x)) = err einval
outside (ok (false, x)) = ok (opt_xino x)

abbrev pub with_perm : Matches → Option Name → Result OptMod → Result Opt
with_perm m none dir = err einval
with_perm m (some p) dir = do o ← dir; ok (opt_mod (record o { perm = br_perm_val m p }))

abbrev pub known_udba : Option Udba → Result Opt
known_udba none = err einval
known_udba (some u) = ok (opt_udba u)

-- `Opt_add` sets `bindex` also where the directory is not found.
abbrev pub set_index : Parsed → Option ℕ → Parsed
set_index p none = p
set_index p (some n) = record p { bindex = n % 256 }

-- The `switch` of `au_parse_opts`, and what follows it. Without a branch in it, `br` leaves an entry
-- that nothing was stored in.
unfoldable pub parse_token : ℕ → Matches → Bool → Token → Parsed → Result (Unit {0}) × Parsed
unfolding parse_br
parse_token max_opt m rdonly (br []) p = store max_opt p none
parse_token max_opt m rdonly (br (t ∷ ts)) p = parse_br max_opt (parse_add m rdonly) (t ∷ ts) p
parse_token max_opt m rdonly (add n t) p =
    store_ok max_opt (set_index p n)
      (do i ← read_int n; a ← parse_add m rdonly t (char_index i); ok (opt_add a t.xino))
parse_token max_opt m rdonly (append t) p =
    store_ok max_opt p (do a ← parse_add m rdonly t (some 1); ok (opt_append a t.xino))
parse_token max_opt m rdonly (prepend t) p =
    store_ok max_opt p (do a ← parse_add m rdonly t (some 1); ok (opt_prepend a t.xino))
parse_token max_opt m rdonly (del d) p = store_ok max_opt p (do o ← d; ok (opt_del o))
parse_token max_opt m rdonly (mod_perm perm d) p = store_ok max_opt p (with_perm m perm d)
parse_token max_opt m rdonly (xino_file x) p = store_ok max_opt p (outside x)
parse_token max_opt m rdonly (dirwh n) p = store_ok max_opt p (do i ← read_int n; ok (opt_dirwh i))
parse_token max_opt m rdonly (rdcache n) p =
    store_ok max_opt p (do i ← read_int n; ok (opt_rdcache i))
parse_token max_opt m rdonly (udba s) p = store_ok max_opt p (known_udba (udba_val m s))
parse_token max_opt m rdonly (plain o) p = store max_opt p (some o)
parse_token max_opt m rdonly ignore p = (ok tt, p)
parse_token max_opt m rdonly unknown p = (err einval, p)

-- The loop over the tokens.
unfoldable pub parse_from : ℕ → Matches → Bool → List Token → Parsed → Result (Unit {0}) × Parsed
unfolding parse_token
parse_from max_opt m rdonly [] p = (ok tt, p)
parse_from max_opt m rdonly (t ∷ ts) p =
    let (r, q) = parse_token max_opt m rdonly t p in
    elim r [ err e ↦ (err e, q) | ok u ↦ parse_from max_opt m rdonly ts q ]

-- The array before the first token.
abbrev pub no_opts : Parsed
no_opts = record { opts = []; bindex = 0; ended = true }

unfoldable pub au_parse_opts : ℕ → Matches → Bool → List Token → Result (Unit {0}) × Parsed
unfolding parse_from
au_parse_opts max_opt m rdonly tokens = parse_from max_opt m rdonly tokens no_opts
