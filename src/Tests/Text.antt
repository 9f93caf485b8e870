-- ===== src/Tests/Text.antt =====
-- The text of the options.
use aufs.Common.{◌≡◌, refl, false, none, List, [], ◌∷◌, ok, length, arith}
use aufs.Branch.Permission.{ro, rw_nolwh}
use aufs.Whout.{eq_name}
use aufs.Opts.Text.{
  Matches, AddText, Token, parse_br, parse_token, parse_from, au_parse_opts, no_opts,
}
use aufs.Opts.Text.Token.{br}
use aufs.Opts.Fits.{Fits, au_parse_opts-Fits}
use aufs.Opts.Perms.{HasText, br_perm_val-br_perm_str}
use aufs.Tests.Opts.{xino, add}

abbrev same : Matches
same text p = eq_name p text

abbrev branch : AddText
branch = record { perm = none; dir = ok (add 10 ro); xino = xino }

-- An array of two, and two branches: it is full.
abbrev tokens : List Token
tokens = br (branch ∷ branch ∷ []) ∷ []

full : length (au_parse_opts 2 same false tokens).1.opts ≡ 2
unfolding au_parse_opts parse_from parse_token parse_br
full = refl

au_parse_opts-Fits_example : Fits 2 same false tokens no_opts (au_parse_opts 2 same false tokens)
au_parse_opts-Fits_example = au_parse_opts-Fits 2 same false tokens (omega arith)

br_perm_val-br_perm_str_example : HasText same rw_nolwh 9
br_perm_val-br_perm_str_example =
    br_perm_val-br_perm_str same rw_nolwh 9 (λ t q l. refl) (omega arith)
