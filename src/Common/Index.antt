-- ===== src/Common/Index.antt =====
-- `aufs_bindex_t` where it marks a branch: `none` is -1, no branch, and `some b` is b.
-- The comparisons are those of the integers, with -1 below every branch.
use Prim.Native.Nat.{ℕ, zero, suc}
use mathlib.Core.Option.{Option, none, some}
use mathlib.Core.Bool.{Bool, true, false}
use aufs.Common.Tests.{ltb, leb, ◌==◌}

abbrev pub Bindex : Type 0
Bindex = Option ℕ

abbrev pub lt_bindex : Bindex → Bindex → Bool
lt_bindex none none = false
lt_bindex none (some b) = true
lt_bindex (some a) none = false
lt_bindex (some a) (some b) = ltb a b

abbrev pub le_bindex : Bindex → Bindex → Bool
le_bindex none b = true
le_bindex (some a) none = false
le_bindex (some a) (some b) = leb a b

abbrev pub eq_bindex : Bindex → Bindex → Bool
eq_bindex none none = true
eq_bindex none (some b) = false
eq_bindex (some a) none = false
eq_bindex (some a) (some b) = a == b

-- One more than the index: the number of branches up to it.
abbrev pub count_to : Bindex → ℕ
count_to none = 0
count_to (some b) = suc b

-- The branch at which a loop from `b` meets the first entry: a round at -1 finds none.
abbrev pub from_branch : Bindex → ℕ
from_branch none = 0
from_branch (some b) = b

-- The index of the last of `n` branches.
abbrev pub last_of : ℕ → Bindex
last_of zero = none
last_of (suc n) = some n
