-- ===== src/Branch/Permission.antt =====
-- fs/aufs/branch.h: the permissions of a branch, and what a change of them means for the
-- generation (fs/aufs/branch.c, need_sigen_inc).
use aufs.Common.{ℕ, Bool, true, not, ◌&&◌, ◌||◌, ◌==◌, ◌≡◌, ◌≢◌, ◌↔◌, arith}

-- The enum `AuBr_*`.
pub data Perm : Type 0 where
  rw ro rr rw_nolwh rowh rrwh : Perm

-- The value of the enumerator.
abbrev pub perm_token : Perm → ℕ
perm_token rw = 0
perm_token ro = 1
perm_token rr = 2
perm_token rw_nolwh = 3
perm_token rowh = 4
perm_token rrwh = 5

abbrev pub eq_perm : Perm → Perm → Bool
eq_perm p q = perm_token p == perm_token q

abbrev pub br_writable : Perm → Bool
br_writable p = eq_perm p rw || eq_perm p rw_nolwh

abbrev pub br_whable : Perm → Bool
br_whable p = eq_perm p rw || (eq_perm p rowh || eq_perm p rrwh)

abbrev pub br_linkable_wh : Perm → Bool
br_linkable_wh p = eq_perm p rw

unfoldable pub do_need_sigen_inc : Perm → Perm → Bool
do_need_sigen_inc a b = br_whable a && not (br_whable b)

unfoldable pub need_sigen_inc : Perm → Perm → Bool
unfolding do_need_sigen_inc
need_sigen_inc old new = do_need_sigen_inc old new || do_need_sigen_inc new old

-- The generation is bumped exactly when the change of permission turns the test for whiteouts on
-- or off, so never for a permission that stays.
pub need_sigen_inc_iff :
    (old new : Perm) → (need_sigen_inc old new ≡ true) ↔ (br_whable old ≢ br_whable new)
unfolding need_sigen_inc
need_sigen_inc_iff old new = ground arith

pub eq_perm_iff : (p q : Perm) → (eq_perm p q ≡ true) ↔ (p ≡ q)
eq_perm_iff p q = ground arith
