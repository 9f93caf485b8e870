-- ===== src/Dinfo/Tail.antt =====
-- Where a lookup below a directory stops: `dbtail` and `dbtaildir`.
use aufs.Common.{ℕ, suc, ◌≡◌, some, none, true, arith, lt_bindex, le_bindex}
use aufs.Dinfo.{Dinfo, dbtail, dbtaildir}

-- `dbtaildir` never passes the last branch, a whiteout in the middle of the range, or an opaque
-- directory: it is at most `dbend`; below a whiteout that lies before `dbend` and is not branch 0;
-- and at most the branch of an opaque mark. It is -1 only if `dbend` is -1.
pub dbtaildir_bounds :
    (d : Dinfo)
    → (le_bindex (dbtaildir d) d.bend ≡ true)
      × ((w : ℕ)
          → d.bwh ≡ some (suc w)
          → lt_bindex d.bwh d.bend ≡ true
          → le_bindex (dbtaildir d) (some w) ≡ true)
      × ((o : ℕ) → d.bdiropq ≡ some o → le_bindex (dbtaildir d) (some o) ≡ true)
      × (dbtaildir d ≡ none → d.bend ≡ none)
unfolding dbtaildir dbtail
dbtaildir_bounds d =
    (ground arith, (λ w e h. ground arith), (λ o e. ground arith), (λ e. ground arith))
