-- ===== src/Whout/Base.antt =====
-- `init_wh` and the test of `verify_opts`.
use aufs.Common.{Bool, true, ◌≡◌, ok, arith}
use aufs.Branch.Permission.{Perm}
use aufs.Whout.{BaseDir, WhBase, init_wh, base_fits}

-- After `init_wh` has succeeded the base of the branch is what its permission and the plink option
-- ask for, so that `verify_opts` skips the branch, whatever the base was before.
pub init_wh_fits :
    (perm : Perm) (do_plink : Bool) (b : BaseDir) (old : WhBase)
    → (init_wh perm do_plink b old).0 ≡ ok tt
    → base_fits perm do_plink (init_wh perm do_plink b old).1 ≡ true
unfolding init_wh base_fits
init_wh_fits perm do_plink b old h = ground arith
