-- ===== src/Tests/Branches.antt =====
-- The branch table.
use aufs.Common.{
  ℕ, ◌<◌, ◌≡◌, ◌≢◌, true, false, some, none, [], ◌∷◌, arith, suc, le_bindex, lt_bindex,
}
use aufs.Dinfo.{Dinfo, dbtaildir}
use aufs.Dinfo.Tail.{dbtaildir_bounds}
use aufs.Branch.{
  Mount, Branch, Brtable, find_brindex, find_rw_br, find_rw_parent_br, new_br_id_fuel, bindex_mod,
}
use aufs.Branch.Permission.{Perm, rw, ro}
use aufs.Branch.NewId.{new_br_id_total}
use aufs.Branch.Writable.{Nearest, Chosen, find_rw_br-Nearest, find_rw_parent_br-Chosen}

abbrev mount : Mount
mount = record { sb_id = 3; rdonly = false; maxbytes = 4096; nfs = false }

abbrev branch : ℕ → Perm → Branch
branch id p = record {
  id = id;
  perm = p;
  mnt = mount;
  count = 0;
  wh = false;
  plink = false;
  xino = none;
}

-- The next id wraps past 0, and 1 is taken.
abbrev table : Brtable
table = record {
  bend = some 1;
  last_br_id = 255;
  branch = some (branch 1 rw) ∷ some (branch 255 ro) ∷ [];
}

abbrev parent : Dinfo
parent = record {
  hdentry = none ∷ none ∷ [];
  bstart = some 0;
  bend = some 1;
  bwh = none;
  bdiropq = none;
  generation = 1;
}

new_br_id_total_example :
    (id : ℕ) × (new_br_id_fuel 4 table ≡ some (id, record table { last_br_id = id }))
    × (id ≢ 0)
    × (id < bindex_mod)
    × (find_brindex table id ≡ none)
new_br_id_total_example = new_br_id_total table 4 (omega arith) (omega arith)

find_rw_br-Nearest_example : Nearest table 2 (find_rw_br table 1)
find_rw_br-Nearest_example = find_rw_br-Nearest table 1

find_rw_parent_br-Chosen_example : Chosen table parent 1 (find_rw_parent_br table parent 1)
find_rw_parent_br-Chosen_example = find_rw_parent_br-Chosen table parent 1 (omega arith)

dbtaildir_bounds_example :
    let d = parent in
    (le_bindex (dbtaildir d) d.bend ≡ true)
    × ((w : ℕ)
        → d.bwh ≡ some (suc w)
        → lt_bindex d.bwh d.bend ≡ true
        → le_bindex (dbtaildir d) (some w) ≡ true)
    × ((o : ℕ) → d.bdiropq ≡ some o → le_bindex (dbtaildir d) (some o) ≡ true)
    × (dbtaildir d ≡ none → d.bend ≡ none)
dbtaildir_bounds_example = dbtaildir_bounds parent
