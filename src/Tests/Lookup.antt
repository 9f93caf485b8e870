-- ===== src/Tests/Lookup.antt =====
-- Lookups and the ranges of dentries and inodes, on two and three branches.
use aufs.Common.{
  ℕ, zero, suc, ◌+◌, ◌≤◌, ◌<◌, ◌≡◌, refl, if◌then◌else◌, true, false, some, none, [], ◌∷◌, ok,
  arith, inr, leb, IsFirstSuch, ap, get_or,
}
use aufs.Lower.{HDentry, s_ifdir, s_ifreg, is_positive}
use aufs.Dinfo.{Dinfo, dbtail, dbtaildir, h_dptr_i, update_dbstart, find_dbindex, holds}
use aufs.Dinfo.Range.{Trimmed, update_dbstart_lem, find_dbindex_lem}
use aufs.Iinfo.{Hinode, Iinfo, update_brange, h_iptr_i}
use aufs.Iinfo.Brange.{IsFitted, kept, update_brange_lem}
use aufs.Branch.{Branch, Brtable, Mount}
use aufs.Branch.Permission.{Perm, rw, ro}
use aufs.Whout.{Name, Lkup, eq_name, alloc_whname, is_wh, is_diropq}
use aufs.Lookup.{Env, lkup_round, lkup_dentry}
use aufs.Lookup.Stack.{Layer, node, visible}
use aufs.Lookup.Rounds.{layer_of}
use aufs.Lookup.Refine.{Outcome, lkup_dentry-Outcome}

abbrev dir : ℕ → HDentry
dir id = record {
  id = id;
  inode = some (record { ino = id; fmt = s_ifdir; nlink = 2 });
  ancestors = [];
}

abbrev negative : ℕ → HDentry
negative id = record { id = id; inode = none; ancestors = [] }

abbrev mount : ℕ → Mount
mount id = record { sb_id = id; rdonly = false; maxbytes = 4096; nfs = false }

abbrev branch : ℕ → Perm → Branch
branch id p = record {
  id = id;
  perm = p;
  mnt = mount id;
  count = 0;
  wh = false;
  plink = false;
  xino = none;
}

abbrev table : Brtable
table = record {
  bend = some 1;
  last_br_id = 2;
  branch = some (branch 1 rw) ∷ some (branch 2 ro) ∷ [];
}

abbrev parent : Dinfo
parent = record {
  hdentry = some (dir 10) ∷ some (dir 20) ∷ [];
  bstart = some 0;
  bend = some 1;
  bwh = none;
  bdiropq = none;
  generation = 1;
}

abbrev fresh : Dinfo
fresh = record {
  hdentry = none ∷ none ∷ [];
  bstart = none;
  bend = none;
  bwh = none;
  bdiropq = none;
  generation = 1;
}

abbrev name : Name
name = b'a' ∷ []

-- Both branches have a directory `a`.
abbrev lkup : Lkup
lkup p n = ok (if eq_name n name then dir (p.id + 1) else negative (p.id + 2))

abbrev env : Env
env = record {
  lkup = lkup;
  table = table;
  parent = parent;
  name = name;
  wh_name = b'.' ∷ b'w' ∷ b'h' ∷ b'.' ∷ b'a' ∷ [];
}

abbrev layers : ℕ → Layer
layers b = node s_ifdir false

fresh-slots : (j : ℕ) → 0 ≤ j → get_or fresh.hdentry j none ≡ none
fresh-slots zero h = refl
fresh-slots (suc zero) h = refl
fresh-slots (suc (suc j)) h = refl

seen : (j : ℕ) → 0 ≤ j → j < 2 → layer_of env j ≡ ok (layers j)
unfolding h_dptr_i is_wh is_diropq
seen zero h k = refl
seen (suc zero) h k = refl
seen (suc (suc j)) h k = absurd (omega arith)

lkup_dentry-Outcome_example :
    Outcome fresh 0 (visible layers 2 0 0) (lkup_dentry lkup table parent name fresh 0 0)
unfolding dbtaildir dbtail alloc_whname
lkup_dentry-Outcome_example =
    lkup_dentry-Outcome lkup table parent name (b'.' ∷ b'w' ∷ b'h' ∷ b'.' ∷ b'a' ∷ []) fresh 0 0
      layers refl refl (omega arith) (omega arith)
      (record { slots = fresh-slots; no_wh = refl; no_opq = refl }) seen

-- The run itself: two positive hidden dentries, from branch 0 to branch 1.
lkup_dentry_run :
    ((lkup_dentry lkup table parent name fresh 0 0).0 ≡ ok 2)
    × ((lkup_dentry lkup table parent name fresh 0 0).1.bstart ≡ some 0)
    × ((lkup_dentry lkup table parent name fresh 0 0).1.bend ≡ some 1)
unfolding lkup_dentry lkup_round dbtaildir dbtail alloc_whname h_dptr_i is_wh is_diropq
    update_dbstart
lkup_dentry_run = (refl, refl, refl)

-- A negative dentry above two positive ones.
abbrev stacked : Dinfo
stacked = record {
  hdentry = some (negative 3) ∷ some (dir 4) ∷ some (dir 5) ∷ [];
  bstart = some 0;
  bend = some 2;
  bwh = none;
  bdiropq = none;
  generation = 1;
}

below_one : (i : ℕ) → 0 ≤ i → i < 1 → i ≡ 0
below_one i h k = omega arith

update_dbstart_lem_example :
    Trimmed stacked (update_dbstart stacked) 0 1
    × ((update_dbstart stacked).bstart ≡ (if leb 1 2 then some 1 else some 0))
update_dbstart_lem_example = update_dbstart_lem stacked 0 2 1 refl refl (omega arith) (
  omega arith,
  omega arith,
  inr refl,
  λ i h k. ap (λ x. is_positive (get_or stacked.hdentry x none)) (below_one i h k),
)

find_dbindex_lem_example :
    IsFirstSuch (λ b. holds (h_dptr_i stacked b) 4) 0 3 (find_dbindex stacked 4)
find_dbindex_lem_example = find_dbindex_lem stacked 4 0 2 refl refl (omega arith)

abbrev slot : ℕ → ℕ → Hinode
slot ino nlink = record {
  inode = some (record { ino = ino; fmt = s_ifreg; nlink = nlink });
  hid = some 1;
}

-- The first hidden inode has no link left.
abbrev inode : Iinfo
inode = record { hinode = slot 7 0 ∷ slot 8 1 ∷ []; bstart = some 0; bend = some 1; generation = 1 }

update_brange_lem_example :
    let r = update_brange inode true in
    IsFitted 2 r r.bstart r.bend × ((j : ℕ) → h_iptr_i r j ≡ kept inode true 0 1 j)
update_brange_lem_example = update_brange_lem inode true 0 1 refl refl
