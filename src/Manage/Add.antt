-- ===== src/Manage/Add.antt =====
-- `br_add` and `test_add`, with `xino_init` (fs/aufs/xino.c).
use aufs.Common.{
  ℕ, ◌+◌, ◌-◌, max, ◌==◌, ltb, if◌then◌else◌, Bool, true, false, not, ◌||◌, Option, some, none,
  List, [], ◌∷◌, get_or, Result, ok, err, einval, enospc, edom, enoent, ◌>>=◌, fail_if, Bindex,
  le_bindex, eq_bindex, count_to, first_such, grow, shift_up,
}
use aufs.Lower.{HInode, HDentry}
use aufs.Dinfo.{h_dptr_i, find_dbindex, set_h_dptr}
use aufs.Iinfo.{Iinfo, zero_hinode, set_h_iptr}
use aufs.Branch.{Mount, Branch, Brtable, branch_max, stobr, new_br_id, update_br}
use aufs.Branch.Permission.{Perm, br_writable}
use aufs.Whout.{BaseDir, WhBase, no_base, init_wh}
use aufs.Xino.{Io, XinoFile, xino_write, is_sb_shared, root_ino}
use aufs.Manage.{Super, test_br, add_nlink, cpup_nlink}

-- `struct opt_add`, with what is read of the directory `dentry`: `inside` when it is of the union
-- itself, `nested` when it is of another aufs or unionfs, `nlink` of its inode. `bindex` is `none`
-- for a negative index. `base` is what `init_wh` meets in it.
pub record OptAdd : Type 0 where
  pub bindex : Bindex
  pub dentry : HDentry
  pub inode : HInode
  pub mnt : Mount
  pub perm : Perm
  pub inside : Bool
  pub nested : Bool
  pub base : BaseDir

-- The walk of `do_is_overlap` from the dentry `d` along its ancestors: each is compared.
unfoldable pub walk_up : ℕ → List ℕ → ℕ → Bool
walk_up d [] target = d == target
walk_up d (p ∷ ps) target = d == target || walk_up p ps target

unfoldable pub do_is_overlap : HDentry → HDentry → Bool
unfolding walk_up
do_is_overlap d1 d2 = walk_up d1.id d1.ancestors d2.id

-- `is_overlap` in a kernel without loop devices.
unfoldable pub is_overlap : HDentry → HDentry → Bool
unfolding do_is_overlap
is_overlap d1 d2 = d1.id == d2.id || (do_is_overlap d1 d2 || do_is_overlap d2 d1)

abbrev pub overlaps : HDentry → Option HDentry → Bool
overlaps d none = false
overlaps d (some h) = is_overlap d h

-- `add->bindex < 0 || bend + 1 < add->bindex`.
abbrev pub bad_index : Bindex → Bindex → Bool
bad_index bend none = true
bad_index bend (some b) = ltb (count_to bend) b

-- The tests of `test_add` after the first, in their order. A branch on NFS is taken.
unfoldable pub test_new : Super → OptAdd → Result (Unit {0})
unfolding is_overlap
test_new s add = do
  _ ←
      fail_if
        (le_bindex (some branch_max) add.bindex || le_bindex (some (branch_max - 1)) s.table.bend)
        enospc
  _ ← fail_if (bad_index s.table.bend add.bindex) edom
  _ ← fail_if (add.inode.nlink == 0) enoent
  _ ← fail_if add.inside einval
  _ ← fail_if add.nested einval
  _ ← test_br add.perm add.mnt.rdonly
  fail_if
      (not (
        eq_bindex
          (first_such (λ b. overlaps add.dentry (h_dptr_i s.root b)) (count_to s.table.bend) 0)
          none))
      einval

-- `test_add`: `ok true` for a branch to be added, `ok false` for one that is there already.
unfoldable pub test_add : Super → OptAdd → Bool → Result Bool
unfolding test_new
test_add s add remount =
    if not (eq_bindex (find_dbindex s.root add.dentry.id) none)
    then (if remount then ok false else err einval)
    else (do _ ← test_new s add; ok true)

-- What `xino_init` meets: the file that it creates, whether the file can be read and written, the
-- transfers, and the contents of each file.
pub record XinoEnv : Type 0 where
  pub create : Result ℕ
  pub readf : Result (Unit {0})
  pub writef : Result (Unit {0})
  pub io : Io
  pub contents : ℕ → XinoFile

-- The file of the branch `b`, where there is such a branch and it has one.
abbrev pub xino_of : Option Branch → Option ℕ
xino_of none = none
xino_of (some br) = br.xino

abbrev pub shared_xino : Brtable → ℕ → Bool → Option ℕ
shared_xino t b do_test = elim (if do_test then is_sb_shared t b else none) [
  | none ↦ none
  | some j ↦ xino_of (stobr t j)
]

-- The end of `xino_init` for the branch `b`: the file is kept once the number of the root is written.
abbrev pub keep_xino : Brtable → ℕ → ℕ → Result XinoFile → Result XinoFile × Brtable
keep_xino t b f (err e) = (err e, update_br t b (λ br. record br { xino = none }))
keep_xino t b f (ok file) = (ok file, update_br t b (λ br. record br { xino = some f }))

abbrev pub use_xino : XinoEnv → Brtable → ℕ → ℕ → Result ℕ → Result XinoFile × Brtable
use_xino env t b h_ino (err e) = (err e, t)
use_xino env t b h_ino (ok f) =
    keep_xino t b f (xino_write true env.io (env.contents f) h_ino root_ino)

-- `xino_init` for the branch `b` whose root has the number `h_ino`: the contents of the file with
-- the number written, and the table. The file is shared with a branch on the same filesystem.
unfoldable pub xino_init : XinoEnv → Brtable → ℕ → ℕ → Bool → Result XinoFile × Brtable
xino_init env t b h_ino do_test = use_xino env t b h_ino (do
  f ← elim (shared_xino t b do_test) [ some f ↦ ok f | none ↦ env.create ]
  _ ← env.readf
  _ ← env.writef
  ok f)

-- `alloc_addbr`, when the allocations succeed: the three arrays have room for one branch more.
abbrev pub grow_arrays : Super → ℕ → Super
grow_arrays s n = record s {
  table = record s.table { branch = grow n none s.table.branch };
  root = record s.root { hdentry = grow n none s.root.hdentry };
  root_inode = record s.root_inode { hinode = grow n zero_hinode s.root_inode.hinode };
}

abbrev pub inc_bindex : Bindex → Bindex
inc_bindex b = some (count_to b)

-- The three arrays shifted up at `i`, with the new branch, and the new ends. The slot of the inode
-- keeps the branch id that stood there until `set_h_iptr` stores one.
abbrev pub open_slot : Super → ℕ → Branch → Super
open_slot s i br =
    let m = count_to s.table.bend in
    record s {
      table = record s.table {
        branch = shift_up i m (some br) s.table.branch;
        bend = inc_bindex s.table.bend;
      };
      root = record s.root {
        hdentry = shift_up i m none s.root.hdentry;
        bend = inc_bindex s.root.bend;
        bstart = if m == 0 then some 0 else s.root.bstart;
      };
      root_inode = record s.root_inode {
        hinode =
            shift_up i m (record (get_or s.root_inode.hinode i zero_hinode) { inode = none })
              s.root_inode.hinode;
        bend = inc_bindex s.root_inode.bend;
        bstart = if m == 0 then some 0 else s.root_inode.bstart;
      };
    }

-- The rest of `br_add` up to the inode number table.
abbrev pub fill_slot : Super → ℕ → OptAdd → ℕ → Super
fill_slot s i add id =
    let ii : Iinfo = set_h_iptr s.root_inode i (some add.inode) id in
    record s {
      root = set_h_dptr s.root i (some add.dentry);
      root_inode = ii;
      nlink = if i == 0 then cpup_nlink ii s.nlink else add_nlink s.nlink add.inode.nlink;
      maxbytes = max s.maxbytes add.mnt.maxbytes;
    }

-- A failure of `xino_init` only turns the table off.
abbrev pub with_xino : Super → Result XinoFile × Brtable → Super
with_xino s (ok file, t) = record s { table = t }
with_xino s (err e, t) = record s { table = t; xino = false }

abbrev pub start_xino : XinoEnv → Super → ℕ → OptAdd → Super
start_xino env s i add =
    if s.xino then with_xino s (xino_init env s.table i add.inode.ino true) else s

abbrev pub new_branch : OptAdd → ℕ → WhBase → Branch
new_branch add id w = record {
  id = id;
  perm = add.perm;
  mnt = add.mnt;
  count = 0;
  wh = w.has_wh;
  plink = w.has_plink;
  xino = none;
}

-- The part of `br_add` that is reached when the tests and the whiteout base succeed.
abbrev pub insert_branch : XinoEnv → Super → ℕ → OptAdd → WhBase → Super
insert_branch env s i add w =
    let (id, t) = new_br_id s.table in
    let s1 : Super = record s { table = t } in
    start_xino env (fill_slot (open_slot s1 i (new_branch add id w)) i add id) i add

-- The whiteout base of a writable branch.
abbrev pub add_base : Super → OptAdd → Result (Unit {0}) × WhBase
add_base s add =
    if br_writable add.perm then init_wh add.perm s.plink add.base no_base else (ok tt, no_base)

-- The rest of `br_add` for an index; the tests refuse a negative one.
abbrev pub place : XinoEnv → Super → OptAdd → WhBase → Bindex → Result (Unit {0}) × Super
place env s add w none = (err edom, s)
place env s add w (some i) = (ok tt, insert_branch env s i add w)

-- With the result of setting up the whiteout base.
abbrev pub finish_add :
    XinoEnv → Super → OptAdd → Result (Unit {0}) × WhBase → Result (Unit {0}) × Super
finish_add env s add (err e, w) = (err e, s)
finish_add env s add (ok u, w) = place env s add w add.bindex

abbrev pub grown : Super → Super
grown s = grow_arrays s (count_to s.table.bend + 1)

-- With the result of `test_add`.
abbrev pub begin_add : XinoEnv → Super → OptAdd → Result Bool → Result (Unit {0}) × Super
begin_add env s add (err e) = (err e, s)
begin_add env s add (ok false) = (ok tt, s)
begin_add env s add (ok true) = finish_add env (grown s) add (add_base (grown s) add)

unfoldable pub br_add : XinoEnv → Super → OptAdd → Bool → Result (Unit {0}) × Super
unfolding test_add xino_init
br_add env s add remount = begin_add env s add (test_add s add remount)
