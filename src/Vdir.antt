-- ===== src/Vdir.antt =====
-- fs/aufs/vdir.c: the listing of a directory, filled branch by branch. The blocks of 512 bytes that
-- hold the entries, and the cache of the listing, are left out: `entries` is what they hold.
pub mod Hash
pub mod Step
pub mod Merge
pub mod Total
pub mod Union
pub mod Once
use aufs.Common.{
  ℕ, zero, suc, ◌+◌, ◌%◌, ◌==◌, ltb, leb, if◌then◌else◌, Bool, true, false, not, ◌&&◌, ◌||◌, Option,
  some, none, List, [], ◌∷◌, length, get_or, set, drop, replicate, Result, ok, err, Errno,
}
use aufs.Whout.{Name, eq_name, has_wh_pfx, wh_len}
use aufs.Xino.{Io, XinoFile, assign_ino}

-- AUFS_NHASH_SIZE.
abbrev pub nhash_size : ℕ
nhash_size = 32

-- `struct aufs_whdir`'s tables: a list of names for each value of `au_name_hash`. The hash itself is
-- the kernel's.
abbrev pub Nhash : Type 0
Nhash = List (List Name)

abbrev pub name_hash : (Name → ℕ) → Name → ℕ
name_hash hash name = hash name % nhash_size

-- The loop of `test_known` and of `test_known_wh` over one list.
abbrev pub known_in : List Name → Name → Bool
known_in [] name = false
known_in (x ∷ xs) name = eq_name x name || known_in xs name

unfoldable pub test_known : (Name → ℕ) → Nhash → Name → Bool
test_known hash nh name = known_in (get_or nh (name_hash hash name) []) name

-- `hlist_add_head` on the list of the name, in `append_wh` and `append_de`.
unfoldable pub add_name : (Name → ℕ) → Nhash → Name → Nhash
add_name hash nh name = set nh (name_hash hash name) (name ∷ get_or nh (name_hash hash name) [])

-- What `filldir` is given, and an entry of the listing.
pub record Raw : Type 0 where
  pub name : Name
  pub h_ino : ℕ
  pub d_type : ℕ

pub record De : Type 0 where
  pub name : Name
  pub ino : ℕ
  pub d_type : ℕ

-- What stays the same while a directory is read: the hash, the flag AuFlag_XINO, and the transfers.
pub record Env : Type 0 where
  pub hash : Name → ℕ
  pub xino : Bool
  pub io : Io

-- `struct fillvdir_arg`, with the tables of the branches, the listing in reverse, the counter of the
-- inode numbers and the xino file of the branch that is read.
pub record Fill : Type 0 where
  pub delist : List Nhash
  pub whlist : List Nhash
  pub entries : List De
  pub counter : ℕ
  pub file : XinoFile

-- The loop of `fillvdir` over the `n` branches above: the name exists there or is whiteouted.
pub known_above : ℕ → (Name → ℕ) → Fill → Name → Bool
unfolding test_known
known_above zero hash s name = false
known_above (suc n) hash s name =
    known_above n hash s name
    || (test_known hash (get_or s.delist n []) name || test_known hash (get_or s.whlist n []) name)

-- The first branch of `fillvdir`, for a name that is not known above.
abbrev pub append_de : Env → ℕ → Raw → Fill → Result (ℕ × XinoFile) × ℕ → Result (Unit {0}) × Fill
append_de env bend raw s (err e, x) = (err e, record s { counter = x })
append_de env bend raw s (ok (ino, f), x) = (
  ok tt,
  record s {
    delist = set s.delist bend (add_name env.hash (get_or s.delist bend []) raw.name);
    entries = record { name = raw.name; ino = ino; d_type = raw.d_type } ∷ s.entries;
    counter = x;
    file = f;
  },
)

-- The second, for a whiteout of `name`. The loop over the branches above tests the table of this
-- branch in each of its rounds.
abbrev pub append_wh : Env → ℕ → Name → Fill → Fill
append_wh env bend name s =
    if not (bend == 0) && test_known env.hash (get_or s.whlist bend []) name
    then s
    else record s { whlist = set s.whlist bend (add_name env.hash (get_or s.whlist bend []) name) }

abbrev pub is_plain : Name → Bool
is_plain name = leb (length name) wh_len || not (has_wh_pfx name)

unfoldable pub fillvdir : Env → ℕ → Raw → Fill → Result (Unit {0}) × Fill
unfolding known_above add_name
fillvdir env bend raw s =
    if is_plain raw.name
    then (if known_above bend env.hash s raw.name
        then (ok tt, s)
        else append_de env bend raw s (assign_ino env.xino env.io s.file raw.h_ino s.counter))
    else (ok tt, append_wh env bend (drop wh_len raw.name) s)

-- `vfsub_readdir` of one branch: it stops at the first error.
pub read_branch : Env → ℕ → List Raw → Fill → Result (Unit {0}) × Fill
unfolding fillvdir
read_branch env bend [] s = (ok tt, s)
read_branch env bend (raw ∷ raws) s =
    let (r, s') = fillvdir env bend raw s in
    elim r [ err e ↦ (err e, s') | ok u ↦ read_branch env bend raws s' ]

-- The directory on a branch: its entries and the xino file of the branch.
pub record BranchDir : Type 0 where
  pub entries : List Raw
  pub file : XinoFile

-- The loop of `read_vdir` over the branches from `bindex` on; a branch without the directory is
-- passed over.
pub read_branches : Env → ℕ → List (Option BranchDir) → Fill → Result (Unit {0}) × Fill
unfolding read_branch
read_branches env bindex [] s = (ok tt, s)
read_branches env bindex (none ∷ ds) s = read_branches env (bindex + 1) ds s
read_branches env bindex (some d ∷ ds) s =
    let (r, s') = read_branch env bindex d.entries (record s { file = d.file }) in
    elim r [ err e ↦ (err e, s') | ok u ↦ read_branches env (bindex + 1) ds s' ]

abbrev pub empty_nhash : Nhash
empty_nhash = replicate nhash_size []

-- `read_vdir` for a listing that is not cached, over the branches from `bstart` on. The tables are
-- those of all branches, initialised; the listing comes in reverse.
unfoldable pub read_vdir : Env → ℕ → List (Option BranchDir) → ℕ → Result (Unit {0}) × Fill
unfolding read_branches
read_vdir env bstart ds counter = read_branches env bstart ds (record {
  delist = replicate (bstart + length ds) empty_nhash;
  whlist = replicate (bstart + length ds) empty_nhash;
  entries = [];
  counter = counter;
  file = record { size = 0; entry = λ p. 0 };
})
