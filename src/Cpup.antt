-- ===== src/Cpup.antt =====
-- fs/aufs/cpup.c: `cpup_dirs`, which makes the directories of a path on a branch. Copying one
-- directory up (`sio_cpup_simple`) is a function from the directory to a result; a directory has its
-- slot on the branch once that succeeded. Locks are left out, so nobody else makes a directory.
pub mod Dirs
use aufs.Common.{
  ℕ, zero, suc, ◌+◌, ◌==◌, if◌then◌else◌, Bool, true, false, Option, some, none, List, [], ◌∷◌,
  length, get_or, set, drop, Result, ok, err,
}

-- The directories above a dentry, its parent first and the root last: whether each has a hidden
-- dentry on the branch `bdst`.
abbrev pub DirPath : Type 0
DirPath = List Bool

-- The inner loop from the parent of the directory `d` on: the directory below the first one that
-- has its slot. Past the root there is no end.
unfoldable pub top_from : DirPath → ℕ → Option ℕ
top_from [] d = none
top_from (true ∷ ps) d = some d
top_from (false ∷ ps) d = top_from ps (d + 1)

-- The part of the outer loop under `somebody else might create while we were sleeping`.
abbrev pub make_dir : (ℕ → Result (Unit {0})) → DirPath → ℕ → Result (Unit {0})
make_dir cpup path d = if get_or path d false then ok tt else cpup d

-- The outer loop, on fuel.
unfoldable pub cpup_loop :
    ℕ → (ℕ → Result (Unit {0})) → DirPath → Option (Result (Unit {0}) × DirPath)
unfolding top_from
cpup_loop zero cpup path = none
cpup_loop (suc f) cpup path = elim (get_or path 0 false) [
  | true ↦ some (ok tt, path)
  | false ↦ elim (top_from (drop 1 path) 0) [
    | none ↦ none
    | some d ↦ elim (make_dir cpup path d) [
      | err e ↦ some (err e, path)
      | ok u ↦ cpup_loop f cpup (set path d true)
    ]
  ]
]

-- `cpup_dirs`, with fuel for one round more than there are directories.
unfoldable pub cpup_dirs : (ℕ → Result (Unit {0})) → DirPath → Option (Result (Unit {0}) × DirPath)
unfolding cpup_loop
cpup_dirs cpup path =
    if length path == 1 then some (ok tt, path) else cpup_loop (suc (length path)) cpup path

-- `test_and_cpup_dirs`; `has_inode` is `au_h_iptr_i(dir, bdst)` of the parent.
unfoldable pub test_and_cpup_dirs :
    (ℕ → Result (Unit {0})) → Bool → DirPath → Option (Result (Unit {0}) × DirPath)
unfolding cpup_dirs
test_and_cpup_dirs cpup has_inode path =
    if has_inode then some (ok tt, path) else cpup_dirs cpup path
