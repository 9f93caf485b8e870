-- ===== src/Tests/Vdir.antt =====
-- A directory on two branches: `b` is on both, `c` is whiteouted above.
use aufs.Common.{
  ◌≤◌, arith, ℕ, ◌≡◌, refl, true, false, Option, some, none, List, [], ◌∷◌, ok, inl, ◌||◌,
}
use aufs.Whout.{Name, eq_name}
use aufs.Vdir.{Raw, Env, BranchDir, empty_nhash, test_known, add_name, read_vdir}
use aufs.Vdir.Once.{times, times_shown, read_vdir-times}
use aufs.Vdir.Hash.{test_known-add_name}
use aufs.Vdir.Step.{has_de}
use aufs.Vdir.Merge.{listed}
use aufs.Vdir.Union.{read_vdir-listed}
use aufs.Common.{length}

abbrev hash : Name → ℕ
hash n = length n

abbrev env : Env
env = record {
  hash = hash;
  xino = false;
  io = record { reads = λ p. ok true; writes = λ p. ok true };
}

abbrev raw : Name → ℕ → Raw
raw n i = record { name = n; h_ino = i; d_type = 8 }

abbrev dir : List Raw → Option BranchDir
dir rs = some (record { entries = rs; file = record { size = 0; entry = λ p. 0 } })

abbrev branches : List (Option BranchDir)
branches =
    dir (raw (b'b' ∷ []) 20 ∷ raw (b'.' ∷ b'w' ∷ b'h' ∷ b'.' ∷ b'c' ∷ []) 21 ∷ [])
    ∷ none
    ∷ dir (raw (b'b' ∷ []) 30 ∷ raw (b'c' ∷ []) 31 ∷ raw (b'd' ∷ []) 32 ∷ [])
    ∷ []

read_vdir-listed_example :
    ((read_vdir env 0 branches 11).0 ≡ ok tt)
    × ((n : Name) → has_de (read_vdir env 0 branches 11).1.entries n ≡ listed branches n)
read_vdir-listed_example = read_vdir-listed env 0 branches 11 (inl refl)

test_known-add_name_example :
    test_known hash (add_name hash empty_nhash (b'b' ∷ [])) (b'c' ∷ [])
    ≡ (eq_name (b'b' ∷ []) (b'c' ∷ []) || test_known hash empty_nhash (b'c' ∷ []))
test_known-add_name_example = test_known-add_name hash empty_nhash (b'b' ∷ []) (b'c' ∷ []) refl

listed_run :
    (listed branches (b'b' ∷ []) ≡ true)
    × (listed branches (b'c' ∷ []) ≡ false)
    × (listed branches (b'd' ∷ []) ≡ true)
listed_run = (refl, refl, refl)

first-IsDistinct :
    (n : Name)
    → times_shown (raw (b'b' ∷ []) 20 ∷ raw (b'.' ∷ b'w' ∷ b'h' ∷ b'.' ∷ b'c' ∷ []) 21 ∷ []) n ≤ 1
first-IsDistinct n = ground arith

read_vdir-times_example :
    times
      (read_vdir env 0
        (dir (raw (b'b' ∷ []) 20 ∷ raw (b'.' ∷ b'w' ∷ b'h' ∷ b'.' ∷ b'c' ∷ []) 21 ∷ []) ∷ [])
        11).1.entries
      (b'b' ∷ [])
    ≤ 1
read_vdir-times_example =
    read_vdir-times env 0
      (dir (raw (b'b' ∷ []) 20 ∷ raw (b'.' ∷ b'w' ∷ b'h' ∷ b'.' ∷ b'c' ∷ []) 21 ∷ []) ∷ []) 11
      (b'b' ∷ []) (inl refl) (first-IsDistinct, tt)
