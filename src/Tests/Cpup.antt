-- ===== src/Tests/Cpup.antt =====
-- Copying up the directories of a path.
use aufs.Common.{ℕ, zero, suc, refl, false, [], Result, ok, err, eio}
use aufs.Cpup.{cpup_dirs, test_and_cpup_dirs}
use aufs.Cpup.Dirs.{Returns, lacking, cpup_dirs-IsMade}

-- The middle one of three directories cannot be made.
abbrev fails : ℕ → Result (Unit {0})
fails zero = ok tt
fails (suc zero) = err eio
fails (suc (suc d)) = ok tt

cpup_dirs-IsMade_example :
    Returns fails 3 [] (cpup_dirs fails (lacking 3 []))
    × Returns fails 3 [] (test_and_cpup_dirs fails false (lacking 3 []))
cpup_dirs-IsMade_example = cpup_dirs-IsMade fails 3 [] false refl
