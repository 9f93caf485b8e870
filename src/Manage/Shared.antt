-- ===== src/Manage/Shared.antt =====
-- The xino file that `xino_init` gives a branch.
use aufs.Common.{ℕ, ◌≡◌, ◌≢◌, ◌⊎◌, Bool, true, ◌>>=◌, some, none, ok}
use aufs.Branch.{Branch, Brtable, stobr}
use aufs.Xino.{XinoFile, root_ino}
use aufs.Xino.Files.{number}
use aufs.Manage.Add.{XinoEnv, shared_xino}

-- Another branch of the same filesystem has the file.
abbrev pub SharedWith : Brtable → ℕ → Branch → ℕ → Type 0
SharedWith t i br f =
    (j : ℕ) × (a : Branch) × (i ≢ j)
    × (stobr t j ≡ some a)
    × (a.mnt.sb_id ≡ br.mnt.sb_id)
    × (a.xino ≡ some f)

-- Where the file of the branch comes from: sharing is tried only with `do_test`.
abbrev pub ComesFrom : XinoEnv → Brtable → ℕ → Branch → Bool → ℕ → Type 0
ComesFrom env t i br do_test f =
    ((do_test ≡ true) × SharedWith t i br f)
    ⊎ ((shared_xino t i do_test ≡ none) × (env.create ≡ ok f))

-- What a successful `xino_init` leaves for the branch `br` at `i`.
abbrev pub IsStarted : XinoEnv → Brtable → ℕ → Branch → ℕ → Bool → XinoFile × Brtable → Type 0
IsStarted env t i br h_ino do_test (file, t') =
    (f : ℕ) × (stobr t' i ≡ some (record br { xino = some f }))
    × (number file h_ino ≡ root_ino)
    × ComesFrom env t i br do_test f
