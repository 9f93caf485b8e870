-- ===== src/Common/Errors.antt =====
-- Error numbers and results. `err e` is the negative return value -e, or `ERR_PTR(-e)`.
use mathlib.Core.Bool.{Bool, true, false}

pub data Errno : Type 0 where
  eperm enoent eio e2big eagain enomem eacces ebusy eexist einval enospc erofs edom eintr : Errno
  emlink enametoolong enosys enotempty exdev estale enotdir : Errno

pub data Result {ℓ} (A : Type ℓ) : Type ℓ where
  err : Errno → Result A
  ok : A → Result A

module _ {ℓ κ} {A : Type ℓ} {B : Type κ} where
  infixl 5 ◌>>=◌
  -- A call, and what follows it where it did not fail.
  abbrev pub ◌>>=◌ : Result A → (A → Result B) → Result B
  err e >>= next = err e
  ok a >>= next = next a

-- `if (bad) { err = -e; goto out; }`
abbrev pub fail_if : Bool → Errno → Result (Unit {0})
fail_if true e = err e
fail_if false e = ok tt

abbrev pub is_ok {ℓ} : {A : Type ℓ} → Result A → Bool
is_ok (ok a) = true
is_ok (err e) = false
