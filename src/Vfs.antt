-- ===== src/Vfs.antt =====
-- What the operations on names ask of the kernel, and the state that they work on: the branches,
-- the dentry with its parent, and the counters of their inodes. The wrappers of vfsub.h call the
-- kernel here or in another thread, and return its result.
pub mod Look
pub mod Layers
pub mod Names
pub mod Invert
use aufs.Common.{
  ℕ, ◌==◌, ◌≡◌, ◌≢◌, if◌then◌else◌, Bool, ◌&&◌, ◌||◌, Option, some, none, Result, ok, err, Errno,
  eio,
}
use aufs.Lower.{HDentry, s_ifreg, s_ifdir}
use aufs.Dinfo.{Dinfo, h_dptr_i}
use aufs.Branch.{Brtable, slot_rdonly, stobr}
use aufs.Whout.{Name, Lkup, eq_name}

-- The state of one operation on a name. `nlink` is the link count of the inode of the dentry,
-- `dir_nlink` and `dir_version` belong to the parent's. `hashed` says that the dentry is in the
-- cache. `reinits` counts the requests to make the whiteout base of a branch again, `later` those
-- to remove a directory by the work queue.
pub record Op (W : Type 0) : Type 0 where
  pub world : W
  pub dentry : Dinfo
  pub parent : Dinfo
  pub nlink : ℕ
  pub dir_nlink : ℕ
  pub dir_version : ℕ
  pub hashed : Bool
  pub reinits : ℕ
  pub later : ℕ

-- A call that may fail, and changes the state also where it does.
abbrev pub Run : Type 0 → Type 0 → Type 0
Run W A = Op W → Result A × Op W

module _ {W A : Type 0} where
  abbrev pub and_then : {B : Type 0} → Result A × Op W → (A → Run W B) → Result B × Op W
  and_then (err e, s) next = (err e, s)
  and_then (ok a, s) next = next a s

  -- What follows a call, by its result.
  abbrev pub settle : {B : Type 0} → Result A × Op W → (Result A → Run W B) → Result B × Op W
  settle (r, s) next = next r s

  abbrev pub pure : A → Run W A
  pure a s = (ok a, s)

  abbrev pub throw : Errno → Run W A
  throw e s = (err e, s)

  abbrev pub lift : Result A → Run W A
  lift r s = (r, s)

  abbrev pub gets : (Op W → A) → Run W A
  gets f s = (ok (f s), s)

  -- A call whose failure is kept for later.
  abbrev pub try : Run W A → Run W (Result A)
  try m s = settle (m s) (λ r s'. (ok r, s'))

abbrev pub modify : {W : Type 0} → (Op W → Op W) → Run W (Unit {0})
modify f s = (ok tt, f s)

module _ {W A B : Type 0} where
  infixl 5 ◌>>=◌ ◌>>◌
  abbrev pub ◌>>=◌ : Run W A → (A → Run W B) → Run W B
  ◌>>=◌ m next s = and_then (m s) next

  abbrev pub ◌>>◌ : Run W A → Run W B → Run W B
  ◌>>◌ m next s = and_then (m s) (λ _. next)

-- The kernel's calls on the branches. A directory of a branch is named by its address. `link`
-- makes a link to the whiteout base of a branch. Each returns its result and the branches
-- afterwards. What the calls of a dentry's inode answer is fixed for one operation: `immutable`
-- says it of the hidden inode on a branch, `alone` that nobody else holds the dentry.
pub record System : Type 1 where
  pub World : Type 0
  pub lookup : World → ℕ → Name → Result HDentry
  pub unlink : World → ℕ → Name → Result (Unit {0}) × World
  pub create : World → ℕ → Name → ℕ → Result (Unit {0}) × World
  pub link : World → ℕ → ℕ → Name → Result (Unit {0}) × World
  pub mkdir : World → ℕ → Name → Result (Unit {0}) × World
  pub rmdir : World → ℕ → Name → Result (Unit {0}) × World
  pub rename : World → ℕ → Name → Name → Result (Unit {0}) × World
  pub table : Brtable
  pub name : Name
  pub immutable : ℕ → Bool
  pub alone : Bool

-- What a lookup shows: the address and the type of an entry.
abbrev pub Shown : Type 0
Shown = Result (Option (ℕ × ℕ))

abbrev pub shown : Result HDentry → Shown
shown (err e) = err e
shown (ok hd) = elim hd.inode [ none ↦ ok none | some i ↦ ok (some (hd.id, i.fmt)) ]

abbrev pub View : Type 0
View = ℕ → Name → Shown

abbrev pub put : View → ℕ → Name → Option (ℕ × ℕ) → View
put v p n x q m = if q == p && eq_name m n then ok x else v q m

module _ (sys : System) where
  -- `test_ro` (misc.c), for the inode of the dentry.
  abbrev pub test_ro : ℕ → Bool
  test_ro b = slot_rdonly (stobr sys.table b) || sys.immutable b

  abbrev pub view : sys.World → View
  view w q m = shown (sys.lookup w q m)

  abbrev pub lkup_in : sys.World → Lkup
  lkup_in w hp n = sys.lookup w hp.id n

  -- A call of the kernel on the branches.
  abbrev pub call : (sys.World → Result (Unit {0}) × sys.World) → Run sys.World (Unit {0})
  call f s = ((f s.world).0, record s { world = (f s.world).1 })

  -- The parent directory on a branch. The source takes it for granted that it is there; where it
  -- is not, the model gives -EIO.
  abbrev pub hidden_parent : ℕ → Run sys.World HDentry
  hidden_parent b s = elim (h_dptr_i s.parent b) [ none ↦ (err eio, s) | some hp ↦ (ok hp, s) ]

  -- A successful call changes what it is for, and a failed one nothing.
  abbrev pub Removes : (sys.World → Result (Unit {0}) × sys.World) → ℕ → Name → sys.World → Type 0
  Removes f p n w =
      ((f w).0 ≡ ok tt → (q : ℕ) (m : Name) → view (f w).1 q m ≡ put (view w) p n none q m)
      × ((e : Errno) → (f w).0 ≡ err e → (q : ℕ) (m : Name) → view (f w).1 q m ≡ view w q m)

  -- A new entry has some address.
  abbrev pub Makes : (sys.World → Result (Unit {0}) × sys.World) → ℕ → Name → ℕ → sys.World → Type 0
  Makes f p n fmt w =
      ((f w).0 ≡ ok tt
        → (id : ℕ) × ((q : ℕ) (m : Name)
            → view (f w).1 q m ≡ put (view w) p n (some (id, fmt)) q m))
      × ((e : Errno) → (f w).0 ≡ err e → (q : ℕ) (m : Name) → view (f w).1 q m ≡ view w q m)

  -- A new directory is empty.
  abbrev pub MakesDir : (sys.World → Result (Unit {0}) × sys.World) → ℕ → Name → sys.World → Type 0
  MakesDir f p n w =
      ((f w).0 ≡ ok tt
        → (id : ℕ) × (id ≢ p)
          × ((q : ℕ) (m : Name)
              → view (f w).1 q m
                ≡ (if q == id then ok none else put (view w) p n (some (id, s_ifdir)) q m)))
      × ((e : Errno) → (f w).0 ≡ err e → (q : ℕ) (m : Name) → view (f w).1 q m ≡ view w q m)

-- What vfs_unlink, vfs_create, vfs_link, vfs_mkdir and vfs_rmdir are documented to do.
pub record IsVfs (sys : System) : Type 0 where
  pub unlinks : (p : ℕ) (n : Name) (w : sys.World) → Removes sys (λ w. sys.unlink w p n) p n w
  pub rmdirs : (p : ℕ) (n : Name) (w : sys.World) → Removes sys (λ w. sys.rmdir w p n) p n w
  pub creates :
      (p : ℕ) (n : Name) (fmt : ℕ) (w : sys.World) → Makes sys (λ w. sys.create w p n fmt) p n fmt w
  pub links : (b p : ℕ) (n : Name) (w : sys.World) → Makes sys (λ w. sys.link w b p n) p n s_ifreg w
  pub mkdirs : (p : ℕ) (n : Name) (w : sys.World) → MakesDir sys (λ w. sys.mkdir w p n) p n w
