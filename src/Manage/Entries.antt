-- ===== src/Manage/Entries.antt =====
-- The branches as one list: what the three arrays, which are kept apart, stand for.
use aufs.Common.{
  Option, ℕ, zero, suc, ◌≤◌, ◌<◌, ◌≡◌, refl, ap, ap₂, ◌∙◌, sym, some, none, List, [], ◌∷◌, map,
  length, window, set, get_or, insert_at, erase_at, shift_up, shift_down, window-shift_up, Bindex,
  length-insert_at, count_to, last_of, arith,
}
use aufs.Lower.{HInode, HDentry}
use aufs.Iinfo.{Hinode, zero_hinode}
use aufs.Branch.{Branch, Brtable, stobr, update_br}
use aufs.Manage.{Super}

-- A branch with its root directory.
pub record Entry : Type 0 where
  pub branch : Branch
  pub dentry : HDentry
  pub inode : HInode

abbrev pub slot_of : Entry → Hinode
slot_of e = record { inode = some e.inode; hid = some e.branch.id }

abbrev pub start_of : ℕ → Bindex
start_of zero = none
start_of (suc n) = some 0

-- The three arrays hold the entries, in their order, and the ranges run over all of them.
pub record Represents (s : Super) (es : List Entry) : Type 0 where
  pub bend : s.table.bend ≡ last_of (length es)
  pub root_bend : s.root.bend ≡ last_of (length es)
  pub inode_bend : s.root_inode.bend ≡ last_of (length es)
  pub root_start : s.root.bstart ≡ start_of (length es)
  pub inode_start : s.root_inode.bstart ≡ start_of (length es)
  pub branches : window (length es) none s.table.branch ≡ map (λ e. some e.branch) es
  pub dentries : window (length es) none s.root.hdentry ≡ map (λ e. some e.dentry) es
  pub inodes : window (length es) zero_hinode s.root_inode.hinode ≡ map slot_of es
  pub slots : length es ≤ length s.root_inode.hinode

pub count_to-last_of : (n : ℕ) → count_to (last_of n) ≡ n
count_to-last_of zero = refl
count_to-last_of (suc n) = refl

pub Represents-count :
    {s : Super} {es : List Entry} → Represents s es → count_to s.table.bend ≡ length es
Represents-count {es = es} r = ap count_to r.bend ∙ count_to-last_of (length es)

module _ {ℓ κ} {A : Type ℓ} {B : Type κ} (f : A → B) where
  pub map-insert_at :
      (i : ℕ) (a : A) (xs : List A) → map f (insert_at i a xs) ≡ insert_at i (f a) (map f xs)
  map-insert_at zero a xs = refl
  map-insert_at (suc i) a [] = refl
  map-insert_at (suc i) a (x ∷ xs) = ap (◌∷◌ (f x)) (map-insert_at i a xs)

  pub map-erase_at : (i : ℕ) (xs : List A) → map f (erase_at i xs) ≡ erase_at i (map f xs)
  map-erase_at i [] = refl
  map-erase_at zero (x ∷ xs) = refl
  map-erase_at (suc i) (x ∷ xs) = ap (◌∷◌ (f x)) (map-erase_at i xs)

  -- An array that represents a list, with a slot opened, represents the longer list.
  pub window-insert :
      (i m : ℕ) (a : A) (ys : List A) (d : B) (xs : List B)
      → m ≡ length ys
      → i ≤ length ys
      → i ≤ length xs
      → window (length ys) d xs ≡ map f ys
      → window (length (insert_at i a ys)) d (shift_up i m (f a) xs) ≡ map f (insert_at i a ys)
  window-insert i m a ys d xs c h k e =
      ap₂ (λ n l. window n d (shift_up i l (f a) xs)) (length-insert_at i a ys) c
      ∙ window-shift_up i (length ys) (f a) d xs h k
      ∙ ap (insert_at i (f a)) e
      ∙ sym (map-insert_at i a ys)

module _ {ℓ} {A : Type ℓ} where
  pub set-insert_at :
      (i : ℕ) (v w : A) (xs : List A)
      → i ≤ length xs
      → set (insert_at i w xs) i v ≡ insert_at i v xs
  set-insert_at zero v w xs h = refl
  set-insert_at (suc i) v w [] h = absurd (omega arith)
  set-insert_at (suc i) v w (x ∷ xs) h = ap (◌∷◌ x) (set-insert_at i v w xs (omega arith))

  pub get_or-insert_at :
      (i : ℕ) (v d : A) (xs : List A) → i ≤ length xs → get_or (insert_at i v xs) i d ≡ v
  get_or-insert_at zero v d xs h = refl
  get_or-insert_at (suc i) v d [] h = absurd (omega arith)
  get_or-insert_at (suc i) v d (x ∷ xs) h = get_or-insert_at i v d xs (omega arith)

  pub length-erase_at-le : (m : ℕ) (xs : List A) → length xs ≤ suc (length (erase_at m xs))
  length-erase_at-le m [] = omega arith
  length-erase_at-le zero (x ∷ xs) = omega arith
  length-erase_at-le (suc m) (x ∷ xs) = omega (arith, length-erase_at-le m xs)

  -- A store into the slot that was opened.
  pub set-shift_up :
      (i m : ℕ) (v w : A) (xs : List A)
      → i < length xs
      → set (shift_up i m w xs) i v ≡ shift_up i m v xs
  set-shift_up i m v w xs h =
      set-insert_at i v w (erase_at m xs) (omega (arith, length-erase_at-le m xs))

  pub get_or-shift_up :
      (i m : ℕ) (v d : A) (xs : List A) → i < length xs → get_or (shift_up i m v xs) i d ≡ v
  get_or-shift_up i m v d xs h =
      get_or-insert_at i v d (erase_at m xs) (omega (arith, length-erase_at-le m xs))

pub last_of-insert :
    {A : Type 0} (i : ℕ) (a : A) (xs : List A)
    → some (length xs) ≡ last_of (length (insert_at i a xs))
last_of-insert i a xs = sym (ap last_of (length-insert_at i a xs))

pub start_of-insert :
    {A : Type 0} (i : ℕ) (a : A) (xs : List A) → some 0 ≡ start_of (length (insert_at i a xs))
start_of-insert i a xs = sym (ap start_of (length-insert_at i a xs))

pub length-shift_up {ℓ} :
    {A : Type ℓ} (i m : ℕ) (v : A) (xs : List A) → length xs ≤ length (shift_up i m v xs)
length-shift_up i m v xs =
    omega (arith, length-insert_at i v (erase_at m xs), length-erase_at-le m xs)

module _ {ℓ} {A : Type ℓ} where
  window-insert_at :
      (m : ℕ) (v d : A) (xs : List A)
      → m ≤ length xs
      → window m d (insert_at m v xs) ≡ window m d xs
  window-insert_at zero v d xs h = refl
  window-insert_at (suc m) v d [] h = absurd (omega arith)
  window-insert_at (suc m) v d (x ∷ xs) h = ap (◌∷◌ x) (window-insert_at m v d xs (omega arith))

  -- Whatever is stored in the slot that is given up is not read.
  pub window-shift_down_any :
      (i m : ℕ) (v d : A) (xs : List A)
      → m < length xs
      → window m d (shift_down i m v xs) ≡ window m d (shift_down i m d xs)
  window-shift_down_any i m v d xs h =
      let room : m ≤ length (erase_at i xs) = omega (arith, length-erase_at-le i xs) in
      window-insert_at m v d (erase_at i xs) room
      ∙ sym (window-insert_at m d d (erase_at i xs) room)

pub get_or-set_there {ℓ} :
    {A : Type ℓ} (xs : List (Option A)) (i : ℕ) (a b : A)
    → get_or xs i none ≡ some a
    → get_or (set xs i (some b)) i none ≡ some b
get_or-set_there [] i a b e = absurd (ground arith)
get_or-set_there (x ∷ xs) zero a b e = refl
get_or-set_there (x ∷ xs) (suc i) a b e = get_or-set_there xs i a b e

-- A store into a branch that is there.
pub update_br-at :
    (t : Brtable) (i : ℕ) (br : Branch) (f : Branch → Branch)
    → stobr t i ≡ some br
    → update_br t i f ≡ record t { branch = set t.branch i (some (f br)) }
update_br-at t i br f at = rw (update_br, at) refl

pub stobr-update_br :
    (t : Brtable) (i : ℕ) (br : Branch) (f : Branch → Branch)
    → stobr t i ≡ some br
    → stobr (update_br t i f) i ≡ some (f br)
stobr-update_br t i br f at =
    ap (λ u. stobr u i) (update_br-at t i br f at) ∙ get_or-set_there t.branch i br (f br) at
