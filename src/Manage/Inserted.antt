-- ===== src/Manage/Inserted.antt =====
-- `br_add` puts the new branch at its index.
use aufs.Common.{
  ℕ, zero, suc, ◌+◌, ◌≤◌, ◌<◌, ◌≡◌, refl, ap, ◌∙◌, sym, subst, true, false, Option, some, none,
  List, [], ◌∷◌, length, window, set, get_or, insert_at, window-grow, length-grow, length-grow-le,
  length-insert_at, Result, ok, err, Bindex, count_to, arith, ◌==◌, if◌then◌else◌,
}
use aufs.Iinfo.{zero_hinode}
use aufs.Branch.{Branch, stobr}
use aufs.Whout.{WhBase}
use aufs.Xino.{XinoFile}
use aufs.Manage.{Super}
use aufs.Manage.Add.{
  OptAdd, XinoEnv, test_new, xino_init, grow_arrays, open_slot, fill_slot, start_xino, with_xino,
  keep_xino, use_xino, new_branch,
}
use aufs.Manage.Entries.{
  Entry, slot_of, start_of, Represents, Represents-count, count_to-last_of, window-insert,
  set-shift_up, last_of-insert, update_br-at, length-shift_up, start_of-insert,
}

-- Growing the arrays changes nothing that is read.
pub Represents-grow :
    (s : Super) (n : ℕ) (es : List Entry) → Represents s es → Represents (grow_arrays s n) es
Represents-grow s n es r = record {
  bend = r.bend;
  root_bend = r.root_bend;
  inode_bend = r.inode_bend;
  root_start = r.root_start;
  inode_start = r.inode_start;
  branches = window-grow (length es) n none s.table.branch ∙ r.branches;
  dentries = window-grow (length es) n none s.root.hdentry ∙ r.dentries;
  inodes = window-grow (length es) n zero_hinode s.root_inode.hinode ∙ r.inodes;
  slots = omega (arith, r.slots, length-grow-le n zero_hinode s.root_inode.hinode);
}

-- What the tests say of the index.
pub test_new-index :
    (s : Super) (add : OptAdd)
    → test_new s add ≡ ok tt
    → (i : ℕ) × (add.bindex ≡ some i) × (i ≤ count_to s.table.bend) × (count_to s.table.bend ≤ 126)
unfolding test_new
test_new-index s add h = go add.bindex refl
  where
    go :
        (b : Bindex)
        → add.bindex ≡ b
        → (i : ℕ) × (add.bindex ≡ some i)
          × (i ≤ count_to s.table.bend)
          × (count_to s.table.bend ≤ 126)
    go none e = absurd (ground arith)
    go (some i) e = (i, e, ground arith, ground arith)

-- The arrays have room for one branch more.
pub record HasRoom (s : Super) (n : ℕ) : Type 0 where
  pub branches : n < length s.table.branch
  pub dentries : n < length s.root.hdentry
  pub inodes : n < length s.root_inode.hinode

pub grow-HasRoom : (s : Super) (n : ℕ) → HasRoom (grow_arrays s (n + 1)) n
grow-HasRoom s n = record {
  branches = omega (arith, length-grow (n + 1) none s.table.branch);
  dentries = omega (arith, length-grow (n + 1) none s.root.hdentry);
  inodes = omega (arith, length-grow (n + 1) zero_hinode s.root_inode.hinode);
}

-- What the inode number table does to the new branch `br` at `i`: it stores a file, at most.
abbrev pub XinoOnly : Super → Super → ℕ → Branch → Type 0
XinoOnly s s' i br =
    (x : Option ℕ) × (s'.table
      ≡ record s.table { branch = set s.table.branch i (some (record br { xino = x })) })
    × (s'.root ≡ s.root)
    × (s'.root_inode ≡ s.root_inode)

set-get {ℓ} :
    {A : Type ℓ} (xs : List (Option A)) (i : ℕ) (a : A)
    → get_or xs i none ≡ some a
    → xs ≡ set xs i (some a)
set-get [] i a e = refl
set-get (x ∷ xs) zero a e = ap (λ y. y ∷ xs) e
set-get (x ∷ xs) (suc i) a e = ap (◌∷◌ x) (set-get xs i a e)

module _ (env : XinoEnv) (s : Super) (i : ℕ) (add : OptAdd) (br : Branch)
    (at : stobr s.table i ≡ some br) where
  XinoOnly-same : XinoOnly s s i br
  XinoOnly-same = (
    br.xino,
    ap (λ xs. record s.table { branch = xs }) (set-get s.table.branch i br at),
    refl,
    refl,
  )

  keep_xino-XinoOnly :
      (f : ℕ) (r : Result XinoFile) → XinoOnly s (with_xino s (keep_xino s.table i f r)) i br
  keep_xino-XinoOnly f (err e) = (none, update_br-at s.table i br _ at, refl, refl)
  keep_xino-XinoOnly f (ok file) = (some f, update_br-at s.table i br _ at, refl, refl)

  use_xino-XinoOnly :
      (h : ℕ) (r : Result ℕ) → XinoOnly s (with_xino s (use_xino env s.table i h r)) i br
  use_xino-XinoOnly h (err e) = XinoOnly-same
  use_xino-XinoOnly h (ok f) = keep_xino-XinoOnly f _

  pub start_xino-XinoOnly : XinoOnly s (start_xino env s i add) i br
  unfolding xino_init
  start_xino-XinoOnly =
      elim s.xino
        as (λ b.
          XinoOnly s (if b then with_xino s (xino_init env s.table i add.inode.ino true) else s) i
            br) [ true ↦ use_xino-XinoOnly add.inode.ino _ | false ↦ XinoOnly-same ]

-- The new slot filled, and the entry that it is then, with the file `x`, if any. `id` is the new
-- branch's.
module _ (s : Super) (i : ℕ) (add : OptAdd) (w : WhBase) (id : ℕ) where
  abbrev pub filled : Super
  filled =
      fill_slot
        (open_slot (record s { table = record s.table { last_br_id = id } }) i
          (new_branch add id w))
        i add id

  abbrev pub entry : Option ℕ → Entry
  entry x = record {
    branch = record (new_branch add id w) { xino = x };
    dentry = add.dentry;
    inode = add.inode;
  }

module _ (s : Super) (i : ℕ) (add : OptAdd) (w : WhBase) (id : ℕ) (es : List Entry)
    (r : Represents s es) (room : HasRoom s (length es)) (h : i ≤ length es) where
  same_count : count_to s.table.bend ≡ length es
  same_count = Represents-count r

  same_root : count_to s.root.bend ≡ length es
  same_root = ap count_to r.root_bend ∙ count_to-last_of (length es)

  same_inode : count_to s.root_inode.bend ≡ length es
  same_inode = ap count_to r.inode_bend ∙ count_to-last_of (length es)

  started :
      (b : Bindex)
      → b ≡ start_of (length es)
      → (if count_to s.table.bend == 0 then some 0 else b) ≡ some 0
  started b e = go (length es) same_count e
    where
      go :
          (n : ℕ)
          → count_to s.table.bend ≡ n
          → b ≡ start_of n
          → (if count_to s.table.bend == 0 then some 0 else b) ≡ some 0
      go zero c q = ground arith
      go (suc n) c q = ground arith

  pub Represents-filled :
      (s' : Super) (x : Option ℕ)
      → s'.table ≡ record (filled s i add w id).table {
        branch =
            set
              (filled s i add w id).table.branch
              i
              (some (record (new_branch add id w) { xino = x }));
      }
      → s'.root ≡ (filled s i add w id).root
      → s'.root_inode ≡ (filled s i add w id).root_inode
      → Represents s' (insert_at i (entry s i add w id x) es)
  Represents-filled s' x et er ei = record {
    bend = ap (λ t. t.bend) et ∙ ap some same_count ∙ last_of-insert i (entry s i add w id x) es;
    root_bend =
        ap (λ d. d.bend) er ∙ ap some same_root ∙ last_of-insert i (entry s i add w id x) es;
    inode_bend =
        ap (λ d. d.bend) ei ∙ ap some same_inode ∙ last_of-insert i (entry s i add w id x) es;
    root_start =
        ap (λ d. d.bstart) er
        ∙ started s.root.bstart r.root_start
        ∙ start_of-insert i (entry s i add w id x) es;
    inode_start =
        ap (λ d. d.bstart) ei
        ∙ started s.root_inode.bstart r.inode_start
        ∙ start_of-insert i (entry s i add w id x) es;
    branches =
        ap (λ t. window (length (insert_at i (entry s i add w id x) es)) none t.branch) et
        ∙ ap (window (length (insert_at i (entry s i add w id x) es)) none) (
            set-shift_up i (count_to s.table.bend) (some (entry s i add w id x).branch) _
              s.table.branch (omega (arith, room.branches)))
        ∙ window-insert (λ e. some e.branch) i _ (entry s i add w id x) es none s.table.branch
            same_count h (omega (arith, room.branches)) r.branches;
    dentries =
        ap (λ d. window (length (insert_at i (entry s i add w id x) es)) none d.hdentry) er
        ∙ ap (window (length (insert_at i (entry s i add w id x) es)) none) (
            set-shift_up i (count_to s.table.bend) (some add.dentry) _ s.root.hdentry
              (omega (arith, room.dentries)))
        ∙ window-insert (λ e. some e.dentry) i _ (entry s i add w id x) es none s.root.hdentry
            same_count h (omega (arith, room.dentries)) r.dentries;
    inodes =
        ap (λ d. window (length (insert_at i (entry s i add w id x) es)) zero_hinode d.hinode) ei
        ∙ ap (window (length (insert_at i (entry s i add w id x) es)) zero_hinode) (
            set-shift_up i (count_to s.table.bend) (slot_of (entry s i add w id x)) _
              s.root_inode.hinode (omega (arith, room.inodes)))
        ∙ window-insert slot_of i _ (entry s i add w id x) es zero_hinode s.root_inode.hinode
            same_count h (omega (arith, room.inodes)) r.inodes;
    slots =
        subst (λ k. length (insert_at i (entry s i add w id x) es) ≤ k)
          (sym (
            ap (λ d. length d.hinode) ei
            ∙ ap length (
                set-shift_up i (count_to s.table.bend) (slot_of (entry s i add w id x)) _
                  s.root_inode.hinode (omega (arith, room.inodes)))))
          (omega (
            arith,
            room.inodes,
            length-insert_at i (entry s i add w id x) es,
            length-shift_up i (count_to s.table.bend) (slot_of (entry s i add w id x))
                s.root_inode.hinode,
          ));
  }
