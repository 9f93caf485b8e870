-- ===== src/Xino.antt =====
-- fs/aufs/xino.c: the external inode number table. Each branch has a file, in which the entry for
-- an inode of the branch holds its number in the union, 0 for none; branches on one filesystem
-- share the file. Retries after EAGAIN and EINTR, and the hand-over to a kernel thread, are left
-- out: `Io` stands for what a transfer at a position finally returns.
pub mod Numbers
pub mod Files
use aufs.Common.{
  ℕ, zero, suc, ◌+◌, ◌-◌, ◌*◌, ◌%◌, ◌^◌, max, ◌==◌, ltb, leb, if◌then◌else◌, Bool, true, false, not,
  ◌&&◌, ◌||◌, Option, some, none, List, [], ◌∷◌, Result, ok, err, Errno, eio, ◌>>=◌, Bindex,
  count_to, first_such,
}
use aufs.Branch.{Branch, Brtable, Mount, stobr}

-- AUFS_ROOT_INO, AUFS_FIRST_INO (super.h); an `ino_t` of 64 bits.
abbrev pub root_ino : ℕ
root_ino = 2

abbrev pub first_ino : ℕ
first_ino = 11

abbrev pub ino_mod : ℕ
ino_mod = 2 ^ 64

-- `xino_new_ino` on the counter `si_xino`, read as an unsigned number: the new number, 0 for
-- none, and the counter afterwards. The increment wraps; a refused number is taken back.
unfoldable pub new_ino : ℕ → ℕ × ℕ
new_ino x =
    let ino = (x + 1) % ino_mod in
    if leb root_ino ino then (ino, ino) else (0, (ino + ino_mod - 1) % ino_mod)

-- `sizeof(struct xino)`.
abbrev pub entry_size : ℕ
entry_size = 8

-- A xino file: its size, and the number stored at each position of an entry.
pub record XinoFile : Type 0 where
  pub size : ℕ
  pub entry : ℕ → ℕ

-- The outcome of a transfer of one entry at a position: `ok true` if all of it was transferred,
-- `ok false` if less was.
pub record Io : Type 0 where
  pub reads : ℕ → Result Bool
  pub writes : ℕ → Result Bool

-- `pos = h_ino * sizeof(*xino)`.
abbrev pub xino_pos : ℕ → ℕ
xino_pos h_ino = h_ino * entry_size % ino_mod

abbrev pub store_entry : XinoFile → ℕ → ℕ → XinoFile
store_entry f pos ino = record {
  size = max f.size (pos + entry_size);
  entry = λ q. if pos == q then ino else f.entry q;
}

-- `xino_write`; `on` is the flag AuFlag_XINO. A short or failed write counts as nothing written.
unfoldable pub xino_write : Bool → Io → XinoFile → ℕ → ℕ → Result XinoFile
xino_write on io f h_ino ino = if not on then ok f else elim (io.writes (xino_pos h_ino)) [
  | ok true ↦ ok (store_entry f (xino_pos h_ino) ino)
  | ok false ↦ err eio
  | err _ ↦ err eio
]

-- `xino_read`: 0 where the flag is off or the file ends before the entry.
unfoldable pub xino_read : Bool → Io → XinoFile → ℕ → Result ℕ
xino_read on io f h_ino =
    if not on
    then ok 0
    else if ltb f.size (xino_pos h_ino + entry_size)
    then ok 0
    else elim (io.reads (xino_pos h_ino)) [
      | ok true ↦ ok (f.entry (xino_pos h_ino))
      | ok false ↦ err eio
      | err e ↦ err e
    ]

-- What `fillvdir` (vdir.c) does for an entry of a branch directory: read the number, take a new one
-- where there is none, and write it. The error it sets when there is no new number is overwritten
-- by the result of the write. The result has the file, and the counter afterwards beside it.
unfoldable pub assign_ino : Bool → Io → XinoFile → ℕ → ℕ → Result (ℕ × XinoFile) × ℕ
assign_ino on io f h_ino x = elim (xino_read on io f h_ino) [
  | err e ↦ (err e, x)
  | ok found ↦
      let (ino, x') = (if found == 0 then new_ino x else (found, x)) in
      ((do f' ← xino_write on io f h_ino ino; ok (ino, f')), x')
]

-- `is_sb_shared`: another branch up to the last one, on the same superblock.
abbrev pub same_sb : Option Branch → Option Branch → Bool
same_sb none b = false
same_sb (some a) none = false
same_sb (some a) (some b) = a.mnt.sb_id == b.mnt.sb_id

unfoldable pub is_sb_shared : Brtable → ℕ → Bindex
is_sb_shared t btgt =
    first_such (λ b. not (btgt == b) && same_sb (stobr t btgt) (stobr t b)) (count_to t.bend) 0
