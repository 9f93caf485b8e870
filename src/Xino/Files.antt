-- ===== src/Xino/Files.antt =====
-- The entries of a xino file.
use aufs.Common.{
  ℕ, ◌+◌, ◌^◌, ◌≤◌, ◌<◌, ◌≡◌, ◌≢◌, ◌⊎◌, inl, inr, refl, ◌==◌, ◌>>=◌, if◌then◌else◌, Bool, true,
  false, Result, ok, arith, Bool-cases, subst, subst₂, sym, ap, ◌∙◌,
}
use aufs.Xino.{
  XinoFile, Io, xino_pos, entry_size, store_entry, xino_write, xino_read, assign_ino, new_ino,
  first_ino, ino_mod,
}
use aufs.Xino.Numbers.{new_ino_lem}

-- Nothing is stored past the end of the file.
abbrev pub IsSparse : XinoFile → Type 0
IsSparse f = (p : ℕ) → f.size < p + entry_size → f.entry p ≡ 0

-- What an entry holds, as a read that meets no error returns it.
abbrev pub number : XinoFile → ℕ → ℕ
number f h_ino = f.entry (xino_pos h_ino)

-- With the table on and no transfer failing, a read returns the entry.
xino_read-number :
    (io : Io) (f : XinoFile) (h_ino : ℕ)
    → IsSparse f
    → io.reads (xino_pos h_ino) ≡ ok true
    → xino_read true io f h_ino ≡ ok (number f h_ino)
unfolding xino_read
xino_read-number io f h_ino sparse r = ground (arith, sparse (xino_pos h_ino))

pub xino_write-store :
    (io : Io) (f f' : XinoFile) (h_ino ino : ℕ)
    → xino_write true io f h_ino ino ≡ ok f'
    → store_entry f (xino_pos h_ino) ino ≡ f'
unfolding xino_write
xino_write-store io f f' h_ino ino w = ground arith

store_entry-IsSparse : (f : XinoFile) (pos ino : ℕ) → IsSparse f → IsSparse (store_entry f pos ino)
store_entry-IsSparse f pos ino sparse p h = ground (arith, sparse p)

-- Hidden numbers that do not wrap have positions of their own.
xino_pos-eq :
    (h_ino k_ino : ℕ)
    → h_ino < 2 ^ 61
    → k_ino < 2 ^ 61
    → (xino_pos h_ino == xino_pos k_ino) ≡ (h_ino == k_ino)
xino_pos-eq h_ino k_ino hb kb = ground arith

-- A number that was written for a hidden inode is read back for it, and the number read for any
-- other hidden inode is what it was. Positions do not wrap for hidden numbers below 2 ^ 61.
pub xino_read-write :
    (io : Io) (f f' : XinoFile) (h_ino k_ino ino : ℕ)
    → IsSparse f
    → h_ino < 2 ^ 61
    → k_ino < 2 ^ 61
    → ((p : ℕ) → io.reads p ≡ ok true)
    → xino_write true io f h_ino ino ≡ ok f'
    → IsSparse f'
      × (xino_read true io f' k_ino
          ≡ (if h_ino == k_ino then ok ino else xino_read true io f k_ino))
unfolding xino_write
xino_read-write io f f' h_ino k_ino ino sparse hb kb r w =
    subst
      (λ g.
        IsSparse g
        × (xino_read true io g k_ino
            ≡ (if h_ino == k_ino then ok ino else xino_read true io f k_ino)))
      (xino_write-store io f f' h_ino ino w)
      (stored, xino_read-number io _ k_ino stored (r (xino_pos k_ino)) ∙ same)
  where
    stored : IsSparse (store_entry f (xino_pos h_ino) ino)
    stored = store_entry-IsSparse f (xino_pos h_ino) ino sparse

    same :
        ok (number (store_entry f (xino_pos h_ino) ino) k_ino)
        ≡ (if h_ino == k_ino then ok ino else xino_read true io f k_ino)
    same =
        rw (xino_pos-eq h_ino k_ino hb kb)
          (ground (arith, xino_read-number io f k_ino sparse (r (xino_pos k_ino))))

-- No entry is above the counter.
abbrev pub IsBelow : XinoFile → ℕ → Type 0
IsBelow f x = (p : ℕ) → f.entry p ≤ x

abbrev finish : Io → XinoFile → ℕ → ℕ × ℕ → Result (ℕ × XinoFile) × ℕ
finish io f h_ino (i, y) = ((do f' ← xino_write true io f h_ino i; ok (i, f')), y)

assign_ino-finish :
    (io : Io) (f : XinoFile) (h_ino x : ℕ)
    → IsSparse f
    → io.reads (xino_pos h_ino) ≡ ok true
    → assign_ino true io f h_ino x
      ≡ finish io f h_ino (if number f h_ino == 0 then new_ino x else (number f h_ino, x))
unfolding assign_ino
assign_ino-finish io f h_ino x sparse r = rw (xino_read-number io f h_ino sparse r, assign_ino) refl

-- What a number taken for the entry means for the file.
finish_lem :
    (io : Io) (f f' : XinoFile) (h_ino i y ino x' : ℕ)
    → finish io f h_ino (i, y) ≡ (ok (ino, f'), x')
    → (i ≡ ino) × (y ≡ x') × (f' ≡ store_entry f (xino_pos h_ino) ino)
unfolding xino_write
finish_lem io f f' h_ino i y ino x' e = ground arith

store_entry-IsBelow :
    (f : XinoFile) (pos ino x y : ℕ)
    → IsBelow f x
    → x ≤ y
    → ino ≤ y
    → IsBelow (store_entry f pos ino) y
store_entry-IsBelow f pos ino x y below h k p = ground (arith, below p)

-- The number `ino` that an entry is given, with the counter `x'` afterwards: the one that it had, or
-- a new one above the counter, or 0 where the counter `x` is at its largest value.
abbrev pub IsAssigned : XinoFile → ℕ → ℕ → ℕ → ℕ → Type 0
IsAssigned f h_ino x ino x' =
    ((number f h_ino ≢ 0) × (ino ≡ number f h_ino) × (x' ≡ x))
    ⊎ ((number f h_ino ≡ 0) × (x < ino) × (x' ≡ ino))
    ⊎ ((number f h_ino ≡ 0) × (x + 1 ≡ ino_mod) × (ino ≡ 0) × (x' ≡ x))

settle :
    (io : Io) (f f' : XinoFile) (h_ino x i y ino x' : ℕ)
    → IsBelow f x
    → x ≤ y
    → i ≤ y
    → IsAssigned f h_ino x i y
    → finish io f h_ino (i, y) ≡ (ok (ino, f'), x')
    → (f' ≡ store_entry f (xino_pos h_ino) ino) × IsBelow f' x' × IsAssigned f h_ino x ino x'
settle io f f' h_ino x i y ino x' below h k c e =
    let (same, same', stored) = finish_lem io f f' h_ino i y ino x' e in
    (
      stored,
      rw stored (store_entry-IsBelow f _ ino x x' below (omega arith) (omega arith)),
      subst₂ (λ a b. IsAssigned f h_ino x a b) same same' c,
    )

-- When `assign_ino` succeeds, the file holds the number that it returns, and the entries stay below
-- the counter. The number is the one that the entry had, with the counter left alone, or, where it
-- had none, a new one above the counter and so above every entry. The one exception is a counter at
-- its largest value: the number is then 0, and no error is returned.
pub assign_ino-IsAssigned :
    (io : Io) (f f' : XinoFile) (h_ino x x' ino : ℕ)
    → IsSparse f
    → IsBelow f x
    → first_ino ≤ x
    → x < ino_mod
    → io.reads (xino_pos h_ino) ≡ ok true
    → assign_ino true io f h_ino x ≡ (ok (ino, f'), x')
    → (f' ≡ store_entry f (xino_pos h_ino) ino) × IsBelow f' x' × IsAssigned f h_ino x ino x'
assign_ino-IsAssigned io f f' h_ino x x' ino sparse below fx bx r e =
    elim (Bool-cases (number f h_ino == 0)) [
      | inr old ↦
          settle io f f' h_ino x (number f h_ino) x ino x' below (omega arith)
            (below (xino_pos h_ino)) (inl (ground arith, refl, refl)) (sym (chosen false old) ∙ e')
      | inl empty ↦ elim (new_ino_lem x fx bx) [
        | inl (room, got) ↦
            settle io f f' h_ino x (x + 1) (x + 1) ino x' below (omega arith) (omega arith)
              (inr (inl (ground arith, omega arith, refl)))
              (sym (chosen true empty ∙ ap (finish io f h_ino) got) ∙ e')
        | inr (full, got) ↦
            settle io f f' h_ino x 0 x ino x' below (omega arith) (omega arith)
              (inr (inr (ground arith, full, refl, refl)))
              (sym (chosen true empty ∙ ap (finish io f h_ino) got) ∙ e')
      ]
    ]
  where
    e' :
        finish io f h_ino (if number f h_ino == 0 then new_ino x else (number f h_ino, x))
        ≡ (ok (ino, f'), x')
    e' = sym (assign_ino-finish io f h_ino x sparse r) ∙ e

    chosen :
        (b : Bool)
        → (number f h_ino == 0) ≡ b
        → finish io f h_ino (if number f h_ino == 0 then new_ino x else (number f h_ino, x))
          ≡ finish io f h_ino (if b then new_ino x else (number f h_ino, x))
    chosen b q = ap (λ c. finish io f h_ino (if c then new_ino x else (number f h_ino, x))) q
