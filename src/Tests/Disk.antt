-- ===== src/Tests/Disk.antt =====
-- Branches that hold their entries in a function, to run the operations on names. With `stuck` no
-- entry but a whiteout can be removed.
use aufs.Common.{
  ℕ, ◌+◌, ◌≡◌, refl, ◌==◌, if◌then◌else◌, Bool, true, false, not, ◌&&◌, Option, some, none, [], ◌∷◌,
  ok, err, eperm, arith, Bool-cases, inl, inr,
}
use aufs.Lower.{HDentry, s_ifdir, s_ifreg}
use aufs.Branch.{Branch, Brtable}
use aufs.Branch.Permission.{Perm}
use aufs.Whout.{Name, eq_name, has_wh_pfx}
use aufs.Vfs.{System, IsVfs, Removes, view, put, shown}

abbrev pub Disk : Type 0
Disk = ℕ → Name → Option (ℕ × ℕ)

abbrev pub entry : Option (ℕ × ℕ) → HDentry
entry none = record { id = 0; inode = none; ancestors = [] }
entry (some (id, fmt)) = record {
  id = id;
  inode = some (record { ino = id; fmt = fmt; nlink = 1 });
  ancestors = [];
}

abbrev pub store : Disk → ℕ → Name → Option (ℕ × ℕ) → Disk
store d p n x q m = if q == p && eq_name m n then x else d q m

-- A directory is found empty under its new address.
abbrev pub store_dir : Disk → ℕ → Name → Disk
store_dir d p n q m = if q == p + 1 then none else store d p n (some (p + 1, s_ifdir)) q m

abbrev pub branch : ℕ → Perm → Branch
branch id perm = record {
  id = id;
  perm = perm;
  mnt = record { sb_id = id; rdonly = false; maxbytes = 4096; nfs = false };
  count = 0;
  wh = true;
  plink = false;
  xino = none;
}

abbrev pub two_branches : Brtable
two_branches = record {
  bend = some 1;
  last_br_id = 2;
  branch = some (branch 1 Perm.rw) ∷ some (branch 2 Perm.ro) ∷ [];
}

abbrev pub disk : Bool → System
disk stuck = record {
  World = Disk;
  lookup = λ d q m. ok (entry (d q m));
  unlink =
      λ d p n. if stuck && not (has_wh_pfx n) then (err eperm, d) else (ok tt, store d p n none);
  create = λ d p n fmt. (ok tt, store d p n (some (9, fmt)));
  link = λ d b p n. (ok tt, store d p n (some (9, s_ifreg)));
  mkdir = λ d p n. (ok tt, store_dir d p n);
  rmdir = λ d p n. (ok tt, store d p n none);
  rename = λ d p n m. (ok tt, store (store d p m (d p n)) p n none);
  table = two_branches;
  name = b'f' ∷ [];
  immutable = λ b. false;
  alone = true;
}

entry-shown : (x : Option (ℕ × ℕ)) → shown (ok (entry x)) ≡ ok x
entry-shown none = refl
entry-shown (some (id, fmt)) = refl

module _ (stuck : Bool) where
  store-put :
      (d : Disk) (p : ℕ) (n : Name) (x : Option (ℕ × ℕ)) (q : ℕ) (m : Name)
      → view (disk stuck) (store d p n x) q m ≡ put (view (disk stuck) d) p n x q m
  store-put d p n x q m = ground (arith, entry-shown x)

  unlinks :
      (p : ℕ) (n : Name) (d : Disk) → Removes (disk stuck) (λ w. (disk stuck).unlink w p n) p n d
  unlinks p n d = elim (Bool-cases (stuck && not (has_wh_pfx n))) [
    | inl bad ↦ rw bad ((λ h. absurd (cc)), (λ e h q m. refl))
    | inr good ↦ rw good ((λ h q m. store-put d p n none q m), (λ e h. absurd (cc)))
  ]

  dir-put :
      (d : Disk) (p : ℕ) (n : Name) (q : ℕ) (m : Name)
      → view (disk stuck) (store_dir d p n) q m ≡ (
          if q == p + 1 then ok none else put (view (disk stuck) d) p n (some (p + 1, s_ifdir)) q m)
  dir-put d p n q m = ground arith

  pub disk-IsVfs : IsVfs (disk stuck)
  disk-IsVfs = record {
    unlinks = unlinks;
    rmdirs = λ p n d. ((λ h q m. store-put d p n none q m), (λ e h. absurd (cc)));
    creates =
        λ p n fmt d. ((λ h. (9, λ q m. store-put d p n (some (9, fmt)) q m)), (λ e h. absurd (cc)));
    links = λ b p n d.
        ((λ h. (9, λ q m. store-put d p n (some (9, s_ifreg)) q m)), (λ e h. absurd (cc)));
    mkdirs = λ p n d.
        ((λ h. (p + 1, (λ e. omega arith), λ q m. dir-put d p n q m)), (λ e h. absurd (cc)));
  }
