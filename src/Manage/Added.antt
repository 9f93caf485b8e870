-- ===== src/Manage/Added.antt =====
-- `br_add` against the list of branches.
use aufs.Common.{
  ℕ, ◌≤◌, ◌≡◌, ◌≢◌, refl, ap, ◌∙◌, sym, subst, Bool, true, false, some, none, List, length,
  insert_at, window-grow, Result, ok, err, Errno, Bindex, count_to, arith, ◌⊎◌, inl, inr, find_slot,
}
use aufs.Branch.{stobr, new_br_id, find_brindex, has_id}
use aufs.Branch.NewId.{new_br_id_lem}
use aufs.Whout.{WhBase}
use aufs.Manage.{Super}
use aufs.Manage.Add.{
  OptAdd, XinoEnv, fill_slot, open_slot, test_new, test_add, start_xino, new_branch, insert_branch,
  add_base, finish_add, place, begin_add, grown, br_add,
}
use aufs.Manage.Entries.{Entry, Represents, Represents-count, get_or-shift_up}
use aufs.Manage.Inserted.{
  Represents-grow, HasRoom, grow-HasRoom, test_new-index, start_xino-XinoOnly, filled, entry,
  Represents-filled,
}

-- The branch was added: it stands at its index among the others, with an id that is new.
pub record IsAdded (s : Super) (add : OptAdd) (es : List Entry) (out : Result (Unit {0}) × Super)
    : Type 0 where
  pub returned : out.0 ≡ ok tt
  pub index : ℕ
  pub at : add.bindex ≡ some index
  pub below : index ≤ length es
  pub added : Entry
  pub represented : Represents out.1 (insert_at index added es)
  pub dentry : added.dentry ≡ add.dentry
  pub inode : added.inode ≡ add.inode
  pub perm : added.branch.perm ≡ add.perm
  pub nonzero : added.branch.id ≢ 0
  pub new : find_brindex s.table added.branch.id ≡ none

pub test_add-new :
    (s : Super) (add : OptAdd) (remount : Bool)
    → test_add s add remount ≡ ok true
    → test_new s add ≡ ok tt
unfolding test_add
test_add-new s add remount h = ground arith

find_brindex-grown :
    (s : Super) (id : ℕ) → find_brindex (grown s).table id ≡ find_brindex s.table id
unfolding find_brindex
find_brindex-grown s id =
    ap (λ xs. find_slot (has_id id) xs 0)
      (window-grow (count_to s.table.bend) _ none s.table.branch)

module _ (env : XinoEnv) (s : Super) (add : OptAdd) (es : List Entry) (r : Represents s es) (i : ℕ)
    (at : add.bindex ≡ some i) (h : i ≤ length es) (few : count_to s.table.bend ≤ 126) where
  room : HasRoom (grown s) (length es)
  room = subst (HasRoom (grown s)) (Represents-count r) (grow-HasRoom s _)

  Represents-grown : Represents (grown s) es
  Represents-grown = Represents-grow s _ es r

  abbrev Goal : WhBase → Super → Type 0
  Goal w s' = IsAdded s add es (ok tt, s')

  insert-IsAdded :
      (w : WhBase) (id : ℕ)
      → id ≢ 0
      → find_brindex s.table id ≡ none
      → Goal w (start_xino env (filled (grown s) i add w id) i add)
  insert-IsAdded w id nonzero new =
      let f = filled (grown s) i add w id in
      let there : stobr f.table i ≡ some (new_branch add id w) =
        get_or-shift_up i _ _ none (grown s).table.branch (omega (arith, room.branches)) in
      let (x, et, er, ei) = start_xino-XinoOnly env f i add (new_branch add id w) there in
      record {
        returned = refl;
        index = i;
        at = at;
        below = h;
        added = entry (grown s) i add w id x;
        represented =
            Represents-filled (grown s) i add w id es Represents-grown room h _ x et er ei;
        dentry = refl;
        inode = refl;
        perm = refl;
        nonzero = nonzero;
        new = new;
      }

  insert_branch-IsAdded : (w : WhBase) → Goal w (insert_branch env (grown s) i add w)
  insert_branch-IsAdded w =
      let (e, nonzero, small, new) = new_br_id_lem (grown s).table (omega arith) in
      subst
        (λ t. Goal w (
          start_xino env (filled' (record (grown s) { table = t }) w (new_br_id (grown s).table).0)
            i add))
        (sym e) (insert-IsAdded w _ nonzero (sym (find_brindex-grown s _) ∙ new))
    where
      filled' : Super → WhBase → ℕ → Super
      filled' s1 w id = fill_slot (open_slot s1 i (new_branch add id w)) i add id

  finish_add-IsAdded :
      (p : Result (Unit {0}) × WhBase)
      → p.0 ≡ ok tt
      → IsAdded s add es (finish_add env (grown s) add p)
  finish_add-IsAdded (err e, w) q = absurd (ground arith)
  finish_add-IsAdded (ok u, w) q =
      subst (λ b. IsAdded s add es (place env (grown s) add w b)) (sym at) (insert_branch-IsAdded w)

-- `br_add`, where the tests and the whiteout base meet no error, puts the new branch into the three
-- arrays at the index that is asked for, with the others in their order before and after it. It
-- gets an id that is not 0 and that no branch has.
pub br_add-IsAdded :
    (env : XinoEnv) (s : Super) (add : OptAdd) (remount : Bool) (es : List Entry)
    → Represents s es
    → test_add s add remount ≡ ok true
    → (add_base s add).0 ≡ ok tt
    → IsAdded s add es (br_add env s add remount)
unfolding br_add
br_add-IsAdded env s add remount es r h k =
    let (i, at, below, few) = test_new-index s add (test_add-new s add remount h) in
    rw h (
      finish_add-IsAdded env s add es r i at (subst (λ n. i ≤ n) (Represents-count r) below) few
        (add_base (grown s) add) k)

module _ (env : XinoEnv) (s : Super) (add : OptAdd) (es : List Entry) (r : Represents s es) where
  place-Represents :
      (w : WhBase) (b : Bindex)
      → (place env (grown s) add w b).0 ≢ ok tt
      → Represents (place env (grown s) add w b).1 es
  place-Represents w none q = Represents-grow s _ es r
  place-Represents w (some i) q = absurd (q refl)

  finish_add-Represents :
      (p : Result (Unit {0}) × WhBase)
      → (finish_add env (grown s) add p).0 ≢ ok tt
      → Represents (finish_add env (grown s) add p).1 es
  finish_add-Represents (err e, w) q = Represents-grow s _ es r
  finish_add-Represents (ok u, w) q = place-Represents w add.bindex q

  begin_add-Represents :
      (t : Result Bool)
      → ((begin_add env s add t).0 ≢ ok tt) ⊎ (t ≡ ok false)
      → Represents (begin_add env s add t).1 es
  begin_add-Represents (err e) q = r
  begin_add-Represents (ok false) q = r
  begin_add-Represents (ok true) (inl bad) = finish_add-Represents (add_base (grown s) add) bad
  begin_add-Represents (ok true) (inr same) = absurd (ground arith)

-- Where `br_add` returns an error, or finds the directory among the branches, they stay.
pub br_add-Represents :
    (env : XinoEnv) (s : Super) (add : OptAdd) (remount : Bool) (es : List Entry)
    → Represents s es
    → ((br_add env s add remount).0 ≢ ok tt) ⊎ (test_add s add remount ≡ ok false)
    → Represents (br_add env s add remount).1 es
unfolding br_add
br_add-Represents env s add remount es r h = begin_add-Represents env s add es r _ h

-- The errors of `br_add`: those of the tests and those of the whiteout base.
module _ (env : XinoEnv) (s : Super) (add : OptAdd) (remount : Bool) (e : Errno) where
  pub br_add-refused : test_add s add remount ≡ err e → (br_add env s add remount).0 ≡ err e
  unfolding br_add
  br_add-refused q = ap (λ t. (begin_add env s add t).0) q

  finish_add-err :
      (p : Result (Unit {0}) × WhBase) → p.0 ≡ err e → (finish_add env (grown s) add p).0 ≡ err e
  finish_add-err (err x, w) q = q
  finish_add-err (ok u, w) q = absurd (ground arith)

  pub br_add-no_base :
      test_add s add remount ≡ ok true
      → (add_base s add).0 ≡ err e
      → (br_add env s add remount).0 ≡ err e
  unfolding br_add
  br_add-no_base q k =
      ap (λ t. (begin_add env s add t).0) q ∙ finish_add-err (add_base (grown s) add) k
