-- ===== src/Whout/Change.antt =====
-- fs/aufs/whout.c: making and removing the whiteout of a name, the marker of an opaque directory,
-- and the removal of a directory that has been renamed away. A whiteout is returned as soon as it
-- is there, so a result carries no more than that.
pub mod Effect
use aufs.Common.{
  ℕ, zero, suc, ◌+◌, ◌-◌, ◌%◌, ◌==◌, ltb, leb, if◌then◌else◌, Bool, true, false, not, ◌&&◌, ◌||◌,
  Option, some, none, List, [], ◌∷◌, ◌++◌, length, Result, ok, err, Errno, eio, enoent, emlink,
}
use aufs.Lower.{HDentry, s_ifreg, is_positive}
use aufs.Dinfo.{Dinfo, h_dptr_i, set_dbwh, set_dbdiropq}
use aufs.Branch.{stobr}
use aufs.Whout.{Name, wh_pfx, wh_len, path_max, diropq_name, alloc_whname, lkup_whtmp}
use aufs.Vfs.{
  Op, Run, System, settle, pure, throw, lift, gets, modify, and_then, call, lkup_in, ◌>>=◌, ◌>>◌,
}

abbrev pub is_emlink : Errno → Bool
is_emlink emlink = true
is_emlink e = false

module _ (sys : System) where
  -- `lkup_one` under a directory.
  abbrev pub lookup_under : HDentry → Name → Run sys.World HDentry
  lookup_under hp n s = (sys.lookup s.world hp.id n, s)

  -- `lkup_wh`.
  unfoldable pub lkup_wh : HDentry → Name → Run sys.World HDentry
  lkup_wh hp name = do wh_name ← lift (alloc_whname name); lookup_under hp wh_name

  -- Whether the branch has a whiteout base to link to.
  abbrev pub has_base : ℕ → Bool
  has_base b = elim (stobr sys.table b) [ none ↦ false | some br ↦ br.wh ]

  -- `kick_reinit_br_wh`: the request is queued.
  abbrev pub kick_reinit : Run sys.World (Unit {0})
  kick_reinit = modify (λ s. record s { reinits = s.reinits + 1 })

  abbrev pub create_wh_file : HDentry → Name → Run sys.World (Unit {0})
  create_wh_file hp wh_name = call sys (λ w. sys.create w hp.id wh_name s_ifreg)

  -- After the link: where the base has no link left, it is to be made again, and a file is made.
  abbrev pub after_link : HDentry → Name → Result (Unit {0}) → Run sys.World (Unit {0})
  after_link hp wh_name (ok _) s = (ok tt, s)
  after_link hp wh_name (err e) s =
      if is_emlink e then (kick_reinit >> create_wh_file hp wh_name) s else (err e, s)

  -- `link_or_create_wh`: a link to the whiteout base of the branch, or a file of its own where the
  -- branch has no base or the base has no link left.
  unfoldable pub link_or_create_wh : ℕ → HDentry → Name → Run sys.World (Unit {0})
  link_or_create_wh b hp wh_name s =
      if has_base b
      then settle (call sys (λ w. sys.link w b hp.id wh_name) s) (after_link hp wh_name)
      else create_wh_file hp wh_name s

  -- A dentry of the whiteout's name that is positive is returned as it is.
  abbrev pub made_or_found : ℕ → HDentry → HDentry → Run sys.World (Unit {0})
  made_or_found b hp wh_dentry = if is_positive (some wh_dentry) then pure tt else (do
    wh_name ← lift (alloc_whname sys.name)
    link_or_create_wh b hp wh_name
    modify (λ s. record s { dentry = set_dbwh s.dentry (some b) }))

  -- `simple_create_wh`.
  unfoldable pub simple_create_wh : ℕ → HDentry → Run sys.World (Unit {0})
  simple_create_wh b hp = do wh_dentry ← lkup_wh hp sys.name; made_or_found b hp wh_dentry

  -- `au_unlink_wh_dentry` for the whiteout of the dentry.
  unfoldable pub unlink_wh_dentry : HDentry → Run sys.World (Unit {0})
  unlink_wh_dentry hp = do
    wh_name ← lift (alloc_whname sys.name)
    call sys (λ w. sys.unlink w hp.id wh_name)
    modify (λ s. record s { dentry = set_dbwh s.dentry none })

  -- `do_diropq`: make or remove the marker in the directory `hd` on the branch.
  unfoldable pub do_diropq : ℕ → HDentry → Bool → Run sys.World (Unit {0})
  unfolding link_or_create_wh
  do_diropq b hd do_create = do
    lookup_under hd diropq_name
    (if do_create
        then (do
          link_or_create_wh b hd diropq_name
          modify (λ s. record s { dentry = set_dbdiropq s.dentry (some b) }))
        else (do
          call sys (λ w. sys.unlink w hd.id diropq_name)
          modify (λ s. record s { dentry = set_dbdiropq s.dentry none })))

  -- `rename_whtmp`; `cnt` is the static counter of `lkup_whtmp`.
  unfoldable pub rename_whtmp : HDentry → ℕ → Run sys.World Name
  rename_whtmp hp cnt = do
    w ← gets (λ s. s.world)
    tmp ← lift ((lkup_whtmp (lkup_in sys w) hp sys.name cnt).0)
    call sys (λ w. sys.rename w hp.id sys.name tmp.0)
    pure tmp.0

  -- `unlink_wh_name`.
  unfoldable pub unlink_wh_name : HDentry → Name → Run sys.World (Unit {0})
  unlink_wh_name hd wh_name = do
    wh ← lookup_under hd wh_name
    (if is_positive (some wh) then call sys (λ w. sys.unlink w hd.id wh_name) else pure tt)

  -- `del_wh_children`: the names of the whiteouts that the list has for the branch, in its order.
  pub del_wh_children : List (Name × ℕ) → HDentry → ℕ → Run sys.World (Unit {0})
  unfolding unlink_wh_name
  del_wh_children [] hd b s = (ok tt, s)
  del_wh_children ((name, wh_bindex) ∷ whs) hd b s =
      let one =
        (if not (wh_bindex == b)
          then (ok tt, s)
          else if leb (length name + wh_len) path_max
          then unlink_wh_name hd (wh_pfx ++ name) s
          else (err eio, s)) in
      let rest = λ (t : Op sys.World). del_wh_children whs hd b t in and_then one (λ _. rest)

  -- `rmdir_whtmp` of the directory `hd`, which has the name `tmp` in `hp`. `top` says that the
  -- branch is the first one of the parent directory.
  unfoldable pub rmdir_whtmp :
      HDentry → HDentry → Name → List (Name × ℕ) → ℕ → Bool → Run sys.World (Unit {0})
  unfolding del_wh_children
  rmdir_whtmp hp hd tmp whlist b top = do
    del_wh_children whlist hd b
    call sys (λ w. sys.rmdir w hp.id tmp)
    modify (λ s. if top then record s { dir_nlink = s.dir_nlink - 1 } else s)
