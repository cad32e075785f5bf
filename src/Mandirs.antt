-- ===== src/Mandirs.antt =====
-- src/check_mandirs.c: the purge of entries whose pages are gone. The keys are those of a walk by
-- MYDBM_FIRSTKEY and MYDBM_NEXTKEY, which are fixed when it starts (Db/Iterate).
pub mod Multi
pub mod Purge
pub mod Pages
use mandb.Base.{
  ℕ, zero, suc, ◌+◌, Bool, true, false, not, ◌&&◌, ◌||◌, Option, none, some, List, [], ◌∷◌, ◌++◌,
  Bytes, ◌==◌, leb, if◌then◌else◌, get_or, is_some, map, take, drop, length, Ordering,
}
use mandb.Base.Int.{ℤ, pos, negsuc}
use mandb.CString.{streq, tolower, before, behind}
use mandb.Exit.{Outcome, done, fatal, M, ◌>>=◌, ◌>>◌}
use mandb.Db.Record.{Mandata, Timespec, tab, split_content}
use mandb.Db.Ids.{ult_man, so_man, whatis_man, stray_cat, is_gt}
use mandb.Db.Backend.{Backend}
use mandb.Db.Store.{Situation, missing, several, single, situation, split_or_die}
use mandb.Db.Delete.{dbdelete}
use mandb.Db.Version.{dbver_rd}
use mandb.Filenames.{Info, info}

-- What the purge asks of the file system: stat with get_stat_mtime, filename_info on a path, and
-- look_for_file (src/globbing.c) with LFF_MATCHCASE; and whether opt_test is set.
pub record Files : Type 0 where
  pub stat_mtime : Bytes → Option Timespec
  pub page_info_of : Bytes → Info
  pub look_for_file : Bytes → Bytes → Bytes → Bool → List Bytes
  pub opt_test : Bool

abbrev pub no_time : Timespec
no_time = record { tv_sec = negsuc 0; tv_nsec = negsuc 0 }

unfoldable pub is_minus_one : ℤ → Bool
is_minus_one (pos n) = false
is_minus_one (negsuc n) = n == 0

unfoldable pub has_ext : Bytes → Info → Bool
has_ext ext (info m) = streq ext m.ext
has_ext ext _ = false

-- strncasecmp (a, b, n) == 0 and strcasecmp (a, b) == 0
unfoldable pub same_prefix : ℕ → Bytes → Bytes → Bool
same_prefix n a b = streq (map tolower (take n a)) (map tolower (take n b))

unfoldable pub same_case : Bytes → Bytes → Bool
same_case a b = streq (map tolower a) (map tolower b)

-- `walk` as a new round finds it: at the tab before the next name, or at the end of the text.
unfoldable pub next_walk : Option Bytes → Bytes
next_walk none = []
next_walk (some rest) = tab ∷ rest

-- The loop of check_multi_key: the text from the tab before a name on. Each round takes a name and
-- an extension; the fuel is the length of the text.
unfoldable pub check_refs : ℕ → Bytes → Bytes → Bool
check_refs zero name text = false
check_refs (suc f) name [] = false
check_refs (suc f) name (c ∷ walk) = elim (behind tab walk) [
  | none ↦ not (same_case name walk)
  | some rest ↦
      let later = check_refs f name (next_walk (behind tab rest)) in
      if same_prefix (length (before tab walk)) name walk then later else true
]

-- Whether a rescan is forced, because a name differs from the key in more than its case.
unfoldable pub check_multi_key : Bytes → Bytes → Bool
check_multi_key name content = check_refs (length content) name content

unfoldable pub is_identifier : Bytes → Bool
is_identifier [] = false
is_identifier (c ∷ key) = c == b'$'

module _ (b : Backend) (files : Files) where
  open b use {Db, fetch, delete, timespec_cmp}
  open files use {stat_mtime, page_info_of, look_for_file, opt_test}

  -- The database and force_rescan.
  pub record State : Type 0 where
    pub db : Db
    pub force_rescan : Bool

  unfoldable pub counts : Bytes → Timespec → Bytes → Bool
  counts ext db_mtime file = elim (stat_mtime file) [
    | none ↦ false
    | some mtime ↦
        if not (is_minus_one db_mtime.tv_sec) && not (is_gt (timespec_cmp mtime db_mtime))
        then false
        else has_ext ext (page_info_of file)
  ]

  unfoldable pub count_glob_matches : Bytes → List Bytes → Timespec → ℕ
  count_glob_matches ext [] db_mtime = 0
  count_glob_matches ext (file ∷ source) db_mtime =
      let rest = count_glob_matches ext source db_mtime in
      if counts ext db_mtime file then suc rest else rest

  -- if (!opt_test) dbdelete (…), whose result is not read.
  unfoldable pub delete_entry : Bytes → Mandata → M State (Unit {0})
  delete_entry name entry s = if opt_test then done tt s else elim (dbdelete b name entry s.db) [
    | done ret d ↦ done tt (record s { db = d })
    | fatal d ↦ fatal (record s { db = d })
  ]

  unfoldable pub purge_normal : Bytes → Mandata → List Bytes → M State ℕ
  purge_normal name entry found =
      if leb 1 (count_glob_matches entry.ext found no_time)
      then done 0
      else (do delete_entry name entry; done 1)

  unfoldable pub set_rescan : M State (Unit {0})
  set_rescan s = done tt (record s { force_rescan = true })

  unfoldable pub purge_whatis : Bytes → Bool → Bytes → Mandata → List Bytes → Timespec → M State ℕ
  purge_whatis path cat name entry found db_mtime =
      if leb 1 (count_glob_matches entry.ext found db_mtime)
      then (do set_rescan; done 0)
      else if streq (get_or [] entry.pointer) (b'-' ∷ [])
      then (do delete_entry name entry; set_rescan; done 1)
      else if leb 1 (
          count_glob_matches entry.ext (look_for_file path entry.ext (get_or [] entry.pointer) cat)
            no_time)
      then done 0
      else (do delete_entry name entry; done 1)

  -- By the type of the entry; `name` is the key up to a tab.
  unfoldable pub purge_entry : Bytes → Bytes → Timespec → Bytes → Mandata → M State ℕ
  purge_entry manpath catpath db_mtime name entry =
      let is_man = leb entry.id whatis_man in
      let path = if is_man then manpath else catpath in
      let found = look_for_file path entry.ext (get_or name entry.name) (not is_man) in
      if entry.id == ult_man || entry.id == so_man || entry.id == stray_cat
      then purge_normal name entry found
      else if entry.id == whatis_man
      then purge_whatis manpath false name entry found db_mtime
      else purge_whatis catpath true name entry found db_mtime

  -- MYDBM_DELETE, and the rescan that check_multi_key forces.
  unfoldable pub drop_multi_key : Bytes → State → State
  drop_multi_key key s = record s { db = delete key s.db; force_rescan = true }

  -- split_content on a State.
  unfoldable pub split_or_fatal : Bytes → M State Mandata
  split_or_fatal content s = elim (split_content content) [ none ↦ fatal s | some m ↦ done m s ]

  -- One round of the loop, behind the test for '$'.
  unfoldable pub purge_at : Bytes → Bytes → Timespec → Bytes → Situation → M State ℕ
  purge_at manpath catpath db_mtime key missing s = done 0 s
  purge_at manpath catpath db_mtime key (several refs) s =
      done 0 (if check_multi_key (before tab key) (tab ∷ refs) then drop_multi_key key s else s)
  purge_at manpath catpath db_mtime key (single content) s =
      (do
        entry ← split_or_fatal content
        purge_entry manpath catpath db_mtime (before tab key) entry)
        s

  unfoldable pub purge_key : Bytes → Bytes → Timespec → Bytes → M State ℕ
  purge_key manpath catpath db_mtime key s =
      if is_identifier key
      then done 0 s
      else purge_at manpath catpath db_mtime key (situation (fetch key s.db)) s

  unfoldable pub purge_keys : Bytes → Bytes → Timespec → List Bytes → M State ℕ
  purge_keys manpath catpath db_mtime [] = done 0
  purge_keys manpath catpath db_mtime (key ∷ keys) = do
    n ← purge_key manpath catpath db_mtime key
    m ← purge_keys manpath catpath db_mtime keys
    done (n + m)

  unfoldable pub all_filled : List Bytes → Db → Bool
  all_filled [] d = true
  all_filled (key ∷ keys) d = is_some (fetch key d) && all_filled keys d

  unfoldable pub sanity_check_db : List Bytes → Db → Bool
  sanity_check_db keys d = dbver_rd b d == 0 && all_filled keys d

  -- `exists` is whether the file is there, `opens` the result of ensure_db_open.
  unfoldable pub purge_missing : Bool → Bool → List Bytes → Bytes → Bytes → Timespec → M State ℕ
  purge_missing exists opens keys manpath catpath db_mtime s =
      if not exists
      then done 0 s
      else if not (opens && sanity_check_db keys s.db)
      then done 0 s
      else purge_keys manpath catpath db_mtime keys s

  -- One round of purge_pointers that goes on; `none` is its return.
  unfoldable pub purge_pointer_at : Bytes → Bytes → Situation → M State (Option (Unit {0}))
  purge_pointer_at name key missing = done none
  purge_pointer_at name key (several refs) = done (some tt)
  purge_pointer_at name key (single content) = do
    entry ← split_or_fatal content
    if (entry.id == so_man || entry.id == whatis_man) && streq (get_or [] entry.pointer) name
        then (do delete_entry (before tab key) entry; done (some tt))
        else done (some tt)

  unfoldable pub unless_returned :
      M State (Unit {0}) → Outcome State (Option (Unit {0})) → Outcome State (Unit {0})
  unless_returned m (fatal s) = fatal s
  unless_returned m (done none s) = done tt s
  unless_returned m (done (some u) s) = m s

  unfoldable pub purge_pointers : Bytes → List Bytes → M State (Unit {0})
  purge_pointers name [] s = done tt s
  purge_pointers name (key ∷ keys) s =
      if is_identifier key
      then purge_pointers name keys s
      else unless_returned (purge_pointers name keys)
          (purge_pointer_at name key (situation (fetch key s.db)) s)
