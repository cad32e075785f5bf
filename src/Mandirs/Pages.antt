-- ===== src/Mandirs/Pages.antt =====
-- purge_normal (src/check_mandirs.c) on a page with a key of its own, and purge_pointers.
use mandb.Base.{
  false, Bool, ◌||◌, ◌&&◌, Option, none, some, is_some, List, [], ◌∷◌, ◌++◌, Bytes, ◌≡◌, refl,
  arith, if◌then◌else◌, Lacks, Option-cases, Bool-cases, get_or, inl, inr, leb,
}
use mandb.CString.Search.{before-Lacks_eq}
use mandb.Exit.{Outcome, done, fatal, M}
use mandb.Db.Record.{Mandata, Timespec, tab, split_content}
use mandb.Db.Ids.{ult_man}
use mandb.Db.Refs.{name_to_key}
use mandb.Db.Backend.{Backend, IsLawful}
use mandb.Db.Store.{single, situation}
use mandb.Db.Delete.{delete_in, dbdelete}
use mandb.Mandirs.{
  Files, State, no_time, is_minus_one, has_ext, counts, count_glob_matches, delete_entry,
  purge_normal, purge_entry, split_or_fatal, purge_at, is_identifier, purge_key, purge_pointer_at,
  unless_returned, purge_pointers,
}

-- Whether a file of the list is there and has the extension in its name.
unfoldable pub any_match : Files → Bytes → List Bytes → Bool
any_match files ext [] = false
any_match files ext (file ∷ found) =
    is_some (files.stat_mtime file) && has_ext ext (files.page_info_of file)
    || any_match files ext found

module _ (b : Backend) (law : IsLawful b) (files : Files) where
  open b use {Db, fetch}

  counts_all :
      (ext file : Bytes)
      → counts b files ext no_time file
        ≡ is_some (files.stat_mtime file) && has_ext ext (files.page_info_of file)
  unfolding counts is_minus_one
  counts_all ext file = elim (Option-cases (files.stat_mtime file)) [
    | inl e ↦ ground (arith, e)
    | inr (t, e) ↦ ground (arith, e)
  ]

  count-any_match :
      (ext : Bytes) (found : List Bytes)
      → leb 1 (count_glob_matches b files ext found no_time) ≡ any_match files ext found
  unfolding count_glob_matches any_match
  count-any_match ext [] = refl
  count-any_match ext (file ∷ found) =
      ground (arith, counts_all ext file, count-any_match ext found)

  deletes_single :
      (key content : Bytes) (entry : Mandata) (s : State b files)
      → name_to_key key ≡ key
      → situation (fetch key s.db) ≡ single content
      → files.opt_test ≡ false
      → delete_entry b files key entry s ≡ done tt (record s { db = b.delete key s.db })
  unfolding delete_entry dbdelete delete_in
  deletes_single key content entry s e h o = ground (arith, o, e, h)

  -- Over a lawful store, with opt_test off, and for a lower-case key without a tab, not that of the
  -- version, which holds the one entry of a page of its own: purge_key counts one entry and removes
  -- it when look_for_file finds no file that is there and has the entry's extension, and else
  -- changes nothing.
  pub purge_key_page :
      (manpath catpath key content : Bytes) (db_mtime : Timespec) (entry : Mandata)
      (s : State b files)
      → Lacks tab key
      → name_to_key key ≡ key
      → is_identifier key ≡ false
      → situation (fetch key s.db) ≡ single content
      → split_content content ≡ some entry
      → entry.id ≡ ult_man
      → files.opt_test ≡ false
      → purge_key b files manpath catpath db_mtime key s ≡ (
          if any_match files entry.ext
            (files.look_for_file manpath entry.ext (get_or key entry.name) false)
          then done 0 s
          else done 1 (record s { db = b.delete key s.db }))
  unfolding purge_key purge_at split_or_fatal purge_entry purge_normal
  purge_key_page manpath catpath key content db_mtime entry s l e n h p id o =
      let found = files.look_for_file manpath entry.ext (get_or key entry.name) false in
      ground (
        arith,
        n,
        h,
        p,
        id,
        before-Lacks_eq tab key l,
        count-any_match entry.ext found,
        deletes_single key content entry s e h o,
      )

  later :
      (m n : M (State b files) (Unit {0})) (o : Outcome (State b files) (Option (Unit {0})))
      (s' : State b files)
      → ((s1 : State b files) → m s1 ≡ done tt s' → n s1 ≡ done tt s')
      → unless_returned b files m o ≡ done tt s'
      → unless_returned b files n o ≡ done tt s'
  unfolding unless_returned
  later m n (done none s1) s' k e = e
  later m n (done (some u) s1) s' k e = k s1 e
  later m n (fatal s1) s' k e = ground (arith, e)

  -- purge_pointers goes no further than the first key that it finds deleted.
  purge_pointers_stops :
      (name : Bytes) (keys rest : List Bytes) (key : Bytes) (s s' : State b files)
      → is_identifier key ≡ false
      → purge_pointers b files name keys s ≡ done tt s'
      → fetch key s'.db ≡ none
      → purge_pointers b files name (keys ++ (key ∷ rest)) s ≡ done tt s'
  unfolding purge_pointers purge_pointer_at situation unless_returned
  purge_pointers_stops name [] rest key s s' i e h = ground (arith, i, h, e)
  purge_pointers_stops name (k ∷ keys) rest key s s' i e h = elim (Bool-cases (is_identifier k)) [
    | inl t ↦
        ground
          (arith, t, e, purge_pointers_stops name keys rest key s s' i (ground (arith, t, e)) h)
    | inr t ↦ rw t (
        later (purge_pointers b files name keys)
          (purge_pointers b files name (keys ++ (key ∷ rest)))
          (purge_pointer_at b files name k (situation (fetch k s.db)) s) s'
          (λ s1 e1. purge_pointers_stops name keys rest key s1 s' i e1 h) (ground (arith, t, e)))
  ]
