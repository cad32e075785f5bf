-- ===== src/Db/Store.antt =====
-- dbstore (libdb/db_store.c).
pub mod Effect
use mandb.Base.{
  ℕ, Bool, true, false, ◌&&◌, Option, none, some, List, [], ◌∷◌, Bytes, ◌==◌, if◌then◌else◌, get_or,
}
use mandb.CString.{streq}
use mandb.Exit.{Outcome, done, fatal, M, ◌>>=◌, ◌>>◌}
use mandb.Db.Record.{Mandata, tab, split_content, make_content}
use mandb.Db.Refs.{NameExt, name_to_key, make_multi_key, list_extensions, make_extensions_reference}
use mandb.Db.Ids.{ReplaceAction, replace_yes, replace_no, replace_fail, replace_action}
use mandb.Db.Backend.{Backend}

-- "situation" in the comment above dbstore.
pub data Situation : Type 0 where
  missing : Situation
  several : Bytes → Situation
  single : Bytes → Situation

-- By the first byte of the simple key's content; `several` holds the text behind the tab.
unfoldable pub situation : Option Bytes → Situation
situation none = missing
situation (some []) = single []
situation (some (c ∷ s)) = if c == tab then several s else single (c ∷ s)

-- The name is stored only if it is not the key itself.
unfoldable pub with_name : Mandata → Bytes → Bytes → Mandata
with_name m base key = if streq base key then m else record m { name = some base }

abbrev pub unnamed : Mandata → Mandata
unnamed m = record m { name = none }

module _ (b : Backend) where
  open b use {Db, fetch, insert, replace, sortedlist_add, timespec_cmp}

  -- if (MYDBM_REPLACE (…)) gripe_replace_key (…)
  unfoldable pub replace_or_die : Bytes → Bytes → M Db (Unit {0})
  replace_or_die k v d = let (d', failed) = replace k v d in if failed then fatal d' else done tt d'

  -- split_content, which ends the process on a content with too few fields.
  unfoldable pub split_or_die : Bytes → M Db Mandata
  split_or_die content d = elim (split_content content) [ none ↦ fatal d | some m ↦ done m d ]

  unfoldable pub perform : ReplaceAction → Bytes → Bytes → M Db ℕ
  perform replace_yes k v = do replace_or_die k v; done 0
  perform replace_no k v = λ d. done 0 (insert k v d).0
  perform replace_fail k v = done 1

  unfoldable pub replace_if_necessary : Mandata → Mandata → Bytes → Bytes → M Db ℕ
  replace_if_necessary new old = perform (replace_action timespec_cmp new old)

  -- Situation (1): no entry.
  unfoldable pub store_missing : Mandata → Bytes → Bytes → M Db (ℕ × Mandata)
  store_missing in_ base key = do
    let (filled, content) = make_content (with_name in_ base key)
    replace_or_die key content
    done (0, unnamed filled)

  abbrev add_ref : Bytes → Bytes → List NameExt → List NameExt
  add_ref name ext = sortedlist_add (record { name = name; ext = ext })

  -- The multi key was there: the two entries compete.
  unfoldable pub store_competing : Mandata → Bytes → Bytes → M Db (ℕ × Mandata)
  store_competing filled multi_key content d = elim (fetch multi_key d) [
    | none ↦ fatal d
    | some old_content ↦
        (do
          info ← split_or_die old_content
          ret ← replace_if_necessary filled info multi_key content
          done (ret, filled))
          d
  ]

  -- Situation (2): several entries, whose references are in `refs`.
  unfoldable pub store_several : Mandata → Bytes → Bytes → Bytes → M Db (ℕ × Mandata)
  store_several in_ base key refs d =
      let multi_key = make_multi_key base in_.ext in
      let (filled, content) = make_content in_ in
      let (d', present) = insert multi_key content d in
      if present
      then store_competing filled multi_key content d'
      else (do
        replace_or_die key
            (make_extensions_reference (add_ref base in_.ext (list_extensions sortedlist_add refs)))
        done (0, filled))
          d'

  -- Situation (3), with the entry `old` for the same page and extension.
  unfoldable pub store_same : Mandata → Bytes → Bytes → Mandata → M Db (ℕ × Mandata)
  store_same in_ base key old = do
    let (filled, content) = make_content (with_name in_ base key)
    ret ← replace_if_necessary filled old key content
    done (ret, unnamed filled)

  -- Situation (3), with an entry for another page or extension: both get a key of their own.
  unfoldable pub store_beside : Mandata → Bytes → Bytes → Bytes → Mandata → M Db (ℕ × Mandata)
  store_beside in_ base key old_name old = do
    let (old', last_content) = make_content (unnamed old)
    replace_or_die (make_multi_key old_name old.ext) last_content
    let (filled, content) = make_content in_
    ret ← replace_if_necessary filled old' (make_multi_key base in_.ext) content
    replace_or_die key
        (make_extensions_reference (add_ref base in_.ext (add_ref old_name old.ext [])))
    done (ret, filled)

  unfoldable pub store_single : Mandata → Bytes → Bytes → Bytes → M Db (ℕ × Mandata)
  store_single in_ base key content = do
    old ← split_or_die content
    let old_name = get_or key old.name
    if streq old_name base && streq old.ext in_.ext
        then store_same in_ base key old
        else store_beside in_ base key old_name old

  unfoldable pub store_in : Situation → Mandata → Bytes → Bytes → M Db (ℕ × Mandata)
  store_in missing in_ base key = store_missing in_ base key
  store_in (several refs) in_ base key = store_several in_ base key refs
  store_in (single content) in_ base key = store_single in_ base key content

  -- The result, and what the argument is then.
  unfoldable pub dbstore : Mandata → Bytes → M Db (ℕ × Mandata)
  dbstore in_ [] d = done (2, in_) d
  dbstore in_ (c ∷ base) d =
      let key = name_to_key (c ∷ base) in
      store_in (situation (fetch key d)) (unnamed in_) (c ∷ base) key d
