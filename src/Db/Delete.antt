-- ===== src/Db/Delete.antt =====
-- dbdelete (libdb/db_delete.c).
pub mod Remove
use mandb.Base.{ℕ, Bool, true, false, Option, none, some, List, [], ◌∷◌, Bytes, if◌then◌else◌}
use mandb.Exit.{Outcome, done, fatal, M, ◌>>=◌, ◌>>◌}
use mandb.Db.Record.{Mandata}
use mandb.Db.Refs.{
  NameExt, name_ext_equals, name_to_key, make_multi_key, list_extensions, make_extensions_reference,
}
use mandb.Db.Backend.{Backend}
use mandb.Db.Store.{Situation, missing, several, single, situation, replace_or_die}

-- gl_list_indexof and gl_list_remove_at: the list without the first equal element, if there is one.
unfoldable pub remove : NameExt → List NameExt → Option (List NameExt)
unfolding name_ext_equals
remove r [] = none
remove r (x ∷ xs) =
    if name_ext_equals r x
    then some xs
    else elim (remove r xs) [ none ↦ none | some ys ↦ some (x ∷ ys) ]

module _ (b : Backend) where
  open b use {Db, fetch, delete, exists, sortedlist_add}

  abbrev pub no_entry : ℕ
  no_entry = 1

  -- What is done with the references that are left.
  unfoldable pub keep_refs : Bytes → List NameExt → M Db ℕ
  keep_refs key [] d = done 0 (delete key d)
  keep_refs key (r ∷ refs) d =
      (do replace_or_die b key (make_extensions_reference (r ∷ refs)); done 0) d

  unfoldable pub delete_several : Bytes → Bytes → Bytes → Bytes → M Db ℕ
  delete_several name ext key content d =
      elim (remove (record { name = name; ext = ext }) (list_extensions sortedlist_add content)) [
        | none ↦ done no_entry d
        | some refs ↦
            let multi_key = make_multi_key name ext in
            if exists multi_key d then keep_refs key refs (delete multi_key d) else fatal d
      ]

  unfoldable pub delete_in : Situation → Bytes → Bytes → Bytes → M Db ℕ
  delete_in missing name ext key d = done no_entry d
  delete_in (single content) name ext key d = done 0 (delete key d)
  delete_in (several content) name ext key d = delete_several name ext key content d

  unfoldable pub dbdelete : Bytes → Mandata → M Db ℕ
  dbdelete name info d =
      let key = name_to_key name in delete_in (situation (fetch key d)) name info.ext key d
