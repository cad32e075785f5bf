-- ===== src/Db/Store/Effect.antt =====
-- What each branch of dbstore does to the file, key by key.
use mandb.Base.{
  ℕ, false, Option, none, some, [], Bytes, ap, ◌≡◌, refl, arith, if◌then◌else◌, get_or,
}
use mandb.CString.{streq}
use mandb.CString.Compare.{streq_refl, streq_iff}
use mandb.Exit.{done}
use mandb.Db.Record.{Mandata, split_content, make_content}
use mandb.Db.Refs.{NameExt, make_multi_key, list_extensions, make_extensions_reference}
use mandb.Db.Ids.{ReplaceAction, replace_yes, replace_no, replace_fail, replace_action}
use mandb.Db.Backend.{Backend, IsLawful}
use mandb.Db.Store.{
  replace_or_die, split_or_die, perform, replace_if_necessary, with_name, unnamed, store_missing,
  store_competing, store_several, store_same, store_beside,
}

-- What an action leaves under the key.
abbrev pub written : ReplaceAction → Bytes → Option Bytes → Option Bytes
written replace_yes new old = some new
written replace_no new old = some (get_or new old)
written replace_fail new old = old

abbrev pub status : ReplaceAction → ℕ
status replace_yes = 0
status replace_no = 0
status replace_fail = 1

module _ (b : Backend) (law : IsLawful b) where
  open b use {Db, fetch, insert, replace, sortedlist_add, timespec_cmp}

  pub replace_or_die_lem :
      (k v : Bytes) (d : Db) → replace_or_die b k v d ≡ done tt (replace k v d).0
  unfolding replace_or_die
  replace_or_die_lem k v d = ground (arith, law.replace_status k v d)

  after : ReplaceAction → Bytes → Bytes → Db → Db
  after replace_yes k v d = (replace k v d).0
  after replace_no k v d = (insert k v d).0
  after replace_fail k v d = d

  perform_lem :
      (a : ReplaceAction) (k v : Bytes) (d : Db)
      → perform b a k v d ≡ done (status a) (after a k v d)
  unfolding perform after
  perform_lem replace_yes k v d = ground (arith, replace_or_die_lem k v d)
  perform_lem replace_no k v d = refl
  perform_lem replace_fail k v d = refl

  after-fetch :
      (a : ReplaceAction) (k v : Bytes) (d : Db) (j : Bytes)
      → fetch j (after a k v d) ≡ (if streq k j then written a v (fetch k d) else fetch j d)
  unfolding after
  after-fetch replace_yes k v d j = law.replace_effect k v d j
  after-fetch replace_no k v d j = law.insert_effect k v d j
  after-fetch replace_fail k v d j = ground (arith, ap (λ i. fetch i d), streq_iff k j)

  replace_if_necessary_lem :
      (new old : Mandata) (k v : Bytes) (d : Db)
      → (d' : Db) × (replace_if_necessary b new old k v d
          ≡ done (status (replace_action timespec_cmp new old)) d')
        × ((j : Bytes)
            → fetch j d' ≡ (
                if streq k j
                then written (replace_action timespec_cmp new old) v (fetch k d)
                else fetch j d))
  unfolding replace_if_necessary
  replace_if_necessary_lem new old k v d =
      let a = replace_action timespec_cmp new old in
      (after a k v d, perform_lem a k v d, after-fetch a k v d)

  pub store_missing_lem :
      (m : Mandata) (base key : Bytes) (d : Db)
      → let made = make_content (with_name m base key) in
        (d' : Db) × (store_missing b m base key d ≡ done (0, unnamed made.0) d')
        × ((j : Bytes) → fetch j d' ≡ (if streq key j then some made.1 else fetch j d))
  unfolding store_missing
  store_missing_lem m base key d =
      let content = (make_content (with_name m base key)).1 in
      (
        (replace key content d).0,
        ground (arith, replace_or_die_lem key content d),
        law.replace_effect key content d,
      )

  pub store_same_lem :
      (m : Mandata) (base key : Bytes) (old : Mandata) (d : Db)
      → let made = make_content (with_name m base key) in
        let action = replace_action timespec_cmp made.0 old in
        (d' : Db) × (store_same b m base key old d ≡ done (status action, unnamed made.0) d')
        × ((j : Bytes)
            → fetch j d' ≡ (if streq key j then written action made.1 (fetch key d) else fetch j d))
  unfolding store_same
  store_same_lem m base key old d =
      let made = make_content (with_name m base key) in
      let (d', e, f) = replace_if_necessary_lem made.0 old key made.1 d in
      (d', ground (arith, e), f)

  -- The changed argument, its key, its content and what the competition decides.
  store_competing_lem :
      (m old : Mandata) (k v old_content : Bytes) (d : Db)
      → fetch k d ≡ some old_content
      → split_content old_content ≡ some old
      → let action = replace_action timespec_cmp m old in
        (d' : Db) × (store_competing b m k v d ≡ done (status action, m) d')
        × ((j : Bytes)
            → fetch j d' ≡ (if streq k j then written action v (fetch k d) else fetch j d))
  unfolding store_competing split_or_die
  store_competing_lem m old k v old_content d found parsed =
      let (d', e, f) = replace_if_necessary_lem m old k v d in
      (d', ground (arith, found, parsed, e), f)

  pub store_several_taken :
      (m old : Mandata) (base key refs old_content : Bytes) (d : Db)
      → fetch (make_multi_key base m.ext) d ≡ some old_content
      → split_content old_content ≡ some old
      → let multi_key = make_multi_key base m.ext in
        let made = make_content m in
        let action = replace_action timespec_cmp made.0 old in
        (d' : Db) × (store_several b m base key refs d ≡ done (status action, made.0) d')
        × ((j : Bytes)
            → fetch j d'
              ≡ (if streq multi_key j then written action made.1 (some old_content) else fetch j d))
  unfolding store_several
  store_several_taken m old base key refs old_content d found parsed =
      let multi_key = make_multi_key base m.ext in
      let made = make_content m in
      let d₁ = (insert multi_key made.1 d).0 in
      let kept : fetch multi_key d₁ ≡ some old_content =
        ground
          (arith, law.insert_effect multi_key made.1 d multi_key, found, streq_refl multi_key) in
      let (d', e, f) = store_competing_lem made.0 old multi_key made.1 old_content d₁ kept parsed in
      (
        d',
        ground (arith, law.insert_status multi_key made.1 d, found, e),
        λ j. ground (
          arith,
          f j,
          kept,
          law.insert_effect multi_key made.1 d j,
          found,
          streq_iff multi_key j,
          ap (λ i. fetch i d),
        ),
      )

  -- The references are written with the new one among them.
  abbrev pub refs_with : NameExt → Bytes → Bytes
  refs_with r refs =
      make_extensions_reference (sortedlist_add r (list_extensions sortedlist_add refs))

  pub store_several_fresh :
      (m : Mandata) (base key refs : Bytes) (d : Db)
      → fetch (make_multi_key base m.ext) d ≡ none
      → let multi_key = make_multi_key base m.ext in
        let made = make_content m in
        let listed = refs_with (record { name = base; ext = m.ext }) refs in
        (d' : Db) × (store_several b m base key refs d ≡ done (0, made.0) d')
        × ((j : Bytes)
            → fetch j d' ≡ (
                if streq key j
                then some listed
                else if streq multi_key j
                then some made.1
                else fetch j d))
  unfolding store_several
  store_several_fresh m base key refs d absent =
      let multi_key = make_multi_key base m.ext in
      let made = make_content m in
      let listed = refs_with (record { name = base; ext = m.ext }) refs in
      let d₁ = (insert multi_key made.1 d).0 in
      (
        (replace key listed d₁).0,
        ground
            (arith, law.insert_status multi_key made.1 d, absent, replace_or_die_lem key listed d₁),
        λ j. ground (
          arith,
          law.replace_effect key listed d₁ j,
          law.insert_effect multi_key made.1 d j,
          absent,
        ),
      )

  pub store_beside_lem :
      (m old : Mandata) (base key old_name : Bytes) (d : Db)
      → streq (make_multi_key old_name old.ext) (make_multi_key base m.ext) ≡ false
      → fetch (make_multi_key base m.ext) d ≡ none
      → let old_key = make_multi_key old_name old.ext in
        let new_key = make_multi_key base m.ext in
        let made_old = make_content (unnamed old) in
        let made = make_content m in
        let action = replace_action timespec_cmp made.0 made_old.0 in
        let old_ref : NameExt = record { name = old_name; ext = old.ext } in
        let new_ref : NameExt = record { name = base; ext = m.ext } in
        let listed =
          make_extensions_reference (sortedlist_add new_ref (sortedlist_add old_ref [])) in
        (d' : Db) × (store_beside b m base key old_name old d ≡ done (status action, made.0) d')
        × ((j : Bytes)
            → fetch j d' ≡ (
                if streq key j
                then some listed
                else if streq new_key j
                then written action made.1 none
                else if streq old_key j
                then some made_old.1
                else fetch j d))
  unfolding store_beside
  store_beside_lem m old base key old_name d apart absent =
      let old_key = make_multi_key old_name old.ext in
      let new_key = make_multi_key base m.ext in
      let made_old = make_content (unnamed old) in
      let made = make_content m in
      let old_ref : NameExt = record { name = old_name; ext = old.ext } in
      let new_ref : NameExt = record { name = base; ext = m.ext } in
      let listed = make_extensions_reference (sortedlist_add new_ref (sortedlist_add old_ref [])) in
      let d₁ = (replace old_key made_old.1 d).0 in
      let (d₂, e, f) = replace_if_necessary_lem made.0 made_old.0 new_key made.1 d₁ in
      (
        (replace key listed d₂).0,
        ground
            (arith, replace_or_die_lem old_key made_old.1 d, e, replace_or_die_lem key listed d₂),
        λ j. ground (
          arith,
          law.replace_effect key listed d₂ j,
          f j,
          law.replace_effect old_key made_old.1 d j,
          law.replace_effect old_key made_old.1 d new_key,
          apart,
          absent,
        ),
      )
