-- ===== src/Db/Group/Dangling.antt =====
-- Situation (3) of dbstore (libdb/db_store.c) when replace_if_necessary fails.
use mandb.Base.{
  true, Option, none, some, List, [], ◌∷◌, Bytes, ◌≡◌, ◌≢◌, refl, sym, ap, ◌∙◌, arith, get_or,
  Lacks, All, subst,
}
use mandb.CString.Compare.{streq_iff, streq_refl, streq-eq_false}
use mandb.Exit.{done, fatal}
use mandb.Db.Record.{Mandata, tab, make_content}
use mandb.Db.Record.RoundTrip.{IsStorable}
use mandb.Db.Refs.{
  NameExt, SortedAdd, name_to_key, make_multi_key, list_extensions, make_extensions_reference,
}
use mandb.Db.Refs.Insert.{contains, contains-insert, insert_cons, All-insert, insert-IsStrict}
use mandb.Db.Refs.Keys.{make_multi_key_injective, name_to_key-Lacks, simple-ne-multi}
use mandb.Db.Refs.Order.{AddsInOrder, insert, name_ext_equals_iff}
use mandb.Db.Refs.Parse.{
  IsStrict, IsStrict-IsSorted, LacksTab, NoneEqual, add-insert, list_extensions-body, body,
}
use mandb.Db.Ids.{replace_fail, replace_action}
use mandb.Db.Backend.{Backend, IsLawful}
use mandb.Db.Store.{several, single, situation, unnamed, dbstore, store_in, store_beside}
use mandb.Db.Store.Effect.{status, store_beside_lem}
use mandb.Db.Lookup.{dblookup_exact}
use mandb.Db.Group.{IsSingle, NoMulti, ref}
use mandb.Db.Group.Lookup.{exact_dangling}
use mandb.Db.Group.Store.{dbstore_eq, single_other}

-- A list with one reference more is read back with it.
list_extensions-insert :
    (add : SortedAdd) (o : Option Bytes) (x : NameExt) (xs : List NameExt)
    → AddsInOrder add
    → NoneEqual x xs
    → IsStrict xs
    → All LacksTab (x ∷ xs)
    → o ≡ some (make_extensions_reference (add x xs))
    → (c : Bytes) × (situation o ≡ several c) × (contains (list_extensions add c) x ≡ true)
unfolding situation make_extensions_reference
list_extensions-insert add o x xs law new strict (lx, lacks) e =
    let (y, ys, k) = insert_cons x xs in
    let at : o ≡ some (make_extensions_reference (insert x xs)) =
      e
      ∙ ap (λ zs. some (make_extensions_reference zs))
          (add-insert add x xs law (IsStrict-IsSorted xs strict) new) in
    let read : list_extensions add (body y ys) ≡ insert x xs =
      list_extensions-body add y ys law (subst IsStrict k (insert-IsStrict x xs strict new))
        (subst (All LacksTab) k (All-insert LacksTab x xs lx lacks))
      ∙ sym k in
    (
      body y ys,
      rw (at, k) refl,
      ap (λ zs. contains zs x) read
          ∙ contains-insert x xs x
          ∙ ground (arith, name_ext_equals_iff x x),
    )

module _ (b : Backend) (law : IsLawful b) (m : Mandata) (base content : Bytes) (d : b.Db)
    (ne : base ≢ []) (l : Lacks tab base) (v : IsStorable (unnamed m))
    (g : IsSingle (name_to_key base) content)
    (s : situation (b.fetch (name_to_key base) d) ≡ single content)
    (n : NoMulti (λ k. b.fetch k d) (name_to_key base))
    (other : ref (get_or (name_to_key base) g.info.name) g.info.ext ≢ ref base m.ext)
    (fails : replace_action b.timespec_cmp
        (make_content (unnamed m)).0
        (make_content (unnamed g.info)).0
      ≡ replace_fail) where
  open b use {Db, fetch, sortedlist_add}

  dbstore_at_single :
      (d' : Db) (m' : Mandata)
      → store_beside b
          (unnamed m)
          base
          (name_to_key base)
          (get_or (name_to_key base) g.info.name)
          g.info
          d
        ≡ done
            (
              status (
                  replace_action b.timespec_cmp
                    (make_content (unnamed m)).0
                    (make_content (unnamed g.info)).0),
              m',
            )
            d'
      → dbstore b m base d ≡ done (1, m') d'
  unfolding store_in
  dbstore_at_single d' m' e =
      dbstore_eq b law m base d ne l v
      ∙ ap (λ t. store_in b t (unnamed m) base (name_to_key base) d) s
      ∙ single_other b law m base d ne l v content g.info g.parses (
          ground (
            arith,
            streq_iff (get_or (name_to_key base) g.info.name) base,
            streq_iff g.info.ext m.ext,
          ))
      ∙ e
      ∙ ap (λ a. done (status a, m') d') fails

  -- Over a lawful store, where the key of a page has one entry, consistent and for another page or
  -- extension, no multi key, and replace_if_necessary fails between that entry and the new one,
  -- which can be stored: dbstore returns 1, and the file it leaves makes the next exact lookup of
  -- the page with case end the process.
  pub dbstore-dangling :
      (m' : Mandata) × (d' : Db) × (dbstore b m base d ≡ done (1, m') d')
      × (dblookup_exact b base (some m.ext) true d' ≡ fatal d')
  dbstore-dangling =
      let key = name_to_key base in
      let old_name = get_or key g.info.name in
      let old_ref = ref old_name g.info.ext in
      let (d', e, eff) =
        store_beside_lem b law (unnamed m) g.info base key old_name d
          (streq-eq_false λ h. other (
            ground
              (arith, make_multi_key_injective old_name g.info.ext base m.ext g.belongs.0 l h)))
          (n base m.ext (l, refl)) in
      let xs_eq : sortedlist_add old_ref [] ≡ old_ref ∷ [] =
        add-insert sortedlist_add old_ref [] law.adds_in_order tt tt ∙ unfold insert in refl in
      let at_key : fetch key d'
          ≡ some (make_extensions_reference (sortedlist_add (ref base m.ext) (old_ref ∷ []))) =
        eff key
        ∙ rw (streq_refl key) (
            ap (λ zs. some (make_extensions_reference (sortedlist_add (ref base m.ext) zs)))
              xs_eq) in
      let (c, now, there) =
        list_extensions-insert sortedlist_add (fetch key d') (ref base m.ext) (old_ref ∷ [])
          law.adds_in_order (other, tt) (tt, tt)
          ((l, v.ext_tab), ((g.belongs.0, g.storable.ext_tab), tt)) at_key in
      let absent : fetch (make_multi_key base m.ext) d' ≡ none =
        eff (make_multi_key base m.ext)
        ∙ ground (
          arith,
          simple-ne-multi key base m.ext (name_to_key-Lacks base l),
          streq_refl (make_multi_key base m.ext),
          fails,
        ) in
      (_, d', dbstore_at_single d' _ e, exact_dangling b base m.ext d' c now there absent)
