-- ===== src/Db/Group/Lookup.antt =====
-- dblookup_exact over a key whose entries are consistent.
use mandb.Base.{
  true, false, ◌&&◌, none, some, List, [], ◌∷◌, Bytes, ◌≡◌, refl, sym, ap, subst, ◌∙◌, arith,
  if◌then◌else◌, get_or, Lacks, Bool-cases, Option-cases, inl, inr,
}
use mandb.CString.{streq}
use mandb.CString.Compare.{streq_refl, streq_comm}
use mandb.Exit.{done, fatal}
use mandb.Db.Record.{Mandata, tab, split_content}
use mandb.Db.Refs.{NameExt, name_ext_equals, name_to_key, make_multi_key, list_extensions}
use mandb.Db.Refs.Insert.{contains}
use mandb.Db.Refs.Order.{name_ext_equals_iff}
use mandb.Db.Refs.Parse.{list_extensions-body}
use mandb.Db.Backend.{Backend, IsLawful}
use mandb.Db.Store.{Situation, missing, several, single, situation, split_or_die}
use mandb.Db.Lookup.{
  Flags, matches, section_matches, named, lookup_single, fetch_ref, lookup_refs, lookup_in,
  dblookup, dblookup_exact, first,
}
use mandb.Db.Group.{view, Group, IsGroup, IsSeveral, Parses, ref}
use mandb.Db.Group.View.{view_missing, view_single, view_several_none, view_several_some}

abbrev exactly : Flags
exactly = record { exact = true; match_case = true }

matches-exactly :
    (page ext : Bytes) (r : NameExt)
    → matches exactly page (some ext) r.name r.ext ≡ name_ext_equals r (ref page ext)
unfolding matches section_matches name_ext_equals
matches-exactly page ext r = ground (arith, streq_comm ext r.ext)

module _ (b : Backend) where
  open b use {Db, fetch, sortedlist_add}

  module _ (page ext : Bytes) (d : Db) where
    absent_ref :
        (refs : List NameExt)
        → contains refs (ref page ext) ≡ false
        → lookup_refs b exactly page (some ext) refs d ≡ done [] d
    unfolding lookup_refs contains
    absent_ref [] h = refl
    absent_ref (r ∷ refs) h = ground (arith, matches-exactly page ext r, absent_ref refs)

    -- A reference to a page that is not there ends the process.
    dangling_ref :
        (refs : List NameExt)
        → contains refs (ref page ext) ≡ true
        → fetch (make_multi_key page ext) d ≡ none
        → lookup_refs b exactly page (some ext) refs d ≡ fatal d
    unfolding lookup_refs contains fetch_ref
    dangling_ref [] h e = ground arith
    dangling_ref (r ∷ refs) h e =
        ground (
          arith,
          matches-exactly page ext r,
          dangling_ref refs,
          name_ext_equals_iff r (ref page ext),
        )

    fetch_ref_lem :
        (content : Bytes) (info : Mandata)
        → fetch (make_multi_key page ext) d ≡ some content
        → split_content content ≡ some info
        → fetch_ref b (ref page ext) d ≡ done (named info page) d
    unfolding fetch_ref split_or_die
    fetch_ref_lem content info found parsed = ground arith

    present_ref :
        (refs : List NameExt) (content : Bytes) (info : Mandata)
        → fetch (make_multi_key page ext) d ≡ some content
        → split_content content ≡ some info
        → (infos : List Mandata) × (lookup_refs b exactly page (some ext) refs d ≡ done infos d)
          × (first infos ≡ (if contains refs (ref page ext) then some (named info page) else none))
    unfolding lookup_refs contains
    present_ref [] content info found parsed = ([], refl, refl)
    present_ref (r ∷ refs) content info found parsed =
        let (infos, e, h) = present_ref refs content info found parsed in
        elim (Bool-cases (name_ext_equals r (ref page ext))) [
          | inl same ↦ (
            named info page ∷ infos,
            ground (
              arith,
              matches-exactly page ext r,
              fetch_ref_lem content info found parsed,
              e,
              name_ext_equals_iff r (ref page ext),
              ap (λ q. fetch_ref b q d),
            ),
            ground arith,
          )
          | inr other ↦ (infos, ground (arith, matches-exactly page ext r, e), ground arith)
        ]

    -- What dblookup_exact makes of a list that was looked up.
    exact_of :
        (t : Situation) (infos : List Mandata)
        → situation (fetch (name_to_key page) d) ≡ t
        → lookup_in b t exactly page (some ext) d ≡ done infos d
        → dblookup_exact b page (some ext) true d ≡ done (first infos) d
    unfolding dblookup_exact dblookup
    exact_of t infos s e = ground (arith, ap (λ u. lookup_in b u exactly page (some ext) d) s, e)

    pub exact_dangling :
        (content : Bytes)
        → situation (fetch (name_to_key page) d) ≡ several content
        → contains (list_extensions sortedlist_add content) (ref page ext) ≡ true
        → fetch (make_multi_key page ext) d ≡ none
        → dblookup_exact b page (some ext) true d ≡ fatal d
    unfolding dblookup_exact dblookup lookup_in
    exact_dangling content s there e = ground (
      arith,
      ap (λ u. lookup_in b u exactly page (some ext) d) s,
      dangling_ref (list_extensions sortedlist_add content) there e,
    )

    exact_single :
        (content : Bytes) (info : Mandata)
        → situation (fetch (name_to_key page) d) ≡ single content
        → split_content content ≡ some info
        → dblookup_exact b page (some ext) true d
          ≡ done
              (if streq (get_or page info.name) page && streq info.ext ext
                then some (named info page)
                else none)
              d
    unfolding dblookup_exact dblookup lookup_in lookup_single split_or_die matches section_matches
    exact_single content info s parsed = ground (
      arith,
      ap (λ u. lookup_in b u exactly page (some ext) d) s,
      parsed,
      streq_comm ext info.ext,
    )

  -- Where a key has one entry and that entry keeps no name, dblookup_exact with case finds the
  -- entry for every page of that key and the entry's extension, whatever the case of the page.
  dblookup_exact-ignores_case :
      (page content : Bytes) (info : Mandata) (d : Db)
      → situation (fetch (name_to_key page) d) ≡ single content
      → split_content content ≡ some info
      → info.name ≡ none
      → dblookup_exact b page (some info.ext) true d ≡ done (some (named info page)) d
  dblookup_exact-ignores_case page content info d s parsed n = ground (
    arith,
    exact_single page info.ext d content info s parsed,
    streq_refl page,
    streq_refl info.ext,
  )

  module _ (law : IsLawful b) (page ext : Bytes) (d : Db) where
    exact_several :
        (content : Bytes)
        → situation (fetch (name_to_key page) d) ≡ several content
        → (g : IsSeveral (λ k. fetch k d) (name_to_key page) content) → Lacks tab page
        → dblookup_exact b page (some ext) true d ≡ done (view (λ k. fetch k d) page ext) d
    unfolding lookup_in
    exact_several content s g l = elim (Option-cases (fetch (make_multi_key page ext) d)) [
      | inl absent ↦
          exact_of page ext d (several content) [] s (
            rw listed
              (absent_ref page ext d refs (sym (g.listed page ext (l, refl)) ∙ rw absent refl)))
          ∙ ap (λ o. done o d)
              (sym (
                view_several_none (λ k. fetch k d) (name_to_key page) page ext refl content s
                  absent))
      | inr (c, found) ↦
          let (info, parsed) : Parses (some c) = subst Parses found (g.parses page ext (l, refl)) in
          let (infos, e, h) = present_ref page ext d refs c info found parsed in
          let there : contains refs (ref page ext) ≡ true =
            sym (g.listed page ext (l, refl)) ∙ rw found refl in
          exact_of page ext d (several content) infos s (rw listed e)
          ∙ ap (λ o. done o d)
              (ground (
                arith,
                h,
                there,
                view_several_some (λ k. fetch k d) (name_to_key page) page ext refl content c info s
                    found parsed,
              ))
    ]
      where
        refs : List NameExt
        refs = g.head ∷ g.refs

        listed : list_extensions sortedlist_add content ≡ g.head ∷ g.refs
        listed =
            ap (list_extensions sortedlist_add) g.reads
            ∙ list_extensions-body sortedlist_add g.head g.refs law.adds_in_order g.strict g.lacks

    exact_in :
        (t : Situation)
        → situation (fetch (name_to_key page) d) ≡ t
        → Group (λ k. fetch k d) (name_to_key page) t
        → Lacks tab page
        → name_to_key page ≡ page
        → dblookup_exact b page (some ext) true d ≡ done (view (λ k. fetch k d) page ext) d
    exact_in missing s g l low =
        exact_of page ext d missing [] s (unfold lookup_in in refl)
        ∙ ap (λ o. done o d)
            (sym (view_missing (λ k. fetch k d) (name_to_key page) page ext refl s))
    exact_in (single content) s g l low =
        exact_single page ext d content g.0.info s g.0.parses
        ∙ ground (
          arith,
          low,
          view_single (λ k. fetch k d) (name_to_key page) page ext refl content g.0.info s
              g.0.parses,
        )
    exact_in (several content) s g l low = exact_several content s g l

    -- Over a lawful store, for a page in lower case without a tab and a key whose entries are
    -- consistent, dblookup_exact with case ends without a fatal error, finds what the table holds
    -- for the page and the extension, and changes nothing.
    pub dblookup_exact-view :
        IsGroup (λ k. fetch k d) (name_to_key page)
        → Lacks tab page
        → name_to_key page ≡ page
        → dblookup_exact b page (some ext) true d ≡ done (view (λ k. fetch k d) page ext) d
    dblookup_exact-view g = exact_in (situation (fetch (name_to_key page) d)) refl g
