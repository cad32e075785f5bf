-- ===== src/Db/Group/Store/Fresh.antt =====
-- dbstore for a page whose key has several entries, none for this page and
-- extension.
use mandb.Base.{
  List, ◌∷◌, ◌||◌, is_some, subst, false, none, some, Bytes, ◌≡◌, ◌≢◌, refl, sym, ◌∙◌, arith,
  if◌then◌else◌, Lacks,
}
use mandb.CString.{streq}
use mandb.CString.Compare.{streq_iff, streq_refl}
use mandb.Db.Record.{Mandata, tab, split_content, make_content, set_defaults}
use mandb.Db.Record.RoundTrip.{IsStorable, split_content-make_content}
use mandb.Db.Refs.Order.{AddsInOrder, insert, name_ext_equals_iff}
use mandb.Db.Refs.Insert.{contains, contains-NoneEqual}
use mandb.Db.Refs.Parse.{add-insert, list_extensions-body, IsStrict-IsSorted, NoneEqual}
use mandb.Db.Refs.{
  SortedAdd, NameExt, name_ext_equals, list_extensions, make_extensions_reference, name_to_key,
  make_multi_key,
}
use mandb.Db.Refs.Keys.{name_to_key-Lacks, simple-ne-multi, make_multi_key_injective}
use mandb.Db.Store.{several, situation, unnamed}
use mandb.Db.Group.{Contents, Belongs, IsSeveral, Parses, ref}
use mandb.Db.Group.View.{view_several, IsLocal-of}
use mandb.Db.Group.Listed.{Parses-if, listed-IsSeveral}
use mandb.Db.Group.Table.{Stored, entry}

module _ (f f' : Contents) (m : Mandata) (base : Bytes) where
  abbrev multi_key : Bytes
  multi_key = make_multi_key base m.ext

  abbrev pub multi_content : Bytes
  multi_content = (make_content (unnamed m)).1

  module _ (add : SortedAdd) (law : AddsInOrder add) (l : Lacks tab base)
      (v : IsStorable (unnamed m)) (refs_content : Bytes)
      (s : situation (f (name_to_key base)) ≡ several refs_content)
      (g : IsSeveral f (name_to_key base) refs_content)
      (absent : f (make_multi_key base m.ext) ≡ none)
      (eff : (j : Bytes)
        → f' j ≡ (
            if streq (name_to_key base) j
            then some (
                make_extensions_reference (add (ref base m.ext) (list_extensions add refs_content)))
            else if streq (make_multi_key base m.ext) j
            then some (make_content (unnamed m)).1
            else f j)) where
    abbrev refs : List NameExt
    refs = g.head ∷ g.refs

    not_listed : NoneEqual (ref base m.ext) refs
    not_listed =
        contains-NoneEqual (ref base m.ext) refs
          (sym (g.listed base m.ext (l, refl)) ∙ rw absent refl)

    key_apart : (page ext : Bytes) → streq (name_to_key base) (make_multi_key page ext) ≡ false
    key_apart page ext = simple-ne-multi (name_to_key base) page ext (name_to_key-Lacks base l)

    at_key : f' (name_to_key base) ≡ some (make_extensions_reference (insert (ref base m.ext) refs))
    at_key =
        eff (name_to_key base)
        ∙ rw
            (
              streq_refl (name_to_key base),
              g.reads,
              list_extensions-body add g.head g.refs law g.strict g.lacks,
              add-insert add (ref base m.ext) refs law (IsStrict-IsSorted refs g.strict) not_listed,
            )
            refl

    at_multi :
        (page ext : Bytes)
        → f' (make_multi_key page ext) ≡ (
            if streq multi_key (make_multi_key page ext)
            then some multi_content
            else f (make_multi_key page ext))
    at_multi page ext = eff (make_multi_key page ext) ∙ rw (key_apart page ext) refl

    other_kept :
        (page ext : Bytes)
        → Lacks tab page
        → ref page ext ≢ ref base m.ext
        → f' (make_multi_key page ext) ≡ f (make_multi_key page ext)
    other_kept page ext lp n = ground (
      arith,
      at_multi page ext,
      streq_iff multi_key (make_multi_key page ext),
      λ (h : multi_key ≡ make_multi_key page ext).
          make_multi_key_injective base m.ext page ext l lp h,
    )

    made_parses : split_content multi_content ≡ some (set_defaults (unnamed m))
    made_parses = split_content-make_content (unnamed m) v

    listed :
        (page ext : Bytes)
        → Belongs (name_to_key base) page
        → is_some (f' (make_multi_key page ext))
          ≡ (name_ext_equals (ref base m.ext) (ref page ext) || contains refs (ref page ext))
    listed page ext o = ground (
      arith,
      at_multi page ext,
      g.listed page ext o,
      name_ext_equals_iff (ref base m.ext) (ref page ext),
      streq_iff multi_key (make_multi_key page ext),
      λ (h : multi_key ≡ make_multi_key page ext).
          make_multi_key_injective base m.ext page ext l o.0 h,
    )

    now_several :
        (c : Bytes) × (situation (f' (name_to_key base)) ≡ several c)
        × IsSeveral f' (name_to_key base) c
    now_several =
        listed-IsSeveral f' (name_to_key base) (ref base m.ext) refs at_key not_listed g.strict
          ((l, v.ext_tab), g.lacks) ((l, refl), g.belongs) listed
          (λ page ext o. subst Parses (sym (at_multi page ext)) (
            Parses-if (streq multi_key (make_multi_key page ext)) (some multi_content) _
              (set_defaults (unnamed m), made_parses) (g.parses page ext o)))

    -- The page gets a key of its own, and the references name it.
    pub fresh-Stored : Stored f f' m base (entry m base)
    fresh-Stored =
        let key = name_to_key base in
        let (c, s', g') = now_several in
        record {
          group = rw s' g';
          here =
              view_several f' key base m.ext refl c s'
              ∙ rw (at_multi base m.ext, streq_refl multi_key, made_parses) refl;
          beside = λ page ext o n.
              view_several f' key page ext o.1 c s'
              ∙ rw (other_kept page ext o.0 n)
                  (sym (view_several f key page ext o.1 refs_content s));
          local = IsLocal-of f f' key (name_to_key-Lacks base l) λ j n o.
              ground (arith, eff j, streq_iff key j, streq_iff multi_key j, o base m.ext (l, refl));
        }
