-- ===== src/Db/Group/Store/Beside.antt =====
-- dbstore for a page whose key has one entry, for another page or extension.
use mandb.Base.{
  [], ◌∷◌, ◌||◌, is_some, subst, Bool, true, false, ◌&&◌, none, some, Bytes, ◌≡◌, ◌≢◌, refl, ap,
  sym, ◌∙◌, arith, if◌then◌else◌, get_or, Lacks, [],
}
use mandb.CString.{streq}
use mandb.CString.Compare.{streq_iff, streq_refl}
use mandb.Db.Record.{Mandata, tab, split_content, make_content, set_defaults}
use mandb.Db.Record.RoundTrip.{IsStorable, split_content-make_content}
use mandb.Db.Refs.Order.{AddsInOrder, insert, name_ext_equals_iff}
use mandb.Db.Refs.Insert.{contains}
use mandb.Db.Refs.Parse.{add-insert}
use mandb.Db.Refs.{
  SortedAdd, NameExt, name_ext_equals, make_extensions_reference, name_to_key, make_multi_key,
}
use mandb.Db.Refs.Keys.{name_to_key-Lacks, simple-ne-multi, make_multi_key_injective}
use mandb.Db.Store.{several, single, situation, unnamed}
use mandb.Db.Lookup.{named}
use mandb.Db.Group.{Contents, view, Belongs, IsSingle, IsSeveral, NoMulti, Parses, ref}
use mandb.Db.Group.View.{view_several, view_single, IsLocal-of}
use mandb.Db.Group.Listed.{pick, Parses-if, listed-IsSeveral}
use mandb.Db.Group.Table.{Stored, entry}

module _ (f f' : Contents) (m : Mandata) (base : Bytes) where
  abbrev new_ref : NameExt
  new_ref = ref base m.ext

  abbrev new_key : Bytes
  new_key = make_multi_key base m.ext

  abbrev new_content : Bytes
  new_content = (make_content (unnamed m)).1

  module _ (add : SortedAdd) (law : AddsInOrder add) (l : Lacks tab base)
      (v : IsStorable (unnamed m)) (content : Bytes)
      (s : situation (f (name_to_key base)) ≡ single content)
      (g : IsSingle (name_to_key base) content) (none_multi : NoMulti f (name_to_key base)) where
    abbrev pub old_name : Bytes
    old_name = get_or (name_to_key base) g.info.name

    abbrev old_ref : NameExt
    old_ref = ref old_name g.info.ext

    abbrev old_key : Bytes
    old_key = make_multi_key old_name g.info.ext

    abbrev old_content : Bytes
    old_content = (make_content (unnamed g.info)).1

    module _ (other : ref (get_or (name_to_key base) g.info.name) g.info.ext ≢ ref base m.ext)
        (eff : (j : Bytes)
          → f' j ≡ (
              if streq (name_to_key base) j
              then some (make_extensions_reference (add (ref base m.ext) (add old_ref [])))
              else if streq (make_multi_key base m.ext) j
              then some (make_content (unnamed m)).1
              else if streq old_key j
              then some old_content
              else f j)) where
      at_key :
          f' (name_to_key base) ≡ some (make_extensions_reference (insert new_ref (old_ref ∷ [])))
      unfolding insert
      at_key =
          eff (name_to_key base)
          ∙ rw (streq_refl (name_to_key base), add-insert add old_ref [] law tt tt)
              (rw (add-insert add new_ref (old_ref ∷ []) law (tt, tt) (other, tt)) refl)

      at_multi :
          (page ext : Bytes)
          → Belongs (name_to_key base) page
          → f' (make_multi_key page ext) ≡ (
              if streq new_key (make_multi_key page ext)
              then some new_content
              else if streq old_key (make_multi_key page ext)
              then some old_content
              else none)
      at_multi page ext o =
          eff (make_multi_key page ext)
          ∙ rw
              (
                simple-ne-multi (name_to_key base) page ext (name_to_key-Lacks base l),
                none_multi page ext o,
              )
              refl

      new_parses : split_content new_content ≡ some (set_defaults (unnamed m))
      new_parses = split_content-make_content (unnamed m) v

      old_parses : split_content old_content ≡ some (set_defaults (unnamed g.info))
      old_parses = split_content-make_content (unnamed g.info) g.storable

      listed :
          (page ext : Bytes)
          → Belongs (name_to_key base) page
          → is_some (f' (make_multi_key page ext))
            ≡ (name_ext_equals new_ref (ref page ext) || contains (old_ref ∷ []) (ref page ext))
      unfolding contains
      listed page ext o = ground (
        arith,
        at_multi page ext o,
        name_ext_equals_iff new_ref (ref page ext),
        name_ext_equals_iff old_ref (ref page ext),
        streq_iff new_key (make_multi_key page ext),
        streq_iff old_key (make_multi_key page ext),
        λ (h : new_key ≡ make_multi_key page ext).
            make_multi_key_injective base m.ext page ext l o.0 h,
        λ (h : old_key ≡ make_multi_key page ext).
            make_multi_key_injective old_name g.info.ext page ext g.belongs.0 o.0 h,
      )

      now_several :
          (c : Bytes) × (situation (f' (name_to_key base)) ≡ several c)
          × IsSeveral f' (name_to_key base) c
      now_several =
          listed-IsSeveral f' (name_to_key base) new_ref (old_ref ∷ []) at_key (other, tt) (tt, tt)
            ((l, v.ext_tab), ((g.belongs.0, g.storable.ext_tab), tt)) ((l, refl), (g.belongs, tt))
            listed
            (λ page ext o. subst Parses (sym (at_multi page ext o)) (
              Parses-if (streq new_key (make_multi_key page ext)) (some new_content) _
                (set_defaults (unnamed m), new_parses)
                (Parses-if (streq old_key (make_multi_key page ext)) (some old_content) none
                  (set_defaults (unnamed g.info), old_parses) tt)))

      old_named :
          (page : Bytes)
          → old_name ≡ page
          → named (set_defaults (unnamed g.info)) page ≡ named g.info page
      old_named page e =
          ground (arith, e, ap (λ (i : Mandata). record i { name = some page }) g.complete)

      -- Of the pages but the new one, the old one alone is there.
      other_at :
          (page ext : Bytes)
          → Belongs (name_to_key base) page
          → ref page ext ≢ ref base m.ext
          → f' (make_multi_key page ext)
            ≡ (if streq old_name page && streq g.info.ext ext then some old_content else none)
      other_at page ext o n = ground (
        arith,
        at_multi page ext o,
        streq_iff old_name page,
        streq_iff g.info.ext ext,
        streq_iff new_key (make_multi_key page ext),
        streq_iff old_key (make_multi_key page ext),
        λ (h : new_key ≡ make_multi_key page ext).
            make_multi_key_injective base m.ext page ext l o.0 h,
        λ (h : old_key ≡ make_multi_key page ext).
            make_multi_key_injective old_name g.info.ext page ext g.belongs.0 o.0 h,
      )

      beside_view :
          (c : Bytes)
          → situation (f' (name_to_key base)) ≡ several c
          → (page ext : Bytes) → Belongs (name_to_key base) page
          → ref page ext ≢ ref base m.ext
          → view f' page ext ≡ view f page ext
      beside_view c s' page ext o n =
          view_several f' (name_to_key base) page ext o.1 c s'
          ∙ ap (λ x. pick x page) (other_at page ext o n)
          ∙ picked (streq old_name page && streq g.info.ext ext)
              (λ h. ground (arith, streq_iff old_name page))
          ∙ sym (view_single f (name_to_key base) page ext o.1 content g.info s g.parses)
        where
          picked :
              (t : Bool)
              → (t ≡ true → old_name ≡ page)
              → pick (if t then some old_content else none) page
                ≡ (if t then some (named g.info page) else none)
          picked false e = refl
          picked true e = rw old_parses (ap some (old_named page (e refl)))

      -- Both pages get a key of their own, and the references name both.
      pub beside-Stored : Stored f f' m base (entry m base)
      beside-Stored =
          let key = name_to_key base in
          let (c, s', g') = now_several in
          record {
            group = rw s' g';
            here =
                view_several f' key base m.ext refl c s'
                ∙ rw (at_multi base m.ext (l, refl), streq_refl new_key, new_parses) refl;
            beside = beside_view c s';
            local = IsLocal-of f f' key (name_to_key-Lacks base l) λ j n o. ground (
              arith,
              eff j,
              streq_iff key j,
              streq_iff new_key j,
              streq_iff old_key j,
              o base m.ext (l, refl),
              o old_name g.info.ext g.belongs,
            );
          }
