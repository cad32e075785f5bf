-- ===== src/Db/Group/Store/Each.antt =====
-- What dbstore does to the table in each of its situations.
use mandb.Base.{
  ℕ, Option, none, some, Bytes, ◌≡◌, ◌≢◌, refl, sym, subst, ◌∙◌, arith, [], get_or, Lacks,
  Option-cases, inl, inr,
}
use mandb.CString.Compare.{streq_iff, streq_refl, streq-eq_false}
use mandb.Exit.{Outcome, done}
use mandb.Db.Record.{Mandata, tab, split_content, make_content}
use mandb.Db.Record.RoundTrip.{IsStorable}
use mandb.Db.Refs.{name_to_key, make_multi_key}
use mandb.Db.Refs.Keys.{make_multi_key_injective}
use mandb.Db.Ids.{TimeCmp, ReplaceAction, replace_yes, replace_no, replace_fail, replace_action}
use mandb.Db.Backend.{Backend, IsLawful}
use mandb.Db.Store.{
  missing, several, single, situation, with_name, unnamed, store_same, store_beside, store_several,
  store_missing, store_several,
}
use mandb.Db.Store.Effect.{
  written, status, store_missing_lem, store_same_lem, store_several_taken, store_several_fresh,
  store_beside_lem,
}
use mandb.Db.Lookup.{named}
use mandb.Db.Group.{Contents, view, IsSingle, IsSeveral, NoMulti, Parses, ref}
use mandb.Db.Group.View.{view_missing, view_single, view_several}
use mandb.Db.Group.Table.{Stored, entry, winner, chosen}
use mandb.Db.Group.Written.{made}
use mandb.Db.Group.Store.Missing.{missing-Stored}
use mandb.Db.Group.Store.Same.{same-Stored}
use mandb.Db.Group.Store.Several.{taken-Stored}
use mandb.Db.Group.Store.Fresh.{fresh-Stored}
use mandb.Db.Group.Store.Beside.{beside-Stored}

-- The decision does not read the names.
replace_action-named :
    (cmp : TimeCmp) (m old : Mandata) (base : Bytes)
    → replace_action cmp (make_content (made m base)).0 old
      ≡ replace_action cmp (entry m base) (named old base)
unfolding replace_action make_content with_name
replace_action-named cmp m old base = ground arith

module _ (b : Backend) (law : IsLawful b) where
  open b use {Db, fetch, sortedlist_add, timespec_cmp}

  abbrev pub contents : Db → Contents
  contents d k = fetch k d

  -- What is promised of a run: it ends, and if the result is 0, the table is as it should be.
  abbrev pub Promise : Mandata → Bytes → Db → Outcome Db (ℕ × Mandata) → Type 0
  Promise m base d o =
      (ret : ℕ) × (m' : Mandata) × (d' : Db) × (o ≡ done (ret, m') d')
      × (ret ≡ 0
          → Stored (contents d) (contents d') m base
              (winner timespec_cmp (entry m base) (view (contents d) base m.ext)))

  module _ (m : Mandata) (base : Bytes) (d : Db) (ne : base ≢ []) (l : Lacks tab base)
      (v : IsStorable (unnamed m)) where
    abbrev f : Contents
    f = contents d

    -- The table's entry before the call decides who wins.
    from_view :
        (o : Option Mandata) (d' : Db)
        → view f base m.ext ≡ o
        → Stored f (contents d') m base (winner timespec_cmp (entry m base) o)
        → Stored f (contents d') m base (winner timespec_cmp (entry m base) (view f base m.ext))
    from_view o d' e s =
        subst (λ x. Stored f (contents d') m base (winner timespec_cmp (entry m base) x)) (sym e) s

    pub promise_missing :
        situation (f (name_to_key base)) ≡ missing
        → NoMulti f (name_to_key base)
        → Promise m base d (store_missing b (unnamed m) base (name_to_key base) d)
    promise_missing s g =
        let (d', e, eff) = store_missing_lem b law (unnamed m) base (name_to_key base) d in
        (
          0,
          _,
          d',
          e,
          λ z.
              from_view none d' (view_missing f (name_to_key base) base m.ext refl s)
                (missing-Stored f (contents d') m base ne l v s g eff),
        )

    single_view :
        (content : Bytes) (g : IsSingle (name_to_key base) content)
        → situation (f (name_to_key base)) ≡ single content
        → get_or (name_to_key base) g.info.name ≡ base
        → g.info.ext ≡ m.ext
        → view f base m.ext ≡ some (named g.info base)
    single_view content g s same_name same_ext = ground (
      arith,
      view_single f (name_to_key base) base m.ext refl content g.info s g.parses,
      streq_refl base,
      streq_refl m.ext,
    )

    pub promise_same :
        (content : Bytes)
        → f (name_to_key base) ≡ some content
        → situation (f (name_to_key base)) ≡ single content
        → (g : IsSingle (name_to_key base) content) → NoMulti f (name_to_key base)
        → get_or (name_to_key base) g.info.name ≡ base
        → g.info.ext ≡ m.ext
        → Promise m base d (store_same b (unnamed m) base (name_to_key base) g.info d)
    promise_same content found s g n same_name same_ext =
        let (d', e, eff) = store_same_lem b law (unnamed m) base (name_to_key base) g.info d in
        (
          _,
          _,
          d',
          e,
          λ z.
              from_view (some (named g.info base)) d' (single_view content g s same_name same_ext) (
                subst
                  (λ a. Stored f (contents d') m base (chosen a (entry m base) (named g.info base)))
                  (replace_action-named timespec_cmp m g.info base)
                  (same-Stored f (contents d') m base ne l v content g.info s g n g.parses same_name
                    same_ext _ found (λ j. rw (← found) (eff j)))),
        )

    beside_view :
        (content : Bytes) (g : IsSingle (name_to_key base) content)
        → situation (f (name_to_key base)) ≡ single content
        → ref (get_or (name_to_key base) g.info.name) g.info.ext ≢ ref base m.ext
        → view f base m.ext ≡ none
    beside_view content g s other = ground (
      arith,
      view_single f (name_to_key base) base m.ext refl content g.info s g.parses,
      streq_iff (get_or (name_to_key base) g.info.name) base,
      streq_iff g.info.ext m.ext,
    )

    zero-ne-fail : (a : ReplaceAction) (x : Bytes) → status a ≡ 0 → written a x none ≡ some x
    zero-ne-fail replace_yes x z = refl
    zero-ne-fail replace_no x z = refl
    zero-ne-fail replace_fail x z = absurd (omega arith)

    pub promise_beside :
        (content : Bytes)
        → situation (f (name_to_key base)) ≡ single content
        → (g : IsSingle (name_to_key base) content) → NoMulti f (name_to_key base)
        → ref (get_or (name_to_key base) g.info.name) g.info.ext ≢ ref base m.ext
        → Promise m base d (
            store_beside b
              (unnamed m)
              base
              (name_to_key base)
              (get_or (name_to_key base) g.info.name)
              g.info
              d)
    promise_beside content s g n other =
        let old_name = get_or (name_to_key base) g.info.name in
        let (d', e, eff) =
          store_beside_lem b law (unnamed m) g.info base (name_to_key base) old_name d
            (streq-eq_false λ h. other (
              ground
                (arith, make_multi_key_injective old_name g.info.ext base m.ext g.belongs.0 l h)))
            (n base m.ext (l, refl)) in
        (
          _,
          _,
          d',
          e,
          λ z. from_view none d' (beside_view content g s other) (
              beside-Stored f (contents d') m base sortedlist_add law.adds_in_order l v content s g
                n other (λ j. rw (← zero-ne-fail _ (make_content (unnamed m)).1 z) (eff j))),
        )

    several_view :
        (content old_content : Bytes) (old : Mandata)
        → situation (f (name_to_key base)) ≡ several content
        → f (make_multi_key base m.ext) ≡ some old_content
        → split_content old_content ≡ some old
        → view f base m.ext ≡ some (named old base)
    several_view content old_content old s found parsed =
        view_several f (name_to_key base) base m.ext refl content s ∙ rw found (rw parsed refl)

    action-named :
        (old : Mandata)
        → replace_action timespec_cmp (make_content (unnamed m)).0 old
          ≡ replace_action timespec_cmp (entry m base) (named old base)
    unfolding replace_action make_content
    action-named old = refl

    pub promise_several :
        (content : Bytes)
        → situation (f (name_to_key base)) ≡ several content
        → (g : IsSeveral f (name_to_key base) content)
        → Promise m base d (store_several b (unnamed m) base (name_to_key base) content d)
    promise_several content s g = elim (Option-cases (f (make_multi_key base m.ext))) [
      | inl absent ↦
          let (d', e, eff) =
            store_several_fresh b law (unnamed m) base (name_to_key base) content d absent in
          (
            0,
            _,
            d',
            e,
            λ z.
                from_view none d'
                  (view_several f (name_to_key base) base m.ext refl content s ∙ rw absent refl)
                  (fresh-Stored f (contents d') m base sortedlist_add law.adds_in_order l v content
                    s g absent eff),
          )
      | inr (old_content, found) ↦
          let (old, parsed) : Parses (some old_content) =
            subst Parses found (g.parses base m.ext (l, refl)) in
          let (d', e, eff) =
            store_several_taken b law (unnamed m) old base (name_to_key base) content old_content d
              found parsed in
          (
            _,
            _,
            d',
            e,
            λ z.
                from_view (some (named old base)) d'
                  (several_view content old_content old s found parsed)
                  (subst
                    (λ a. Stored f (contents d') m base (chosen a (entry m base) (named old base)))
                    (action-named old)
                    (taken-Stored f (contents d') m base l v content s g old_content old found
                      parsed _ eff)),
          )
    ]
