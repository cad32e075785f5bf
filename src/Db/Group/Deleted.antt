-- ===== src/Db/Group/Deleted.antt =====
-- The table without a page, by the contents that dbdelete leaves.
use mandb.Base.{
  false, Option, none, some, List, [], ◌∷◌, Bytes, ◌≡◌, ◌≢◌, refl, sym, ap, subst, ◌∙◌, arith,
  if◌then◌else◌, get_or, Lacks, All, is_some,
}
use mandb.CString.{streq}
use mandb.CString.Compare.{streq_iff, streq_refl}
use mandb.Db.Record.{Mandata, tab}
use mandb.Db.Refs.{NameExt, name_to_key, make_multi_key, make_extensions_reference}
use mandb.Db.Refs.Insert.{contains}
use mandb.Db.Refs.Keys.{name_to_key-Lacks, simple-ne-multi, make_multi_key_injective}
use mandb.Db.Refs.Order.{name_ext_equals_iff}
use mandb.Db.Refs.Parse.{IsStrict, LacksTab, body}
use mandb.Db.Store.{missing, several, single, situation}
use mandb.Db.Delete.Remove.{remove-All, remove-IsStrict, contains-remove}
use mandb.Db.Delete.{remove}
use mandb.Db.Group.{
  Contents, view, Group, IsGroup, IsSingle, IsSeveral, NoMulti, Parses, ref, Belongs,
}
use mandb.Db.Group.Listed.{pick, Parses-if}
use mandb.Db.Group.View.{view_missing, view_single, view_several, IsLocal, IsLocal-of}

-- The table has no entry for the page, and is as it was elsewhere; the entries under the key are
-- consistent, and the other keys' untouched.
pub record Deleted (f f' : Contents) (name ext : Bytes) : Type 0 where
  pub group : IsGroup f' (name_to_key name)
  pub here : view f' name ext ≡ none
  pub beside :
      (page e : Bytes)
      → Belongs (name_to_key name) page
      → ref page e ≢ ref name ext
      → view f' page e ≡ view f page e
  pub local : IsLocal f f' (name_to_key name)

-- What keep_refs leaves under the simple key.
abbrev pub left_of : List NameExt → Option Bytes
left_of [] = none
left_of (r ∷ refs) = some (make_extensions_reference (r ∷ refs))

module _ (f f' : Contents) (name ext : Bytes) (l : Lacks tab name) where
  pub single-Deleted :
      (content : Bytes) (old : Mandata)
      → situation (f (name_to_key name)) ≡ single content
      → (g : IsSingle (name_to_key name) content) → NoMulti f (name_to_key name)
      → view f name ext ≡ some old
      → ((j : Bytes) → f' j ≡ (if streq (name_to_key name) j then none else f j))
      → Deleted f f' name ext
  unfolding situation
  single-Deleted content old s g n there eff =
      let key = name_to_key name in
      let s' : situation (f' key) ≡ missing = rw (eff key, streq_refl key) refl in
      record {
        group = rw s' (λ page e o.
            eff (make_multi_key page e)
            ∙ rw (simple-ne-multi key page e (name_to_key-Lacks name l)) (n page e o));
        here = view_missing f' key name ext refl s';
        beside = λ page e o ne.
            view_missing f' key page e o.1 s'
            ∙ ground (
              arith,
              view_single f key page e o.1 content g.info s g.parses,
              view_single f key name ext refl content g.info s g.parses,
              there,
              streq_iff (get_or key g.info.name) page,
              streq_iff (get_or key g.info.name) name,
              streq_iff g.info.ext ext,
              streq_iff g.info.ext e,
            );
        local =
            IsLocal-of f f' key (name_to_key-Lacks name l)
              λ j ne o. ground (arith, eff j, streq_iff key j);
      }

  module _ (content : Bytes) (s : situation (f (name_to_key name)) ≡ several content)
      (g : IsSeveral f (name_to_key name) content) (ys : List NameExt)
      (h : remove (ref name ext) (g.head ∷ g.refs) ≡ some ys)
      (eff : (j : Bytes)
        → f' j ≡ (
            if streq (name_to_key name) j
            then left_of ys
            else if streq (make_multi_key name ext) j
            then none
            else f j)) where
    at_multi :
        (page e : Bytes)
        → f' (make_multi_key page e) ≡ (
            if streq (make_multi_key name ext) (make_multi_key page e)
            then none
            else f (make_multi_key page e))
    at_multi page e =
        eff (make_multi_key page e)
        ∙ rw (simple-ne-multi (name_to_key name) page e (name_to_key-Lacks name l)) refl

    listed :
        (page e : Bytes)
        → Belongs (name_to_key name) page
        → is_some (f' (make_multi_key page e)) ≡ contains ys (ref page e)
    listed page e o = ground (
      arith,
      at_multi page e,
      g.listed page e o,
      contains-remove (ref name ext) (g.head ∷ g.refs) ys h g.strict (ref page e),
      name_ext_equals_iff (ref name ext) (ref page e),
      streq_iff (make_multi_key name ext) (make_multi_key page e),
      λ (k : make_multi_key name ext ≡ make_multi_key page e).
          make_multi_key_injective name ext page e l o.0 k,
    )

    other_kept :
        (page e : Bytes)
        → Belongs (name_to_key name) page
        → ref page e ≢ ref name ext
        → f' (make_multi_key page e) ≡ f (make_multi_key page e)
    other_kept page e o ne = ground (
      arith,
      at_multi page e,
      streq_iff (make_multi_key name ext) (make_multi_key page e),
      λ (k : make_multi_key name ext ≡ make_multi_key page e).
          make_multi_key_injective name ext page e l o.0 k,
    )

    is_local : IsLocal f f' (name_to_key name)
    is_local = IsLocal-of f f' (name_to_key name) (name_to_key-Lacks name l) λ j ne o. ground (
      arith,
      eff j,
      streq_iff (name_to_key name) j,
      streq_iff (make_multi_key name ext) j,
      o name ext (l, refl),
    )

    parsed :
        (page e : Bytes) → Belongs (name_to_key name) page → Parses (f' (make_multi_key page e))
    parsed page e o = subst Parses (sym (at_multi page e)) (
        Parses-if (streq (make_multi_key name ext) (make_multi_key page e)) none _ tt
          (g.parses page e o))

    gone : f' (make_multi_key name ext) ≡ none
    gone = ground (arith, at_multi name ext, streq_refl (make_multi_key name ext))

    not_some {ℓ} : {A : Type ℓ} (o : Option A) → is_some o ≡ false → o ≡ none
    not_some none k = refl
    not_some (some a) k = cc

    now : (zs : List NameExt) → ys ≡ zs → Group f' (name_to_key name) (situation (left_of zs))
    unfolding situation make_extensions_reference
    now [] e = λ page x o.
        not_some _
          (listed page x o ∙ ap (λ zs. contains zs (ref page x)) e ∙ unfold contains in refl)
    now (r ∷ refs) e = record {
      head = r;
      refs = refs;
      reads = refl;
      strict = subst IsStrict e (remove-IsStrict (ref name ext) _ ys h g.strict);
      lacks = subst (All LacksTab) e (remove-All LacksTab (ref name ext) _ ys h g.lacks);
      belongs =
          subst (All (λ q. Belongs (name_to_key name) q.name)) e
            (remove-All (λ q. Belongs (name_to_key name) q.name) (ref name ext) _ ys h g.belongs);
      listed = λ page x o. listed page x o ∙ ap (λ zs. contains zs (ref page x)) e;
      parses = parsed;
    }

    key_now : f' (name_to_key name) ≡ left_of ys
    key_now = ground (arith, eff (name_to_key name), streq_refl (name_to_key name))

    -- What the table says of the key's pages now.
    now_view :
        (zs : List NameExt)
        → ys ≡ zs
        → (page e : Bytes) → Belongs (name_to_key name) page
        → view f' page e ≡ pick (f' (make_multi_key page e)) page
    unfolding situation make_extensions_reference
    now_view [] k page e o =
        view_missing f' (name_to_key name) page e o.1 (rw (key_now, k) refl)
        ∙ ap (λ c. pick c page)
            (sym (
              not_some _ (
                listed page e o ∙ ap (λ zs. contains zs (ref page e)) k ∙ unfold contains in refl)))
    now_view (r ∷ refs) k page e o =
        view_several f' (name_to_key name) page e o.1 (body r refs) (rw (key_now, k) refl)

    pub several-Deleted : Deleted f f' name ext
    several-Deleted = record {
      group = rw key_now (now ys refl);
      here = now_view ys refl name ext (l, refl) ∙ rw gone refl;
      beside = λ page e o ne.
          now_view ys refl page e o
          ∙ ap (λ c. pick c page) (other_kept page e o ne)
          ∙ sym (view_several f (name_to_key name) page e o.1 content s);
      local = is_local;
    }
