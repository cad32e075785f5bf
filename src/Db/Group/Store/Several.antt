-- ===== src/Db/Group/Store/Several.antt =====
-- dbstore for a page whose key has several entries.
use mandb.Base.{
  subst, Option, some, Bytes, ◌≡◌, ◌≢◌, refl, ap, sym, ◌∙◌, arith, if◌then◌else◌, Lacks,
}
use mandb.CString.{streq}
use mandb.CString.Compare.{streq_iff, streq_refl}
use mandb.Db.Record.{Mandata, tab, split_content, make_content, set_defaults}
use mandb.Db.Record.RoundTrip.{IsStorable, split_content-make_content}
use mandb.Db.Refs.{name_to_key, make_multi_key}
use mandb.Db.Refs.Keys.{name_to_key-Lacks, multi-ne-simple, make_multi_key_injective}
use mandb.Db.Ids.{ReplaceAction, replace_yes, replace_no, replace_fail}
use mandb.Db.Store.{several, situation, unnamed}
use mandb.Db.Store.Effect.{written}
use mandb.Db.Lookup.{named}
use mandb.Db.Group.{Contents, IsSeveral, Parses, ref}
use mandb.Db.Group.View.{view_several, IsLocal-of}
use mandb.Db.Group.Listed.{Parses-if}
use mandb.Db.Group.Table.{Stored, entry, chosen, unchanged-Stored}

module _ (f f' : Contents) (m : Mandata) (base : Bytes) where
  abbrev multi_key : Bytes
  multi_key = make_multi_key base m.ext

  abbrev pub multi_content : Bytes
  multi_content = (make_content (unnamed m)).1

  module _ (l : Lacks tab base) (v : IsStorable (unnamed m)) (refs_content : Bytes)
      (s : situation (f (name_to_key base)) ≡ several refs_content)
      (is_several : IsSeveral f (name_to_key base) refs_content) (old_content : Bytes)
      (old : Mandata) (found : f (make_multi_key base m.ext) ≡ some old_content)
      (parsed : split_content old_content ≡ some old) where
    made_parses : split_content multi_content ≡ some (set_defaults (unnamed m))
    made_parses = split_content-make_content (unnamed m) v

    key_kept :
        (a : Option Bytes)
        → ((j : Bytes) → f' j ≡ (if streq multi_key j then a else f j))
        → f' (name_to_key base) ≡ f (name_to_key base)
    key_kept a eff = ground (
      arith,
      eff (name_to_key base),
      multi-ne-simple (name_to_key base) base m.ext (name_to_key-Lacks base l),
    )

    -- Another page's key is another key.
    other_kept :
        (a : Option Bytes)
        → ((j : Bytes) → f' j ≡ (if streq multi_key j then a else f j))
        → (page ext : Bytes) → Lacks tab page
        → ref page ext ≢ ref base m.ext
        → f' (make_multi_key page ext) ≡ f (make_multi_key page ext)
    other_kept a eff page ext lp n = ground (
      arith,
      eff (make_multi_key page ext),
      streq_iff multi_key (make_multi_key page ext),
      λ (h : multi_key ≡ make_multi_key page ext).
          make_multi_key_injective base m.ext page ext l lp h,
    )

    multi_replaced :
        ((j : Bytes) → f' j ≡ (if streq multi_key j then some multi_content else f j))
        → Stored f f' m base (entry m base)
    multi_replaced eff =
        let key = name_to_key base in
        let at_multi : f' multi_key ≡ some multi_content =
          ground (arith, eff multi_key, streq_refl multi_key) in
        let s' : situation (f' key) ≡ several refs_content = rw (key_kept _ eff) s in
        record {
          group = rw s' (record {
            head = is_several.head;
            refs = is_several.refs;
            reads = is_several.reads;
            strict = is_several.strict;
            lacks = is_several.lacks;
            belongs = is_several.belongs;
            listed = λ page ext o. ground (
              arith,
              eff (make_multi_key page ext),
              is_several.listed page ext o,
              streq_iff multi_key (make_multi_key page ext),
              ap f,
              found,
            );
            parses = λ page ext o. subst Parses (sym (eff (make_multi_key page ext))) (
                Parses-if (streq multi_key (make_multi_key page ext)) (some multi_content) _
                  (set_defaults (unnamed m), made_parses) (is_several.parses page ext o));
          });
          here =
              view_several f' key base m.ext refl refs_content s'
              ∙ rw at_multi (rw made_parses refl);
          beside = λ page ext o n.
              view_several f' key page ext o.1 refs_content s'
              ∙ rw (other_kept _ eff page ext o.0 n)
                  (sym (view_several f key page ext o.1 refs_content s));
          local =
              IsLocal-of f f' key (name_to_key-Lacks base l)
                λ j n o. ground (arith, eff j, streq_iff multi_key j, o base m.ext (l, refl));
        }

    multi_kept :
        ((j : Bytes) → f' j ≡ (if streq multi_key j then some old_content else f j))
        → Stored f f' m base (named old base)
    multi_kept eff =
        unchanged-Stored f f' m base (named old base)
          (λ j. ground (arith, eff j, streq_iff multi_key j, ap f, found)) (rw s is_several)
          (view_several f (name_to_key base) base m.ext refl refs_content s
            ∙ rw found (rw parsed refl))

    -- The page is there: the two entries compete for its key.
    pub taken-Stored :
        (a : ReplaceAction)
        → ((j : Bytes)
            → f' j
              ≡ (if streq multi_key j then written a multi_content (some old_content) else f j))
        → Stored f f' m base (chosen a (entry m base) (named old base))
    taken-Stored replace_yes eff = multi_replaced eff
    taken-Stored replace_no eff = multi_kept eff
    taken-Stored replace_fail eff = multi_kept eff
