-- ===== src/Db/Group/Store/Same.antt =====
-- dbstore for a page whose key has one entry, for this page and extension.
use mandb.Base.{
  ◌&&◌, none, some, Bytes, ◌≡◌, ◌≢◌, refl, ap, ◌∙◌, arith, if◌then◌else◌, get_or, Lacks, [],
}
use mandb.CString.{streq}
use mandb.CString.Compare.{streq_iff, streq_refl}
use mandb.Db.Record.{Mandata, tab, split_content}
use mandb.Db.Record.RoundTrip.{IsStorable}
use mandb.Db.Refs.{name_to_key, make_multi_key}
use mandb.Db.Refs.Keys.{name_to_key-Lacks, simple-ne-multi}
use mandb.Db.Ids.{ReplaceAction, replace_yes, replace_no, replace_fail}
use mandb.Db.Store.{single, situation, unnamed}
use mandb.Db.Store.Effect.{written}
use mandb.Db.Lookup.{named}
use mandb.Db.Group.{Contents, view, IsSingle, NoMulti}
use mandb.Db.Group.Written.{content, written-IsGroup, written-view}
use mandb.Db.Group.View.{view_single, IsLocal-of}
use mandb.Db.Group.Table.{Stored, entry, chosen, unchanged-Stored}

module _ (f f' : Contents) (m : Mandata) (base : Bytes) where
  module _ (ne : base ≢ []) (l : Lacks tab base) (v : IsStorable (unnamed m)) (old_content : Bytes)
      (old : Mandata) (s : situation (f (name_to_key base)) ≡ single old_content)
      (is_single : IsSingle (name_to_key base) old_content)
      (none_multi : NoMulti f (name_to_key base)) (parsed : split_content old_content ≡ some old)
      (same_name : get_or (name_to_key base) old.name ≡ base) (same_ext : old.ext ≡ m.ext) where
    old_view :
        (page ext : Bytes)
        → name_to_key page ≡ name_to_key base
        → view f page ext
          ≡ (if streq base page && streq m.ext ext then some (named old page) else none)
    old_view page ext o =
        view_single f (name_to_key base) page ext o old_content old s parsed
        ∙ rw (same_name, same_ext) refl

    -- The new entry takes the simple key.
    replaced :
        ((j : Bytes) → f' j ≡ (if streq (name_to_key base) j then some (content m base) else f j))
        → Stored f f' m base (entry m base)
    replaced eff =
        let key = name_to_key base in
        let at_key : f' key ≡ some (content m base) = ground (arith, eff key, streq_refl key) in
        record {
          group = written-IsGroup m base ne l v f' at_key λ page ext o. ground (
            arith,
            eff (make_multi_key page ext),
            simple-ne-multi key page ext (name_to_key-Lacks base l),
            none_multi page ext o,
          );
          here = ground (
            arith,
            written-view m base ne l v f' at_key base m.ext refl,
            streq_refl base,
            streq_refl m.ext,
          );
          beside = λ page ext o n. ground (
            arith,
            written-view m base ne l v f' at_key page ext o.1,
            old_view page ext o.1,
            streq_iff base page,
            streq_iff m.ext ext,
          );
          local =
              IsLocal-of f f' key (name_to_key-Lacks base l)
                λ j n o. ground (arith, eff j, streq_iff key j);
        }

    kept :
        f (name_to_key base) ≡ some old_content
        → ((j : Bytes) → f' j ≡ (if streq (name_to_key base) j then some old_content else f j))
        → Stored f f' m base (named old base)
    kept found eff =
        unchanged-Stored f f' m base (named old base)
          (λ j. ground (arith, eff j, streq_iff (name_to_key base) j, ap f, found))
          (rw s (is_single, none_multi))
          (ground (arith, old_view base m.ext refl, streq_refl base, streq_refl m.ext))

    -- The two entries compete for the simple key.
    pub same-Stored :
        (a : ReplaceAction)
        → f (name_to_key base) ≡ some old_content
        → ((j : Bytes)
            → f' j ≡ (
                if streq (name_to_key base) j
                then written a (content m base) (some old_content)
                else f j))
        → Stored f f' m base (chosen a (entry m base) (named old base))
    same-Stored replace_yes found eff = replaced eff
    same-Stored replace_no found eff = kept found eff
    same-Stored replace_fail found eff = kept found eff
