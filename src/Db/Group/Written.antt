-- ===== src/Db/Group/Written.antt =====
-- A key whose one entry dbstore has written.
use mandb.Base.{◌&&◌, none, some, Bytes, ◌≡◌, ◌≢◌, refl, arith, if◌then◌else◌, get_or, Lacks, []}
use mandb.CString.{streq}
use mandb.CString.Compare.{streq_iff}
use mandb.Db.Record.{Mandata, tab, split_content, make_content, set_defaults}
use mandb.Db.Record.RoundTrip.{IsStorable, or_dash-Lacks, split_content-make_content}
use mandb.Db.Refs.{name_to_key}
use mandb.Db.Store.{single, situation, with_name, unnamed}
use mandb.Db.Lookup.{named}
use mandb.Db.Group.{Contents, view, IsGroup, NoMulti}
use mandb.Db.Group.Content.{
  situation-make_content, with_name-IsStorable, with_name-ne-nil, with_name_lem,
}
use mandb.Db.Group.View.{view_single}
use mandb.Db.Group.Table.{entry}

module _ (m : Mandata) (base : Bytes) where
  -- The record as it is written, and its content.
  abbrev pub made : Mandata
  made = with_name (unnamed m) base (name_to_key base)

  abbrev pub content : Bytes
  content = (make_content made).1

  made-parts :
      (get_or (name_to_key base) made.name ≡ base)
      × (made.ext ≡ m.ext)
      × ((page : Bytes) → base ≡ page → named (set_defaults made) page ≡ entry m page)
  unfolding with_name
  made-parts = (
    with_name_lem (unnamed m) base (name_to_key base) refl,
    ground arith,
    λ page e. ground (arith, streq_iff base (name_to_key base)),
  )

  module _ (ne : base ≢ []) (l : Lacks tab base) (v : IsStorable (unnamed m)) where
    parsed : split_content content ≡ some (set_defaults made)
    parsed = split_content-make_content made (with_name-IsStorable m base l v)

    module _ (f : Contents) (at_key : f (name_to_key base) ≡ some content) where
      is_single : situation (f (name_to_key base)) ≡ single content
      is_single = rw at_key (
          situation-make_content made (with_name-IsStorable m base l v)
            (with_name-ne-nil m base ne))

      made-IsStorable : IsStorable (unnamed (set_defaults made))
      made-IsStorable =
          let w = with_name-IsStorable m base l v in
          record {
            name_tab = tt;
            name_dash = v.name_dash;
            ext_tab = w.ext_tab;
            sec_tab = w.sec_tab;
            id_tab = w.id_tab;
            id_nul = w.id_nul;
            pointer_tab = or_dash-Lacks made.pointer w.pointer_tab;
            filter_tab = or_dash-Lacks made.filter w.filter_tab;
            comp_tab = or_dash-Lacks made.comp w.comp_tab;
            sec_long = w.sec_long;
            nsec_long = w.nsec_long;
          }

      pub written-IsGroup : NoMulti f (name_to_key base) → IsGroup f (name_to_key base)
      written-IsGroup n = rw is_single (
        record {
          info = set_defaults made;
          parses = parsed;
          belongs = rw (made-parts.0) (l, refl);
          storable = made-IsStorable;
          complete = refl;
        },
        n,
      )

      pub written-view :
          (page ext : Bytes)
          → name_to_key page ≡ name_to_key base
          → view f page ext
            ≡ (if streq base page && streq m.ext ext then some (entry m page) else none)
      written-view page ext o = ground (
        arith,
        view_single f (name_to_key base) page ext o content (set_defaults made) is_single parsed,
        made-parts.0,
        made-parts.1,
        made-parts.2 page,
        streq_iff base page,
      )
