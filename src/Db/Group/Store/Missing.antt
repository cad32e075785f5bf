-- ===== src/Db/Group/Store/Missing.antt =====
-- dbstore for a page whose key has no entry.
use mandb.Base.{some, Bytes, ◌≡◌, ◌≢◌, refl, arith, if◌then◌else◌, Lacks, []}
use mandb.CString.{streq}
use mandb.CString.Compare.{streq_iff, streq_refl}
use mandb.Db.Record.{Mandata, tab}
use mandb.Db.Record.RoundTrip.{IsStorable}
use mandb.Db.Refs.{name_to_key, make_multi_key}
use mandb.Db.Refs.Keys.{name_to_key-Lacks, simple-ne-multi}
use mandb.Db.Store.{missing, situation, unnamed}
use mandb.Db.Group.{Contents, NoMulti}
use mandb.Db.Group.Written.{content, written-IsGroup, written-view}
use mandb.Db.Group.View.{view_missing, IsLocal-of}
use mandb.Db.Group.Table.{Stored, entry}

module _ (f f' : Contents) (m : Mandata) (base : Bytes) where
  -- The simple key gets the content, and nothing else changes.
  pub missing-Stored :
      base ≢ []
      → Lacks tab base
      → IsStorable (unnamed m)
      → situation (f (name_to_key base)) ≡ missing
      → NoMulti f (name_to_key base)
      → ((j : Bytes) → f' j ≡ (if streq (name_to_key base) j then some (content m base) else f j))
      → Stored f f' m base (entry m base)
  missing-Stored ne l v s none_multi eff =
      let key = name_to_key base in
      let at_key : f' key ≡ some (content m base) = ground (arith, eff key, streq_refl key) in
      record {
        group = written-IsGroup m base ne l v f' at_key λ page ext o. ground (
          arith,
          eff (make_multi_key page ext),
          simple-ne-multi key page ext (name_to_key-Lacks base l),
          none_multi page ext o,
        );
        here = ground (
          arith,
          written-view m base ne l v f' at_key base m.ext refl,
          streq_refl base,
          streq_refl m.ext,
        );
        beside = λ page ext o n. ground (
          arith,
          written-view m base ne l v f' at_key page ext o.1,
          view_missing f key page ext o.1 s,
          streq_iff base page,
          streq_iff m.ext ext,
        );
        local =
            IsLocal-of f f' key (name_to_key-Lacks base l)
              λ j n o. ground (arith, eff j, streq_iff key j);
      }
