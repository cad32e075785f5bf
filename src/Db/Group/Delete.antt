-- ===== src/Db/Group/Delete.antt =====
-- dbdelete over a key whose entries are consistent.
use mandb.Base.{
  ℕ, some, List, [], ◌∷◌, Bytes, ◌≡◌, refl, ap, ◌∙◌, arith, if◌then◌else◌, Lacks, Option-cases, inl,
  inr,
}
use mandb.CString.{streq}
use mandb.Exit.{Outcome, done}
use mandb.Db.Record.{Mandata, tab}
use mandb.Db.Refs.{NameExt, name_to_key, make_multi_key, list_extensions, make_extensions_reference}
use mandb.Db.Refs.Parse.{list_extensions-body}
use mandb.Db.Backend.{Backend, IsLawful}
use mandb.Db.Store.{Situation, missing, several, single, situation}
use mandb.Db.Store.Effect.{replace_or_die_lem}
use mandb.Db.Delete.Remove.{remove-none}
use mandb.Db.Delete.{remove, keep_refs, delete_several, delete_in, dbdelete}
use mandb.Db.Group.{Contents, view, Group, IsGroup, IsSeveral, ref}
use mandb.Db.Group.View.{view_missing, view_several_none}
use mandb.Db.Group.Deleted.{Deleted, left_of, single-Deleted, several-Deleted}

module _ (b : Backend) (law : IsLawful b) where
  open b use {Db, fetch, delete, exists, replace, sortedlist_add}

  abbrev pub contents : Db → Contents
  contents d k = fetch k d

  module _ (name : Bytes) (info : Mandata) (d : Db) where
    pub keep_refs_lem :
        (key : Bytes) (refs : List NameExt) (d : Db)
        → (d' : Db) × (keep_refs b key refs d ≡ done 0 d')
          × ((j : Bytes) → fetch j d' ≡ (if streq key j then left_of refs else fetch j d))
    unfolding keep_refs
    keep_refs_lem key [] d = (delete key d, refl, law.delete_effect key d)
    keep_refs_lem key (r ∷ refs) d =
        let text = make_extensions_reference (r ∷ refs) in
        (
          (replace key text d).0,
          ground (arith, replace_or_die_lem b law key text d),
          law.replace_effect key text d,
        )

    -- What is promised of a run for an entry that is there.
    abbrev pub Promise : Outcome Db ℕ → Type 0
    Promise o = (d' : Db) × (o ≡ done 0 d') × Deleted (contents d) (contents d') name info.ext

    promise_removed :
        (content c : Bytes) (ys : List NameExt)
        → situation (fetch (name_to_key name) d) ≡ several content
        → (g : IsSeveral (contents d) (name_to_key name) content) → Lacks tab name
        → fetch (make_multi_key name info.ext) d ≡ some c
        → remove (ref name info.ext) (g.head ∷ g.refs) ≡ some ys
        → Promise (delete_several b name info.ext (name_to_key name) content d)
    unfolding delete_several
    promise_removed content c ys s g l found removed =
        let key = name_to_key name in
        let multi_key = make_multi_key name info.ext in
        let (d', e, eff) = keep_refs_lem key ys (delete multi_key d) in
        let read : list_extensions sortedlist_add content ≡ g.head ∷ g.refs =
          ap (list_extensions sortedlist_add) g.reads
          ∙ list_extensions-body sortedlist_add g.head g.refs law.adds_in_order g.strict g.lacks in
        (
          d',
          ground (
            arith,
            ap (remove (ref name info.ext)) read ∙ removed,
            law.exists_lem multi_key d,
            found,
            e,
          ),
          several-Deleted (contents d) (contents d') name info.ext l content s g ys removed
              (λ j. eff j ∙ ground (arith, law.delete_effect multi_key d j)),
        )

    promise_several :
        (content : Bytes) (old : Mandata)
        → situation (fetch (name_to_key name) d) ≡ several content
        → IsSeveral (contents d) (name_to_key name) content
        → Lacks tab name
        → view (contents d) name info.ext ≡ some old
        → Promise (delete_several b name info.ext (name_to_key name) content d)
    promise_several content old s g l there =
        elim (Option-cases (fetch (make_multi_key name info.ext) d)) [
          | inl absent ↦ absurd (
              ground (
                arith,
                there,
                view_several_none (contents d) (name_to_key name) name info.ext refl content s
                    absent,
              ))
          | inr (c, found) ↦ elim (Option-cases (remove (ref name info.ext) (g.head ∷ g.refs))) [
            | inl e ↦ absurd (
                ground (
                  arith,
                  found,
                  g.listed name info.ext (l, refl),
                  remove-none (ref name info.ext) (g.head ∷ g.refs) e,
                ))
            | inr (ys, e) ↦ promise_removed content c ys s g l found e
          ]
        ]

    promise_in :
        (t : Situation) (old : Mandata)
        → situation (fetch (name_to_key name) d) ≡ t
        → Group (contents d) (name_to_key name) t
        → Lacks tab name
        → view (contents d) name info.ext ≡ some old
        → Promise (delete_in b t name info.ext (name_to_key name) d)
    unfolding delete_in
    promise_in missing old s g l there =
        absurd
          (ground (arith, there, view_missing (contents d) (name_to_key name) name info.ext refl s))
    promise_in (single content) old s g l there =
        let key = name_to_key name in
        (
          delete key d,
          refl,
          single-Deleted (contents d) (contents (delete key d)) name info.ext l content old s g.0
              g.1 there (law.delete_effect key d),
        )
    promise_in (several content) old s g l there = promise_several content old s g l there

    -- Over a lawful store, for a page without a tab in its name that the table has, and a key
    -- whose entries are consistent, dbdelete ends with 0 and no fatal error; the entries are
    -- consistent again, the page's entry is gone, and all else that the table holds is unchanged.
    pub dbdelete-Deleted :
        (old : Mandata)
        → IsGroup (contents d) (name_to_key name)
        → Lacks tab name
        → view (contents d) name info.ext ≡ some old
        → Promise (dbdelete b name info d)
    unfolding dbdelete
    dbdelete-Deleted old g = promise_in (situation (fetch (name_to_key name) d)) old refl g
