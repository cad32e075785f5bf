-- ===== src/Db/Group/Remaining.antt =====
-- dbdelete (libdb/db_delete.c) on a database all of whose keys hold consistent entries.
use mandb.Base.{
  true, false, none, some, ◌∷◌, Bytes, ◌≡◌, ◌≢◌, ◌⊎◌, inl, inr, refl, sym, ap, subst, ◌∙◌, arith,
  Bool, if◌then◌else◌, get_or, is_some, Option-cases, Bool-cases, ℕ,
}
use mandb.CString.{streq}
use mandb.CString.Compare.{streq_refl}
use mandb.Exit.{Outcome, done, fatal}
use mandb.Db.Record.{Mandata}
use mandb.Db.Refs.{name_to_key, make_multi_key, list_extensions}
use mandb.Db.Refs.Keys.{name_to_key-Lacks, simple-ne-multi}
use mandb.Db.Refs.Parse.{list_extensions-body}
use mandb.Db.Backend.{Backend, IsLawful}
use mandb.Db.Store.{Situation, missing, several, single, situation}
use mandb.Db.Delete.Remove.{remove_absent}
use mandb.Db.Delete.{remove, delete_several, delete_in, dbdelete}
use mandb.Db.Lookup.{named}
use mandb.Db.Group.{Contents, view, Group, IsSeveral, Parses, ref}
use mandb.Db.Group.View.{view_single, view_several_some}
use mandb.Db.Group.Deleted.{Deleted, single-Deleted}
use mandb.Db.Group.Delete.{keep_refs_lem, dbdelete-Deleted}
use mandb.Db.Version.{ver_key}
use mandb.Db.Group.Whole.{IsDb, IsPage, Shrinks, Shrinks-refl, IsDb-IsLocal, Deleted-Shrinks}

module _ (b : Backend) (law : IsLawful b) where
  open b use {Db, fetch, delete, exists, sortedlist_add}

  abbrev pub contents : Db → Contents
  contents d k = fetch k d

  -- What is promised of a deletion, whatever it finds.
  abbrev pub Ends : Db → Outcome Db ℕ → Type 0
  Ends d o =
      (ret : ℕ) × (d' : Db) × (o ≡ done ret d')
      × IsDb (contents d')
      × Shrinks (contents d) (contents d')

  -- The database that a run reaches.
  unfoldable pub after : Outcome Db ℕ → Db
  after (done ret d) = d
  after (fatal d) = d

  module _ (name : Bytes) (info : Mandata) (d : Db) (p : IsPage name) (h : IsDb (contents d)) where
    deletes :
        (d' : Db) (o : Outcome Db ℕ) (page ext : Bytes)
        → o ≡ done 0 d'
        → Deleted (contents d) (contents d') page ext
        → name_to_key page ≢ ver_key
        → Ends d o
    deletes d' o page ext e del n = (
      0,
      d',
      e,
      IsDb-IsLocal (contents d) (contents d') page del.group del.local n h,
      Deleted-Shrinks (contents d) (contents d') page ext del,
    )

    keeps : (o : Outcome Db ℕ) → o ≡ done 1 d → Ends d o
    keeps o e = (1, d, e, h, Shrinks-refl (contents d))

    ends_several :
        (content : Bytes)
        → situation (fetch (name_to_key name) d) ≡ several content
        → IsSeveral (contents d) (name_to_key name) content
        → view (contents d) name info.ext ≡ none
        → delete_several b name info.ext (name_to_key name) content d ≡ done 1 d
    unfolding delete_several
    ends_several content s g absent =
        let read : list_extensions sortedlist_add content ≡ g.head ∷ g.refs =
          ap (list_extensions sortedlist_add) g.reads
          ∙ list_extensions-body sortedlist_add g.head g.refs law.adds_in_order g.strict g.lacks in
        elim (Option-cases (fetch (make_multi_key name info.ext) d)) [
          | inl e ↦ ground (
            arith,
            ap (remove (ref name info.ext)) read,
            remove_absent (ref name info.ext) (g.head ∷ g.refs)
                (sym (g.listed name info.ext (p.tab_free, refl)) ∙ ap is_some e),
          )
          | inr (c, e) ↦
              let (m, q) = subst Parses e (g.parses name info.ext (p.tab_free, refl)) in
              absurd (
                ground (
                  arith,
                  absent,
                  view_several_some (contents d) (name_to_key name) name info.ext refl content c m s
                      e q,
                ))
        ]

    Ends-single :
        (content : Bytes)
        → situation (fetch (name_to_key name) d) ≡ single content
        → Group (contents d) (name_to_key name) (single content)
        → Ends d (done 0 (delete (name_to_key name) d))
    Ends-single content s g =
        let key = name_to_key name in
        let own = get_or key g.0.info.name in
        let d' = delete key d in
        let there : view (contents d) own g.0.info.ext ≡ some (named g.0.info own) =
          view_single (contents d) key own g.0.info.ext g.0.belongs.1 content g.0.info s g.0.parses
          ∙ rw (streq_refl own, streq_refl g.0.info.ext) refl in
        deletes d' (done 0 d') own g.0.info.ext refl
          (single-Deleted (contents d) (contents d') own g.0.info.ext g.0.belongs.0 content
            (named g.0.info own)
            (subst (λ k. situation (fetch k d) ≡ single content) (sym g.0.belongs.1) s)
            (subst (λ k. Group (contents d) k (single content)) (sym g.0.belongs.1) g).0
            (subst (λ k. Group (contents d) k (single content)) (sym g.0.belongs.1) g).1 there
            (λ j. law.delete_effect key d j ∙ rw g.0.belongs.1 refl))
          (λ k. p.other (sym g.0.belongs.1 ∙ k))

    Ends-in :
        (s : Situation)
        → situation (fetch (name_to_key name) d) ≡ s
        → Group (contents d) (name_to_key name) s
        → view (contents d) name info.ext ≡ none
        → Ends d (delete_in b s name info.ext (name_to_key name) d)
    unfolding delete_in
    Ends-in missing e g absent = keeps (done 1 d) refl
    Ends-in (single content) e g absent = Ends-single content e g
    Ends-in (several content) e g absent =
        keeps (delete_several b name info.ext (name_to_key name) content d)
          (ends_several content e g absent)

    -- Over a lawful store and on a consistent database with its version record, dbdelete ends without
    -- a fatal error, for any page whose name has no tab and is not that of the record, and any entry;
    -- the database is consistent again and has its version record, and what its table holds of a page
    -- is what it held, or nothing.
    pub dbdelete-IsDb : Ends d (dbdelete b name info d)
    unfolding dbdelete
    dbdelete-IsDb = elim (Option-cases (view (contents d) name info.ext)) [
      | inl absent ↦ Ends-in (situation (fetch (name_to_key name) d)) refl (h.groups name p) absent
      | inr (old, there) ↦
          let (d', e, del) =
            dbdelete-Deleted b law name info d old (h.groups name p) p.tab_free there in
          deletes d' _ name info.ext e del p.other
    ]

    -- A key of its own keeps its content, or goes.
    abbrev Entries : Db → Type 0
    Entries d' =
        (page ext : Bytes)
        → (fetch (make_multi_key page ext) d' ≡ none)
          ⊎ (fetch (make_multi_key page ext) d' ≡ fetch (make_multi_key page ext) d)

    removed_entry :
        (key : Bytes) (d' : Db) (x : Bool)
        → fetch key d' ≡ (if x then none else fetch key d)
        → (fetch key d' ≡ none) ⊎ (fetch key d' ≡ fetch key d)
    removed_entry key d' true e = inl e
    removed_entry key d' false e = inr e

    after_several :
        (content : Bytes)
        → Entries (after (delete_several b name info.ext (name_to_key name) content d))
    after_several content =
        let key = name_to_key name in
        let entry = make_multi_key name info.ext in
        let o = delete_several b name info.ext key content d in
        elim (Option-cases (remove (ref name info.ext) (list_extensions sortedlist_add content))) [
          | inl e ↦
              let same : d ≡ after o = unfold delete_several after in ground (arith, e) in
              subst Entries same (λ page ext. inr refl)
          | inr (ys, e) ↦ elim (Bool-cases (exists entry d)) [
            | inr k ↦
                let same : d ≡ after o = unfold delete_several after in ground (arith, e, k) in
                subst Entries same (λ page ext. inr refl)
            | inl k ↦
                let (d', h, eff) = keep_refs_lem b law name info d key ys (delete entry d) in
                let reached : d' ≡ after o =
                  unfold delete_several after in ground (arith, e, k, h) in
                subst Entries reached (λ page ext.
                  removed_entry (make_multi_key page ext) d' (streq entry (make_multi_key page ext))
                    (eff (make_multi_key page ext)
                      ∙ rw (simple-ne-multi key page ext (name_to_key-Lacks name p.tab_free))
                          (law.delete_effect entry d (make_multi_key page ext))))
          ]
        ]

    Entries-in :
        (s : Situation) → Entries (after (delete_in b s name info.ext (name_to_key name) d))
    unfolding delete_in after
    Entries-in missing page ext = inr refl
    Entries-in (several content) page ext = after_several content page ext
    Entries-in (single content) page ext =
        let key = name_to_key name in
        removed_entry (make_multi_key page ext) (delete key d) (streq key (make_multi_key page ext))
          (law.delete_effect key d (make_multi_key page ext))

    -- A key of its own keeps its content, or goes.
    pub dbdelete-Entries : Entries (after (dbdelete b name info d))
    unfolding dbdelete
    dbdelete-Entries = Entries-in (situation (fetch (name_to_key name) d))
