-- ===== src/Db/Group/Store.antt =====
-- dbstore (libdb/db_store.c), the entries of a key and the table.
pub mod Missing
pub mod Same
pub mod Several
pub mod Fresh
pub mod Beside
pub mod Each
use mandb.Base.{
  ℕ, Bool, true, false, ◌&&◌, Option, none, some, Bytes, ◌≡◌, ◌≢◌, refl, sym, ap, subst, ◌∙◌, arith,
  [], ◌∷◌, if◌then◌else◌, get_or, Lacks, Bool-cases, Option-cases, inl, inr,
}
use mandb.CString.{streq}
use mandb.CString.Compare.{streq_iff, streq_refl, streq-eq_false}
use mandb.Exit.{Outcome, done, fatal, ◌>>=◌}
use mandb.Db.Record.{Mandata, tab, split_content, make_content, set_defaults}
use mandb.Db.Record.RoundTrip.{IsStorable}
use mandb.Db.Refs.{name_to_key, make_multi_key}
use mandb.Db.Refs.Keys.{make_multi_key_injective}
use mandb.Db.Ids.{TimeCmp, ReplaceAction, replace_yes, replace_no, replace_fail, replace_action}
use mandb.Db.Backend.{Backend, IsLawful}
use mandb.Db.Store.{
  Situation, missing, several, single, situation, with_name, unnamed, dbstore, store_in,
  store_single, store_same, store_beside, store_several, split_or_die, store_missing, store_several,
}
use mandb.Db.Store.Effect.{
  written, status, store_missing_lem, store_same_lem, store_several_taken, store_several_fresh,
  store_beside_lem,
}
use mandb.Db.Lookup.{named}
use mandb.Db.Group.{Contents, view, IsGroup, Group, IsSingle, IsSeveral, NoMulti, Parses, ref}
use mandb.Db.Group.View.{view_missing, view_single, view_several}
use mandb.Db.Group.Table.{Stored, entry, winner, chosen}
use mandb.Db.Group.Written.{made}
use Each.{contents, Promise, promise_missing, promise_same, promise_beside, promise_several}

situation-eq_single :
    (o : Option Bytes) (content : Bytes) → situation o ≡ single content → o ≡ some content
unfolding situation
situation-eq_single none content e = ground arith
situation-eq_single (some []) content e = ground arith
situation-eq_single (some (c ∷ s)) content e = ground arith

ret_of : {S : Type 0} → Outcome S (ℕ × Mandata) → ℕ
ret_of (done (ret, m) d) = ret
ret_of (fatal d) = 0

db_of : {S : Type 0} → S → Outcome S (ℕ × Mandata) → S
db_of d0 (done r d) = d
db_of d0 (fatal d) = d

module _ (b : Backend) (law : IsLawful b) where
  open b use {Db, fetch, timespec_cmp}

  module _ (m : Mandata) (base : Bytes) (d : Db) (ne : base ≢ []) (l : Lacks tab base)
      (v : IsStorable (unnamed m)) where
    abbrev f : Contents
    f = contents b law d

    single_same :
        (content : Bytes) (old : Mandata)
        → split_content content ≡ some old
        → (streq (get_or (name_to_key base) old.name) base && streq old.ext m.ext) ≡ true
        → store_single b (unnamed m) base (name_to_key base) content d
          ≡ store_same b (unnamed m) base (name_to_key base) old d
    unfolding store_single split_or_die
    single_same content old parsed same = ground arith

    pub single_other :
        (content : Bytes) (old : Mandata)
        → split_content content ≡ some old
        → (streq (get_or (name_to_key base) old.name) base && streq old.ext m.ext) ≡ false
        → store_single b (unnamed m) base (name_to_key base) content d
          ≡ store_beside b
              (unnamed m)
              base
              (name_to_key base)
              (get_or (name_to_key base) old.name)
              old
              d
    unfolding store_single split_or_die
    single_other content old parsed other = ground arith

    promise_single :
        (content : Bytes)
        → f (name_to_key base) ≡ some content
        → situation (f (name_to_key base)) ≡ single content
        → (g : IsSingle (name_to_key base) content) → NoMulti f (name_to_key base)
        → Promise b law m base d (store_single b (unnamed m) base (name_to_key base) content d)
    promise_single content found s g n =
        let old_name = get_or (name_to_key base) g.info.name in
        elim (Bool-cases (streq old_name base && streq g.info.ext m.ext)) [
          | inl same ↦
              subst (Promise b law m base d) (sym (single_same content g.info g.parses same)) (
                promise_same b law m base d ne l v content found s g n
                  (ground (arith, streq_iff old_name base))
                  (ground (arith, streq_iff g.info.ext m.ext)))
          | inr other ↦
              subst (Promise b law m base d) (sym (single_other content g.info g.parses other)) (
                promise_beside b law m base d ne l v content s g n
                  (ground (arith, streq_iff old_name base, streq_iff g.info.ext m.ext)))
        ]

    promise_at :
        (t : Situation)
        → situation (f (name_to_key base)) ≡ t
        → Group f (name_to_key base) t
        → Promise b law m base d (store_in b t (unnamed m) base (name_to_key base) d)
    unfolding store_in
    promise_at missing s g = promise_missing b law m base d ne l v s g
    promise_at (several content) s g = promise_several b law m base d ne l v content s g
    promise_at (single content) s g =
        promise_single content (situation-eq_single (f (name_to_key base)) content s) s g.0 g.1

    pub dbstore_eq :
        dbstore b m base d
        ≡ store_in b (situation (f (name_to_key base))) (unnamed m) base (name_to_key base) d
    unfolding dbstore
    dbstore_eq = by_base base ne
      where
        by_base :
            (c : Bytes)
            → c ≢ []
            → dbstore b m c d
              ≡ store_in b (situation (f (name_to_key c))) (unnamed m) c (name_to_key c) d
        by_base [] n = absurd (n refl)
        by_base (x ∷ c) n = refl

    dbstore_promise : IsGroup f (name_to_key base) → Promise b law m base d (dbstore b m base d)
    dbstore_promise g =
        subst (Promise b law m base d) (sym dbstore_eq)
          (promise_at (situation (f (name_to_key base))) refl g)

    -- Over a lawful store, for a page whose name is not empty and has no tab, a record that can be
    -- stored, and a key whose entries are consistent, dbstore comes to an end without a fatal
    -- error.
    pub dbstore_total :
        IsGroup f (name_to_key base)
        → (ret : ℕ) × (m' : Mandata) × (d' : Db) × (dbstore b m base d ≡ done (ret, m') d')
    dbstore_total g = let (ret, m', d', e, h) = dbstore_promise g in (ret, m', d', e)

    -- Over a lawful store, for a page whose name is not empty and has no tab, a record that can be
    -- stored, and a key whose entries are consistent: where dbstore returns 0, the entries are
    -- consistent again, the table holds for the page and its extension the new entry or the old
    -- one as replace_if_necessary prefers, and all else that the table holds is unchanged.
    pub dbstore-Stored :
        (m' : Mandata) (d' : Db)
        → IsGroup f (name_to_key base)
        → dbstore b m base d ≡ done (0, m') d'
        → Stored f
            (contents b law d')
            m
            base
            (winner timespec_cmp (entry m base) (view f base m.ext))
    unfolding dbstore_promise ret_of db_of
    dbstore-Stored m' d' g e =
        let (ret, m2, d2, e2, h) = dbstore_promise g in
        let same : done (ret, m2) d2 ≡ done (0, m') d' = sym e2 ∙ e in
        let zero_ret : ret ≡ 0 = ap ret_of same in
        let same_db : d2 ≡ d' = ap (db_of d) same in
        subst
          (λ x.
            Stored f (contents b law x) m base
              (winner timespec_cmp (entry m base) (view f base m.ext)))
          same_db (h zero_ret)
