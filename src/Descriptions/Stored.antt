-- ===== src/Descriptions/Stored.antt =====
-- A run of store_descriptions (src/descriptions_store.c) on a consistent database.
use mandb.Base.{Option, none, some, List, Bytes, ◌≡◌, All}
use mandb.Exit.{Outcome, done}
use mandb.Db.Record.{Mandata}
use mandb.Db.Backend.{Backend, IsLawful}
use mandb.Db.Group.{Contents}
use mandb.Db.Group.Whole.{IsDb}
use mandb.Descriptions.Store.{Traces}
use mandb.Descriptions.Fine.{AreTraces, Fine, FinePair}

module _ (b : Backend) (law : IsLawful b) (traces : Traces) (ok : AreTraces traces) where
  open b use {Db, fetch}

  abbrev held : Db → Contents
  held d k = fetch k d

  -- A run that ends without a fatal error, and whose database is consistent if its result is good.
  abbrev pub Ends : {A : Type 0} → (A → Type 0) → Outcome Db A → Type 0
  Ends {A} P o = (a : A) × (d' : Db) × (o ≡ done a d') × (P a → IsDb (held d'))

  AreRefs : Option (List (Mandata × Bytes)) → Db → Type 0
  AreRefs none d = Unit {0}
  AreRefs (some refs) d = IsDb (held d) × All FinePair refs

  abbrev EndsReal : Outcome Db (Option (List (Mandata × Bytes))) → Type 0
  EndsReal o = (r : Option (List (Mandata × Bytes))) × (d' : Db) × (o ≡ done r d') × AreRefs r d'
