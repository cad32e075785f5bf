-- ===== src/Db/Version.antt =====
-- libdb/db_ver.c: the version identifier of a database.
use mandb.Base.{ℕ, false, none, some, Bytes, codes, if◌then◌else◌, ◌≡◌, arith}
use mandb.CString.{streq}
use mandb.CString.Compare.{streq_refl}
use mandb.Exit.{Outcome, done, fatal}
use mandb.Db.Backend.{Backend, IsLawful}

-- VER_KEY and VER_ID
abbrev pub ver_key : Bytes
ver_key = codes "$version$"

abbrev pub ver_id : Bytes
ver_id = codes "2.5.0"

module _ (b : Backend) where
  unfoldable pub dbver_rd : b.Db → ℕ
  dbver_rd d = elim (b.fetch ver_key d) [
    | none ↦ 1
    | some content ↦ if streq content ver_id then 0 else 1
  ]

  unfoldable pub dbver_wr : b.Db → Outcome b.Db (Unit {0})
  dbver_wr d =
      let (d', refused) = b.insert ver_key ver_id d in if refused then fatal d' else done tt d'

  -- Over a lawful store that has no version, dbver_wr succeeds, dbver_rd then accepts the
  -- database, and every other key is as it was.
  dbver_wr-dbver_rd :
      (law : IsLawful b) (d : b.Db) (j : Bytes)
      → b.fetch ver_key d ≡ none
      → streq ver_key j ≡ false
      → (dbver_wr d ≡ done tt (b.insert ver_key ver_id d).0)
        × (dbver_rd (b.insert ver_key ver_id d).0 ≡ 0)
        × b.fetch j (b.insert ver_key ver_id d).0 ≡ b.fetch j d
  unfolding dbver_wr dbver_rd
  dbver_wr-dbver_rd law d j absent other =
      let written : b.fetch ver_key (b.insert ver_key ver_id d).0 ≡ some ver_id =
        ground (arith, law.insert_effect ver_key ver_id d ver_key, streq_refl ver_key, absent) in
      (
        ground (arith, law.insert_status ver_key ver_id d, absent),
        ground (arith, written, streq_refl ver_id),
        ground (arith, law.insert_effect ver_key ver_id d j, other),
      )
