-- ===== src/Db/Backend.antt =====
-- What libdb uses of gdbm (the macros MYDBM_* of libdb/mydbm.h, for GDBM) and of gnulib's sorted
-- lists. A datum is the string in it: each has its terminating NUL counted in.
use mandb.Base.{Bool, false, Option, none, some, Bytes, ◌≡◌, if◌then◌else◌, is_some, get_or}
use mandb.CString.{streq}
use mandb.Db.Ids.{TimeCmp, ComparesTimes}
use mandb.Db.Refs.{SortedAdd}
use mandb.Db.Refs.Order.{AddsInOrder}

pub record Backend : Type 1 where
  pub Db : Type 0
  pub fetch : Bytes → Db → Option Bytes
  -- The Boolean is whether gdbm_store returned a value other than 0.
  pub insert : Bytes → Bytes → Db → Db × Bool
  pub replace : Bytes → Bytes → Db → Db × Bool
  pub delete : Bytes → Db → Db
  pub exists : Bytes → Db → Bool
  pub sortedlist_add : SortedAdd
  pub timespec_cmp : TimeCmp

-- The manual of gdbm, for a file that is open for writing: GDBM_INSERT refuses a key that is there
-- and changes nothing, and GDBM_REPLACE overwrites it.
pub record IsLawful (b : Backend) : Type 0 where
  pub insert_status : (k v : Bytes) (d : b.Db) → (b.insert k v d).1 ≡ is_some (b.fetch k d)
  pub insert_effect :
      (k v : Bytes) (d : b.Db) (j : Bytes)
      → b.fetch j (b.insert k v d).0
        ≡ (if streq k j then some (get_or v (b.fetch k d)) else b.fetch j d)
  pub replace_status : (k v : Bytes) (d : b.Db) → (b.replace k v d).1 ≡ false
  pub replace_effect :
      (k v : Bytes) (d : b.Db) (j : Bytes)
      → b.fetch j (b.replace k v d).0 ≡ (if streq k j then some v else b.fetch j d)
  pub delete_effect :
      (k : Bytes) (d : b.Db) (j : Bytes)
      → b.fetch j (b.delete k d) ≡ (if streq k j then none else b.fetch j d)
  pub exists_lem : (k : Bytes) (d : b.Db) → b.exists k d ≡ is_some (b.fetch k d)
  pub adds_in_order : AddsInOrder b.sortedlist_add
  pub compares_times : ComparesTimes b.timespec_cmp
