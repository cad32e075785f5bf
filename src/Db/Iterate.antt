-- ===== src/Db/Iterate.antt =====
-- libdb/db_xdbm.c: the keys of a database in order, over the unordered iteration of gdbm or ndbm.
pub mod Compare
pub mod Sorted
pub mod Walk
use mandb.Base.{
  ℕ, zero, suc, ◌+◌, min, Bool, true, false, Option, none, some, List, [], ◌∷◌, ◌++◌, Bytes, ◌==◌,
  if◌then◌else◌, length, get_elem?, compare, Ordering,
}
use mandb.CString.{streq, or_else}

-- The sign of strncmp (a, b, n), on strings with their NUL.
unfoldable pub strncmp : ℕ → Bytes → Bytes → Ordering
strncmp zero a b = Ordering.eq
strncmp (suc n) (x ∷ a) (y ∷ b) =
    let rest = strncmp n a b in
    elim (compare x y) [
      | Ordering.lt ↦ Ordering.lt
      | Ordering.gt ↦ Ordering.gt
      | Ordering.eq ↦ if x == 0 then Ordering.eq else rest
    ]
strncmp (suc n) [] b = Ordering.eq
strncmp (suc n) (x ∷ a) [] = Ordering.eq

-- The bytes of a datum: the string and its NUL.
unfoldable pub datum : Bytes → Bytes
datum s = s ++ (0 ∷ [])

-- The sign of datum_compare, where `none` is the null pointer.
unfoldable pub datum_compare : Option Bytes → Option Bytes → Ordering
datum_compare none right = Ordering.gt
datum_compare (some a) none = Ordering.lt
datum_compare (some a) (some b) =
    or_else (strncmp (min (length (datum a)) (length (datum b))) (datum a) (datum b))
      (compare (length (datum b)) (length (datum a)))

unfoldable pub datum_equals : Bytes → Bytes → Bool
datum_equals a b = elim (datum_compare (some a) (some b)) [
  | Ordering.eq ↦ true
  | Ordering.lt ↦ false
  | Ordering.gt ↦ false
]

-- parent_keys: no map yet, or a map from the name of a file to its keys.
abbrev pub ParentKeys : Type 0
ParentKeys = Option (Bytes → Option (List Bytes))

unfoldable pub put_keys : Bytes → List Bytes → ParentKeys → ParentKeys
put_keys name keys none = some (λ n. if streq n name then some keys else none)
put_keys name keys (some m) = some (λ n. if streq n name then some keys else m n)

unfoldable pub first_of : List Bytes → Option Bytes
first_of [] = none
first_of (k ∷ keys) = some k

-- `sortedlist_search` is gl_sortedlist_search with datum_compare, which gives the index of a node.
module _ (sortedlist_search : Bytes → List Bytes → Option ℕ) where
  -- The node behind the one that is found.
  unfoldable pub next_of : Bytes → List Bytes → Option Bytes
  next_of key keys = elim (sortedlist_search key keys) [
    | none ↦ none
    | some i ↦ get_elem? keys (suc i)
  ]

  unfoldable pub man_xdbm_nextkey : Bytes → Bytes → ParentKeys → Option Bytes
  man_xdbm_nextkey name key none = none
  man_xdbm_nextkey name key (some m) = elim (m name) [ none ↦ none | some keys ↦ next_of key keys ]

unfoldable pub man_xdbm_free : Bytes → ParentKeys → ParentKeys
man_xdbm_free name none = none
man_xdbm_free name (some m) = some (λ n. if streq n name then none else m n)

module _ {D : Type 0} (unsorted_firstkey : D → Option Bytes)
    (unsorted_nextkey : D → Bytes → Option Bytes)
    (sortedlist_add : Bytes → List Bytes → List Bytes) where
  -- The loop over the unsorted keys, on fuel: the number of keys is enough.
  unfoldable pub collect : ℕ → D → Option Bytes → List Bytes → List Bytes
  collect zero d key keys = keys
  collect (suc f) d none keys = keys
  collect (suc f) d (some k) keys = collect f d (unsorted_nextkey d k) (sortedlist_add k keys)

  unfoldable pub man_xdbm_firstkey : ℕ → Bytes → D → ParentKeys → ParentKeys × Option Bytes
  man_xdbm_firstkey fuel name d parent_keys =
      let keys = collect fuel d (unsorted_firstkey d) [] in
      (put_keys name keys parent_keys, first_of keys)
