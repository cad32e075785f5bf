-- ===== src/Db/Refs.antt =====
-- struct name_ext, the lists of them that stand in the content of a key with several pages, and the
-- keys: libdb/db_lookup.c and libdb/db_store.c.
pub mod Order
pub mod Keys
pub mod Parse
pub mod Insert
use mandb.Base.{
  ℕ, zero, suc, Bool, ◌&&◌, Option, none, some, List, [], ◌∷◌, ◌++◌, map, Bytes, length, Ordering,
}
use mandb.CString.{streq, strcmp, or_else, strsep, tolower}
use mandb.Db.Record.{tab}

pub record NameExt : Type 0 where
  pub name : Bytes
  pub ext : Bytes

unfoldable pub name_ext_equals : NameExt → NameExt → Bool
name_ext_equals a b = streq a.name b.name && streq a.ext b.ext

-- The sign of the result.
unfoldable pub name_ext_compare : NameExt → NameExt → Ordering
name_ext_compare a b = or_else (strcmp a.name b.name) (strcmp a.ext b.ext)

unfoldable pub make_multi_key : Bytes → Bytes → Bytes
make_multi_key page ext = page ++ (tab ∷ ext)

unfoldable pub name_to_key : Bytes → Bytes
unfolding tolower
name_to_key name = map tolower name

-- What gl_sortedlist_add does for the order above; it belongs to gnulib.
abbrev pub SortedAdd : Type 0
SortedAdd = NameExt → List NameExt → List NameExt

-- The loop of list_extensions; each round takes a name and an extension off `content`.
unfoldable pub extensions : SortedAdd → ℕ → Option Bytes → List NameExt → List NameExt
extensions add zero content refs = refs
extensions add (suc f) content refs = elim (strsep tab content) [
  | none ↦ refs
  | some (name, rest) ↦ elim (strsep tab rest) [
    | none ↦ refs
    | some (ext, rest') ↦ extensions add f rest' (add (record { name = name; ext = ext }) refs)
  ]
]

-- The text behind the leading tab. Each round takes a tab at least, or is the last or the last but
-- one, so the fuel is enough (Refs/Parse).
unfoldable pub list_extensions : SortedAdd → Bytes → List NameExt
unfolding extensions strsep
list_extensions add content = extensions add (suc (length content)) (some content) []

unfoldable pub make_extensions_reference : List NameExt → Bytes
make_extensions_reference [] = []
make_extensions_reference (r ∷ refs) =
    tab ∷ (r.name ++ (tab ∷ (r.ext ++ make_extensions_reference refs)))
