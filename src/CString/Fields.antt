-- ===== src/CString/Fields.antt =====
-- Walks over the fields of a string by strsep and over its tokens by strtok.
use mandb.Base.{ℕ, List, [], ◌∷◌, Bytes, ◌≡◌, refl, arith, if◌then◌else◌, Lacks}
use mandb.CString.{has}

abbrev pub add_to_first : ℕ → List Bytes → List Bytes
add_to_first c [] = (c ∷ []) ∷ []
add_to_first c (s ∷ fields) = (c ∷ s) ∷ fields

-- What a loop of strsep (&p, seps) sees until `p` is NULL.
unfoldable pub fields : Bytes → Bytes → List Bytes
fields seps [] = [] ∷ []
fields seps (c ∷ s) =
    let rest = fields seps s in if has c seps then [] ∷ rest else add_to_first c rest

unfoldable pub nonempty : List Bytes → List Bytes
nonempty [] = []
nonempty ([] ∷ fields) = nonempty fields
nonempty ((c ∷ s) ∷ fields) = (c ∷ s) ∷ nonempty fields

-- What a loop of strtok (s, seps) sees: the fields that are not empty.
unfoldable pub tokens : Bytes → Bytes → List Bytes
tokens seps s = nonempty (fields seps s)

-- A string without a separator is its one field.
pub fields-Lacks : (sep : ℕ) (s : Bytes) → Lacks sep s → fields (sep ∷ []) s ≡ s ∷ []
unfolding fields has
fields-Lacks sep [] l = refl
fields-Lacks sep (c ∷ s) l = ground (arith, fields-Lacks sep s)
