-- ===== src/Db/Refs/Order.antt =====
-- Laws of name_ext_compare and name_ext_equals (libdb/db_lookup.c), and insertion in that order.
use mandb.Base.{true, List, [], ◌∷◌, ◌++◌, ◌≡◌, ◌≢◌, ◌↔◌, arith, Ordering, All}
use mandb.CString.Compare.{streq_iff, strcmp_eq, strcmp-flip, strcmp_trans, flip}
use mandb.Db.Refs.{NameExt, name_ext_equals, name_ext_compare, SortedAdd}

pub name_ext_equals_iff : (a b : NameExt) → (name_ext_equals a b ≡ true) ↔ (a ≡ b)
unfolding name_ext_equals
name_ext_equals_iff a b = ground (arith, streq_iff a.name b.name, streq_iff a.ext b.ext)

pub name_ext_compare_eq : (a b : NameExt) → (name_ext_compare a b ≡ Ordering.eq) ↔ (a ≡ b)
unfolding name_ext_compare
name_ext_compare_eq a b = ground (arith, strcmp_eq a.name b.name, strcmp_eq a.ext b.ext)

pub name_ext_compare-flip : (a b : NameExt) → name_ext_compare b a ≡ flip (name_ext_compare a b)
unfolding name_ext_compare
name_ext_compare-flip a b = ground (arith, strcmp-flip a.name b.name, strcmp-flip a.ext b.ext)

pub name_ext_compare_trans :
    (a b c : NameExt)
    → name_ext_compare a b ≢ Ordering.gt
    → name_ext_compare b c ≢ Ordering.gt
    → name_ext_compare a c ≢ Ordering.gt
unfolding name_ext_compare
name_ext_compare_trans a b c h k = ground (
  arith,
  strcmp_trans a.name b.name c.name,
  strcmp_trans a.ext b.ext c.ext,
  strcmp_trans c.name a.name b.name,
  strcmp_trans b.name c.name a.name,
  strcmp_eq a.name b.name,
  strcmp_eq b.name c.name,
  strcmp_eq a.name c.name,
  strcmp-flip a.name c.name,
  strcmp-flip a.name b.name,
  strcmp-flip b.name c.name,
)

abbrev pub Le : NameExt → NameExt → Type 0
Le a b = name_ext_compare a b ≢ Ordering.gt

abbrev pub IsSorted : List NameExt → Type 0
IsSorted [] = Unit {0}
IsSorted (x ∷ xs) = All (Le x) xs × IsSorted xs

-- What gnulib documents of gl_sortedlist_add: in a sorted list the element is put at a position
-- that keeps the list sorted.
abbrev pub AddsInOrder : SortedAdd → Type 0
AddsInOrder add =
    (x : NameExt) (xs : List NameExt)
    → IsSorted xs
    → (ys : List NameExt) × (zs : List NameExt) × (xs ≡ ys ++ zs)
      × (add x xs ≡ ys ++ (x ∷ zs))
      × All (λ y. Le y x) ys
      × All (Le x) zs

-- Before the first element that is not less.
unfoldable pub insert : SortedAdd
insert x [] = x ∷ []
insert x (y ∷ ys) = elim (name_ext_compare y x) [ Ordering.lt ↦ y ∷ insert x ys | _ ↦ x ∷ y ∷ ys ]
