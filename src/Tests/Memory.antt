-- ===== src/Tests/Memory.antt =====
-- A key/value store in memory with the laws that libdb relies on: the first entry of a key counts.
use mandb.Base.{
  Bool, true, false, Option, none, some, List, [], ◌∷◌, ◌++◌, Bytes, if◌then◌else◌, is_some, get_or,
  ◌≡◌, refl, ap, arith, Ordering, All, Option-cases, inl, inr,
}
use mandb.Base.Int.{compare_ℤ}
use mandb.CString.{streq, or_else}
use mandb.CString.Compare.{streq_iff}
use mandb.Db.Refs.{NameExt, name_ext_compare}
use mandb.Db.Refs.Order.{insert, Le, AddsInOrder, name_ext_compare-flip, name_ext_compare_trans}
use mandb.Db.Backend.{Backend, IsLawful}

abbrev pub Table : Type 0
Table = List (Bytes × Bytes)

unfoldable pub find : Bytes → Table → Option Bytes
find k [] = none
find k ((j, v) ∷ t) = if streq j k then some v else find k t

unfoldable pub without : Bytes → Table → Table
without k [] = []
without k ((j, v) ∷ t) = let rest = without k t in if streq j k then rest else (j, v) ∷ rest

unfoldable pub add_new : Bytes → Bytes → Table → Table × Bool
unfolding find
add_new k v t = elim (find k t) [ none ↦ ((k, v) ∷ t, false) | some w ↦ (t, true) ]

abbrev pub memory : Backend
memory = record {
  Db = Table;
  fetch = find;
  insert = add_new;
  replace = λ k v t. ((k, v) ∷ t, false);
  delete = without;
  exists = λ k t. is_some (find k t);
  sortedlist_add = insert;
  timespec_cmp = λ a b. or_else (compare_ℤ a.tv_sec b.tv_sec) (compare_ℤ a.tv_nsec b.tv_nsec);
}

find-without :
    (k : Bytes) (t : Table) (j : Bytes)
    → find j (without k t) ≡ (if streq k j then none else find j t)
unfolding find without
find-without k [] j = ground arith
find-without k ((i, v) ∷ t) j =
    ground (arith, find-without k t j, streq_iff i k, streq_iff k j, streq_iff i j)

find-cons :
    (k v : Bytes) (t : Table) (j : Bytes)
    → find j ((k, v) ∷ t) ≡ (if streq k j then some v else find j t)
unfolding find
find-cons k v t j = refl

find-add_new :
    (k v : Bytes) (t : Table) (j : Bytes)
    → find j (add_new k v t).0 ≡ (if streq k j then some (get_or v (find k t)) else find j t)
unfolding add_new
find-add_new k v t j = elim (Option-cases (find k t)) [
  | inl e ↦ ground (arith, e, find-cons k v t j)
  | inr (w, e) ↦ ground (arith, e, streq_iff k j)
]

add_new_status : (k v : Bytes) (t : Table) → (add_new k v t).1 ≡ is_some (find k t)
unfolding add_new
add_new_status k v t = elim (Option-cases (find k t)) [
  | inl e ↦ ground (arith, e)
  | inr (w, e) ↦ ground (arith, e)
]

All-Le_trans : (x y : NameExt) (ys : List NameExt) → Le x y → All (Le y) ys → All (Le x) ys
All-Le_trans x y [] h hs = tt
All-Le_trans x y (z ∷ ys) h (k, ks) = (name_ext_compare_trans x y z h k, All-Le_trans x y ys h ks)

abbrev Placed : NameExt → List NameExt → List NameExt → Type 0
Placed x xs r =
    (ys : List NameExt) × (zs : List NameExt) × (xs ≡ ys ++ zs)
    × (r ≡ ys ++ (x ∷ zs))
    × All (λ y. Le y x) ys
    × All (Le x) zs

Placed-later :
    (x y : NameExt) (ys r : List NameExt) → Le y x → Placed x ys r → Placed x (y ∷ ys) (y ∷ r)
Placed-later x y ys r h (a, b, split, added, lower, upper) =
    (y ∷ a, b, ap (◌∷◌ y) split, ap (◌∷◌ y) added, (h, lower), upper)

Placed-here :
    (x y : NameExt) (ys : List NameExt) → Le x y → All (Le y) ys → Placed x (y ∷ ys) (x ∷ y ∷ ys)
Placed-here x y ys h hs = ([], y ∷ ys, refl, refl, tt, (h, All-Le_trans x y ys h hs))

insert-AddsInOrder : AddsInOrder insert
unfolding insert
insert-AddsInOrder x [] h = ([], [], refl, refl, tt, tt)
insert-AddsInOrder x (y ∷ ys) (h, hs) =
    by_order (name_ext_compare y x) refl (insert-AddsInOrder x ys hs)
  where
    by_order :
        (o : Ordering)
        → name_ext_compare y x ≡ o
        → Placed x ys (insert x ys)
        → Placed x (y ∷ ys) (elim o [ Ordering.lt ↦ y ∷ insert x ys | _ ↦ x ∷ y ∷ ys ])
    by_order Ordering.lt e rec = Placed-later x y ys (insert x ys) (ground (arith, e)) rec
    by_order Ordering.eq e rec = Placed-here x y ys (ground (arith, e, name_ext_compare-flip y x)) h
    by_order Ordering.gt e rec = Placed-here x y ys (ground (arith, e, name_ext_compare-flip y x)) h

pub memory-IsLawful : IsLawful memory
memory-IsLawful = record {
  insert_status = add_new_status;
  insert_effect = find-add_new;
  replace_status = λ k v d. refl;
  replace_effect = λ k v d j. find-cons k v d j;
  delete_effect = find-without;
  exists_lem = λ k d. refl;
  adds_in_order = insert-AddsInOrder;
  compares_times = λ a b. refl;
}
