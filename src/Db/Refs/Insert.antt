-- ===== src/Db/Refs/Insert.antt =====
-- Insertion of a reference into a list in order.
use mandb.Base.{Bool, false, ◌||◌, List, [], ◌∷◌, ◌≡◌, refl, arith, Ordering, All}
use mandb.Db.Refs.{NameExt, name_ext_equals, name_ext_compare}
use mandb.Db.Refs.Order.{
  insert, name_ext_equals_iff, name_ext_compare_eq, name_ext_compare-flip, name_ext_compare_trans,
}
use mandb.Db.Refs.Parse.{Lt, IsStrict, NoneEqual}

unfoldable pub contains : List NameExt → NameExt → Bool
contains [] r = false
contains (x ∷ xs) r = name_ext_equals x r || contains xs r

pub contains-NoneEqual : (x : NameExt) (xs : List NameExt) → contains xs x ≡ false → NoneEqual x xs
unfolding contains
contains-NoneEqual x [] h = tt
contains-NoneEqual x (y ∷ ys) h = ground (arith, name_ext_equals_iff y x, contains-NoneEqual x ys)

pub insert_cons :
    (x : NameExt) (xs : List NameExt) → (y : NameExt) × (ys : List NameExt) × (insert x xs ≡ y ∷ ys)
unfolding insert
insert_cons x [] = (x, [], refl)
insert_cons x (y ∷ ys) = by_order (name_ext_compare y x) refl
  where
    by_order :
        (o : Ordering)
        → name_ext_compare y x ≡ o
        → (z : NameExt) × (zs : List NameExt) × (insert x (y ∷ ys) ≡ z ∷ zs)
    by_order Ordering.lt e = (y, insert x ys, ground (arith, e))
    by_order Ordering.eq e = (x, y ∷ ys, ground (arith, e))
    by_order Ordering.gt e = (x, y ∷ ys, ground (arith, e))

pub All-insert :
    (P : NameExt → Type 0) (x : NameExt) (xs : List NameExt) → P x → All P xs → All P (insert x xs)
unfolding insert
All-insert P x [] p h = (p, tt)
All-insert P x (y ∷ ys) p (h, hs) = ground (arith, All-insert P x ys p hs)

Lt_trans : (a b c : NameExt) → Lt a b → Lt b c → Lt a c
Lt_trans a b c h k = ground (
  arith,
  name_ext_compare_trans a b c,
  name_ext_compare_trans b c a,
  name_ext_compare_eq a c,
  name_ext_compare-flip a c,
  name_ext_compare-flip a b,
  name_ext_compare-flip b c,
)

All-Lt_trans : (x y : NameExt) (ys : List NameExt) → Lt x y → All (Lt y) ys → All (Lt x) ys
All-Lt_trans x y [] h k = tt
All-Lt_trans x y (z ∷ zs) h (k, ks) = (Lt_trans x y z h k, All-Lt_trans x y zs h ks)

pub insert-IsStrict :
    (x : NameExt) (xs : List NameExt) → IsStrict xs → NoneEqual x xs → IsStrict (insert x xs)
unfolding insert
insert-IsStrict x [] s n = (tt, tt)
insert-IsStrict x (y ∷ ys) (s, ss) (n, ns) = ground (
  arith,
  insert-IsStrict x ys ss ns,
  All-insert (Lt y) x ys,
  name_ext_compare_eq y x,
  name_ext_compare-flip y x,
  All-Lt_trans x y ys,
)

pub contains-insert :
    (x : NameExt) (xs : List NameExt) (r : NameExt)
    → contains (insert x xs) r ≡ (name_ext_equals x r || contains xs r)
unfolding contains insert
contains-insert x [] r = refl
contains-insert x (y ∷ ys) r = ground (arith, contains-insert x ys r)
