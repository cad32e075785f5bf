-- ===== src/Db/Iterate/Sorted.antt =====
-- The list of keys that man_xdbm_firstkey (libdb/db_xdbm.c) builds.
use mandb.Base.{
  ℕ, suc, ◌+◌, ◌≤◌, Option, some, List, [], ◌∷◌, ◌++◌, Bytes, if◌then◌else◌, length, Ordering, ◌≡◌,
  ◌≢◌, ◌∙◌, subst, sym, ap, arith, All, All-append, Lacks,
}
use mandb.CString.{streq}
use mandb.CString.Compare.{streq_refl, streq_iff, strcmp_eq}
use mandb.Db.Iterate.{datum_compare}
use mandb.Db.Iterate.Compare.{datum_compare-strcmp}

-- How often the key is in the list.
unfoldable pub times : Bytes → List Bytes → ℕ
times j [] = 0
times j (k ∷ keys) = let rest = times j keys in if streq k j then suc rest else rest

abbrev pub Below : Bytes → Bytes → Type 0
Below k j = datum_compare (some k) (some j) ≡ Ordering.lt

-- In ascending order, each key below all later ones.
abbrev pub IsAscending : List Bytes → Type 0
IsAscending [] = Unit {0}
IsAscending (k ∷ keys) = All (Below k) keys × IsAscending keys

-- What gnulib documents of gl_sortedlist_add and gl_sortedlist_search with datum_compare: in a list
-- in order the element is put at a position that keeps the order, and the node of an element is
-- found.
pub record KeepsOrder (add : Bytes → List Bytes → List Bytes)
    (search : Bytes → List Bytes → Option ℕ) : Type 0 where
  pub adds :
      (k : Bytes) (keys : List Bytes)
      → IsAscending keys
      → All (Lacks 0) keys
      → Lacks 0 k
      → (ys : List Bytes) × (zs : List Bytes) × (keys ≡ ys ++ zs)
        × (add k keys ≡ ys ++ (k ∷ zs))
        × All (λ y. datum_compare (some y) (some k) ≢ Ordering.gt) ys
        × All (λ z. datum_compare (some k) (some z) ≢ Ordering.gt) zs
  pub finds :
      (xs : List Bytes) (k : Bytes) (ys : List Bytes)
      → IsAscending (xs ++ (k ∷ ys))
      → All (Lacks 0) (xs ++ (k ∷ ys))
      → search k (xs ++ (k ∷ ys)) ≡ some (length xs)

times-append : (j : Bytes) (xs ys : List Bytes) → times j (xs ++ ys) ≡ times j xs + times j ys
unfolding times
times-append j [] ys = omega arith
times-append j (x ∷ xs) ys = ground (arith, times-append j xs ys)

times_middle :
    (j k : Bytes) (ys zs : List Bytes) → times j (ys ++ (k ∷ zs)) ≡ times j (k ∷ (ys ++ zs))
unfolding times
times_middle j k ys zs = ground (arith, times-append j ys (k ∷ zs), times-append j ys zs)

other_keys : (k : Bytes) (keys : List Bytes) → times k keys ≡ 0 → All (λ y. y ≢ k) keys
unfolding times
other_keys k [] h = tt
other_keys k (y ∷ keys) h =
    ((λ e. ground (arith, h, streq_iff y k, e)), other_keys k keys (ground (arith, h)))

pub All-parts : (P : Bytes → Type 0) (xs ys : List Bytes) → All P (xs ++ ys) → All P xs × All P ys
All-parts P [] ys h = (tt, h)
All-parts P (x ∷ xs) ys (h, hs) = let (a, b) = All-parts P xs ys hs in ((h, a), b)

below :
    (a b : Bytes)
    → Lacks 0 a
    → Lacks 0 b
    → a ≢ b
    → datum_compare (some a) (some b) ≢ Ordering.gt
    → Below a b
below a b la lb n g = ground (arith, datum_compare-strcmp a b la lb, strcmp_eq a b, n, g)

all_below :
    (k : Bytes) (ys : List Bytes)
    → Lacks 0 k
    → All (Lacks 0) ys
    → All (λ y. y ≢ k) ys
    → All (λ y. datum_compare (some y) (some k) ≢ Ordering.gt) ys
    → All (λ y. Below y k) ys
all_below k [] lk l n g = tt
all_below k (y ∷ ys) lk (l, ls) (n, ns) (g, gs) = (below y k l lk n g, all_below k ys lk ls ns gs)

all_above :
    (k : Bytes) (zs : List Bytes)
    → Lacks 0 k
    → All (Lacks 0) zs
    → All (λ z. z ≢ k) zs
    → All (λ z. datum_compare (some k) (some z) ≢ Ordering.gt) zs
    → All (Below k) zs
all_above k [] lk l n g = tt
all_above k (z ∷ zs) lk (l, ls) (n, ns) (g, gs) =
    (below k z lk l (λ e. n (sym e)) g, all_above k zs lk ls ns gs)

IsAscending-middle :
    (k : Bytes) (ys zs : List Bytes)
    → IsAscending (ys ++ zs)
    → All (λ y. Below y k) ys
    → All (Below k) zs
    → IsAscending (ys ++ (k ∷ zs))
IsAscending-middle k [] zs h b a = (a, h)
IsAscending-middle k (y ∷ ys) zs (h, hs) (b, bs) a =
    let (hy, hz) = All-parts (Below y) ys zs h in
    (All-append (Below y) ys (k ∷ zs) hy (b, hz), IsAscending-middle k ys zs hs bs a)

-- All of them put in order.
unfoldable pub add_all : (Bytes → List Bytes → List Bytes) → List Bytes → List Bytes → List Bytes
add_all add [] keys = keys
add_all add (k ∷ u) keys = add_all add u (add k keys)

-- The list is in order, and has the keys as often as they are given.
pub record IsSortOf (u keys : List Bytes) : Type 0 where
  pub ascending : IsAscending keys
  pub same : (j : Bytes) → times j keys ≡ times j u
  pub lacks : All (Lacks 0) keys

module _ (add : Bytes → List Bytes → List Bytes) (search : Bytes → List Bytes → Option ℕ)
    (law : KeepsOrder add search) where
  -- What is known of the keys that are still to be added, and those that are.
  record Sorting (u keys : List Bytes) : Type 0 where
    lacks_u : All (Lacks 0) u
    lacks_keys : All (Lacks 0) keys
    once : (j : Bytes) → times j u + times j keys ≤ 1
    ascending : IsAscending keys

  add-Sorting :
      (k : Bytes) (u keys : List Bytes)
      → Sorting (k ∷ u) keys
      → Sorting u (add k keys) × ((j : Bytes) → times j (add k keys) ≡ times j (k ∷ keys))
  unfolding times
  add-Sorting k u keys s =
      let (lk, lu) = s.lacks_u in
      let (ys, zs, split, added, before, behind) = law.adds k keys s.ascending s.lacks_keys lk in
      let same : (j : Bytes) → times j (add k keys) ≡ times j (k ∷ keys) =
        λ j. ap (times j) added ∙ times_middle j k ys zs ∙ ap (λ l. times j (k ∷ l)) (sym split) in
      let fresh : times k keys ≡ 0 = ground (arith, s.once k, streq_refl k) in
      let (ly, lz) = All-parts (Lacks 0) ys zs (subst (All (Lacks 0)) split s.lacks_keys) in
      let (ny, nz) =
        All-parts (λ y. y ≢ k) ys zs (subst (All (λ y. y ≢ k)) split (other_keys k keys fresh)) in
      (
        record {
          lacks_u = lu;
          lacks_keys =
              subst (All (Lacks 0)) (sym added) (All-append (Lacks 0) ys (k ∷ zs) ly (lk, lz));
          once = λ j. ground (arith, same j, s.once j);
          ascending = subst IsAscending (sym added) (
              IsAscending-middle k ys zs (subst IsAscending split s.ascending)
                (all_below k ys lk ly ny before) (all_above k zs lk lz nz behind));
        },
        same,
      )

  add_all-Sorting :
      (u keys : List Bytes)
      → Sorting u keys
      → IsAscending (add_all add u keys)
        × All (Lacks 0) (add_all add u keys)
        × ((j : Bytes) → times j (add_all add u keys) ≡ times j u + times j keys)
  unfolding add_all times
  add_all-Sorting [] keys s = (s.ascending, s.lacks_keys, λ j. omega arith)
  add_all-Sorting (k ∷ u) keys s =
      let (s', same) = add-Sorting k u keys s in
      let (asc, lacks, sum) = add_all-Sorting u (add k keys) s' in
      (asc, lacks, λ j. ground (arith, sum j, same j))

  pub add_all-IsSortOf :
      (u : List Bytes)
      → All (Lacks 0) u
      → ((j : Bytes) → times j u ≤ 1)
      → IsSortOf u (add_all add u [])
  unfolding times
  add_all-IsSortOf u l once =
      let (asc, lacks, sum) = add_all-Sorting u [] record {
        lacks_u = l;
        lacks_keys = tt;
        once = λ j. ground (arith, once j);
        ascending = tt;
      } in
      record { ascending = asc; same = λ j. ground (arith, sum j); lacks = lacks }
