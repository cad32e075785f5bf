-- ===== src/Tests/Iterate.antt =====
-- Walking over a database of two keys, which its unordered iteration gives as ls and cat.
use mandb.Base.{
  ℕ, suc, Bool, true, false, Option, none, some, List, [], ◌∷◌, ◌++◌, Bytes, codes, ◌==◌, ◌+◌, ◌≤◌,
  ◌≡◌, ◌≢◌, refl, ap, arith, if◌then◌else◌, Ordering, All, Lacks, length, Bool-cases, inl, inr,
}
use mandb.CString.Compare.{streq_iff, strcmp-flip, strcmp_trans}
use mandb.Db.Iterate.{man_xdbm_firstkey, datum_compare, datum_equals}
use mandb.Db.Iterate.Compare.{datum_compare-strcmp, datum_equals_iff}
use mandb.Db.Iterate.Sorted.{times, Below, IsAscending, KeepsOrder, IsSortOf, All-parts}
use mandb.Db.Iterate.Walk.{end, more, walk, man_xdbm_firstkey-walk}

abbrev unsorted_first : ℕ → Option Bytes
unsorted_first d = some (codes "ls")

abbrev unsorted_next : ℕ → Bytes → Option Bytes
unsorted_next d [] = none
unsorted_next d (c ∷ s) = if c == b'l' then some (codes "cat") else none

abbrev is_lt : Ordering → Bool
is_lt Ordering.lt = true
is_lt _ = false

-- Insertion before the first key that is not less.
unfoldable add_sorted : Bytes → List Bytes → List Bytes
add_sorted k [] = k ∷ []
add_sorted k (j ∷ keys) =
    let rest = add_sorted k keys in
    if is_lt (datum_compare (some j) (some k)) then j ∷ rest else k ∷ j ∷ keys

-- The index of the first key that is equal.
unfoldable search_sorted : Bytes → List Bytes → Option ℕ
search_sorted k [] = none
search_sorted k (j ∷ keys) =
    let rest = search_sorted k keys in
    if datum_equals j k then some 0 else elim rest [ none ↦ none | some i ↦ some (suc i) ]

finds :
    (xs : List Bytes) (k : Bytes) (ys : List Bytes)
    → IsAscending (xs ++ (k ∷ ys))
    → All (Lacks 0) (xs ++ (k ∷ ys))
    → search_sorted k (xs ++ (k ∷ ys)) ≡ some (length xs)
unfolding search_sorted
finds [] k ys asc (lk, ls) = ground (arith, datum_equals_iff k k lk lk)
finds (x ∷ xs) k ys (low, asc) (lx, ls) =
    let (before, (here, later)) = All-parts (Below x) xs (k ∷ ys) low in
    let differs : datum_equals x k ≡ false = unfold datum_equals in ground (arith, here) in
    ground (arith, finds xs k ys asc ls, differs)

not_above :
    (k j : Bytes)
    → Lacks 0 k
    → Lacks 0 j
    → is_lt (datum_compare (some j) (some k)) ≡ false
    → datum_compare (some k) (some j) ≢ Ordering.gt
not_above k j lk lj e g =
    ground
      (arith, datum_compare-strcmp k j lk lj, datum_compare-strcmp j k lj lk, strcmp-flip k j, e, g)

none_above :
    (k j : Bytes) (keys : List Bytes)
    → Lacks 0 k
    → Lacks 0 j
    → All (Lacks 0) keys
    → datum_compare (some k) (some j) ≢ Ordering.gt
    → All (Below j) keys
    → All (λ z. datum_compare (some k) (some z) ≢ Ordering.gt) keys
none_above k j [] lk lj l n b = tt
none_above k j (z ∷ keys) lk lj (lz, ls) n (b, bs) = (
  (λ g. ground (
    arith,
    datum_compare-strcmp k j lk lj,
    datum_compare-strcmp j z lj lz,
    datum_compare-strcmp k z lk lz,
    strcmp_trans k j z,
    n,
    b,
    g,
  )),
  none_above k j keys lk lj ls n bs,
)

adds :
    (k : Bytes) (keys : List Bytes)
    → IsAscending keys
    → All (Lacks 0) keys
    → Lacks 0 k
    → (ys : List Bytes) × (zs : List Bytes) × (keys ≡ ys ++ zs)
      × (add_sorted k keys ≡ ys ++ (k ∷ zs))
      × All (λ y. datum_compare (some y) (some k) ≢ Ordering.gt) ys
      × All (λ z. datum_compare (some k) (some z) ≢ Ordering.gt) zs
unfolding add_sorted
adds k [] asc l lk = ([], [], refl, refl, tt, tt)
adds k (j ∷ keys) (low, asc) (lj, ls) lk =
    elim (Bool-cases (is_lt (datum_compare (some j) (some k)))) [
      | inl e ↦
          let (ys, zs, split, added, before, behind) = adds k keys asc ls lk in
          (
            j ∷ ys,
            zs,
            ap (◌∷◌ j) split,
            rw e (ap (◌∷◌ j) added),
            ((λ g. ground (arith, e, g)), before),
            behind,
          )
      | inr e ↦
          let n = not_above k j lk lj e in
          ([], j ∷ keys, refl, rw e refl, tt, (n, none_above k j keys lk lj ls n low))
    ]

keeps_order : KeepsOrder add_sorted search_sorted
keeps_order = record { adds = adds; finds = finds }

abbrev ls_and_cat : List Bytes
ls_and_cat = codes "ls" ∷ codes "cat" ∷ []

once : (j : Bytes) → times j ls_and_cat ≤ 1
unfolding times
once j = ground (arith, streq_iff (codes "ls") j, streq_iff (codes "cat") j)

man_xdbm_firstkey-walk_example :
    (keys : List Bytes) × IsSortOf ls_and_cat keys
    × (walk search_sorted
          (codes "index.db")
          (man_xdbm_firstkey unsorted_first unsorted_next add_sorted
            (suc 2 + 0)
            (codes "index.db")
            0
            none).0
          (length keys + 1)
          (man_xdbm_firstkey unsorted_first unsorted_next add_sorted
            (suc 2 + 0)
            (codes "index.db")
            0
            none).1
        ≡ keys)
man_xdbm_firstkey-walk_example =
    man_xdbm_firstkey-walk unsorted_first unsorted_next add_sorted search_sorted (codes "index.db")
      0 none ls_and_cat 0 1 keeps_order (more (more end)) (ground arith) once
