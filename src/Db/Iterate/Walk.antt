-- ===== src/Db/Iterate/Walk.antt =====
-- Walking over a database by man_xdbm_firstkey and man_xdbm_nextkey.
use mandb.Base.{
  ℕ, zero, suc, ◌+◌, ◌≤◌, Option, none, some, List, [], ◌∷◌, ◌++◌, Bytes, length, get_elem?, ◌≡◌,
  ◌∙◌, subst, refl, sym, ap, arith, All, Lacks, append_assoc,
}
use mandb.CString.Compare.{streq_refl}
use mandb.Db.Iterate.{
  ParentKeys, put_keys, first_of, next_of, man_xdbm_nextkey, collect, man_xdbm_firstkey,
}
use mandb.Db.Iterate.Sorted.{times, IsAscending, KeepsOrder, IsSortOf, add_all, add_all-IsSortOf}

-- The keys that man_xdbm_nextkey gives from `key` on, at most `fuel`.
unfoldable pub walk :
    (Bytes → List Bytes → Option ℕ) → Bytes → ParentKeys → ℕ → Option Bytes → List Bytes
walk search name parent_keys zero key = []
walk search name parent_keys (suc f) none = []
walk search name parent_keys (suc f) (some key) =
    key ∷ walk search name parent_keys f (man_xdbm_nextkey search name key parent_keys)

suc-plus : (a n : ℕ) → suc a + n ≡ suc (a + n)
suc-plus a n = omega arith

get_elem-behind :
    (xs : List Bytes) (k : Bytes) (ys : List Bytes)
    → get_elem? (xs ++ (k ∷ ys)) (suc (length xs)) ≡ first_of ys
unfolding first_of
get_elem-behind [] k [] = refl
get_elem-behind [] k (y ∷ ys) = refl
get_elem-behind (x ∷ xs) k ys = get_elem-behind xs k ys

walk-none :
    (search : Bytes → List Bytes → Option ℕ) (name : Bytes) (pk : ParentKeys) (n : ℕ)
    → walk search name pk n none ≡ []
unfolding walk
walk-none search name pk zero = refl
walk-none search name pk (suc n) = refl

nextkey_found :
    (search : Bytes → List Bytes → Option ℕ) (name key : Bytes) (m : Bytes → Option (List Bytes))
    (keys : List Bytes)
    → m name ≡ some keys
    → man_xdbm_nextkey search name key (some m) ≡ next_of search key keys
unfolding man_xdbm_nextkey
nextkey_found search name key m keys e = ground (arith, e)

walk_step :
    (search : Bytes → List Bytes → Option ℕ) (name : Bytes) (pk : ParentKeys) (a n : ℕ) (k : Bytes)
    → walk search name pk (suc a + n) (some k)
      ≡ k ∷ walk search name pk (a + n) (man_xdbm_nextkey search name k pk)
unfolding walk
walk_step search name pk a n k = rw (suc-plus a n) refl

module _ (add : Bytes → List Bytes → List Bytes) (search : Bytes → List Bytes → Option ℕ)
    (law : KeepsOrder add search) where
  -- A list before `k`, and what is behind it.
  next_of-append :
      (xs : List Bytes) (k : Bytes) (ys : List Bytes)
      → IsAscending (xs ++ (k ∷ ys))
      → All (Lacks 0) (xs ++ (k ∷ ys))
      → next_of search k (xs ++ (k ∷ ys)) ≡ first_of ys
  unfolding next_of
  next_of-append xs k ys asc lacks =
      ground (arith, law.finds xs k ys asc lacks, get_elem-behind xs k ys)

  walk-rest :
      (name : Bytes) (m : Bytes → Option (List Bytes)) (xs ys : List Bytes) (n : ℕ)
      → m name ≡ some (xs ++ ys)
      → IsAscending (xs ++ ys)
      → All (Lacks 0) (xs ++ ys)
      → walk search name (some m) (length ys + n) (first_of ys) ≡ ys
  unfolding first_of
  walk-rest name m xs [] n e asc lacks = walk-none search name (some m) (0 + n)
  walk-rest name m xs (k ∷ ys) n e asc lacks =
      let next : man_xdbm_nextkey search name k (some m) ≡ first_of ys =
        nextkey_found search name k m (xs ++ (k ∷ ys)) e ∙ next_of-append xs k ys asc lacks in
      let same : xs ++ (k ∷ ys) ≡ (xs ++ (k ∷ [])) ++ ys = sym (append_assoc xs (k ∷ []) ys) in
      walk_step search name (some m) (length ys) n k
      ∙ ap (◌∷◌ k) (
          ap (walk search name (some m) (length ys + n)) next
          ∙ walk-rest name m (xs ++ (k ∷ [])) ys n (e ∙ ap some same) (subst IsAscending same asc)
              (subst (All (Lacks 0)) same lacks))

-- The keys that the unordered iteration gives from `key` on.
pub data Gives {D : Type 0} (next : D → Bytes → Option Bytes) (d : D)
    : Option Bytes → List Bytes → Type 0 where
  end : Gives next d none []
  more : {k : Bytes} {u : List Bytes} → Gives next d (next d k) u → Gives next d (some k) (k ∷ u)

collect-add_all :
    {D : Type 0} (first : D → Option Bytes) (next : D → Bytes → Option Bytes)
    (add : Bytes → List Bytes → List Bytes) (d : D) (o : Option Bytes) (u keys : List Bytes) (n : ℕ)
    → Gives next d o u
    → collect first next add (suc (length u) + n) d o keys ≡ add_all add u keys
unfolding collect add_all
collect-add_all first next add d none [] keys n end = rw (suc-plus 0 n) refl
collect-add_all first next add d none (k ∷ u) keys n g = elim g [ ]
collect-add_all first next add d (some k) [] keys n g = elim g [ ]
collect-add_all first next add d (some k) (k' ∷ u) keys n (more g) =
    rw (suc-plus (suc (length u)) n)
      (collect-add_all first next add d (next d k) u (add k keys) n g)

put_keys-found :
    (name : Bytes) (keys : List Bytes) (pk : ParentKeys)
    → (m : Bytes → Option (List Bytes)) × (put_keys name keys pk ≡ some m) × (m name ≡ some keys)
unfolding put_keys
put_keys-found name keys none = (_, refl, ground (arith, streq_refl name))
put_keys-found name keys (some m) = (_, refl, ground (arith, streq_refl name))

-- Where gnulib's sorted lists keep their order, and the unordered iteration of a database gives the
-- keys `u`, none twice and none with a NUL in it, there is a list of just these keys in ascending
-- order which man_xdbm_firstkey, with one round more than there are keys, and man_xdbm_nextkey again
-- and again give, and then end.
pub man_xdbm_firstkey-walk :
    {D : Type 0} (first : D → Option Bytes) (next : D → Bytes → Option Bytes)
    (add : Bytes → List Bytes → List Bytes) (search : Bytes → List Bytes → Option ℕ) (name : Bytes)
    (d : D) (pk : ParentKeys) (u : List Bytes) (n extra : ℕ)
    → KeepsOrder add search
    → Gives next d (first d) u
    → All (Lacks 0) u
    → ((j : Bytes) → times j u ≤ 1)
    → (keys : List Bytes) × IsSortOf u keys
      × (walk search name
            (man_xdbm_firstkey first next add (suc (length u) + n) name d pk).0
            (length keys + extra)
            (man_xdbm_firstkey first next add (suc (length u) + n) name d pk).1
          ≡ keys)
unfolding man_xdbm_firstkey
man_xdbm_firstkey-walk first next add search name d pk u n extra law g lacks once =
    let keys : List Bytes = add_all add u [] in
    let sorted = add_all-IsSortOf add search law u lacks once in
    let (m, made, found) = put_keys-found name keys pk in
    (
      keys,
      sorted,
      ap (λ ks. walk search name (put_keys name ks pk) (length keys + extra) (first_of ks))
            (collect-add_all first next add d (first d) u [] n g)
          ∙ ap (λ p. walk search name p (length keys + extra) (first_of keys)) made
          ∙ walk-rest add search law name m [] keys extra found sorted.ascending sorted.lacks,
    )
