-- ===== src/Candidates/Add.antt =====
-- The list of candidates as add_candidate (src/man.c) leaves it.
use mandb.Base.{
  suc, Bool, true, false, Option, none, some, List, [], ◌∷◌, ◌++◌, Bytes, ◌≡◌, ◌≢◌, ◌⊎◌, inl, inr,
  refl, sym, ap, arith, Ordering, if◌then◌else◌, get_or, Bool-cases, All, subst, ◌<◌,
}
use mandb.Db.Record.{Mandata}
use mandb.Candidates.{Candidate, Search, duplicate_candidates, compare_candidates}
use mandb.Candidates.Adding.{
  Sources, Candidates, insert_candidate, find_ult, add_found, add_candidate,
}

-- No candidate of the list is a duplicate of an earlier one.
abbrev pub NoDuplicates : List Candidate → Type 0
NoDuplicates [] = Unit {0}
NoDuplicates (c ∷ list) =
    All (λ later. duplicate_candidates later c ≡ false) list × NoDuplicates list

-- The candidates of the list that the new one is no duplicate of.
unfoldable pub others : Candidate → List Candidate → List Candidate
others candp [] = []
others candp (c ∷ list) =
    let rest = others candp list in if duplicate_candidates candp c then rest else c ∷ rest

Ordering-cases : (o : Ordering) → (o ≡ Ordering.lt) ⊎ (o ≢ Ordering.lt)
Ordering-cases Ordering.lt = inl refl
Ordering-cases Ordering.eq = inr (λ h. ground arith)
Ordering-cases Ordering.gt = inr (λ h. ground arith)

module _ (lookup : Search) (candp : Candidate) where
  -- A step of the search for duplicates.
  data Step (c : Candidate) (list : List Candidate) : Type 0 where
    replaced :
        duplicate_candidates candp c ≡ true
        → compare_candidates lookup candp c ≡ Ordering.lt
        → insert_candidate lookup candp (c ∷ list) ≡ insert_candidate lookup candp list
        → Step c list
    refused :
        duplicate_candidates candp c ≡ true
        → compare_candidates lookup candp c ≢ Ordering.lt
        → insert_candidate lookup candp (c ∷ list) ≡ (c ∷ list, false)
        → Step c list
    passed :
        duplicate_candidates candp c ≡ false
        → insert_candidate lookup candp (c ∷ list)
          ≡ (c ∷ (insert_candidate lookup candp list).0, (insert_candidate lookup candp list).1)
        → Step c list

  step : (c : Candidate) (list : List Candidate) → Step c list
  step c list = elim (Bool-cases (duplicate_candidates candp c)) [
    | inr e ↦ passed e (unfold insert_candidate in ground (arith, e))
    | inl e ↦ elim (Ordering-cases (compare_candidates lookup candp c)) [
      | inl k ↦ replaced e k (unfold insert_candidate in ground (arith, e, k))
      | inr k ↦ refused e k (unfold insert_candidate in ground (arith, e, k))
    ]
  ]

  insert-All :
      (P : Candidate → Type 0) (list : List Candidate)
      → P candp
      → All P list
      → All P (insert_candidate lookup candp list).0
  insert-All P [] p ps = unfold insert_candidate in (p, tt)
  insert-All P (c ∷ list) p (q, ps) = elim (step c list) [
    | replaced e k i ↦ subst (λ r. All P r.0) (sym i) (insert-All P list p ps)
    | refused e k i ↦ subst (λ r. All P r.0) (sym i) (q, ps)
    | passed e i ↦ subst (λ r. All P r.0) (sym i) (q, insert-All P list p ps)
  ]

  insert-NoDuplicates :
      (list : List Candidate)
      → NoDuplicates list
      → NoDuplicates (insert_candidate lookup candp list).0
  insert-NoDuplicates [] v = unfold insert_candidate in (tt, tt)
  insert-NoDuplicates (c ∷ list) (v, vs) = elim (step c list) [
    | replaced e k i ↦ subst (λ r. NoDuplicates r.0) (sym i) (insert-NoDuplicates list vs)
    | refused e k i ↦ subst (λ r. NoDuplicates r.0) (sym i) (v, vs)
    | passed e i ↦
        subst (λ r. NoDuplicates r.0) (sym i)
          (
            insert-All (λ later. duplicate_candidates later c ≡ false) list e v,
            insert-NoDuplicates list vs,
          )
  ]

  -- A candidate that the new one replaces, if it is a duplicate of it.
  abbrev Yields : Candidate → Type 0
  Yields c = duplicate_candidates candp c ≡ true → compare_candidates lookup candp c ≡ Ordering.lt

  -- What becomes of the new candidate: it is last, behind those that it is no duplicate of, or it is
  -- dropped at the first duplicate that is at least as good, behind which the list stays as it was.
  abbrev pub Inserted : List Candidate → List Candidate × Bool → Type 0
  Inserted list r =
      ((r ≡ (others candp list ++ (candp ∷ []), true)) × All Yields list)
      ⊎ ((before : List Candidate) × (c : Candidate) × (behind : List Candidate) × (list
            ≡ before ++ (c ∷ behind))
          × (r ≡ (others candp before ++ (c ∷ behind), false))
          × All Yields before
          × (duplicate_candidates candp c ≡ true)
          × (compare_candidates lookup candp c ≢ Ordering.lt))

  Inserted-replaced :
      (c : Candidate) (list : List Candidate) (r : List Candidate × Bool)
      → duplicate_candidates candp c ≡ true
      → compare_candidates lookup candp c ≡ Ordering.lt
      → Inserted list r
      → Inserted (c ∷ list) r
  Inserted-replaced c list r e k (inl (i, all)) =
      inl (unfold others in ground (arith, i, e), (λ h. k, all))
  Inserted-replaced c list r e k (inr (before, b, behind, split, i, all, dup, good)) = inr (
    c ∷ before,
    b,
    behind,
    ap (◌∷◌ c) split,
    unfold others in ground (arith, i, e),
    (λ h. k, all),
    dup,
    good,
  )

  Inserted-passed :
      (c : Candidate) (list : List Candidate) (r : List Candidate × Bool)
      → duplicate_candidates candp c ≡ false
      → Inserted list r
      → Inserted (c ∷ list) (c ∷ r.0, r.1)
  Inserted-passed c list r e (inl (i, all)) =
      inl (unfold others in ground (arith, i, e), (λ h. ground (arith, h, e), all))
  Inserted-passed c list r e (inr (before, b, behind, split, i, all, dup, good)) = inr (
    c ∷ before,
    b,
    behind,
    ap (◌∷◌ c) split,
    unfold others in ground (arith, i, e),
    (λ h. ground (arith, h, e), all),
    dup,
    good,
  )

  -- A new candidate goes to the end of the list, behind those that it is no duplicate of, when it is
  -- better than each of which it is a duplicate, and these are removed; or it is not added, at the
  -- first of which it is a duplicate and which is at least as good: those before that of which it is
  -- a duplicate are removed, and all others stay in their order.
  pub insert_candidate-Inserted :
      (list : List Candidate) → Inserted list (insert_candidate lookup candp list)
  insert_candidate-Inserted [] = inl (unfold insert_candidate others in refl, tt)
  insert_candidate-Inserted (c ∷ list) =
      let found = insert_candidate-Inserted list in
      elim (step c list) [
        | replaced e k i ↦
            subst (Inserted (c ∷ list)) (sym i) (Inserted-replaced c list _ e k found)
        | refused e k i ↦
            subst (Inserted (c ∷ list)) (sym i)
              (inr ([], c, list, refl, unfold others in refl, tt, e, k))
        | passed e i ↦ subst (Inserted (c ∷ list)) (sym i) (Inserted-passed c list _ e found)
      ]

All-weaken :
    (P Q : Candidate → Type 0) (list : List Candidate)
    → ((c : Candidate) → P c → Q c)
    → All P list
    → All Q list
All-weaken P Q [] h p = tt
All-weaken P Q (c ∷ list) h (p, ps) = (h c p, All-weaken P Q list h ps)

-- No candidate is a duplicate of an earlier one, and the next index is above all.
pub record IsCandidates (st : Candidates) : Type 0 where
  pub no_duplicates : NoDuplicates st.head
  pub below : All (λ c. c.add_index < st.next_index) st.head

add_found-IsCandidates :
    (lookup : Search) (sources : Sources) (from_db cat : Bool) (req_name path : Bytes)
    (source : Mandata) (st : Candidates) (o : Option (Option Bytes))
    → IsCandidates st
    → IsCandidates (add_found lookup sources from_db cat req_name path source st o).0
unfolding add_found
add_found-IsCandidates lookup sources from_db cat req_name path source st none v = v
add_found-IsCandidates lookup sources from_db cat req_name path source st (some found) v =
    let candp : Candidate = record {
      req_name = req_name;
      from_db = from_db;
      cat = cat;
      path = path;
      ult = found;
      source = record source { name = some (get_or req_name source.name) };
      add_index = st.next_index;
    } in
    record {
      no_duplicates = insert-NoDuplicates lookup candp st.head v.no_duplicates;
      below =
          insert-All lookup candp (λ c. c.add_index < suc st.next_index) st.head (ground arith)
            (All-weaken (λ c. c.add_index < st.next_index) (λ c. c.add_index < suc st.next_index)
              st.head (λ c h. ground (arith, h)) v.below);
    }

-- add_candidate keeps the list free of candidates that are duplicates of earlier ones, and the next
-- index above all of the list.
pub add_candidate-IsCandidates :
    (lookup : Search) (sources : Sources) (from_db cat : Bool) (req_name path : Bytes)
    (ult : Option Bytes) (source : Mandata) (st : Candidates)
    → IsCandidates st
    → IsCandidates (add_candidate lookup sources from_db cat req_name path ult source st).0
unfolding add_candidate
add_candidate-IsCandidates lookup sources from_db cat req_name path ult source st =
    add_found-IsCandidates lookup sources from_db cat req_name path source st
      (find_ult lookup sources ult from_db cat req_name path source)
