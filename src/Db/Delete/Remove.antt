-- ===== src/Db/Delete/Remove.antt =====
-- The references without one of them.
use mandb.Base.{
  true, false, not, ◌&&◌, none, some, List, [], ◌∷◌, ◌≡◌, ◌⊎◌, refl, sym, ap, subst, ◌∙◌, arith,
  All, Bool-cases, Option-cases, inl, inr,
}
use mandb.Db.Refs.{NameExt, name_ext_equals}
use mandb.Db.Refs.Insert.{contains}
use mandb.Db.Refs.Order.{name_ext_equals_iff, name_ext_compare_eq}
use mandb.Db.Refs.Parse.{Lt, IsStrict}
use mandb.Db.Delete.{remove}

-- remove finds an element exactly if it is there.
pub remove-none : (r : NameExt) (xs : List NameExt) → remove r xs ≡ none → contains xs r ≡ false
unfolding remove contains
remove-none r [] h = refl
remove-none r (x ∷ xs) h =
    ground (arith, remove-none r xs, name_ext_equals_iff r x, name_ext_equals_iff x r)

pub remove_absent : (r : NameExt) (xs : List NameExt) → contains xs r ≡ false → remove r xs ≡ none
unfolding remove contains
remove_absent r [] h = refl
remove_absent r (x ∷ xs) h =
    ground (arith, remove_absent r xs, name_ext_equals_iff r x, name_ext_equals_iff x r)

-- How `remove` finds its element: at the head, or further on.
remove_cases :
    (r x : NameExt) (xs ys : List NameExt)
    → remove r (x ∷ xs) ≡ some ys
    → ((r ≡ x) × (xs ≡ ys))
      ⊎ ((name_ext_equals r x ≡ false)
          × ((zs : List NameExt) × (remove r xs ≡ some zs) × (x ∷ zs ≡ ys)))
unfolding remove
remove_cases r x xs ys h = elim (Bool-cases (name_ext_equals r x)) [
  | inl same ↦ inl ((name_ext_equals_iff r x).0 same, ground arith)
  | inr other ↦ elim (Option-cases (remove r xs)) [
    | inl e ↦ absurd (ground (arith, e))
    | inr (zs, e) ↦ inr (other, (zs, e, ground (arith, e)))
  ]
]

pub remove-All :
    (P : NameExt → Type 0) (r : NameExt) (xs ys : List NameExt)
    → remove r xs ≡ some ys
    → All P xs
    → All P ys
remove-All P r [] ys h p = absurd (unfold remove in ground arith)
remove-All P r (x ∷ xs) ys h (p, ps) = elim (remove_cases r x xs ys h) [
  | inl (same, e) ↦ subst (All P) e ps
  | inr (other, (zs, k, e)) ↦ subst (All P) e (p, remove-All P r xs zs k ps)
]

pub remove-IsStrict :
    (r : NameExt) (xs ys : List NameExt) → remove r xs ≡ some ys → IsStrict xs → IsStrict ys
remove-IsStrict r [] ys h s = absurd (unfold remove in ground arith)
remove-IsStrict r (x ∷ xs) ys h (s, ss) = elim (remove_cases r x xs ys h) [
  | inl (same, e) ↦ subst IsStrict e ss
  | inr (other, (zs, k, e)) ↦
      subst IsStrict e (remove-All (Lt x) r xs zs k s, remove-IsStrict r xs zs k ss)
]

All-Lt_absent : (x : NameExt) (xs : List NameExt) → All (Lt x) xs → contains xs x ≡ false
unfolding contains
All-Lt_absent x [] h = refl
All-Lt_absent x (y ∷ ys) (h, hs) = ground (
  arith,
  All-Lt_absent x ys hs,
  name_ext_equals_iff y x,
  name_ext_compare_eq x y,
  name_ext_compare_eq x x,
)

-- Exactly that element is gone.
pub contains-remove :
    (r : NameExt) (xs ys : List NameExt)
    → remove r xs ≡ some ys
    → IsStrict xs
    → (q : NameExt) → contains ys q ≡ (contains xs q && not (name_ext_equals r q))
unfolding contains
contains-remove r [] ys h s q = absurd (unfold remove in ground arith)
contains-remove r (x ∷ xs) ys h (s, ss) q = elim (remove_cases r x xs ys h) [
  | inl (same, e) ↦
      ap (λ zs. contains zs q) (sym e)
      ∙ ground (
        arith,
        same,
        All-Lt_absent x xs s,
        name_ext_equals_iff r q,
        name_ext_equals_iff x q,
        ap (contains xs) {x = q} {y = x},
      )
  | inr (other, (zs, k, e)) ↦
      ap (λ zs. contains zs q) (sym e)
      ∙ ground (
        arith,
        contains-remove r xs zs k ss q,
        name_ext_equals_iff r q,
        name_ext_equals_iff x q,
        name_ext_equals_iff r x,
        other,
      )
]

remove-contains :
    (r : NameExt) (xs ys : List NameExt) → remove r xs ≡ some ys → contains xs r ≡ true
unfolding contains
remove-contains r [] ys h = absurd (unfold remove in ground arith)
remove-contains r (x ∷ xs) ys h = elim (remove_cases r x xs ys h) [
  | inl (same, e) ↦ ground (arith, name_ext_equals_iff x r)
  | inr (other, (zs, k, e)) ↦ ground (arith, remove-contains r xs zs k)
]
