-- ===== src/Db/Refs/Parse.antt =====
-- list_extensions (libdb/db_lookup.c) on any text and on that of make_extensions_reference.
use mandb.Base.{
  ℕ, zero, suc, ◌≤◌, ◌<◌, Option, none, some, List, [], ◌∷◌, ◌++◌, ◌≡◌, ◌≢◌, refl, sym, ap, ◌∙◌,
  arith, Ordering, All, Lacks, Bytes, length, length-append, Option-cases, inl, inr, subst,
  append-nil, append_assoc,
}
use mandb.CString.{strsep}
use mandb.CString.Search.{strsep-append, strsep-Lacks}
use mandb.Db.Record.{tab}
use mandb.Db.Refs.{
  NameExt, name_ext_compare, SortedAdd, extensions, list_extensions, make_extensions_reference,
}
use mandb.Db.Refs.Order.{
  Le, IsSorted, AddsInOrder, insert, name_ext_compare_eq, name_ext_compare-flip,
}

-- In order, with no element twice.
abbrev pub Lt : NameExt → NameExt → Type 0
Lt a b = name_ext_compare a b ≡ Ordering.lt

abbrev pub IsStrict : List NameExt → Type 0
IsStrict [] = Unit {0}
IsStrict (x ∷ xs) = All (Lt x) xs × IsStrict xs

All-Lt-Le : (x : NameExt) (xs : List NameExt) → All (Lt x) xs → All (Le x) xs
All-Lt-Le x [] h = tt
All-Lt-Le x (y ∷ ys) (h, hs) = (ground arith, All-Lt-Le x ys hs)

pub IsStrict-IsSorted : (xs : List NameExt) → IsStrict xs → IsSorted xs
IsStrict-IsSorted [] h = tt
IsStrict-IsSorted (x ∷ xs) (h, hs) = (All-Lt-Le x xs h, IsStrict-IsSorted xs hs)

-- An element that sorts behind all goes to the end.
insert-last :
    (x : NameExt) (xs : List NameExt) → All (λ y. Lt y x) xs → insert x xs ≡ xs ++ (x ∷ [])
unfolding insert
insert-last x [] h = refl
insert-last x (y ∷ ys) (h, hs) = ground (arith, insert-last x ys hs)

abbrev pub NoneEqual : NameExt → List NameExt → Type 0
NoneEqual x = All (λ y. y ≢ x)

insert-split :
    (x : NameExt) (ys zs : List NameExt)
    → NoneEqual x (ys ++ zs)
    → All (λ y. Le y x) ys
    → All (Le x) zs
    → ys ++ (x ∷ zs) ≡ insert x (ys ++ zs)
unfolding insert
insert-split x [] [] n h k = refl
insert-split x [] (z ∷ zs) n h k = ground (arith, name_ext_compare-flip x z)
insert-split x (y ∷ ys) zs (n, ns) (h, hs) k =
    ground (arith, insert-split x ys zs ns hs k, name_ext_compare_eq y x)

-- On a list without the element the library's insertion is ours.
pub add-insert :
    (add : SortedAdd) (x : NameExt) (xs : List NameExt)
    → AddsInOrder add
    → IsSorted xs
    → NoneEqual x xs
    → add x xs ≡ insert x xs
add-insert add x xs law s n =
    let (ys, zs, split, added, lower, upper) = law x xs s in
    added ∙ insert-split x ys zs (rw split at n) lower upper ∙ ap (insert x) (sym split)

All-append_left {ℓ κ} : {A : Type ℓ} (P : A → Type κ) (xs ys : List A) → All P (xs ++ ys) → All P xs
All-append_left P [] ys h = tt
All-append_left P (x ∷ xs) ys (h, hs) = (h, All-append_left P xs ys hs)

All-at {ℓ κ} :
    {A : Type ℓ} (P : A → Type κ) (xs : List A) (y : A) (ys : List A) → All P (xs ++ (y ∷ ys)) → P y
All-at P [] y ys (h, hs) = h
All-at P (x ∷ xs) y ys (h, hs) = All-at P xs y ys hs

IsStrict-before :
    (xs : List NameExt) (y : NameExt) (ys : List NameExt)
    → IsStrict (xs ++ (y ∷ ys))
    → All (λ x. Lt x y) xs × IsStrict xs
IsStrict-before [] y ys h = (tt, tt)
IsStrict-before (x ∷ xs) y ys (h, hs) =
    let (below, strict) = IsStrict-before xs y ys hs in
    ((All-at (Lt x) xs y ys h, below), (All-append_left (Lt x) xs (y ∷ ys) h, strict))

All-Lt-NoneEqual : (x : NameExt) (xs : List NameExt) → All (λ y. Lt y x) xs → NoneEqual x xs
All-Lt-NoneEqual x [] h = tt
All-Lt-NoneEqual x (y ∷ ys) (h, hs) =
    (ground (arith, name_ext_compare_eq y x), All-Lt-NoneEqual x ys hs)

add_last :
    (add : SortedAdd) (x : NameExt) (xs ys : List NameExt)
    → AddsInOrder add
    → IsStrict (xs ++ (x ∷ ys))
    → add x xs ≡ xs ++ (x ∷ [])
add_last add x xs ys law s =
    let (below, strict) = IsStrict-before xs x ys s in
    add-insert add x xs law (IsStrict-IsSorted xs strict) (All-Lt-NoneEqual x xs below)
    ∙ insert-last x xs below

-- Neither part of a reference holds a tab.
abbrev pub LacksTab : NameExt → Type 0
LacksTab r = Lacks tab r.name × Lacks tab r.ext

-- The text of references behind its leading tab.
abbrev pub body : NameExt → List NameExt → Bytes
body r refs = r.name ++ (tab ∷ (r.ext ++ make_extensions_reference refs))

extensions_step :
    (add : SortedAdd) (f : ℕ) (acc : List NameExt) (content rest rest' : Option Bytes) (r : NameExt)
    → strsep tab content ≡ some (r.name, rest)
    → strsep tab rest ≡ some (r.ext, rest')
    → extensions add (suc f) content acc ≡ extensions add f rest' (add r acc)
unfolding extensions
extensions_step add f acc content rest rest' r e k = rw (e, extensions) (rw k refl)

extensions_end : (add : SortedAdd) (f : ℕ) (refs : List NameExt) → extensions add f none refs ≡ refs
unfolding extensions strsep
extensions_end add zero refs = refl
extensions_end add (suc f) refs = refl

extensions-body :
    (add : SortedAdd) (f : ℕ) (refs : List NameExt) (r : NameExt) (acc : List NameExt)
    → AddsInOrder add
    → length refs < f
    → IsStrict (acc ++ (r ∷ refs))
    → All LacksTab (r ∷ refs)
    → extensions add f (some (body r refs)) acc ≡ acc ++ (r ∷ refs)
unfolding make_extensions_reference
extensions-body add zero refs r acc law h s l = absurd (omega arith)
extensions-body add (suc f) [] r acc law h s ((ln, le), ls) =
    extensions_step add f acc _ _ none r (strsep-append tab r.name _ ln)
      (rw append-nil (strsep-Lacks tab r.ext le))
    ∙ extensions_end add f (add r acc)
    ∙ add_last add r acc [] law s
extensions-body add (suc f) (q ∷ refs) r acc law h s ((ln, le), ls) =
    extensions_step add f acc _ _ _ r (strsep-append tab r.name _ ln) (strsep-append tab r.ext _ le)
    ∙ ap (extensions add f (some (body q refs))) (add_last add r acc (q ∷ refs) law s)
    ∙ extensions-body add f refs q (acc ++ (r ∷ [])) law (omega arith)
        (subst IsStrict (sym (append_assoc acc (r ∷ []) (q ∷ refs))) s) ls
    ∙ append_assoc acc (r ∷ []) (q ∷ refs)

length-body : (r : NameExt) (refs : List NameExt) → length refs ≤ length (body r refs)
unfolding make_extensions_reference
length-body r [] = omega arith
length-body r (q ∷ refs) = omega (
  arith,
  length-append r.name (tab ∷ (r.ext ++ make_extensions_reference (q ∷ refs))),
  length-append r.ext (make_extensions_reference (q ∷ refs)),
  length-body q refs,
)

-- With an insertion that keeps lists in order, references that are in order, none twice and none
-- with a tab in it, are read back by list_extensions from their text.
pub list_extensions-body :
    (add : SortedAdd) (r : NameExt) (refs : List NameExt)
    → AddsInOrder add
    → IsStrict (r ∷ refs)
    → All LacksTab (r ∷ refs)
    → list_extensions add (body r refs) ≡ r ∷ refs
unfolding list_extensions
list_extensions-body add r refs law s l =
    extensions-body add (suc (length (body r refs))) refs r [] law
      (omega (arith, length-body r refs)) s l

IsSorted-insert :
    (x : NameExt) (ys zs : List NameExt)
    → IsSorted (ys ++ zs)
    → All (λ y. Le y x) ys
    → All (Le x) zs
    → IsSorted (ys ++ (x ∷ zs))
IsSorted-insert x [] zs s h k = (k, s)
IsSorted-insert x (y ∷ ys) zs (s, ss) (h, hs) k =
    (All-insert (Le y) x ys zs h s, IsSorted-insert x ys zs ss hs k)
  where
    All-insert :
        (P : NameExt → Type 0) (x : NameExt) (ys zs : List NameExt)
        → P x
        → All P (ys ++ zs)
        → All P (ys ++ (x ∷ zs))
    All-insert P x [] zs p h = (p, h)
    All-insert P x (y ∷ ys) zs p (h, hs) = (h, All-insert P x ys zs p hs)

add-IsSorted :
    (add : SortedAdd) (x : NameExt) (xs : List NameExt)
    → AddsInOrder add
    → IsSorted xs
    → IsSorted (add x xs)
add-IsSorted add x xs law s =
    let (ys, zs, split, added, lower, upper) = law x xs s in
    rw added (IsSorted-insert x ys zs (subst IsSorted split s) lower upper)

-- Whatever the content, the references come out sorted.
extensions-IsSorted :
    (add : SortedAdd) (f : ℕ) (content : Option Bytes) (acc : List NameExt)
    → AddsInOrder add
    → IsSorted acc
    → IsSorted (extensions add f content acc)
unfolding extensions
extensions-IsSorted add zero content acc law s = s
extensions-IsSorted add (suc f) content acc law s = elim (Option-cases (strsep tab content)) [
  | inl e ↦ rw (e, extensions) s
  | inr ((name, rest), e) ↦ elim (Option-cases (strsep tab rest)) [
    | inl k ↦ rw (e, extensions) (rw k s)
    | inr ((ext, rest'), k) ↦
        rw (e, extensions)
          (rw k (extensions-IsSorted add f rest' _ law (add-IsSorted add _ acc law s)))
  ]
]

-- With an insertion that keeps lists in order, list_extensions returns the references in order,
-- whatever the content.
list_extensions-IsSorted :
    (add : SortedAdd) (content : Bytes) → AddsInOrder add → IsSorted (list_extensions add content)
unfolding list_extensions
list_extensions-IsSorted add content law =
    extensions-IsSorted add (suc (length content)) (some content) [] law tt
