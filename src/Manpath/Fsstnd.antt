-- ===== src/Manpath/Fsstnd.antt =====
-- The buffer of fsstnd (src/manp.c).
use mandb.Base.{
  ℕ, suc, ◌+◌, ◌*◌, Bool, true, false, ◌||◌, Option, none, some, List, [], ◌∷◌, ◌++◌, Bytes, codes,
  ◌≡◌, ◌≢◌, refl, ap, ◌∙◌, arith, if◌then◌else◌, Lacks, All, length, length-append, leb,
}
use mandb.CString.{starts_with, streq, has}
use mandb.CString.Fields.{fields, nonempty, tokens}
use mandb.Manpath.{cat_element, cat_elements, fsstnd, fsstnd_size}
use mandb.Manpath.Catpath.{drop_prefix, starts_with-append}

-- A path of these elements, each behind a slash.
abbrev pub joined : List Bytes → Bytes
joined [] = []
joined (e ∷ es) = b'/' ∷ (e ++ joined es)

abbrev pub IsElement : Bytes → Type 0
IsElement e = (e ≢ []) × Lacks b'/' e

-- Whether one of the elements is "man".
unfoldable pub any_man : List Bytes → Bool
any_man [] = false
any_man (e ∷ es) = streq e (codes "man") || any_man es

fields-append :
    (e rest : Bytes) (es : List Bytes)
    → Lacks b'/' e
    → fields (codes "/") rest ≡ [] ∷ es
    → fields (codes "/") (e ++ rest) ≡ e ∷ es
unfolding fields has
fields-append [] rest es l h = h
fields-append (c ∷ e) rest es (l, ls) h = ground (arith, l, fields-append e rest es ls h)

fields-joined : (es : List Bytes) → All IsElement es → fields (codes "/") (joined es) ≡ [] ∷ es
unfolding fields has
fields-joined [] v = refl
fields-joined (e ∷ es) (v, vs) =
    ap (λ t. [] ∷ t) (fields-append e (joined es) es v.1 (fields-joined es vs))

nonempty_all : (es : List Bytes) → All IsElement es → nonempty es ≡ es
unfolding nonempty
nonempty_all [] v = refl
nonempty_all ([] ∷ es) (v, vs) = absurd (v.0 refl)
nonempty_all ((c ∷ e) ∷ es) (v, vs) = ap (λ t. (c ∷ e) ∷ t) (nonempty_all es vs)

tokens-joined : (es : List Bytes) → All IsElement es → tokens (codes "/") (joined es) ≡ es
unfolding tokens nonempty
tokens-joined es v = ap nonempty (fields-joined es v) ∙ nonempty_all es v

-- The bytes of an element that are left.
left_bytes : Option Bytes → ℕ
left_bytes none = 0
left_bytes (some e) = suc (length e)

length-cat_element :
    (e : Bytes) → left_bytes (cat_element e) ≡ (if streq e (codes "man") then 0 else suc (length e))
unfolding cat_element streq starts_with left_bytes
length-cat_element [] = refl
length-cat_element (a ∷ []) = ground arith
length-cat_element (a ∷ b ∷ []) = ground arith
length-cat_element (a ∷ b ∷ c ∷ []) = ground arith
length-cat_element (a ∷ b ∷ c ∷ d ∷ e) = ground arith

length_cons_element :
    (o : Option Bytes) (rest : Bytes)
    → length (elim o [ none ↦ rest | some e ↦ b'/' ∷ (e ++ rest) ]) ≡ left_bytes o + length rest
unfolding left_bytes
length_cons_element none rest = ground arith
length_cons_element (some e) rest = ground (arith, length-append e rest)

length-streq_man : (e : Bytes) → streq e (codes "man") ≡ true → length e ≡ 3
unfolding streq
length-streq_man [] h = ground arith
length-streq_man (a ∷ []) h = ground arith
length-streq_man (a ∷ b ∷ []) h = ground arith
length-streq_man (a ∷ b ∷ c ∷ []) h = refl
length-streq_man (a ∷ b ∷ c ∷ d ∷ e) h = ground arith

count_man : List Bytes → ℕ
count_man [] = 0
count_man (e ∷ es) = let rest = count_man es in if streq e (codes "man") then suc rest else rest

any-count_man : (es : List Bytes) → leb 1 (count_man es) ≡ any_man es
unfolding any_man count_man
any-count_man [] = refl
any-count_man (e ∷ es) = ground (arith, any-count_man es)

-- Each "man" saves four bytes, and nothing else does.
saved : (es : List Bytes) → length (cat_elements es) + 4 * count_man es ≡ length (joined es)
unfolding count_man cat_elements
saved [] = ground arith
saved (e ∷ es) = ground (
  arith,
  saved es,
  length-append e (joined es),
  length_cons_element (cat_element e) (cat_elements es),
  length-cat_element e,
  length-streq_man e,
)

-- For a path below MAN_ROOT of elements that are not empty and hold no slash, each behind one
-- slash, the result of fsstnd with its terminating NUL fits into what fsstnd allocates exactly when
-- one of the elements is "man".
pub fsstnd_fits :
    (man_root cat_root : Bytes) (es : List Bytes)
    → All IsElement es
    → leb
        (suc (length (fsstnd man_root cat_root (man_root ++ joined es))))
        (fsstnd_size man_root cat_root (man_root ++ joined es))
      ≡ any_man es
unfolding fsstnd fsstnd_size
fsstnd_fits man_root cat_root es v =
    rw
      (
        starts_with-append man_root (joined es),
        drop_prefix man_root (joined es),
        tokens-joined es v,
      )
      (ground (arith, length-append cat_root (cat_elements es), saved es, any-count_man es))
