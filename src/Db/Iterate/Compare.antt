-- ===== src/Db/Iterate/Compare.antt =====
-- datum_compare (libdb/db_xdbm.c) is the order of strcmp.
use mandb.Base.{
  ℕ, suc, min, true, some, [], ◌∷◌, ◌++◌, Bytes, ◌==◌, if◌then◌else◌, length, compare, Ordering,
  ◌≡◌, ◌↔◌, ◌∙◌, refl, sym, ap, arith, Lacks,
}
use mandb.CString.{strcmp, or_else}
use mandb.CString.Compare.{strcmp_eq}
use mandb.Db.Iterate.{strncmp, datum, datum_compare, datum_equals}

min-suc : (m n : ℕ) → min (suc m) (suc n) ≡ suc (min m n)
min-suc m n = omega arith

-- One step of strncmp where both strings go on.
strncmp-step :
    (m n x y : ℕ) (a b : Bytes)
    → strncmp (min (suc m) (suc n)) (x ∷ a) (y ∷ b)
      ≡ or_else (compare x y) (if x == 0 then Ordering.eq else strncmp (min m n) a b)
unfolding strncmp
strncmp-step m n x y a b = rw (min-suc m n) ground arith

-- On strings with their NULs the bytes decide before the shorter one ends.
strncmp-datum :
    (a b : Bytes)
    → Lacks 0 a
    → Lacks 0 b
    → strncmp (min (length (datum a)) (length (datum b))) (datum a) (datum b) ≡ strcmp a b
unfolding strcmp datum
strncmp-datum [] [] h k = strncmp-step 0 0 0 0 [] []
strncmp-datum [] (y ∷ b) h k =
    strncmp-step 0 (length (b ++ (0 ∷ []))) 0 y [] (b ++ (0 ∷ [])) ∙ ground arith
strncmp-datum (x ∷ a) [] h k =
    strncmp-step (length (a ++ (0 ∷ []))) 0 x 0 (a ++ (0 ∷ [])) [] ∙ ground arith
strncmp-datum (x ∷ a) (y ∷ b) (h, hs) (k, ks) =
    strncmp-step (length (a ++ (0 ∷ []))) (length (b ++ (0 ∷ []))) x y (a ++ (0 ∷ []))
      (b ++ (0 ∷ []))
    ∙ ground (arith, strncmp-datum a b hs ks)

-- On strings without a NUL in them, datum_compare is the order of strcmp.
pub datum_compare-strcmp :
    (a b : Bytes) → Lacks 0 a → Lacks 0 b → datum_compare (some a) (some b) ≡ strcmp a b
unfolding datum_compare
datum_compare-strcmp a b h k =
    ap (λ o. or_else o (compare (length (datum b)) (length (datum a)))) (strncmp-datum a b h k)
    ∙ same_length (strcmp a b) refl
  where
    self : (c : Bytes) → compare (length (datum c)) (length (datum c)) ≡ Ordering.eq
    self c = ground arith

    same_length :
        (o : Ordering)
        → strcmp a b ≡ o
        → or_else o (compare (length (datum b)) (length (datum a))) ≡ o
    same_length Ordering.lt e = refl
    same_length Ordering.gt e = refl
    same_length Ordering.eq e =
        ap (λ c. compare (length (datum c)) (length (datum a))) (sym ((strcmp_eq a b).0 e)) ∙ self a

pub datum_equals_iff : (a b : Bytes) → Lacks 0 a → Lacks 0 b → (datum_equals a b ≡ true) ↔ (a ≡ b)
unfolding datum_equals
datum_equals_iff a b h k = ground (arith, datum_compare-strcmp a b h k, strcmp_eq a b)
