-- ===== src/CString/Compare.antt =====
-- Laws of streq and strcmp.
use mandb.Base.{ℕ, true, false, [], ◌∷◌, ◌≡◌, ◌↔◌, ◌≢◌, refl, arith, Bytes, compare, Ordering}
use mandb.CString.{streq, strcmp, starts_with}

pub streq_iff : (a b : Bytes) → (streq a b ≡ true) ↔ (a ≡ b)
unfolding streq
streq_iff (x ∷ a) (y ∷ b) = ground (arith, streq_iff a b)
streq_iff _ _ = ground arith

pub streq_refl : (a : Bytes) → streq a a ≡ true
streq_refl a = (streq_iff a a).1 refl

pub streq-eq_false : {a b : Bytes} → a ≢ b → streq a b ≡ false
streq-eq_false {a} {b} h = ground (arith, streq_iff a b)

pub streq_comm : (a b : Bytes) → streq a b ≡ streq b a
unfolding streq
streq_comm (x ∷ a) (y ∷ b) = ground (arith, streq_comm a b)
streq_comm [] [] = refl
streq_comm _ _ = refl

pub starts_with_refl : (a : Bytes) → starts_with a a ≡ true
unfolding starts_with
starts_with_refl [] = refl
starts_with_refl (x ∷ a) = ground (arith, starts_with_refl a)

-- The sign of the comparison the other way round.
abbrev pub flip : Ordering → Ordering
flip Ordering.lt = Ordering.gt
flip Ordering.eq = Ordering.eq
flip Ordering.gt = Ordering.lt

pub compare-flip : (a b : ℕ) → compare b a ≡ flip (compare a b)
compare-flip a b = ground arith

pub strcmp-flip : (a b : Bytes) → strcmp b a ≡ flip (strcmp a b)
unfolding strcmp
strcmp-flip [] [] = refl
strcmp-flip [] (y ∷ b) = refl
strcmp-flip (x ∷ a) [] = refl
strcmp-flip (x ∷ a) (y ∷ b) = ground (arith, strcmp-flip a b)

pub strcmp_eq : (a b : Bytes) → (strcmp a b ≡ Ordering.eq) ↔ (a ≡ b)
unfolding strcmp
strcmp_eq [] [] = ground arith
strcmp_eq [] (y ∷ b) = ground arith
strcmp_eq (x ∷ a) [] = ground arith
strcmp_eq (x ∷ a) (y ∷ b) = ground (arith, strcmp_eq a b)

pub strcmp_refl : (a : Bytes) → strcmp a a ≡ Ordering.eq
strcmp_refl a = (strcmp_eq a a).1 refl

pub strcmp_trans :
    (a b c : Bytes) → strcmp a b ≢ Ordering.gt → strcmp b c ≢ Ordering.gt → strcmp a c ≢ Ordering.gt
unfolding strcmp
strcmp_trans [] b [] h k = ground arith
strcmp_trans [] b (z ∷ c) h k = ground arith
strcmp_trans (x ∷ a) [] c h k = absurd (h refl)
strcmp_trans (x ∷ a) (y ∷ b) [] h k = absurd (k refl)
strcmp_trans (x ∷ a) (y ∷ b) (z ∷ c) h k = ground (arith, strcmp_trans a b c)
