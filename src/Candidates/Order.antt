-- ===== src/Candidates/Order.antt =====
-- Orders in several steps, each of which decides when those before it do not.
use mandb.Base.{Bool, true, false, ◌≡◌, ◌≢◌, refl, arith, Ordering, Bytes, compare, if◌then◌else◌}
use mandb.CString.{or_else, strcmp, streq}
use mandb.CString.Compare.{flip, compare-flip, strcmp-flip, strcmp_trans}
use mandb.Db.Ids.{compare_ids}
use mandb.Candidates.{prefer, compare_index, compare_elements, compare_bits, is_utf8}
use mandb.Locale.{LocaleBits}
use mandb.Manpath.Nls.{is_empty}

or_else-flip : (a b : Ordering) → or_else (flip a) (flip b) ≡ flip (or_else a b)
or_else-flip Ordering.lt b = refl
or_else-flip Ordering.eq b = refl
or_else-flip Ordering.gt b = refl

-- A comparison whose results are reversed with its arguments and that is transitive.
pub record IsOrder {ℓ} {A : Type ℓ} (c : A → A → Ordering) : Type ℓ where
  pub flips : (x y : A) → c y x ≡ flip (c x y)
  pub transits : (x y z : A) → c x y ≢ Ordering.gt → c y z ≢ Ordering.gt → c x z ≢ Ordering.gt

pub then-flips :
    (a b a' b' : Ordering) → a' ≡ flip a → b' ≡ flip b → or_else a' b' ≡ flip (or_else a b)
then-flips a b a' b' h k = rw (h, k) (or_else-flip a b)

module _ {ℓ} {A : Type ℓ} where
  pub then-IsOrder :
      (c d : A → A → Ordering) → IsOrder c → IsOrder d → IsOrder (λ x y. or_else (c x y) (d x y))
  then-IsOrder c d v w = record {
    flips = λ x y. then-flips (c x y) (d x y) (c y x) (d y x) (v.flips x y) (w.flips x y);
    transits = λ x y z h k. ground (
      arith,
      v.transits x y z,
      v.transits z x y,
      v.transits y z x,
      v.flips x y,
      v.flips y z,
      v.flips x z,
      w.transits x y z,
    );
  }

  pub on-IsOrder {κ} :
      {B : Type κ} (f : A → B) (c : B → B → Ordering) → IsOrder c → IsOrder (λ x y. c (f x) (f y))
  on-IsOrder f c v = record {
    flips = λ x y. v.flips (f x) (f y);
    transits = λ x y z. v.transits (f x) (f y) (f z);
  }

pub strcmp-IsOrder : IsOrder strcmp
strcmp-IsOrder = record { flips = λ x y. strcmp-flip x y; transits = strcmp_trans }

pub compare-IsOrder : IsOrder compare
compare-IsOrder = record { flips = λ x y. compare-flip x y; transits = λ x y z h k. ground arith }

pub prefer-IsOrder : IsOrder prefer
unfolding prefer
prefer-IsOrder = record { flips = λ x y. ground arith; transits = λ x y z h k. ground arith }

pub compare_ids-IsOrder : IsOrder (λ a b. compare_ids a b true)
unfolding compare_ids
compare_ids-IsOrder = record { flips = λ x y. ground arith; transits = λ x y z h k. ground arith }

pub compare_index-IsOrder : IsOrder compare_index
unfolding compare_index
compare_index-IsOrder = record { flips = λ x y. ground arith; transits = λ x y z h k. ground arith }

pub eq-IsOrder {ℓ} : {A : Type ℓ} → IsOrder {A = A} (λ x y. Ordering.eq)
eq-IsOrder = record { flips = λ x y. refl; transits = λ x y z h k. h }

compare_elements-IsOrder : (lbit : Bytes) → IsOrder (compare_elements lbit)
unfolding compare_elements
compare_elements-IsOrder lbit =
    then-IsOrder
      (λ x y. if is_empty lbit then Ordering.eq else prefer (streq lbit x) (streq lbit y)) strcmp
      (prefers (is_empty lbit)) strcmp-IsOrder
  where
    prefers :
        (b : Bool)
        → IsOrder (λ x y. if b then Ordering.eq else prefer (streq lbit x) (streq lbit y))
    prefers true = eq-IsOrder
    prefers false = on-IsOrder (streq lbit) prefer prefer-IsOrder

-- A locale's directory is preferred for each of its parts that is the locale's own.
pub compare_bits-IsOrder : (lbits : LocaleBits) → IsOrder (compare_bits lbits)
unfolding compare_bits
compare_bits-IsOrder lbits =
    then-IsOrder (λ x y. compare_elements lbits.language x.language y.language) _
      (on-IsOrder (λ x. x.language) (compare_elements lbits.language)
        (compare_elements-IsOrder lbits.language))
      (then-IsOrder (λ x y. compare_elements lbits.territory x.territory y.territory) _
        (on-IsOrder (λ x. x.territory) (compare_elements lbits.territory)
          (compare_elements-IsOrder lbits.territory))
        (then-IsOrder (λ x y. compare_elements lbits.modifier x.modifier y.modifier) _
          (on-IsOrder (λ x. x.modifier) (compare_elements lbits.modifier)
            (compare_elements-IsOrder lbits.modifier))
          (on-IsOrder is_utf8 prefer prefer-IsOrder)))
