-- ===== src/Candidates/Transitive.antt =====
-- Where compare_candidates (src/man.c) is transitive, which qsort needs.
use mandb.Base.{
  ℕ, true, Option, none, some, [], Bytes, ◌≡◌, ◌≢◌, refl, arith, Ordering, compare, ◌∷◌, is_some,
  get_or, Bool-cases, inl, inr,
}
use mandb.CString.{or_else, streq, strcmp, before}
use mandb.CString.Compare.{streq_iff, strcmp_refl}
use mandb.Db.Record.{Mandata}
use mandb.Db.Ids.{compare_ids}
use mandb.Locale.{LocaleBits, unpack_locale_bits}
use mandb.Manpath.Nls.{is_empty}
use mandb.Candidates.Order.{
  IsOrder, then-IsOrder, on-IsOrder, eq-IsOrder, strcmp-IsOrder, compare-IsOrder, prefer-IsOrder,
  compare_ids-IsOrder, compare_index-IsOrder, compare_bits-IsOrder,
}
use mandb.Candidates.{
  Candidate, Search, prefer, exact_name, compare_index, section_index, prefer_section,
  compare_sections, compare_exts, compare_override_dir, last_part, compare_parts, compare_bits,
  compare_locales, compare_candidates,
}

-- Entries of one extension are of one section.
abbrev pub Agree : Candidate → Candidate → Type 0
Agree l r = l.source.ext ≡ r.source.ext → l.source.sec ≡ r.source.sec

abbrev pub HasSlash : Candidate → Type 0
HasSlash c = is_some (last_part c.path) ≡ true

or_else_assoc : (a b c : Ordering) → or_else (or_else a b) c ≡ or_else a (or_else b c)
or_else_assoc Ordering.lt b c = refl
or_else_assoc Ordering.eq b c = refl
or_else_assoc Ordering.gt b c = refl

no_override : (d l r : Bytes) → d ≡ [] → compare_override_dir d l r ≡ Ordering.eq
unfolding compare_override_dir is_empty
no_override [] l r e = refl
no_override (c ∷ d) l r e = ground (arith, e)

module _ (lookup : Search) where
  prefer_section-IsOrder : IsOrder (prefer_section lookup)
  unfolding prefer_section
  prefer_section-IsOrder = at lookup.section
    where
      at :
          (s : Option Bytes)
          → IsOrder (λ l r. elim s [ none ↦ Ordering.eq | some s ↦ prefer (streq l s) (streq r s) ])
      at none = eq-IsOrder
      at (some s) = on-IsOrder (λ e. streq e s) prefer prefer-IsOrder

  abbrev index : Mandata → Option ℕ
  index m = section_index lookup.section_list m.ext

  -- The order of the extensions, without the test for equal ones.
  abbrev by_ext : Mandata → Mandata → Ordering
  by_ext l r = or_else (prefer_section lookup l.ext r.ext) (
      or_else (compare_index (index l) (index r))
        (or_else (strcmp l.sec r.sec) (strcmp l.ext r.ext)))

  by_ext-IsOrder : IsOrder by_ext
  by_ext-IsOrder =
      then-IsOrder (λ l r. prefer_section lookup l.ext r.ext) _
        (on-IsOrder (λ m. m.ext) (prefer_section lookup) prefer_section-IsOrder)
        (then-IsOrder (λ l r. compare_index (index l) (index r)) _
          (on-IsOrder index compare_index compare_index-IsOrder)
          (then-IsOrder (λ l r. strcmp l.sec r.sec) _
            (on-IsOrder (λ m. m.sec) strcmp strcmp-IsOrder)
            (on-IsOrder (λ m. m.ext) strcmp strcmp-IsOrder)))

  order_refl {ℓ} : {A : Type ℓ} (c : A → A → Ordering) → IsOrder c → (x : A) → c x x ≡ Ordering.eq
  order_refl c v x = ground (arith, v.flips x x)

  same_ext : (l r : Mandata) → l.ext ≡ r.ext → l.sec ≡ r.sec → by_ext l r ≡ Ordering.eq
  same_ext l r e k =
      rw
        (
          e,
          k,
          order_refl (prefer_section lookup) prefer_section-IsOrder r.ext,
          order_refl compare_index compare_index-IsOrder (index r),
          strcmp_refl r.sec,
          strcmp_refl r.ext,
        )
        refl

  compare_exts-by_ext :
      (l r : Mandata) → (l.ext ≡ r.ext → l.sec ≡ r.sec) → compare_exts lookup l r ≡ by_ext l r
  unfolding compare_exts compare_sections
  compare_exts-by_ext l r k = elim (Bool-cases (streq l.ext r.ext)) [
    | inl e ↦
        let same = (streq_iff l.ext r.ext).0 e in
        ground (arith, e, same_ext l r same (k same), strcmp_refl r.ext, same)
    | inr e ↦ ground (
      arith,
      e,
      or_else_assoc (prefer_section lookup l.ext r.ext)
          (or_else (compare_index (index l) (index r)) (strcmp l.sec r.sec)) (strcmp l.ext r.ext),
      or_else_assoc (compare_index (index l) (index r)) (strcmp l.sec r.sec) (strcmp l.ext r.ext),
    )
  ]

  abbrev bits_of : Candidate → LocaleBits
  bits_of c = unpack_locale_bits (get_or [] (last_part c.path))

  abbrev own_bits : LocaleBits
  own_bits = unpack_locale_bits (before b':' lookup.internal_locale)

  compare_locales-bits :
      (l r : Candidate)
      → HasSlash l
      → HasSlash r
      → compare_locales lookup l.path r.path ≡ compare_bits own_bits (bits_of l) (bits_of r)
  unfolding compare_locales compare_parts
  compare_locales-bits l r h k = parts (last_part l.path) (last_part r.path) h k
    where
      parts :
          (a b : Option Bytes)
          → is_some a ≡ true
          → is_some b ≡ true
          → compare_parts own_bits a b
            ≡ compare_bits own_bits
                (unpack_locale_bits (get_or [] a))
                (unpack_locale_bits (get_or [] b))
      parts none b h k = ground (arith, h)
      parts (some a) none h k = ground (arith, k)
      parts (some a) (some b) h k = refl

  -- The order without OVERRIDE_DIR, in steps each of which is an order.
  abbrev by_steps : Candidate → Candidate → Ordering
  by_steps l r = or_else (prefer (exact_name l) (exact_name r)) (
      or_else (compare_ids l.source.id r.source.id true) (
        or_else (by_ext l.source r.source) (
          or_else (compare_bits own_bits (bits_of l) (bits_of r))
            (compare l.add_index r.add_index))))

  by_steps-IsOrder : IsOrder by_steps
  by_steps-IsOrder =
      then-IsOrder (λ l r. prefer (exact_name l) (exact_name r)) _
        (on-IsOrder exact_name prefer prefer-IsOrder)
        (then-IsOrder (λ l r. compare_ids l.source.id r.source.id true) _
          (on-IsOrder (λ c. c.source.id) (λ a b. compare_ids a b true) compare_ids-IsOrder)
          (then-IsOrder (λ l r. by_ext l.source r.source) _
            (on-IsOrder (λ c. c.source) by_ext by_ext-IsOrder)
            (then-IsOrder (λ l r. compare_bits own_bits (bits_of l) (bits_of r)) _
              (on-IsOrder bits_of (compare_bits own_bits) (compare_bits-IsOrder own_bits))
              (on-IsOrder (λ c. c.add_index) compare compare-IsOrder))))

  candidates-by_steps :
      (l r : Candidate)
      → lookup.override_dir ≡ []
      → Agree l r
      → HasSlash l
      → HasSlash r
      → compare_candidates lookup l r ≡ by_steps l r
  unfolding compare_candidates
  candidates-by_steps l r o a h k =
      rw
        (
          no_override lookup.override_dir l.path r.path o,
          compare_exts-by_ext l.source r.source a,
          compare_locales-bits l r h k,
        )
        refl

  -- Without an OVERRIDE_DIR, among three candidates whose paths have a slash and of which two with
  -- the same extension have the same section, compare_candidates is transitive: when it does not
  -- put the first behind the second, nor the second behind the third, it does not put the first
  -- behind the third.
  pub compare_candidates_trans :
      (x y z : Candidate)
      → lookup.override_dir ≡ []
      → Agree x y
      → Agree y z
      → Agree x z
      → HasSlash x
      → HasSlash y
      → HasSlash z
      → compare_candidates lookup x y ≢ Ordering.gt
      → compare_candidates lookup y z ≢ Ordering.gt
      → compare_candidates lookup x z ≢ Ordering.gt
  compare_candidates_trans x y z o a b c h k l p q = rw (candidates-by_steps x z o c h l) (
      by_steps-IsOrder.transits x y z (rw (candidates-by_steps x y o a h k) at p)
        (rw (candidates-by_steps y z o b k l) at q))
