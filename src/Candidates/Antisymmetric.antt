-- ===== src/Candidates/Antisymmetric.antt =====
-- compare_candidates (src/man.c) with its arguments exchanged.
use mandb.Base.{Option, none, some, Bytes, ◌≡◌, refl, arith, Ordering}
use mandb.CString.{streq, before}
use mandb.CString.Compare.{flip, streq_comm, strcmp-flip, compare-flip}
use mandb.Db.Record.{Mandata}
use mandb.Locale.{LocaleBits, unpack_locale_bits}
use mandb.Candidates.Order.{
  then-flips, prefer-IsOrder, compare_ids-IsOrder, compare_index-IsOrder, compare_bits-IsOrder,
}
use mandb.Candidates.{
  Candidate, Search, prefer, exact_name, section_index, prefer_section, compare_sections,
  compare_exts, compare_override_dir, last_part, compare_parts, compare_locales, compare_candidates,
}

compare_override_dir-flip :
    (override_dir left right : Bytes)
    → compare_override_dir override_dir right left
      ≡ flip (compare_override_dir override_dir left right)
unfolding compare_override_dir
compare_override_dir-flip override_dir left right = ground arith

compare_parts-flip :
    (lbits : LocaleBits) (left right : Option Bytes)
    → compare_parts lbits right left ≡ flip (compare_parts lbits left right)
unfolding compare_parts
compare_parts-flip lbits none none = refl
compare_parts-flip lbits none (some b) = refl
compare_parts-flip lbits (some a) none = refl
compare_parts-flip lbits (some a) (some b) =
    (compare_bits-IsOrder lbits).flips (unpack_locale_bits a) (unpack_locale_bits b)

module _ (lookup : Search) where
  prefer_section-flip : (l r : Bytes) → prefer_section lookup r l ≡ flip (prefer_section lookup l r)
  unfolding prefer_section
  prefer_section-flip l r = at lookup.section
    where
      at :
          (s : Option Bytes)
          → elim s [ none ↦ Ordering.eq | some s ↦ prefer (streq r s) (streq l s) ]
            ≡ flip (elim s [ none ↦ Ordering.eq | some s ↦ prefer (streq l s) (streq r s) ])
      at none = refl
      at (some s) = prefer-IsOrder.flips (streq l s) (streq r s)

  compare_sections-flip :
      (l r : Mandata) → compare_sections lookup r l ≡ flip (compare_sections lookup l r)
  unfolding compare_sections
  compare_sections-flip l r = then-flips _ _ _ _ (prefer_section-flip l.ext r.ext) (
      then-flips _ _ _ _
        (compare_index-IsOrder.flips (section_index lookup.section_list l.ext)
          (section_index lookup.section_list r.ext))
        (strcmp-flip l.sec r.sec))

  compare_exts-flip : (l r : Mandata) → compare_exts lookup r l ≡ flip (compare_exts lookup l r)
  unfolding compare_exts
  compare_exts-flip l r =
      then-flips _ _ _ _ (ground (arith, streq_comm l.ext r.ext, compare_sections-flip l r))
        (strcmp-flip l.ext r.ext)

  -- Exchanging the arguments of compare_candidates reverses the sign of its result.
  compare_candidates-flip :
      (l r : Candidate) → compare_candidates lookup r l ≡ flip (compare_candidates lookup l r)
  unfolding compare_candidates compare_locales
  compare_candidates-flip l r =
      then-flips _ _ _ _ (prefer-IsOrder.flips (exact_name l) (exact_name r)) (
        then-flips _ _ _ _ (compare_ids-IsOrder.flips l.source.id r.source.id) (
          then-flips _ _ _ _ (compare_exts-flip l.source r.source) (
            then-flips _ _ _ _ (compare_override_dir-flip lookup.override_dir l.path r.path) (
              then-flips _ _ _ _
                (compare_parts-flip (unpack_locale_bits (before b':' lookup.internal_locale))
                  (last_part l.path) (last_part r.path))
                (compare-flip l.add_index r.add_index)))))
