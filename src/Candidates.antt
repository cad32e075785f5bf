-- ===== src/Candidates.antt =====
-- The candidates for a page: their order, and which are duplicates (src/man.c).
pub mod Order
pub mod Antisymmetric
pub mod Transitive
pub mod Adding
pub mod Add
use mandb.Base.{
  ℕ, suc, Bool, true, false, not, ◌&&◌, ◌||◌, Option, none, some, List, [], ◌∷◌, ◌++◌, Bytes, codes,
  ◌==◌, ltb, leb, if◌then◌else◌, get_or, is_some, take, drop, length, compare, Ordering,
}
use mandb.CString.{streq, starts_with, strcmp, or_else, split_last, before}
use mandb.Encodings.{get_canonical_charset_name, utf8}
use mandb.Locale.{LocaleBits, unpack_locale_bits}
use mandb.Db.Record.{Mandata}
use mandb.Db.Ids.{compare_ids, ult_man}
use mandb.Manpath.Nls.{is_empty}

pub record Candidate : Type 0 where
  pub req_name : Bytes
  pub from_db : Bool
  pub cat : Bool
  pub path : Bytes
  pub ult : Option Bytes
  pub source : Mandata
  pub add_index : ℕ

-- What the order reads besides: the section asked for, section_list, OVERRIDE_DIR and the locale.
pub record Search : Type 0 where
  pub section : Option Bytes
  pub section_list : List Bytes
  pub override_dir : Bytes
  pub internal_locale : Bytes

-- -1 if only the left one has the property, 1 if only the right one has.
unfoldable pub prefer : Bool → Bool → Ordering
prefer true false = Ordering.lt
prefer false true = Ordering.gt
prefer _ _ = Ordering.eq

unfoldable pub exact_name : Candidate → Bool
exact_name c = streq (get_or [] c.source.name) c.req_name

-- gl_list_indexof; `none` is (size_t) -1, which is above all indices.
unfoldable pub index_of : Bytes → List Bytes → Option ℕ
index_of s [] = none
index_of s (x ∷ list) =
    let rest = index_of s list in
    if streq x s then some 0 else elim rest [ none ↦ none | some i ↦ some (suc i) ]

-- index_left and index_right: by the extension, then by its first byte if it has more than one.
unfoldable pub section_index : List Bytes → Bytes → Option ℕ
section_index list ext = elim (index_of ext list) [
  | some i ↦ some i
  | none ↦
      if ltb 1 (length ext)
      then elim (index_of (take 1 ext) list) [ some i ↦ some i | none ↦ some (length list) ]
      else none
]

unfoldable pub compare_index : Option ℕ → Option ℕ → Ordering
compare_index none none = Ordering.eq
compare_index none (some j) = Ordering.gt
compare_index (some i) none = Ordering.lt
compare_index (some i) (some j) = compare i j

-- The path behind its last slash, if it has one.
unfoldable pub last_part : Bytes → Option Bytes
last_part path = elim (split_last b'/' path) [ none ↦ none | some (a, b) ↦ some b ]

-- Whether the first path is OVERRIDE_DIR below the second.
unfoldable pub in_override : Bytes → Bytes → Bytes → Bool
in_override override_dir path base =
    starts_with base path && streq (drop (length base) path) (b'/' ∷ override_dir)

unfoldable pub compare_override_dir : Bytes → Bytes → Bytes → Ordering
compare_override_dir override_dir left right =
    if is_empty override_dir || length left == length right
    then Ordering.eq
    else if ltb (length right) (length left)
    then if in_override override_dir left right then Ordering.lt else Ordering.eq
    else if in_override override_dir right left
    then Ordering.gt
    else Ordering.eq

-- COMPARE_LOCALE_ELEMENTS
unfoldable pub compare_elements : Bytes → Bytes → Bytes → Ordering
compare_elements lbit bit1 bit2 =
    or_else (if is_empty lbit then Ordering.eq else prefer (streq lbit bit1) (streq lbit bit2))
      (strcmp bit1 bit2)

unfoldable pub is_utf8 : LocaleBits → Bool
is_utf8 bits = streq (get_canonical_charset_name bits.codeset) utf8

unfoldable pub compare_bits : LocaleBits → LocaleBits → LocaleBits → Ordering
compare_bits lbits bits1 bits2 =
    or_else (compare_elements lbits.language bits1.language bits2.language) (
      or_else (compare_elements lbits.territory bits1.territory bits2.territory) (
        or_else (compare_elements lbits.modifier bits1.modifier bits2.modifier)
          (prefer (is_utf8 bits1) (is_utf8 bits2))))

unfoldable pub compare_parts : LocaleBits → Option Bytes → Option Bytes → Ordering
compare_parts lbits (some slash1) (some slash2) =
    compare_bits lbits (unpack_locale_bits slash1) (unpack_locale_bits slash2)
compare_parts lbits _ _ = Ordering.eq

module _ (lookup : Search) where
  open lookup use {section, section_list, override_dir, internal_locale}

  unfoldable pub prefer_section : Bytes → Bytes → Ordering
  prefer_section left right = elim section [
    | none ↦ Ordering.eq
    | some s ↦ prefer (streq left s) (streq right s)
  ]

  -- What is compared of two extensions that differ.
  unfoldable pub compare_sections : Mandata → Mandata → Ordering
  compare_sections left right = or_else (prefer_section left.ext right.ext) (
      or_else
        (compare_index (section_index section_list left.ext) (section_index section_list right.ext))
        (strcmp left.sec right.sec))

  unfoldable pub compare_exts : Mandata → Mandata → Ordering
  compare_exts left right =
      or_else (if streq left.ext right.ext then Ordering.eq else compare_sections left right)
        (strcmp left.ext right.ext)

  unfoldable pub compare_locales : Bytes → Bytes → Ordering
  compare_locales left right =
      compare_parts (unpack_locale_bits (before b':' internal_locale)) (last_part left)
        (last_part right)

  unfoldable pub compare_candidates : Candidate → Candidate → Ordering
  compare_candidates left right = or_else (prefer (exact_name left) (exact_name right)) (
      or_else (compare_ids left.source.id right.source.id true) (
        or_else (compare_exts left.source right.source) (
          or_else (compare_override_dir override_dir left.path right.path) (
            or_else (compare_locales left.path right.path)
              (compare left.add_index right.add_index)))))

-- STREQ on two pointers of which either may be NULL, which is false then.
unfoldable pub same_ult : Option Bytes → Option Bytes → Bool
same_ult (some a) (some b) = streq a b
same_ult _ _ = false

unfoldable pub same_page : Mandata → Mandata → Bool
same_page left right =
    streq (get_or [] left.name) (get_or [] right.name)
    && streq left.sec right.sec
    && streq left.ext right.ext

unfoldable pub same_locale : LocaleBits → LocaleBits → Bool
same_locale bits1 bits2 =
    streq bits1.language bits2.language
    && streq bits1.territory bits2.territory
    && streq bits1.modifier bits2.modifier

-- Two paths, split at their last slashes, that differ: whether they are of one base and one locale.
unfoldable pub same_base : Bytes → Bytes → Bool
same_base left right = elim (split_last b'/' left) [
  | none ↦ false
  | some (a1, slash1) ↦ elim (split_last b'/' right) [
    | none ↦ false
    | some (a2, slash2) ↦
        let n = if ltb (length a1) (length a2) then length a2 else length a1 in
        streq (take n left) (take n right)
        && same_locale (unpack_locale_bits slash1) (unpack_locale_bits slash2)
  ]
]

unfoldable pub duplicate_candidates : Candidate → Candidate → Bool
duplicate_candidates left right =
    if same_ult left.ult right.ult
    then true
    else if not (same_page left.source right.source)
    then false
    else if streq left.path right.path
    then true
    else same_base left.path right.path
