-- ===== src/Encodings/Laws.antt =====
-- Laws of the lookups of lib/encodings.c.
use mandb.Base.{
  not, ◌==◌, ℕ, Bool, true, false, ◌&&◌, ◌||◌, codes, if◌then◌else◌, Option, none, some, List, [],
  ◌∷◌, ◌++◌, map, Bytes, ◌≡◌, inl, inr, refl, sym, ap, ◌∙◌, arith, Lacks, Bool-cases,
}
use mandb.CString.{streq, starts_with}
use mandb.CString.Compare.{streq_iff}
use mandb.CString.Search.{behind-append}
use mandb.Encodings.{
  first_equal, first_prefix, toupper, or_default, get_canonical_charset_name, before_modifier,
  encoding_in_table, page_encoding, get_page_encoding, get_source_encoding, compatible_encodings,
  is_roff_device, get_roff_encoding, get_output_encoding, device_for, get_default_device, utf8,
  fallback_source_encoding, ascii, language,
}
use mandb.Encodings.Tables.{charset_alias_table, charset_table, directory_table}

-- A check of every row by evaluation, and what it gives of a row that a loop finds.
every : (Bytes → Bytes → Bool) → List (Bytes × Bytes) → Bool
every p [] = true
every p ((k, v) ∷ rows) = p k v && every p rows

first_equal-every :
    (p : Bytes → Bytes → Bool) (rows : List (Bytes × Bytes)) (s v : Bytes)
    → every p rows ≡ true
    → first_equal rows s ≡ some v
    → p s v ≡ true
unfolding first_equal every
first_equal-every p [] s v h e = ground arith
first_equal-every p ((k, w) ∷ rows) s v h e =
    ground (arith, first_equal-every p rows s v, streq_iff k s)

is_canonical : Bytes → Bytes → Bool
is_canonical k v = streq (get_canonical_charset_name v) v

aliases_canonical : every is_canonical charset_alias_table ≡ true
unfolding every is_canonical get_canonical_charset_name toupper streq
aliases_canonical = refl

row_canonical :
    (s v : Bytes) → first_equal charset_alias_table s ≡ some v → get_canonical_charset_name v ≡ v
unfolding is_canonical
row_canonical s v e =
    (streq_iff (get_canonical_charset_name v) v).0
      (first_equal-every is_canonical charset_alias_table s v aliases_canonical e)

-- The canonical name of a character set is its own canonical name.
get_canonical_charset_name_idem :
    (charset : Bytes)
    → get_canonical_charset_name (get_canonical_charset_name charset)
      ≡ get_canonical_charset_name charset
get_canonical_charset_name_idem charset =
    by_row (first_equal charset_alias_table (map toupper charset)) refl
  where
    canonical_eq :
        (o : Option Bytes)
        → first_equal charset_alias_table (map toupper charset) ≡ o
        → get_canonical_charset_name charset ≡ or_default o charset
    canonical_eq o e = unfold get_canonical_charset_name in ap (λ r. or_default r charset) e

    by_row :
        (o : Option Bytes)
        → first_equal charset_alias_table (map toupper charset) ≡ o
        → get_canonical_charset_name (get_canonical_charset_name charset)
          ≡ get_canonical_charset_name charset
    by_row none e = ap get_canonical_charset_name (canonical_eq none e)
    by_row (some v) e =
        ap get_canonical_charset_name (canonical_eq (some v) e)
        ∙ row_canonical (map toupper charset) v e
        ∙ sym (canonical_eq (some v) e)

lacks_dot : Bytes → Bytes → Bool
lacks_dot [] v = true
lacks_dot (c ∷ k) v = not (c == b'.') && lacks_dot k v

directories_dotless : every lacks_dot directory_table ≡ true
unfolding every lacks_dot
directories_dotless = refl

starts_with-dotless :
    (k v dir rest : Bytes)
    → lacks_dot k v ≡ true
    → starts_with k (dir ++ (b'.' ∷ rest)) ≡ starts_with k dir
unfolding starts_with lacks_dot
starts_with-dotless [] v dir rest h = refl
starts_with-dotless (c ∷ k) v [] rest h = ground arith
starts_with-dotless (c ∷ k) v (x ∷ dir) rest h = ground (arith, starts_with-dotless k v dir rest)

first_prefix-dotless :
    (rows : List (Bytes × Bytes)) (dir rest : Bytes)
    → every lacks_dot rows ≡ true
    → first_prefix rows (dir ++ (b'.' ∷ rest)) ≡ first_prefix rows dir
unfolding first_prefix every
first_prefix-dotless [] dir rest h = refl
first_prefix-dotless ((k, v) ∷ rows) dir rest h =
    ground (arith, first_prefix-dotless rows dir rest, starts_with-dotless k v dir rest)

-- The source encoding of a directory with a name that is not empty does not depend on a dot and an
-- encoding behind the name, whatever the locale.
get_source_encoding_dot :
    (c : ℕ) (dir encoding : Bytes) (locale : Option Bytes)
    → get_source_encoding (some (c ∷ (dir ++ (b'.' ∷ encoding)))) locale
      ≡ get_source_encoding (some (c ∷ dir)) locale
unfolding get_source_encoding language encoding_in_table
get_source_encoding_dot c dir encoding locale =
    ap (λ o. or_default o fallback_source_encoding)
      (first_prefix-dotless directory_table (c ∷ dir) encoding directories_dotless)

before_modifier_lem :
    (encoding modifier : Bytes)
    → Lacks b',' encoding
    → Lacks b'@' encoding
    → before_modifier (encoding ++ (b'@' ∷ modifier)) ≡ encoding
unfolding before_modifier
before_modifier_lem [] modifier comma at = refl
before_modifier_lem (c ∷ s) modifier (x, comma) (y, at) =
    ground (arith, before_modifier_lem s modifier comma at)

page_encoding_dot :
    (dir encoding modifier : Bytes)
    → Lacks b'.' dir
    → Lacks b',' encoding
    → Lacks b'@' encoding
    → page_encoding (dir ++ (b'.' ∷ (encoding ++ (b'@' ∷ modifier))))
      ≡ get_canonical_charset_name encoding
unfolding page_encoding
page_encoding_dot dir encoding modifier l comma at = ground (
  arith,
  behind-append b'.' dir (encoding ++ (b'@' ∷ modifier)) l,
  before_modifier_lem encoding modifier comma at,
)

-- The page encoding of a directory without a dot in its language, which is followed by a dot, an
-- encoding without a comma or an at sign, and an at sign and a modifier, is the canonical name of
-- that encoding, whatever the locale.
get_page_encoding_dot :
    (dir encoding modifier : Bytes) (locale : Option Bytes)
    → Lacks b'.' dir
    → Lacks b',' encoding
    → Lacks b'@' encoding
    → get_page_encoding (some (dir ++ (b'.' ∷ (encoding ++ (b'@' ∷ modifier))))) locale
      ≡ get_canonical_charset_name encoding
unfolding get_page_encoding language
get_page_encoding_dot [] encoding modifier locale l comma at =
    page_encoding_dot [] encoding modifier l comma at
get_page_encoding_dot (c ∷ dir) encoding modifier locale l comma at =
    page_encoding_dot (c ∷ dir) encoding modifier l comma at

-- The encodings of a page that every device without preconv can be given.
unfoldable pub is_recodable : Bytes → Bool
is_recodable source = streq source (codes "ISO-8859-1") || streq source ascii || streq source utf8

compatible-latin1 :
    (source : Bytes) → compatible_encodings source (codes "ISO-8859-1") ≡ is_recodable source
unfolding compatible_encodings is_recodable
compatible-latin1 source = elim (Bool-cases (streq source (codes "ISO-8859-1"))) [
  | inl t ↦ rw t refl
  | inr t ↦ rw t (elim (Bool-cases (streq source ascii)) [
    | inl u ↦ rw u refl
    | inr u ↦ rw u (elim (Bool-cases (streq source utf8)) [
      | inl v ↦ rw v refl
      | inr v ↦ rw v (unfold streq in refl)
    ])
  ])
]

-- The character set that is printed in: the locale's, or ASCII.
unfoldable pub printed_charset : Bytes → Bytes → Bytes
unfolding is_recodable
printed_charset charset source =
    if (streq (codes "ISO-8859-1") charset || streq utf8 charset) && is_recodable source
    then charset
    else ascii

-- Each row of the table, once the test of its encoding is known.
default_latin1 :
    (source : Bytes)
    → get_output_encoding (get_default_device false (some (codes "ISO-8859-1")) source)
      ≡ some (printed_charset (codes "ISO-8859-1") source)
unfolding get_default_device device_for get_roff_encoding get_output_encoding printed_charset streq
default_latin1 source =
    rw (compatible-latin1 source)
      (elim (Bool-cases (is_recodable source)) [ inl t ↦ rw t refl | inr t ↦ rw t refl ])

default_utf8 :
    (source : Bytes)
    → get_output_encoding (get_default_device false (some utf8) source)
      ≡ some (printed_charset utf8 source)
unfolding get_default_device device_for get_roff_encoding get_output_encoding printed_charset streq
default_utf8 source =
    rw (compatible-latin1 source)
      (elim (Bool-cases (is_recodable source)) [ inl t ↦ rw t refl | inr t ↦ rw t refl ])

default_ascii :
    (source : Bytes)
    → get_output_encoding (get_default_device false (some ascii) source)
      ≡ some (printed_charset ascii source)
unfolding get_default_device device_for get_roff_encoding get_output_encoding printed_charset streq
default_ascii source = elim (Bool-cases (compatible_encodings source ascii)) [
  | inl t ↦ rw t refl
  | inr t ↦ rw t refl
]

default_other :
    (charset source : Bytes)
    → streq ascii charset ≡ false
    → streq (codes "ISO-8859-1") charset ≡ false
    → streq utf8 charset ≡ false
    → get_output_encoding (get_default_device false (some charset) source)
      ≡ some (printed_charset charset source)
unfolding get_default_device device_for printed_charset
default_other charset source a b c = rw a (rw b (rw c (unfold get_output_encoding streq in refl)))

-- Without preconv, the default device for a locale's character set prints in that set if it is
-- ISO-8859-1 or UTF-8 and the page's encoding is ISO-8859-1, ASCII or UTF-8, and in ASCII in every
-- other case.
pub get_output_encoding-get_default_device :
    (charset source : Bytes)
    → get_output_encoding (get_default_device false (some charset) source)
      ≡ some (printed_charset charset source)
get_output_encoding-get_default_device charset source = elim (Bool-cases (streq ascii charset)) [
  | inl t ↦ rw (sym ((streq_iff ascii charset).0 t)) (default_ascii source)
  | inr a ↦ elim (Bool-cases (streq (codes "ISO-8859-1") charset)) [
    | inl t ↦ rw (sym ((streq_iff (codes "ISO-8859-1") charset).0 t)) (default_latin1 source)
    | inr b ↦ elim (Bool-cases (streq utf8 charset)) [
      | inl t ↦ rw (sym ((streq_iff utf8 charset).0 t)) (default_utf8 source)
      | inr c ↦ default_other charset source a b c
    ]
  ]
]

known_device : Bytes → Bytes → Bool
known_device k v = is_roff_device v

defaults_known : every known_device charset_table ≡ true
unfolding every known_device is_roff_device streq
defaults_known = refl

device_for-known :
    (rows : List (Bytes × Bytes)) (charset source : Bytes)
    → every known_device rows ≡ true
    → is_roff_device (device_for rows charset source) ≡ true
unfolding device_for every known_device
device_for-known [] charset source h = unfold is_roff_device streq in refl
device_for-known ((k, device) ∷ rows) charset source h =
    ground (arith, device_for-known rows charset source)

-- The default device is always a device of the table.
get_default_device-is_roff_device :
    (preconv : Bool) (charset : Option Bytes) (source : Bytes)
    → is_roff_device (get_default_device preconv charset source) ≡ true
unfolding get_default_device
get_default_device-is_roff_device true none source = unfold is_roff_device streq in refl
get_default_device-is_roff_device true (some charset) source =
    elim (Bool-cases (streq charset ascii)) [
      | inl t ↦ rw t (unfold is_roff_device streq in refl)
      | inr t ↦ rw t (unfold is_roff_device streq in refl)
    ]
get_default_device-is_roff_device false none source = unfold is_roff_device streq in refl
get_default_device-is_roff_device false (some charset) source =
    device_for-known charset_table charset source defaults_known
