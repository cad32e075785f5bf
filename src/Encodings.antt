-- ===== src/Encodings.antt =====
-- lib/encodings.c: the encodings of pages, devices and pagers.
pub mod Tables
pub mod Laws
use mandb.Base.{
  ℕ, Bool, true, false, ◌&&◌, ◌||◌, Option, none, some, List, [], ◌∷◌, ◌++◌, map, Bytes, codes,
  ◌==◌, leb, ◌-◌, length, if◌then◌else◌, is_some,
}
use mandb.CString.{streq, starts_with, has, before, behind, is_lower}
use Tables.{
  directory_table, charset_alias_table, charset_table, device_table, less_charset_table,
  DeviceEntry, LessCharsetEntry,
}

abbrev pub fallback_source_encoding : Bytes
fallback_source_encoding = codes "ISO-8859-1"

abbrev pub fallback_default_device : Bytes
fallback_default_device = codes "ascii"

abbrev pub fallback_roff_encoding : Bytes
fallback_roff_encoding = codes "ISO-8859-1"

abbrev pub fallback_less_charset : Bytes
fallback_less_charset = codes "iso8859"

abbrev pub ascii : Bytes
ascii = codes "ANSI_X3.4-1968"

abbrev pub utf8 : Bytes
utf8 = codes "UTF-8"

-- The loops over the tables: the first row whose key is equal, or is a prefix.
pub first_equal : List (Bytes × Bytes) → Bytes → Option Bytes
first_equal [] s = none
first_equal ((k, v) ∷ rows) s = if streq k s then some v else first_equal rows s

pub first_prefix : List (Bytes × Bytes) → Bytes → Option Bytes
first_prefix [] s = none
first_prefix ((k, v) ∷ rows) s = if starts_with k s then some v else first_prefix rows s

unfoldable pub toupper : ℕ → ℕ
unfolding is_lower
toupper c = if is_lower c then c - 32 else c

abbrev pub or_default : Option Bytes → Bytes → Bytes
or_default none d = d
or_default (some s) d = s

unfoldable pub get_canonical_charset_name : Bytes → Bytes
unfolding first_equal
get_canonical_charset_name charset =
    or_default (first_equal charset_alias_table (map toupper charset)) charset

-- strcspn (s, ",@"): the bytes before a comma or an at sign.
pub before_modifier : Bytes → Bytes
before_modifier [] = []
before_modifier (c ∷ s) = if c == b',' || c == b'@' then [] else c ∷ before_modifier s

-- The language, or the locale's if there is none or an empty one.
unfoldable pub language : Option Bytes → Option Bytes → Option Bytes
language (some (c ∷ s)) locale = some (c ∷ s)
language (some []) locale = locale
language none locale = locale

-- The rows of the directory table, behind the test for an encoding in the name.
unfoldable pub encoding_in_table : Bytes → Bytes
unfolding first_prefix
encoding_in_table lang = or_default (first_prefix directory_table lang) fallback_source_encoding

unfoldable pub page_encoding : Bytes → Bytes
unfolding encoding_in_table before_modifier
page_encoding lang = elim (behind b'.' lang) [
  | some encoding ↦ get_canonical_charset_name (before_modifier encoding)
  | none ↦ encoding_in_table lang
]

-- The second argument of this and the next is setlocale (LC_MESSAGES, NULL).
unfoldable pub get_page_encoding : Option Bytes → Option Bytes → Bytes
unfolding language
get_page_encoding lang locale = elim (language lang locale) [
  | none ↦ fallback_source_encoding
  | some l ↦ page_encoding l
]

unfoldable pub get_source_encoding : Option Bytes → Option Bytes → Bytes
unfolding language encoding_in_table
get_source_encoding lang locale = elim (language lang locale) [
  | none ↦ fallback_source_encoding
  | some l ↦ encoding_in_table l
]

unfoldable pub compatible_encodings : Bytes → Bytes → Bool
compatible_encodings input output =
    streq input output || streq input ascii || streq input utf8 || streq output ascii

find_device : List DeviceEntry → Bytes → Option DeviceEntry
find_device [] device = none
find_device (e ∷ rows) device =
    if streq e.roff_device device then some e else find_device rows device

unfoldable pub is_roff_device : Bytes → Bool
unfolding find_device
is_roff_device device = is_some (find_device device_table device)

unfoldable pub roff_encoding_of : Option DeviceEntry → Bytes → Bytes
roff_encoding_of none source_encoding = fallback_roff_encoding
roff_encoding_of (some e) source_encoding = or_default e.roff_encoding source_encoding

unfoldable pub get_roff_encoding : Option Bytes → Bytes → Bytes
unfolding roff_encoding_of find_device
get_roff_encoding none source_encoding = fallback_roff_encoding
get_roff_encoding (some device) source_encoding =
    roff_encoding_of (find_device device_table device) source_encoding

unfoldable pub get_output_encoding : Bytes → Option Bytes
unfolding find_device
get_output_encoding device = elim (find_device device_table device) [
  | none ↦ none
  | some e ↦ e.output_encoding
]

-- The static variable groff_preconv after get_groff_preconv, and its result. The argument is
-- pathsearch_executable.
unfoldable pub get_groff_preconv : (Bytes → Bool) → Option Bytes → Option Bytes × Option Bytes
get_groff_preconv executable (some []) = (some [], none)
get_groff_preconv executable (some (c ∷ s)) = (some (c ∷ s), some (c ∷ s))
get_groff_preconv executable none =
    if executable (codes "gpreconv")
    then (some (codes "gpreconv"), some (codes "gpreconv"))
    else if executable (codes "preconv")
    then (some (codes "preconv"), some (codes "preconv"))
    else (some [], none)

-- The loop over charset_table.
pub device_for : List (Bytes × Bytes) → Bytes → Bytes → Bytes
device_for [] charset source_encoding = fallback_default_device
device_for ((k, device) ∷ rows) charset source_encoding =
    if streq k charset
      && compatible_encodings source_encoding (get_roff_encoding (some device) source_encoding)
    then device
    else device_for rows charset source_encoding

-- The first argument is whether get_groff_preconv finds a preconv.
unfoldable pub get_default_device : Bool → Option Bytes → Bytes → Bytes
unfolding device_for
get_default_device true none source_encoding = codes "utf8"
get_default_device true (some charset) source_encoding =
    if streq charset ascii then codes "ascii" else codes "utf8"
get_default_device false none source_encoding = fallback_default_device
get_default_device false (some charset) source_encoding =
    device_for charset_table charset source_encoding

find_less : List LessCharsetEntry → Bytes → Option LessCharsetEntry
find_less [] charset = none
find_less (e ∷ rows) charset =
    if streq e.charset_from_locale charset then some e else find_less rows charset

unfoldable pub get_less_charset : Option Bytes → Bytes
unfolding find_less
get_less_charset none = fallback_less_charset
get_less_charset (some charset) = elim (find_less less_charset_table charset) [
  | none ↦ fallback_less_charset
  | some e ↦ e.less_charset
]

unfoldable pub get_jless_charset : Option Bytes → Option Bytes
unfolding find_less
get_jless_charset none = none
get_jless_charset (some charset) = elim (find_less less_charset_table charset) [
  | none ↦ none
  | some e ↦ e.jless_charset
]
