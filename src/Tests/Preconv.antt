-- ===== src/Tests/Preconv.antt =====
-- The first line of a page (src/manconv.c).
use mandb.Base.{false, some, Bytes, codes, ◌++◌, [], ◌∷◌, ◌≡◌, refl}
use mandb.CString.{
  before, behind, starts_with, strstr, has, is_alpha, is_upper, is_lower, is_digit, streq, tolower,
}
use mandb.Mandirs.{same_case}
use mandb.Preconv.{
  newline, check_preprocessor_encoding, modified, find_declared, find_in_directive, find_coding,
  declared, strspn, is_blank, is_encoding_char, convert_encoding, convert_by, conversion_table,
  strip,
}
use mandb.Preconv.Declares.{Declares, check_preprocessor_encoding-modified}

-- A page in KOI8-R, whose first line is to say UTF-8.
abbrev declared_line : Bytes
declared_line = codes "'\\\" t -*- mode: troff; coding: koi8-r-unix -*-\nA page"

abbrev recoded_line : Bytes
recoded_line = codes "'\\\" t -*- mode: troff; coding: UTF-8 -*-\n"

declared_run :
    check_preprocessor_encoding (some (codes "UTF-8")) (some declared_line)
    ≡ (some (codes "koi8-r"), some recoded_line)
unfolding check_preprocessor_encoding modified find_declared find_in_directive find_coding declared
    strspn is_blank is_encoding_char convert_encoding convert_by conversion_table strip before
    behind starts_with strstr has is_alpha is_upper is_lower is_digit same_case streq tolower
declared_run = refl

check_preprocessor_encoding-modified_example :
    (start : Bytes) × (name : Bytes) × (rest : Bytes) × (before newline declared_line
      ≡ start ++ (name ++ rest))
    × Declares start name rest
    × (codes "koi8-r" ≡ convert_encoding name)
    × (same_case (codes "koi8-r") (codes "UTF-8") ≡ false)
    × (recoded_line ≡ start ++ (codes "UTF-8" ++ (rest ++ (newline ∷ []))))
check_preprocessor_encoding-modified_example =
    check_preprocessor_encoding-modified (codes "UTF-8") declared_line (codes "koi8-r") recoded_line
      declared_run
