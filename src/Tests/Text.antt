-- ===== src/Tests/Text.antt =====
-- Decompression, encodings and texts on small inputs.
use mandb.Base.{
  ◌++◌, ℕ, zero, suc, true, false, none, some, List, [], ◌∷◌, Bytes, codes, ◌≡◌, ◌<◌, refl, arith,
  length, map,
}
use mandb.CString.{has, streq, is_alpha, is_upper, is_lower}
use mandb.Decompress.{Inprocess, newline, rest, decompress_new_inprocess}
use mandb.Decompress.Laws.{IsReader}
use mandb.Decompress.Zlib.{
  Gzread, bytes, Delivers, max_inprocess, decompress_try_zlib, decompress_try_zlib-Delivers,
  read_loop,
}
use mandb.Encodings.{get_default_device, get_output_encoding}
use mandb.Encodings.Laws.{get_output_encoding-get_default_device, printed_charset, is_recodable}
use mandb.WordFnmatch.{word_fnmatch, is_word_char}
use mandb.WordFnmatch.Words.{word_fnmatch-any_word, IsSplit, text_of, any_word}
use mandb.Descriptions.{parse_descriptions, trim_spaces, skip_spaces, drop_spaces}
use mandb.Descriptions.Render.{base_entry, line_text, described, parse_descriptions-line_text}

abbrev two_lines : Inprocess
two_lines = record { buf = codes "a\nbc\nd"; len = 6; offset = 0; line_cache = none }

two_lines-IsReader : IsReader two_lines
two_lines-IsReader = record { sized = refl; within = omega arith }

two_lines-newline : has newline (rest two_lines) ≡ true
unfolding has
two_lines-newline = refl

-- A file of three bytes, which two reads give.
abbrev gz_file : ℕ → ℕ → ℕ × Gzread
gz_file room zero = (1, bytes (codes "ab"))
gz_file room (suc zero) = (2, bytes (codes "c"))
gz_file room (suc (suc n)) = (n, bytes [])

abbrev three_bytes : Inprocess
three_bytes = record { buf = codes "abc"; len = 3; offset = 0; line_cache = none }

read_three : decompress_try_zlib gz_file (some 0) ≡ some three_bytes
unfolding decompress_try_zlib read_loop decompress_new_inprocess
read_three = refl

decompress_try_zlib-Delivers_example :
    Delivers gz_file max_inprocess [] 0 (codes "abc")
    × (three_bytes.len ≡ length three_bytes.buf)
    × (three_bytes.len < max_inprocess)
decompress_try_zlib-Delivers_example = decompress_try_zlib-Delivers gz_file 0 three_bytes read_three

abbrev two_words : List (Bytes × ℕ)
two_words = (codes "ab", b' ') ∷ (codes "bc", b'.') ∷ []

word_fnmatch-any_word_example :
    word_fnmatch streq (codes "bc") (text_of two_words) ≡ any_word (streq (codes "bc")) two_words
word_fnmatch-any_word_example = word_fnmatch-any_word streq (codes "bc") two_words split
  where
    split : IsSplit two_words
    split = unfold is_word_char is_alpha is_upper is_lower in ground arith

abbrev line : Bytes
line = codes "cat, tac - copy"

parse_descriptions-line_text_example :
    parse_descriptions
      (some (codes "page"))
      (some (line_text (codes "cat") (codes "tac" ∷ []) (codes "copy")))
    ≡ map (described (codes "copy")) (codes "cat" ∷ codes "tac" ∷ [])
      ++ base_entry (some (codes "page")) (codes "copy") (codes "cat" ∷ codes "tac" ∷ [])
parse_descriptions-line_text_example =
    parse_descriptions-line_text (some (codes "page")) (codes "cat") (codes "tac" ∷ [])
      (codes "copy") (ground arith) (ground arith, tt) (ground arith) trimmed
  where
    trimmed : trim_spaces (codes "copy") ≡ codes "copy"
    trimmed = unfold trim_spaces skip_spaces drop_spaces in refl

get_output_encoding-get_default_device_example :
    get_output_encoding (get_default_device false (some (codes "UTF-8")) (codes "KOI8-R"))
    ≡ some (codes "ANSI_X3.4-1968")
unfolding printed_charset is_recodable streq
get_output_encoding-get_default_device_example =
    get_output_encoding-get_default_device (codes "UTF-8") (codes "KOI8-R")
