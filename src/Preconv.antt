-- ===== src/Preconv.antt =====
-- The declaration of an encoding on the first line of a page: check_preprocessor_encoding
-- (src/manconv.c).
pub mod Declares
use mandb.Base.{
  ℕ, zero, suc, ◌-◌, Bool, true, false, ◌&&◌, ◌||◌, Option, none, some, List, [], ◌∷◌, ◌++◌, Bytes,
  codes, ◌==◌, ltb, if◌then◌else◌, take, drop, length, ◌≡◌, inl, inr, refl, sym, ap, ◌∙◌, arith,
  append_assoc, take-append-drop, Option-cases, Bool-cases,
}
use mandb.CString.{starts_with, strstr, has, before, behind, is_alpha, is_digit}
use mandb.CString.Search.{starts_with-split, strstr_sound}
use mandb.Mandirs.{same_case}

abbrev pub newline : ℕ
newline = 10

-- strspn: the bytes that stand in the set, and those from the first one that does not.
unfoldable pub strspn : (ℕ → Bool) → Bytes → Bytes × Bytes
strspn p [] = ([], [])
strspn p (c ∷ s) = let (a, b) = strspn p s in if p c then (c ∷ a, b) else ([], c ∷ s)

unfoldable pub is_blank : ℕ → Bool
is_blank c = c == b' '

unfoldable pub is_encoding_char : ℕ → Bool
is_encoding_char c = is_alpha c || is_digit c || has c (codes "-_/:.()")

unfoldable pub conversion_table : List (Bytes × Bytes)
conversion_table =
    (codes "chinese-big5", codes "Big5")
    ∷ (codes "chinese-euc", codes "GB2312")
    ∷ (codes "chinese-iso-8bit", codes "GB2312")
    ∷ (codes "cn-gb-2312", codes "GB2312")
    ∷ (codes "cp878", codes "KOI8-R")
    ∷ (codes "cyrillic-iso-8bit", codes "ISO-8859-5")
    ∷ (codes "cyrillic-koi8", codes "KOI8-R")
    ∷ (codes "euc-china", codes "GB2312")
    ∷ (codes "euc-japan", codes "EUC-JP")
    ∷ (codes "euc-japan-1990", codes "EUC-JP")
    ∷ (codes "euc-kr", codes "EUC-KR")
    ∷ (codes "greek-iso-8bit", codes "ISO-8859-7")
    ∷ (codes "iso-latin-1", codes "ISO-8859-1")
    ∷ (codes "iso-latin-2", codes "ISO-8859-2")
    ∷ (codes "iso-latin-5", codes "ISO-8859-9")
    ∷ (codes "iso-latin-7", codes "ISO-8859-13")
    ∷ (codes "iso-latin-9", codes "ISO-8859-15")
    ∷ (codes "japanese-iso-8bit", codes "EUC-JP")
    ∷ (codes "japanese-euc", codes "EUC-JP")
    ∷ (codes "jis8", codes "EUC-JP")
    ∷ (codes "korean-euc", codes "EUC-KR")
    ∷ (codes "korean-iso-8bit", codes "EUC-KR")
    ∷ (codes "latin-0", codes "ISO-8859-15")
    ∷ (codes "latin-1", codes "ISO-8859-1")
    ∷ (codes "latin-2", codes "ISO-8859-2")
    ∷ (codes "latin-5", codes "ISO-8859-9")
    ∷ (codes "latin-7", codes "ISO-8859-13")
    ∷ (codes "mule-utf-16", codes "UTF-16")
    ∷ (codes "mule-utf-16be", codes "UTF-16BE")
    ∷ (codes "mule-utf-16-be", codes "UTF-16BE")
    ∷ (codes "mule-utf-16be-with-signature", codes "UTF-16")
    ∷ (codes "mule-utf-16le", codes "UTF-16LE")
    ∷ (codes "mule-utf-16-le", codes "UTF-16LE")
    ∷ (codes "mule-utf-16le-with-signature", codes "UTF-16")
    ∷ (codes "mule-utf-8", codes "UTF-8")
    ∷ (codes "utf-16-be", codes "UTF-16BE")
    ∷ (codes "utf-16be-with-signature", codes "UTF-16")
    ∷ (codes "utf-16-be-with-signature", codes "UTF-16")
    ∷ (codes "utf-16-le", codes "UTF-16LE")
    ∷ (codes "utf-16le-with-signature", codes "UTF-16")
    ∷ (codes "utf-16-le-with-signature", codes "UTF-16")
    ∷ []

-- STRIP; `n` is the length that the name has at first.
unfoldable pub strip : Bytes → ℕ → Bytes → Bytes
strip s n encoding =
    if ltb (length s) n && same_case (drop (n - length s) encoding) s
    then take (n - length s) encoding
    else encoding

unfoldable pub convert_by : List (Bytes × Bytes) → Bytes → Bytes
convert_by [] encoding = encoding
convert_by ((from, to) ∷ entries) encoding =
    if same_case from encoding then to else convert_by entries encoding

unfoldable pub convert_encoding : Bytes → Bytes
convert_encoding encoding =
    let n = length encoding in
    convert_by conversion_table
      (strip (codes "-unix") n (strip (codes "-mac") n (strip (codes "-dos") n encoding)))

-- The line up to the encoding, the encoding as it stands there, and the line behind it.
pub record Declared : Type 0 where
  pub start : Bytes
  pub encoding : Bytes
  pub rest : Bytes

-- Behind "coding:".
unfoldable pub declared : Bytes → Bytes → Declared
declared start text =
    let (blanks, t) = strspn is_blank text in
    let (encoding, rest) = strspn is_encoding_char t in
    record { start = start ++ blanks; encoding = encoding; rest = rest }

-- The loop, whose text ends at the end of the line; `start` is what stands before it. Each round
-- goes on behind a semicolon; the fuel is the length of the text.
unfoldable pub find_coding : ℕ → Bytes → Bytes → Option Declared
find_coding zero start text = none
find_coding (suc f) start [] = none
find_coding (suc f) start (c ∷ s) =
    let (blanks, t) = strspn is_blank (c ∷ s) in
    elim (starts_with (codes "coding:") t) [
      | true ↦ some (declared (start ++ (blanks ++ codes "coding:")) (drop 7 t))
      | false ↦ elim (behind b';' t) [
        | none ↦ none
        | some later ↦ find_coding f (start ++ (blanks ++ (before b';' t ++ codes ";"))) later
      ]
    ]

-- What stands behind the first "-*-" of a directive; the first four bytes are `start`.
unfoldable pub find_in_directive : Bytes → Bytes → Option Declared
find_in_directive start directive = elim (strstr (codes "-*-") directive) [
  | none ↦ none
  | some (a, b) ↦ find_coding (length (drop 3 b)) (start ++ (a ++ codes "-*-")) (drop 3 b)
]

-- On a line without its newline.
unfoldable pub find_declared : Bytes → Option Declared
find_declared line =
    if starts_with (codes "'\\\" ") line || starts_with (codes ".\\\" ") line
    then find_in_directive (take 4 line) (drop 4 line)
    else none

-- *modified_line, if it is set.
unfoldable pub modified : Option Bytes → Declared → Option Bytes
modified none d = none
modified (some to_encoding) d =
    if same_case (convert_encoding d.encoding) to_encoding
    then none
    else some (d.start ++ (to_encoding ++ (d.rest ++ (newline ∷ []))))

-- The encoding and the modified line. `line` is what decompress_peekline returns; `to_encoding` is
-- `none` if it or modified_line is NULL.
unfoldable pub check_preprocessor_encoding :
    Option Bytes → Option Bytes → Option Bytes × Option Bytes
check_preprocessor_encoding to_encoding none = (none, none)
check_preprocessor_encoding to_encoding (some line) = elim (find_declared (before newline line)) [
  | none ↦ (none, none)
  | some d ↦ (some (convert_encoding d.encoding), modified to_encoding d)
]
