-- ===== src/Pages.antt =====
-- Page names, sections and texts for other programs: functions of src/man.c, and escape_shell of
-- lib/util.c.
pub mod Words
pub mod Names
use mandb.Base.{
  ℕ, suc, Bool, true, false, not, ◌&&◌, ◌||◌, Option, none, some, List, [], ◌∷◌, ◌++◌, Bytes, codes,
  ◌==◌, ltb, leb, if◌then◌else◌, get_or, length,
}
use mandb.CString.{streq, has, is_digit, is_upper, is_lower, split_last}
use mandb.CString.Fields.{tokens}
use mandb.Manpath.{Config, get_sections}

-- Where sh_lang_first_word stands: outside quotes, behind a backslash, in quotes, and in double
-- quotes behind a backslash.
pub data Mode : Type 0 where
  plain escaped single double double_escaped : Mode

-- What a byte adds to the word, and the mode behind it.
pub data Step : Type 0 where
  stop : Step
  go : Bytes → Mode → Step

unfoldable pub next : Mode → ℕ → Step
next plain c =
    if c == b'\\'
    then go [] escaped
    else if c == b'\''
    then go [] single
    else if c == b'"'
    then go [] double
    else if c == 9 || c == b' ' || c == 10 || c == b'#'
    then stop
    else go (c ∷ []) plain
next escaped c = if c == 10 then go [] plain else go (c ∷ []) plain
next single c = if c == b'\'' then go [] plain else go (c ∷ []) single
next double c =
    if c == b'"'
    then go [] plain
    else if c == b'\\'
    then go [] double_escaped
    else go (c ∷ []) double
next double_escaped c =
    if c == b'$' || c == b'`' || c == b'"' || c == b'\\'
    then go (c ∷ []) double
    else if c == 10
    then go [] double
    else go (b'\\' ∷ c ∷ []) double

-- At the end of the string; `none` is that the loop goes on behind the terminating NUL, as it does
-- when quotes are open.
unfoldable pub at_end : Mode → Option Bytes
at_end plain = some []
at_end escaped = some []
at_end _ = none

abbrev prepend : Bytes → Option Bytes → Option Bytes
prepend out none = none
prepend out (some word) = some (out ++ word)

unfoldable pub word_from : Mode → Bytes → Option Bytes
word_from mode [] = at_end mode
word_from mode (c ∷ cmd) = elim (next mode c) [
  | stop ↦ some []
  | go out mode' ↦ prepend out (word_from mode' cmd)
]

unfoldable pub sh_lang_first_word : Bytes → Option Bytes
sh_lang_first_word = word_from plain

-- Whether escape_shell leaves a byte as it is.
unfoldable pub is_shell_safe : ℕ → Bool
is_shell_safe c = is_digit c || is_upper c || is_lower c || has c (codes ",-./:@_")

unfoldable pub escape_shell : Bytes → Bytes
escape_shell [] = []
escape_shell (c ∷ s) =
    let rest = escape_shell s in if is_shell_safe c then c ∷ rest else b'\\' ∷ c ∷ rest

abbrev pub dollar_mark : ℕ → ℕ
dollar_mark c = if c == b'$' then b'?' else c

unfoldable pub escape_less : Bytes → Bytes
escape_less [] = []
escape_less (c ∷ s) =
    let rest = escape_less s in
    let d = dollar_mark c in if has d (codes "?:.%\\") then b'\\' ∷ d ∷ rest else d ∷ rest

-- A section of the list that is one digit, and a name that goes on behind it without a digit.
unfoldable pub extends_section : Bytes → Bytes → Bool
extends_section (v ∷ []) (n ∷ m ∷ name) = is_digit v && not (is_digit m) && v == n
extends_section _ _ = false

unfoldable pub is_section : List Bytes → Bytes → Bool
is_section [] name = false
is_section (vs ∷ section_list) name =
    streq vs name || extends_section vs name || is_section section_list name

-- "name(section)", whose section reaches from the last '(' to the last ')'.
unfoldable pub split_parens : List Bytes → Bytes → Bytes × Option Bytes
split_parens section_list page_name = elim (split_last b'(' page_name) [
  | none ↦ (page_name, none)
  | some (name, rest) ↦ elim (split_last b')' rest) [
    | none ↦ (page_name, none)
    | some (paren_section, behind_paren) ↦
        if is_section section_list paren_section
        then (name, some paren_section)
        else (page_name, none)
  ]
]

unfoldable pub split_page_name : List Bytes → Bytes → Bytes × Option Bytes
split_page_name section_list page_name = elim (split_last b'.' page_name) [
  | none ↦ split_parens section_list page_name
  | some (name, sec) ↦
      if is_section section_list sec then (name, some sec) else split_parens section_list page_name
]

-- `given` is the option's list or, if there is none, $MANSECT.
unfoldable pub get_section_list : List Bytes → Option Bytes → Option Bytes → Config → List Bytes
get_section_list std_sections colon_sep_section_list mansect config =
    let config_sections : List Bytes = elim (get_sections config) [
      | [] ↦ std_sections
      | s ∷ ss ↦ s ∷ ss
    ] in
    let given : Bytes = elim colon_sep_section_list [ none ↦ get_or [] mansect | some s ↦ s ] in
    elim (tokens (codes ":,") given) [ [] ↦ config_sections | s ∷ ss ↦ s ∷ ss ]
