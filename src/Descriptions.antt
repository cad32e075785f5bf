-- ===== src/Descriptions.antt =====
-- src/descriptions.c: the names and descriptions in a NAME section, as find_name gives it: records
-- that the byte 0x11 ends. trim_spaces is of lib/util.c.
pub mod Names
pub mod Render
pub mod Store
pub mod Fine
pub mod Stored
use mandb.Base.{
  ℕ, zero, suc, ◌+◌, Bool, true, false, not, ◌&&◌, ◌||◌, Option, none, some, List, [], ◌∷◌, ◌++◌,
  Bytes, ◌==◌, if◌then◌else◌, length, codes, drop,
}
use mandb.CString.{streq, has, before, behind, strstr}

pub record PageDescription : Type 0 where
  pub name : Bytes
  pub whatis : Option Bytes

-- while (*s == ' ') ++s
unfoldable pub skip_spaces : Bytes → Bytes
skip_spaces [] = []
skip_spaces (c ∷ s) = if c == b' ' then skip_spaces s else c ∷ s

-- while (length && s[length - 1] == ' ') --length
unfoldable pub drop_spaces : Bytes → Bytes
drop_spaces [] = []
drop_spaces (c ∷ s) = elim (drop_spaces s) [
  | [] ↦ if c == b' ' then [] else c ∷ []
  | d ∷ t ↦ c ∷ d ∷ t
]

unfoldable pub trim_spaces : Bytes → Bytes
unfolding skip_spaces drop_spaces
trim_spaces s = drop_spaces (skip_spaces s)

-- All that strtok (…, ",") gives: the parts between commas that are not empty. `word` is the part
-- so far.
unfoldable pub tokens : Bytes → Bytes → List Bytes
tokens [] [] = []
tokens (x ∷ word) [] = (x ∷ word) ∷ []
tokens word (c ∷ s) =
    let anew = tokens [] s in
    let longer = tokens (word ++ (c ∷ [])) s in
    if c == b',' then elim word [ [] ↦ anew | x ∷ w ↦ (x ∷ w) ∷ anew ] else longer

-- The list so far, and seen_base.
pub record Parsed : Type 0 where
  pub descs : List PageDescription
  pub seen_base : Bool

-- base && STREQ (base, name)
unfoldable pub is_base : Option Bytes → Bytes → Bool
is_base none name = false
is_base (some b) name = streq b name

-- One name of a record whose description, if it has one, is `whatis`.
unfoldable pub add_name : Option Bytes → Option Bytes → Bytes → Parsed → Parsed
add_name base whatis token p =
    let name = trim_spaces token in
    if has b' ' name || has 9 name then p else record {
      descs = p.descs ++ (record { name = name; whatis = whatis } ∷ []);
      seen_base = p.seen_base || is_base base name;
    }

unfoldable pub add_names : Option Bytes → Option Bytes → List Bytes → Parsed → Parsed
add_names base whatis [] p = p
add_names base whatis (t ∷ ts) p = add_names base whatis ts (add_name base whatis t p)

abbrev pub dash : Bytes
dash = codes " - "

-- One record. A record without a description counts only as the first.
unfoldable pub add_record : Option Bytes → Bytes → Parsed → Parsed
add_record base text p = elim (strstr dash text) [
  | some (names, rest) ↦ add_names base (some (trim_spaces (drop 3 rest))) (tokens [] names) p
  | none ↦ elim p.descs [ [] ↦ add_names base none (tokens [] text) p | d ∷ ds ↦ p ]
]

-- while (*sep == 0x11 || *sep == ' ') ++sep
unfoldable pub skip_separators : Bytes → Bytes
skip_separators [] = []
skip_separators (c ∷ s) = if c == 17 || c == b' ' then skip_separators s else c ∷ s

-- while (sep): each round ends with `sep` further on, so one round more than `sep` has bytes is enough.
unfoldable pub parse_records : ℕ → Option Bytes → Bytes → Parsed → Parsed
parse_records zero base sep p = p
parse_records (suc f) base sep p =
    let s = skip_separators sep in
    let text = before 17 s in
    elim text [
      | [] ↦ p
      | c ∷ cs ↦ elim (behind 17 s) [
        | none ↦ add_record base (c ∷ cs) p
        | some rest ↦ parse_records f base (17 ∷ rest) (add_record base (c ∷ cs) p)
      ]
    ]

-- The description of the first, for the base name.
unfoldable pub first_whatis : List PageDescription → Option Bytes
first_whatis [] = none
first_whatis (d ∷ ds) = d.whatis

unfoldable pub add_base : Option Bytes → Parsed → List PageDescription
add_base none p = p.descs
add_base (some b) p =
    if p.seen_base
    then p.descs
    else p.descs ++ (record { name = b; whatis = first_whatis p.descs } ∷ [])

unfoldable pub parse_descriptions : Option Bytes → Option Bytes → List PageDescription
parse_descriptions base none = []
parse_descriptions base (some whatis) =
    add_base base
      (parse_records (suc (length whatis)) base whatis record { descs = []; seen_base = false })
