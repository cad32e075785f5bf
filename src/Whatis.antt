-- ===== src/Whatis.antt =====
-- What whatis and apropos find (src/whatis.c): pointers, the matching of a page, and the walk of
-- apropos over the index. BTREE is not defined; the display of a page is the list of those shown.
pub mod Word
pub mod Pointers
pub mod Found
pub mod Display
use mandb.Base.{
  ℕ, zero, suc, Bool, true, false, not, ◌&&◌, ◌||◌, Option, none, some, is_some, List, [], ◌∷◌,
  ◌++◌, Bytes, codes, ◌==◌, if◌then◌else◌, get_or, map, drop, length,
}
use mandb.CString.{streq, starts_with, tolower, is_alpha, split_last}
use mandb.Exit.{Outcome, done, fatal, M, ◌>>=◌}
use mandb.Db.Record.{Mandata, tab, split_content}
use mandb.Db.Backend.{Backend}
use mandb.Db.Store.{Situation, missing, several, single, situation}
use mandb.Db.Lookup.{dblookup_exact, dblookup_all}
use mandb.Mandirs.{is_identifier, same_case}
use mandb.Candidates.Adding.{starts_with_dash}
use mandb.WordFnmatch.{word_fnmatch}

-- strcasestr: the bytes before the first occurrence, and those from it on.
unfoldable pub strcasestr : Bytes → Bytes → Option (Bytes × Bytes)
strcasestr pat [] = if starts_with (map tolower pat) [] then some ([], []) else none
strcasestr pat (c ∷ s) =
    if starts_with (map tolower pat) (map tolower (c ∷ s))
    then some ([], c ∷ s)
    else elim (strcasestr pat s) [ none ↦ none | some (x, y) ↦ some (c ∷ x, y) ]

-- No letter and no underscore, or no byte at all.
unfoldable pub is_boundary : Option ℕ → Bool
is_boundary none = true
is_boundary (some c) = not (is_alpha c) && not (c == b'_')

unfoldable pub first_byte : Bytes → Option ℕ
first_byte [] = none
first_byte (c ∷ s) = some c

-- The byte before a place behind `x`, which `prev` precedes.
unfoldable pub last_byte : Option ℕ → Bytes → Option ℕ
last_byte prev [] = prev
last_byte prev (c ∷ x) = last_byte (some c) x

-- The loop of match; each round goes on behind a byte of the text. `none` is a search behind the
-- end of the string.
unfoldable pub match_from : ℕ → Bytes → Option ℕ → Bytes → Option Bool
match_from zero page prev whatis = none
match_from (suc f) page prev whatis = elim (strcasestr page whatis) [
  | none ↦ some false
  | some (x, p) ↦
      let left = is_boundary (last_byte prev x) in
      let right = is_boundary (first_byte (drop (length page) p)) in
      if left && right
      then some true
      else elim p [ [] ↦ none | c ∷ rest ↦ match_from f page (some c) rest ]
]

unfoldable pub match : Bytes → Bytes → Option Bool
match page whatis = match_from (suc (length whatis)) page none whatis

-- *(info->pointer) == '-', or the entry points to the page that it was looked up as.
unfoldable pub is_settled : Mandata → Bytes → Bool
is_settled info page =
    starts_with_dash (get_or [] info.pointer)
    || elim info.name [ none ↦ true | some name ↦ streq name page ]
      && streq (get_or [] info.pointer) page

module _ (b : Backend) where
  open b use {Db, fetch}

  -- The rounds that are left; `newpage` stays the first pointer.
  unfoldable pub resolve_rounds : ℕ → Bytes → Option Mandata → M Db (Option Mandata)
  resolve_rounds rounds newpage none = done none
  resolve_rounds zero newpage (some info) = done none
  resolve_rounds (suc rounds) newpage (some info) =
      let further = resolve_rounds rounds newpage in
      if is_settled info newpage
      then done (some info)
      else dblookup_exact b (get_or [] info.pointer) (some info.ext) true >>= further

  unfoldable pub resolve_pointers : Mandata → Bytes → M Db (Option Mandata)
  resolve_pointers info page = if is_settled info page then done (some info) else (do
    found ← dblookup_exact b (get_or [] info.pointer) (some info.ext) true
    resolve_rounds 10 (get_or [] info.pointer) found)

unfoldable pub unknown_subject : Bytes
unknown_subject = codes "(unknown subject)"

unfoldable pub get_whatis : Option Mandata → Bytes
get_whatis none = unknown_subject
get_whatis (some info) = elim info.whatis [
  | none ↦ unknown_subject
  | some whatis ↦ elim whatis [ [] ↦ unknown_subject | c ∷ text ↦ c ∷ text ]
]

-- The options, and regexec and fnmatch; the Boolean of fnmatch is FNM_CASEFOLD. A regular
-- expression stands for its compiled form.
pub record Options : Type 0 where
  pub regex_opt : Bool
  pub am_apropos : Bool
  pub wildcard : Bool
  pub exact : Bool
  pub require_all : Bool
  pub sections : Option (List Bytes)
  pub regexec : Bytes → Bytes → Bool
  pub fnmatch : Bool → Bytes → Bytes → Bool

unfoldable pub any_set : List Bool → Bool
any_set [] = false
any_set (b ∷ found_here) = b || any_set found_here

unfoldable pub all_set : List Bool → Bool
all_set [] = true
all_set (b ∷ found_here) = b && all_set found_here

-- found[i] = true for each i with a hit.
unfoldable pub mark : List Bool → List Bool → List Bool
mark (h ∷ hits) (f ∷ found) = (h || f) ∷ mark hits found
mark _ found = found

unfoldable pub none_set : List Bytes → List Bool
none_set [] = []
none_set (page ∷ pages) = false ∷ none_set pages

module _ (options : Options) where
  open options use {regex_opt, am_apropos, wildcard, exact, require_all, sections, regexec, fnmatch}

  -- Whether a keyword matches a name, and the text of a page.
  unfoldable pub matches_name : Bytes → Bytes → Bool
  matches_name dbname page =
      if regex_opt
      then regexec page dbname
      else if am_apropos && not wildcard
      then same_case dbname page
      else fnmatch true page dbname

  unfoldable pub matches_whatis : Bytes → Bytes → Bool
  matches_whatis whatis page =
      if regex_opt
      then regexec page whatis
      else if wildcard
      then if exact then fnmatch false page whatis else word_fnmatch (fnmatch true) page whatis
      else get_or false (match page whatis)

  unfoldable pub parse_name : List Bytes → Bytes → List Bool
  parse_name pages dbname = map (matches_name dbname) pages

  unfoldable pub parse_whatis : List Bytes → Bytes → List Bool
  parse_whatis pages whatis = map (matches_whatis whatis) pages

  unfoldable pub combine : List Bool → Bool
  combine found_here = if require_all then all_set found_here else any_set found_here

  unfoldable pub any_section : List Bytes → Mandata → Bool
  any_section [] info = false
  any_section (section ∷ rest) info =
      streq section info.sec || streq section info.ext || any_section rest info

  unfoldable pub in_sections : Mandata → Bool
  in_sections info = elim sections [ none ↦ true | some list ↦ any_section list info ]

  -- `found`, and the pages that were displayed, the last first.
  pub record Search : Type 0 where
    pub found : List Bool
    pub shown : List (Bytes × Mandata)

  -- The hits in the text are looked for unless those in the name are enough.
  unfoldable pub whatis_hits : List Bytes → Mandata → List Bool → List Bool
  whatis_hits pages info found_here = elim info.whatis [
    | none ↦ none_set pages
    | some whatis ↦
        if am_apropos && not (combine found_here) then parse_whatis pages whatis else none_set pages
  ]

  unfoldable pub apropos_page : List Bytes → Bytes → Mandata → Search → Search
  apropos_page pages name info s =
      let by_name = parse_name pages name in
      let by_whatis = whatis_hits pages info by_name in
      record {
        found = mark by_whatis (mark by_name s.found);
        shown = if combine (mark by_whatis by_name) then (name, info) ∷ s.shown else s.shown;
      }

  -- The key up to its last tab.
  unfoldable pub key_name : Bytes → Bytes
  key_name key = elim (split_last tab key) [ none ↦ key | some (name, ext) ↦ name ]

  unfoldable pub apropos_at : List Bytes → Bytes → Situation → Search → Outcome Search (Unit {0})
  apropos_at pages key missing s = fatal s
  apropos_at pages key (several refs) s = done tt s
  apropos_at pages key (single content) s = elim (split_content content) [
    | none ↦ fatal s
    | some info ↦ done tt (if in_sections info then apropos_page pages (key_name key) info s else s)
  ]

  unfoldable pub apropos_key :
      (Bytes → Option Bytes) → List Bytes → Bytes → Search → Outcome Search (Unit {0})
  apropos_key fetch pages key s = elim (fetch key) [
    | none ↦ fatal s
    | some content ↦
        if is_identifier key then done tt s else apropos_at pages key (situation (some content)) s
  ]

  -- Over the keys of the walk.
  unfoldable pub do_apropos :
      (Bytes → Option Bytes) → List Bytes → List Bytes → Search → Outcome Search (Unit {0})
  do_apropos fetch pages [] s = done tt s
  do_apropos fetch pages (key ∷ keys) s = elim (apropos_key fetch pages key s) [
    | fatal s' ↦ fatal s'
    | done u s' ↦ do_apropos fetch pages keys s'
  ]
