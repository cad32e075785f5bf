-- ===== src/Candidates/Adding.antt =====
-- How a candidate is added (add_candidate of src/man.c).
use mandb.Base.{
  ℕ, suc, Bool, true, false, not, Option, none, some, List, [], ◌∷◌, Bytes, ◌==◌, if◌then◌else◌,
  get_or, Ordering,
}
use mandb.Db.Record.{Mandata}
use mandb.Db.Ids.{ult_man}
use mandb.Candidates.{Candidate, Search, compare_candidates, duplicate_candidates}

-- The flags of ult_src (src/ult_src.h).
pub record UltFlags : Type 0 where
  pub so_link : Bool
  pub soft_link : Bool
  pub hard_link : Bool

unfoldable pub get_ult_flags : UltFlags → Bool → ℕ → UltFlags
get_ult_flags ult_flags from_db id =
    if not from_db
    then ult_flags
    else if id == ult_man
    then record ult_flags { so_link = false }
    else ult_flags

-- What add_candidate asks of other files: make_filename (src/filenames.c) and ult_src
-- (src/ult_src.c), and the global ult_flags.
pub record Sources : Type 0 where
  pub make_filename : Bytes → Bytes → Mandata → Bool → Option Bytes
  pub ult_src : Bytes → Bytes → UltFlags → Option Bytes
  pub ult_flags : UltFlags

unfoldable pub starts_with_dash : Bytes → Bool
starts_with_dash [] = false
starts_with_dash (c ∷ s) = c == b'-'

-- The name of the page whose source is looked for.
unfoldable pub source_name : Bytes → Mandata → Bytes
source_name req_name source =
    if not (starts_with_dash (get_or [] source.pointer))
    then get_or [] source.pointer
    else get_or req_name source.name

-- The list, and the static add_index.
pub record Candidates : Type 0 where
  pub head : List Candidate
  pub next_index : ℕ

module _ (lookup : Search) where
  -- The loop, which ends with the insertion at the end of the list; the Boolean is its result.
  unfoldable pub insert_candidate : Candidate → List Candidate → List Candidate × Bool
  insert_candidate candp [] = (candp ∷ [], true)
  insert_candidate candp (c ∷ list) =
      let rest = insert_candidate candp list in
      if duplicate_candidates candp c
      then elim (compare_candidates lookup candp c) [ Ordering.lt ↦ rest | _ ↦ (c ∷ list, false) ]
      else (c ∷ rest.0, rest.1)

  module _ (sources : Sources) where
    -- The ultimate source; the outer `none` is the return when there is no file.
    unfoldable pub find_ult :
        Option Bytes → Bool → Bool → Bytes → Bytes → Mandata → Option (Option Bytes)
    find_ult (some ult) from_db cat req_name path source = some (some ult)
    find_ult none from_db cat req_name path source =
        elim (sources.make_filename path (source_name req_name source) source cat) [
          | none ↦ none
          | some filename ↦
              some
                (sources.ult_src filename path (get_ult_flags sources.ult_flags from_db source.id))
        ]

    -- What is done with the result of find_ult.
    unfoldable pub add_found :
        Bool
        → Bool
        → Bytes
        → Bytes
        → Mandata
        → Candidates
        → Option (Option Bytes)
        → Candidates × Bool
    add_found from_db cat req_name path source st none = (st, false)
    add_found from_db cat req_name path source st (some found) =
        let candp : Candidate = record {
          req_name = req_name;
          from_db = from_db;
          cat = cat;
          path = path;
          ult = found;
          source = record source { name = some (get_or req_name source.name) };
          add_index = st.next_index;
        } in
        let (head, added) = insert_candidate candp st.head in
        (record { head = head; next_index = suc st.next_index }, added)

    unfoldable pub add_candidate :
        Bool → Bool → Bytes → Bytes → Option Bytes → Mandata → Candidates → Candidates × Bool
    add_candidate from_db cat req_name path ult source st =
        add_found from_db cat req_name path source st
          (find_ult ult from_db cat req_name path source)
