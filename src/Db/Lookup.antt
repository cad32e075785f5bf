-- ===== src/Db/Lookup.antt =====
-- dblookup, dblookup_all and dblookup_exact (libdb/db_lookup.c).
use mandb.Base.{
  Bool, true, false, not, ◌&&◌, ◌||◌, Option, none, some, List, [], ◌∷◌, Bytes, if◌then◌else◌,
  get_or,
}
use mandb.CString.{streq, starts_with}
use mandb.Exit.{done, fatal, M, ◌>>=◌}
use mandb.Db.Record.{Mandata}
use mandb.Db.Refs.{NameExt, name_to_key, make_multi_key, list_extensions}
use mandb.Db.Backend.{Backend}
use mandb.Db.Store.{Situation, missing, several, single, situation, split_or_die}

-- The flags EXACT and MATCH_CASE.
pub record Flags : Type 0 where
  pub exact : Bool
  pub match_case : Bool

-- The test of an extension against the section that is asked for.
unfoldable pub section_matches : Flags → Option Bytes → Bytes → Bool
section_matches flags none ext = true
section_matches flags (some section) ext =
    if flags.exact then streq section ext else starts_with section ext

unfoldable pub matches : Flags → Bytes → Option Bytes → Bytes → Bytes → Bool
unfolding section_matches
matches flags page section name ext =
    (not flags.match_case || streq name page) && section_matches flags section ext

abbrev pub named : Mandata → Bytes → Mandata
named info name = record info { name = some (get_or name info.name) }

abbrev pub first : List Mandata → Option Mandata
first [] = none
first (x ∷ xs) = some x

module _ (b : Backend) where
  open b use {Db, fetch, sortedlist_add}

  unfoldable pub lookup_single : Flags → Bytes → Option Bytes → Bytes → M Db (List Mandata)
  lookup_single flags page section content = do
    info ← split_or_die b content
    let info' = named info page
    done (if matches flags page section (get_or page info.name) info.ext then info' ∷ [] else [])

  -- The fetch on the key of one of several pages.
  unfoldable pub fetch_ref : NameExt → M Db Mandata
  fetch_ref ref d = elim (fetch (make_multi_key ref.name ref.ext) d) [
    | none ↦ fatal d
    | some content ↦ (do info ← split_or_die b content; done (named info ref.name)) d
  ]

  unfoldable pub lookup_refs : Flags → Bytes → Option Bytes → List NameExt → M Db (List Mandata)
  lookup_refs flags page section [] = done []
  lookup_refs flags page section (ref ∷ refs) =
      let rest = lookup_refs flags page section refs in
      if matches flags page section ref.name ref.ext
      then (do info ← fetch_ref ref; infos ← rest; done (info ∷ infos))
      else rest

  unfoldable pub lookup_in : Situation → Flags → Bytes → Option Bytes → M Db (List Mandata)
  lookup_in missing flags page section = done []
  lookup_in (single content) flags page section = lookup_single flags page section content
  lookup_in (several content) flags page section =
      lookup_refs flags page section (list_extensions sortedlist_add content)

  unfoldable pub dblookup : Flags → Bytes → Option Bytes → M Db (List Mandata)
  dblookup flags page section d =
      lookup_in (situation (fetch (name_to_key page) d)) flags page section d

  unfoldable pub dblookup_all : Bytes → Option Bytes → Bool → M Db (List Mandata)
  dblookup_all page section match_case =
      dblookup (record { exact = false; match_case = match_case }) page section

  unfoldable pub dblookup_exact : Bytes → Option Bytes → Bool → M Db (Option Mandata)
  dblookup_exact page section match_case = do
    infos ← dblookup (record { exact = true; match_case = match_case }) page section
    done (first infos)
