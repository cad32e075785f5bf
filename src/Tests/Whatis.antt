-- ===== src/Tests/Whatis.antt =====
-- src/whatis.c, src/utf8.c, src/descriptions_store.c and lib/security.c at concrete inputs.
use mandb.Base.{
  true, false, none, some, [], ◌∷◌, Bytes, codes, ◌≡◌, ◌↔◌, refl, arith, ◌+◌, ◌≤◌, ◌<◌, length,
  if◌then◌else◌,
}
use mandb.CString.{streq}
use mandb.Exit.{done}
use mandb.Db.Group.Remaining.{Ends, dbdelete-IsDb}
use mandb.Db.Delete.{dbdelete}
use mandb.Whatis.{Options, match, apropos_page, combine}
use mandb.Whatis.Word.{word_occurs, match-word_occurs}
use mandb.Whatis.Found.{matches, apropos_page-shown}
use mandb.Whatis.Display.{
  display_line, line_head, shown_name, pointer_part, padded, spaces, display_line_fits,
  display_line_underrun,
}
use mandb.Utf8.{utf8_validate_len}
use mandb.Utf8.WellFormed.{WellFormed, utf8_validate_len-WellFormed}
use mandb.Descriptions.Store.{Traces}
use mandb.Security.{Ids, State, Idpriv, drop_effective_privs, init_security}
use mandb.Security.Reach.{Reach, start, Reach-state_for, state_for, regain_times, regain_times_ends}
use mandb.Tests.Memory.{memory, memory-IsLawful}
use mandb.Tests.Db.{ls, ls_page}
use mandb.Tests.Mandirs.{with_version, with_version-IsDb, ls-IsPage}

match-word_occurs_example :
    match (codes "list") (codes "to List files")
    ≡ some (word_occurs (codes "list") none (codes "to List files"))
match-word_occurs_example =
    match-word_occurs (codes "list") (codes "to List files") (λ h. ground (arith, h))

abbrev options : Options
options = record {
  regex_opt = false;
  am_apropos = true;
  wildcard = false;
  exact = true;
  require_all = false;
  sections = none;
  regexec = λ pattern text. false;
  fnmatch = λ fold pattern text. false;
}

apropos_page-shown_example :
    (apropos_page options
      (codes "list" ∷ [])
      ls
      ls_page
      (record { found = false ∷ []; shown = [] })).shown
    ≡ (if combine options (matches options ls ls_page (codes "list") ∷ [])
        then (ls, ls_page) ∷ []
        else [])
apropos_page-shown_example =
    apropos_page-shown options (codes "list" ∷ []) ls ls_page
      (record { found = false ∷ []; shown = [] })

display_line_fits_example :
    (line : Bytes) × (display_line 80 false ls
        (codes "1")
        (codes "-")
        ls
        (codes "list directory contents")
      ≡ some line)
    × (length line ≤ 80)
display_line_fits_example =
    display_line_fits 80 ls (codes "1") (codes "-") ls (codes "list directory contents")
      (unfold line_head padded shown_name pointer_part spaces streq in ground arith)

display_line_underrun_example :
    (display_line 24 false ls (codes "1") (codes "-") ls (codes "list") ≡ none) ↔ (
      (false ≡ false)
      × (23 ≤ 24)
      × (length (line_head 24 false ls (codes "1") (codes "-") ls) ≤ 24)
      × (24 < length (line_head 24 false ls (codes "1") (codes "-") ls) + 3)
      × (24 < length (line_head 24 false ls (codes "1") (codes "-") ls) + 4))
display_line_underrun_example =
    display_line_underrun 24 false ls (codes "1") (codes "-") ls (codes "list")

utf8_validate_len-WellFormed_example :
    (utf8_validate_len (195 ∷ 169 ∷ []) ≡ true) ↔ WellFormed (195 ∷ 169 ∷ [])
utf8_validate_len-WellFormed_example = utf8_validate_len-WellFormed (195 ∷ 169 ∷ [])

abbrev ids : Ids
ids = record { ruid = 1000; euid = 6; rgid = 1000; egid = 12 }

abbrev works : Idpriv
works = record { temp_drop = true; temp_restore = true }

abbrev started : State
started = record { uid = 1000; gid = 1000; priv_drop_count = 1 }

started-Reach : Reach ids started
started-Reach = start works started (unfold init_security drop_effective_privs in refl)

Reach-state_for_example : started ≡ state_for ids 1
Reach-state_for_example = Reach-state_for ids started started-Reach

regain_times_ends_example :
    regain_times ids works 1 started ≡ done tt (record { uid = 6; gid = 12; priv_drop_count = 0 })
regain_times_ends_example = regain_times_ends ids works started started-Reach refl

dbdelete-IsDb_example :
    Ends memory memory-IsLawful with_version (dbdelete memory ls ls_page with_version)
dbdelete-IsDb_example =
    dbdelete-IsDb memory memory-IsLawful ls ls_page with_version ls-IsPage with_version-IsDb

abbrev traces : Traces
traces = record {
  trace_info = λ name. some (record ls_page { name = some ls });
  lstat_mtime = λ name. none;
}
