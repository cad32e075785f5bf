-- ===== src/Tests/Man.antt =====
-- src/man.c, src/manp.c and lib/util.c at concrete inputs.
use mandb.Base.{
  ℕ, true, false, none, some, [], ◌∷◌, ◌++◌, Bytes, codes, ◌≡◌, ◌≢◌, refl, arith, Ordering, leb,
  suc, length,
}
use mandb.CString.{streq, strcmp, has, split_last, starts_with, before, strstr}
use mandb.CString.Fields.{fields}
use mandb.Db.Ids.{compare_ids}
use mandb.Locale.{LocaleBits, unpack_locale_bits, up_to, part, unpack_bits}
use mandb.Locale.RoundTrip.{IsLocale, unpack_locale_bits-locale_name}
use mandb.Manpath.{
  Config, mandb_map, define_user, get_def, get_catpath, is_global_mandir, fsstnd, fsstnd_size,
  same_flag,
}
use mandb.Manpath.Setuid.{system_only, setuid_lookups}
use mandb.Manpath.Append.{
  pathappend, any_field, pathappend_directory, at_search, begins_field, dedup, dedup_token,
  strip_colons,
}
use mandb.Manpath.Fsstnd.{any_man, fsstnd_fits}
use mandb.Manpath.Nls.{
  Disk, directory, is_dir, is_empty, add_nls_manpaths, add_locales, get_nls_manpath, nls_of_paths,
  nls_of_path, append_entries, takes, serves, add_locale_manpath, append_to,
}
use mandb.Manpath.Untranslated.{EndsWith, add_nls_manpaths-EndsWith}
use mandb.Manpath.Pathlist.{
  World, create_pathlist, add_elements, add_dir_to_path_list, add_expanded_paths, absolute,
  add_canonical, canon_listed,
}
use mandb.Manpath.Unique.{Pairwise, create_pathlist-Pairwise}
use mandb.Candidates.{
  Candidate, Search, compare_candidates, last_part, prefer, exact_name, compare_exts,
  compare_override_dir, in_override, compare_locales, compare_parts, compare_bits, compare_elements,
  is_utf8,
}
use mandb.Candidates.Adding.{Sources, insert_candidate, add_candidate}
use mandb.Candidates.Transitive.{compare_candidates_trans}
use mandb.Candidates.Add.{
  Inserted, IsCandidates, insert_candidate-Inserted, add_candidate-IsCandidates,
}
use mandb.Encodings.{get_canonical_charset_name}
use mandb.Pages.{sh_lang_first_word, escape_shell}
use mandb.Pages.Words.{sh_lang_first_word-escape_shell, sh_lang_first_word_quoted}
use mandb.Tests.Db.{ls_page}

abbrev french : LocaleBits
french = record {
  language = codes "fr";
  territory = codes "CA";
  codeset = codes "UTF-8";
  modifier = codes "euro";
}

french-IsLocale : IsLocale french
unfolding has
french-IsLocale = record {
  named = λ h. ground (arith, h);
  language = (refl, (refl, tt));
  territory = (refl, (refl, tt));
  codeset = (refl, (refl, (refl, (refl, (refl, tt)))));
}

unpack_locale_bits-locale_name_example : unpack_locale_bits (codes "fr_CA.UTF-8@euro") ≡ french
unpack_locale_bits-locale_name_example = unpack_locale_bits-locale_name french french-IsLocale

abbrev config : Config
config =
    record { key = codes "cat"; cont = codes "/tmp/cat"; flag = define_user }
    ∷ record { key = codes "/usr/man"; cont = codes "/var/cache/man"; flag = mandb_map }
    ∷ []

setuid_lookups_example :
    (get_def true (codes "cat") none (system_only config) ≡ get_def true (codes "cat") none config)
    × (get_catpath (codes "/usr/man/man1") true false (system_only config)
        ≡ get_catpath (codes "/usr/man/man1") true false config)
    × (is_global_mandir (codes "/usr/man/man1") (system_only config) ≡ leb 1 (suc 0))
unfolding get_catpath is_global_mandir system_only same_flag starts_with
setuid_lookups_example = setuid_lookups (codes "cat") (codes "/usr/man/man1") none config

pathappend_directory_example :
    pathappend (some (codes "/a:/b")) (codes "/c") ≡ some (codes "/a:/b:/c")
unfolding any_field fields has streq
pathappend_directory_example =
    pathappend_directory b'/' (codes "a:/b") b'/' (codes "c") (ground arith)

fsstnd_fits_example :
    leb
      (suc (length (fsstnd (codes "/usr") (codes "/var/catman") (codes "/usr/local/doc"))))
      (fsstnd_size (codes "/usr") (codes "/var/catman") (codes "/usr/local/doc"))
    ≡ false
unfolding any_man streq
fsstnd_fits_example =
    fsstnd_fits (codes "/usr") (codes "/var/catman") (codes "local" ∷ codes "doc" ∷ [])
      (((λ h. ground (arith, h)), ground arith), (((λ h. ground (arith, h)), ground arith), tt))

abbrev disk : Disk
disk = record { entries = λ path. none; is_directory = λ path. directory }

-- /m has manual pages in German and in French.
abbrev translated : Disk
translated = record {
  entries = λ path. some (codes "de" ∷ codes "fr" ∷ []);
  is_directory = λ path. directory;
}

german :
    add_nls_manpaths translated (codes "/m") (some (codes "de")) ≡ some (some (codes "/m/de:/m"))
unfolding add_nls_manpaths is_empty add_locales fields has get_nls_manpath streq unpack_locale_bits
    unpack_bits up_to nls_of_paths nls_of_path append_entries takes starts_with is_dir serves strstr
    part at_search begins_field dedup dedup_token pathappend strip_colons add_locale_manpath
    append_to
german = refl

add_nls_manpaths-EndsWith_example : EndsWith (codes "/m") (some (codes "/m/de:/m"))
add_nls_manpaths-EndsWith_example =
    add_nls_manpaths-EndsWith translated (codes "/m") (some (codes "de")) (some (codes "/m/de:/m"))
      german

-- /b is a link to /a.
abbrev world : World
world = record {
  disk = disk;
  expand_path = λ path. path ∷ [];
  canonicalize = λ path. some (codes "/a");
  cwd = none;
}

two_dirs : create_pathlist world [] (codes "/a:/b") ≡ some (codes "/a" ∷ [])
unfolding create_pathlist add_elements add_dir_to_path_list add_expanded_paths absolute
    add_canonical canon_listed fields has is_dir is_empty streq starts_with
two_dirs = refl

create_pathlist-Pairwise_example :
    Pairwise (λ a b. world.canonicalize a ≢ world.canonicalize b) (codes "/a" ∷ [])
create_pathlist-Pairwise_example =
    create_pathlist-Pairwise world [] (codes "/a:/b") (codes "/a" ∷ []) two_dirs

abbrev lookup : Search
lookup = record {
  section = none;
  section_list = codes "1" ∷ codes "8" ∷ [];
  override_dir = [];
  internal_locale = codes "de";
}

abbrev candidate : ℕ → Bytes → Candidate
candidate i path = record {
  req_name = codes "ls";
  from_db = false;
  cat = false;
  path = path;
  ult = none;
  source = record ls_page { name = some (codes "ls") };
  add_index = i;
}

-- Pages of the same name and section come in the order in which they are added.
first_second :
    compare_candidates lookup (candidate 0 (codes "/m")) (candidate 1 (codes "/m")) ≡ Ordering.lt
unfolding compare_candidates prefer exact_name streq compare_ids compare_exts strcmp
    compare_override_dir is_empty compare_locales compare_parts last_part split_last
    unpack_locale_bits unpack_bits up_to part has before compare_bits compare_elements is_utf8
    get_canonical_charset_name
first_second = refl

second_third :
    compare_candidates lookup (candidate 1 (codes "/m")) (candidate 2 (codes "/m")) ≡ Ordering.lt
unfolding compare_candidates prefer exact_name streq compare_ids compare_exts strcmp
    compare_override_dir is_empty compare_locales compare_parts last_part split_last
    unpack_locale_bits unpack_bits up_to part has before compare_bits compare_elements is_utf8
    get_canonical_charset_name
second_third = refl

compare_candidates_trans_example :
    compare_candidates lookup (candidate 0 (codes "/m")) (candidate 2 (codes "/m")) ≢ Ordering.gt
unfolding last_part split_last
compare_candidates_trans_example =
    compare_candidates_trans lookup (candidate 0 (codes "/m")) (candidate 1 (codes "/m"))
      (candidate 2 (codes "/m")) refl (λ h. refl) (λ h. refl) (λ h. refl) refl refl refl
      (λ h. ground (arith, h, first_second)) (λ h. ground (arith, h, second_third))

insert_candidate-Inserted_example :
    Inserted lookup
      (candidate 1 (codes "/m"))
      (candidate 0 (codes "/m") ∷ [])
      (insert_candidate lookup (candidate 1 (codes "/m")) (candidate 0 (codes "/m") ∷ []))
insert_candidate-Inserted_example =
    insert_candidate-Inserted lookup (candidate 1 (codes "/m")) (candidate 0 (codes "/m") ∷ [])

-- With an OVERRIDE_DIR, three hierarchies may each come before the next in a circle.
override_circle :
    let l = record lookup { override_dir = codes "over" } in
    let base = candidate 0 (codes "/a/man") in
    let over = candidate 1 (codes "/a/man/over") in
    let other = candidate 2 (codes "/b/man") in
    (compare_candidates l over base ≡ Ordering.lt)
    × (compare_candidates l base other ≡ Ordering.lt)
    × (compare_candidates l other over ≡ Ordering.lt)
unfolding compare_candidates prefer exact_name streq compare_ids compare_exts strcmp
    compare_override_dir is_empty in_override starts_with compare_locales compare_parts last_part
    split_last unpack_locale_bits unpack_bits up_to part has before compare_bits compare_elements
    is_utf8 get_canonical_charset_name
override_circle = (refl, refl, refl)

abbrev sources : Sources
sources = record {
  make_filename = λ path name source cat. some (path ++ name);
  ult_src = λ file path flags. some file;
  ult_flags = record { so_link = true; soft_link = true; hard_link = true };
}

add_candidate-IsCandidates_example :
    IsCandidates
      (add_candidate lookup sources true false
        (codes "ls")
        (codes "/m")
        none
        ls_page
        (record { head = candidate 0 (codes "/n") ∷ []; next_index = 1 })).0
add_candidate-IsCandidates_example =
    add_candidate-IsCandidates lookup sources true false (codes "ls") (codes "/m") none ls_page
      (record { head = candidate 0 (codes "/n") ∷ []; next_index = 1 })
      (record { no_duplicates = (tt, tt); below = (ground arith, tt) })

sh_lang_first_word-escape_shell_example :
    sh_lang_first_word (escape_shell (codes "a b") ++ codes " c") ≡ some (codes "a b")
sh_lang_first_word-escape_shell_example =
    sh_lang_first_word-escape_shell (codes "a b") (codes "c") (ground arith)

sh_lang_first_word_quoted_example :
    (sh_lang_first_word (codes "'a b' c") ≡ some (codes "a b"))
    × (sh_lang_first_word (codes "'a b") ≡ none)
sh_lang_first_word_quoted_example =
    sh_lang_first_word_quoted (codes "a b") (codes "c") (ground arith)
