-- ===== src/Tests/Mandirs.antt =====
-- src/check_mandirs.c on a database with one page.
use mandb.Base.{
  ℕ, true, false, none, [], ◌∷◌, Bytes, codes, ◌≡◌, ◌≢◌, refl, sym, subst, arith, Bool-cases, inl,
  inr,
}
use mandb.CString.{streq, strsep, before}
use mandb.CString.Compare.{streq_iff}
use mandb.Exit.{done}
use mandb.Db.Refs.{name_to_key, make_multi_key}
use mandb.Db.Refs.Keys.{simple-ne-multi}
use mandb.Db.Store.{situation}
use mandb.Db.Group.{Group}
use mandb.Db.Group.Whole.{IsDb, IsPage, IsGroup-IsLocal, ver_key-Lacks, Shrinks}
use mandb.Db.Group.View.{IsLocal}
use mandb.Db.Version.{ver_key, ver_id, dbver_rd}
use mandb.Db.Record.{split_content, take_fields}
use mandb.Db.Delete.{dbdelete, delete_in}
use mandb.CString.Long.{print_long, atol}
use mandb.Filenames.{undefined}
use mandb.Mandirs.{
  Files, State, purge_missing, purge_key, is_identifier, sanity_check_db, all_filled, purge_keys,
  purge_at, split_or_fatal, purge_entry, purge_normal, count_glob_matches, delete_entry,
}
use mandb.Mandirs.Purge.{IsWhole, purge_missing-IsWhole}
use mandb.Mandirs.Pages.{any_match, purge_key_page}
use mandb.Tests.Memory.{memory, memory-IsLawful, find, without, Table}
use mandb.Tests.Db.{
  ls, ls_page, ls_content, one_page, one_page-IsGroup, ls-Lacks, ls_key, ls_content_parses,
}

-- A file system without pages.
abbrev empty_disk : Files
empty_disk = record {
  stat_mtime = λ path. none;
  page_info_of = λ path. undefined;
  look_for_file = λ path ext name cat. [];
  opt_test = false;
}

one_page_other : (k : Bytes) → streq ls k ≡ false → find k one_page ≡ none
unfolding find
one_page_other k h = rw h refl

one_page_multi : (page ext : Bytes) → find (make_multi_key page ext) one_page ≡ none
one_page_multi page ext =
    one_page_other (make_multi_key page ext) (simple-ne-multi ls page ext ls-Lacks)

-- The page ls behind the version record.
abbrev pub with_version : Table
with_version = (ver_key, ver_id) ∷ one_page

abbrev start : State memory empty_disk
start = record { db = with_version; force_rescan = false }

with_version_other :
    (k : Bytes) → streq ls k ≡ false → streq ver_key k ≡ false → find k with_version ≡ none
unfolding find
with_version_other k h g = rw (h, g) refl

with_version_multi : (page ext : Bytes) → find (make_multi_key page ext) with_version ≡ none
with_version_multi page ext =
    with_version_other (make_multi_key page ext) (simple-ne-multi ls page ext ls-Lacks)
      (simple-ne-multi ver_key page ext ver_key-Lacks)

pub ls-IsPage : IsPage ls
unfolding name_to_key
ls-IsPage = record { tab_free = ls-Lacks; other = λ h. ground (arith, h) }

-- A key but that of the record holds what it holds without the record.
version_apart : (k : Bytes) → k ≢ ver_key → find k with_version ≡ find k one_page
unfolding find
version_apart k n = ground (arith, streq_iff ver_key k, n)

version-IsLocal : IsLocal (λ k. find k one_page) (λ k. find k with_version) ver_key
version-IsLocal = record {
  simple = λ k l n. version_apart k n;
  multi = λ page ext l n. version_apart (make_multi_key page ext) (λ h. ground (
    arith,
    sym h,
    streq_iff ver_key (make_multi_key page ext),
    simple-ne-multi ver_key page ext ver_key-Lacks,
  ));
}

one_page-Group :
    (page : Bytes)
    → Group (λ k. find k one_page) (name_to_key page) (situation (find (name_to_key page) one_page))
unfolding situation
one_page-Group page = elim (Bool-cases (streq ls (name_to_key page))) [
  | inl e ↦
      subst (λ k. Group (λ k. find k one_page) k (situation (find k one_page)))
        ((streq_iff ls (name_to_key page)).0 e)
        (subst (λ k. Group (λ k. find k one_page) k (situation (find k one_page))) ls_key
          one_page-IsGroup)
  | inr e ↦
      subst (λ o. Group (λ k. find k one_page) (name_to_key page) (situation o))
        (sym (one_page_other (name_to_key page) e)) (λ q ext o. one_page_multi q ext)
]

pub with_version-IsDb : IsDb (λ k. find k with_version)
with_version-IsDb = record {
  version = unfold find streq in refl;
  groups = λ page p.
      IsGroup-IsLocal (λ k. find k one_page) (λ k. find k with_version) page ver_key version-IsLocal
        p.tab_free p.other (one_page-Group page);
}

with_version-IsWhole : IsWhole (λ k. find k with_version)
unfolding situation
with_version-IsWhole = record {
  groups = with_version-IsDb;
  entries = λ page ext content l h. ground (arith, h, with_version_multi page ext);
}

purge_missing-IsWhole_example :
    (n : ℕ) × (s' : State memory empty_disk) × (purge_missing memory empty_disk true true
        (ver_key ∷ ls ∷ [])
        (codes "/man")
        (codes "/cat")
        ls_page.mtime
        start
      ≡ done n s')
    × IsWhole (λ k. find k s'.db)
    × Shrinks (λ k. find k with_version) (λ k. find k s'.db)
    × (empty_disk.opt_test ≡ true → s'.db ≡ with_version)
purge_missing-IsWhole_example =
    purge_missing-IsWhole memory memory-IsLawful empty_disk true true (ver_key ∷ ls ∷ [])
      (codes "/man") (codes "/cat") ls_page.mtime start
      (inl refl, (inr (inl (ls-IsPage, ls_key)), tt)) with_version-IsWhole

-- The purge goes through: the page, whose file is gone, is counted and removed.
purge_run :
    purge_missing memory empty_disk true true
      (ver_key ∷ ls ∷ [])
      (codes "/man")
      (codes "/cat")
      ls_page.mtime
      start
    ≡ done 1 (record { db = (ver_key, ver_id) ∷ []; force_rescan = false })
unfolding purge_missing sanity_check_db all_filled dbver_rd purge_keys purge_key is_identifier
    purge_at split_or_fatal purge_entry purge_normal count_glob_matches delete_entry dbdelete
    delete_in situation find without streq name_to_key split_content take_fields strsep print_long
    atol before
purge_run = refl

purge_key_page_example :
    purge_key memory empty_disk (codes "/man") (codes "/cat") ls_page.mtime ls start
    ≡ done 1 (record { db = memory.delete ls with_version; force_rescan = false })
unfolding any_match
purge_key_page_example =
    purge_key_page memory memory-IsLawful empty_disk (codes "/man") (codes "/cat") ls ls_content
      ls_page.mtime ls_page start ls-Lacks ls_key (unfold is_identifier in refl)
      (unfold situation find streq in refl) ls_content_parses refl refl
