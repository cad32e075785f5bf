-- ===== src/Tests/Db.antt =====
-- libdb on small databases.
use mandb.Base.{
  ℕ, true, none, some, List, [], ◌∷◌, Bytes, codes, ◌≡◌, ◌≢◌, refl, ap, arith, Ordering, Lacks,
  get_or,
}
use mandb.Base.Int.{pos}
use mandb.Exit.{done, fatal}
use mandb.CString.{streq, strcmp, strsep, tolower, is_upper}
use mandb.Db.Record.{Mandata, tab, split_content, take_fields, make_content, set_defaults}
use mandb.Db.Record.RoundTrip.{IsStorable, split_content-make_content}
use mandb.Db.Refs.{NameExt, name_ext_compare, name_to_key, list_extensions}
use mandb.Db.Refs.Keys.{simple-ne-multi}
use mandb.Db.Refs.Order.{insert}
use mandb.Db.Refs.Parse.{list_extensions-body, body}
use mandb.Db.Ids.{replace_fail, replace_action}
use mandb.CString.Long.{print_long, atol}
use mandb.Db.Store.{
  dbstore, unnamed, situation, single, with_name, replace_or_die, store_missing, store_in,
}
use mandb.Db.Lookup.{dblookup_exact}
use mandb.Db.Delete.{dbdelete}
use mandb.Db.Group.{IsGroup, IsSingle, NoMulti, view, ref}
use mandb.Db.Group.Table.{Stored, entry, winner}
use mandb.Db.Group.Store.{dbstore_total, dbstore-Stored}
use mandb.Db.Group.Store.Each.{contents}
use mandb.Db.Group.Lookup.{dblookup_exact-view}
use mandb.Db.Group.Delete.{dbdelete-Deleted}
use mandb.Db.Group.Deleted.{Deleted}
use mandb.Db.Group.Dangling.{dbstore-dangling}
use mandb.Tests.Memory.{memory, memory-IsLawful, find, Table}

-- ls(1), as an entry of its own and with each field that may be NULL written.
abbrev pub ls_page : Mandata
ls_page = record {
  name = none;
  ext = codes "1";
  sec = codes "1";
  id = b'A';
  pointer = some (codes "-");
  comp = some (codes "gz");
  filter = some (codes "-");
  whatis = some (codes "list");
  mtime = record { tv_sec = pos 7; tv_nsec = pos 0 };
}

abbrev pub ls : Bytes
ls = codes "ls"

pub ls-IsStorable : IsStorable ls_page
ls-IsStorable = record {
  name_tab = ground arith;
  name_dash = λ h. ground (arith, h);
  ext_tab = ground arith;
  sec_tab = ground arith;
  id_tab = ground arith;
  id_nul = ground arith;
  pointer_tab = ground arith;
  filter_tab = ground arith;
  comp_tab = ground arith;
  sec_long = ground arith;
  nsec_long = ground arith;
}

split_content-make_content_example :
    split_content (make_content ls_page).1 ≡ some (set_defaults ls_page)
split_content-make_content_example = split_content-make_content ls_page ls-IsStorable

empty-IsGroup : IsGroup (contents memory memory-IsLawful []) (name_to_key ls)
unfolding situation find
empty-IsGroup = λ page ext o. refl

pub ls_nonempty : ls ≢ []
ls_nonempty h = ground (arith, h)

pub ls-Lacks : Lacks tab ls
ls-Lacks = ground arith

dbstore_total_example :
    (ret : ℕ) × (m' : Mandata) × (d' : Table) × (dbstore memory ls_page ls [] ≡ done (ret, m') d')
dbstore_total_example =
    dbstore_total memory memory-IsLawful ls_page ls [] ls_nonempty ls-Lacks ls-IsStorable
      empty-IsGroup

abbrev pub ls_content : Bytes
ls_content = codes "-\t1\t1\t7\t0\tA\t-\t-\tgz\tlist"

abbrev pub one_page : Table
one_page = (ls, ls_content) ∷ []

store_one : dbstore memory ls_page ls [] ≡ done (0, ls_page) one_page
unfolding dbstore store_in store_missing situation find with_name make_content print_long
    name_to_key tolower is_upper streq replace_or_die
store_one = refl

dbstore-Stored_example :
    Stored
      (contents memory memory-IsLawful [])
      (contents memory memory-IsLawful one_page)
      ls_page
      ls
      (winner memory.timespec_cmp
        (entry ls_page ls)
        (view (contents memory memory-IsLawful []) ls ls_page.ext))
dbstore-Stored_example =
    dbstore-Stored memory memory-IsLawful ls_page ls [] ls_nonempty ls-Lacks ls-IsStorable ls_page
      one_page empty-IsGroup store_one

-- The entries of a database with ls(1) alone, by what dbstore leaves.
pub one_page-IsGroup : IsGroup (contents memory memory-IsLawful one_page) (name_to_key ls)
one_page-IsGroup =
    (dbstore-Stored memory memory-IsLawful ls_page ls [] ls_nonempty ls-Lacks ls-IsStorable ls_page
      one_page empty-IsGroup store_one).group

pub ls_key : name_to_key ls ≡ ls
unfolding name_to_key tolower is_upper
ls_key = refl

dblookup_exact-view_example :
    dblookup_exact memory ls (some (codes "1")) true one_page
    ≡ done (view (λ k. find k one_page) ls (codes "1")) one_page
dblookup_exact-view_example =
    dblookup_exact-view memory memory-IsLawful ls (codes "1") one_page one_page-IsGroup ls-Lacks
      ls_key

dbdelete-Deleted_example :
    (d' : Table) × (dbdelete memory ls ls_page one_page ≡ done 0 d')
    × Deleted
        (contents memory memory-IsLawful one_page)
        (contents memory memory-IsLawful d')
        ls
        (codes "1")
dbdelete-Deleted_example =
    dbdelete-Deleted memory memory-IsLawful ls ls_page one_page
      (winner memory.timespec_cmp (entry ls_page ls)
        (view (contents memory memory-IsLawful []) ls ls_page.ext))
      one_page-IsGroup ls-Lacks
      (dbstore-Stored memory memory-IsLawful ls_page ls [] ls_nonempty ls-Lacks ls-IsStorable
        ls_page one_page empty-IsGroup store_one).here

one_page-situation : situation (find (name_to_key ls) one_page) ≡ single ls_content
unfolding situation find streq name_to_key tolower is_upper
one_page-situation = refl

pub ls_content_parses : split_content ls_content ≡ some ls_page
unfolding split_content take_fields atol strsep streq
ls_content_parses = refl

upper_situation : situation (find (name_to_key (codes "LS")) one_page) ≡ single ls_content
unfolding situation find streq name_to_key tolower is_upper
upper_situation = refl

key-Lacks : Lacks tab (name_to_key ls)
unfolding name_to_key tolower is_upper
key-Lacks = ground arith

abbrev one_page-IsSingle : IsSingle (name_to_key ls) ls_content
one_page-IsSingle = record {
  info = ls_page;
  parses = ls_content_parses;
  belongs = (key-Lacks, ap name_to_key ls_key);
  storable = ls-IsStorable;
  complete = refl;
}

ls-NoMulti : NoMulti (λ k. find k one_page) (name_to_key ls)
unfolding find
ls-NoMulti page ext o = rw (simple-ne-multi ls page ext ls-Lacks) refl

abbrev xz_page : Mandata
xz_page = record ls_page { ext = codes "1x"; comp = some (codes "xz") }

xz-IsStorable : IsStorable (unnamed xz_page)
xz-IsStorable = record {
  name_tab = ground arith;
  name_dash = λ h. ground (arith, h);
  ext_tab = ground arith;
  sec_tab = ground arith;
  id_tab = ground arith;
  id_nul = ground arith;
  pointer_tab = ground arith;
  filter_tab = ground arith;
  comp_tab = ground arith;
  sec_long = ground arith;
  nsec_long = ground arith;
}

xz_other : ref (get_or (name_to_key ls) ls_page.name) ls_page.ext ≢ ref ls xz_page.ext
xz_other h = ground (arith, ap (λ (r : NameExt). r.ext) h)

xz_fails :
    replace_action memory.timespec_cmp
      (make_content (unnamed xz_page)).0
      (make_content (unnamed ls_page)).0
    ≡ replace_fail
unfolding replace_action make_content strcmp streq
xz_fails = refl

dbstore-dangling_example :
    (m' : Mandata) × (d' : Table) × (dbstore memory xz_page ls one_page ≡ done (1, m') d')
    × (dblookup_exact memory ls (some (codes "1x")) true d' ≡ fatal d')
dbstore-dangling_example =
    dbstore-dangling memory memory-IsLawful xz_page ls ls_content one_page ls_nonempty ls-Lacks
      xz-IsStorable one_page-IsSingle one_page-situation ls-NoMulti xz_other xz_fails

abbrev two_refs : List NameExt
two_refs = ref ls (codes "1x") ∷ []

list_extensions-body_example :
    list_extensions insert (body (ref ls (codes "1")) two_refs) ≡ ref ls (codes "1") ∷ two_refs
list_extensions-body_example =
    list_extensions-body insert (ref ls (codes "1")) two_refs memory-IsLawful.adds_in_order
      ((less, tt), (tt, tt)) (ground arith)
  where
    less : name_ext_compare (ref ls (codes "1")) (ref ls (codes "1x")) ≡ Ordering.lt
    less = unfold name_ext_compare strcmp in refl
