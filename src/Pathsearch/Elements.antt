-- ===== src/Pathsearch/Elements.antt =====
-- The search of lib/pathsearch.c by the elements of PATH.
use mandb.Base.{
  ℕ, zero, suc, ◌≤◌, ◌<◌, Bool, true, false, ◌||◌, none, some, List, [], ◌∷◌, ◌++◌, Bytes,
  if◌then◌else◌, length, ◌≡◌, refl, arith, All, Lacks, length-append,
}
use mandb.CString.{has, strsep}
use mandb.CString.Search.{strsep-append, strsep-Lacks}
use mandb.Pathsearch.{element_dir, search, search_path, pathsearch}

-- The elements parted by colons.
abbrev pub path_text : Bytes → List Bytes → Bytes
path_text e [] = e
path_text e (x ∷ es) = e ++ (b':' ∷ path_text x es)

-- Whether the test holds of one of the directories.
unfoldable pub any_dir : (Bytes → Bool) → List Bytes → Bool
any_dir test [] = false
any_dir test (d ∷ ds) = test d || any_dir test ds

abbrev pub or_cwd : Bytes → Bytes → Bytes
or_cwd cwd [] = cwd
or_cwd cwd (c ∷ s) = c ∷ s

abbrev pub dirs : Bytes → List Bytes → List Bytes
dirs cwd [] = []
dirs cwd (e ∷ es) = or_cwd cwd e ∷ dirs cwd es

element_dir_lem : (cwd e : Bytes) → element_dir (some cwd) e ≡ some (or_cwd cwd e)
unfolding element_dir
element_dir_lem cwd [] = refl
element_dir_lem cwd (c ∷ s) = refl

search_one :
    (cwd : Bytes) (test : Bytes → Bool) (f : ℕ) (e : Bytes)
    → Lacks b':' e
    → search (some cwd) test (suc (suc f)) (some e) ≡ some (test (or_cwd cwd e) || false)
unfolding search
search_one cwd test f e h = ground (arith, strsep-Lacks b':' e h, element_dir_lem cwd e, no_more)
  where
    no_more : strsep b':' none ≡ none
    no_more = unfold strsep in refl

search_more :
    (cwd : Bytes) (test : Bytes → Bool) (f : ℕ) (e rest : Bytes)
    → Lacks b':' e
    → search (some cwd) test (suc f) (some (e ++ (b':' ∷ rest)))
      ≡ (if test (or_cwd cwd e) then some true else search (some cwd) test f (some rest))
unfolding search
search_more cwd test f e rest h = ground (arith, strsep-append b':' e rest h, element_dir_lem cwd e)

search-any_dir :
    (cwd : Bytes) (test : Bytes → Bool) (f : ℕ) (e : Bytes) (es : List Bytes)
    → suc (length es) < f
    → All (Lacks b':') (e ∷ es)
    → search (some cwd) test f (some (path_text e es)) ≡ some (any_dir test (dirs cwd (e ∷ es)))
unfolding any_dir
search-any_dir cwd test zero e es room h = absurd (omega arith)
search-any_dir cwd test (suc zero) e es room h = absurd (omega arith)
search-any_dir cwd test (suc (suc f)) e [] room (h, hs) = search_one cwd test f e h
search-any_dir cwd test (suc (suc f)) e (x ∷ es) room (h, hs) = ground (
  arith,
  search_more cwd test (suc f) e (path_text x es) h,
  search-any_dir cwd test (suc f) x es (omega arith) hs,
)

path_text-length : (e : Bytes) (es : List Bytes) → length es ≤ length (path_text e es)
path_text-length e [] = omega arith
path_text-length e (x ∷ es) =
    omega (arith, length-append e (b':' ∷ path_text x es), path_text-length x es)

-- Where the current directory is known and the name has no '/', pathsearch tells whether the file is
-- usable in one of the directories of PATH, whose elements have no colon, with the current directory
-- for an empty one.
pub pathsearch-any_dir :
    (cwd : Bytes) (usable : Bytes → Bool) (name e : Bytes) (es : List Bytes)
    → has b'/' name ≡ false
    → All (Lacks b':') (e ∷ es)
    → pathsearch (some (path_text e es)) (some cwd) usable name
      ≡ some (any_dir (λ dir. usable (dir ++ (b'/' ∷ name))) (dirs cwd (e ∷ es)))
unfolding pathsearch search_path
pathsearch-any_dir cwd usable name e es plain h = rw plain (
    search-any_dir cwd (λ dir. usable (dir ++ (b'/' ∷ name))) (suc (suc (length (path_text e es))))
      e es (omega (arith, path_text-length e es)) h)
