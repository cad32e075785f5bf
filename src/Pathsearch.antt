-- ===== src/Pathsearch.antt =====
-- lib/pathsearch.c: programs and directories on PATH.
pub mod Elements
use mandb.Base.{
  ℕ, zero, suc, Bool, true, false, Option, none, some, List, [], ◌∷◌, ◌++◌, Bytes, if◌then◌else◌,
  length,
}
use mandb.CString.{streq, has, strsep}

-- An element of PATH, or the current directory for an empty one; `none` is the fatal error.
unfoldable pub element_dir : Option Bytes → Bytes → Option Bytes
element_dir cwd [] = cwd
element_dir cwd (c ∷ s) = some (c ∷ s)

-- The loop over the elements with its test of a directory. `none` is the fatal error.
unfoldable pub search : Option Bytes → (Bytes → Bool) → ℕ → Option Bytes → Option Bool
search cwd test zero pathtok = some false
search cwd test (suc f) pathtok = elim (strsep b':' pathtok) [
  | none ↦ some false
  | some (element, rest) ↦
      let later = search cwd test f rest in
      elim (element_dir cwd element) [
        | none ↦ none
        | some dir ↦ if test dir then some true else later
      ]
]

-- There is one element more than there are colons, and one round for the end.
unfoldable pub search_path : Option Bytes → (Bytes → Bool) → Bytes → Option Bool
search_path cwd test path = search cwd test (suc (suc (length path))) (some path)

-- The first two arguments are getenv ("PATH") and xgetcwd (); `usable` is stat with the tests on it,
-- for the bits that are asked for.
unfoldable pub pathsearch : Option Bytes → Option Bytes → (Bytes → Bool) → Bytes → Option Bool
pathsearch none cwd usable name = some false
pathsearch (some path) cwd usable name =
    if has b'/' name
    then some (usable name)
    else search_path cwd (λ dir. usable (dir ++ (b'/' ∷ name))) path

-- `executable` is stat and the test for the bits 0111.
unfoldable pub pathsearch_executable :
    Option Bytes → Option Bytes → (Bytes → Bool) → Bytes → Option Bool
pathsearch_executable path cwd executable name = pathsearch path cwd executable name

unfoldable pub directory_on_path : Option Bytes → Option Bytes → Bytes → Option Bool
directory_on_path none cwd dir = some false
directory_on_path (some path) cwd dir = search_path cwd (λ element. streq element dir) path
