-- ===== src/Manpath/Nls.antt =====
-- The directories of locales and of other systems in a manpath (src/manp.c, and locale_manpath of
-- src/man.c). The results are `none` where pathappend's are.
use mandb.Base.{
  Bool, true, false, not, ◌&&◌, ◌||◌, Option, none, some, ◌>>=◌, List, [], ◌∷◌, ◌++◌, Bytes, codes,
  if◌then◌else◌, get_or,
}
use mandb.CString.{streq, starts_with}
use mandb.CString.Fields.{fields, tokens}
use mandb.Locale.{LocaleBits, unpack_locale_bits}
use mandb.Manpath.{Config, get_config, mandb_map, mandb_map_user}
use mandb.Manpath.Append.{pathappend}

-- What the file system says: opendir and readdir, and is_directory, which is negative when stat
-- fails.
pub data Directory : Type 0 where
  no_stat no_directory directory : Directory

pub record Disk : Type 0 where
  pub entries : Bytes → Option (List Bytes)
  pub is_directory : Bytes → Directory

unfoldable pub is_dir : Directory → Bool
is_dir directory = true
is_dir _ = false

-- A manpath that is being built; NULL is `none`.
abbrev pub Manp : Type 0
Manp = Option Bytes

-- pathappend on a manpath that is being built.
unfoldable pub append_to : Bytes → Manp → Option Manp
append_to dir path = pathappend path dir >>= λ p. some (some p)

unfoldable pub is_empty : Bytes → Bool
is_empty [] = true
is_empty _ = false

unfoldable pub serves : LocaleBits → LocaleBits → Bool
serves lbits mbits =
    streq lbits.language mbits.language
    && (is_empty mbits.territory || streq lbits.territory mbits.territory)
    && (is_empty mbits.modifier || streq lbits.modifier mbits.modifier)

-- What a locale's manpath adds to the one that is being built.
unfoldable pub add_locale_manpath : Manp → Manp → Manp
add_locale_manpath manpath none = manpath
add_locale_manpath none (some locale_manpath) = some locale_manpath
add_locale_manpath (some m) (some locale_manpath) = some (m ++ (b':' ∷ locale_manpath))

module _ (disk : Disk) where
  open disk use {entries, is_directory}

  -- Whether a directory entry's path is appended.
  unfoldable pub takes : LocaleBits → Bytes → Bytes → Bool
  takes lbits path name =
      not (streq name (codes ".") || streq name (codes ".."))
      && not (starts_with (codes "man") name)
      && is_dir (is_directory (path ++ (b'/' ∷ name)))
      && serves lbits (unpack_locale_bits name)

  unfoldable pub append_entries : LocaleBits → Bytes → List Bytes → Manp → Option Manp
  append_entries lbits path [] manpath = some manpath
  append_entries lbits path (name ∷ names) manpath =
      (if takes lbits path name then append_to (path ++ (b'/' ∷ name)) manpath else some manpath)
      >>= append_entries lbits path names

  unfoldable pub nls_of_path : LocaleBits → Bytes → Manp → Option Manp
  nls_of_path lbits path manpath = elim (entries path) [
    | none ↦ some manpath
    | some names ↦ append_entries lbits path names manpath >>= λ m.
        if streq lbits.language (codes "en") then append_to path m else some m
  ]

  unfoldable pub nls_of_paths : LocaleBits → List Bytes → Manp → Option Manp
  nls_of_paths lbits [] manpath = some manpath
  nls_of_paths lbits (path ∷ paths) manpath =
      nls_of_path lbits path manpath >>= nls_of_paths lbits paths

  unfoldable pub get_nls_manpath : Bytes → Bytes → Option Manp
  get_nls_manpath manpathlist locale =
      let lbits = unpack_locale_bits locale in
      if streq lbits.language (codes "C") || streq lbits.language (codes "POSIX")
      then some (some manpathlist)
      else nls_of_paths lbits (fields (codes ":") manpathlist) none

  unfoldable pub add_locales : Bytes → List Bytes → Manp → Option Manp
  add_locales manpathlist [] manpath = some manpath
  add_locales manpathlist (tok ∷ toks) manpath =
      if is_empty tok
      then add_locales manpathlist toks manpath
      else get_nls_manpath manpathlist tok >>= λ m.
          add_locales manpathlist toks (add_locale_manpath manpath m)

  unfoldable pub add_nls_manpaths : Bytes → Option Bytes → Option Manp
  add_nls_manpaths manpathlist locales =
      if is_empty (get_or [] locales)
      then some (some manpathlist)
      else add_locales manpathlist (fields (codes ":") (get_or [] locales)) none >>= λ manpath.
          get_nls_manpath manpathlist (codes "C") >>= λ m. some (add_locale_manpath manpath m)

  -- By the options' locales and the environment's, each of which may be NULL.
  unfoldable pub locale_manpath : Option Bytes → Option Bytes → Bytes → Option Manp
  locale_manpath multiple_locale internal_locale manpath = add_nls_manpaths manpath (
      if not (is_empty (get_or [] multiple_locale))
      then if not (is_empty (get_or [] internal_locale))
        then some (get_or [] multiple_locale ++ (b':' ∷ get_or [] internal_locale))
        else some (get_or [] multiple_locale)
      else if not (is_empty (get_or [] internal_locale))
      then internal_locale
      else none)

  unfoldable pub system_of_paths : Bytes → List Bytes → Manp → Option Manp
  system_of_paths one_system [] manpath = some manpath
  system_of_paths one_system (element ∷ elements) manpath =
      let newdir = element ++ (b'/' ∷ one_system) in
      (if is_dir (is_directory newdir) then append_to newdir manpath else some manpath)
      >>= system_of_paths one_system elements

  unfoldable pub add_systems : Bytes → List Bytes → Manp → Option Manp
  add_systems manpathlist [] manpath = some manpath
  add_systems manpathlist (one_system ∷ systems) manpath =
      (if not (streq one_system (codes "man"))
        then system_of_paths one_system (fields (codes ":") manpathlist) manpath
        else append_to manpathlist manpath)
      >>= add_systems manpathlist systems

  -- `env` is what getenv ("SYSTEM") returns.
  unfoldable pub add_system_manpath : Option Bytes → Option Bytes → Bytes → Option Bytes
  add_system_manpath env systems manpathlist =
      let names = get_or [] (elim systems [ none ↦ env | some s ↦ some s ]) in
      if is_empty names
      then some manpathlist
      else add_systems manpathlist (tokens (codes ",:") names) none >>= λ m.
          some (get_or manpathlist m)

unfoldable pub cat_manpath_of : List Bytes → Config → Manp → Option Manp
cat_manpath_of [] config catp = some catp
cat_manpath_of (path ∷ paths) config catp =
    append_to
      (get_or path (elim (get_config path mandb_map_user config) [
        | none ↦ get_config path mandb_map config
        | some dir ↦ some dir
      ]))
      catp
    >>= cat_manpath_of paths config

unfoldable pub cat_manpath : Bytes → Config → Option Manp
cat_manpath manp config = cat_manpath_of (fields (codes ":") manp) config none
