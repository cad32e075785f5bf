-- ===== src/Manpath/Pathlist.antt =====
-- Manpaths from $PATH and $MANPATH, and the list of directories (src/manp.c).
use mandb.Base.{
  Bool, true, false, ◌&&◌, ◌||◌, Option, none, some, ◌>>=◌, List, [], ◌∷◌, ◌++◌, Bytes, codes, ◌==◌,
  if◌then◌else◌, get_or, map,
}
use mandb.CString.{streq, starts_with, split_last, strstr}
use mandb.CString.Fields.{fields}
use mandb.Manpath.{Config, same_flag, mandatory, manpath_map, mandb_map, mandb_map_user}
use mandb.Manpath.Nls.{Disk, is_dir, Manp, append_to, is_empty, add_system_manpath}

-- What else these functions ask: expand_path (src/globbing.c), canonicalize_file_name and xgetcwd.
pub record World : Type 0 where
  pub disk : Disk
  pub expand_path : Bytes → List Bytes
  pub canonicalize : Bytes → Option Bytes
  pub cwd : Option Bytes

pub record CanonicalizedPath : Type 0 where
  pub path : Bytes
  pub canon_path : Bytes

-- gl_list_search on a list of strings, and on one of canonicalized paths.
unfoldable pub listed : Bytes → List Bytes → Bool
listed dir [] = false
listed dir (d ∷ list) = streq d dir || listed dir list

unfoldable pub canon_listed : Bytes → List CanonicalizedPath → Bool
canon_listed canon [] = false
canon_listed canon (cp ∷ list) = streq cp.canon_path canon || canon_listed canon list

-- newpath is "%.*s/man" and the like.
abbrev below : Bytes → Bytes → Bytes
below dir name = dir ++ (b'/' ∷ name)

-- The path without a slash at its end.
unfoldable pub trimmed : Bytes → Bytes
trimmed path = elim (split_last b'/' path) [
  | none ↦ path
  | some (a, []) ↦ a
  | some (a, c ∷ b) ↦ path
]

-- The directories that add_man_subdirs tries, in its order.
unfoldable pub man_subdirs : Bytes → List Bytes
man_subdirs path =
    let t = trimmed path in
    elim (split_last b'/' t) [
      | none ↦ below t (codes "man") ∷ below t (codes "share/man") ∷ []
      | some (parent, name) ↦
          below parent (codes "man")
          ∷ below t (codes "man")
          ∷ below parent (codes "share/man")
          ∷ below t (codes "share/man")
          ∷ []
    ]

-- The text of the list, each item but the last followed by a colon.
unfoldable pub colon_separated : List Bytes → Bytes
colon_separated [] = []
colon_separated (item ∷ []) = item
colon_separated (item ∷ next ∷ list) = item ++ (b':' ∷ colon_separated (next ∷ list))

unfoldable pub ends_in_colon : Bytes → Bool
ends_in_colon [] = false
ends_in_colon (c ∷ []) = c == b':'
ends_in_colon (c ∷ d ∷ s) = ends_in_colon (d ∷ s)

module _ (world : World) where
  open world use {disk, expand_path, canonicalize, cwd}

  unfoldable pub append_dirs : List Bytes → Manp → Option Manp
  append_dirs [] manpath = some manpath
  append_dirs (dir ∷ dirs) manpath =
      (if is_dir (disk.is_directory dir) then append_to dir manpath else some manpath)
      >>= append_dirs dirs

  unfoldable pub def_path_of : Config → Manp → Option Manp
  def_path_of [] manpath = some manpath
  def_path_of (item ∷ config) manpath =
      (if same_flag item.flag mandatory
        then append_dirs (expand_path item.key) manpath
        else some manpath)
      >>= def_path_of config

  -- Its only flag is MANDATORY.
  unfoldable pub def_path : Config → Option Bytes
  def_path config = def_path_of config none >>= λ manpath. some (get_or (codes "/usr/man") manpath)

  unfoldable pub add_expanded_dir_to_list : Bytes → List Bytes → List Bytes
  add_expanded_dir_to_list dir list =
      if listed dir list
      then list
      else if is_dir (disk.is_directory dir)
      then list ++ (dir ∷ [])
      else list

  unfoldable pub add_expanded_dirs : List Bytes → List Bytes → List Bytes
  add_expanded_dirs [] list = list
  add_expanded_dirs (dir ∷ dirs) list = add_expanded_dirs dirs (add_expanded_dir_to_list dir list)

  unfoldable pub add_dir_to_list : Bytes → List Bytes → List Bytes
  add_dir_to_list dir = add_expanded_dirs (expand_path dir)

  unfoldable pub add_subdirs : List Bytes → List Bytes → List Bytes
  add_subdirs [] list = list
  add_subdirs (newpath ∷ newpaths) list =
      add_subdirs newpaths
        (if is_dir (disk.is_directory newpath) then add_dir_to_list newpath list else list)

  unfoldable pub add_man_subdirs : Bytes → List Bytes → List Bytes
  add_man_subdirs path = add_subdirs (man_subdirs path)

  -- The items of MANPATH_MAP for a directory of $PATH, and whether there was one.
  unfoldable pub add_mapped : Bytes → Config → List Bytes → List Bytes × Bool
  add_mapped p [] list = (list, false)
  add_mapped p (item ∷ config) list =
      if same_flag manpath_map item.flag && streq p item.key
      then ((add_mapped p config (add_dir_to_list item.cont list)).0, true)
      else add_mapped p config list

  unfoldable pub add_path_dir : Config → Bytes → List Bytes → List Bytes
  add_path_dir config p list =
      if is_empty p || streq p (codes ".")
      then list
      else let (list', manpath_map_found) = add_mapped p config list in
        if manpath_map_found then list' else add_man_subdirs p list'

  unfoldable pub add_path_dirs : Config → List Bytes → List Bytes → List Bytes
  add_path_dirs config [] list = list
  add_path_dirs config (p ∷ ps) list = add_path_dirs config ps (add_path_dir config p list)

  unfoldable pub add_mandatory_dirs : Config → List Bytes → List Bytes
  add_mandatory_dirs [] list = list
  add_mandatory_dirs (item ∷ config) list =
      add_mandatory_dirs config
        (if same_flag item.flag mandatory then add_dir_to_list item.key list else list)

  unfoldable pub dirs_from_path : Bytes → Bool → Config → List Bytes
  dirs_from_path path with_mandatory config =
      let list = add_path_dirs config (fields (codes ":") path) [] in
      if with_mandatory then add_mandatory_dirs config list else list

  unfoldable pub get_manpath_from_path : Bytes → Bool → Config → Bytes
  get_manpath_from_path path with_mandatory config =
      colon_separated (dirs_from_path path with_mandatory config)

  -- `disable_path` is whether MAN_TEST_DISABLE_PATH is set; `path` is $PATH, `system` is $SYSTEM.
  unfoldable pub guess_manpath :
      Bool → Option Bytes → Option Bytes → Option Bytes → Config → Option Bytes
  guess_manpath disable_path path system systems config = elim path [
    | none ↦ def_path config >>= add_system_manpath disk system systems
    | some p ↦
        if disable_path || is_empty p
        then def_path config >>= add_system_manpath disk system systems
        else add_system_manpath disk system systems (get_manpath_from_path p true config)
  ]

  -- `env` is $MANPATH; the other four are as for guess_manpath.
  unfoldable pub get_manpath :
      Option Bytes → Bool → Option Bytes → Option Bytes → Option Bytes → Config → Option Bytes
  get_manpath env disable_path path system systems config =
      let guess = guess_manpath disable_path path system systems config in
      let add = add_system_manpath disk system systems in
      elim env [
        | none ↦ guess
        | some manpathlist ↦
            if is_empty manpathlist
            then guess
            else if starts_with (codes ":") manpathlist
            then (add manpathlist >>= λ system1. guess >>= λ guessed. some (guessed ++ system1))
            else if ends_in_colon manpathlist
            then (add manpathlist >>= λ system1. guess >>= λ guessed. some (system1 ++ guessed))
            else elim (strstr (codes "::") manpathlist) [
              | none ↦ add manpathlist
              | some (first, pos) ↦ add first >>= λ system1. guess >>= λ guessed.
                  add (elim pos [ [] ↦ [] | c ∷ p ↦ p ]) >>= λ system2.
                  some (system1 ++ (b':' ∷ (guessed ++ system2)))
            ]
      ]

  -- A new item, if canonicalize_file_name succeeds and no item has its result.
  unfoldable pub add_canonical : Bytes → List CanonicalizedPath → List CanonicalizedPath
  add_canonical path list = elim (canonicalize path) [
    | none ↦ list
    | some canon ↦
        if canon_listed canon list
        then list
        else list ++ (record { path = path; canon_path = canon } ∷ [])
  ]

  -- The path behind the current directory's if it is relative; `none` is the fatal error.
  unfoldable pub absolute : Bytes → Option Bytes
  absolute dir = if starts_with (codes "/") dir then some dir else cwd >>= λ d. some (below d dir)

  unfoldable pub add_expanded_paths :
      List Bytes → List CanonicalizedPath → Option (List CanonicalizedPath)
  add_expanded_paths [] list = some list
  add_expanded_paths (dir ∷ dirs) list =
      (if is_dir (disk.is_directory dir)
        then (absolute dir >>= λ path. some (add_canonical path list))
        else some list)
      >>= add_expanded_paths dirs

  unfoldable pub add_dir_to_path_list :
      Bytes → List CanonicalizedPath → Option (List CanonicalizedPath)
  add_dir_to_path_list p = add_expanded_paths (expand_path p)

  unfoldable pub add_elements :
      Bytes → List Bytes → List CanonicalizedPath → Option (List CanonicalizedPath)
  add_elements override_dir [] list = some list
  add_elements override_dir (element ∷ elements) list =
      (if is_empty override_dir
        then some list
        else add_dir_to_path_list (below element override_dir) list)
      >>= λ l. add_dir_to_path_list element l >>= add_elements override_dir elements

  -- OVERRIDE_DIR is set by the build.
  unfoldable pub create_pathlist : Bytes → Bytes → Option (List Bytes)
  create_pathlist override_dir manp =
      add_elements override_dir (fields (codes ":") manp) [] >>= λ list.
      some (map (λ cp. cp.path) list)

unfoldable pub get_mandb_manpath : Config → Manp → Option Manp
get_mandb_manpath [] manpath = some manpath
get_mandb_manpath (item ∷ config) manpath =
    (if same_flag item.flag mandb_map || same_flag item.flag mandb_map_user
      then append_to item.key manpath
      else some manpath)
    >>= get_mandb_manpath config
