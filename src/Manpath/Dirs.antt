-- ===== src/Manpath/Dirs.antt =====
-- The directories that src/manp.c makes of $PATH.
use mandb.Base.{
  Bool, true, false, ◌&&◌, ◌||◌, List, [], ◌∷◌, Bytes, codes, ◌≡◌, ◌≢◌, arith, if◌then◌else◌, All,
  All-append, Bool-cases, inl, inr,
}
use mandb.CString.{streq}
use mandb.CString.Compare.{streq_iff}
use mandb.CString.Fields.{fields}
use mandb.Manpath.{Config, same_flag, manpath_map}
use mandb.Manpath.Nls.{is_dir, is_empty}
use mandb.Manpath.Pathlist.{
  World, listed, man_subdirs, add_expanded_dir_to_list, add_expanded_dirs, add_dir_to_list,
  add_subdirs, add_man_subdirs, add_mapped, add_path_dir, add_path_dirs, add_mandatory_dirs,
  dirs_from_path,
}
use mandb.Manpath.Unique.{Pairwise, Pairwise-last}

not_listed : (dir : Bytes) (list : List Bytes) → listed dir list ≡ false → All (λ d. d ≢ dir) list
unfolding listed
not_listed dir [] h = tt
not_listed dir (d ∷ list) h =
    (ground (arith, h, streq_iff d dir), not_listed dir list (ground (arith, h)))

module _ (world : World) where
  open world use {disk, expand_path, canonicalize}

  -- No two are equal, and each is a directory.
  abbrev pub AreDirs : List Bytes → Type 0
  AreDirs list = Pairwise (λ a b. a ≢ b) list × All (λ d. is_dir (disk.is_directory d) ≡ true) list

  add_one :
      (dir : Bytes) (list : List Bytes)
      → AreDirs list
      → AreDirs (add_expanded_dir_to_list world dir list)
  unfolding add_expanded_dir_to_list
  add_one dir list v = elim (Bool-cases (listed dir list)) [
    | inl e ↦ rw e v
    | inr e ↦ elim (Bool-cases (is_dir (disk.is_directory dir))) [
      | inr k ↦ rw (e, k) v
      | inl k ↦
          rw (e, k)
            (
              Pairwise-last (λ a b. a ≢ b) list dir v.0 (not_listed dir list e),
              All-append (λ d. is_dir (disk.is_directory d) ≡ true) list (dir ∷ []) v.1 (k, tt),
            )
    ]
  ]

  add_all : (dirs list : List Bytes) → AreDirs list → AreDirs (add_expanded_dirs world dirs list)
  unfolding add_expanded_dirs
  add_all [] list v = v
  add_all (dir ∷ dirs) list v =
      add_all dirs (add_expanded_dir_to_list world dir list) (add_one dir list v)

  add_dir :
      (dir : Bytes) (list : List Bytes) → AreDirs list → AreDirs (add_dir_to_list world dir list)
  unfolding add_dir_to_list
  add_dir dir list = add_all (expand_path dir) list

  dirs_if : (x : Bool) (a b : List Bytes) → AreDirs a → AreDirs b → AreDirs (if x then a else b)
  dirs_if true a b v w = v
  dirs_if false a b v w = w

  subdirs : (paths list : List Bytes) → AreDirs list → AreDirs (add_subdirs world paths list)
  unfolding add_subdirs
  subdirs [] list v = v
  subdirs (path ∷ paths) list v =
      subdirs paths _ (dirs_if (is_dir (disk.is_directory path)) _ _ (add_dir path list v) v)

  mapped :
      (p : Bytes) (config : Config) (list : List Bytes)
      → AreDirs list
      → AreDirs (add_mapped world p config list).0
  unfolding add_mapped
  mapped p [] list v = v
  mapped p (item ∷ config) list v =
      elim (Bool-cases (same_flag manpath_map item.flag && streq p item.key)) [
        | inl e ↦
            rw e (mapped p config (add_dir_to_list world item.cont list) (add_dir item.cont list v))
        | inr e ↦ rw e (mapped p config list v)
      ]

  path_dir :
      (config : Config) (p : Bytes) (list : List Bytes)
      → AreDirs list
      → AreDirs (add_path_dir world config p list)
  unfolding add_path_dir add_man_subdirs
  path_dir config p list v =
      let with_map = add_mapped world p config list in
      let with_subdirs = add_subdirs world (man_subdirs p) with_map.0 in
      dirs_if (is_empty p || streq p (codes ".")) list
        (if with_map.1 then with_map.0 else with_subdirs) v
        (dirs_if with_map.1 with_map.0 with_subdirs (mapped p config list v)
          (subdirs (man_subdirs p) with_map.0 (mapped p config list v)))

  path_dirs :
      (config : Config) (ps list : List Bytes)
      → AreDirs list
      → AreDirs (add_path_dirs world config ps list)
  unfolding add_path_dirs
  path_dirs config [] list v = v
  path_dirs config (p ∷ ps) list v = path_dirs config ps _ (path_dir config p list v)

  mandatory_dirs :
      (config : Config) (list : List Bytes)
      → AreDirs list
      → AreDirs (add_mandatory_dirs world config list)
  unfolding add_mandatory_dirs
  mandatory_dirs [] list v = v
  mandatory_dirs (item ∷ config) list v =
      mandatory_dirs config _ (dirs_if _ _ _ (add_dir item.key list v) v)

  -- The directories that get_manpath_from_path joins are directories, and no two are equal.
  dirs_from_path-AreDirs :
      (path : Bytes) (with_mandatory : Bool) (config : Config)
      → AreDirs (dirs_from_path world path with_mandatory config)
  unfolding dirs_from_path
  dirs_from_path-AreDirs path with_mandatory config =
      let list = add_path_dirs world config (fields (codes ":") path) [] in
      let v = path_dirs config (fields (codes ":") path) [] (tt, tt) in
      dirs_if with_mandatory _ _ (mandatory_dirs config list v) v
