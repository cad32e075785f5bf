-- ===== src/Manpath.antt =====
-- The manpath configuration: its items, and what is read off them (src/manp.c).
pub mod Append
pub mod Nls
pub mod Pathlist
pub mod Untranslated
pub mod Unique
pub mod Dirs
pub mod Setuid
pub mod Catpath
pub mod Fsstnd
use mandb.Base.{
  ℕ, suc, ◌+◌, ◌-◌, Bool, true, false, not, ◌&&◌, ◌||◌, Option, none, some, List, [], ◌∷◌, ◌++◌,
  Bytes, codes, ◌==◌, if◌then◌else◌, length, drop, is_some,
}
use mandb.CString.{streq, starts_with, split_last}
use mandb.CString.Fields.{tokens}

pub data ConfigFlag : Type 0 where
  mandatory manpath_map mandb_map mandb_map_user define define_user section section_user :
      ConfigFlag

unfoldable pub flag_index : ConfigFlag → ℕ
flag_index mandatory = 0
flag_index manpath_map = 1
flag_index mandb_map = 2
flag_index mandb_map_user = 3
flag_index define = 4
flag_index define_user = 5
flag_index section = 6
flag_index section_user = 7

unfoldable pub same_flag : ConfigFlag → ConfigFlag → Bool
unfolding flag_index
same_flag a b = flag_index a == flag_index b

pub record ConfigItem : Type 0 where
  pub key : Bytes
  pub cont : Bytes
  pub flag : ConfigFlag

-- The list `config`.
abbrev pub Config : Type 0
Config = List ConfigItem

unfoldable pub add_config : Bytes → Bytes → ConfigFlag → Config → Config
add_config key cont flag config = config ++ (record { key = key; cont = cont; flag = flag } ∷ [])

unfoldable pub get_config : Bytes → ConfigFlag → Config → Option Bytes
get_config key flag [] = none
get_config key flag (item ∷ config) =
    if same_flag flag item.flag && streq key item.key
    then some item.cont
    else get_config key flag config

abbrev or_else_def : Option Bytes → Option Bytes → Option Bytes
or_else_def none def = def
or_else_def (some s) def = some s

unfoldable pub get_def_user : Bytes → Option Bytes → Config → Option Bytes
get_def_user thing def config =
    or_else_def (or_else_def (get_config thing define_user config) (get_config thing define config))
      def

-- `setuid` is running_setuid ().
unfoldable pub get_def : Bool → Bytes → Option Bytes → Config → Option Bytes
get_def setuid thing def config =
    if not setuid
    then get_def_user thing def config
    else or_else_def (get_config thing define config) def

unfoldable pub add_each : ConfigFlag → List Bytes → Config → Config
add_each flag [] config = config
add_each flag (sect ∷ sections) config = add_each flag sections (add_config sect [] flag config)

unfoldable pub add_sections : Bytes → Bool → Config → Config
add_sections sections user =
    add_each (if user then section_user else section) (tokens (codes " ") sections)

unfoldable pub count_flag : ConfigFlag → Config → ℕ
count_flag flag [] = 0
count_flag flag (item ∷ config) =
    let rest = count_flag flag config in if same_flag item.flag flag then suc rest else rest

unfoldable pub keys_with : ConfigFlag → Config → List Bytes
keys_with flag [] = []
keys_with flag (item ∷ config) =
    let rest = keys_with flag config in if same_flag item.flag flag then item.key ∷ rest else rest

unfoldable pub get_sections : Config → List Bytes
get_sections config =
    keys_with (if count_flag section_user config == 0 then section else section_user) config

unfoldable pub add_def : Bytes → Bytes → Bool → Config → Config
add_def thing config_def user = add_config thing config_def (if user then define_user else define)

unfoldable pub add_manpath_map : Option Bytes → Option Bytes → Config → Config
add_manpath_map (some path) (some mandir) config = add_config path mandir manpath_map config
add_manpath_map _ _ config = config

unfoldable pub add_mandatory : Option Bytes → Config → Config
add_mandatory none config = config
add_mandatory (some mandir) config = add_config mandir [] mandatory config

-- One element of the path; `none` is `continue`.
unfoldable pub cat_element : Bytes → Option Bytes
cat_element element =
    if starts_with (codes "man") element
    then elim (drop 3 element) [ [] ↦ none | c ∷ rest ↦ some (codes "cat" ++ (c ∷ rest)) ]
    else some element

unfoldable pub cat_elements : List Bytes → Bytes
cat_elements [] = []
cat_elements (element ∷ elements) =
    let rest = cat_elements elements in
    elim (cat_element element) [ none ↦ rest | some e ↦ b'/' ∷ (e ++ rest) ]

-- MAN_ROOT and CAT_ROOT are set by the build.
unfoldable pub fsstnd : Bytes → Bytes → Bytes → Bytes
fsstnd man_root cat_root path =
    if starts_with man_root path
    then cat_root ++ cat_elements (tokens (codes "/") (drop (length man_root) path))
    else path

-- The bytes that fsstnd allocates: strlen (path) + sizeof CAT_ROOT - 3, behind MAN_ROOT.
unfoldable pub fsstnd_size : Bytes → Bytes → Bytes → ℕ
fsstnd_size man_root cat_root path =
    length (drop (length man_root) path) + suc (length cat_root) - 3

unfoldable pub add_mandb_map : Bytes → Bytes → Option Bytes → Bytes → Bool → Config → Config
add_mandb_map man_root cat_root none catdir user config = config
add_mandb_map man_root cat_root (some mandir) catdir user config =
    add_config mandir
      (if streq catdir (codes "FSSTND") then fsstnd man_root cat_root mandir else catdir)
      (if user then mandb_map_user else mandb_map) config

-- The part of the name behind the key: the text that is copied, and that from `suffix` on.
unfoldable pub infix_suffix : Bytes → Bytes × Bytes
infix_suffix rest = elim (split_last b'/' rest) [
  | none ↦ ([], rest)
  | some (a, b) ↦ elim (split_last b'/' a) [
    | some (a1, a2) ↦ (a1 ++ codes "/", a2 ++ (b'/' ∷ b))
    | none ↦ elim a [ [] ↦ (codes "/", b) | c ∷ a' ↦ ([], rest) ]
  ]
]

-- A leading "man" becomes "cat".
unfoldable pub cat_for_man : Bytes → Bytes
cat_for_man suffix =
    if starts_with (codes "man") suffix then codes "cat" ++ drop 3 suffix else suffix

unfoldable pub catpath_of : Bytes → ConfigItem → Bytes
catpath_of name item =
    let rest = drop (length item.key) name in
    if is_some (split_last b'/' name)
    then (let (infix_, suffix) = infix_suffix rest in item.cont ++ (infix_ ++ cat_for_man suffix))
    else item.cont ++ rest

-- The two bits of cattype.
unfoldable pub get_catpath : Bytes → Bool → Bool → Config → Option Bytes
get_catpath name system_cat user_cat [] = none
get_catpath name system_cat user_cat (item ∷ config) =
    let rest = get_catpath name system_cat user_cat config in
    if (system_cat && same_flag item.flag mandb_map
        || user_cat && same_flag item.flag mandb_map_user)
      && starts_with item.key name
    then some (catpath_of name item)
    else rest

unfoldable pub is_global_mandir : Bytes → Config → Bool
is_global_mandir dir [] = false
is_global_mandir dir (item ∷ config) =
    if same_flag item.flag mandb_map && starts_with item.key dir
    then true
    else is_global_mandir dir config
