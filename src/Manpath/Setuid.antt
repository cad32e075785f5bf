-- ===== src/Manpath/Setuid.antt =====
-- What code with raised privileges reads of the configuration (src/manp.c).
use mandb.Base.{
  Bool, true, false, Option, [], ◌∷◌, Bytes, ◌≡◌, refl, arith, if◌then◌else◌, Bool-cases, inl, inr,
  is_some,
}
use mandb.Manpath.{
  ConfigFlag, mandatory, manpath_map, mandb_map, mandb_map_user, define, define_user, section,
  section_user, flag_index, same_flag, Config, get_config, get_def, get_catpath, is_global_mandir,
}

-- The items that the user's own file can add besides those of the system's.
unfoldable pub is_user_flag : ConfigFlag → Bool
is_user_flag mandb_map_user = true
is_user_flag define_user = true
is_user_flag section_user = true
is_user_flag _ = false

unfoldable pub system_only : Config → Config
system_only [] = []
system_only (item ∷ config) =
    let rest = system_only config in if is_user_flag item.flag then rest else item ∷ rest

user_flag_cases :
    (flag : ConfigFlag)
    → is_user_flag flag ≡ true
    → (same_flag define flag ≡ false) × (same_flag flag mandb_map ≡ false)
unfolding is_user_flag same_flag flag_index
user_flag_cases mandb_map_user h = (refl, refl)
user_flag_cases define_user h = (refl, refl)
user_flag_cases section_user h = (refl, refl)
user_flag_cases mandatory h = ground arith
user_flag_cases manpath_map h = ground arith
user_flag_cases mandb_map h = ground arith
user_flag_cases define h = ground arith
user_flag_cases section h = ground arith

get_config_system :
    (key : Bytes) (config : Config)
    → get_config key define (system_only config) ≡ get_config key define config
unfolding get_config system_only
get_config_system key [] = refl
get_config_system key (item ∷ config) = elim (Bool-cases (is_user_flag item.flag)) [
  | inl u ↦ ground (arith, u, get_config_system key config, user_flag_cases item.flag u)
  | inr u ↦ ground (arith, u, get_config_system key config)
]

get_catpath_system :
    (name : Bytes) (config : Config)
    → get_catpath name true false (system_only config) ≡ get_catpath name true false config
unfolding get_catpath system_only
get_catpath_system name [] = refl
get_catpath_system name (item ∷ config) = elim (Bool-cases (is_user_flag item.flag)) [
  | inl u ↦ ground (arith, u, get_catpath_system name config, user_flag_cases item.flag u)
  | inr u ↦ ground (arith, u, get_catpath_system name config)
]

-- A directory is a system-wide one exactly when the system's items give it a cat directory.
is_global_mandir-get_catpath :
    (dir : Bytes) (config : Config)
    → is_global_mandir dir config ≡ is_some (get_catpath dir true false config)
unfolding is_global_mandir get_catpath
is_global_mandir-get_catpath dir [] = refl
is_global_mandir-get_catpath dir (item ∷ config) =
    ground (arith, is_global_mandir-get_catpath dir config)

-- Removing the user's items from the configuration changes neither what get_def returns when
-- running setuid, nor the cat path that get_catpath finds for SYSTEM_CAT alone, nor
-- is_global_mandir, which holds exactly when that cat path exists.
pub setuid_lookups :
    (thing dir : Bytes) (def : Option Bytes) (config : Config)
    → (get_def true thing def (system_only config) ≡ get_def true thing def config)
      × (get_catpath dir true false (system_only config) ≡ get_catpath dir true false config)
      × (is_global_mandir dir (system_only config) ≡ is_some (get_catpath dir true false config))
unfolding get_def
setuid_lookups thing dir def config = (
  ground (arith, get_config_system thing config),
  get_catpath_system dir config,
  ground
      (arith, is_global_mandir-get_catpath dir (system_only config), get_catpath_system dir config),
)
