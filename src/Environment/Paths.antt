-- ===== src/Environment/Paths.antt =====
-- pkg/bootstrap/environment/variables.go: the paths of a configuration map, and what is read and
-- written at a path.
use Prim.Native.String
use go_mod_edge_utils.Prelude.{
  String, Bool, true, false, Option, none, some, List, [], ◌∷◌, ◌++◌, Dict, insert, split_on,
  replace_char,
}
use go_mod_edge_utils.Prelude as P
use go_mod_edge_utils.Environment.Values.{
  Value, null, map, other_map, Fields, end, field, lookup_field, insert_field,
}

-- `fmt.Sprintf("%s/%s", key, path)`
abbrev pub under : String → String → String
under key path = String.◌++◌ key (String.◌++◌ "/" path)

abbrev pub append_both {ℓ} : {A : Type ℓ} → Option (List A) → Option (List A) → Option (List A)
append_both (some xs) (some ys) = some (xs ++ ys)
append_both _ _ = none

abbrev pub all_under : String → Option (List String) → Option (List String)
all_under key none = none
all_under key (some paths) = some (P.map (under key) paths)

module _ {F : Type 0} where
  -- A map of another type panics at the assertion that it is a `map[string]any`.
  unfoldable mutual
    -- `buildPaths`
    pub build_paths : Fields F → Option (List String)
    build_paths end = some []
    build_paths (field key item m) = append_both (paths_of key item) (build_paths m)

    pub paths_of : String → Value F → Option (List String)
    paths_of key (map sub) = all_under key (build_paths sub)
    paths_of key (other_map name) = none
    paths_of key _ = some (key ∷ [])

  -- `m[key]`, which is nil for a key that is missing.
  abbrev pub or_null : Option (Value F) → Value F
  or_null none = null
  or_null (some v) = v

  -- `itemMap, isMap := item.(map[string]any)`
  abbrev pub as_map : Value F → Option (Fields F)
  as_map (map m) = some m
  as_map _ = none

  -- The loop of `getConfigMapValue`.
  unfoldable pub walk : List String → Fields F → Value F
  walk [] m = null
  walk (key ∷ keys) m = elim (as_map (or_null (lookup_field key m))) [
    | some sub ↦ walk keys sub
    | none ↦ or_null (lookup_field key m)
  ]

  -- The loop of `setConfigMapValue`.
  unfoldable pub write : List String → Value F → Fields F → Fields F
  write [] v m = m
  write (key ∷ keys) v m = elim (as_map (or_null (lookup_field key m))) [
    | some sub ↦ insert_field key (map (write keys v sub)) m
    | none ↦ insert_field key v m
  ]

  -- `getConfigMapValue`
  unfoldable pub get_config_map_value : String → Fields F → Value F
  unfolding walk split_on lookup_field
  get_config_map_value path m = elim (lookup_field path m) [
    | some v ↦ v
    | none ↦ walk (split_on "/" path) m
  ]

  -- `setConfigMapValue`
  unfoldable pub set_config_map_value : String → Value F → Fields F → Fields F
  unfolding write split_on lookup_field insert_field
  set_config_map_value path v m = elim (lookup_field path m) [
    | some old ↦ insert_field path v m
    | none ↦ write (split_on "/" path) v m
  ]

module _ (to_upper : String → String) where
  -- `getOverrideNameFor`
  unfoldable pub get_override_name_for : String → String
  unfolding replace_char
  get_override_name_for path = to_upper (replace_char "-" "_" (replace_char "/" "_" path))

  -- The loop of `buildOverrideNames`, from the names that it has so far.
  unfoldable pub add_names : List String → Dict String → Dict String
  unfolding get_override_name_for
  add_names [] names = names
  add_names (path ∷ paths) names = add_names paths (insert (get_override_name_for path) path names)

  -- `buildOverrideNames`
  unfoldable pub build_override_names : List String → Dict String
  unfolding add_names insert
  build_override_names paths = add_names paths []
