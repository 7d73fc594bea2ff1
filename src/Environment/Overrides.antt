-- ===== src/Environment/Overrides.antt =====
-- pkg/bootstrap/environment/variables.go: the environment variables, and the overrides of a
-- configuration map by those whose names are the names of settings.
pub mod Chosen
pub mod Entries
pub mod Total
pub mod Runs
pub mod Applied
use Prim.Native.Char.{code}
use Prim.Native.String
use go_mod_edge_utils.Prelude.{
  ℕ, suc, String, Option, none, some, List, [], ◌∷◌, Dict, lookup, insert, if◌then◌else◌, ◌==◌,
  nat_eq,
}
use go_mod_edge_utils.Environment.Values.{Value, Fields}
use go_mod_edge_utils.Environment.Paths.{
  build_paths, get_config_map_value, set_config_map_value, build_override_names,
}
use go_mod_edge_utils.Environment.Convert.{
  Number, ConvertErr, Converted, converted, failed, panicked, convert_to_type,
}

-- What stands before and behind the first `=`, if there is one.
unfoldable pub cut : String → Option (String × String)
cut String.[] = none
cut (String.◌∷◌ c s) =
    let rest = cut s in
    if code c == 61
    then some ("", s)
    else elim rest [ none ↦ none | some (key, value) ↦ some (String.◌∷◌ c key, value) ]

abbrev pub add_variable : Dict String → Option (String × String) → Dict String
add_variable variables none = variables
add_variable variables (some (key, value)) = insert key value variables

-- The loop of `NewVariables` over `os.Environ()`.
unfoldable pub add_variables : List String → Dict String → Dict String
unfolding cut
add_variables [] variables = variables
add_variables (env ∷ envs) variables = add_variables envs (add_variable variables (cut env))

-- `NewVariables`
unfoldable pub new_variables : List String → Dict String
unfolding add_variables insert
new_variables os_env = add_variables os_env []

-- An error, with the name and the value of the variable.
pub data OverrideErr : Type 0 where
  no_err : OverrideErr
  override_failed : String → String → ConvertErr → OverrideErr

-- What `OverrideConfigMapValues` returns, and the map that it was given, as it leaves it.
pub record Overridden (F : Type 0) : Type 0 where
  pub count : ℕ
  pub err : OverrideErr
  pub config_map : Fields F

module _ {F : Type 0} (parse_float : ℕ → String → Number F) (to_upper : String → String) where
  module _ (names : Dict String) where
    -- The loop over the variables; a panic is none.
    unfoldable pub override_loop : Dict String → ℕ → Fields F → Option (Overridden F)
    unfolding get_config_map_value set_config_map_value convert_to_type lookup
    override_loop [] count m = some (record { count = count; err = no_err; config_map = m })
    override_loop ((name, value) ∷ variables) count m = elim (lookup name names) [
      | none ↦ override_loop variables count m
      | some path ↦ elim (convert_to_type parse_float (get_config_map_value path m) value) [
        | converted v ↦ override_loop variables (suc count) (set_config_map_value path v m)
        | failed e ↦ some (record { count = 0; err = override_failed name value e; config_map = m })
        | panicked ↦ none
      ]
    ]

  -- `OverrideConfigMapValues`
  unfoldable pub override_config_map_values : Dict String → Fields F → Option (Overridden F)
  unfolding override_loop build_paths build_override_names
  override_config_map_values variables m = elim (build_paths m) [
    | none ↦ none
    | some paths ↦ override_loop (build_override_names to_upper paths) variables 0 m
  ]
