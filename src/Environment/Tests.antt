-- ===== src/Environment/Tests.antt =====
-- Overrides of a small configuration.
use go_mod_edge_utils.Prelude.{
  ℕ, pos, negsuc, All, lacks, String, false, none, some, [], ◌∷◌, Dict, lookup, ◌≡◌, refl,
}
use go_mod_edge_utils.Environment.Values.{
  Value, null, text, flag, int, list, w8, word, Fields, end, field, lookup_field, array, cons, nil,
}
use go_mod_edge_utils.Environment.Values as V
use go_mod_edge_utils.Environment.Paths.{build_paths, build_override_names, get_config_map_value}
use go_mod_edge_utils.Environment.Convert.{Number, syntax, converted, out_of_range, convert_to_type}
use go_mod_edge_utils.Environment.Overrides.{
  Overridden, no_err, override_failed, override_config_map_values,
}
use go_mod_edge_utils.Environment.Overrides.Total.{
  IsConvertible, IsOverridden, override_config_map_values-IsOverridden,
  override_config_map_values_succeeds,
}
use go_mod_edge_utils.Environment.Bounds.{IsOfType, convert_to_type-IsOfType}
use go_mod_edge_utils.Environment.Settings.{IsTree}
use go_mod_edge_utils.Environment.Overrides.Chosen.{IsNodup, chosen}
use go_mod_edge_utils.Environment.Overrides.Applied.{new_value}

-- No float occurs here.
abbrev no_float : ℕ → String → Number ℕ
no_float width s = syntax

abbrev same_text : String → String
same_text s = s

abbrev config : Fields ℕ
config =
    field "SERVICE" (V.map (field "PORT" (int w8 (pos 80)) end)) (field "DEBUG" (flag false) end)

abbrev variables : Dict String
variables = ("HOME", "/root") ∷ ("SERVICE_PORT", "90") ∷ []

abbrev after : Fields ℕ
after =
    field "SERVICE" (V.map (field "PORT" (int w8 (pos 90)) end)) (field "DEBUG" (flag false) end)

overridden :
    override_config_map_values no_float same_text variables config
    ≡ some (record { count = 1; err = no_err; config_map = after })
unfolding override_config_map_values
overridden = refl

too_large :
    override_config_map_values no_float same_text (("SERVICE_PORT", "128") ∷ []) config
    ≡ some (record {
      count = 0;
      err = override_failed "SERVICE_PORT" "128" (out_of_range "ParseInt");
      config_map = config;
    })
unfolding override_config_map_values
too_large = refl

-- A nil slice is null in the map.
null_setting :
    override_config_map_values no_float same_text (("HOSTS", "a,b") ∷ []) (field "HOSTS" null end)
    ≡ none
unfolding override_config_map_values
null_setting = refl

config-IsTree : IsTree config
unfolding IsTree lacks lookup_field
config-IsTree = (refl, refl, (refl, refl, tt, tt), (refl, refl, tt, tt))

variables-IsNodup : IsNodup variables
unfolding lookup
variables-IsNodup = (refl, (refl, tt))

config_paths : build_paths config ≡ some ("SERVICE/PORT" ∷ "DEBUG" ∷ [])
unfolding build_paths
config_paths = refl

override_config_map_values-IsOverridden_example :
    IsOverridden no_float same_text
      ("SERVICE/PORT" ∷ "DEBUG" ∷ [])
      variables
      config
      (record { count = 1; err = no_err; config_map = after })
override_config_map_values-IsOverridden_example =
    override_config_map_values-IsOverridden no_float same_text variables config
      ("SERVICE/PORT" ∷ "DEBUG" ∷ []) config-IsTree variables-IsNodup config_paths
      (record { count = 1; err = no_err; config_map = after }) overridden refl

All-IsConvertible :
    All
      (IsConvertible no_float same_text
        (build_override_names same_text ("SERVICE/PORT" ∷ "DEBUG" ∷ []))
        variables
        config)
      ("SERVICE/PORT" ∷ "DEBUG" ∷ [])
unfolding new_value get_config_map_value chosen build_override_names lookup convert_to_type
All-IsConvertible = ((int w8 (pos 90), refl), ((flag false, refl), tt))

override_config_map_values_succeeds_example :
    (r : Overridden ℕ) × (override_config_map_values no_float same_text variables config ≡ some r)
    × (r.err ≡ no_err)
override_config_map_values_succeeds_example =
    override_config_map_values_succeeds no_float same_text variables config
      ("SERVICE/PORT" ∷ "DEBUG" ∷ []) config-IsTree variables-IsNodup config_paths All-IsConvertible

to_int : convert_to_type no_float (int w8 (pos 80)) "-128" ≡ converted (int w8 (negsuc 127))
unfolding convert_to_type
to_int = refl

convert_to_type-IsOfType_example : IsOfType {F = ℕ} (int w8 (pos 80)) (int w8 (negsuc 127))
convert_to_type-IsOfType_example =
    convert_to_type-IsOfType no_float (int w8 (pos 80)) "-128" (int w8 (negsuc 127)) to_int
