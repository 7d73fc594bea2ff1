-- ===== src/Prts/Tests.antt =====
-- Names of BACnet at concrete numbers.
use go_mod_edge_utils.Prelude.{ℕ, pos, negsuc, true, not, ◌==◌, string_eq, ◌≡◌, refl}
use go_mod_edge_utils.Errors.{is_nil, nil, foreign}
use go_mod_edge_utils.Prts.{get_bacnet_object_type_string, get_bacnet_property_string}
use go_mod_edge_utils.Prts.Ranges.{is_object_type, is_normal, get_bacnet_object_type_string_lem}
use go_mod_edge_utils.Prts.Distinct.{get_bacnet_property_string_distinct}

present_value : get_bacnet_property_string (pos 85) ≡ ("present_value", nil)
unfolding get_bacnet_property_string
present_value = refl

vendor_property : get_bacnet_property_string (pos 5000) ≡ ("5000", nil)
unfolding get_bacnet_property_string
vendor_property = refl

vendor_type : get_bacnet_object_type_string (pos 128) ≡ ("proprietary_type_(128)", nil)
unfolding get_bacnet_object_type_string
vendor_type = refl

reserved_type : get_bacnet_object_type_string (pos 127) ≡ ("reserved_type_(127)", nil)
unfolding get_bacnet_object_type_string
reserved_type = refl

negative_type :
    get_bacnet_object_type_string (negsuc 0) ≡ ("", foreign "object type -1 is invalid" nil)
unfolding get_bacnet_object_type_string
negative_type = refl

get_bacnet_property_string_distinct_example : ◌≡◌ {A = ℕ} 85 85
get_bacnet_property_string_distinct_example = get_bacnet_property_string_distinct 85 85 refl

get_bacnet_object_type_string_lem_example :
    (is_nil (get_bacnet_object_type_string (pos 19)).1 ≡ is_object_type (pos 19))
    × (is_normal (get_bacnet_object_type_string (pos 19)).0 ≡ true)
    × (((get_bacnet_object_type_string (pos 19)).0 == "") ≡ not (is_object_type (pos 19)))
get_bacnet_object_type_string_lem_example = get_bacnet_object_type_string_lem (pos 19)
