-- ===== src/Prts.antt =====
-- pkg/prts/bacnet.go: the names of BACnet's object types and properties.
mod Objects
mod Properties
pub mod Distinct
pub mod Ranges
pub mod Tests
use Prim.Native.Char.{Char, code}
use Prim.Native.String
use go_mod_edge_utils.Prelude.{
  ℕ, suc, ℤ, pos, negsuc, String, Option, none, some, List, [], ◌∷◌, decimal, if◌then◌else◌, ◌==◌,
  nat_eq, leb, to_lower, replace_char,
}
use go_mod_edge_utils.Errors.{GoError, nil, foreign}
use go_mod_edge_utils.Prts.Objects.{object_types}
use go_mod_edge_utils.Prts.Properties.{property_strings}

abbrev pub object_proprietary_min : ℕ
object_proprietary_min = 128

abbrev pub max_object_type : ℕ
max_object_type = 1024

abbrev pub object_type_none : ℕ
object_type_none = 65535

abbrev pub object_type_none_string : String
object_type_none_string = "None"

-- `name, ok := m[id]`
unfoldable pub name_of : ℕ → List (ℕ × String) → Option String
name_of id [] = none
name_of id ((i, name) ∷ rest) = if i == id then some name else name_of id rest

-- `fmt.Sprintf` with one number, and the text before and behind it.
unfoldable pub with_number : String → ℕ → String → String
unfolding decimal
with_number before n behind = String.◌++◌ before (String.◌++◌ (decimal n) behind)

-- The name of a type that the map may have, by the range it lies in.
abbrev pub named_or : ℕ → Option String → String
named_or n (some name) = name
named_or n none =
    if leb object_proprietary_min n
    then with_number "Proprietary Type (" n ")"
    else with_number "Reserved Type (" n ")"

-- `GetBACnetObjectTypeName`
unfoldable pub get_bacnet_object_type_name : ℤ → String × GoError
unfolding with_number name_of
get_bacnet_object_type_name (negsuc n) =
    ("", foreign (with_number "object type -" (suc n) " is invalid") nil)
get_bacnet_object_type_name (pos n) =
    if n == object_type_none
    then (object_type_none_string, nil)
    else if leb max_object_type n
    then ("", foreign (with_number "object type " n " exceeds max BACnet object limit") nil)
    else (named_or n (name_of n object_types), nil)

abbrev pub normalized : String × GoError → String × GoError
normalized (name, nil) = (to_lower (replace_char " " "_" name), nil)
normalized (name, e) = ("", e)

-- `GetBACnetObjectTypeString`
unfoldable pub get_bacnet_object_type_string : ℤ → String × GoError
unfolding get_bacnet_object_type_name to_lower replace_char
get_bacnet_object_type_string z = normalized (get_bacnet_object_type_name z)

abbrev pub string_or : ℕ → Option String → String
string_or n (some name) = name
string_or n none = with_number "" n ""

-- `GetBACnetPropertyString`
unfoldable pub get_bacnet_property_string : ℤ → String × GoError
unfolding with_number name_of
get_bacnet_property_string (negsuc n) =
    ("", foreign (with_number "property ID -" (suc n) " is invalid") nil)
get_bacnet_property_string (pos n) = (string_or n (name_of n property_strings), nil)
