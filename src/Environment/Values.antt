-- ===== src/Environment/Values.antt =====
-- pkg/bootstrap/environment/variables.go: the values of a configuration map. A float is a parameter.
use go_mod_edge_utils.Prelude.{
  ℕ, ℤ, String, Bool, true, false, Option, none, some, List, if◌then◌else◌, ◌==◌, string_eq,
}

-- The width of a Go integer; `int` and `uint` have a type of their own, of 64 bits.
pub data Width : Type 0 where
  word w8 w16 w32 w64 : Width

abbrev pub bits : Width → ℕ
bits word = 64
bits w8 = 8
bits w16 = 16
bits w32 = 32
bits w64 = 64

mutual
  -- What an `any` of the configuration is. A `list` is a `[]string`, an `array` is an `[]any`, a
  -- `map` is a `map[string]any` that is not nil, `other_map` and `other` are of the other types,
  -- given by their names.
  pub data Value (F : Type 0) : Type 0 where
    null : Value F
    text : String → Value F
    flag : Bool → Value F
    int : Width → ℤ → Value F
    uint : Width → ℕ → Value F
    float : ℕ → F → Value F
    list : List String → Value F
    array : Items F → Value F
    map : Fields F → Value F
    other_map : String → Value F
    other : String → Value F

  pub data Items (F : Type 0) : Type 0 where
    nil : Items F
    cons : Value F → Items F → Items F

  pub data Fields (F : Type 0) : Type 0 where
    end : Fields F
    field : String → Value F → Fields F → Fields F

module _ {F : Type 0} where
  -- `item, exists := m[key]`
  unfoldable pub lookup_field : String → Fields F → Option (Value F)
  lookup_field key end = none
  lookup_field key (field name v m) = if name == key then some v else lookup_field key m

  -- `m[key] = value`
  unfoldable pub insert_field : String → Value F → Fields F → Fields F
  insert_field key v end = field key v end
  insert_field key v (field name old m) =
      if name == key then field key v m else field name old (insert_field key v m)

  -- `reflect.TypeOf(item).Kind() == reflect.Map`
  abbrev pub is_map : Value F → Bool
  is_map (map m) = true
  is_map (other_map name) = true
  is_map _ = false
