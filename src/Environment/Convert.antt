-- ===== src/Environment/Convert.antt =====
-- pkg/bootstrap/environment/variables.go: a text is converted to the type of the old value. The
-- errors are those of strconv, without their texts, and that of an unsupported type.
use Prim.Native.Char.{code}
use go_mod_edge_utils.Prelude.{
  ℕ, zero, suc, ◌+◌, ◌-◌, ◌*◌, ◌^◌, ℤ, pos, negsuc, String, Bool, true, false, ◌&&◌, ◌||◌, List, [],
  ◌∷◌, split_on, trim_space, if◌then◌else◌, ◌==◌, string_eq, nat_eq, leb, ltb,
}
use go_mod_edge_utils.Environment.Values.{
  Value, Items, nil, cons, bits, null, text, flag, int, uint, float, list, array, map, other_map,
  other,
}

-- What a function of strconv gives.
pub data Number {ℓ} (A : Type ℓ) : Type ℓ where
  value : A → Number A
  syntax : Number A
  range : Number A

-- The loop of `strconv.ParseUint` in base ten over what follows the number `n`.
unfoldable pub scan_digits : ℕ → ℕ → String → Number ℕ
scan_digits max n String.[] = value n
scan_digits max n (String.◌∷◌ c s) =
    let next = n * 10 + (code c - 48) in
    let rest = scan_digits max next s in
    if leb 48 (code c) && leb (code c) 57 then if ltb max next then range else rest else syntax

-- `strconv.ParseUint(s, 10, bits)`
unfoldable pub parse_uint : ℕ → String → Number ℕ
unfolding scan_digits
parse_uint width s = if s == "" then syntax else scan_digits (2 ^ width - 1) 0 s

abbrev pub negative : ℕ → ℤ
negative zero = pos 0
negative (suc n) = negsuc n

abbrev pub positive_within : ℕ → Number ℕ → Number ℤ
positive_within cutoff (value n) = if leb cutoff n then range else value (pos n)
positive_within cutoff syntax = syntax
positive_within cutoff range = range

abbrev pub negative_within : ℕ → Number ℕ → Number ℤ
negative_within cutoff (value n) = if ltb cutoff n then range else value (negative n)
negative_within cutoff syntax = syntax
negative_within cutoff range = range

-- `strconv.ParseInt(s, 10, bits)`
unfoldable pub parse_int : ℕ → String → Number ℤ
unfolding parse_uint
parse_int width String.[] = syntax
parse_int width (String.◌∷◌ c s) =
    let cutoff = 2 ^ (width - 1) in
    if code c == 43
    then positive_within cutoff (parse_uint width s)
    else if code c == 45
    then negative_within cutoff (parse_uint width s)
    else positive_within cutoff (parse_uint width (String.◌∷◌ c s))

-- `strconv.ParseBool`
unfoldable pub parse_bool : String → Number Bool
parse_bool s =
    if s == "1" || s == "t" || s == "T" || s == "true" || s == "TRUE" || s == "True"
    then value true
    else if s == "0" || s == "f" || s == "F" || s == "false" || s == "FALSE" || s == "False"
    then value false
    else syntax

-- The errors, with the name of the function of strconv or that of the type.
pub data ConvertErr : Type 0 where
  invalid_syntax : String → ConvertErr
  out_of_range : String → ConvertErr
  unsupported : String → ConvertErr

pub data Converted (F : Type 0) : Type 0 where
  converted : Value F → Converted F
  failed : ConvertErr → Converted F
  panicked : Converted F

abbrev pub of_number {ℓ} :
    {F : Type 0} {A : Type ℓ} → String → (A → Value F) → Number A → Converted F
of_number name make (value a) = converted (make a)
of_number name make syntax = failed (invalid_syntax name)
of_number name make range = failed (out_of_range name)

abbrev pub texts : {F : Type 0} → List String → Items F
texts [] = nil
texts (s ∷ ss) = cons (text (trim_space s)) (texts ss)

-- `parseCommaSeparatedSlice`
unfoldable pub parse_comma_separated_slice : {F : Type 0} → String → Items F
unfolding split_on trim_space
parse_comma_separated_slice s = texts (split_on "," (trim_space s))

module _ {F : Type 0} (parse_float : ℕ → String → Number F) where
  -- `convertToType`; the type of a nil value is asked for its name, which panics.
  unfoldable pub convert_to_type : Value F → String → Converted F
  unfolding parse_comma_separated_slice parse_int parse_uint parse_bool
  convert_to_type (list old) s = converted (array (parse_comma_separated_slice s))
  convert_to_type (array old) s = converted (array (parse_comma_separated_slice s))
  convert_to_type (text old) s = converted (text s)
  convert_to_type (flag old) s = of_number "ParseBool" flag (parse_bool s)
  convert_to_type (int width old) s = of_number "ParseInt" (int width) (parse_int (bits width) s)
  convert_to_type (uint width old) s =
      of_number "ParseUint" (uint width) (parse_uint (bits width) s)
  convert_to_type (float width old) s = of_number "ParseFloat" (float width) (parse_float width s)
  convert_to_type null s = panicked
  convert_to_type (map old) s = failed (unsupported "map[string]interface {}")
  convert_to_type (other_map name) s = failed (unsupported name)
  convert_to_type (other name) s = failed (unsupported name)
