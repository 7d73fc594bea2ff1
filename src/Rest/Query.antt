-- ===== src/Rest/Query.antt =====
-- pkg/rest/utils.go: offset, limit and labels out of the query of a request.
pub mod Ranges
pub mod Times
use Prim.Native.Char.{Char, code}
use Prim.Native.String
use go_mod_edge_utils.Prelude.{
  ℕ, suc, ℤ, pos, negsuc, int_lt, String, Bool, true, false, ◌||◌, Option, none, some, List, [],
  ◌∷◌, decimal, trim_space, if◌then◌else◌, ◌==◌, string_eq, nat_eq,
}
use go_mod_edge_utils.Errors.{GoError, nil, new_base_error}
use go_mod_edge_utils.Errors.Kinds.{kind_contract_invalid}

-- What `strconv.Atoi` gives: a number, or an error with its text.
pub data Parsed : Type 0 where
  number : ℤ → Parsed
  syntax_error : String → Parsed

-- `fmt.Sprintf("%v", n)`
unfoldable pub show_int : ℤ → String
unfolding decimal
show_int (pos n) = decimal n
show_int (negsuc n) = String.◌++◌ "-" (decimal (suc n))

unfoldable pub concat : List String → String
concat [] = ""
concat (s ∷ ss) = String.◌++◌ s (concat ss)

-- A value and an error, which is nil if there is none.
abbrev pub WithErr : Type 0 → Type 0
WithErr A = A × GoError

-- The errors; the frame is the caller's.
unfoldable pub contract_invalid : String → List String → GoError
unfolding concat new_base_error
contract_invalid frame message = new_base_error frame kind_contract_invalid (concat message) nil

abbrev cons_first : Char → List String → List String
cons_first c [] = String.◌∷◌ c "" ∷ []
cons_first c (s ∷ ss) = String.◌∷◌ c s ∷ ss

-- `strings.Split(s, ",")`
unfoldable pub split : String → List String
split String.[] = "" ∷ []
split (String.◌∷◌ c s) = let rest = split s in if code c == 44 then "" ∷ rest else cons_first c rest

abbrev pub crossed : ℤ → ℤ → List String
crossed min max =
    "specified min " ∷ show_int min ∷ " is bigger than specified max " ∷ show_int max ∷ []

abbrev pub outside : String → ℤ → ℤ → ℤ → List String
outside name value min max =
    "querystring "
    ∷ name
    ∷ "'s value "
    ∷ show_int value
    ∷ " is out of min "
    ∷ show_int min
    ∷ " ~ max "
    ∷ show_int max
    ∷ " range."
    ∷ []

-- `checkValueRange`
unfoldable pub check_value_range : String → String → ℤ → ℤ → ℤ → GoError
unfolding contract_invalid show_int
check_value_range frame name value min max =
    if int_lt max min
    then contract_invalid frame (crossed min max)
    else if int_lt value min || int_lt max value
    then contract_invalid frame (outside name value min max)
    else nil

abbrev pub unparsed : String → String → String → List String
unparsed key value text =
    "failed to parse querystring " ∷ key ∷ "'s value " ∷ value ∷ " into integer. Error:" ∷ text ∷ []

-- The query of the request by key, with the empty text for a key that it does not have.
module _ (frame : String) (atoi : String → Parsed) (query : String → String) where
  abbrev pub of_parsed : String → Parsed → WithErr ℤ
  of_parsed key (number n) = (n, nil)
  of_parsed key (syntax_error text) =
      (pos 0, contract_invalid frame (unparsed key (query key) text))

  -- `parseQueryStringToInt`
  unfoldable pub parse_query_string_to_int : String → ℤ → WithErr ℤ
  unfolding contract_invalid trim_space
  parse_query_string_to_int key default =
      if query key == "" then (default, nil) else of_parsed key (atoi (trim_space (query key)))

  -- `parseQueryStringToStrings`, with the comma
  unfoldable pub parse_query_string_to_strings : String → List String
  unfolding split trim_space
  parse_query_string_to_strings key = if query key == "" then [] else split (trim_space (query key))

  -- A check that is made only for a positive maximum.
  abbrev pub checked : Bool → GoError → GoError
  checked true e = e
  checked false e = nil

  -- What `ParseGetAllObjectsRequestQueryString` gives.
  pub record AllObjects : Type 0 where
    pub offset : ℤ
    pub limit : ℤ
    pub labels : List String
    pub err : GoError

  -- From the check of the limit on, with the error of the check.
  abbrev pub with_labels : ℤ → ℤ → GoError → AllObjects
  with_labels offset limit nil = record {
    offset = offset;
    limit = limit;
    labels = parse_query_string_to_strings "labels";
    err = nil;
  }
  with_labels offset limit e = record { offset = offset; limit = limit; labels = []; err = e }

  abbrev pub with_limit : ℤ → ℤ → WithErr ℤ → AllObjects
  with_limit max_result_count offset (limit, nil) = with_labels offset limit (
      checked (int_lt (pos 0) max_result_count)
        (check_value_range frame "limit" limit (negsuc 0) max_result_count))
  with_limit max_result_count offset (limit, e) = record {
    offset = offset;
    limit = limit;
    labels = [];
    err = e;
  }

  abbrev pub with_offset : ℤ → ℤ → GoError → AllObjects
  with_offset max_result_count offset nil =
      with_limit max_result_count offset (parse_query_string_to_int "limit" (pos 20))
  with_offset max_result_count offset e = record {
    offset = offset;
    limit = pos 0;
    labels = [];
    err = e;
  }

  abbrev pub from_offset : ℤ → ℤ → WithErr ℤ → AllObjects
  from_offset max_offset max_result_count (offset, nil) = with_offset max_result_count offset (
      checked (int_lt (pos 0) max_offset)
        (check_value_range frame "offset" offset (pos 0) max_offset))
  from_offset max_offset max_result_count (offset, e) = record {
    offset = offset;
    limit = pos 0;
    labels = [];
    err = e;
  }

  -- `ParseGetAllObjectsRequestQueryString`
  unfoldable pub parse_get_all_objects : ℤ → ℤ → AllObjects
  unfolding parse_query_string_to_int parse_query_string_to_strings check_value_range
  parse_get_all_objects max_offset max_result_count =
      from_offset max_offset max_result_count (parse_query_string_to_int "offset" (pos 0))
