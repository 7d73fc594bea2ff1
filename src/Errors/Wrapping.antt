-- ===== src/Errors/Wrapping.antt =====
-- What the wrappers of pkg/errors keep of the error that they wrap.
use Prim.Native.String.{◌++◌}
use go_mod_edge_utils.Prelude.{
  ℕ, ◌≡◌, refl, ◌≢◌, String, Option, none, some, decimal, if◌then◌else◌, arith, eq_iff, string_eq,
}
use go_mod_edge_utils.Errors.{
  BaseError, kind_unknown, GoError, nil, foreign, base, http, is_nil, is_base, base_text,
  base_message, error, message, code, as_error, kind, details, base_error_wrapper, to_base_error,
}
use go_mod_edge_utils.Errors.Http.{new_http_error, code_mapping}

-- A wrapper with no message of its own, around `e`, with the kind and the map found in `e`.
pub record Keeps (e w : GoError) : Type 0 where
  pub same_kind : kind w ≡ kind e
  pub same_details : details w ≡ details e
  pub same_text : error w ≡ error e

abbrev bare : String → GoError → Option ℕ → BaseError
bare frame e detail = record { kind = kind e; message = ""; caller_info = frame; details = detail }

kind-wrapper : (f : BaseError) (e : GoError) → f.kind ≡ kind e → kind (base f e) ≡ kind e
unfolding kind
kind-wrapper f nil h = ground arith
kind-wrapper f e h = ground (arith, eq_iff f.kind kind_unknown)

text-wrapper : (f : BaseError) (e : GoError) → f.message ≡ "" → base_text f e (error e) ≡ error e
unfolding base_text error
text-wrapper f nil h = h
text-wrapper f e h = ground (arith, eq_iff f.message "")

-- `BaseErrorWrapper` keeps the kind, the details (the same map) and the text of any error.
pub base_error_wrapper-Keeps : (frame : String) (e : GoError) → Keeps e (base_error_wrapper frame e)
unfolding base_error_wrapper details error
base_error_wrapper-Keeps frame e = record {
  same_kind = kind-wrapper (bare frame e (details e)) e refl;
  same_details = refl;
  same_text = text-wrapper (bare frame e (details e)) e refl;
}

details-as_error :
    (e : GoError) → (if is_nil (as_error e) then none else details (as_error e)) ≡ details e
unfolding details as_error
details-as_error nil = refl
details-as_error (foreign text w) = details-as_error w
details-as_error (base f w) = refl
details-as_error (http f w c) = refl

-- `ToBaseError` keeps the kind, the details (the same map) and the text of any error.
pub to_base_error-Keeps : (frame : String) (e : GoError) → Keeps e (to_base_error frame e)
unfolding to_base_error error details
to_base_error-Keeps frame e =
    let found : Option ℕ = (if is_nil (as_error e) then none else details (as_error e)) in
    record {
      same_kind = kind-wrapper (bare frame e found) e refl;
      same_details = details-as_error e;
      same_text = text-wrapper (bare frame e found) e refl;
    }

-- `NewHTTPError` of an error that is not nil keeps its kind, its details and its text. Its status is
-- that of the kind, and its message is the message of the wrapped error, if this is a `BaseError`,
-- and else the text of it, with the status behind.
pub new_http_error-Keeps :
    (frame : String) (e : GoError)
    → e ≢ nil
    → Keeps e (new_http_error frame e)
      × (code (new_http_error frame e) ≡ some (code_mapping (kind e)))
      × (message (new_http_error frame e)
          ≡ (if is_base e then message e else error e)
            ++ "(status code:"
            ++ decimal (code_mapping (kind e))
            ++ ")")
unfolding new_http_error error details kind code message base_message
new_http_error-Keeps frame e h = (
  record {
    same_kind = refl;
    same_details = refl;
    same_text = text-wrapper (bare frame e none) e refl;
  },
  refl,
  text e h,
)
  where
    text :
        (e : GoError)
        → e ≢ nil
        → message (new_http_error frame e)
          ≡ (if is_base e then message e else error e)
            ++ "(status code:"
            ++ decimal (code_mapping (kind e))
            ++ ")"
    text nil h = absurd (h refl)
    text e h = refl
