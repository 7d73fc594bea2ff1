-- ===== src/Rest/Errors.antt =====
-- pkg/rest/utils.go: the status and the body of an error response.
use go_mod_edge_utils.Prelude.{
  ℕ, ◌≡◌, refl, sym, ap, ◌∙◌, String, Option, none, some, ◌<◌, ◌≤◌, arith,
}
use go_mod_edge_utils.Errors.{
  GoError, nil, foreign, base, http, BaseError, as_base, code, error, kind,
}
use go_mod_edge_utils.Errors.Http.{new_http_error, code_mapping, code_mapping_bounds}
use go_mod_edge_utils.Sse.Polling.{BaseResponse, new_base_response, or_default}

abbrev status_of : String → GoError → Option (BaseError × GoError) → ℕ
status_of frame err none = or_default (code err) 0
status_of frame err (some (f, w)) = or_default (code (new_http_error frame (base f w))) 0

-- `WriteErrorResponse`: the status that is written and the body. Its argument is an error of
-- pkg/errors, which always has a code.
unfoldable pub write_error_response : String → String → String → GoError → BaseResponse
unfolding new_base_response new_http_error code as_base error
write_error_response frame version id err =
    new_base_response version id (error err) (status_of frame err (as_base err))

kind-first_base :
    (err : GoError) (f : BaseError) (w : GoError)
    → as_base err ≡ some (f, w)
    → kind err ≡ kind (base f w)
unfolding kind as_base
kind-first_base nil f w h = absurd (ground arith)
kind-first_base (foreign text v) f w h = kind-first_base v f w h
kind-first_base (base g v) f w h = ap (λ p. kind (base p.0 p.1)) (some_eq h)
  where
    some_eq : {x y : BaseError × GoError} → some x ≡ some y → x ≡ y
    some_eq e = cc
kind-first_base (http g v c) f w h = kind-first_base v f w h

-- The status of an error response for an error with a BaseError in its chain is that of its kind, so
-- it is from 400 to 599, and the body has the same status and the text of the error.
pub write_error_response_lem :
    (frame version id : String) (err : GoError) (f : BaseError) (w : GoError)
    → as_base err ≡ some (f, w)
    → ((write_error_response frame version id err).status_code ≡ code_mapping (kind err))
      × (400 ≤ (write_error_response frame version id err).status_code)
      × ((write_error_response frame version id err).status_code < 600)
      × ((write_error_response frame version id err).message ≡ error err)
unfolding write_error_response
write_error_response_lem frame version id err f w h =
    let same : (write_error_response frame version id err).status_code ≡ code_mapping (kind err) =
      ap (status_of frame err) h ∙ ap code_mapping (sym (kind-first_base err f w h)) in
    (
      same,
      rw same (code_mapping_bounds (kind err)).0,
      rw same (code_mapping_bounds (kind err)).1,
      refl,
    )
