-- ===== src/Errors/Http.antt =====
-- pkg/errors/http.go: errors with an HTTP status, and the two mappings.
use go_mod_edge_utils.Prelude.{
  ℕ, ◌≤◌, ◌<◌, ◌≡◌, String, nat_eq, string_eq, List, [], ◌∷◌, if◌then◌else◌, arith, switch,
  has_case, switch-All, switch_undone, none, All,
}
use go_mod_edge_utils.Errors.{ErrKind, kind_unknown, GoError, http, kind}
use go_mod_edge_utils.Errors.Kinds.{
  kind_communication_error, kind_contract_invalid, kind_database_error, kind_duplicate_name,
  kind_entity_does_not_exist, kind_forbidden, kind_invalid_id, kind_io_error, kind_limit_exceeded,
  kind_nan_error, kind_not_allowed, kind_not_implemented, kind_overflow_error,
  kind_range_not_satisfiable, kind_server_error, kind_service_locked, kind_service_unavailable,
  kind_status_conflict, kind_unauthorized,
}

abbrev pub code_cases : List (ErrKind × ℕ)
code_cases =
    (kind_unknown, 500)
    ∷ (kind_database_error, 500)
    ∷ (kind_server_error, 500)
    ∷ (kind_overflow_error, 500)
    ∷ (kind_nan_error, 500)
    ∷ (kind_communication_error, 502)
    ∷ (kind_entity_does_not_exist, 404)
    ∷ (kind_contract_invalid, 400)
    ∷ (kind_invalid_id, 400)
    ∷ (kind_status_conflict, 409)
    ∷ (kind_duplicate_name, 409)
    ∷ (kind_limit_exceeded, 413)
    ∷ (kind_service_unavailable, 503)
    ∷ (kind_service_locked, 423)
    ∷ (kind_not_implemented, 501)
    ∷ (kind_not_allowed, 405)
    ∷ (kind_range_not_satisfiable, 416)
    ∷ (kind_io_error, 403)
    ∷ (kind_forbidden, 403)
    ∷ (kind_unauthorized, 401)
    ∷ []

-- `codeMapping`.
unfoldable pub code_mapping : ErrKind → ℕ
unfolding switch
code_mapping = switch code_cases 500

abbrev pub kind_cases : List (ℕ × ErrKind)
kind_cases =
    (500, kind_server_error)
    ∷ (502, kind_communication_error)
    ∷ (404, kind_entity_does_not_exist)
    ∷ (400, kind_contract_invalid)
    ∷ (409, kind_status_conflict)
    ∷ (413, kind_limit_exceeded)
    ∷ (503, kind_service_unavailable)
    ∷ (423, kind_service_locked)
    ∷ (501, kind_not_implemented)
    ∷ (405, kind_not_allowed)
    ∷ (416, kind_range_not_satisfiable)
    ∷ (401, kind_unauthorized)
    ∷ (403, kind_forbidden)
    ∷ []

-- `KindMapping`.
unfoldable pub kind_mapping : ℕ → ErrKind
unfolding switch
kind_mapping = switch kind_cases kind_unknown

-- `NewHTTPError`; the caller's frame is an argument.
unfoldable pub new_http_error : String → GoError → GoError
new_http_error frame err =
    let k = kind err in
    http (record { kind = k; message = ""; caller_info = frame; details = none }) err
      (code_mapping k)

-- A status goes to a kind that maps back to it, if `KindMapping` lists it, and else to a kind that
-- maps to 500.
pub code_mapping-kind_mapping :
    (c : ℕ) → code_mapping (kind_mapping c) ≡ (if has_case kind_cases c then c else 500)
unfolding code_mapping kind_mapping
code_mapping-kind_mapping c = switch_undone code_mapping kind_cases kind_unknown c undone
  where
    undone : All (λ r. code_mapping r.1 ≡ r.0) kind_cases
    undone = omega arith

-- Every kind, whatever its text, has a status from 400 to 599.
pub code_mapping_bounds : (k : ErrKind) → (400 ≤ code_mapping k) × (code_mapping k < 600)
unfolding code_mapping
code_mapping_bounds k =
    switch-All (λ c. (400 ≤ c) × (c < 600)) code_cases 500 k (omega arith) (omega arith)
