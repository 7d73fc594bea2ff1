-- ===== src/Rest/Responses.antt =====
-- pkg/rest/utils.go: what is written to the response of a request, and what is logged.
pub mod Committed
use Prim.Native.String.{◌++◌}
use mathlib.Core.List
use go_mod_edge_utils.Prelude.{
  ℕ, ◌≡◌, refl, sym, ap, ◌∙◌, ◌≢◌, ◌⊎◌, inl, inr, String, Bool, true, false, ◌||◌, Option, none,
  some, List, [], ◌∷◌, Dict, insert, lookup, lookup-insert, if◌then◌else◌, ◌==◌, string_eq, arith,
}
use go_mod_edge_utils.Errors.{
  GoError, nil, foreign, base, http, BaseError, as_base, error, message, debug_messages, kind,
}
use go_mod_edge_utils.Errors.Kinds.{kind_service_unavailable, kind_entity_does_not_exist}
use go_mod_edge_utils.Errors.Http.{code_mapping}
use go_mod_edge_utils.Sse.Polling.{BaseResponse, new_base_response}
use go_mod_edge_utils.Rest.Requests.{HttpErr, http_error, Context, from_context}
use go_mod_edge_utils.Rest.Errors.{write_error_response, write_error_response_lem}

-- `echo.Response`, with what was written to it.
pub record Writer : Type 0 where
  pub headers : Dict String
  pub status : ℕ
  pub committed : Bool
  pub body : String

pub data LogLine : Type 0 where
  warned : String → LogLine
  erred : String → LogLine
  debugged : String → LogLine

pub record Responded : Type 0 where
  pub writer : Writer
  pub err : Option HttpErr
  pub logged : List LogLine

-- `NewBaseWithIdResponse`
pub record BaseWithIdResponse : Type 0 where
  pub response : BaseResponse
  pub id : String

unfoldable pub new_base_with_id_response :
    String → String → String → ℕ → String → BaseWithIdResponse
unfolding new_base_response
new_base_with_id_response version request_id message status id = record {
  response = new_base_response version request_id message status;
  id = id;
}

-- `NewBaseWithTotalCountResponse`
pub record BaseWithTotalCountResponse : Type 0 where
  pub response : BaseResponse
  pub total_count : ℕ

unfoldable pub new_base_with_total_count_response :
    String → String → String → ℕ → ℕ → BaseWithTotalCountResponse
unfolding new_base_response
new_base_with_total_count_response version request_id message status total_count = record {
  response = new_base_response version request_id message status;
  total_count = total_count;
}

-- `Kind()` of the error itself, which only the types of pkg/errors have.
abbrev pub own_kind : GoError → String
own_kind (base f w) = f.kind
own_kind (http f w code) = f.kind
own_kind _ = ""

-- The lines that `WriteErrorResponse` logs, without the correlation identifier that goes with them.
unfoldable pub log_error : GoError → List LogLine
log_error err =
    List.◌++◌
      (if own_kind err == kind_service_unavailable
        then warned (message err) ∷ []
        else if own_kind err == kind_entity_does_not_exist
        then []
        else erred (error err) ∷ [])
      (debugged (debug_messages err) ∷ [])

abbrev pub set : String → String → Writer → Writer
set key v w = record w { headers = insert key v w.headers }

-- `WriteHeader` of echo, and the encoders of JSON and YAML by content type, with their error.
module _ {T : Type 0} (write_header : ℕ → Writer → Writer)
    (encode : String → T → Writer → Writer × Option String) where
  -- `WriteHttpContentTypeHeader`
  unfoldable pub write_http_content_type_header : Context → ℕ → String → Writer → Writer
  write_http_content_type_header ctx status content_type w = write_header status (
      set "Content-Type" content_type
        (set "X-Correlation-ID" (from_context ctx "X-Correlation-ID") w))

  -- `WriteDefaultHttpHeader`
  unfoldable pub write_default_http_header : Context → ℕ → Writer → Writer
  unfolding write_http_content_type_header
  write_default_http_header ctx status w =
      write_http_content_type_header ctx status "application/json" w

  abbrev pub encoded : Writer × Option String → Responded
  encoded (w, none) = record { writer = w; err = none; logged = [] }
  encoded (w, some t) = record {
    writer = record w { committed = false };
    err = some (http_error 500 t);
    logged = erred ("Error encoding the data: " ++ t) ∷ [];
  }

  -- `encodeAndWriteResponse`
  unfoldable pub encode_and_write_response : String → T → Writer → Responded
  encode_and_write_response content_type i w =
      let w' : Writer = set "Content-Type" content_type w in
      if content_type == "application/json" || content_type == "application/yaml"
      then encoded (encode content_type i w')
      else record {
        writer = w';
        err = some (http_error 500 ("unsupported content type for response: " ++ content_type));
        logged = [];
      }

-- `WriteErrorResponse` as a whole
unfoldable pub respond_with_error :
    (ℕ → Writer → Writer)
    → (String → BaseResponse → Writer → Writer × Option String)
    → String
    → Context
    → GoError
    → String
    → String
    → Writer
    → Responded
unfolding write_default_http_header encode_and_write_response log_error write_error_response
respond_with_error write_header encode frame ctx err version id w =
    let response : BaseResponse = write_error_response frame version id err in
    let r : Responded =
      encode_and_write_response write_header encode "application/json" response
        (write_default_http_header write_header encode ctx response.status_code w) in
    record r { logged = List.◌++◌ (log_error err) r.logged }
