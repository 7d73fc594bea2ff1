-- ===== src/Rest/Responses/Committed.antt =====
-- What WriteErrorResponse of pkg/rest/utils.go promises about the response.
use mathlib.Core.List
use go_mod_edge_utils.Prelude.{
  ℕ, ◌≡◌, refl, ap, ◌∙◌, ◌⊎◌, inl, inr, String, true, false, Option, none, some, List, insert,
  lookup, lookup-insert, string_eq,
}
use go_mod_edge_utils.Errors.{GoError, BaseError, as_base, kind}
use go_mod_edge_utils.Errors.Http.{code_mapping}
use go_mod_edge_utils.Sse.Polling.{BaseResponse}
use go_mod_edge_utils.Rest.Requests.{http_error, Context, from_context}
use go_mod_edge_utils.Rest.Errors.{write_error_response, write_error_response_lem}
use go_mod_edge_utils.Rest.Responses.{
  Writer, LogLine, Responded, set, log_error, encoded, write_default_http_header,
  respond_with_error,
}

-- The header is that of an error, and the response is committed if and only if it was encoded.
abbrev pub IsErrorResponse : Context → GoError → Responded → Type 0
IsErrorResponse ctx err r =
    (r.writer.status ≡ code_mapping (kind err))
    × (lookup "Content-Type" r.writer.headers ≡ some "application/json")
    × (lookup "X-Correlation-ID" r.writer.headers ≡ some (from_context ctx "X-Correlation-ID"))
    × (((r.err ≡ none) × (r.writer.committed ≡ true))
        ⊎ ((t : String) × (r.err ≡ some (http_error 500 t)) × (r.writer.committed ≡ false)))

module _ (write_header : ℕ → Writer → Writer)
    (encode : String → BaseResponse → Writer → Writer × Option String) where
  -- `WriteHeader` of a response that is not committed sets the status and commits it.
  abbrev pub Commits : Type 0
  Commits =
      (status : ℕ) (w : Writer)
      → w.committed ≡ false
      → write_header status w ≡ record w { status = status; committed = true }

  -- An encoder that writes to a committed response changes its body only.
  abbrev pub Keeps : Type 0
  Keeps =
      (content_type : String) (i : BaseResponse) (w : Writer)
      → w.committed ≡ true
      → ((encode content_type i w).0.headers ≡ w.headers)
        × ((encode content_type i w).0.status ≡ w.status)
        × ((encode content_type i w).0.committed ≡ true)

  module _ (ctx : Context) (err : GoError) (w : Writer) where
    -- The response when the encoding begins.
    abbrev headed : Writer
    headed = set "Content-Type" "application/json" (record {
      headers =
          insert "Content-Type" "application/json"
            (insert "X-Correlation-ID" (from_context ctx "X-Correlation-ID") w.headers);
      status = code_mapping (kind err);
      committed = true;
      body = w.body;
    })

    headed-content_type : lookup "Content-Type" headed.headers ≡ some "application/json"
    headed-content_type = lookup-insert "Content-Type" "Content-Type" "application/json" _

    headed-correlation :
        lookup "X-Correlation-ID" headed.headers ≡ some (from_context ctx "X-Correlation-ID")
    headed-correlation =
        lookup-insert "Content-Type" "X-Correlation-ID" "application/json" _
        ∙ lookup-insert "Content-Type" "X-Correlation-ID" "application/json" _
        ∙ lookup-insert "X-Correlation-ID" "X-Correlation-ID" (from_context ctx "X-Correlation-ID")
            w.headers

    encoded-IsErrorResponse :
        (p : Writer × Option String) (lines : List LogLine)
        → p.0.headers ≡ headed.headers
        → p.0.status ≡ headed.status
        → p.0.committed ≡ true
        → IsErrorResponse ctx err (record (encoded write_header encode p) {
          logged = List.◌++◌ lines (encoded write_header encode p).logged;
        })
    encoded-IsErrorResponse (v, none) lines h st c = (
      st,
      ap (lookup "Content-Type") h ∙ headed-content_type,
      ap (lookup "X-Correlation-ID") h ∙ headed-correlation,
      inl (refl, c),
    )
    encoded-IsErrorResponse (v, some t) lines h st c = (
      st,
      ap (lookup "Content-Type") h ∙ headed-content_type,
      ap (lookup "X-Correlation-ID") h ∙ headed-correlation,
      inr (t, refl, refl),
    )

  -- If `WriteHeader` commits the response with its status, and the encoders change the body only, the
  -- response that WriteErrorResponse makes of an error with a BaseError in its chain has the status
  -- of the kind of the error, the content type of JSON and the correlation identifier of the
  -- context. It stays committed exactly if the body was encoded; else the error has the status 500.
  pub respond_with_error-IsErrorResponse :
      Commits
      → Keeps
      → (frame version id : String) (ctx : Context) (err : GoError) (f : BaseError) (v : GoError)
      → (w : Writer) → as_base err ≡ some (f, v)
      → w.committed ≡ false
      → IsErrorResponse ctx err (respond_with_error write_header encode frame ctx err version id w)
  unfolding respond_with_error
  respond_with_error-IsErrorResponse commits keeps frame version id ctx err f v w is_base new =
      let response : BaseResponse = write_error_response frame version id err in
      let status : response.status_code ≡ code_mapping (kind err) =
        (write_error_response_lem frame version id err f v is_base).0 in
      let begun : set "Content-Type" "application/json"
            (write_default_http_header write_header encode ctx response.status_code w)
          ≡ headed ctx err w =
        ap (set "Content-Type" "application/json")
          (commits response.status_code _ new ∙ rw status) in
      let p : Writer × Option String = encode "application/json" response (headed ctx err w) in
      let kept = keeps "application/json" response (headed ctx err w) refl in
      rw begun (encoded-IsErrorResponse ctx err w p (log_error err) kept.0 kept.1 kept.2)
