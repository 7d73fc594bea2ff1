-- ===== src/Rest/Requests/Created.antt =====
-- What GetRequest and PutRequest of pkg/rest/utils.go promise.
use go_mod_edge_utils.Prelude.{
  ℕ, ◌≡◌, refl, ◌∙◌, ◌<◌, ◌⊎◌, inl, inr, String, Option, none, some, [], lookup, lookup-insert,
  Dict, insert, eq_self, string_eq, arith,
}
use go_mod_edge_utils.Rest.Requests.{
  Try, done, raised, HttpErr, Url, Request, Library, Context, Injector, Processed, correlated_id,
  process_created, create_request, create_request_with_raw_data, get_request, put_request, located,
  made, with_params, parse_base_url_and_request_path, failed_as, ◌>>=◌, ◌>>◌,
}
use go_mod_edge_utils.Rest.Requests.Outcomes.{IsHttp, IsOutcome, process_request-IsOutcome}

module _ {Params Data Value : Type 0} (lib : Library Params Data Value) (old : Value)
    (inject : Injector) (ctx : Context) (fresh : String) where
  open lib use {canonical, marshal, new_request, url_text}

  -- What a created request has, whatever the caller's headers would be.
  abbrev pub IsCreated : String → (Option String → Type 0) → Request → Type 0
  IsCreated method Body created =
      (created.method ≡ method)
      × Body created.body
      × (lookup (canonical "X-Correlation-ID") created.headers ≡ some (correlated_id ctx fresh))

  -- Nothing is created and nothing is sent, or the created request has one of the outcomes.
  abbrev pub IsRequested : String → (Option String → Type 0) → Processed Value → Type 0
  IsRequested method Body r =
      ((e : HttpErr) × (r.err ≡ some e) × (r.sent ≡ []) × (r.value ≡ old) × IsHttp e)
      ⊎ ((created : Request) × IsCreated method Body created × IsOutcome lib old inject created r)

  abbrev IsHttpOr : (Request → Type 0) → Try HttpErr Request → Type 0
  IsHttpOr P (done created) = P created
  IsHttpOr P (raised e) = IsHttp e

  created-IsRequested :
      (method : String) (Body : Option String → Type 0) (c : Try HttpErr Request)
      → IsHttpOr (IsCreated method Body) c
      → IsRequested method Body (process_created lib old inject c)
  created-IsRequested method Body (raised e) h = inl (e, refl, refl, refl, h)
  created-IsRequested method Body (done created) h =
      inr (created, h, process_request-IsOutcome lib old inject created)

  correlated :
      (headers : Dict String)
      → lookup
          (canonical "X-Correlation-ID")
          (insert (canonical "X-Correlation-ID") (correlated_id ctx fresh) headers)
        ≡ some (correlated_id ctx fresh)
  correlated headers =
      lookup-insert _ _ (correlated_id ctx fresh) headers
      ∙ rw (eq_self (canonical "X-Correlation-ID"))

  failed_as-IsHttpOr :
      {A : Type 0} (P : Request → Type 0) (status : ℕ) (frame : String) (t : Try String A)
      → (f : A → Try HttpErr Request) → 207 < status
      → ((a : A) → t ≡ done a → IsHttpOr P (f a))
      → IsHttpOr P (failed_as status frame t >>= f)
  failed_as-IsHttpOr P status frame (done a) f h good = good a refl
  failed_as-IsHttpOr P status frame (raised text) f h good = (status, _, refl, h)

  located-IsHttpOr :
      (P : Request → Type 0) (f : Url → Try HttpErr Request) (base_url path : String)
      → (params : Option Params) → ((u : Url) → IsHttpOr P (f u))
      → IsHttpOr P (located lib base_url path params >>= f)
  located-IsHttpOr P f base_url path params good =
      at (parse_base_url_and_request_path lib base_url path)
    where
      at :
          (t : Try String Url)
          → IsHttpOr P (
              (failed_as 500 "failed to parse baseUrl and requestPath: " t >>= λ u.
              done (with_params lib params u))
              >>= f)
      at (done u) = good (with_params lib params u)
      at (raised text) = (500, _, refl, omega arith)

  made-IsHttpOr :
      (P : Request → Type 0) (g : Request → Request) (method : String) (u : Url)
      → (body : Option String)
      → P (g (record { method = method; url = url_text u; body = body; headers = [] }))
      → IsHttpOr P (made lib method u body >>= λ req. done (g req))
  made-IsHttpOr P g method u body good = at (new_request method (url_text u) body)
    where
      at :
          (t : Try String (Unit {0}))
          → IsHttpOr P (
              (failed_as 500 "failed to create a http request: " t
                >> done (record { method = method; url = url_text u; body = body; headers = [] }))
              >>= λ req. done (g req))
      at (done _) = good
      at (raised text) = (500, _, refl, omega arith)

  -- The body of a PutRequest is the encoded input.
  abbrev pub IsEncoded : Data → Option String → Type 0
  IsEncoded input body = (text : String) × (marshal input ≡ done text) × (body ≡ some text)

  -- GetRequest makes a request with GET, no body and the correlation identifier, PutRequest one
  -- with PUT, the encoded input and that identifier, or else they give an error and send nothing.
  -- The request, after the injector, is sent at most once. There is no error only if it was sent
  -- and the answer has a status of at most 207, was read as a whole, and was decoded into the value
  -- or was empty. An error that is not the injector's has a status above 207.
  pub request-IsRequested :
      (base_url path : String) (params : Option Params) (input : Data)
      → IsRequested "GET"
          (λ body. body ≡ none)
          (get_request lib ctx fresh old base_url path params inject)
        × IsRequested "PUT"
            (IsEncoded input)
            (put_request lib ctx fresh old base_url path params input inject)
  unfolding get_request put_request create_request create_request_with_raw_data
  request-IsRequested base_url path params input = (
    created-IsRequested "GET" (λ body. body ≡ none) _
        (located-IsHttpOr _ _ base_url path params
          (λ u. made-IsHttpOr _ _ "GET" u none (refl, refl, correlated _))),
    created-IsRequested "PUT" (IsEncoded input) _ (
        located-IsHttpOr _ _ base_url path params (λ u.
          failed_as-IsHttpOr _ 400 _ (marshal input) _ (omega arith) (λ text encoded.
            made-IsHttpOr _ _ "PUT" u (some text) (refl, (text, encoded, refl), correlated _)))),
  )
