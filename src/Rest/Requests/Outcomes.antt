-- ===== src/Rest/Requests/Outcomes.antt =====
-- pkg/rest/utils.go: each way in which processRequest ends.
use go_mod_edge_utils.Prelude.{
  ℕ, ◌≡◌, refl, ◌<◌, ◌≤◌, ◌⊎◌, inl, inr, String, Option, none, some, List, [], ◌∷◌, leb, ◌==◌,
  string_eq, eq_iff, Bool-cases, arith,
}
use go_mod_edge_utils.Rest.Requests.{
  Try, done, raised, HttpErr, http_error, Request, Response, Library, Injector, Processed, exchange,
  injected, received, of_body, of_response, read_body, unmarshalled, process_request, failed_as,
}

-- An error with a status above 207, so one that is not a success.
abbrev pub IsHttp : HttpErr → Type 0
IsHttp e = (status : ℕ) × (text : String) × (e ≡ http_error status text) × (207 < status)

module _ {Params Data Value : Type 0} (lib : Library Params Data Value) (old : Value)
    (inject : Injector) where
  open lib use {canonical, transport, marshal, unmarshal, new_request, url_text}

  -- The body is empty and the value stays, or the value is decoded from the body.
  abbrev pub IsDecoded : String → Value → Type 0
  IsDecoded body value = ((body ≡ "") × (value ≡ old)) ⊎ (unmarshal body old ≡ (value, none))

  -- No error: the request was sent once, and the answer is a success that was read as a whole.
  pub record IsAnswered (created : Request) (r : Processed Value) : Type 0 where
    pub request : Request
    pub response : Response
    pub body : String
    pub prepared : injected lib inject created ≡ done request
    pub sent_once : r.sent ≡ request ∷ []
    pub answer : transport request ≡ done (some response)
    pub successful : response.status_code ≤ 207
    pub whole : response.body ≡ done body
    pub decoded : IsDecoded body r.value
    pub no_error : r.err ≡ none

  -- An error: that of the injector before anything was sent, or a later one that has a status.
  pub record IsFailed (created : Request) (r : Processed Value) : Type 0 where
    pub e : HttpErr
    pub error : r.err ≡ some e
    pub reason :
        ((injected lib inject created ≡ raised e) × (r.sent ≡ []))
        ⊎ ((request : Request) × (injected lib inject created ≡ done request)
            × (r.sent ≡ request ∷ [])
            × IsHttp e)

  abbrev pub IsOutcome : Request → Processed Value → Type 0
  IsOutcome created r = IsAnswered created r ⊎ IsFailed created r

  module _ (created request : Request) (prepared : injected lib inject created ≡ done request) where
    failed-IsOutcome :
        (status : ℕ) (text : String) (value : Value)
        → 207 < status
        → IsOutcome created
            (record { sent = request ∷ []; value = value; err = some (http_error status text) })
    failed-IsOutcome status text value h = inr (record {
      e = http_error status text;
      error = refl;
      reason = inr (request, prepared, refl, (status, text, refl, h));
    })

    module _ (response : Response) (answer : transport request ≡ done (some response))
        (body : String) (whole : response.body ≡ done body)
        (successful : response.status_code ≤ 207) where
      answered :
          (value : Value)
          → IsDecoded body value
          → IsOutcome created (record { sent = request ∷ []; value = value; err = none })
      answered value decoded = inl (record {
        request = request;
        response = response;
        body = body;
        prepared = prepared;
        sent_once = refl;
        answer = answer;
        successful = successful;
        whole = whole;
        decoded = decoded;
        no_error = refl;
      })

      unmarshalled-IsOutcome :
          (u : Value × Option String)
          → unmarshal body old ≡ u
          → IsOutcome created (unmarshalled lib (request ∷ []) u)
      unmarshalled-IsOutcome (value, none) h = answered value (inr h)
      unmarshalled-IsOutcome (value, some text) h = failed-IsOutcome 400 _ value (omega arith)

      read-IsOutcome : IsOutcome created (read_body lib old (request ∷ []) body none)
      read-IsOutcome = elim (Bool-cases (body == "")) [
        | inl empty ↦ rw empty (answered old (inl ((eq_iff body "").0 empty, refl)))
        | inr full ↦ rw full (unmarshalled-IsOutcome (unmarshal body old) refl)
      ]

    abbrev rest_of : List Request × Try HttpErr Response → Processed Value
    rest_of r =
        read_body lib old (of_response lib r).sent (of_response lib r).body (of_response lib r).err

    body-IsOutcome :
        (response : Response)
        → transport request ≡ done (some response)
        → (b : Try String String) → response.body ≡ b
        → IsOutcome created (
            read_body lib old
              (of_body lib
                (request ∷ [])
                response.status_code
                (failed_as 416 "failed to read the response body: " b)).sent
              (of_body lib
                (request ∷ [])
                response.status_code
                (failed_as 416 "failed to read the response body: " b)).body
              (of_body lib
                (request ∷ [])
                response.status_code
                (failed_as 416 "failed to read the response body: " b)).err)
    body-IsOutcome response answer (raised text) h = failed-IsOutcome 416 _ old (omega arith)
    body-IsOutcome response answer (done body) h =
        elim (Bool-cases (leb response.status_code 207)) [
          | inl fine ↦ rw fine (read-IsOutcome response answer body h (ground arith))
          | inr bad ↦ rw bad (failed-IsOutcome response.status_code _ old (ground arith))
        ]

    transport-IsOutcome :
        (t : Try String (Option Response))
        → transport request ≡ t
        → IsOutcome created (rest_of (request ∷ [], received lib t))
    transport-IsOutcome (raised text) h = failed-IsOutcome 503 _ old (omega arith)
    transport-IsOutcome (done none) h = failed-IsOutcome 500 _ old (omega arith)
    transport-IsOutcome (done (some response)) h = body-IsOutcome response h response.body refl

  exchange-IsOutcome :
      (created : Request) (prep : Try HttpErr Request)
      → injected lib inject created ≡ prep
      → IsOutcome created (
          read_body lib old
            (of_response lib (exchange lib prep)).sent
            (of_response lib (exchange lib prep)).body
            (of_response lib (exchange lib prep)).err)
  exchange-IsOutcome created (raised e) h =
      inr (record { e = e; error = refl; reason = inl (h, refl) })
  exchange-IsOutcome created (done request) h =
      transport-IsOutcome created request h (transport request) refl

  pub process_request-IsOutcome :
      (created : Request) → IsOutcome created (process_request lib old inject created)
  unfolding process_request
  process_request-IsOutcome created = exchange-IsOutcome created (injected lib inject created) refl
