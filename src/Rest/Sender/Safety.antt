-- ===== src/Rest/Sender/Safety.antt =====
-- What HTTPPost of pkg/rest/http.go promises about the requests that it sends.
use go_mod_edge_utils.Prelude.{
  ◌≡◌, refl, ◌∙◌, ◌<◌, ◌≤◌, ◌⊎◌, inl, inr, ◌≢◌, String, Bool, true, false, ◌&&◌, some, [], ◌∷◌,
  Dict, lookup, lookup-insert, eq_self, leb, ltb, ◌==◌, string_eq, eq_iff, ne_of_test, Bool-cases,
  arith,
}
use go_mod_edge_utils.Errors.{GoError, nil, base, BaseError, new_base_error, to_base_error}
use go_mod_edge_utils.Errors.Kinds.{kind_server_error, kind_io_error}
use go_mod_edge_utils.Rest.Requests.{Try, done, raised, ◌>>=◌, Request, Response}
use go_mod_edge_utils.Rest.Sender.{
  SecretData, HttpSender, Input, absent, text, bytes, value, Peer, Posted,
  determine_if_using_secret, element, wrapped, coerce_type, plain_headers, authenticated, prepare,
  of_read, of_reply, deliver, http_post,
}

abbrev pub IsBase : GoError → Type 0
IsBase e = (f : BaseError) × (w : GoError) × (e ≡ base f w)

-- No secret is asked for.
abbrev pub AsksNothing : SecretData → Type 0
AsksNothing s = (s.secret_name ≡ "") × (s.secret_value_key ≡ "") × (s.secret_header ≡ "")

-- Name, key and header are all given.
abbrev pub IsComplete : SecretData → Type 0
IsComplete s = (s.secret_name ≢ "") × (s.secret_value_key ≢ "") × (s.secret_header ≢ "")

abbrev IsDetermined : SecretData → Try GoError Bool → Type 0
IsDetermined s (done true) = IsComplete s
IsDetermined s (done false) = AsksNothing s
IsDetermined s (raised e) = IsBase e

new_base_error-IsBase :
    (frame kind message : String) (e : GoError) → IsBase (new_base_error frame kind message e)
unfolding new_base_error
new_base_error-IsBase frame kind message e = (_, _, refl)

to_base_error-IsBase : (frame : String) (e : GoError) → IsBase (to_base_error frame e)
unfolding to_base_error
to_base_error-IsBase frame e = (_, _, refl)

determine-IsDetermined :
    (frame : String) (s : SecretData) → IsDetermined s (determine_if_using_secret frame s)
unfolding determine_if_using_secret
determine-IsDetermined frame s = elim (Bool-cases (s.secret_name == "")) [
  | inl a ↦ elim (Bool-cases (s.secret_value_key == "")) [
    | inl b ↦ elim (Bool-cases (s.secret_header == "")) [
      | inl c ↦ rw (a, b, c) ((eq_iff _ _).0 a, (eq_iff _ _).0 b, (eq_iff _ _).0 c)
      | inr c ↦ rw (a, b, c) (new_base_error-IsBase frame _ _ nil)
    ]
    | inr b ↦ rw (a, b) (new_base_error-IsBase frame _ _ nil)
  ]
  | inr a ↦ elim (Bool-cases (s.secret_value_key == "")) [
    | inl b ↦ rw (a, b) (new_base_error-IsBase frame _ _ nil)
    | inr b ↦ elim (Bool-cases (s.secret_header == "")) [
      | inl c ↦ rw (a, b, c) (new_base_error-IsBase frame _ _ nil)
      | inr c ↦ rw (a, b, c) (ne_of_test _ _ a, ne_of_test _ _ b, ne_of_test _ _ c)
    ]
  ]
]

module _ {Data : Type 0} (peer : Peer Data) (frame : String) (sender : HttpSender) where
  open peer use {canonical, parse, url_text, new_request, get_secret, transport}
  open sender use {secret_data}

  -- A request goes with the secret that was asked for: its header has the provider's value.
  abbrev pub HasSecret : Request → Type 0
  HasSecret req =
      AsksNothing secret_data
      ⊎ (IsComplete secret_data
          × (found : Dict String) × (get_secret secret_data.secret_name secret_data.secret_value_key
              ≡ done found)
          × (lookup (canonical secret_data.secret_header) req.headers
              ≡ some (element secret_data found)))

  -- The request carries the input, and the secret if there is one.
  abbrev pub IsPrepared : Input Data → Request → Type 0
  IsPrepared input req =
      (req.method ≡ "POST")
      × ((body : String) × (coerce_type peer frame sender input ≡ done body)
          × (req.body ≡ some body))
      × HasSecret req

  abbrev IsBaseOr : (Request → Type 0) → Try GoError Request → Type 0
  IsBaseOr P (done req) = P req
  IsBaseOr P (raised e) = IsBase e

  wrapped-IsBaseOr :
      {A : Type 0} (P : Request → Type 0) (kind message : String) (t : Try String A)
      → (f : A → Try GoError Request) → ((a : A) → t ≡ done a → IsBaseOr P (f a))
      → IsBaseOr P (wrapped peer frame sender kind message t >>= f)
  wrapped-IsBaseOr P kind message (done a) f good = good a refl
  wrapped-IsBaseOr P kind message (raised t) f good = new_base_error-IsBase frame kind message _

  module _ (input : Input Data) (url body : String)
      (coerced : coerce_type peer frame sender input ≡ done body) where
    abbrev plain : Request
    plain = record {
      method = "POST";
      url = url;
      body = some body;
      headers = plain_headers peer frame sender;
    }

    authenticated-IsBaseOr :
        (d : Try GoError Bool)
        → IsDetermined secret_data d
        → IsBaseOr (IsPrepared input) (authenticated peer frame sender secret_data plain d)
    authenticated-IsBaseOr (raised e) h = to_base_error-IsBase frame e
    authenticated-IsBaseOr (done false) h = (refl, (body, coerced, refl), inl h)
    authenticated-IsBaseOr (done true) h =
        wrapped-IsBaseOr (IsPrepared input) _ ""
          (get_secret secret_data.secret_name secret_data.secret_value_key) _
          (λ found got. (
            refl,
            (body, coerced, refl),
            inr (
              h,
              found,
              got,
              lookup-insert _ _ (element secret_data found) (plain_headers peer frame sender)
                  ∙ rw (eq_self (canonical secret_data.secret_header)),
            ),
          ))

  prepare-IsBaseOr :
      (input : Input Data) → IsBaseOr (IsPrepared input) (prepare peer frame sender "POST" input)
  unfolding prepare
  prepare-IsBaseOr input =
      wrapped-IsBaseOr (IsPrepared input) _ "" (coerce_type peer frame sender input) _
        (λ body coerced.
          wrapped-IsBaseOr (IsPrepared input) _ "Failed to parse url" (parse sender.url) _
            (λ u parsed.
              wrapped-IsBaseOr (IsPrepared input) _ "" (new_request "POST" (url_text u) (some body))
                _
                (λ t made.
                  authenticated-IsBaseOr input (url_text u) body coerced _
                    (determine-IsDetermined frame secret_data))))

  -- No error, for an answer from 200 to 299 that was read as a whole, or a `BaseError`.
  abbrev pub IsReply : Request → GoError → Type 0
  IsReply req err =
      ((err ≡ nil)
        × (response : Response) × (body : String) × (transport req ≡ done response)
        × (response.body ≡ done body)
        × (200 ≤ response.status_code)
        × (response.status_code < 300))
      ⊎ IsBase err

  of_reply-IsReply :
      (req : Request) (t : Try String Response)
      → transport req ≡ t
      → IsReply req (of_reply peer frame sender (wrapped peer frame sender kind_server_error "" t))
  of_reply-IsReply req (raised t) h = inr (new_base_error-IsBase frame _ "" _)
  of_reply-IsReply req (done response) h = read response.body refl
    where
      read :
          (b : Try String String)
          → response.body ≡ b
          → IsReply req (
              of_read peer frame sender response.status_code
                (wrapped peer frame sender kind_io_error "Fail to read the response body" b))
      read (raised t) e = inr (new_base_error-IsBase frame _ _ _)
      read (done body) e =
          elim (Bool-cases (leb 200 response.status_code && ltb response.status_code 300)) [
            | inl fine ↦ rw fine (inl (refl, response, body, h, e, ground arith, ground arith))
            | inr bad ↦ rw bad (inr (new_base_error-IsBase frame _ _ nil))
          ]

  abbrev pub IsPosted : Input Data → Posted → Type 0
  IsPosted input r =
      ((r.sent ≡ []) × IsBase r.err)
      ⊎ ((req : Request) × (r.sent ≡ req ∷ []) × IsPrepared input req × IsReply req r.err)

  deliver-IsPosted :
      (input : Input Data) (t : Try GoError Request)
      → IsBaseOr (IsPrepared input) t
      → IsPosted input (deliver peer frame sender t)
  deliver-IsPosted input (raised e) h = inl (refl, h)
  deliver-IsPosted input (done req) h =
      inr (req, refl, h, of_reply-IsReply req (transport req) refl)

  -- HTTPPost sends nothing and gives a BaseError, or it sends one request, a POST with the data as
  -- its body. If a name, a key or a header of a secret is set, nothing is sent unless all three are
  -- and the provider has given the secret, and then the request has the value, with its prefix, in
  -- that header. The error is nil only if the answer is from 200 to 299 and was read as a whole, and
  -- else a BaseError.
  pub http_post-IsPosted : (input : Input Data) → IsPosted input (http_post peer frame sender input)
  unfolding http_post
  http_post-IsPosted absent = inl (refl, new_base_error-IsBase frame _ "No data" nil)
  http_post-IsPosted (text s) = deliver-IsPosted (text s) _ (prepare-IsBaseOr (text s))
  http_post-IsPosted (bytes b) = deliver-IsPosted (bytes b) _ (prepare-IsBaseOr (bytes b))
  http_post-IsPosted (value v) = deliver-IsPosted (value v) _ (prepare-IsBaseOr (value v))
