-- ===== src/Rest/Requests.antt =====
-- pkg/rest/utils.go: GetRequest and PutRequest, which make a request of another service.
pub mod Outcomes
pub mod Created
use Prim.Native.String.{◌++◌}
use go_mod_edge_utils.Prelude.{
  ℕ, String, Option, none, some, List, [], ◌∷◌, Dict, insert, decimal, leb, if◌then◌else◌, ◌==◌,
  string_eq,
}

-- A result and an error of which one is not nil.
pub data Try (E A : Type 0) : Type 0 where
  done : A → Try E A
  raised : E → Try E A

infixl 5 ◌>>=◌ ◌>>◌
abbrev pub ◌>>=◌ : {E A B : Type 0} → Try E A → (A → Try E B) → Try E B
done a >>= f = f a
raised e >>= f = raised e

abbrev pub ◌>>◌ : {E B : Type 0} → Try E (Unit {0}) → Try E B → Try E B
m >> k = m >>= λ _. k

-- `echo.NewHTTPError`, or the error of an `AuthenticationInjector`, by its text.
pub data HttpErr : Type 0 where
  http_error : ℕ → String → HttpErr
  other : String → HttpErr

pub record Url : Type 0 where
  pub place : String
  pub raw_query : String

-- `body` is `none` for a nil reader; the names of the headers are in their canonical form.
pub record Request : Type 0 where
  pub method : String
  pub url : String
  pub body : Option String
  pub headers : Dict String

-- `body` is what `io.ReadAll` gives of the body.
pub record Response : Type 0 where
  pub status_code : ℕ
  pub body : Try String String

-- What the code calls: net/url, net/http, encoding/json and the other service. Errors are their
-- texts. `unmarshal` gives what the pointer holds afterwards, and the error.
pub record Library (Params Data Value : Type 0) : Type 0 where
  pub canonical : String → String
  pub join_path : String → String → Try String String
  pub parse : String → Try String Url
  pub encode : Params → String
  pub url_text : Url → String
  pub new_request : String → String → Option String → Try String (Unit {0})
  pub transport : Request → Try String (Option Response)
  pub marshal : Data → Try String String
  pub unmarshal : String → Value → Value × Option String
  pub unmarshal_message : String → Option String

abbrev pub failed_as : {A : Type 0} → ℕ → String → Try String A → Try HttpErr A
failed_as status frame (done a) = done a
failed_as status frame (raised text) = raised (http_error status (frame ++ text))

-- The values of a context that are texts.
abbrev pub Context : Type 0
Context = String → Option String

-- `FromContext`
abbrev pub from_context : Context → String → String
from_context ctx key = elim (ctx key) [ some value ↦ value | none ↦ "" ]

-- `correlatedId`, with the identifier that `uuid.New` would give.
unfoldable pub correlated_id : Context → String → String
correlated_id ctx fresh =
    if from_context ctx "X-Correlation-ID" == "" then fresh else from_context ctx "X-Correlation-ID"

-- What `SendRequest` gives, with the requests that were sent; `body` is empty for nil.
pub record Sent : Type 0 where
  pub sent : List Request
  pub body : String
  pub err : Option HttpErr

-- What a caller of `GetRequest` finds: the value under its pointer and the error.
pub record Processed (Value : Type 0) : Type 0 where
  pub sent : List Request
  pub value : Value
  pub err : Option HttpErr

abbrev pub Injector : Type 0
Injector = Option (Request → Try HttpErr Request)

module _ {Params Data Value : Type 0} (lib : Library Params Data Value) where
  open lib use {
    canonical, join_path, parse, encode, url_text, new_request, transport, marshal, unmarshal,
    unmarshal_message,
  }

  -- `req.Header.Set`
  abbrev pub set_header : String → String → Request → Request
  set_header key value req = record req { headers = insert (canonical key) value req.headers }

  -- `parseBaseUrlAndRequestPath`
  unfoldable pub parse_base_url_and_request_path : String → String → Try String Url
  parse_base_url_and_request_path base_url path = do full ← join_path base_url path; parse full

  abbrev pub with_params : Option Params → Url → Url
  with_params none u = u
  with_params (some params) u = record u { raw_query = encode params }

  -- The `url` and its errors, which `CreateRequest` and `CreateRequestWithRawData` share.
  abbrev pub located : String → String → Option Params → Try HttpErr Url
  located base_url path params = do
    u ←
        failed_as 500 "failed to parse baseUrl and requestPath: "
          (parse_base_url_and_request_path base_url path)
    done (with_params params u)

  -- `http.NewRequest` and the error that is made of its error.
  abbrev pub made : String → Url → Option String → Try HttpErr Request
  made method u body = do
    failed_as 500 "failed to create a http request: " (new_request method (url_text u) body)
    done (record { method = method; url = url_text u; body = body; headers = [] })

  -- `CreateRequest`
  unfoldable pub create_request :
      Context → String → String → String → String → Option Params → Try HttpErr Request
  unfolding parse_base_url_and_request_path correlated_id
  create_request ctx fresh method base_url path params = do
    u ← located base_url path params
    req ← made method u none
    done (set_header "X-Correlation-ID" (correlated_id ctx fresh) req)

  abbrev pub content_type : Context → String
  content_type ctx =
      if from_context ctx "Content-Type" == ""
      then "application/json"
      else from_context ctx "Content-Type"

  -- `CreateRequestWithRawData`
  unfoldable pub create_request_with_raw_data :
      Context → String → String → String → String → Option Params → Data → Try HttpErr Request
  unfolding parse_base_url_and_request_path correlated_id
  create_request_with_raw_data ctx fresh method base_url path params input = do
    u ← located base_url path params
    encoded ← failed_as 400 "failed to encode input data to JSON: " (marshal input)
    req ← made method u (some encoded)
    done (
        set_header "X-Correlation-ID" (correlated_id ctx fresh)
          (set_header "Content-Type" (content_type ctx) req))

  abbrev pub received : Try String (Option Response) → Try HttpErr Response
  received (raised text) = raised (http_error 503 ("failed to send a http request: " ++ text))
  received (done none) = raised (http_error 500 "the response should not be a nil")
  received (done (some resp)) = done resp

  abbrev pub exchange : Try HttpErr Request → List Request × Try HttpErr Response
  exchange (raised e) = ([], raised e)
  exchange (done req) = (req ∷ [], received (transport req))

  abbrev pub injected : Injector → Request → Try HttpErr Request
  injected none req = done req
  injected (some inject) req = inject req

  -- `makeRequest`
  unfoldable pub make_request : Injector → Request → List Request × Try HttpErr Response
  make_request inject req = exchange (injected inject req)

  -- `getBody`; `SendRequest` drops what was read before an error.
  abbrev pub get_body : Response → Try HttpErr String
  get_body resp = failed_as 416 "failed to read the response body: " resp.body

  abbrev pub err_msg : String → String
  err_msg body = elim (unmarshal_message body) [ some message ↦ message | none ↦ body ]

  abbrev pub of_body : List Request → ℕ → Try HttpErr String → Sent
  of_body reqs status (raised e) = record { sent = reqs; body = ""; err = some e }
  of_body reqs status (done body) = record {
    sent = reqs;
    body = body;
    err =
        if leb status 207
        then none
        else some (
            http_error status
              ("request failed, status code: " ++ decimal status ++ ", err: " ++ err_msg body));
  }

  abbrev pub of_response : List Request × Try HttpErr Response → Sent
  of_response (reqs, raised e) = record { sent = reqs; body = ""; err = some e }
  of_response (reqs, done resp) = of_body reqs resp.status_code (get_body resp)

  -- `SendRequest`
  unfoldable pub send_request : Injector → Request → Sent
  unfolding make_request
  send_request inject req = of_response (make_request inject req)

  abbrev pub unmarshalled : List Request → Value × Option String → Processed Value
  unmarshalled reqs (value, none) = record { sent = reqs; value = value; err = none }
  unmarshalled reqs (value, some text) = record {
    sent = reqs;
    value = value;
    err = some (http_error 400 ("failed to parse the response body: " ++ text));
  }

  abbrev pub read_body : Value → List Request → String → Option HttpErr → Processed Value
  read_body old reqs body (some e) = record { sent = reqs; value = old; err = some e }
  read_body old reqs body none =
      if body == ""
      then record { sent = reqs; value = old; err = none }
      else unmarshalled reqs (unmarshal body old)

  -- `processRequest`
  unfoldable pub process_request : Value → Injector → Request → Processed Value
  unfolding send_request
  process_request old inject req =
      let r = send_request inject req in read_body old r.sent r.body r.err

  abbrev pub process_created : Value → Injector → Try HttpErr Request → Processed Value
  process_created old inject (raised e) = record { sent = []; value = old; err = some e }
  process_created old inject (done req) = process_request old inject req

  -- `GetRequest`
  unfoldable pub get_request :
      Context → String → Value → String → String → Option Params → Injector → Processed Value
  unfolding create_request process_request
  get_request ctx fresh old base_url path params inject =
      process_created old inject (create_request ctx fresh "GET" base_url path params)

  -- `PutRequest`
  unfoldable pub put_request :
      Context → String → Value → String → String → Option Params → Data → Injector → Processed Value
  unfolding create_request_with_raw_data process_request
  put_request ctx fresh old base_url path params input inject =
      process_created old inject
        (create_request_with_raw_data ctx fresh "PUT" base_url path params input)
