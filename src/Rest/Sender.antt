-- ===== src/Rest/Sender.antt =====
-- pkg/rest/http.go: the HTTPSender, which posts data with a header that holds a secret.
pub mod Safety
use Prim.Native.String.{◌++◌}
use go_mod_edge_utils.Prelude.{
  ℕ, String, Bool, true, false, ◌&&◌, Option, none, some, List, [], ◌∷◌, Dict, insert, lookup,
  decimal, ltb, leb, if◌then◌else◌, ◌==◌, string_eq,
}
use go_mod_edge_utils.Errors.{GoError, nil, foreign, new_base_error, to_base_error}
use go_mod_edge_utils.Errors.Kinds.{
  kind_entity_does_not_exist, kind_contract_invalid, kind_not_allowed, kind_server_error,
  kind_io_error, kind_communication_error,
}
use go_mod_edge_utils.Rest.Requests.{Try, done, raised, ◌>>=◌, ◌>>◌, Url, Request, Response}

pub record SecretData : Type 0 where
  pub secret_name : String
  pub secret_value_key : String
  pub secret_header : String
  pub secret_value_prefix : String

-- The order of the headers is that in which `range` visits them.
pub record HttpSender : Type 0 where
  pub url : String
  pub mime_type : String
  pub secret_data : SecretData
  pub http_request_headers : Dict String

-- The dynamic types that `coerceType` tells apart.
pub data Input (Data : Type 0) : Type 0 where
  absent : Input Data
  text : String → Input Data
  bytes : String → Input Data
  value : Data → Input Data

-- What the sender calls: net/url, net/http, encoding/json, the secret provider and the endpoint.
pub record Peer (Data : Type 0) : Type 0 where
  pub canonical : String → String
  pub parse : String → Try String Url
  pub url_text : Url → String
  pub new_request : String → String → Option String → Try String (Unit {0})
  pub marshal : Data → Try String String
  pub get_secret : String → String → Try String (Dict String)
  pub transport : Request → Try String Response

-- The request that was sent, if one was, and the error.
pub record Posted : Type 0 where
  pub sent : List Request
  pub err : GoError

-- `NewHTTPSender`
unfoldable pub new_http_sender : String → String → HttpSender
new_http_sender url mime_type = record {
  url = url;
  mime_type = mime_type;
  secret_data = record {
    secret_name = "";
    secret_value_key = "";
    secret_header = "";
    secret_value_prefix = "";
  };
  http_request_headers = [];
}

-- `SetHTTPRequestHeaders`
unfoldable pub set_http_request_headers : Option (Dict String) → HttpSender → HttpSender
set_http_request_headers none sender = sender
set_http_request_headers (some headers) sender = record sender { http_request_headers = headers }

-- `SetSecretData`
unfoldable pub set_secret_data : String → String → String → String → HttpSender → HttpSender
set_secret_data name value_key header_name value_prefix sender = record sender {
  secret_data = record {
    secret_name = name;
    secret_value_key = value_key;
    secret_header = header_name;
    secret_value_prefix = value_prefix;
  };
}

module _ (frame : String) where
  abbrev pub missing : String → Try GoError Bool
  missing message = raised (new_base_error frame kind_contract_invalid message nil)

  -- `determineIfUsingSecret`, with `raised` for false and an error
  unfoldable pub determine_if_using_secret : SecretData → Try GoError Bool
  unfolding new_base_error
  determine_if_using_secret s =
      if s.secret_name == "" && s.secret_value_key == "" && s.secret_header == ""
      then done false
      else if s.secret_name == ""
      then missing "secretName must be specified"
      else if s.secret_value_key == ""
      then missing "secretName was specified but no secretValueKey was provided"
      else if s.secret_header == ""
      then missing "secretName and secretValueKey were specified but no secretHeader was provided"
      else done true

-- `secret[key]` with its prefix
abbrev pub element : SecretData → Dict String → String
element s secrets =
    let found : String = elim (lookup s.secret_value_key secrets) [ some v ↦ v | none ↦ "" ] in
    if s.secret_value_prefix == "" then found else s.secret_value_prefix ++ " " ++ found

module _ {Data : Type 0} (peer : Peer Data) (frame : String) (sender : HttpSender) where
  open peer use {canonical, parse, url_text, new_request, marshal, get_secret, transport}

  -- An error of a library, as a `BaseError`.
  abbrev pub wrapped : {A : Type 0} → String → String → Try String A → Try GoError A
  wrapped kind message (done a) = done a
  wrapped kind message (raised t) = raised (new_base_error frame kind message (foreign t nil))

  abbrev pub replaced : Try String String → Try String String
  replaced (done s) = done s
  replaced (raised _) = raised (
      "marshaling input data to JSON failed, "
      ++ "passed in data must be of type []byte, string, or support marshaling to JSON")

  -- `coerceType`; nil is encoded as null.
  unfoldable pub coerce_type : Input Data → Try String String
  coerce_type absent = done "null"
  coerce_type (text s) = done s
  coerce_type (bytes b) = done b
  coerce_type (value v) = replaced (marshal v)

  -- The loop over the headers.
  unfoldable pub set_all : Dict String → Dict String → Dict String
  set_all [] headers = headers
  set_all ((key, v) ∷ more) headers = set_all more (insert (canonical key) v headers)

  abbrev pub plain_headers : Dict String
  plain_headers =
      set_all sender.http_request_headers (insert (canonical "Content-Type") sender.mime_type [])

  abbrev pub with_secret : SecretData → Request → Try String (Dict String) → Try GoError Request
  with_secret s req secrets = do
    found ← wrapped kind_entity_does_not_exist "" secrets
    done (record req { headers = insert (canonical s.secret_header) (element s found) req.headers })

  abbrev pub authenticated : SecretData → Request → Try GoError Bool → Try GoError Request
  authenticated s req (raised e) = raised (to_base_error frame e)
  authenticated s req (done false) = done req
  authenticated s req (done true) = with_secret s req (get_secret s.secret_name s.secret_value_key)

  -- `httpSend` up to `client.Do`
  unfoldable pub prepare : String → Input Data → Try GoError Request
  unfolding coerce_type set_all determine_if_using_secret new_base_error to_base_error
  prepare method input = do
    export_data ← wrapped kind_contract_invalid "" (coerce_type input)
    parsed_url ← wrapped kind_not_allowed "Failed to parse url" (parse sender.url)
    wrapped kind_server_error "" (new_request method (url_text parsed_url) (some export_data))
    authenticated sender.secret_data
        (record {
          method = method;
          url = url_text parsed_url;
          body = some export_data;
          headers = plain_headers;
        })
        (determine_if_using_secret frame sender.secret_data)

  abbrev pub of_status : ℕ → String → GoError
  of_status status body =
      if leb 200 status && ltb status 300
      then nil
      else new_base_error frame kind_communication_error
          ("Received '" ++ decimal status ++ "' status code, and response body: " ++ body) nil

  abbrev pub of_read : ℕ → Try GoError String → GoError
  of_read status (raised e) = e
  of_read status (done body) = of_status status body

  abbrev pub of_reply : Try GoError Response → GoError
  of_reply (raised e) = e
  of_reply (done resp) =
      of_read resp.status_code (wrapped kind_io_error "Fail to read the response body" resp.body)

  abbrev pub deliver : Try GoError Request → Posted
  deliver (raised e) = record { sent = []; err = e }
  deliver (done req) = record {
    sent = req ∷ [];
    err = of_reply (wrapped kind_server_error "" (transport req));
  }

  -- `httpSend`
  unfoldable pub http_send : Input Data → String → Posted
  unfolding prepare new_base_error
  http_send absent method = record {
    sent = [];
    err = new_base_error frame kind_entity_does_not_exist "No data" nil;
  }
  http_send (text s) method = deliver (prepare method (text s))
  http_send (bytes b) method = deliver (prepare method (bytes b))
  http_send (value v) method = deliver (prepare method (value v))

  -- `HTTPPost`
  unfoldable pub http_post : Input Data → Posted
  unfolding http_send
  http_post input = http_send input "POST"
