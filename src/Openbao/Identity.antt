-- ===== src/Openbao/Identity.antt =====
-- pkg/secrets/types/config.go: the URLs of the secret store. pkg/secrets/openbao/secrets.go: the
-- requests about the client's own token and about JSON web tokens.
pub mod Built
pub mod Confirmed
use Prim.Native.Char.{code}
use Prim.Native.String
use go_mod_edge_utils.Prelude.{
  ℕ, ℤ, pos, negsuc, String, Bool, true, false, not, ◌&&◌, ◌||◌, Option, none, some, List, [], ◌∷◌,
  Dict, insert, decimal, leb, ltb, if◌then◌else◌, ◌==◌, string_eq, nat_eq,
}
use go_mod_edge_utils.Secret.{SecretErr, secret_store, foreign}
use go_mod_edge_utils.Rest.Query.{show_int, concat}
use go_mod_edge_utils.Rest.Requests.{Try, done, raised, ◌>>=◌, ◌>>◌, Request, Response}
use go_mod_edge_utils.Openbao.Tokens.{TokenMetadata, Renewed, renewed, broken, forbidden}

-- `SecretConfig` with its `AuthenticationInfo`, as far as it is used here.
pub record SecretConfig : Type 0 where
  pub protocol : String
  pub host : String
  pub port : ℤ
  pub base_path : String
  pub namespace : String
  pub auth_type : String
  pub auth_token : String

-- `ErrHTTPResponse`, or another error.
pub data StoreErr : Type 0 where
  http_response : ℕ → String → StoreErr
  secret : SecretErr → StoreErr

-- The request that was sent, if one was, and the result.
pub record Asked (A : Type 0) : Type 0 where
  pub sent : List Request
  pub result : Try StoreErr A

-- net/url, net/http, path.Join, the encoding of the body and the decoding of each answer.
pub record Store : Type 0 where
  pub canonical : String → String
  pub join : String → String → String
  pub parse_error : String → Option String
  pub new_request : String → String → Option String → Try String (Unit {0})
  pub caller : Request → Try String Response
  pub marshal_token : String → Try String String
  pub decode_metadata : String → Try String TokenMetadata
  pub decode_token : String → Try String String
  pub decode_active : String → Try String Bool

-- `strings.TrimSuffix(path, "/")`
unfoldable pub trim_slash : String → String
trim_slash String.[] = ""
trim_slash (String.◌∷◌ c s) =
    let rest = trim_slash s in if s == "" && code c == 47 then "" else String.◌∷◌ c rest

unfoldable pub rooted : String → String
rooted String.[] = "/"
rooted (String.◌∷◌ c s) = if code c == 47 then String.◌∷◌ c s else String.◌++◌ "/" (String.◌∷◌ c s)

abbrev pub plain_error : {A : Type 0} → List String → Try StoreErr A
plain_error parts = raised (secret (foreign (concat parts)))

abbrev pub unset : String → List String
unset setting =
    "unable to build URL: " ∷ setting ∷ " not set. Please check configuration settings" ∷ []

abbrev pub parsed : String → Option String → Try StoreErr String
parsed url none = done url
parsed url (some e) = plain_error (
    "URL '" ∷ url ∷ "' built from settings is invalid: " ∷ e
    ∷ ". Please check you configuration settings" ∷ [])

abbrev pub is_zero : ℤ → Bool
is_zero (pos n) = n == 0
is_zero (negsuc n) = false

abbrev pub url_of : SecretConfig → String → String
url_of c path =
    concat (c.protocol ∷ "://" ∷ c.host ∷ ":" ∷ show_int c.port ∷ rooted (trim_slash path) ∷ [])

-- `buildURL`, given the error of `url.Parse`, and `BuildURL`
unfoldable pub build_url : (String → Option String) → SecretConfig → String → Try StoreErr String
unfolding trim_slash rooted show_int concat
build_url parse_error c path =
    if c.protocol == ""
    then plain_error (unset "Protocol")
    else if c.host == ""
    then plain_error (unset "Host")
    else if is_zero c.port
    then plain_error (unset "Port")
    else parsed (url_of c path) (parse_error (url_of c path))

-- `BuildSecretNameURL`
unfoldable pub build_secret_name_url :
    (String → Option String) → SecretConfig → String → Try StoreErr String
unfolding build_url concat
build_secret_name_url parse_error c name =
    build_url parse_error c (concat (c.base_path ∷ "/" ∷ name ∷ []))

-- `BuildRequestURL`
unfoldable pub build_request_url :
    (String → Option String) → SecretConfig → String → Try StoreErr String
unfolding build_url concat
build_request_url parse_error c sub_path =
    build_url parse_error c (concat (c.base_path ∷ sub_path ∷ []))

-- `isForbidden`
unfoldable pub is_forbidden : StoreErr → Bool
is_forbidden (http_response status text) = status == 403
is_forbidden (secret e) = false

abbrev pub as_foreign : {A : Type 0} → String → Try String A → Try StoreErr A
as_foreign frame (done a) = done a
as_foreign frame (raised t) = raised (secret (foreign (String.◌++◌ frame t)))

module _ (store : Store) (c : SecretConfig) where
  open store use {
    canonical, join, parse_error, new_request, caller, marshal_token, decode_metadata, decode_token,
    decode_active,
  }

  -- A request with its headers, after `http.NewRequest`.
  abbrev pub requested : String → Dict String → Option String → String → Try StoreErr Request
  requested method headers body url = do
    as_foreign "" (new_request method url body)
    done (record { method = method; url = url; body = body; headers = headers })

  abbrev pub token_headers : Dict String
  token_headers = (canonical "X-Vault-Token", c.auth_token) ∷ []

  abbrev pub identity_headers : Dict String
  identity_headers =
      let own : Dict String = (canonical c.auth_type, c.auth_token) ∷ [] in
      if c.namespace == "" then own else insert (canonical "X-Vault-Namespace") c.namespace own

  -- The call of the store, with what becomes of its answer.
  abbrev pub ask :
      {A : Type 0} → String → (Response → Try StoreErr A) → Try StoreErr Request → Asked A
  ask frame use_answer (raised e) = record { sent = []; result = raised e }
  ask frame use_answer (done req) = record {
    sent = req ∷ [];
    result = as_foreign frame (caller req) >>= use_answer;
  }

  -- The status 200, or an `ErrHTTPResponse`.
  abbrev pub ok_or : {A : Type 0} → String → ℕ → Try StoreErr A → Try StoreErr A
  ok_or text status r = if status == 200 then r else raised (http_response status text)

  -- A status of success, or an error of the secret store.
  abbrev pub success_or : {A : Type 0} → ℕ → Try StoreErr A → Try StoreErr A
  success_or status r =
      if ltb status 200 || not (leb status 299)
      then raised (
          secret (
            secret_store
              (concat ("Received a '" ∷ decimal status ∷ "' response from the secret store" ∷ []))))
      else r

  abbrev pub read : {A : Type 0} → (String → Try String A) → Response → Try StoreErr A
  read decode resp = as_foreign "" (resp.body >>= decode)

  -- `getTokenDetails`
  unfoldable pub get_token_details : Asked TokenMetadata
  unfolding build_url
  get_token_details =
      ask "" (λ resp. ok_or "failed to lookup token" resp.status_code (read decode_metadata resp))
        (build_url parse_error c "/v1/auth/token/lookup-self"
          >>= requested "GET" token_headers none)

  -- `renewToken`
  unfoldable pub renew_token : Asked (Unit {0})
  unfolding build_url
  renew_token =
      ask "" (λ resp. ok_or "failed to renew token" resp.status_code (done tt))
        (build_url parse_error c "/v1/auth/token/renew-self"
          >>= requested "POST" token_headers none)

  -- `GetSelfJWT`
  unfoldable pub get_self_jwt : String → Asked String
  unfolding build_url concat decimal
  get_self_jwt service_key =
      ask "unable to get all paths: " (λ resp. success_or resp.status_code (read decode_token resp))
        (build_url parse_error c (join "/v1/identity/oidc/token" service_key)
          >>= requested "GET" identity_headers none)

  abbrev pub marshalled : Try String String → Try StoreErr String
  marshalled (done payload) = done payload
  marshalled (raised t) = plain_error ("Unable to marshal token introspect body" ∷ [])

  abbrev pub introspection : String → Try StoreErr Request
  introspection jwt = do
    url ← build_url parse_error c "/v1/identity/oidc/introspect"
    payload ← marshalled (marshal_token jwt)
    requested "POST" identity_headers (some payload) url

  -- `IsJWTValid`
  unfoldable pub is_jwt_valid : String → Asked Bool
  unfolding build_url concat decimal
  is_jwt_valid jwt =
      ask "unable to get all paths: "
        (λ resp. success_or resp.status_code (read decode_active resp)) (introspection jwt)

  -- What `doTokenRefreshPeriodically` makes of the result of `renewToken`.
  unfoldable pub renewed_of : Option (String → String × Bool) → Try StoreErr (Unit {0}) → Renewed
  unfolding is_forbidden
  renewed_of callback (done u) = renewed
  renewed_of callback (raised e) =
      if is_forbidden e
      then forbidden (elim callback [ none ↦ none | some f ↦ some (f c.auth_token) ])
      else broken
