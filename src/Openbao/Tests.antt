-- ===== src/Openbao/Tests.antt =====
-- The client of the secret store at concrete tokens and replies.
use go_mod_edge_utils.Prelude.{
  ◌≡◌, refl, String, true, none, pos, decimal, if◌then◌else◌, ◌==◌, string_eq, some, List, [], ◌∷◌,
}
use Prim.Native.String.{◌++◌}
use go_mod_edge_utils.Secret.{ok}
use go_mod_edge_utils.Rest.Requests.{Try, done, raised, Request, Response}
use go_mod_edge_utils.Openbao.Identity.{
  SecretConfig, Store, http_response, build_secret_name_url, get_self_jwt, is_jwt_valid,
  renew_token, get_token_details, renewed_of,
}
use go_mod_edge_utils.Openbao.Identity.Confirmed.{
  IsConfirmed, IsIntrospection, identity-IsConfirmed,
}
use go_mod_edge_utils.Openbao.Tokens.{
  TokenMetadata, Client, plan, set_auth_token, enter_select, forbidden,
}
use go_mod_edge_utils.Openbao.Renewal.{Setting, live_renewals, new_client}
use go_mod_edge_utils.Openbao.Replacement.{renewal_survives}
use go_mod_edge_utils.Openbao.Secrets.{Json, text, reply, cast, get_secret}
use go_mod_edge_utils.Openbao.Secrets.Filtering.{Filtered, get_secret-Filtered}

abbrev hourly : TokenMetadata
hourly = record { renewable = true; period = 3600; ttl = 3600 }

abbrev settings : List Setting
settings = ("a", ok hourly, ok tt) ∷ ("b", ok hourly, ok tt) ∷ []

-- One goroutine renews the token "a", which is then rejected and replaced by "c".
abbrev renewing : Client
renewing = record {
  auth_token = "a";
  cancel_funcs = ("a", 1) ∷ [];
  cancelled = [];
  next = 2;
  current = 1;
  renewals = record { watches = 1 } ∷ [];
}

abbrev stored : String × Json
stored = ("user", text "alice")

get_secret-Filtered_example :
    Filtered "db" "password" [] 200 stored []
      (("user", "alice") ∷ [])
      (get_secret "db" ("password" ∷ []) (reply 200 (ok (some (stored ∷ [])))))
unfolding cast
get_secret-Filtered_example =
    get_secret-Filtered "db" "password" [] 200 stored [] (("user", "alice") ∷ []) refl refl

abbrev config : SecretConfig
config = record {
  protocol = "http";
  host = "store";
  port = pos 8200;
  base_path = "/v1/secret/app/";
  namespace = "";
  auth_type = "X-Vault-Token";
  auth_token = "a";
}

secret_name_url :
    build_secret_name_url (λ url. none) config "db/" ≡ done "http://store:8200/v1/secret/app//db"
unfolding build_secret_name_url decimal
secret_name_url = refl

abbrev answering : Request → Try String Response
answering req =
    if req.url == "http://store:8200/v1/identity/oidc/introspect"
    then done (record { status_code = 200; body = done "active" })
    else done (record { status_code = 403; body = done "" })

abbrev identity_store : Store
identity_store = record {
  canonical = λ key. key;
  join = λ first second. first ++ "/" ++ second;
  parse_error = λ url. none;
  new_request = λ method url body. done tt;
  caller = answering;
  marshal_token = λ jwt. done jwt;
  decode_metadata = λ body. done hourly;
  decode_token = λ body. done body;
  decode_active = λ body. done (body == "active");
}

jwt_valid : (is_jwt_valid identity_store config "j").result ≡ done true
unfolding is_jwt_valid decimal
jwt_valid = refl

details_refused :
    (get_token_details identity_store config).result
    ≡ raised (http_response 403 "failed to lookup token")
unfolding get_token_details decimal
details_refused = refl

-- A renewal that the store forbids asks the callback for another token.
renewal_forbidden :
    renewed_of identity_store config
      (some (λ token. ("b", true)))
      (renew_token identity_store config).result
    ≡ forbidden (some ("b", true))
unfolding renewed_of renew_token decimal
renewal_forbidden = refl

identity-IsConfirmed_example :
    ((is_jwt_valid identity_store config "j").result ≡ done true
      → IsConfirmed identity_store config "POST" "/v1/identity/oidc/introspect"
          (IsIntrospection identity_store config "j")
          (λ body. done (body == "active"))
          true
          (is_jwt_valid identity_store config "j").sent)
    × ((get_self_jwt identity_store config "key").result ≡ done "t"
        → IsConfirmed identity_store config "GET" "/v1/identity/oidc/token/key"
            (λ body. body ≡ none)
            (λ body. done body)
            "t"
            (get_self_jwt identity_store config "key").sent)
identity-IsConfirmed_example = identity-IsConfirmed identity_store config "j" "key" "t"

renewal_survives_example :
    (live_renewals (set_auth_token "b" (ok hourly) (ok tt) (new_client "z")).1 ≡ 1)
    × (live_renewals
          (set_auth_token "c"
            (ok hourly)
            (ok tt)
            (set_auth_token "b" (ok hourly) (ok tt) (new_client "z")).1).1
        ≡ 1)
    × (live_renewals (
          enter_select 1
            (set_auth_token "c"
              (ok hourly)
              (ok tt)
              (set_auth_token "b" (ok hourly) (ok tt) (new_client "z")).1).1)
        ≡ 2)
unfolding plan
renewal_survives_example =
    renewal_survives "z" "b" "c" hourly hourly (ok tt) (ok tt) 1800000000000 1800000000000 refl refl
