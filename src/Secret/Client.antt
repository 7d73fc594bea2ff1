-- ===== src/Secret/Client.antt =====
-- pkg/secrets/client/interfaces.go, and the calls of the client in pkg/bootstrap/secret/secure.go:
-- a call is repeated once if the token has to be reloaded.
use text.Mathlib.Text.{find?}
use go_mod_edge_utils.Prelude.{
  String, Bool, true, false, ◌||◌, Option, none, some, is_some, List, Dict, if◌then◌else◌,
}
use go_mod_edge_utils.Secret.{SecretErr, error_text, Result, ok, failed}

-- `client.SecretClient`, over the state of everything outside of the provider: the secret store, the
-- client's token and the token file.
pub record SecretClient (W : Type 0) : Type 0 where
  pub get_secret : String → List String → W → Result (Dict String) × W
  pub store_secret : String → Dict String → W → Result Unit × W
  pub get_secret_names : W → Result (List String) × W
  pub set_auth_token : String → W → Result Unit × W

abbrev secrets_auth_error : String
secrets_auth_error = "Received a '403' response"

abbrev pub access_token_auth_error : String
access_token_auth_error = "HTTP response with status code 403"

-- `strings.Contains`
abbrev pub contains : String → String → Bool
contains s t = is_some (find? s t)

unfoldable pub is_auth_error : SecretErr → Bool
unfolding error_text
is_auth_error e =
    contains (error_text e) secrets_auth_error || contains (error_text e) access_token_auth_error

abbrev pub error_of : {A : Type 0} → Result A → Option SecretErr
error_of (ok a) = none
error_of (failed e) = some e

module _ {W : Type 0} where
  abbrev pub reloaded : Result Unit × W → Bool × Option SecretErr × W
  reloaded (ok set, w) = (true, none, w)
  reloaded (failed e, w) = (false, some e, w)

  abbrev pub set_token : SecretClient W → Result String × W → Bool × Option SecretErr × W
  set_token client (ok token, w) = reloaded (client.set_auth_token token w)
  set_token client (failed e, w) = (false, some e, w)

  -- `reloadTokenOnAuthError`
  unfoldable pub reload_token_on_auth_error :
      SecretClient W → (W → Result String × W) → Option SecretErr → W → Bool × Option SecretErr × W
  reload_token_on_auth_error client load none w = (false, none, w)
  reload_token_on_auth_error client load (some e) w =
      if is_auth_error e then set_token client (load w) else (false, some e, w)

  abbrev pub conclude :
      {A : Type 0} → (W → Result A × W) → Result A → Bool × Option SecretErr × W → Result A × W
  conclude call r (true, err, w) = call w
  conclude call r (false, some e, w) = (failed e, w)
  conclude call r (false, none, w) = (r, w)

  abbrev pub after_first :
      {A : Type 0}
      → SecretClient W
      → (W → Result String × W)
      → (W → Result A × W)
      → Result A × W
      → Result A × W
  after_first client load call (r, w) =
      conclude call r (reload_token_on_auth_error client load (error_of r) w)

  -- The part that `GetSecret`, `StoreSecret` and `ListSecretNames` have in common: the call of the
  -- client, the reload of the token, and the call again "with potential new token".
  unfoldable pub with_retry :
      {A : Type 0}
      → SecretClient W
      → (W → Result String × W)
      → (W → Result A × W)
      → W
      → Result A × W
  unfolding reload_token_on_auth_error
  with_retry client load call w = after_first client load call (call w)
