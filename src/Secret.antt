-- ===== src/Secret.antt =====
-- What the two secret providers share: the errors of pkg/secrets/errors.go, and the callbacks that
-- pkg/bootstrap/secret/secure.go and insecure.go call when a secret is updated.
pub mod Client
pub mod Cache
pub mod Secure
pub mod Retry
pub mod Coherence
pub mod Calls
pub mod Callbacks
pub mod Stale
pub mod Insecure
pub mod Seeding
pub mod Creation
mod Tests
use Prim.Native.String.{◌++◌}
use go_mod_edge_utils.Prelude.{
  String, Bool, true, false, Option, none, some, List, [], ◌∷◌, Dict, lookup, insert, delete,
}

-- An error of the secret client, or any other with its text.
pub data SecretErr : Type 0 where
  secret_store : String → SecretErr
  secrets_not_found : List String → SecretErr
  secret_name_not_found : String → SecretErr
  foreign : String → SecretErr

-- `strings.Join(keys, ",")`
unfoldable pub join : List String → String
join [] = ""
join (key ∷ []) = key
join (key ∷ next ∷ keys) = key ++ ("," ++ join (next ∷ keys))

unfoldable pub error_text : SecretErr → String
unfolding join
error_text (secret_store d) = "Error found on handling secrets from underlying data-store: " ++ d
error_text (secrets_not_found keys) = "No value for the keys: [" ++ (join keys ++ "] exists")
error_text (secret_name_not_found d) = "Error retreiving secret secretName: '" ++ (d ++ "'")
error_text (foreign text) = text

-- `(A, error)` where the value is used only without an error.
pub data Result (A : Type 0) : Type 0 where
  ok : A → Result A
  failed : SecretErr → Result A

-- `WildcardName`
abbrev pub wildcard_name : String
wildcard_name = "*"

abbrev pub already_registered : String → SecretErr
already_registered name =
    foreign ("there is a callback already registered for secretName '" ++ (name ++ "'"))

-- `registeredSecretCallbacks`; a callback is of a type of its own, since only its call matters here.
module _ {K : Type 0} where
  abbrev pub register_over : Option K → String → K → Dict K → Option SecretErr × Dict K
  register_over (some old) name callback registered = (some (already_registered name), registered)
  register_over none name callback registered = (none, insert name callback registered)

  -- `RegisterSecretUpdatedCallback`
  unfoldable pub register : String → K → Dict K → Option SecretErr × Dict K
  register name callback registered =
      register_over (lookup name registered) name callback registered

  -- `DeregisterSecretUpdatedCallback`
  unfoldable pub deregister : String → Dict K → Dict K
  deregister name registered = delete name registered

  abbrev pub or_wildcard : Option K → Dict K → Option K
  or_wildcard (some callback) registered = some callback
  or_wildcard none registered = lookup wildcard_name registered

  -- The callback that `SecretUpdatedAtSecretName` calls.
  unfoldable pub callback_for : String → Dict K → Option K
  callback_for name registered = or_wildcard (lookup name registered) registered
