-- ===== src/Secret/Insecure.antt =====
-- pkg/bootstrap/secret/insecure.go: the provider over the secrets of the configuration.
use Prim.Native.String
pub mod Lookups
use go_mod_edge_utils.Prelude.{
  String, Bool, true, false, Option, none, some, List, [], ◌∷◌, ◌++◌, Dict, lookup, insert,
  if◌then◌else◌, ◌==◌, string_eq,
}
use go_mod_edge_utils.Secret.{SecretErr, foreign, join, Result, ok, failed}
use go_mod_edge_utils.Secret.Cache.{merge}

-- `config.InsecureSecretsInfo`
pub record InsecureSecret : Type 0 where
  pub secret_name : String
  pub secret_data : Dict String

-- `config.InsecureSecrets`, in the order in which `range` visits it; a nil map is `none`.
abbrev pub InsecureSecrets : Type 0
InsecureSecrets = Dict InsecureSecret

abbrev missing_configuration : SecretErr
missing_configuration = foreign "InsecureSecrets missing from configuration"

-- The loop over the keys of one secret, with `results` and `missingKeys`.
unfoldable pub collect :
    List String → Dict String → Dict String → List String → Dict String × List String
collect [] secret results missing = (results, missing)
collect (key ∷ keys) secret results missing = elim (lookup key secret) [
  | none ↦ collect keys secret results (missing ++ key ∷ [])
  | some value ↦ collect keys secret (insert key value results) missing
]

abbrev no_value : String → String
no_value keys = String.◌++◌ "No value for the keys: [" (String.◌++◌ keys "] exists")

abbrev no_secret : String → String
no_secret name =
    String.◌++◌ "Error, secretName (" (String.◌++◌ name ") doesn't exist in secret store")

-- What `GetSecret` answers after the loop.
abbrev pub conclude : String → List String → Bool → Dict String → Result (Dict String)
conclude name (key ∷ keys) exists results = failed (foreign (no_value (join (key ∷ keys))))
conclude name [] false results = failed (foreign (no_secret name))
conclude name [] true results = ok results

-- With no keys the secret is returned whole, and the loop goes on otherwise.
abbrev pub whole_or :
    List String → Result (Dict String) → Result (Dict String) → Result (Dict String)
whole_or [] whole rest = whole
whole_or (key ∷ keys) whole rest = rest

-- The loop of `GetSecret` over the secrets.
unfoldable pub scan :
    String → List String → InsecureSecrets → Dict String → Bool → List String → Result (Dict String)
unfolding collect merge
scan name keys [] results exists missing = conclude name missing exists results
scan name keys ((id, secret) ∷ secrets) results exists missing =
    let (found, absent) = collect keys secret.secret_data results missing in
    let next = scan name keys secrets found true absent in
    let other = scan name keys secrets results exists missing in
    if secret.secret_name == name
    then whole_or keys (ok (merge secret.secret_data results)) next
    else other

-- `GetSecret`
unfoldable pub get_secret : String → List String → Option InsecureSecrets → Result (Dict String)
unfolding scan
get_secret name keys none = failed missing_configuration
get_secret name keys (some secrets) = scan name keys secrets [] false []

unfoldable pub has_name : String → InsecureSecrets → Bool
has_name name [] = false
has_name name ((id, secret) ∷ secrets) =
    let rest = has_name name secrets in if secret.secret_name == name then true else rest

-- `HasSecret`
unfoldable pub has_secret : String → Option InsecureSecrets → Result Bool
unfolding has_name
has_secret name none = failed (foreign "InsecureSecret missing from configuration")
has_secret name (some secrets) = ok (has_name name secrets)

unfoldable pub names : InsecureSecrets → List String
names [] = []
names ((id, secret) ∷ secrets) = secret.secret_name ∷ names secrets

-- `ListSecretNames`
unfoldable pub list_secret_names : Option InsecureSecrets → Result (List String)
unfolding names
list_secret_names none = failed missing_configuration
list_secret_names (some secrets) = ok (names secrets)
