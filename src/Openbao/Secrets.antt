-- ===== src/Openbao/Secrets.antt =====
-- pkg/secrets/openbao/secrets.go: GetSecret, StoreSecret and GetSecretNames over the replies of the store.
pub mod Filtering
use Prim.Native.String
use go_mod_edge_utils.Prelude.{
  ℕ, ◌<◌, String, Bool, true, false, ◌||◌, Option, none, some, List, [], ◌∷◌, ◌++◌, Dict, lookup,
  insert, decimal, ltb, if◌then◌else◌, ◌==◌, nat_eq,
}
use go_mod_edge_utils.Secret.{
  SecretErr, secret_store, secrets_not_found, secret_name_not_found, foreign, error_text, Result,
  ok, failed,
}

-- A value of the JSON data: a string or anything else.
pub data Json : Type 0 where
  text : String → Json
  other : Json

-- What becomes of a request: its URL or body cannot be built, `HttpCaller.Do` fails, or there is a
-- status with a body of type `B` that may not decode.
pub data Reply (B : Type 0) : Type 0 where
  not_sent no_reply : SecretErr → Reply B
  reply : ℕ → Result B → Reply B

abbrev received : ℕ → String
received status =
    String.◌++◌ "Received a '" (String.◌++◌ (decimal status) "' response from the secret store")

abbrev pub is_success : ℕ → Bool
is_success status = if ltb status 200 then false else ltb status 300

abbrev pub refused_or : {A : Type 0} → ℕ → Result A → Result A
refused_or status r = if is_success status then r else failed (secret_store (received status))

-- The tests of the status in `getSecretData` and `getAllKeyNames`.
unfoldable pub checked : {A : Type 0} → ℕ → Result A → Result A
checked status r =
    if status == 404 then failed (secret_name_not_found (received status)) else refused_or status r

-- The loop that casts the values; `none` is the panic of `v.(string)`.
unfoldable pub cast : Dict Json → Option (Dict String)
cast [] = some []
cast ((key, text value) ∷ data_) = elim (cast data_) [
  | none ↦ none
  | some rest ↦ some ((key, value) ∷ rest)
]
cast ((key, other) ∷ data_) = none

abbrev no_values : String → SecretErr
no_values name =
    secret_store
      (String.◌++◌ "No secretKeyValues are present at the secretName: '" (String.◌++◌ name "'"))

abbrev pub cast_ok : Option (Dict String) → Option (Result (Dict String))
cast_ok none = none
cast_ok (some d) = some (ok d)

-- The end of `getSecretData`; the body is the "data" of the reply, or `none` if it is no object.
abbrev pub values_of : String → Result (Option (Dict Json)) → Option (Result (Dict String))
values_of name (failed e) = some (failed e)
values_of name (ok none) = some (failed (no_values name))
values_of name (ok (some [])) = some (failed (no_values name))
values_of name (ok (some (kv ∷ data_))) = cast_ok (cast (kv ∷ data_))

-- `getSecretData`; `none` is a panic.
unfoldable pub get_secret_data : String → Reply (Option (Dict Json)) → Option (Result (Dict String))
unfolding checked cast
get_secret_data name (not_sent e) = some (failed e)
get_secret_data name (no_reply e) = some (failed e)
get_secret_data name (reply status body) = values_of name (checked status body)

-- The loop of `GetSecret` over the keys, with `values` and `notFound`.
unfoldable pub filter_keys :
    List String → Dict String → Dict String → List String → Dict String × List String
filter_keys [] data_ values not_found = (values, not_found)
filter_keys (key ∷ keys) data_ values not_found = elim (lookup key data_) [
  | none ↦ filter_keys keys data_ values (not_found ++ key ∷ [])
  | some value ↦ filter_keys keys data_ (insert key value values) not_found
]

abbrev pub found_all : Dict String × List String → Result (Dict String)
found_all (values, []) = ok values
found_all (values, key ∷ keys) = failed (secrets_not_found (key ∷ keys))

abbrev pub filtered : List String → Result (Dict String) → Result (Dict String)
filtered keys (failed e) = failed e
filtered [] (ok data_) = ok data_
filtered (key ∷ keys) (ok data_) = found_all (filter_keys (key ∷ keys) data_ [] [])

abbrev pub after_data : List String → Option (Result (Dict String)) → Option (Result (Dict String))
after_data keys none = none
after_data keys (some r) = some (filtered keys r)

-- `GetSecret`, given the reply of the store; `none` is a panic.
unfoldable pub get_secret :
    String → List String → Reply (Option (Dict Json)) → Option (Result (Dict String))
unfolding get_secret_data filter_keys
get_secret name keys r = after_data keys (get_secret_data name r)

-- `StoreSecret`, given the reply to its request; nothing is sent for no secrets.
unfoldable pub store : Dict String → Reply Unit → Result Unit
store [] r = ok tt
store (kv ∷ secrets) (not_sent e) = failed e
store (kv ∷ secrets) (no_reply e) = failed e
store (kv ∷ secrets) (reply status body) = refused_or status (ok tt)

-- `GetSecretNames`; the body is the list under "keys", which is nil if there is none.
unfoldable pub get_secret_names : Reply (List String) → Result (List String)
unfolding checked error_text
get_secret_names (not_sent e) = failed e
get_secret_names (no_reply e) =
    failed (foreign (String.◌++◌ "unable to get all paths: " (error_text e)))
get_secret_names (reply status body) = checked status body
