-- ===== src/Secret/Seeding.antt =====
-- pkg/bootstrap/secret/types.go and secure.go: the secrets of a service that are stored from a file
-- when it starts.
pub mod Scrubbing
pub mod File
use Prim.Native.String
use go_mod_edge_utils.Prelude.{
  trim_space, ℕ, suc, String, Bool, true, false, ◌&&◌, ◌||◌, not, Option, none, some, List, [], ◌∷◌,
  ◌++◌, Dict, length, leb, if◌then◌else◌, ◌==◌, nat_eq, string_eq,
}
use go_mod_edge_utils.Secret.{SecretErr, foreign, error_text, Result, ok, failed}
use go_mod_edge_utils.Secret.Cache.{merge}
use go_mod_edge_utils.Secret.Secure.{SecureProvider, store_secret}

-- `ServiceSecret`, with the pairs of `models.SecretDataKeyValue`.
pub record ServiceSecret : Type 0 where
  pub secret_name : String
  pub imported : Bool
  pub secret_data : List (String × String)

-- `prepareSecret`
unfoldable pub prepare_secret : ServiceSecret → String × Dict String
unfolding trim_space merge
prepare_secret s = (trim_space s.secret_name, merge s.secret_data [])

abbrev pub no_data : ServiceSecret → SecretErr
no_data s = foreign (
    String.◌++◌ "SecretData for '"
      (String.◌++◌ s.secret_name "' must not be empty when Imported=false"))

-- The validation that `UnmarshalServiceSecretsJson` does itself, after that of the library.
unfoldable pub validation_errs : List ServiceSecret → List SecretErr
validation_errs [] = []
validation_errs (s ∷ secrets) =
    let rest = validation_errs secrets in
    if not s.imported && length s.secret_data == 0 then no_data s ∷ rest else rest

-- `Imported = true` and an empty list in place of the data.
abbrev pub scrubbed : ServiceSecret → ServiceSecret
scrubbed s = record s { imported = true; secret_data = [] }

abbrev not_stored : ServiceSecret → SecretErr → SecretErr
not_stored s e = foreign (
    String.◌++◌ "failed to store secret for '"
      (String.◌++◌ s.secret_name (String.◌++◌ "': " (error_text e))))

module _ {W K : Type 0} (run_callback : K → String → SecureProvider W K → SecureProvider W K)
    (clock : ℕ → ℕ × ℕ) where
  -- `StoreSecret` of one secret, the `i`-th time that the clock is read.
  unfoldable pub store_one :
      ℕ → ServiceSecret → SecureProvider W K → Result Unit × SecureProvider W K
  unfolding store_secret prepare_secret
  store_one i s p =
      let (name, data_) = prepare_secret s in
      let (now, later) = clock i in store_secret run_callback now later name data_ p

  abbrev pub stored :
      ServiceSecret
      → Result Unit × SecureProvider W K
      → ServiceSecret × List SecretErr × SecureProvider W K
  stored s (ok done, p) = (scrubbed s, [], p)
  stored s (failed e, p) = (s, not_stored s e ∷ [], p)

  -- A round of the loop: the secret to be written back, the error if there is one.
  unfoldable pub seed_one :
      ℕ → ServiceSecret → SecureProvider W K → ServiceSecret × List SecretErr × SecureProvider W K
  unfolding store_one
  seed_one i s p = if s.imported then (s, [], p) else stored s (store_one i s p)

  -- The loop of `seedSecrets`.
  unfoldable pub seed_secrets :
      ℕ
      → List ServiceSecret
      → SecureProvider W K
      → List ServiceSecret × List SecretErr × SecureProvider W K
  unfolding seed_one
  seed_secrets i [] p = ([], [], p)
  seed_secrets i (s ∷ secrets) p =
      let (written, errs, q) = seed_one i s p in
      let (rest, more, r) = seed_secrets (suc i) secrets q in (written ∷ rest, errs ++ more, r)
