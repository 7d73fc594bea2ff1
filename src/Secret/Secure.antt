-- ===== src/Secret/Secure.antt =====
-- pkg/bootstrap/secret/secure.go: the provider that caches the secrets of a secret store.
use Prim.Native.String.{◌++◌}
use go_mod_edge_utils.Prelude.{
  ℕ, suc, String, Bool, true, false, Option, none, some, List, [], Dict, ◌==◌, string_eq, not,
}
use go_mod_edge_utils.Secret.Client.{SecretClient, with_retry}
use go_mod_edge_utils.Secret.Cache.{get_secrets_cache, update_secrets_cache}
use go_mod_edge_utils.Secret.{
  SecretErr, foreign, secret_name_not_found, error_text, Result, ok, failed, callback_for,
}

-- `SecureProvider`. `load` is `loader.Load` of the configured token file. A map that the client
-- returns is kept as its contents, so what a caller writes later into a map it was given is not seen.
pub record SecureProvider (W : Type 0) (K : Type 0) : Type 0 where
  pub secret_client : Option (SecretClient W)
  pub load : W → Result String × W
  pub secrets_cache : Dict (Dict String)
  pub last_updated : ℕ
  pub callbacks : Dict K
  pub secrets_requested : ℕ
  pub secrets_stored : ℕ
  pub world : W

abbrev not_initialized : String → SecretErr
not_initialized what =
    foreign ("can't " ++ (what ++ ". Secure secret provider is not properly initialized"))

-- The token that `DefaultTokenExpiredCallback` gives, and whether to retry with it.
unfoldable pub replacement : String → Result String → String × Bool
replacement expired (ok token) = (token, not (token == expired))
replacement expired (failed e) = ("", false)

module _ {W K : Type 0} where
  -- `NewSecureProvider`, at the time `now`
  abbrev pub new_secure_provider : (W → Result String × W) → ℕ → W → SecureProvider W K
  new_secure_provider load now w = record {
    secret_client = none;
    load = load;
    secrets_cache = [];
    last_updated = now;
    callbacks = [];
    secrets_requested = 0;
    secrets_stored = 0;
    world = w;
  }

  -- `SetClient`
  abbrev pub set_client : SecretClient W → SecureProvider W K → SecureProvider W K
  set_client client p = record p { secret_client = some client }

  abbrev pub keep_secrets :
      String
      → SecureProvider W K
      → Result (Dict String) × W
      → Result (Dict String) × SecureProvider W K
  keep_secrets name p (ok s, w) =
      (ok s, record p { world = w; secrets_cache = update_secrets_cache name s p.secrets_cache })
  keep_secrets name p (failed e, w) = (failed e, record p { world = w })

  unfoldable pub from_client :
      Option (SecretClient W)
      → String
      → List String
      → SecureProvider W K
      → Result (Dict String) × SecureProvider W K
  unfolding with_retry
  from_client none name keys p = (failed (not_initialized "get secrets"), p)
  from_client (some client) name keys p =
      keep_secrets name p (with_retry client p.load (client.get_secret name keys) p.world)

  unfoldable pub from_cache :
      Option (Dict String)
      → String
      → List String
      → SecureProvider W K
      → Result (Dict String) × SecureProvider W K
  unfolding from_client
  from_cache (some s) name keys p = (ok s, p)
  from_cache none name keys p = from_client p.secret_client name keys p

  -- `GetSecret`, when no other call comes between its reading of the cache, its call of the client
  -- and its update of the cache. The map that is returned and cached is a value: what a caller would
  -- write to it is left out.
  unfoldable pub get_secret :
      String → List String → SecureProvider W K → Result (Dict String) × SecureProvider W K
  unfolding from_cache get_secrets_cache
  get_secret name keys p =
      from_cache (get_secrets_cache name keys p.secrets_cache) name keys
        (record p { secrets_requested = suc p.secrets_requested })

  abbrev pub has_name : Result (Dict String) × SecureProvider W K → Result Bool × SecureProvider W K
  has_name (ok s, p) = (ok true, p)
  has_name (failed (secret_name_not_found d), p) = (ok false, p)
  has_name (failed e, p) = (failed e, p)

  -- `HasSecret`
  unfoldable pub has_secret : String → SecureProvider W K → Result Bool × SecureProvider W K
  unfolding get_secret
  has_secret name p = has_name (get_secret name [] p)

  abbrev pub listed :
      SecureProvider W K → Result (List String) × W → Result (List String) × SecureProvider W K
  listed p (ok names, w) = (ok names, record p { world = w })
  listed p (failed e, w) = (
    failed (foreign ("unable to get secret secretNames: " ++ error_text e)),
    record p { world = w },
  )

  abbrev pub list_with :
      Option (SecretClient W) → SecureProvider W K → Result (List String) × SecureProvider W K
  list_with none p = (failed (not_initialized "get secret secretNames"), p)
  list_with (some client) p = listed p (with_retry client p.load client.get_secret_names p.world)

  -- `ListSecretNames`
  unfoldable pub list_secret_names : SecureProvider W K → Result (List String) × SecureProvider W K
  unfolding with_retry error_text
  list_secret_names p = list_with p.secret_client p

  abbrev pub replaced :
      String → SecureProvider W K → Result String × W → (String × Bool) × SecureProvider W K
  replaced expired p (r, w) = (replacement expired r, record p { world = w })

  -- `DefaultTokenExpiredCallback`
  unfoldable pub default_token_expired_callback :
      String → SecureProvider W K → (String × Bool) × SecureProvider W K
  unfolding replacement
  default_token_expired_callback expired p = replaced expired p (p.load p.world)

-- The operations that call the callbacks; `run_callback` is what a callback does, which may use the
-- provider, and `now` and `later` are what the clock reads.
module _ {W K : Type 0} (run_callback : K → String → SecureProvider W K → SecureProvider W K)
    (now later : ℕ) where
  abbrev pub call_callback : Option K → String → SecureProvider W K → SecureProvider W K
  call_callback none name p = p
  call_callback (some callback) name p = run_callback callback name p

  -- `SecretUpdatedAtSecretName`
  unfoldable pub secret_updated_at_secret_name : String → SecureProvider W K → SecureProvider W K
  unfolding callback_for
  secret_updated_at_secret_name name p =
      call_callback (callback_for name p.callbacks) name (record p { last_updated = now })

  abbrev pub clear_cache : SecureProvider W K → SecureProvider W K
  clear_cache p = record p { secrets_cache = []; last_updated = later }

  abbrev pub after_store :
      String → SecureProvider W K → Result Unit × W → Result Unit × SecureProvider W K
  after_store name p (ok stored, w) =
      (ok stored, clear_cache (secret_updated_at_secret_name name (record p { world = w })))
  after_store name p (failed e, w) = (failed e, record p { world = w })

  unfoldable pub store_with :
      Option (SecretClient W)
      → String
      → Dict String
      → SecureProvider W K
      → Result Unit × SecureProvider W K
  unfolding with_retry secret_updated_at_secret_name
  store_with none name secrets p = (failed (not_initialized "store secrets"), p)
  store_with (some client) name secrets p =
      after_store name p (with_retry client p.load (client.store_secret name secrets) p.world)

  -- `StoreSecret`
  unfoldable pub store_secret :
      String → Dict String → SecureProvider W K → Result Unit × SecureProvider W K
  unfolding store_with
  store_secret name secrets p =
      store_with p.secret_client name secrets (record p { secrets_stored = suc p.secrets_stored })
