-- ===== src/Secret/Stale.antt =====
-- What a callback of `StoreSecret` sees of the cache.
use go_mod_edge_utils.Prelude.{ℕ, suc, ◌≡◌, refl, String, some, List, Dict}
use go_mod_edge_utils.Secret.{ok, callback_for}
use go_mod_edge_utils.Secret.Client.{SecretClient, with_retry}
use go_mod_edge_utils.Secret.Secure.{
  SecureProvider, get_secret, from_cache, store_secret, store_with, clear_cache,
  secret_updated_at_secret_name,
}
use go_mod_edge_utils.Secret.Cache.{get_secrets_cache}

-- The store accepts the new secrets and the callback of the name is called with a provider that is
-- already over the changed store but has the old cache: a key that was cached is still answered with
-- the old value, and only after the callback is the cache cleared.
pub store_secret_stale :
    {W K : Type 0} (run_callback : K → String → SecureProvider W K → SecureProvider W K)
    (now later : ℕ) (name : String) (keys : List String) (secrets old : Dict String)
    (p : SecureProvider W K) (client : SecretClient W) (u : W) (callback : K)
    → p.secret_client ≡ some client
    → client.store_secret name secrets p.world ≡ (ok tt, u)
    → get_secrets_cache name keys p.secrets_cache ≡ some old
    → callback_for name p.callbacks ≡ some callback
    → (q : SecureProvider W K) × (store_secret run_callback now later name secrets p
        ≡ (ok tt, clear_cache run_callback now later (run_callback callback name q)))
      × (q.world ≡ u)
      × ((get_secret name keys q).0 ≡ ok old)
unfolding store_secret store_with secret_updated_at_secret_name with_retry get_secret from_cache
store_secret_stale run_callback now later name keys secrets old p client u callback has accepted
      cached called =
    (
      record p { world = u; last_updated = now; secrets_stored = suc p.secrets_stored },
      rw (has, accepted, called) refl,
      refl,
      rw cached refl,
    )
