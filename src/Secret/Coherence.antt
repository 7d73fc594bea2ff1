-- ===== src/Secret/Coherence.antt =====
-- What the provider answers, out of its cache or not, is what the secret store has.
pub mod Runs
pub mod Answers
use go_mod_edge_utils.Prelude.{
  ℕ, suc, ◌≡◌, refl, ◌∙◌, sym, ap, subst, inl, inr, String, Bool, true, false, Option, none, some,
  List, [], ◌∷◌, Dict, arith, All, All-weaken,
}
use go_mod_edge_utils.Secret.{
  SecretErr, Result, ok, failed, callback_for, register, deregister, secret_name_not_found,
  secret_store, secrets_not_found, foreign,
}
use go_mod_edge_utils.Secret.Client.{SecretClient, with_retry}
use go_mod_edge_utils.Secret.Secure.{
  SecureProvider, get_secret, from_cache, from_client, keep_secrets, store_secret, store_with,
  after_store, list_secret_names, has_secret, default_token_expired_callback,
  secret_updated_at_secret_name,
}
use go_mod_edge_utils.Secret.Cache.{get_secrets_cache, update_secrets_cache}
use go_mod_edge_utils.Secret.Cache.Entries.{
  Admits, HasKey, get_secrets_cache-Admits, update_secrets_cache-Admits,
}
use go_mod_edge_utils.Secret.Retry.{Attempt, with_retry-Attempt}
use go_mod_edge_utils.Secret.Retry.Keeps.{
  StoreLaws, Keeps, Attempt-ok, Attempt-failed, Attempt-Keeps, loaded-Keeps, ok_failed,
}

module _ {W : Type 0} (Holds : W → String → String → String → Type 0) (client : SecretClient W)
    (load : W → Result String × W) (laws : StoreLaws Holds client load) where
  still_cached :
      (w u : W) (cache : Dict (Dict String))
      → Keeps Holds client load laws w u
      → Admits (λ n. Admits (Holds w n)) cache
      → Admits (λ n. Admits (Holds u n)) cache
  still_cached w u cache keep h =
      All-weaken _ _ cache (λ e. All-weaken _ _ e.1 (λ f. keep e.0 f.0 f.1)) h

  -- An answer of the client, after a retry or not, has what the store has.
  pub client_answers :
      (name : String) (keys : List String) (w u : W) (s : Dict String)
      → with_retry client load (client.get_secret name keys) w ≡ (ok s, u)
      → Admits (Holds u name) s × All (HasKey s) keys
  client_answers name keys w u s e =
      let call : W → Result (Dict String) × W = client.get_secret name keys in
      let (x, answered) =
        Attempt-ok Holds client load laws call w u s (with_retry client load call w)
          (with_retry-Attempt client load call w) e in
      laws.answers name keys x u s answered

module _ {W K : Type 0} (Holds : W → String → String → String → Type 0) (client : SecretClient W)
    (load : W → Result String × W) (laws : StoreLaws Holds client load) where
  -- Every cached value is in the store, and the provider uses the client and the loader of the laws.
  pub record IsCoherent (p : SecureProvider W K) : Type 0 where
    pub cached : Admits (λ n. Admits (Holds p.world n)) p.secrets_cache
    pub uses : (c : SecretClient W) → p.secret_client ≡ some c → c ≡ client
    pub loads : p.load ≡ load

  -- The provider with another world that keeps the secrets.
  pub moved :
      (p : SecureProvider W K) (u : W)
      → Keeps Holds client load laws p.world u
      → IsCoherent p
      → IsCoherent (record p { world = u })
  moved p u keep h = record {
    cached = still_cached Holds client load laws p.world u p.secrets_cache keep h.cached;
    uses = h.uses;
    loads = h.loads;
  }

  keep_secrets-IsCoherent :
      (name : String) (p : SecureProvider W K) (r : Result (Dict String) × W)
      → Keeps Holds client load laws p.world r.1
      → ((s : Dict String) (u : W) → r ≡ (ok s, u) → Admits (Holds u name) s)
      → IsCoherent p
      → IsCoherent (keep_secrets name p r).1
  keep_secrets-IsCoherent name p (ok s, u) keep answers h = record {
    cached =
        update_secrets_cache-Admits (Holds u) name s p.secrets_cache (answers s u refl)
          (still_cached Holds client load laws p.world u p.secrets_cache keep h.cached);
    uses = h.uses;
    loads = h.loads;
  }
  keep_secrets-IsCoherent name p (failed e, u) keep answers h = moved p u keep h

  pub from_client-IsCoherent :
      (o : Option (SecretClient W)) (name : String) (keys : List String) (p : SecureProvider W K)
      → p.secret_client ≡ o
      → IsCoherent p
      → IsCoherent (from_client o name keys p).1
  unfolding from_client
  from_client-IsCoherent none name keys p e h = h
  from_client-IsCoherent (some c) name keys p e h =
      let call : W → Result (Dict String) × W = client.get_secret name keys in
      subst
        (λ l. IsCoherent (keep_secrets name p (with_retry c l (c.get_secret name keys) p.world)).1)
        (sym h.loads)
        (subst
          (λ d.
            IsCoherent (keep_secrets name p (with_retry d load (d.get_secret name keys) p.world)).1)
          (sym (h.uses c e))
          (keep_secrets-IsCoherent name p (with_retry client load call p.world)
            (Attempt-Keeps Holds client load laws call (laws.get_keeps name keys) p.world _
              (with_retry-Attempt client load call p.world))
            (λ s u answered.
              (client_answers Holds client load laws name keys p.world u s answered).0)
            h))
