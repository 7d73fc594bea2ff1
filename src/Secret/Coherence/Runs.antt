-- ===== src/Secret/Coherence/Runs.antt =====
-- Every use of the provider keeps the cache coherent.
use go_mod_edge_utils.Prelude.{
  ap, ℕ, suc, ◌≡◌, refl, ◌∙◌, sym, subst, String, Option, none, some, List, [], ◌∷◌, Dict,
}
use go_mod_edge_utils.Secret.{
  SecretErr, Result, ok, failed, callback_for, secret_name_not_found, secret_store,
  secrets_not_found, foreign,
}
use go_mod_edge_utils.Secret.Client.{SecretClient, with_retry}
use go_mod_edge_utils.Secret.Secure.{
  SecureProvider, get_secret, from_cache, store_secret, store_with, after_store, list_secret_names,
  has_secret, default_token_expired_callback, secret_updated_at_secret_name, has_name, list_with,
  listed, call_callback, clear_cache, replaced,
}
use go_mod_edge_utils.Secret.Calls.{
  Call, get, store, has, list, token_expired, add_callback, remove_callback, step, run,
}
use go_mod_edge_utils.Secret.Cache.{get_secrets_cache}
use go_mod_edge_utils.Secret.Coherence.{IsCoherent, moved, from_client-IsCoherent}
use go_mod_edge_utils.Secret.Retry.{with_retry-Attempt}
use go_mod_edge_utils.Secret.Retry.Keeps.{StoreLaws, Keeps, Attempt-Keeps, loaded-Keeps}

-- A callback may use the provider, but gives it no other client and no other token loader.
abbrev pub KeepsClient : {W K : Type 0} → (SecureProvider W K → SecureProvider W K) → Type 0
KeepsClient {W} {K} f =
    (p : SecureProvider W K) → ((f p).secret_client ≡ p.secret_client) × ((f p).load ≡ p.load)

module _ {W K : Type 0} (Holds : W → String → String → String → Type 0) (client : SecretClient W)
    (load : W → Result String × W) (laws : StoreLaws Holds client load)
    (run_callback : K → String → SecureProvider W K → SecureProvider W K)
    (safe : (k : K) (name : String) → KeepsClient (run_callback k name)) where
  abbrev pub Coherent : SecureProvider W K → Type 0
  Coherent = IsCoherent Holds client load laws

  from_cache-IsCoherent :
      (o : Option (Dict String)) (name : String) (keys : List String) (p : SecureProvider W K)
      → Coherent p
      → Coherent (from_cache o name keys p).1
  unfolding from_cache
  from_cache-IsCoherent (some s) name keys p h = h
  from_cache-IsCoherent none name keys p h =
      from_client-IsCoherent Holds client load laws p.secret_client name keys p refl h

  get_secret-IsCoherent :
      (name : String) (keys : List String) (p : SecureProvider W K)
      → Coherent p
      → Coherent (get_secret name keys p).1
  unfolding get_secret
  get_secret-IsCoherent name keys p h =
      from_cache-IsCoherent (get_secrets_cache name keys p.secrets_cache) name keys
        (record p { secrets_requested = suc p.secrets_requested })
        (record { cached = h.cached; uses = h.uses; loads = h.loads })

  has_name-IsCoherent :
      (r : Result (Dict String) × SecureProvider W K) → Coherent r.1 → Coherent (has_name r).1
  has_name-IsCoherent (ok s, p) h = h
  has_name-IsCoherent (failed (secret_store d), p) h = h
  has_name-IsCoherent (failed (secrets_not_found ks), p) h = h
  has_name-IsCoherent (failed (secret_name_not_found d), p) h = h
  has_name-IsCoherent (failed (foreign d), p) h = h

  listed-IsCoherent :
      (p : SecureProvider W K) (r : Result (List String) × W)
      → Keeps Holds client load laws p.world r.1
      → Coherent p
      → Coherent (listed p r).1
  listed-IsCoherent p (ok names, u) keep h = moved Holds client load laws p u keep h
  listed-IsCoherent p (failed e, u) keep h = moved Holds client load laws p u keep h

  list_with-IsCoherent :
      (o : Option (SecretClient W)) (p : SecureProvider W K)
      → p.secret_client ≡ o
      → Coherent p
      → Coherent (list_with o p).1
  list_with-IsCoherent none p e h = h
  list_with-IsCoherent (some c) p e h =
      subst
        (λ l.
          IsCoherent Holds client load laws
            (listed p (with_retry c l c.get_secret_names p.world)).1)
        (sym h.loads)
        (subst
          (λ d.
            IsCoherent Holds client load laws
              (listed p (with_retry d load d.get_secret_names p.world)).1)
          (sym (h.uses c e))
          (listed-IsCoherent p (with_retry client load client.get_secret_names p.world)
            (Attempt-Keeps Holds client load laws client.get_secret_names laws.names_keep p.world _
              (with_retry-Attempt client load client.get_secret_names p.world))
            h))

  -- Whatever the callback does: the cache is empty after it.
  called-IsCoherent :
      (now later : ℕ) (o : Option K) (name : String) (p : SecureProvider W K)
      → ((c : SecretClient W) → p.secret_client ≡ some c → c ≡ client)
      → p.load ≡ load
      → Coherent
          (clear_cache run_callback now later (call_callback run_callback now later o name p))
  called-IsCoherent now later none name p uses loads = record {
    cached = tt;
    uses = uses;
    loads = loads;
  }
  called-IsCoherent now later (some k) name p uses loads = record {
    cached = tt;
    uses = λ c e. uses c (sym (safe k name p).0 ∙ e);
    loads = (safe k name p).1 ∙ loads;
  }

  updated-IsCoherent :
      (now later : ℕ) (name : String) (p : SecureProvider W K) (u : W)
      → Coherent p
      → Coherent (
          clear_cache run_callback now later
            (secret_updated_at_secret_name run_callback now later name (record p { world = u })))
  unfolding secret_updated_at_secret_name
  updated-IsCoherent now later name p u h =
      called-IsCoherent now later (callback_for name p.callbacks) name
        (record p { world = u; last_updated = now }) h.uses h.loads

  after_store-IsCoherent :
      (now later : ℕ) (name : String) (p : SecureProvider W K) (r : Result Unit × W)
      → ((u : W) (e : SecretErr) → r ≡ (failed e, u) → Keeps Holds client load laws p.world u)
      → Coherent p
      → Coherent (after_store run_callback now later name p r).1
  after_store-IsCoherent now later name p (ok t, u) keep h = updated-IsCoherent now later name p u h
  after_store-IsCoherent now later name p (failed e, u) keep h =
      moved Holds client load laws p u (keep u e refl) h

  store_with-IsCoherent :
      (now later : ℕ) (o : Option (SecretClient W)) (name : String) (secrets : Dict String)
      (p : SecureProvider W K)
      → ((e : SecretErr)
          → (store_with run_callback now later o name secrets p).0 ≡ failed e
          → Keeps Holds client load laws p.world
              (store_with run_callback now later o name secrets p).1.world)
      → Coherent p
      → Coherent (store_with run_callback now later o name secrets p).1
  unfolding store_with
  store_with-IsCoherent now later none name secrets p keep h = h
  store_with-IsCoherent now later (some c) name secrets p keep h =
      let after : Result Unit × W → Result Unit × SecureProvider W K =
        after_store run_callback now later name p in
      after_store-IsCoherent now later name p
        (with_retry c p.load (c.store_secret name secrets) p.world)
        (λ u e failing.
          subst (λ r. Keeps Holds client load laws p.world (after r).1.world) failing
            (keep e (ap (λ r. (after r).0) failing)))
        h

  replaced-IsCoherent :
      (expired : String) (p : SecureProvider W K) (r : Result String × W)
      → load p.world ≡ r
      → Coherent p
      → Coherent (replaced expired p r).1
  replaced-IsCoherent expired p (r, u) e h =
      moved Holds client load laws p u (loaded-Keeps Holds client load laws p.world u r e) h

  -- A StoreSecret that fails leaves the secrets of the store as they were.
  abbrev pub IsSafe : Call K → SecureProvider W K → Type 0
  IsSafe (store name secrets now later) p =
      (e : SecretErr)
      → (store_secret run_callback now later name secrets p).0 ≡ failed e
      → Keeps Holds client load laws p.world
          (store_secret run_callback now later name secrets p).1.world
  IsSafe _ p = Unit

  abbrev pub AllSafe : List (Call K) → SecureProvider W K → Type 0
  AllSafe [] p = Unit
  AllSafe (c ∷ cs) p = IsSafe c p × AllSafe cs (step run_callback c p)

  step-IsCoherent :
      (c : Call K) (p : SecureProvider W K)
      → IsSafe c p
      → Coherent p
      → Coherent (step run_callback c p)
  unfolding step
  step-IsCoherent (get name keys) p fails h = get_secret-IsCoherent name keys p h
  step-IsCoherent (has name) p fails h =
      unfold has_secret in
      has_name-IsCoherent (get_secret name [] p) (get_secret-IsCoherent name [] p h)
  step-IsCoherent list p fails h =
      unfold list_secret_names in list_with-IsCoherent p.secret_client p refl h
  step-IsCoherent (store name secrets now later) p fails h =
      unfold store_secret in
      store_with-IsCoherent now later p.secret_client name secrets
        (record p { secrets_stored = suc p.secrets_stored }) (unfold store_secret in fails)
        (record { cached = h.cached; uses = h.uses; loads = h.loads })
  step-IsCoherent (token_expired expired) p fails h =
      unfold default_token_expired_callback in
      subst (λ l. Coherent (replaced expired p (l p.world)).1) (sym h.loads)
        (replaced-IsCoherent expired p (load p.world) refl h)
  step-IsCoherent (add_callback name callback) p fails h = record {
    cached = h.cached;
    uses = h.uses;
    loads = h.loads;
  }
  step-IsCoherent (remove_callback name) p fails h = record {
    cached = h.cached;
    uses = h.uses;
    loads = h.loads;
  }

  pub run-IsCoherent :
      (cs : List (Call K)) (p : SecureProvider W K)
      → AllSafe cs p
      → Coherent p
      → Coherent (run run_callback cs p)
  unfolding run
  run-IsCoherent [] p fails h = h
  run-IsCoherent (c ∷ cs) p fails h =
      run-IsCoherent cs (step run_callback c p) fails.1 (step-IsCoherent c p fails.0 h)
