-- ===== src/Secret/Coherence/Answers.antt =====
-- What `GetSecret` answers after any use of the provider.
use go_mod_edge_utils.Prelude.{
  suc, ◌≡◌, refl, sym, ap, subst, String, Option, none, some, List, Dict, All, arith,
}
use go_mod_edge_utils.Secret.{SecretErr, Result, ok, failed}
use go_mod_edge_utils.Secret.Client.{SecretClient, with_retry}
use go_mod_edge_utils.Secret.Secure.{
  SecureProvider, get_secret, from_cache, from_client, keep_secrets,
}
use go_mod_edge_utils.Secret.Calls.{Call, run}
use go_mod_edge_utils.Secret.Cache.{get_secrets_cache}
use go_mod_edge_utils.Secret.Cache.Entries.{Admits, HasKey, get_secrets_cache-Admits}
use go_mod_edge_utils.Secret.Coherence.{IsCoherent, client_answers}
use go_mod_edge_utils.Secret.Coherence.Runs.{KeepsClient, AllSafe, run-IsCoherent}
use go_mod_edge_utils.Secret.Retry.Keeps.{StoreLaws}

same_ok : {A : Type 0} {a b : A} → ◌≡◌ {A = Result A} (ok a) (ok b) → a ≡ b
same_ok e = cc

no_ok : {A : Type 0} {a : A} {f : SecretErr} → ◌≡◌ {A = Result A} (failed f) (ok a) → ⊥
no_ok e = ground arith

module _ {W K : Type 0} (Holds : W → String → String → String → Type 0) (client : SecretClient W)
    (load : W → Result String × W) (laws : StoreLaws Holds client load) where
  -- An answer without an error: every key that was asked for, and values of the store only.
  abbrev pub Answers : String → List String → Result (Dict String) × SecureProvider W K → Type 0
  Answers name keys (r, q) =
      (s : Dict String) → r ≡ ok s → Admits (Holds q.world name) s × All (HasKey s) keys

  keep_secrets-Answers :
      (name : String) (keys : List String) (p : SecureProvider W K) (r : Result (Dict String) × W)
      → ((s : Dict String) (u : W) → r ≡ (ok s, u) → Admits (Holds u name) s × All (HasKey s) keys)
      → Answers name keys (keep_secrets name p r)
  keep_secrets-Answers name keys p (ok t, u) h s e =
      subst (λ d. Admits (Holds u name) d × All (HasKey d) keys) (same_ok e) (h t u refl)
  keep_secrets-Answers name keys p (failed f, u) h s e = absurd (no_ok e)

  from_client-Answers :
      (o : Option (SecretClient W)) (name : String) (keys : List String) (p : SecureProvider W K)
      → p.secret_client ≡ o
      → IsCoherent Holds client load laws p
      → Answers name keys (from_client o name keys p)
  unfolding from_client
  from_client-Answers none name keys p e h s f = absurd (no_ok f)
  from_client-Answers (some c) name keys p e h s f =
      let answers : Answers name keys
          (keep_secrets name p (with_retry c p.load (c.get_secret name keys) p.world)) =
        subst
          (λ l.
            Answers name keys
              (keep_secrets name p (with_retry c l (c.get_secret name keys) p.world)))
          (sym h.loads)
          (subst
            (λ d.
              Answers name keys
                (keep_secrets name p (with_retry d load (d.get_secret name keys) p.world)))
            (sym (h.uses c e))
            (keep_secrets-Answers name keys p
              (with_retry client load (client.get_secret name keys) p.world)
              (λ t u answered.
                client_answers Holds client load laws name keys p.world u t answered))) in
      answers s f

  from_cache-Answers :
      (o : Option (Dict String)) (name : String) (keys : List String) (p : SecureProvider W K)
      → get_secrets_cache name keys p.secrets_cache ≡ o
      → IsCoherent Holds client load laws p
      → Answers name keys (from_cache o name keys p)
  unfolding from_cache
  from_cache-Answers (some t) name keys p looked h s e =
      subst (λ d. Admits (Holds p.world name) d × All (HasKey d) keys) (same_ok e)
        (get_secrets_cache-Admits (Holds p.world) name keys p.secrets_cache t h.cached looked)
  from_cache-Answers none name keys p looked h s e =
      from_client-Answers p.secret_client name keys p refl h s e

  get_secret-Answers :
      (name : String) (keys : List String) (p : SecureProvider W K)
      → IsCoherent Holds client load laws p
      → Answers name keys (get_secret name keys p)
  unfolding get_secret
  get_secret-Answers name keys p h =
      from_cache-Answers (get_secrets_cache name keys p.secrets_cache) name keys
        (record p { secrets_requested = suc p.secrets_requested }) refl
        (record { cached = h.cached; uses = h.uses; loads = h.loads })

  -- Let the secret client answer with every key that was asked for and with values of the secret
  -- store, and let all its calls but those that store, and the token loader, leave the secrets of
  -- the store as they are. Then, after any sequence of calls of a provider whose cached values the
  -- store holds, each made while no other is under way, with callbacks that leave its client and
  -- its token loader, in which a StoreSecret that fails has not changed the store: a GetSecret
  -- without an error has every requested key and only values that the store holds at that time, out
  -- of the cache or not.
  pub get_secret-run :
      (run_callback : K → String → SecureProvider W K → SecureProvider W K) (cs : List (Call K))
      (p : SecureProvider W K) (name : String) (keys : List String) (s : Dict String)
      (after : SecureProvider W K)
      → (safe : (k : K) (n : String) → KeepsClient (run_callback k n))
      → AllSafe Holds client load laws run_callback safe cs p
      → IsCoherent Holds client load laws p
      → get_secret name keys (run run_callback cs p) ≡ (ok s, after)
      → Admits (Holds after.world name) s × All (HasKey s) keys
  get_secret-run run_callback cs p name keys s after safe fails h e =
      let q : SecureProvider W K = run run_callback cs p in
      let coherent : IsCoherent Holds client load laws q =
        run-IsCoherent Holds client load laws run_callback safe cs p fails h in
      subst (λ r. Admits (Holds r.1.world name) s × All (HasKey s) keys) e
        (get_secret-Answers name keys q coherent s (ap (λ r. r.0) e))
