-- ===== src/Secret/Tests.antt =====
-- Both providers at concrete secrets.
mod Memory
use go_mod_edge_utils.Prelude.{
  ℕ, zero, suc, ◌≡◌, refl, ◌⊎◌, inl, inr, ap, String, Bool, Option, none, some, List, [], ◌∷◌, Dict,
  insert, lookup, All, All-weaken, arith, subst, if◌then◌else◌, ◌==◌, string_eq, length, true,
  false,
}
use go_mod_edge_utils.Secret.{
  SecretErr, foreign, secret_name_not_found, Result, ok, failed, callback_for, register, deregister,
  wildcard_name, error_text,
}
use go_mod_edge_utils.Secret.Cache.{get_secrets_cache, scan_keys, merge}
use go_mod_edge_utils.Secret.Cache.Entries.{Admits, HasKey, get_secrets_cache-Admits}
use go_mod_edge_utils.Secret.Client.{SecretClient, with_retry, is_auth_error}
use go_mod_edge_utils.Secret.Secure.{
  SecureProvider, new_secure_provider, set_client, get_secret, store_secret, clear_cache,
}
use go_mod_edge_utils.Secret.Calls.{step, Call, get, store, run}
use go_mod_edge_utils.Secret.Retry.{Attempt, with_retry-Attempt}
use go_mod_edge_utils.Secret.Retry.Keeps.{StoreLaws}
use go_mod_edge_utils.Secret.Coherence.{IsCoherent}
use go_mod_edge_utils.Secret.Coherence.Runs.{AllSafe}
use go_mod_edge_utils.Secret.Coherence.Answers.{get_secret-run}
use go_mod_edge_utils.Secret.Callbacks.{first_of, register-deregister}
use go_mod_edge_utils.Secret.Stale.{store_secret_stale}
use go_mod_edge_utils.Secret.Tests.Memory.{Store, memory, load_token, InStore, memory-StoreLaws}
use go_mod_edge_utils.Secret.Seeding.{ServiceSecret, seed_secrets, validation_errs}
use go_mod_edge_utils.Secret.Seeding.Scrubbing.{
  AllWritten, unimported, seed_secrets-AllWritten, seed_secrets_again, seed_secrets-valid,
}
use go_mod_edge_utils.Secret.Seeding.File.{
  IsScrubbed, load_service_secrets, load_service_secrets-IsScrubbed,
}
use go_mod_edge_utils.Secret.Creation.{
  Round, config_failed, created, secure, connected, unconfigured, new_secret_provider,
  new_secret_provider_lem,
}
use go_mod_edge_utils.Secret.Insecure
use go_mod_edge_utils.Secret.Insecure.{InsecureSecret, InsecureSecrets}
use go_mod_edge_utils.Secret.Insecure.Lookups.{
  is_ok, member, names_agree, FoundIn, get_secret-FoundIn,
}

abbrev initial : SecureProvider Store String
initial = set_client memory (new_secure_provider load_token 0 (("db", ("user", "alice") ∷ []) ∷ []))

abbrev no_effect : String → String → SecureProvider Store String → SecureProvider Store String
no_effect k name p = p

abbrev calls : List (Call String)
calls = get "db" ("user" ∷ []) ∷ store "db" (("user", "bob") ∷ []) 1 2 ∷ []

abbrev last : Result (Dict String) × SecureProvider Store String
last = get_secret "db" ("user" ∷ []) (run no_effect calls initial)

initial-IsCoherent : IsCoherent InStore memory load_token memory-StoreLaws initial
initial-IsCoherent = record { cached = tt; uses = λ c e. same c e; loads = refl }
  where
    same : (c : SecretClient Store) → some memory ≡ some c → c ≡ memory
    same c e = cc

calls-AllSafe :
    AllSafe InStore memory load_token memory-StoreLaws no_effect
      (λ k n p. (refl, refl))
      calls
      initial
unfolding store_secret get_secret get_secrets_cache step lookup
calls-AllSafe = (tt, ((λ e h. cc), tt))

get_secret-run_example :
    Admits (InStore last.1.world "db") (("user", "bob") ∷ [])
    × All (HasKey (("user", "bob") ∷ [])) ("user" ∷ [])
unfolding run get_secret get_secrets_cache lookup insert
get_secret-run_example =
    get_secret-run InStore memory load_token memory-StoreLaws no_effect calls initial "db"
      ("user" ∷ []) (("user", "bob") ∷ []) last.1 (λ k n p. (refl, refl)) calls-AllSafe
      initial-IsCoherent refl

-- A client whose token is rejected until another is set.
abbrev rejected_at : ℕ → Result (Dict String)
rejected_at zero = failed (foreign "Received a '403' response")
rejected_at (suc n) = ok (("user", "alice") ∷ [])

abbrev flaky : SecretClient ℕ
flaky = record {
  get_secret = λ name keys w. (rejected_at w, w);
  store_secret = λ name s w. (ok tt, w);
  get_secret_names = λ w. (ok [], w);
  set_auth_token = λ token w. (ok tt, suc w);
}

abbrev load_newer : ℕ → Result String × ℕ
load_newer w = (ok "newer", w)

with_retry-Attempt_example :
    Attempt flaky load_newer (flaky.get_secret "db" []) 0 (ok (("user", "alice") ∷ []), 1)
unfolding with_retry is_auth_error
with_retry-Attempt_example = with_retry-Attempt flaky load_newer (flaky.get_secret "db" []) 0

abbrev everyone : Dict ℕ
everyone = (wildcard_name, 7) ∷ []

abbrev mine : ℕ
mine = 1

abbrev watched : SecureProvider Store String
watched = record initial {
  secrets_cache = ("db", ("user", "alice") ∷ []) ∷ [];
  callbacks = ("db", "notify") ∷ [];
}

store_secret_stale_example :
    (q : SecureProvider Store String) × (store_secret no_effect 1 2 "db"
        (("user", "bob") ∷ [])
        watched
      ≡ (ok tt, clear_cache no_effect 1 2 q))
    × (q.world ≡ insert "db" (("user", "bob") ∷ []) watched.world)
    × ((get_secret "db" ("user" ∷ []) q).0 ≡ ok (("user", "alice") ∷ []))
unfolding get_secrets_cache callback_for lookup insert
store_secret_stale_example =
    store_secret_stale no_effect 1 2 "db" ("user" ∷ []) (("user", "bob") ∷ [])
      (("user", "alice") ∷ []) watched memory (insert "db" (("user", "bob") ∷ []) watched.world)
      "notify" refl refl refl refl

abbrev configured : InsecureSecrets
configured = ("DB", record { secret_name = "db"; secret_data = ("user", "alice") ∷ [] }) ∷ []

get_secret-FoundIn_example :
    Admits (FoundIn "db" configured) (("user", "alice") ∷ [])
    × All (HasKey (("user", "alice") ∷ [])) ("user" ∷ [])
unfolding Insecure.get_secret lookup insert
get_secret-FoundIn_example =
    get_secret-FoundIn "db" "user" [] configured (("user", "alice") ∷ []) refl

abbrev seeds : List ServiceSecret
seeds =
    record { secret_name = " mail "; imported = false; secret_data = ("user", "carol") ∷ [] }
    ∷ record { secret_name = "old"; imported = true; secret_data = [] }
    ∷ []

abbrev ticking : ℕ → ℕ × ℕ
ticking i = (i, i)

seed_secrets-AllWritten_example :
    AllWritten no_effect ticking 0 initial seeds (seed_secrets no_effect ticking 0 seeds initial).0
    × (length (seed_secrets no_effect ticking 0 seeds initial).1
        ≡ unimported (seed_secrets no_effect ticking 0 seeds initial).0)
seed_secrets-AllWritten_example = seed_secrets-AllWritten no_effect ticking 0 seeds initial

seed_secrets_again_example :
    seed_secrets no_effect ticking 5 (seed_secrets no_effect ticking 0 seeds initial).0 initial
    ≡ ((seed_secrets no_effect ticking 0 seeds initial).0, [], initial)
unfolding seed_secrets
seed_secrets_again_example = seed_secrets_again no_effect ticking 0 5 seeds initial initial refl

abbrev unmarshal : String → Result (List ServiceSecret)
unmarshal contents = if contents == "seeds" then ok seeds else failed (foreign "invalid character")

abbrev marshal : List ServiceSecret → Result String
marshal secrets = ok "written"

load_service_secrets-IsScrubbed_example :
    IsScrubbed no_effect ticking unmarshal marshal initial "seeds"
      (load_service_secrets no_effect ticking unmarshal marshal false none "seeds" initial).0
    × ((load_service_secrets no_effect ticking unmarshal marshal false none "{" initial).0 ≡ "")
load_service_secrets-IsScrubbed_example =
    load_service_secrets-IsScrubbed no_effect ticking unmarshal marshal "seeds" "{"
      (foreign "invalid character") initial refl

abbrev unreachable : Round
unreachable = config_failed (foreign "no token file")

new_secret_provider_lem_example :
    (new_secret_provider true (ok tt) (unreachable ∷ created none ∷ []) ≡ ok (some secure))
    × (new_secret_provider true (ok tt) (unreachable ∷ unreachable ∷ [])
        ≡ failed (foreign "unable to create SecretClient: no token file"))
    × (new_secret_provider true (ok tt) [] ≡ ok none)
unfolding error_text
new_secret_provider_lem_example =
    new_secret_provider_lem (unreachable ∷ []) [] (created none) unreachable (ok (some secure))
      (foreign "no token file") ((foreign "no token file", unconfigured), tt) connected unconfigured
