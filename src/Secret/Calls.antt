-- ===== src/Secret/Calls.antt =====
-- The uses of one SecureProvider, one after another.
use go_mod_edge_utils.Prelude.{ℕ, String, List, [], ◌∷◌, Dict}
use go_mod_edge_utils.Secret.{register, deregister}
use go_mod_edge_utils.Secret.Secure.{
  SecureProvider, get_secret, store_secret, list_secret_names, has_secret,
  default_token_expired_callback,
}

-- A call of an operation; `store` has the readings of the clock.
pub data Call (K : Type 0) : Type 0 where
  get : String → List String → Call K
  store : String → Dict String → ℕ → ℕ → Call K
  has : String → Call K
  list : Call K
  token_expired : String → Call K
  add_callback : String → K → Call K
  remove_callback : String → Call K

module _ {W K : Type 0} (run_callback : K → String → SecureProvider W K → SecureProvider W K) where
  unfoldable pub step : Call K → SecureProvider W K → SecureProvider W K
  unfolding get_secret store_secret list_secret_names has_secret default_token_expired_callback
      register deregister
  step (get name keys) p = (get_secret name keys p).1
  step (store name secrets now later) p = (store_secret run_callback now later name secrets p).1
  step (has name) p = (has_secret name p).1
  step list p = (list_secret_names p).1
  step (token_expired expired) p = (default_token_expired_callback expired p).1
  step (add_callback name callback) p = record p {
    callbacks = (register name callback p.callbacks).1;
  }
  step (remove_callback name) p = record p { callbacks = deregister name p.callbacks }

  unfoldable pub run : List (Call K) → SecureProvider W K → SecureProvider W K
  unfolding step
  run [] p = p
  run (c ∷ cs) p = run cs (step c p)
