-- ===== src/Secret/Retry.antt =====
-- The outcomes of a call of the secret client with `reloadTokenOnAuthError` after it.
pub mod Keeps
use go_mod_edge_utils.Prelude.{◌≡◌, refl, inl, inr, String, true, false, Bool-cases}
use go_mod_edge_utils.Secret.{SecretErr, Result, ok, failed}
use go_mod_edge_utils.Secret.Client.{
  SecretClient, is_auth_error, reload_token_on_auth_error, with_retry, conclude, reloaded,
  set_token, after_first,
}

module _ {W A : Type 0} (client : SecretClient W) (load : W → Result String × W)
    (call : W → Result A × W) (w : W) where
  -- What happened: the call succeeded, failed for good, or failed for a rejected token, after which
  -- the token was reloaded and set, and only then called once more.
  pub data Attempt : Result A × W → Type 0 where
    succeeded : {a : A} {u : W} → call w ≡ (ok a, u) → Attempt (ok a, u)
    refused :
        {e : SecretErr} {u : W}
        → call w ≡ (failed e, u)
        → is_auth_error e ≡ false
        → Attempt (failed e, u)
    no_token :
        {e f : SecretErr} {u v : W}
        → call w ≡ (failed e, u)
        → is_auth_error e ≡ true
        → load u ≡ (failed f, v)
        → Attempt (failed f, v)
    token_refused :
        {e f : SecretErr} {u v x : W} {token : String}
        → call w ≡ (failed e, u)
        → is_auth_error e ≡ true
        → load u ≡ (ok token, v)
        → client.set_auth_token token v ≡ (failed f, x)
        → Attempt (failed f, x)
    retried :
        {e : SecretErr} {u v x : W} {token : String} {set : Unit}
        → call w ≡ (failed e, u)
        → is_auth_error e ≡ true
        → load u ≡ (ok token, v)
        → client.set_auth_token token v ≡ (ok set, x)
        → Attempt (call x)

  token-Attempt :
      (e : SecretErr) (u v : W) (token : String) (o : Result Unit × W)
      → call w ≡ (failed e, u)
      → is_auth_error e ≡ true
      → load u ≡ (ok token, v)
      → client.set_auth_token token v ≡ o
      → Attempt (conclude call (failed e) (reloaded o))
  token-Attempt e u v token (ok set, x) first auth loaded accepted =
      retried first auth loaded accepted
  token-Attempt e u v token (failed f, x) first auth loaded rejected =
      token_refused first auth loaded rejected

  load-Attempt :
      (e : SecretErr) (u : W) (o : Result String × W)
      → call w ≡ (failed e, u)
      → is_auth_error e ≡ true
      → load u ≡ o
      → Attempt (conclude call (failed e) (set_token client o))
  load-Attempt e u (ok token, v) first auth loaded =
      token-Attempt e u v token (client.set_auth_token token v) first auth loaded refl
  load-Attempt e u (failed f, v) first auth loaded = no_token first auth loaded

  after_first-Attempt : (o : Result A × W) → call w ≡ o → Attempt (after_first client load call o)
  unfolding reload_token_on_auth_error
  after_first-Attempt (ok a, u) first = succeeded first
  after_first-Attempt (failed e, u) first = elim (Bool-cases (is_auth_error e)) [
    | inl auth ↦ rw auth (load-Attempt e u (load u) first auth refl)
    | inr other ↦ rw other (refused first other)
  ]

  -- Every call ends in one of the outcomes of `Attempt`: the call is made again only after a token
  -- was loaded and accepted, at most once, and the second result is the one that is returned.
  pub with_retry-Attempt : Attempt (with_retry client load call w)
  unfolding with_retry
  with_retry-Attempt = after_first-Attempt (call w) refl
