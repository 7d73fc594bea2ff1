-- ===== src/Openbao/Replacement.antt =====
-- Goroutines that renew a token and that SetAuthToken does not cancel.
use go_mod_edge_utils.Prelude.{
  ℕ, suc, ◌≡◌, refl, String, true, false, none, some, lookup, nat_eq, subst, ap, arith, string_eq,
  eq_iff, insert,
}
use go_mod_edge_utils.Secret.{Result, ok}
use go_mod_edge_utils.Openbao.Tokens.{
  TokenMetadata, renew_later, Client, is_in, plan, follow, refresh_token, set_auth_token, forbidden,
  tick, enter_select,
}
use go_mod_edge_utils.Openbao.Renewal.{live_renewals, new_client}

-- When a goroutine has replaced the rejected token by one that `SetAuthToken` has never seen, then
-- the next `SetAuthToken` with a token that it has never seen cancels no goroutine and starts one
-- more, since the contexts are kept under the tokens with which they were started.
pub set_auth_token_replaced :
    (c c' : Client) (replacement token : String) (t : TokenMetadata) (renewed : Result Unit)
    (interval : ℕ)
    → tick (forbidden (some (replacement, true))) c ≡ (c', false)
    → lookup replacement c.cancel_funcs ≡ none
    → lookup token c.cancel_funcs ≡ none
    → plan t ≡ renew_later interval
    → is_in c.next c.cancelled ≡ false
    → live_renewals (set_auth_token token (ok t) renewed c').1 ≡ suc (live_renewals c)
unfolding tick set_auth_token refresh_token
set_auth_token_replaced c c' replacement token t renewed interval ticked unknown new later fresh =
    subst (λ d. live_renewals (set_auth_token token (ok t) renewed d).1 ≡ suc (live_renewals c))
      (ap (λ r. r.0) ticked) (rw (unknown, new, later, follow, fresh) refl)

-- Let SetAuthToken start a goroutine on a new client, and then, called with another or the same
-- token, a second one. If the first waits in its select, only the second is not cancelled. But if the
-- first was renewing the token, it enters its select after the second call, watches the new context,
-- and both are not cancelled.
pub renewal_survives :
    (initial first second : String) (t u : TokenMetadata) (r s : Result Unit) (i j : ℕ)
    → plan t ≡ renew_later i
    → plan u ≡ renew_later j
    → let c = (set_auth_token first (ok t) r (new_client initial)).1 in
      let c' = (set_auth_token second (ok u) s c).1 in
      (live_renewals c ≡ 1) × (live_renewals c' ≡ 1) × (live_renewals (enter_select 1 c') ≡ 2)
unfolding set_auth_token refresh_token enter_select is_in lookup insert
renewal_survives initial first second t u r s i j later again =
    rw (later, again, follow)
      (
        ground (arith, eq_iff first first, eq_iff first second),
        ground (arith, eq_iff first first, eq_iff first second),
        ground (arith, eq_iff first first, eq_iff first second),
      )
