-- ===== src/Openbao/Tokens.antt =====
-- pkg/secrets/openbao/secrets.go: SetAuthToken, and the goroutines that renew the token.
use go_mod_edge_utils.Prelude.{
  ℕ, zero, suc, ◌*◌, ◌/◌, String, Bool, true, false, not, ◌||◌, Option, none, some, List, [], ◌∷◌,
  Dict, lookup, insert, delete, if◌then◌else◌, leb, ◌==◌, nat_eq,
}
use go_mod_edge_utils.Secret.{Result, ok, failed}

-- `types.TokenMetadata`, as far as it is used; in seconds.
pub record TokenMetadata : Type 0 where
  pub renewable : Bool
  pub period : ℕ
  pub ttl : ℕ

-- What `refreshToken` does with a token: nothing, or renew it at an interval, and at once if its
-- time is nearly over.
pub data Plan : Type 0 where
  no_renewal : Plan
  renew_later renew_now : ℕ → Plan

-- A goroutine with `doTokenRefreshPeriodically`: the context that the `select` in which it waits
-- watches. This is the one that `c.context` was when it entered the `select`.
pub record Renewal : Type 0 where
  pub watches : ℕ

-- The client's token and contexts. A context is a number, `next` the next one, and
-- `cancel_funcs` is `secretStoreTokenToCancelFuncMap`.
pub record Client : Type 0 where
  pub auth_token : String
  pub cancel_funcs : Dict ℕ
  pub cancelled : List ℕ
  pub next : ℕ
  pub current : ℕ
  pub renewals : List Renewal

unfoldable pub is_in : ℕ → List ℕ → Bool
is_in c [] = false
is_in c (d ∷ ds) = d == c || is_in c ds

-- In nanoseconds, as durations are.
unfoldable pub plan : TokenMetadata → Plan
plan t =
    let interval = t.period * 1000000000 / 2 in
    if not t.renewable
    then no_renewal
    else if interval == 0
    then no_renewal
    else if leb (t.ttl * 1000000000) interval
    then renew_now interval
    else renew_later interval

abbrev pub cancel : Option ℕ → Client → Client
cancel none c = c
cancel (some ctx) c = record c { cancelled = ctx ∷ c.cancelled }

-- `c.context = ctx` and the start of the goroutine, which enters its `select`.
abbrev pub start_renewal : ℕ → Client → Client
start_renewal ctx c = record c { current = ctx; renewals = record { watches = ctx } ∷ c.renewals }

-- The end of `refreshToken`, given the result of `renewToken`.
unfoldable pub follow : Plan → Result Unit → ℕ → Client → Result Unit × Client
follow no_renewal renewed ctx c = (ok tt, c)
follow (renew_later interval) renewed ctx c = (ok tt, start_renewal ctx c)
follow (renew_now interval) (ok done) ctx c = (ok tt, start_renewal ctx c)
follow (renew_now interval) (failed e) ctx c = (failed e, c)

-- `refreshToken`, given the results of `getTokenDetails` and of `renewToken`.
unfoldable pub refresh_token :
    Result TokenMetadata → Result Unit → ℕ → Client → Result Unit × Client
unfolding plan follow
refresh_token (failed e) renewed ctx c = (failed e, c)
refresh_token (ok t) renewed ctx c = follow (plan t) renewed ctx c

abbrev pub register_context : ℕ → Result Unit × Client → Result Unit × Client
register_context ctx (ok done, c) =
    (ok done, record c { cancel_funcs = insert c.auth_token ctx c.cancel_funcs })
register_context ctx (failed e, c) = (
  failed e,
  record c { cancelled = ctx ∷ c.cancelled; cancel_funcs = delete c.auth_token c.cancel_funcs },
)

abbrev pub enter_token : String → Client → Client
enter_token token c = record c { auth_token = token; next = suc c.next }

-- The first locked part of `SetAuthToken`.
abbrev pub cancel_both : String → Client → Client
cancel_both token c =
    let c' = cancel (lookup c.auth_token c.cancel_funcs) c in
    cancel (lookup token c.cancel_funcs) c'

-- `SetAuthToken`
unfoldable pub set_auth_token :
    String → Result TokenMetadata → Result Unit → Client → Result Unit × Client
unfolding refresh_token
set_auth_token token details renewed c =
    register_context c.next
      (refresh_token details renewed c.next (enter_token token (cancel_both token c)))

-- The answer of the store to a tick's `renewToken`, and of the callback to a rejected token.
pub data Renewed : Type 0 where
  renewed broken : Renewed
  forbidden : Option (String × Bool) → Renewed

abbrev pub replace_token : Option (String × Bool) → Client → Client × Bool
replace_token none c = (c, true)
replace_token (some (token, false)) c = (c, true)
replace_token (some (token, true)) c = (record c { auth_token = token }, false)

unfoldable pub watch_at : ℕ → ℕ → List Renewal → List Renewal
watch_at i ctx [] = []
watch_at zero ctx (r ∷ rs) = record { watches = ctx } ∷ rs
watch_at (suc i) ctx (r ∷ rs) = r ∷ watch_at i ctx rs

-- A goroutine that has renewed the token enters its `select` again, which reads `c.context` anew.
unfoldable pub enter_select : ℕ → Client → Client
unfolding watch_at
enter_select i c = record c { renewals = watch_at i c.current c.renewals }

-- A tick of `doTokenRefreshPeriodically`: the client after it, and whether the goroutine returns.
unfoldable pub tick : Renewed → Client → Client × Bool
tick renewed c = (c, false)
tick broken c = (c, true)
tick (forbidden answer) c = replace_token answer c
