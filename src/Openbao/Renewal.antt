-- ===== src/Openbao/Renewal.antt =====
-- How many goroutines renew the token: `SetAuthToken` cancels the one of the token before.
use go_mod_edge_utils.Prelude.{
  ℕ, suc, ◌≤◌, ◌≡◌, ◌⊎◌, String, true, some, List, [], ◌∷◌, lookup, if◌then◌else◌, nat_eq,
  string_eq, All,
}
use go_mod_edge_utils.Secret.{Result}
use go_mod_edge_utils.Openbao.Tokens.{TokenMetadata, Renewal, Client, is_in, set_auth_token}

-- A goroutine whose context is cancelled returns when it comes back to its `select`.
abbrev pub live : List ℕ → List Renewal → ℕ
live cancelled [] = 0
live cancelled (r ∷ rs) =
    if is_in r.watches cancelled then live cancelled rs else suc (live cancelled rs)

abbrev pub live_renewals : Client → ℕ
live_renewals c = live c.cancelled c.renewals

-- The calls of `SetAuthToken`, with what the store answers to them.
abbrev pub Setting : Type 0
Setting = String × Result TokenMetadata × Result Unit

unfoldable pub set_all : List Setting → Client → Client
set_all [] c = c
set_all ((token, details, renewed) ∷ ss) c = set_all ss (set_auth_token token details renewed c).1

-- `NewClient`
abbrev pub new_client : String → Client
new_client token = record {
  auth_token = token;
  cancel_funcs = [];
  cancelled = [];
  next = 1;
  current = 0;
  renewals = [];
}

Stopped : List ℕ → Renewal → Type 0
Stopped cancelled r = is_in r.watches cancelled ≡ true

-- A goroutine is cancelled or is the one that the client can cancel by its token.
abbrev Owned : Client → Type 0
Owned c =
    All (λ r. Stopped c.cancelled r ⊎ (lookup c.auth_token c.cancel_funcs ≡ some r.watches))
      c.renewals

abbrev AllStopped : Client → Type 0
AllStopped c = All (Stopped c.cancelled) c.renewals

-- One goroutine may be started, for the context that is entered under the token.
abbrev OneAtMost : Client → Type 0
OneAtMost c = Owned c × (live_renewals c ≤ 1)
