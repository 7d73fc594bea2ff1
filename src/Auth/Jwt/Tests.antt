-- ===== src/Auth/Jwt/Tests.antt =====
-- Tokens of a small library.
pub mod Library
use go_mod_edge_utils.Prelude.{
  ℕ, ◌<◌, ℤ, pos, String, Option, none, some, [], ◌∷◌, lookup, ◌≡◌, refl, arith,
}
use go_mod_edge_utils.Errors.{GoError, nil}
use go_mod_edge_utils.Auth.Jwt.{
  get_token_string_from_request, validate_access_token, validate_refresh_token, key_func,
  unexpected, claim_access_id,
}
use go_mod_edge_utils.Auth.Jwt.Creation.{create_token, access_claims, refresh_claims}
use go_mod_edge_utils.Auth.Jwt.Cookies.{set_tokens_to_cookie, get_tokens_from_cookie, sent_back}
use go_mod_edge_utils.Auth.Jwt.Validation.{IsOfToken, validate_access_token-IsOfToken}
use go_mod_edge_utils.Auth.Jwt.RoundTrip.{details, create_token_accepted}
use go_mod_edge_utils.Auth.Jwt.Tests.Library.{library, library-IsLawful, instant, bob, sign, parse}

bearer_token : get_token_string_from_request "f" "Bearer abc " ≡ ("abc", nil)
unfolding get_token_string_from_request
bearer_token = refl

cookie_tokens : get_tokens_from_cookie (sent_back (set_tokens_to_cookie bob [])) ≡ ("A", "R")
unfolding get_tokens_from_cookie set_tokens_to_cookie
cookie_tokens = refl

-- The asked for expiries are ignored.
abbrev hours : ℤ → ℤ
hours z = z

bob_access : sign (access_claims "bob" bob) "k" ≡ ("A", nil)
unfolding sign access_claims lookup
bob_access = refl

bob_refresh : sign (refresh_claims "bob" bob) "k" ≡ ("R", nil)
unfolding sign refresh_claims lookup
bob_refresh = refl

create_token_accepted_example :
    (create_token library "f" "1" "2" hours "bob" "k" "k" (some (pos 99)) none ≡ (some bob, nil))
    × (validate_access_token library "f" 1 "A" "k" ≡ ("1", "bob", nil))
    × (validate_refresh_token library "f" 1 "R" "k" ≡ ("2", "bob", nil))
    × (validate_access_token library "f" 1 "R" "k" ≡ unexpected library "f")
create_token_accepted_example =
    create_token_accepted library "f" 1 instant library-IsLawful "1" "2" hours "bob" "k" "k"
      (some (pos 99)) none "A" "R" bob_access bob_refresh refl refl (omega arith) (omega arith)

bob_valid : validate_access_token library "f" 1 "A" "k" ≡ ("1", "bob", nil)
unfolding validate_access_token parse
bob_valid = refl

validate_access_token-IsOfToken_example : IsOfToken library "f" 1 claim_access_id "A" "k" "1" "bob"
validate_access_token-IsOfToken_example =
    validate_access_token-IsOfToken library "f" 1 "A" "k" "1" "bob" bob_valid
