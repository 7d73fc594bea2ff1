-- ===== src/Auth/Jwt/Cookies.antt =====
-- pkg/auth/jwt/jwt.go: the cookies that carry the tokens.
use go_mod_edge_utils.Prelude.{
  ℤ, String, Bool, true, Option, some, List, [], ◌∷◌, ◌++◌, Dict, lookup, trim_space, map,
}
use go_mod_edge_utils.Auth.Jwt.{TokenDetails}

abbrev pub access_token_cookie : String
access_token_cookie = "IOTech_access_token"

abbrev pub refresh_token_cookie : String
refresh_token_cookie = "IOTech_refresh_token"

-- The fields of a cookie that are set; SameSite is always strict, `expires` is in Unix seconds.
pub record Cookie : Type 0 where
  pub name : String
  pub value : String
  pub path : String
  pub http_only : Bool
  pub same_site_strict : Bool
  pub expires : ℤ

abbrev token_cookie : String → String → ℤ → Cookie
token_cookie name value expires = record {
  name = name;
  value = value;
  path = "/";
  http_only = true;
  same_site_strict = true;
  expires = expires;
}

-- `SetTokensToCookie`, over the cookies of the response so far.
unfoldable pub set_tokens_to_cookie : TokenDetails → List Cookie → List Cookie
set_tokens_to_cookie t cookies =
    cookies
    ++ token_cookie access_token_cookie t.access_token t.at_expires
      ∷ token_cookie refresh_token_cookie t.refresh_token t.rt_expires
      ∷ []

-- `RemoveTokensFromCookie`
unfoldable pub remove_tokens_from_cookie : ℤ → ℤ → List Cookie → List Cookie
remove_tokens_from_cookie now later cookies =
    cookies
    ++ token_cookie access_token_cookie "" now ∷ token_cookie refresh_token_cookie "" later ∷ []

abbrev both_tokens : Option String → Option String → String × String
both_tokens (some access) (some refresh) = (trim_space access, trim_space refresh)
both_tokens _ _ = ("", "")

-- `GetTokensFromCookie`, from the cookies of the request by name.
unfoldable pub get_tokens_from_cookie : Dict String → String × String
unfolding lookup trim_space
get_tokens_from_cookie cookies =
    both_tokens (lookup access_token_cookie cookies) (lookup refresh_token_cookie cookies)

-- A browser sends back the names and the values.
abbrev pub sent_back : List Cookie → Dict String
sent_back cookies = map (λ (c : Cookie). (c.name, c.value)) cookies
