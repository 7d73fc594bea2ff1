-- ===== src/Auth/Jwt.antt =====
-- pkg/auth/jwt: jwt.go, types.go and constants.go over the library of JSON web tokens.
pub mod Validation
pub mod RoundTrip
pub mod Creation
pub mod Cookies
pub mod Tests
use Prim.Native.Char.{code}
use Prim.Native.String
use go_mod_edge_utils.Prelude.{
  ℕ, ℤ, pos, String, Bool, true, false, not, ◌||◌, Option, none, some, List, [], ◌∷◌, Dict, lookup,
  insert, ltb, trim_space, if◌then◌else◌, ◌==◌, string_eq, nat_eq, ◌≡◌,
}
use go_mod_edge_utils.Errors.{GoError, nil, foreign, new_base_error, base_error_wrapper}
use go_mod_edge_utils.Errors.Kinds.{kind_unauthorized, kind_server_error}

abbrev pub iotech_issuer : String
iotech_issuer = "IOTech"

abbrev pub authorized : String
authorized = "authorized"

abbrev pub claim_access_id : String
claim_access_id = "access_id"

abbrev pub claim_refresh_id : String
claim_refresh_id = "refresh_id"

abbrev pub claim_username : String
claim_username = "user_name"

abbrev pub expires_at : String
expires_at = "exp"

abbrev pub issuer : String
issuer = "iss"

abbrev pub auth_required_msg : String
auth_required_msg = "JWT Authentication required"

abbrev pub auth_revoked_msg : String
auth_revoked_msg = "authorization revoked"

abbrev pub fail_msg : String
fail_msg = "failed to sign and create token"

abbrev pub unexpected_msg : String
unexpected_msg = "unexpected result parsing token"

abbrev pub invalid_msg : String
invalid_msg = "invalid token"

-- The value of a claim: a text, a truth value, a number, or anything else.
pub data Claim : Type 0 where
  text : String → Claim
  flag : Bool → Claim
  number : ℤ → Claim
  other_claim : Claim

-- `jwt.MapClaims`
abbrev pub Claims : Type 0
Claims = Dict Claim

-- The signing method of a token, by its name unless it is one of HMAC.
pub data Method : Type 0 where
  hmac : Method
  other_method : String → Method

-- What the function that looks for the key returns.
pub data Key : Type 0 where
  key : String → Key
  no_key : GoError → Key

-- A token that was parsed: whether its claims are a MapClaims, the claims, and whether it is valid.
pub record Token : Type 0 where
  pub has_map_claims : Bool
  pub claims : Claims
  pub valid : Bool

pub data Parsed : Type 0 where
  parsed : Token → Parsed
  parse_error : GoError → Parsed

-- What the library of JSON web tokens gives: `SignedString` with HS256, `Parse`, `GetIssuer` and
-- `GetExpirationTime`, the last an instant of the clock that is also read for the time, and none for nil.
pub record JwtLibrary : Type 0 where
  pub signed_string : Claims → String → String × GoError
  pub parse : String → (Method → Key) → Parsed
  pub get_issuer : Claims → String × GoError
  pub get_expiration_time : Claims → Option ℕ × GoError

pub record TokenDetails : Type 0 where
  pub access_id : String
  pub access_token : String
  pub at_expires : ℤ
  pub refresh_id : String
  pub refresh_token : String
  pub rt_expires : ℤ

-- The function that `validateToken` gives to `Parse`.
unfoldable pub key_func : String → Method → Key
key_func secret_key hmac = key secret_key
key_func secret_key (other_method alg) =
    no_key (foreign (String.◌++◌ "unexpected signing method: " alg) nil)

-- `strings.TrimPrefix`
unfoldable pub strip : String → String → Option String
strip String.[] s = some s
strip (String.◌∷◌ c p) String.[] = none
strip (String.◌∷◌ c p) (String.◌∷◌ d s) =
    let rest = strip p s in if code c == code d then rest else none

abbrev pub trim_prefix : String → String → String
trim_prefix s p = elim (strip p s) [ none ↦ s | some rest ↦ rest ]

-- `GetTokenStringFromRequest`, from the Authorization header, which is empty if there is none.
unfoldable pub get_token_string_from_request : String → String → String × GoError
unfolding strip trim_space new_base_error
get_token_string_from_request frame auth =
    if auth == ""
    then ("", new_base_error frame kind_unauthorized auth_required_msg nil)
    else (trim_space (trim_prefix auth "Bearer"), nil)

module _ (lib : JwtLibrary) (frame : String) where
  abbrev pub unauthorized : String → GoError → Claims × GoError
  unauthorized msg e = ([], new_base_error frame kind_unauthorized msg e)

  -- From the expiration time on.
  abbrev pub not_expired : ℕ → Claims → Option ℕ × GoError → Claims × GoError
  not_expired now claim (none, nil) = unauthorized auth_revoked_msg nil
  not_expired now claim (some exp, nil) =
      if ltb exp now then unauthorized auth_revoked_msg nil else (claim, nil)
  not_expired now claim (exp, e) = unauthorized invalid_msg e

  -- From the issuer on.
  abbrev pub issued : ℕ → Claims → String × GoError → Claims × GoError
  issued now claim (iss, nil) =
      if iss == iotech_issuer
      then not_expired now claim (lib.get_expiration_time claim)
      else unauthorized unexpected_msg nil
  issued now claim (iss, e) = unauthorized invalid_msg e

  abbrev pub checked : ℕ → Parsed → Claims × GoError
  checked now (parse_error e) = unauthorized invalid_msg e
  checked now (parsed token) =
      if not token.has_map_claims || not token.valid
      then unauthorized invalid_msg nil
      else issued now token.claims (lib.get_issuer token.claims)

  -- `validateToken`
  unfoldable pub validate_token : ℕ → String → String → Claims × GoError
  unfolding key_func new_base_error
  validate_token now token_string secret_key =
      checked now (lib.parse token_string (key_func secret_key))

  abbrev pub unexpected : String × String × GoError
  unexpected = ("", "", new_base_error frame kind_server_error unexpected_msg nil)

  -- `claim[name].(string)` for the id and for the name of the user.
  abbrev pub ids_of : Option Claim → Option Claim → String × String × GoError
  ids_of (some (text id)) (some (text username)) = (id, username, nil)
  ids_of _ _ = unexpected

  abbrev pub ids_in : String → Claims × GoError → String × String × GoError
  ids_in id_name (claim, nil) = ids_of (lookup id_name claim) (lookup claim_username claim)
  ids_in id_name (claim, e) = ("", "", base_error_wrapper frame e)

  -- `ValidateAccessToken`
  unfoldable pub validate_access_token : ℕ → String → String → String × String × GoError
  unfolding validate_token lookup base_error_wrapper
  validate_access_token now token_string secret_key =
      ids_in claim_access_id (validate_token now token_string secret_key)

  -- `ValidateRefreshToken`
  unfoldable pub validate_refresh_token : ℕ → String → String → String × String × GoError
  unfolding validate_token lookup base_error_wrapper
  validate_refresh_token now token_string refresh_secret_key =
      ids_in claim_refresh_id (validate_token now token_string refresh_secret_key)
