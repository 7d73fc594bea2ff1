-- ===== src/Auth/Jwt/Validation.antt =====
-- What a token that is accepted is, and what the tokens of CreateToken are accepted as.
use go_mod_edge_utils.Prelude.{
  ℕ, ◌≤◌, String, Bool, true, false, not, ◌||◌, Option, none, some, lookup, ltb, ◌==◌, string_eq,
  eq_iff, Bool-cases, inl, inr, ◌≡◌, ◌≢◌, refl, ap, arith,
}
use go_mod_edge_utils.Errors.{GoError, nil, foreign, base, http, new_base_error, base_error_wrapper}
use go_mod_edge_utils.Auth.Jwt.{
  JwtLibrary, Method, hmac, other_method, Key, key, no_key, Claim, text, flag, number, other_claim,
  Claims, Token, Parsed, parsed, parse_error, key_func, validate_token, validate_access_token,
  unauthorized, invalid_msg, checked, issued, not_expired, ids_in, ids_of, iotech_issuer,
  claim_access_id, claim_username,
}

module _ (lib : JwtLibrary) (frame : String) (now : ℕ) where
  -- A function that gives the secret key for HMAC and no key for any other signing method.
  abbrev pub IsHmacOnly : String → (Method → Key) → Type 0
  IsHmacOnly secret_key find =
      (find hmac ≡ key secret_key)
      × ((alg : String) → (e : GoError) × (find (other_method alg) ≡ no_key e) × (e ≢ nil))

  -- A token that the library finds valid, with the secret key for HMAC only, issued by IOTech, and
  -- not expired.
  pub record IsAccepted (token_string secret_key : String) (claims : Claims) : Type 0 where
    pub token : Token
    pub find : Method → Key
    pub for_hmac : IsHmacOnly secret_key find
    pub parses : lib.parse token_string find ≡ parsed token
    pub valid : token.valid ≡ true
    pub of_claims : token.claims ≡ claims
    pub issuer_iotech : lib.get_issuer claims ≡ (iotech_issuer, nil)
    pub exp : ℕ
    pub expires : lib.get_expiration_time claims ≡ (some exp, nil)
    pub not_before : now ≤ exp

  key_func-IsHmacOnly : (secret_key : String) → IsHmacOnly secret_key (key_func secret_key)
  unfolding key_func
  key_func-IsHmacOnly secret_key = (refl, (λ alg. (_, refl, (λ h. cc))))

  not_expired-ok :
      (claim claims : Claims) (r : Option ℕ × GoError)
      → not_expired lib frame now claim r ≡ (claims, nil)
      → (claim ≡ claims) × ((exp : ℕ) × (r ≡ (some exp, nil)) × (now ≤ exp))
  unfolding new_base_error
  not_expired-ok claim claims (none, nil) h = absurd (cc)
  not_expired-ok claim claims (some exp, nil) h = elim (Bool-cases (ltb exp now)) [
    | inl late ↦ absurd (ground (arith, late))
    | inr soon ↦ (ground (arith, soon), (exp, refl, ground (arith, soon)))
  ]
  not_expired-ok claim claims (r, foreign s e) h = absurd (ground arith)
  not_expired-ok claim claims (r, base b e) h = absurd (ground arith)
  not_expired-ok claim claims (r, http b e n) h = absurd (ground arith)

  issued-ok :
      (claim claims : Claims) (r : String × GoError)
      → issued lib frame now claim r ≡ (claims, nil)
      → (r ≡ (iotech_issuer, nil))
        × (not_expired lib frame now claim (lib.get_expiration_time claim) ≡ (claims, nil))
  unfolding new_base_error
  issued-ok claim claims (iss, nil) h = elim (Bool-cases (iss == iotech_issuer)) [
    | inl same ↦ (ap (λ s. (s, nil)) ((eq_iff iss iotech_issuer).0 same), rw same at h)
    | inr not_same ↦ absurd (ground (arith, not_same))
  ]
  issued-ok claim claims (r, foreign s e) h = absurd (ground arith)
  issued-ok claim claims (r, base b e) h = absurd (ground arith)
  issued-ok claim claims (r, http b e n) h = absurd (ground arith)

  checked-ok :
      (r : Parsed) (claims : Claims)
      → checked lib frame now r ≡ (claims, nil)
      → (t : Token) × (r ≡ parsed t)
        × (t.valid ≡ true)
        × (issued lib frame now t.claims (lib.get_issuer t.claims) ≡ (claims, nil))
  unfolding new_base_error
  checked-ok (parse_error e) claims h = absurd (ground arith)
  checked-ok (parsed t) claims h = elim (Bool-cases (not t.has_map_claims || not t.valid)) [
    | inl bad ↦ absurd (failed (rw bad at h))
    | inr good ↦ (t, refl, valid_of t.has_map_claims t.valid good, rw good at h)
  ]
    where
      failed : unauthorized lib frame invalid_msg nil ≢ (claims, nil)
      failed p = ground arith

      valid_of : (a b : Bool) → (not a || not b) ≡ false → b ≡ true
      valid_of a b e = ground arith

  validate_token-IsAccepted :
      (s k : String) (claims : Claims)
      → validate_token lib frame now s k ≡ (claims, nil)
      → IsAccepted s k claims
  unfolding validate_token
  validate_token-IsAccepted s k claims h =
      let (t, p, v, i) = checked-ok (lib.parse s (key_func k)) claims h in
      let (iss, n) = issued-ok t.claims claims (lib.get_issuer t.claims) i in
      let (same, (exp, e, soon)) =
        not_expired-ok t.claims claims (lib.get_expiration_time t.claims) n in
      record {
        token = t;
        find = key_func k;
        for_hmac = key_func-IsHmacOnly k;
        parses = p;
        valid = v;
        of_claims = same;
        issuer_iotech = rw same at iss;
        exp = exp;
        expires = rw same at e;
        not_before = soon;
      }

  -- The id and the name of the user come out of the claims.
  ids_of-ok :
      (a b : Option Claim) (id user : String)
      → ids_of lib frame a b ≡ (id, user, nil)
      → (a ≡ some (text id)) × (b ≡ some (text user))
  unfolding new_base_error
  ids_of-ok (some (text s)) (some (text t)) id user h = (ground arith, ground arith)
  ids_of-ok (some (text s)) (some (flag t)) id user h = absurd (ground arith)
  ids_of-ok (some (text s)) (some (number t)) id user h = absurd (ground arith)
  ids_of-ok (some (text s)) (some other_claim) id user h = absurd (ground arith)
  ids_of-ok (some (text s)) none id user h = absurd (ground arith)
  ids_of-ok (some (flag s)) b id user h = absurd (ground arith)
  ids_of-ok (some (number s)) b id user h = absurd (ground arith)
  ids_of-ok (some other_claim) b id user h = absurd (ground arith)
  ids_of-ok none b id user h = absurd (ground arith)

  ids_in-ok :
      (name : String) (r : Claims × GoError) (id user : String)
      → ids_in lib frame name r ≡ (id, user, nil)
      → (claims : Claims) × (r ≡ (claims, nil))
        × (lookup name claims ≡ some (text id))
        × (lookup claim_username claims ≡ some (text user))
  unfolding base_error_wrapper
  ids_in-ok name (claims, nil) id user h =
      let (a, b) = ids_of-ok (lookup name claims) (lookup claim_username claims) id user h in
      (claims, refl, a, b)
  ids_in-ok name (claims, foreign s e) id user h = absurd (ground arith)
  ids_in-ok name (claims, base b e) id user h = absurd (ground arith)
  ids_in-ok name (claims, http b e n) id user h = absurd (ground arith)

  -- When ValidateAccessToken or ValidateRefreshToken returns without an error, the library has found
  -- the token valid with a key function that gives the secret key for HMAC only, it is issued by
  -- IOTech, has not expired, and the id and the name are those of its claims.
  abbrev pub IsOfToken : String → String → String → String → String → Type 0
  IsOfToken id_name s k id user =
      (claims : Claims) × IsAccepted s k claims
      × (lookup id_name claims ≡ some (text id))
      × (lookup claim_username claims ≡ some (text user))

  ids_in-IsOfToken :
      (id_name s k id user : String)
      → ids_in lib frame id_name (validate_token lib frame now s k) ≡ (id, user, nil)
      → IsOfToken id_name s k id user
  ids_in-IsOfToken id_name s k id user h =
      let (claims, v, a, b) = ids_in-ok id_name (validate_token lib frame now s k) id user h in
      (claims, validate_token-IsAccepted s k claims v, a, b)

  -- When ValidateAccessToken returns without an error, the library has found the token valid by a
  -- key function that gives the secret key for HMAC and an error for every other signing method,
  -- the token is issued by IOTech and has not expired, and the id and the name are those of its
  -- claims.
  pub validate_access_token-IsOfToken :
      (s k id user : String)
      → validate_access_token lib frame now s k ≡ (id, user, nil)
      → IsOfToken claim_access_id s k id user
  unfolding validate_access_token
  validate_access_token-IsOfToken s k id user h = ids_in-IsOfToken claim_access_id s k id user h
