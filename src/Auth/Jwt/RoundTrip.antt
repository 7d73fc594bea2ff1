-- ===== src/Auth/Jwt/RoundTrip.antt =====
-- The tokens of CreateToken are accepted as what they are.
use go_mod_edge_utils.Prelude.{
  ℕ, ◌<◌, ℤ, pos, int_lt, String, true, Option, none, some, lookup, string_eq, ◌≡◌, refl, ap, ◌∙◌,
  arith,
}
use go_mod_edge_utils.Errors.{GoError, nil}
use go_mod_edge_utils.Auth.Jwt.{
  JwtLibrary, TokenDetails, Claim, text, flag, number, other_claim, Claims, Method, hmac, Key, key,
  parsed, key_func, validate_token, validate_access_token, validate_refresh_token, ids_in, ids_of,
  unexpected, issuer, iotech_issuer, claim_access_id, claim_refresh_id, claim_username, expires_at,
}
use go_mod_edge_utils.Auth.Jwt.Creation.{
  create_token, access_claims, refresh_claims, with_defaults_lem, signed,
}

abbrev pub as_text : Option Claim → Option String
as_text (some (text s)) = some s
as_text _ = none

-- The same issuer, ids and name.
abbrev pub SameTexts : Claims → Claims → Type 0
SameTexts c d =
    (as_text (lookup issuer c) ≡ as_text (lookup issuer d))
    × (as_text (lookup claim_access_id c) ≡ as_text (lookup claim_access_id d))
    × (as_text (lookup claim_refresh_id c) ≡ as_text (lookup claim_refresh_id d))
    × (as_text (lookup claim_username c) ≡ as_text (lookup claim_username d))

-- What the library does with a token that it has signed itself, that has not expired and has no
-- `nbf`: `instant` is the time of a number of seconds. The claims come back through JSON, the texts
-- among them unchanged, and a number of seconds that a float64 holds exactly.
pub record IsLawful (lib : JwtLibrary) (now : ℕ) (instant : ℤ → ℕ) : Type 0 where
  pub accepts :
      (c : Claims) (k s : String) (exp : ℤ) (find : Method → Key)
      → lib.signed_string c k ≡ (s, nil)
      → find hmac ≡ key k
      → lookup expires_at c ≡ some (number exp)
      → lookup "nbf" c ≡ none
      → int_lt exp (pos 9007199254740992) ≡ true
      → now < instant exp
      → (claims : Claims) × (lib.parse s find
          ≡ parsed (record { has_map_claims = true; claims = claims; valid = true }))
        × SameTexts claims c
        × (lib.get_expiration_time claims ≡ (some (instant exp), nil))
  pub gives_issuer :
      (c : Claims) (s : String) → as_text (lookup issuer c) ≡ some s → lib.get_issuer c ≡ (s, nil)

module _ (lib : JwtLibrary) (frame : String) (now : ℕ) (instant : ℤ → ℕ)
    (law : IsLawful lib now instant) where
  of_text : (o : Option Claim) (s : String) → as_text o ≡ some s → o ≡ some (text s)
  of_text (some (text t)) s h = ground arith
  of_text (some (flag b)) s h = absurd (cc)
  of_text (some (number z)) s h = absurd (cc)
  of_text (some other_claim) s h = absurd (cc)
  of_text none s h = absurd (cc)

  ids_of_no_id :
      (a b : Option Claim) → as_text a ≡ none → ids_of lib frame a b ≡ unexpected lib frame
  ids_of_no_id (some (text t)) b h = absurd (cc)
  ids_of_no_id (some (flag t)) b h = refl
  ids_of_no_id (some (number t)) b h = refl
  ids_of_no_id (some other_claim) b h = refl
  ids_of_no_id none b h = refl

  -- What validateToken gives for a token that was signed with the claims `c`.
  validate_signed :
      (c : Claims) (k s : String) (exp : ℤ)
      → lib.signed_string c k ≡ (s, nil)
      → lookup expires_at c ≡ some (number exp)
      → as_text (lookup issuer c) ≡ some iotech_issuer
      → lookup "nbf" c ≡ none
      → int_lt exp (pos 9007199254740992) ≡ true
      → now < instant exp
      → (claims : Claims) × (validate_token lib frame now s k ≡ (claims, nil)) × SameTexts claims c
  unfolding validate_token
  validate_signed c k s exp e x i at_once exact soon =
      let (claims, p, same, t) =
        law.accepts c k s exp (key_func k) e (unfold key_func in refl) x at_once exact soon in
      (
        claims,
        rw (p, law.gives_issuer claims iotech_issuer (same.0 ∙ i), t) (ground (arith, soon)),
        same,
      )

  ids_in_texts :
      (id_name id user : String) (r : Claims × GoError) (claims : Claims)
      → r ≡ (claims, nil)
      → as_text (lookup id_name claims) ≡ some id
      → as_text (lookup claim_username claims) ≡ some user
      → ids_in lib frame id_name r ≡ (id, user, nil)
  ids_in_texts id_name id user r claims e a b =
      rw (e, of_text (lookup id_name claims) id a, of_text (lookup claim_username claims) user b)

  ids_in_no_id :
      (id_name : String) (r : Claims × GoError) (claims : Claims)
      → r ≡ (claims, nil)
      → as_text (lookup id_name claims) ≡ none
      → ids_in lib frame id_name r ≡ unexpected lib frame
  ids_in_no_id id_name r claims e a =
      rw e (ids_of_no_id (lookup id_name claims) (lookup claim_username claims) a)

  module _ (access_id refresh_id : String) (after_hours : ℤ → ℤ) (name k rk : String)
      (at_hours rt_hours : Option ℤ) (access refresh : String) where
    -- The details that CreateToken makes.
    abbrev pub details : TokenDetails
    details = record {
      access_id = access_id;
      access_token = access;
      at_expires = after_hours (pos 2);
      refresh_id = refresh_id;
      refresh_token = refresh;
      rt_expires = after_hours (pos 168);
    }

    created :
        lib.signed_string (access_claims name details) k ≡ (access, nil)
        → lib.signed_string (refresh_claims name details) rk ≡ (refresh, nil)
        → create_token lib frame access_id refresh_id after_hours name k rk at_hours rt_hours
          ≡ (some details, nil)
    unfolding create_token
    created a r =
        ap (signed lib frame access_id refresh_id after_hours name k rk)
          (with_defaults_lem lib frame access_id refresh_id after_hours at_hours rt_hours)
        ∙ rw (a, r)

    -- With a library that accepts a token that it has signed itself, with the claims unchanged, if
    -- it has not expired, has no nbf and expires at a time that a float64 holds: before two hours
    -- have passed, the tokens of CreateToken are accepted, the access token as one with its id and
    -- name, and the refresh token as one with its id and name, while the refresh token is no access
    -- token, even with its own key. The access token expires after two hours and the refresh token
    -- after a week, whatever expiries were asked for.
    pub create_token_accepted :
        lib.signed_string (access_claims name details) k ≡ (access, nil)
        → lib.signed_string (refresh_claims name details) rk ≡ (refresh, nil)
        → int_lt (after_hours (pos 168)) (pos 9007199254740992) ≡ true
        → int_lt (after_hours (pos 2)) (pos 9007199254740992) ≡ true
        → now < instant (after_hours (pos 2))
        → now < instant (after_hours (pos 168))
        → (create_token lib frame access_id refresh_id after_hours name k rk at_hours rt_hours
            ≡ (some details, nil))
          × (validate_access_token lib frame now access k ≡ (access_id, name, nil))
          × (validate_refresh_token lib frame now refresh rk ≡ (refresh_id, name, nil))
          × (validate_access_token lib frame now refresh rk ≡ unexpected lib frame)
    unfolding validate_access_token validate_refresh_token access_claims refresh_claims lookup
    create_token_accepted a r rt_exact at_exact at_soon rt_soon =
        let (ac, av, at) =
          validate_signed (access_claims name details) k access (after_hours (pos 2)) a refl refl
            refl at_exact at_soon in
        let (rc, rv, rt) =
          validate_signed (refresh_claims name details) rk refresh (after_hours (pos 168)) r refl
            refl refl rt_exact rt_soon in
        (
          created a r,
          ids_in_texts claim_access_id access_id name (validate_token lib frame now access k) ac av
              at.1 at.3,
          ids_in_texts claim_refresh_id refresh_id name (validate_token lib frame now refresh rk) rc
              rv rt.2 rt.3,
          ids_in_no_id claim_access_id (validate_token lib frame now refresh rk) rc rv rt.1,
        )
