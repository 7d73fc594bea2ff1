-- ===== src/Auth/Jwt/Creation.antt =====
-- pkg/auth/jwt/jwt.go: how tokens are created.
use go_mod_edge_utils.Prelude.{ℤ, pos, String, true, Option, none, some, [], insert, ◌≡◌, refl}
use go_mod_edge_utils.Errors.{GoError, nil, new_base_error}
use go_mod_edge_utils.Errors.Kinds.{kind_server_error}
use go_mod_edge_utils.Auth.Jwt.{
  JwtLibrary, TokenDetails, Claims, text, flag, number, issuer, iotech_issuer, authorized,
  claim_username, claim_access_id, claim_refresh_id, expires_at, fail_msg,
}

-- A new token has neither texts nor times.
abbrev blank : TokenDetails
blank = record {
  access_id = "";
  access_token = "";
  at_expires = pos 0;
  refresh_id = "";
  refresh_token = "";
  rt_expires = pos 0;
}

-- `atClaims` of `CreateToken`
unfoldable pub access_claims : String → TokenDetails → Claims
unfolding insert
access_claims name td = insert expires_at (number td.at_expires) (
    insert claim_access_id (text td.access_id) (
      insert claim_username (text name)
        (insert authorized (flag true) (insert issuer (text iotech_issuer) []))))

-- `rtClaims` of `CreateToken`
unfoldable pub refresh_claims : String → TokenDetails → Claims
unfolding insert
refresh_claims name td = insert expires_at (number td.rt_expires) (
    insert claim_refresh_id (text td.refresh_id)
      (insert claim_username (text name) (insert issuer (text iotech_issuer) [])))

-- Two random ids, and the second that lies some hours behind the time of the call.
module _ (lib : JwtLibrary) (frame : String) (access_id refresh_id : String)
    (after_hours : ℤ → ℤ) where
  -- The times that are asked for.
  abbrev with_at : Option ℤ → TokenDetails → TokenDetails
  with_at none td = td
  with_at (some hours) td = record td { at_expires = after_hours hours }

  abbrev with_rt : Option ℤ → TokenDetails → TokenDetails
  with_rt none td = td
  with_rt (some hours) td = record td { rt_expires = after_hours hours }

  -- The ids and the default times, which are set whatever was asked for.
  abbrev pub with_defaults : TokenDetails → TokenDetails
  with_defaults td = record td {
    access_id = access_id;
    at_expires = after_hours (pos 2);
    refresh_id = refresh_id;
    rt_expires = after_hours (pos 168);
  }

  -- A result is a pointer, nil with an error.
  abbrev pub failed : GoError → Option TokenDetails × GoError
  failed e = (none, new_base_error frame kind_server_error fail_msg e)

  abbrev pub with_refresh : TokenDetails → String × GoError → Option TokenDetails × GoError
  with_refresh td (token, nil) = (some (record td { refresh_token = token }), nil)
  with_refresh td (token, e) = failed e

  abbrev pub with_access :
      String → String → TokenDetails → String × GoError → Option TokenDetails × GoError
  with_access name refresh_secret_key td (token, nil) =
      with_refresh (record td { access_token = token })
        (lib.signed_string (refresh_claims name td) refresh_secret_key)
  with_access name refresh_secret_key td (token, e) = failed e

  abbrev pub signed : String → String → String → TokenDetails → Option TokenDetails × GoError
  signed name secret_key refresh_secret_key td =
      with_access name refresh_secret_key td (lib.signed_string (access_claims name td) secret_key)

  -- `CreateToken`
  unfoldable pub create_token :
      String → String → String → Option ℤ → Option ℤ → Option TokenDetails × GoError
  unfolding access_claims refresh_claims new_base_error
  create_token name secret_key refresh_secret_key at_expires_from_now re_expires_from_now =
      signed name secret_key refresh_secret_key
        (with_defaults (with_rt re_expires_from_now (with_at at_expires_from_now blank)))

  -- The times that were asked for leave no trace.
  pub with_defaults_lem :
      (at rt : Option ℤ)
      → with_defaults (with_rt rt (with_at at blank)) ≡ record {
        access_id = access_id;
        access_token = "";
        at_expires = after_hours (pos 2);
        refresh_id = refresh_id;
        refresh_token = "";
        rt_expires = after_hours (pos 168);
      }
  with_defaults_lem none none = refl
  with_defaults_lem none (some rt) = refl
  with_defaults_lem (some at) none = refl
  with_defaults_lem (some at) (some rt) = refl
