-- ===== src/Openbao/Identity/Confirmed.antt =====
-- What GetSelfJWT and IsJWTValid of pkg/secrets/openbao/secrets.go promise when they succeed.
use go_mod_edge_utils.Prelude.{
  ℕ, ◌≡◌, refl, sym, subst, ◌∙◌, ap, ◌≤◌, inl, inr, String, true, not, ◌||◌, Option, none, some,
  List, [], ◌∷◌, leb, ltb, string_eq, Bool-cases, arith,
}
use go_mod_edge_utils.Rest.Requests.{Try, done, raised, ◌>>=◌, ◌>>◌, Request, Response}
use go_mod_edge_utils.Openbao.Identity.{
  SecretConfig, StoreErr, Asked, Store, url_of, build_url, as_foreign, requested, identity_headers,
  ask, success_or, read, marshalled, introspection, get_self_jwt, is_jwt_valid,
}
use go_mod_edge_utils.Openbao.Identity.Built.{
  bound_done, foreign_done, IsConfigured, build_url_done,
}

module _ (store : Store) (c : SecretConfig) where
  open store use {
    join, parse_error, new_request, caller, marshal_token, decode_token, decode_active,
  }

  requested_done :
      (method url : String) (body : Option String) {req : Request}
      → requested store c method (identity_headers store c) body url ≡ done req
      → req ≡ record { method = method; url = url; body = body; headers = identity_headers store c }
  requested_done method url body h = made (new_request method url body) h
    where
      made :
          (t : Try String (Unit {0})) {req : Request}
          → (as_foreign "" t
              >> done (record {
                method = method;
                url = url;
                body = body;
                headers = identity_headers store c;
              }))
            ≡ done req
          → req
            ≡ record { method = method; url = url; body = body; headers = identity_headers store c }
      made (done u) h = cc
      made (raised t) h = cc

  read_done :
      {A : Type 0} (decode : String → Try String A) (resp : Response) {a : A}
      → read store c decode resp ≡ done a
      → (body : String) × (resp.body ≡ done body) × (decode body ≡ done a)
  read_done decode resp h = bound_done resp.body decode (foreign_done "" (resp.body >>= decode) h)

  success_done :
      {A : Type 0} (status : ℕ) (r : Try StoreErr A) {a : A}
      → success_or store c status r ≡ done a
      → (200 ≤ status) × (status ≤ 299) × (r ≡ done a)
  success_done status r h = elim (Bool-cases (ltb status 200 || not (leb status 299))) [
    | inl bad ↦ cc (h, bad)
    | inr good ↦ (ground arith, ground arith, rw good at h)
  ]

  -- The request that was sent with the token of the client, and the answer of the store, which is a
  -- success with a body that decodes to the result.
  abbrev pub IsConfirmed :
      {A : Type 0}
      → String
      → String
      → (Option String → Type 0)
      → (String → Try String A)
      → A
      → List Request
      → Type 0
  IsConfirmed method path Body decode a sent =
      IsConfigured c
      × (req : Request) × (sent ≡ req ∷ [])
      × (req.method ≡ method)
      × (req.url ≡ url_of c path)
      × Body req.body
      × (req.headers ≡ identity_headers store c)
      × (resp : Response) × (body : String) × (caller req ≡ done resp)
      × (200 ≤ resp.status_code)
      × (resp.status_code ≤ 299)
      × (resp.body ≡ done body)
      × (decode body ≡ done a)

  module _ {A : Type 0} (decode : String → Try String A) where
    abbrev answer : Response → Try StoreErr A
    answer resp = success_or store c resp.status_code (read store c decode resp)

    abbrev asked : Try StoreErr Request → Asked A
    asked t = ask store c "unable to get all paths: " answer t

    asked_done :
        (method path : String) (Body : Option String → Type 0) (t : Try StoreErr Request) {a : A}
        → ((req : Request)
            → t ≡ done req
            → IsConfigured c
              × (body : Option String) × Body body
              × (req ≡ record {
                method = method;
                url = url_of c path;
                body = body;
                headers = identity_headers store c;
              }))
        → (asked t).result ≡ done a
        → IsConfirmed method path Body decode a (asked t).sent
    asked_done method path Body (raised e) made h = cc
    asked_done method path Body (done req) made h =
        let (resp, replied, used) =
          bound_done (as_foreign "unable to get all paths: " (caller req)) answer h in
        let (low, high, was_read) = success_done resp.status_code (read store c decode resp) used in
        let (text, whole, decoded) = read_done decode resp was_read in
        let (configured, body, proper, same) = made req refl in
        (
          configured,
          req,
          refl,
          ap (λ r. r.method) same,
          ap (λ r. r.url) same,
          subst Body (sym (ap (λ (r : Request). r.body) same)) proper,
          ap (λ r. r.headers) same,
          resp,
          text,
          foreign_done "unable to get all paths: " (caller req) replied,
          low,
          high,
          whole,
          decoded,
        )

  located_done :
      (method path : String) (body : Option String) {req : Request}
      → (build_url parse_error c path >>= requested store c method (identity_headers store c) body)
        ≡ done req
      → IsConfigured c
        × (req ≡ record {
          method = method;
          url = url_of c path;
          body = body;
          headers = identity_headers store c;
        })
  located_done method path body h =
      let (url, built, asked_for) = bound_done (build_url parse_error c path) _ h in
      let (configured, same) = build_url_done parse_error c path built in
      (
        configured,
        requested_done method url body asked_for
            ∙ ap
                (λ u. record {
                  method = method;
                  url = u;
                  body = body;
                  headers = identity_headers store c;
                })
                same,
      )

  marshalled_done :
      (t : Try String String) {payload : String}
      → marshalled store c t ≡ done payload
      → t ≡ done payload
  marshalled_done (done payload) h = cc
  marshalled_done (raised e) h = cc

  -- The body of the introspection of a token.
  abbrev pub IsIntrospection : String → Option String → Type 0
  IsIntrospection jwt body =
      (payload : String) × (marshal_token jwt ≡ done payload) × (body ≡ some payload)

  introspection_done :
      (jwt : String) (req : Request)
      → introspection store c jwt ≡ done req
      → IsConfigured c
        × (body : Option String) × IsIntrospection jwt body
        × (req ≡ record {
          method = "POST";
          url = url_of c "/v1/identity/oidc/introspect";
          body = body;
          headers = identity_headers store c;
        })
  introspection_done jwt req h =
      let (url, built, rest) =
        bound_done (build_url parse_error c "/v1/identity/oidc/introspect") _ h in
      let (payload, encoded, asked_for) =
        bound_done (marshalled store c (marshal_token jwt)) _ rest in
      let (configured, same) = build_url_done parse_error c "/v1/identity/oidc/introspect" built in
      (
        configured,
        some payload,
        (payload, marshalled_done (marshal_token jwt) encoded, refl),
        requested_done "POST" url (some payload) asked_for
            ∙ ap
                (λ u. record {
                  method = "POST";
                  url = u;
                  body = some payload;
                  headers = identity_headers store c;
                })
                same,
      )

  -- IsJWTValid answers true without an error only if the settings of the store are complete, one
  -- request was sent, a POST to its introspection with the token as the body and with the headers of
  -- the client, and the store answered with a success whose body says that the token is active.
  -- Likewise GetSelfJWT gives a token only out of the success of a GET for the service key.
  pub identity-IsConfirmed :
      (jwt service_key token : String)
      → ((is_jwt_valid store c jwt).result ≡ done true
          → IsConfirmed "POST" "/v1/identity/oidc/introspect"
              (IsIntrospection jwt)
              decode_active
              true
              (is_jwt_valid store c jwt).sent)
        × ((get_self_jwt store c service_key).result ≡ done token
            → IsConfirmed "GET"
                (join "/v1/identity/oidc/token" service_key)
                (λ body. body ≡ none)
                decode_token
                token
                (get_self_jwt store c service_key).sent)
  unfolding is_jwt_valid get_self_jwt
  identity-IsConfirmed jwt service_key token = (
    asked_done decode_active "POST" "/v1/identity/oidc/introspect" (IsIntrospection jwt)
        (introspection store c jwt) (introspection_done jwt),
    asked_done decode_token "GET" (join "/v1/identity/oidc/token" service_key) (λ body. body ≡ none)
        _
        (λ req h.
          let (configured, same) =
            located_done "GET" (join "/v1/identity/oidc/token" service_key) none h in
          (configured, none, refl, same)),
  )
