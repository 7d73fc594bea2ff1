-- ===== src/Auth/Jwt/Tests/Library.antt =====
-- A library that signs the two tokens of one user with one key.
use go_mod_edge_utils.Prelude.{
  ℕ, ℤ, pos, negsuc, String, Bool, true, false, ◌&&◌, Option, none, some, lookup, if◌then◌else◌,
  ◌==◌, string_eq, nat_eq, eq_iff, nat_beq_iff, Bool-cases, inl, inr, ◌≡◌, ◌≢◌, ◌⊎◌, refl, ap, sym,
  ◌∙◌, arith,
}
use go_mod_edge_utils.Errors.{GoError, nil, foreign}
use go_mod_edge_utils.Auth.Jwt.{
  JwtLibrary, TokenDetails, Claim, text, flag, number, other_claim, Claims, Method, hmac, Key, key,
  no_key, Parsed, parsed, parse_error, issuer, claim_access_id, claim_refresh_id, claim_username,
  expires_at,
}
use go_mod_edge_utils.Auth.Jwt.Creation.{access_claims, refresh_claims}
use go_mod_edge_utils.Auth.Jwt.RoundTrip.{as_text, SameTexts, IsLawful}

abbrev is_text : String → Option Claim → Bool
is_text t (some (text s)) = s == t
is_text t _ = false

abbrev is_no_text : Option Claim → Bool
is_no_text (some (text s)) = false
is_no_text _ = true

abbrev is_number : ℕ → Option Claim → Bool
is_number n (some (number (pos m))) = m == n
is_number n _ = false

as_text-is_text : (t : String) (o : Option Claim) → is_text t o ≡ true → as_text o ≡ some t
as_text-is_text t (some (text s)) h = ap some ((eq_iff s t).0 h)
as_text-is_text t (some (flag b)) h = absurd (cc)
as_text-is_text t (some (number z)) h = absurd (cc)
as_text-is_text t (some other_claim) h = absurd (cc)
as_text-is_text t none h = absurd (cc)

as_text-is_no_text : (o : Option Claim) → is_no_text o ≡ true → as_text o ≡ none
as_text-is_no_text (some (text s)) h = absurd (cc)
as_text-is_no_text (some (flag b)) h = refl
as_text-is_no_text (some (number z)) h = refl
as_text-is_no_text (some other_claim) h = refl
as_text-is_no_text none h = refl

abbrev pub bob : TokenDetails
bob = record {
  access_id = "1";
  access_token = "A";
  at_expires = pos 2;
  refresh_id = "2";
  refresh_token = "R";
  rt_expires = pos 168;
}

abbrev is_access : Claims → Bool
is_access c =
    is_text "IOTech" (lookup issuer c)
    && (is_text "1" (lookup claim_access_id c)
        && (is_no_text (lookup claim_refresh_id c)
            && (is_text "bob" (lookup claim_username c) && is_number 2 (lookup expires_at c))))

abbrev is_refresh : Claims → Bool
is_refresh c =
    is_text "IOTech" (lookup issuer c)
    && (is_no_text (lookup claim_access_id c)
        && (is_text "2" (lookup claim_refresh_id c)
            && (is_text "bob" (lookup claim_username c) && is_number 168 (lookup expires_at c))))

abbrev pub refused : String × GoError
refused = ("", foreign "refused" nil)

abbrev pub token_for : Bool → Bool → String × GoError
token_for true b = ("A", nil)
token_for false true = ("R", nil)
token_for false false = refused

token_for_cases :
    (a b : Bool) (s : String)
    → token_for a b ≡ (s, nil)
    → ((s ≡ "A") × (a ≡ true)) ⊎ ((s ≡ "R") × (b ≡ true))
token_for_cases true b s h = inl (sym (ap (λ (p : String × GoError). p.0) h), refl)
token_for_cases false true s h = inr (sym (ap (λ (p : String × GoError). p.0) h), refl)
token_for_cases false false s h = absurd (refused_ne h)
  where
    refused_ne : refused ≢ (s, nil)
    refused_ne p = ground arith

unfoldable pub sign : Claims → String → String × GoError
sign c k = if k == "k" then token_for (is_access c) (is_refresh c) else refused

abbrev with_key : Key → Claims → Parsed
with_key (key k) c =
    if k == "k"
    then parsed (record { has_map_claims = true; claims = c; valid = true })
    else parse_error (foreign "bad signature" nil)
with_key (no_key e) c = parse_error e

unfoldable pub parse : String → (Method → Key) → Parsed
unfolding access_claims refresh_claims
parse s find =
    if s == "A"
    then with_key (find hmac) (access_claims "bob" bob)
    else if s == "R"
    then with_key (find hmac) (refresh_claims "bob" bob)
    else parse_error (foreign "malformed" nil)

abbrev issuer_of : Option String → String × GoError
issuer_of none = ("", nil)
issuer_of (some s) = (s, nil)

abbrev exp_of : Option Claim → Option ℕ × GoError
exp_of (some (number (pos n))) = (some n, nil)
exp_of _ = (none, nil)

abbrev pub library : JwtLibrary
library = record {
  signed_string = sign;
  parse = parse;
  get_issuer = λ c. issuer_of (as_text (lookup issuer c));
  get_expiration_time = λ c. exp_of (lookup expires_at c);
}

abbrev pub instant : ℤ → ℕ
instant (pos n) = n
instant (negsuc n) = 0

both : (a b : Bool) → (a && b) ≡ true → (a ≡ true) × (b ≡ true)
both true b h = (refl, h)
both false b h = absurd (cc)

instant-is_number :
    (n : ℕ) (o : Option Claim) (exp : ℤ)
    → o ≡ some (number exp)
    → is_number n o ≡ true
    → instant exp ≡ n
instant-is_number n o exp e h = at exp (rw e at h)
  where
    at : (z : ℤ) → is_number n (some (number z)) ≡ true → instant z ≡ n
    at (pos m) p = (nat_beq_iff m n).0 p
    at (negsuc m) p = absurd (cc)

-- What the texts of a claim that is accepted are.
module _ (c : Claims) where
  access_texts :
      is_access c ≡ true
      → SameTexts (access_claims "bob" bob) c × (is_number 2 (lookup expires_at c) ≡ true)
  unfolding access_claims lookup
  access_texts h =
      let (i, h1) = both _ _ h in
      let (a, h2) = both _ _ h1 in
      let (r, h3) = both _ _ h2 in
      let (u, x) = both _ _ h3 in
      (
        (
          sym (as_text-is_text "IOTech" (lookup issuer c) i),
          sym (as_text-is_text "1" (lookup claim_access_id c) a),
          sym (as_text-is_no_text (lookup claim_refresh_id c) r),
          sym (as_text-is_text "bob" (lookup claim_username c) u),
        ),
        x,
      )

  refresh_texts :
      is_refresh c ≡ true
      → SameTexts (refresh_claims "bob" bob) c × (is_number 168 (lookup expires_at c) ≡ true)
  unfolding refresh_claims lookup
  refresh_texts h =
      let (i, h1) = both _ _ h in
      let (a, h2) = both _ _ h1 in
      let (r, h3) = both _ _ h2 in
      let (u, x) = both _ _ h3 in
      (
        (
          sym (as_text-is_text "IOTech" (lookup issuer c) i),
          sym (as_text-is_no_text (lookup claim_access_id c) a),
          sym (as_text-is_text "2" (lookup claim_refresh_id c) r),
          sym (as_text-is_text "bob" (lookup claim_username c) u),
        ),
        x,
      )

  -- What was signed: one of the two tokens, with the key.
  signed_cases :
      (k s : String)
      → sign c k ≡ (s, nil)
      → (k ≡ "k") × (((s ≡ "A") × (is_access c ≡ true)) ⊎ ((s ≡ "R") × (is_refresh c ≡ true)))
  unfolding sign
  signed_cases k s h = elim (Bool-cases (k == "k")) [
    | inl right ↦
        ((eq_iff k "k").0 right, token_for_cases (is_access c) (is_refresh c) s (rw right at h))
    | inr bad ↦ absurd (refused_ne (rw bad at h))
  ]
    where
      refused_ne : refused ≢ (s, nil)
      refused_ne p = ground arith

library-accepts :
    (c : Claims) (k s : String) (exp : ℤ) (find : Method → Key)
    → sign c k ≡ (s, nil)
    → find hmac ≡ key k
    → lookup expires_at c ≡ some (number exp)
    → (claims : Claims) × (parse s find
        ≡ parsed (record { has_map_claims = true; claims = claims; valid = true }))
      × SameTexts claims c
      × (exp_of (lookup expires_at claims) ≡ (some (instant exp), nil))
unfolding parse
library-accepts c k s exp find h f e =
    let (right, which) = signed_cases c k s h in
    let found : find hmac ≡ key "k" = f ∙ ap key right in
    elim which [
      | inl (token, yes_access) ↦
          let (texts, x) = access_texts c yes_access in
          (
            access_claims "bob" bob,
            rw (token, found),
            texts,
            unfold access_claims lookup in rw (instant-is_number 2 (lookup expires_at c) exp e x),
          )
      | inr (token, yes_refresh) ↦
          let (texts, x) = refresh_texts c yes_refresh in
          (
            refresh_claims "bob" bob,
            rw (token, found),
            texts,
            unfold refresh_claims lookup in
                rw (instant-is_number 168 (lookup expires_at c) exp e x),
          )
    ]

pub library-IsLawful : IsLawful library 1 instant
library-IsLawful = record {
  accepts = λ c k s exp find h f e at_once exact soon. library-accepts c k s exp find h f e;
  gives_issuer = λ c s h. rw h;
}
