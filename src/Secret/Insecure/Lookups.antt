-- ===== src/Secret/Insecure/Lookups.antt =====
-- What `GetSecret`, `HasSecret` and `ListSecretNames` of the insecure provider have to do with each other.
use go_mod_edge_utils.Prelude.{
  ◌≡◌, refl, ◌∙◌, sym, ap, subst, inl, inr, ◌⊎◌, String, Bool, true, false, some, List, [], ◌∷◌,
  ◌++◌, Dict, lookup, insert, lookup-insert, if◌then◌else◌, ◌==◌, string_eq, eq_iff, eq_self, arith,
  Bool-cases, Option-cases, All,
}
use go_mod_edge_utils.Secret.{Result, ok, failed}
use go_mod_edge_utils.Secret.Cache.Entries.{Admits, HasKey, insert-Admits}
use go_mod_edge_utils.Secret.Insecure.{
  InsecureSecrets, collect, conclude, scan, get_secret, has_name, has_secret, names,
  list_secret_names,
}

abbrev pub member : String → List String → Bool
member name [] = false
member name (n ∷ ns) = if n == name then true else member name ns

abbrev pub is_ok : {A : Type 0} → Result A → Bool
is_ok (ok a) = true
is_ok (failed e) = false

has_name-names :
    (name : String) (secrets : InsecureSecrets)
    → has_name name secrets ≡ member name (names secrets)
unfolding has_name names
has_name-names name [] = refl
has_name-names name ((id, secret) ∷ secrets) = rw (has_name-names name secrets) refl

scan-has_name :
    (name : String) (secrets : InsecureSecrets)
    → is_ok (scan name [] secrets [] false []) ≡ has_name name secrets
unfolding scan has_name
scan-has_name name [] = refl
scan-has_name name ((id, secret) ∷ secrets) = elim (Bool-cases (secret.secret_name == name)) [
  | inl same ↦ rw same refl
  | inr other ↦ rw other (scan-has_name name secrets)
]

-- The three operations agree on which secrets there are: `HasSecret` is whether the name is listed,
-- and so is whether `GetSecret` without keys succeeds.
pub names_agree :
    (name : String) (secrets : InsecureSecrets)
    → (list : List String) × (list_secret_names (some secrets) ≡ ok list)
      × (has_secret name (some secrets) ≡ ok (member name list))
      × (is_ok (get_secret name [] (some secrets)) ≡ member name list)
unfolding list_secret_names has_secret get_secret
names_agree name secrets = (
  names secrets,
  refl,
  ap ok (has_name-names name secrets),
  scan-has_name name secrets ∙ has_name-names name secrets,
)

-- A value that some secret of the name has under the key.
abbrev pub FoundIn : String → InsecureSecrets → String → String → Type 0
FoundIn name [] key value = ⊥
FoundIn name ((id, secret) ∷ secrets) key value =
    ((secret.secret_name ≡ name) × (lookup key secret.secret_data ≡ some value))
    ⊎ FoundIn name secrets key value

no_missing : (missing : List String) (key : String) → missing ++ key ∷ [] ≡ [] → ⊥
no_missing [] key e = ground arith
no_missing (k ∷ ks) key e = ground arith

still_there :
    (k key value : String) (results : Dict String)
    → HasKey results k
    → HasKey (insert key value results) k
still_there k key value results h =
    rw (lookup-insert key k value results)
      (elim (Bool-cases (key == k)) [ inl same ↦ rw same refl | inr differs ↦ rw differs h ])

-- Where the loop over the keys misses none, it has found them all.
pub collect-HasKey :
    (keys : List String) (secret results : Dict String) (missing : List String)
    → (collect keys secret results missing).1 ≡ []
    → (missing ≡ [])
      × ((key : String) → HasKey results key → HasKey (collect keys secret results missing).0 key)
      × All (HasKey (collect keys secret results missing).0) keys
unfolding collect
collect-HasKey [] secret results missing e = (e, λ key h. h, tt)
collect-HasKey (key ∷ keys) secret results missing e = elim (Option-cases (lookup key secret)) [
  | inl absent ↦ absurd (
      no_missing missing key
        (collect-HasKey keys secret results (missing ++ key ∷ []) (rw (absent, collect) at e)).0)
  | inr (value, present) ↦
      let (none_missing, kept, all) =
        collect-HasKey keys secret (insert key value results) missing
          (rw (present, collect) at e) in
      let same : collect (key ∷ keys) secret results missing
          ≡ collect keys secret (insert key value results) missing =
        rw (present, collect) refl in
      subst
        (λ r.
          (missing ≡ [])
          × ((k : String) → HasKey results k → HasKey r.0 k)
          × All (HasKey r.0) (key ∷ keys))
        (sym same)
        (
          none_missing,
          λ k h. kept k (still_there k key value results h),
          (kept key (rw (lookup-insert key key value results, eq_self key) refl), all),
        )
]

module _ (P : String → String → Type 0) where
  pub collect-Admits :
      (keys : List String) (secret results : Dict String) (missing : List String)
      → ((key value : String) → lookup key secret ≡ some value → P key value)
      → Admits P results
      → Admits P (collect keys secret results missing).0
  unfolding collect
  collect-Admits [] secret results missing h all = all
  collect-Admits (key ∷ keys) secret results missing h all =
      elim (Option-cases (lookup key secret)) [
        | inl absent ↦
            rw (absent, collect) (collect-Admits keys secret results (missing ++ key ∷ []) h all)
        | inr (value, present) ↦
            rw (present, collect)
              (collect-Admits keys secret (insert key value results) missing h
                (insert-Admits P results key value (h key value present) all))
      ]

conclude-ok :
    (name : String) (missing : List String) (exists : Bool) (results d : Dict String)
    → conclude name missing exists results ≡ ok d
    → (missing ≡ []) × (exists ≡ true) × (results ≡ d)
conclude-ok name (key ∷ missing) exists results d e = absurd (ground arith)
conclude-ok name [] false results d e = absurd (ground arith)
conclude-ok name [] true results d e = (refl, refl, cc)

module _ (P : String → String → Type 0) (name key : String) (keys : List String) where
  scan-Admits :
      (secrets : InsecureSecrets) (results : Dict String) (exists : Bool) (missing : List String)
      (d : Dict String)
      → ((k v : String) → FoundIn name secrets k v → P k v)
      → Admits P results
      → (exists ≡ true → missing ≡ [] → All (HasKey results) (key ∷ keys))
      → scan name (key ∷ keys) secrets results exists missing ≡ ok d
      → Admits P d × All (HasKey d) (key ∷ keys)
  unfolding scan
  scan-Admits [] results exists missing d from all has e =
      let (none_missing, found, same) = conclude-ok name missing exists results d e in
      subst (λ r. Admits P r × All (HasKey r) (key ∷ keys)) same (all, has found none_missing)
  scan-Admits ((id, secret) ∷ secrets) results exists missing d from all has e =
      elim (Bool-cases (secret.secret_name == name)) [
        | inl same ↦
            scan-Admits secrets (collect (key ∷ keys) secret.secret_data results missing).0 true
              (collect (key ∷ keys) secret.secret_data results missing).1 d
              (λ k v later. from k v (inr later))
              (collect-Admits P (key ∷ keys) secret.secret_data results missing
                (λ k v present. from k v (inl ((eq_iff secret.secret_name name).0 same, present)))
                all)
              (λ t none_missing.
                (collect-HasKey (key ∷ keys) secret.secret_data results missing none_missing).2)
              (rw same at e)
        | inr other ↦
            scan-Admits secrets results exists missing d (λ k v later. from k v (inr later)) all has
              (rw other at e)
      ]

-- `GetSecret` for one key or more that succeeds has every key that was asked for, and each value is
-- one that a secret of the name has under its key in the configuration.
pub get_secret-FoundIn :
    (name key : String) (keys : List String) (secrets : InsecureSecrets) (d : Dict String)
    → get_secret name (key ∷ keys) (some secrets) ≡ ok d
    → Admits (FoundIn name secrets) d × All (HasKey d) (key ∷ keys)
unfolding get_secret
get_secret-FoundIn name key keys secrets d e =
    scan-Admits (FoundIn name secrets) name key keys secrets [] false [] d (λ k v h. h) tt
      (λ absurd_exists n. absurd (false_true absurd_exists)) e
  where
    false_true : false ≡ true → ⊥
    false_true h = ground arith
