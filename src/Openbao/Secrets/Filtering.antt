-- ===== src/Openbao/Secrets/Filtering.antt =====
-- What `GetSecret` makes of a reply.
use go_mod_edge_utils.Prelude.{
  ℕ, ◌≡◌, ◌≢◌, refl, ◌∙◌, sym, ap, subst, ◌⊎◌, inl, inr, String, true, false, Option, some, is_some,
  List, [], ◌∷◌, ◌++◌, Dict, lookup, insert, if◌then◌else◌, arith, All, Option-cases, append-nil,
  append_assoc, ◌==◌, nat_eq,
}
use go_mod_edge_utils.Secret.{Result, ok, failed, secrets_not_found}
use go_mod_edge_utils.Secret.Cache.Entries.{Admits, HasKey}
use go_mod_edge_utils.Secret.Insecure.{collect}
use go_mod_edge_utils.Secret.Insecure.Lookups.{collect-HasKey, collect-Admits}
use go_mod_edge_utils.Openbao.Secrets.{
  Json, reply, is_success, checked, cast, cast_ok, values_of, get_secret_data, filter_keys,
  found_all, get_secret, after_data,
}

-- The keys that the map does not have, in order.
unfoldable pub absent : List String → Dict String → List String
absent [] m = []
absent (key ∷ keys) m =
    let rest = absent keys m in if is_some (lookup key m) then rest else key ∷ rest

-- The loop does what that of the insecure provider does.
filter_keys-collect :
    (keys : List String) (data_ values : Dict String) (not_found : List String)
    → filter_keys keys data_ values not_found ≡ collect keys data_ values not_found
unfolding filter_keys collect
filter_keys-collect [] data_ values not_found = refl
filter_keys-collect (key ∷ keys) data_ values not_found = elim (Option-cases (lookup key data_)) [
  | inl missing ↦
      rw (missing, filter_keys, collect)
        (filter_keys-collect keys data_ values (not_found ++ key ∷ []))
  | inr (value, found) ↦
      rw (found, filter_keys, collect)
        (filter_keys-collect keys data_ (insert key value values) not_found)
]

filter_keys-absent :
    (keys : List String) (data_ values : Dict String) (not_found : List String)
    → (filter_keys keys data_ values not_found).1 ≡ not_found ++ absent keys data_
unfolding filter_keys absent
filter_keys-absent [] data_ values not_found = sym (append-nil not_found)
filter_keys-absent (key ∷ keys) data_ values not_found = elim (Option-cases (lookup key data_)) [
  | inl missing ↦
      rw (missing, filter_keys)
        (filter_keys-absent keys data_ values (not_found ++ key ∷ [])
          ∙ append_assoc not_found (key ∷ []) (absent keys data_))
  | inr (value, found) ↦
      rw (found, filter_keys) (filter_keys-absent keys data_ (insert key value values) not_found)
]

success_found : (status : ℕ) → is_success status ≡ true → (status == 404) ≡ false
success_found status h = ground arith

checked-success :
    {A : Type 0} (status : ℕ) (r : Result A) → is_success status ≡ true → checked status r ≡ r
unfolding checked
checked-success status r h = rw (success_found status h, h) refl

module _ (name key : String) (keys : List String) (status : ℕ) (kv : String × Json)
    (rest : Dict Json) where
  -- The answer is one of two, by whether a key is absent.
  abbrev pub Filtered : Dict String → Option (Result (Dict String)) → Type 0
  Filtered d answer =
      ((absent (key ∷ keys) d ≡ [])
        × (s : Dict String) × (answer ≡ some (ok s))
        × Admits (λ k v. lookup k d ≡ some v) s
        × All (HasKey s) (key ∷ keys))
      ⊎ ((absent (key ∷ keys) d ≢ [])
          × (answer ≡ some (failed (secrets_not_found (absent (key ∷ keys) d)))))

  found_all-Filtered :
      (d : Dict String) (r : Dict String × List String)
      → filter_keys (key ∷ keys) d [] [] ≡ r
      → Filtered d (some (found_all r))
  found_all-Filtered d (values, []) e =
      let all : List String = key ∷ keys in
      let answer = sym (filter_keys-collect all d [] []) ∙ e in
      inl (
        sym (filter_keys-absent all d [] []) ∙ ap (λ r. r.1) e,
        values,
        refl,
        subst (Admits (λ k v. lookup k d ≡ some v)) (ap (λ r. r.0) answer)
            (collect-Admits (λ k v. lookup k d ≡ some v) all d [] [] (λ k v h. h) tt),
        subst (λ m. All (HasKey m) all) (ap (λ r. r.0) answer)
            (collect-HasKey all d [] [] (ap (λ r. r.1) answer)).2,
      )
  found_all-Filtered d (values, k ∷ ks) e =
      let same : k ∷ ks ≡ absent (key ∷ keys) d =
        sym (ap (λ r. r.1) e) ∙ filter_keys-absent (key ∷ keys) d [] [] in
      inr ((λ none_absent. cons_nil (same ∙ none_absent)), rw (← same) refl)
    where
      cons_nil : k ∷ ks ≡ [] → ⊥
      cons_nil h = ground arith

  -- Of a reply with success whose data are not empty and are strings only, GetSecret for one key or
  -- more gives every key, with the values of the reply, if the reply has them all, and else the
  -- error that lists exactly the missing keys in the order in which they were asked for.
  pub get_secret-Filtered :
      (d : Dict String)
      → is_success status ≡ true
      → cast (kv ∷ rest) ≡ some d
      → Filtered d (get_secret name (key ∷ keys) (reply status (ok (some (kv ∷ rest)))))
  unfolding get_secret get_secret_data
  get_secret-Filtered d success strings =
      let found : get_secret_data name (reply status (ok (some (kv ∷ rest)))) ≡ some (ok d) =
        ap (values_of name) (checked-success status (ok (some (kv ∷ rest))) success)
        ∙ ap cast_ok strings in
      subst (λ o. Filtered d (after_data (key ∷ keys) o)) (sym found)
        (found_all-Filtered d (filter_keys (key ∷ keys) d [] []) refl)
