-- ===== src/Secret/Cache/Entries.antt =====
-- Every entry of the cache, and of what is taken out of it, has what was put in.
use go_mod_edge_utils.Prelude.{
  ◌≡◌, refl, inl, inr, String, Bool, true, false, Option, none, some, is_some, List, [], ◌∷◌, Dict,
  lookup, insert, lookup-insert, ◌==◌, string_eq, eq_iff, eq_self, All, arith, Bool-cases,
  Option-cases,
}
use go_mod_edge_utils.Secret.Cache.{
  scan_keys, scan_cached, get_secrets_cache, merge, cached_or, update_secrets_cache,
}

-- Every value of the map is one that `P` admits under its key.
abbrev pub Admits {κ} : {V : Type 0} → (String → V → Type κ) → Dict V → Type κ
Admits P m = All (λ e. P e.0 e.1) m

module _ {V : Type 0} (P : String → V → Type 0) where
  pub lookup-Admits :
      (m : Dict V) (key : String) (v : V) → Admits P m → lookup key m ≡ some v → P key v
  unfolding lookup
  lookup-Admits [] key v h found = absurd (ground arith)
  lookup-Admits ((k, w) ∷ m) key v h found = elim (Bool-cases (k == key)) [
    | inl same ↦
        let value : some w ≡ some v = rw same at found in
        let value_eq : w ≡ v = cc in rw (← (eq_iff k key).0 same, ← value_eq) (h.0)
    | inr other ↦ lookup-Admits m key v h.1 (rw other at found)
  ]

  pub insert-Admits :
      (m : Dict V) (key : String) (v : V) → P key v → Admits P m → Admits P (insert key v m)
  unfolding insert
  insert-Admits [] key v p h = (p, tt)
  insert-Admits ((k, w) ∷ m) key v p h = elim (Bool-cases (k == key)) [
    | inl same ↦ rw same (p, h.1)
    | inr other ↦ rw other (h.0, insert-Admits m key v p h.1)
  ]

module _ (P : String → String → Type 0) where
  pub scan_keys-Admits :
      (cached : Dict String) (keys : List String) (all_exist : Bool) (found d : Dict String)
      → Admits P cached
      → Admits P found
      → scan_keys cached keys all_exist found ≡ some d
      → Admits P d
  unfolding scan_keys
  scan_keys-Admits cached [] true found d hc hf e = let same : found ≡ d = cc in rw (← same) hf
  scan_keys-Admits cached [] false found d hc hf e = absurd (ground arith)
  scan_keys-Admits cached (key ∷ keys) all_exist found d hc hf e =
      elim (Option-cases (lookup key cached)) [
        | inl missing ↦ absurd (none_found (rw (missing, scan_keys) at e))
        | inr (value, present) ↦
            scan_keys-Admits cached keys true (insert key value found) d hc
              (insert-Admits P found key value (lookup-Admits P cached key value hc present) hf)
              (rw (present, scan_keys) at e)
      ]
    where
      none_found : none ≡ some d → ⊥
      none_found h = ground arith

  pub merge-Admits :
      (secrets cached : Dict String)
      → Admits P secrets
      → Admits P cached
      → Admits P (merge secrets cached)
  unfolding merge
  merge-Admits [] cached hs hc = hc
  merge-Admits ((key, value) ∷ secrets) cached hs hc =
      merge-Admits secrets (insert key value cached) hs.1 (insert-Admits P cached key value hs.0 hc)

-- A key that is in the map.
abbrev pub HasKey : Dict String → String → Type 0
HasKey m key = is_some (lookup key m) ≡ true

pub scan_keys-HasKey :
    (cached : Dict String) (keys : List String) (all_exist : Bool) (found d : Dict String)
    → scan_keys cached keys all_exist found ≡ some d
    → ((key : String) → HasKey found key → HasKey d key) × All (HasKey d) keys
unfolding scan_keys
scan_keys-HasKey cached [] true found d e =
    let same : found ≡ d = cc in (λ key h. rw (← same) h, tt)
scan_keys-HasKey cached [] false found d e = absurd (ground arith)
scan_keys-HasKey cached (key ∷ keys) all_exist found d e = elim (Option-cases (lookup key cached)) [
  | inl missing ↦ absurd (none_found (rw (missing, scan_keys) at e))
  | inr (value, present) ↦
      let (kept, all) =
        scan_keys-HasKey cached keys true (insert key value found) d
          (rw (present, scan_keys) at e) in
      (
        λ other h. kept other (
            rw (lookup-insert key other value found) (elim (Bool-cases (key == other)) [
              | inl same ↦ rw same refl
              | inr differs ↦ rw differs h
            ])),
        (kept key (rw (lookup-insert key key value found, eq_self key) refl), all),
      )
]
  where
    none_found : none ≡ some d → ⊥
    none_found h = ground arith

module _ (P : String → String → String → Type 0) where
  cached-Admits :
      (name : String) (keys : List String) (o : Option (Dict String)) (cache : Dict (Dict String))
      (d : Dict String)
      → Admits (λ n. Admits (P n)) cache
      → lookup name cache ≡ o
      → scan_cached o keys ≡ some d
      → Admits (P name) d × All (HasKey d) keys
  cached-Admits name keys none cache d h looked e = absurd (ground arith)
  cached-Admits name keys (some cached) cache d h looked e = (
    scan_keys-Admits (P name) cached keys false [] d
        (lookup-Admits (λ n. Admits (P n)) cache name cached h looked) tt e,
    (scan_keys-HasKey cached keys false [] d e).1,
  )

  -- What `getSecretsCache` answers has every key that was asked for, with values of the cache.
  pub get_secrets_cache-Admits :
      (name : String) (keys : List String) (cache : Dict (Dict String)) (d : Dict String)
      → Admits (λ n. Admits (P n)) cache
      → get_secrets_cache name keys cache ≡ some d
      → Admits (P name) d × All (HasKey d) keys
  unfolding get_secrets_cache
  get_secrets_cache-Admits name keys cache d h e =
      cached-Admits name keys (lookup name cache) cache d h refl e

  cached_or-Admits :
      (name : String) (secrets : Dict String) (o : Option (Dict String))
      (cache : Dict (Dict String))
      → Admits (λ n. Admits (P n)) cache
      → Admits (P name) secrets
      → lookup name cache ≡ o
      → Admits (P name) (cached_or o secrets)
  cached_or-Admits name secrets none cache h hs looked = hs
  cached_or-Admits name secrets (some cached) cache h hs looked =
      lookup-Admits (λ n. Admits (P n)) cache name cached h looked

  pub update_secrets_cache-Admits :
      (name : String) (secrets : Dict String) (cache : Dict (Dict String))
      → Admits (P name) secrets
      → Admits (λ n. Admits (P n)) cache
      → Admits (λ n. Admits (P n)) (update_secrets_cache name secrets cache)
  unfolding update_secrets_cache
  update_secrets_cache-Admits name secrets cache hs h =
      insert-Admits (λ n. Admits (P n)) cache name
        (merge secrets (cached_or (lookup name cache) secrets))
        (merge-Admits (P name) secrets (cached_or (lookup name cache) secrets) hs
          (cached_or-Admits name secrets (lookup name cache) cache h hs refl))
        h
