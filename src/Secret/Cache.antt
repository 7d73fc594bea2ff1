-- ===== src/Secret/Cache.antt =====
-- pkg/bootstrap/secret/secure.go: the cache of SecureProvider, by secret name and key.
pub mod Entries
use go_mod_edge_utils.Prelude.{
  String, Bool, true, false, Option, none, some, List, [], ◌∷◌, Dict, lookup, insert, if◌then◌else◌,
}

-- The loop of `getSecretsCache` over the keys, with `allKeysExistInCache` and `secureSecrets`.
unfoldable pub scan_keys : Dict String → List String → Bool → Dict String → Option (Dict String)
scan_keys cached [] all_exist found = if all_exist then some found else none
scan_keys cached (key ∷ keys) all_exist found = elim (lookup key cached) [
  | none ↦ none
  | some value ↦ scan_keys cached keys true (insert key value found)
]

abbrev pub scan_cached : Option (Dict String) → List String → Option (Dict String)
scan_cached none keys = none
scan_cached (some cached) keys = scan_keys cached keys false []

-- `getSecretsCache`
unfoldable pub get_secrets_cache : String → List String → Dict (Dict String) → Option (Dict String)
unfolding scan_keys
get_secrets_cache name keys cache = scan_cached (lookup name cache) keys

-- `for key, value := range secrets { cached[key] = value }`
unfoldable pub merge : Dict String → Dict String → Dict String
merge [] cached = cached
merge ((key, value) ∷ secrets) cached = merge secrets (insert key value cached)

abbrev pub cached_or : Option (Dict String) → Dict String → Dict String
cached_or none secrets = secrets
cached_or (some cached) secrets = cached

-- `updateSecretsCache`
unfoldable pub update_secrets_cache : String → Dict String → Dict (Dict String) → Dict (Dict String)
unfolding merge
update_secrets_cache name secrets cache =
    insert name (merge secrets (cached_or (lookup name cache) secrets)) cache
