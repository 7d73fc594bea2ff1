-- ===== src/Secret/Tests/Memory.antt =====
-- A secret client that keeps the secrets in memory.
use go_mod_edge_utils.Prelude.{
  ◌≡◌, refl, ◌⊎◌, inl, inr, ap, String, Option, none, some, List, [], ◌∷◌, Dict, insert, All,
  All-weaken, arith, subst, sym,
}
use go_mod_edge_utils.Secret.{SecretErr, secret_name_not_found, Result, ok, failed}
use go_mod_edge_utils.Secret.Cache.{get_secrets_cache}
use go_mod_edge_utils.Secret.Cache.Entries.{Admits, HasKey, get_secrets_cache-Admits}
use go_mod_edge_utils.Secret.Client.{SecretClient}
use go_mod_edge_utils.Secret.Retry.Keeps.{StoreLaws}

-- A store in memory.
abbrev pub Store : Type 0
Store = Dict (Dict String)

abbrev pub found_or_not : String → Option (Dict String) → Store → Result (Dict String) × Store
found_or_not name none w = (failed (secret_name_not_found name), w)
found_or_not name (some s) w = (ok s, w)

abbrev pub names_of : Store → List String
names_of [] = []
names_of ((name, s) ∷ w) = name ∷ names_of w

abbrev pub memory : SecretClient Store
memory = record {
  get_secret = λ name keys w. found_or_not name (get_secrets_cache name keys w) w;
  store_secret = λ name s w. (ok tt, insert name s w);
  get_secret_names = λ w. (ok (names_of w), w);
  set_auth_token = λ token w. (ok tt, w);
}

abbrev pub load_token : Store → Result String × Store
load_token w = (ok "token", w)

abbrev pub InSecret : Dict String → String → String → Type 0
InSecret [] k v = ⊥
InSecret ((j, x) ∷ s) k v = ((j ≡ k) × (x ≡ v)) ⊎ InSecret s k v

abbrev pub InStore : Store → String → String → String → Type 0
InStore [] n k v = ⊥
InStore ((m, s) ∷ w) n k v = ((m ≡ n) × InSecret s k v) ⊎ InStore w n k v

secret_InSecret : (s : Dict String) → Admits (InSecret s) s
secret_InSecret [] = tt
secret_InSecret ((j, x) ∷ s) =
    (inl (refl, refl), All-weaken _ _ s (λ e h. inr h) (secret_InSecret s))

store_InStore : (w : Store) → Admits (λ n. Admits (InStore w n)) w
store_InStore [] = tt
store_InStore ((m, s) ∷ w) = (
  All-weaken _ _ s (λ e h. inl (refl, h)) (secret_InSecret s),
  All-weaken _ _ w (λ e. All-weaken _ _ e.1 (λ f h. inr h)) (store_InStore w),
)

same_store : (name : String) (o : Option (Dict String)) (w : Store) → (found_or_not name o w).1 ≡ w
same_store name none w = refl
same_store name (some s) w = refl

same_ok : {A : Type 0} {a b : A} → ◌≡◌ {A = Result A} (ok a) (ok b) → a ≡ b
same_ok e = cc

not_found : {A : Type 0} {a : A} {e : SecretErr} → ◌≡◌ {A = Result A} (failed e) (ok a) → ⊥
not_found e = ground arith

answered :
    (name : String) (keys : List String) (o : Option (Dict String)) (w u : Store) (s : Dict String)
    → get_secrets_cache name keys w ≡ o
    → found_or_not name o w ≡ (ok s, u)
    → Admits (InStore u name) s × All (HasKey s) keys
answered name keys none w u s looked e = absurd (not_found (ap (λ r. r.0) e))
answered name keys (some t) w u s looked e =
    subst (λ x. Admits (InStore x name) s × All (HasKey s) keys) (ap (λ r. r.1) e)
      (subst (λ x. Admits (InStore w name) x × All (HasKey x) keys) (same_ok (ap (λ r. r.0) e))
        (get_secrets_cache-Admits (InStore w) name keys w t (store_InStore w) looked))

pub memory-StoreLaws : StoreLaws InStore memory load_token
memory-StoreLaws = record {
  answers = λ name keys w u s e. answered name keys (get_secrets_cache name keys w) w u s refl e;
  get_keeps = λ name keys w n k v h.
      subst (λ x. InStore x n k v) (sym (same_store name (get_secrets_cache name keys w) w)) h;
  names_keep = λ w n k v h. h;
  token_keeps = λ token w n k v h. h;
  load_keeps = λ w n k v h. h;
}
  where
    not_refused : (e : SecretErr) → ◌≡◌ {A = Result Unit} (ok tt) (failed e) → ⊥
    not_refused e h = ground arith
