-- ===== src/Secret/Retry/Keeps.antt =====
-- What the calls with a retry leave of the secrets of the store.
use go_mod_edge_utils.Prelude.{◌≡◌, ◌∙◌, sym, ap, String, List, Dict, arith, All, subst}
use go_mod_edge_utils.Secret.{SecretErr, Result, ok, failed}
use go_mod_edge_utils.Secret.Client.{SecretClient}
use go_mod_edge_utils.Secret.Cache.Entries.{Admits, HasKey}
use go_mod_edge_utils.Secret.Retry.{Attempt, succeeded, refused, no_token, token_refused, retried}

-- What the provider relies on of the client and the token loader. `Holds w name key value` says that
-- in `w` the store has the value under the name and the key.
pub record StoreLaws {W : Type 0} (Holds : W → String → String → String → Type 0)
    (client : SecretClient W) (load : W → Result String × W) : Type 0 where
  -- An answer has values of the store only, and every key that was asked for.
  pub answers :
      (name : String) (keys : List String) (w u : W) (s : Dict String)
      → client.get_secret name keys w ≡ (ok s, u)
      → Admits (Holds u name) s × All (HasKey s) keys
  -- Everything but a store leaves the secrets as they are.
  pub get_keeps :
      (name : String) (keys : List String) (w : W) (n k v : String)
      → Holds w n k v
      → Holds (client.get_secret name keys w).1 n k v
  pub names_keep :
      (w : W) (n k v : String) → Holds w n k v → Holds (client.get_secret_names w).1 n k v
  pub token_keeps :
      (token : String) (w : W) (n k v : String)
      → Holds w n k v
      → Holds (client.set_auth_token token w).1 n k v
  pub load_keeps : (w : W) (n k v : String) → Holds w n k v → Holds (load w).1 n k v

pub ok_failed :
    {A B : Type 0} {a : A} {e : SecretErr} {u v : B}
    → ◌≡◌ {A = Result A × B} (failed e, u) (ok a, v)
    → ⊥
ok_failed h = not_ok (ap (λ p. p.0) h)
  where
    not_ok : {A : Type 0} {a : A} {e : SecretErr} → ◌≡◌ {A = Result A} (failed e) (ok a) → ⊥
    not_ok h = ground arith

module _ {W : Type 0} (Holds : W → String → String → String → Type 0) (client : SecretClient W)
    (load : W → Result String × W) (laws : StoreLaws Holds client load) where
  abbrev pub Keeps : W → W → Type 0
  Keeps w u = (n k v : String) → Holds w n k v → Holds u n k v

  -- A call that keeps the secrets keeps them in the world that it is known to end in.
  ends_in : {A : Type 0} (w u : W) (r : A) (p : A × W) → p ≡ (r, u) → Keeps w p.1 → Keeps w u
  ends_in w u r p e h = subst (λ q. Keeps w q.1) e h

  pub loaded-Keeps : (w u : W) (r : Result String) → load w ≡ (r, u) → Keeps w u
  loaded-Keeps w u r e = ends_in w u r (load w) e (laws.load_keeps w)

  pub token-Keeps :
      (w u x : W) (token : String) (r : Result Unit)
      → load w ≡ (ok token, u)
      → client.set_auth_token token u ≡ (r, x)
      → Keeps w x
  token-Keeps w u x token r loaded set n k v h =
      ends_in u x r (client.set_auth_token token u) set (laws.token_keeps token u) n k v
        (loaded-Keeps w u (ok token) loaded n k v h)

  module _ {A : Type 0} (call : W → Result A × W) where
    -- The answer without an error is one that the client gave.
    pub Attempt-ok :
        (w u : W) (a : A) (r : Result A × W)
        → Attempt client load call w r
        → r ≡ (ok a, u)
        → (x : W) × (call x ≡ (ok a, u))
    Attempt-ok w u a r (succeeded first) e = (w, first ∙ e)
    Attempt-ok w u a r (refused first other) e = absurd (ok_failed e)
    Attempt-ok w u a r (no_token first auth loaded) e = absurd (ok_failed e)
    Attempt-ok w u a r (token_refused first auth loaded set) e = absurd (ok_failed e)
    Attempt-ok w u a r (retried {x} first auth loaded set) e = (x, e)

    -- If the calls that fail keep the secrets, then so does a failure after the retry.
    pub Attempt-failed :
        ((w u : W) (e : SecretErr) → call w ≡ (failed e, u) → Keeps w u)
        → (w : W) (r : Result A × W) → Attempt client load call w r
        → (u : W) (e : SecretErr) → r ≡ (failed e, u)
        → Keeps w u
    Attempt-failed keep w r (succeeded first) u e eq n k y h = absurd (ok_failed (sym eq))
    Attempt-failed keep w r (refused first other) u e eq n k y h = keep w u e (first ∙ eq) n k y h
    Attempt-failed keep w r (no_token {u} {v} first auth loaded) z e eq n k x h =
        subst (λ q. Holds q.1 n k x) eq (loaded-Keeps u v _ loaded n k x (keep w u _ first n k x h))
    Attempt-failed keep w r (token_refused {u} {v} {x} {token} first auth loaded set) z e eq n k y
          h =
        subst (λ q. Holds q.1 n k y) eq
          (token-Keeps u v x token _ loaded set n k y (keep w u _ first n k y h))
    Attempt-failed keep w r (retried {u} {v} {x} {token} first auth loaded set) z e eq n k y h =
        keep x z e eq n k y (token-Keeps u v x token _ loaded set n k y (keep w u _ first n k y h))

    -- If every call keeps them, then so does an answer after the retry.
    pub Attempt-Keeps :
        ((w : W) → Keeps w (call w).1)
        → (w : W) (r : Result A × W) → Attempt client load call w r
        → Keeps w r.1
    Attempt-Keeps keep w r (succeeded {a} {u} first) n k y h =
        ends_in w u (ok a) (call w) first (keep w) n k y h
    Attempt-Keeps keep w r (retried {e} {u} {v} {x} {token} first auth loaded set) n k y h =
        keep x n k y (
          token-Keeps u v x token _ loaded set n k y
            (ends_in w u (failed e) (call w) first (keep w) n k y h))
    Attempt-Keeps keep w r (refused {e} {u} first other) n k y h =
        ends_in w u (failed e) (call w) first (keep w) n k y h
    Attempt-Keeps keep w r (no_token {e} {u} {v} first auth loaded) n k y h =
        loaded-Keeps u v _ loaded n k y (ends_in w u (failed e) (call w) first (keep w) n k y h)
    Attempt-Keeps keep w r (token_refused {e} {u} {v} {x} {token} first auth loaded set) n k y h =
        token-Keeps u v x token _ loaded set n k y
          (ends_in w u (failed e) (call w) first (keep w) n k y h)
