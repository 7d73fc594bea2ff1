-- ===== src/Secret/Seeding/Scrubbing.antt =====
-- What is written back to the file of the service's secrets.
use go_mod_edge_utils.Prelude.{
  ℕ, suc, ◌+◌, ◌≡◌, refl, ◌∙◌, sym, ap, subst, inl, inr, ◌⊎◌, String, Bool, true, false, not, ◌&&◌,
  List, [], ◌∷◌, length, length-append, if◌then◌else◌, ◌==◌, nat_eq, arith, Bool-cases,
}
use go_mod_edge_utils.Secret.{SecretErr, Result, ok, failed}
use go_mod_edge_utils.Secret.Secure.{SecureProvider}
use go_mod_edge_utils.Secret.Seeding.{
  ServiceSecret, stored, store_one, seed_one, seed_secrets, validation_errs, no_data,
}

-- The secrets that are not imported.
abbrev pub unimported : List ServiceSecret → ℕ
unimported [] = 0
unimported (s ∷ secrets) = if s.imported then unimported secrets else suc (unimported secrets)

abbrev pub pending : ServiceSecret → ℕ
pending s = if s.imported then 0 else 1

abbrev empty_data : ServiceSecret → Bool
empty_data s = not s.imported && length s.secret_data == 0

valid-cons :
    (s : ServiceSecret) (secrets : List ServiceSecret)
    → validation_errs (s ∷ secrets) ≡ []
    → (empty_data s ≡ false) × (validation_errs secrets ≡ [])
unfolding validation_errs
valid-cons s secrets h = elim (Bool-cases (empty_data s)) [
  | inl bad ↦ absurd (cons_nil (rw bad at h))
  | inr good ↦ (good, rw good at h)
]
  where
    cons_nil : no_data s ∷ validation_errs secrets ≡ [] → ⊥
    cons_nil h = ground arith

cons-valid :
    (s : ServiceSecret) (secrets : List ServiceSecret)
    → empty_data s ≡ false
    → validation_errs secrets ≡ []
    → validation_errs (s ∷ secrets) ≡ []
unfolding validation_errs
cons-valid s secrets good h = rw (good, h) refl

module _ {W K : Type 0} (run_callback : K → String → SecureProvider W K → SecureProvider W K)
    (clock : ℕ → ℕ × ℕ) where
  -- How a secret of the file is written back, by the provider before and after it: as it was if it
  -- is imported already, and then nothing is stored; imported and without its data if StoreSecret
  -- of it succeeds; and as it was if StoreSecret fails.
  abbrev pub Written :
      ℕ → SecureProvider W K → ServiceSecret → ServiceSecret → SecureProvider W K → Type 0
  Written i p s t q =
      ((s.imported ≡ true) × (t ≡ s) × (q ≡ p))
      ⊎ ((s.imported ≡ false)
          × (((store_one run_callback clock i s p ≡ (ok tt, q))
                × (t.secret_name ≡ s.secret_name)
                × (t.imported ≡ true)
                × (t.secret_data ≡ []))
              ⊎ ((e : SecretErr) × (store_one run_callback clock i s p ≡ (failed e, q)) × (t ≡ s))))

  -- The same for all secrets, in order, each with the provider that the one before it has left.
  abbrev pub AllWritten : ℕ → SecureProvider W K → List ServiceSecret → List ServiceSecret → Type 0
  AllWritten i p [] [] = Unit
  AllWritten i p [] (t ∷ ts) = ⊥
  AllWritten i p (s ∷ ss) [] = ⊥
  AllWritten i p (s ∷ ss) (t ∷ ts) =
      (q : SecureProvider W K) × Written i p s t q × AllWritten (suc i) q ss ts

  abbrev Round :
      ℕ
      → SecureProvider W K
      → ServiceSecret
      → ServiceSecret × List SecretErr × SecureProvider W K
      → Type 0
  Round i p s (t, errs, q) = Written i p s t q × (length errs ≡ pending t)

  stored-Round :
      (i : ℕ) (p : SecureProvider W K) (s : ServiceSecret) (r : Result Unit × SecureProvider W K)
      → s.imported ≡ false
      → store_one run_callback clock i s p ≡ r
      → Round i p s (stored run_callback clock s r)
  stored-Round i p s (ok tt, q) new e = (inr (new, inl (e, refl, refl, refl)), refl)
  stored-Round i p s (failed err, q) new e = (inr (new, inr (err, e, refl)), rw new refl)

  seed_one-Round :
      (i : ℕ) (s : ServiceSecret) (p : SecureProvider W K)
      → Round i p s (seed_one run_callback clock i s p)
  unfolding seed_one
  seed_one-Round i s p = elim (Bool-cases s.imported) [
    | inl old ↦
        let same : seed_one run_callback clock i s p ≡ (s, [], p) = rw old refl in
        subst (Round i p s) (sym same) (inl (old, refl, refl), rw old refl)
    | inr new ↦
        let same : seed_one run_callback clock i s p
            ≡ stored run_callback clock s (store_one run_callback clock i s p) =
          rw new refl in
        subst (Round i p s) (sym same)
          (stored-Round i p s (store_one run_callback clock i s p) new refl)
  ]

  unimported-cons :
      (s : ServiceSecret) (ss : List ServiceSecret)
      → unimported (s ∷ ss) ≡ pending s + unimported ss
  unimported-cons s ss = ground arith

  -- Every secret of the file is written back in its place: imported and without its data if it was
  -- not imported and StoreSecret of it succeeds, and as it was if it was imported or StoreSecret of
  -- it fails. There are as many errors as secrets that are still not imported.
  pub seed_secrets-AllWritten :
      (i : ℕ) (secrets : List ServiceSecret) (p : SecureProvider W K)
      → AllWritten i p secrets (seed_secrets run_callback clock i secrets p).0
        × (length (seed_secrets run_callback clock i secrets p).1
            ≡ unimported (seed_secrets run_callback clock i secrets p).0)
  unfolding seed_secrets
  seed_secrets-AllWritten i [] p = (tt, refl)
  seed_secrets-AllWritten i (s ∷ secrets) p =
      let (written, errs, q) = seed_one run_callback clock i s p in
      let (rest, more, r) = seed_secrets run_callback clock (suc i) secrets q in
      let (first, counted) = seed_one-Round i s p in
      let (others, all_counted) = seed_secrets-AllWritten (suc i) secrets q in
      (
        (q, first, others),
        length-append errs more ∙ rw (counted, all_counted) (sym (unimported-cons written rest)),
      )

  seed_secrets-none :
      (i : ℕ) (secrets : List ServiceSecret) (p : SecureProvider W K)
      → unimported secrets ≡ 0
      → seed_secrets run_callback clock i secrets p ≡ (secrets, [], p)
  unfolding seed_secrets seed_one
  seed_secrets-none i [] p h = refl
  seed_secrets-none i (s ∷ secrets) p h = elim (Bool-cases s.imported) [
    | inl old ↦ rw (old, seed_secrets-none (suc i) secrets p (rw old at h)) refl
    | inr new ↦ absurd (not_zero (rw new at h))
  ]
    where
      not_zero : suc (unimported secrets) ≡ 0 → ⊥
      not_zero h = omega arith

  -- Seeding that had no error is complete: seeding from the file that it wrote back stores nothing,
  -- changes nothing, and has no error either, whatever the provider then is.
  pub seed_secrets_again :
      (i j : ℕ) (secrets : List ServiceSecret) (p q : SecureProvider W K)
      → (seed_secrets run_callback clock i secrets p).1 ≡ []
      → seed_secrets run_callback clock j (seed_secrets run_callback clock i secrets p).0 q
        ≡ ((seed_secrets run_callback clock i secrets p).0, [], q)
  seed_secrets_again i j secrets p q h =
      seed_secrets-none j (seed_secrets run_callback clock i secrets p).0 q
        (sym (seed_secrets-AllWritten i secrets p).1 ∙ ap length h)

  written-valid :
      (i : ℕ) (p : SecureProvider W K) (secrets written : List ServiceSecret)
      → AllWritten i p secrets written
      → validation_errs secrets ≡ []
      → validation_errs written ≡ []
  written-valid i p [] [] w h = h
  written-valid i p [] (t ∷ ts) w h = absurd w
  written-valid i p (s ∷ ss) [] w h = absurd w
  written-valid i p (s ∷ ss) (t ∷ ts) (q, inl (old, same, kept), others) h =
      let (good, rest) = valid-cons s ss h in
      cons-valid t ts (rw same good) (written-valid (suc i) q ss ts others rest)
  written-valid i p (s ∷ ss) (t ∷ ts) (q, inr (new, inl (e, named, imported, scrub)), others) h =
      cons-valid t ts (rw imported refl)
        (written-valid (suc i) q ss ts others (valid-cons s ss h).1)
  written-valid i p (s ∷ ss) (t ∷ ts) (q, inr (new, inr (e, refused, same)), others) h =
      let (good, rest) = valid-cons s ss h in
      cons-valid t ts (rw same good) (written-valid (suc i) q ss ts others rest)

  -- If the file passes the validation of `UnmarshalServiceSecretsJson`, so does what is written back.
  pub seed_secrets-valid :
      (i : ℕ) (secrets : List ServiceSecret) (p : SecureProvider W K)
      → validation_errs secrets ≡ []
      → validation_errs (seed_secrets run_callback clock i secrets p).0 ≡ []
  seed_secrets-valid i secrets p h =
      written-valid i p secrets (seed_secrets run_callback clock i secrets p).0
        (seed_secrets-AllWritten i secrets p).0 h
