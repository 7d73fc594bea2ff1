-- ===== src/Secret/Seeding/File.antt =====
-- pkg/bootstrap/secret/secure.go: LoadServiceSecrets, which reads the file of the service's secrets
-- and writes it back without what was stored.
use Prim.Native.String
use go_mod_edge_utils.Prelude.{
  ℕ, ◌≡◌, refl, ap, ◌⊎◌, inl, inr, String, Bool, true, false, Option, none, some, List, [], ◌∷◌,
}
use go_mod_edge_utils.Secret.{SecretErr, foreign, error_text, Result, ok, failed}
use go_mod_edge_utils.Secret.Secure.{SecureProvider}
use go_mod_edge_utils.Secret.Seeding.{ServiceSecret, seed_secrets}
use go_mod_edge_utils.Secret.Seeding.Scrubbing.{AllWritten, seed_secrets-AllWritten}

abbrev seeding_failed : String → SecretErr → SecretErr
seeding_failed what e =
    foreign (String.◌++◌ "seeding secrets failed" (String.◌++◌ what (error_text e)))

-- `unmarshal` is `UnmarshalServiceSecretsJson`, and `marshal` is `MarshalJson`.
module _ {W K : Type 0} (run_callback : K → String → SecureProvider W K → SecureProvider W K)
    (clock : ℕ → ℕ × ℕ) (unmarshal : String → Result (List ServiceSecret))
    (marshal : List ServiceSecret → Result String) where
  abbrev pub Seeded : Type 0
  Seeded = Option String × List SecretErr × SecureProvider W K

  abbrev pub marshalled : Result String → List SecretErr → SecureProvider W K → Seeded
  marshalled (failed e) errs p =
      (none, seeding_failed " marshaling back to JSON to clear secrets: " e ∷ [], p)
  marshalled (ok text) errs p = (some text, errs, p)

  abbrev pub unmarshalled : Result (List ServiceSecret) → SecureProvider W K → Seeded
  unmarshalled (failed e) p = (none, seeding_failed " unmarshaling JSON: " e ∷ [], p)
  unmarshalled (ok secrets) p =
      let (written, errs, q) = seed_secrets run_callback clock 0 secrets p in
      marshalled (marshal written) errs q

  -- `seedSecrets`: the new contents, where `none` is nil, the errors and the provider.
  unfoldable pub seed : String → SecureProvider W K → Seeded
  unfolding error_text
  seed contents p = unmarshalled (unmarshal contents) p

  -- What the file has when nil or a text is written to it.
  abbrev pub file_of : Option String → String
  file_of none = ""
  file_of (some text) = text

  abbrev pub scrub :
      Bool → String → Option SecretErr → Seeded → String × List SecretErr × SecureProvider W K
  scrub true contents write_err (data_, errs, p) = (contents, errs, p)
  scrub false contents (some e) (data_, errs, p) =
      (contents, seeding_failed ": unable to overwrite file with secret data removed: " e ∷ [], p)
  scrub false contents none (data_, errs, p) = (file_of data_, errs, p)

  -- `LoadServiceSecrets` of a file that could be read, given whether the scrubbing is disabled and
  -- the error of writing: the file, the errors and the provider after it.
  unfoldable pub load_service_secrets :
      Bool
      → Option SecretErr
      → String
      → SecureProvider W K
      → String × List SecretErr × SecureProvider W K
  unfolding seed
  load_service_secrets disabled write_err contents p =
      scrub disabled contents write_err (seed contents p)

  -- The file has the secrets written back, or it is empty since they could not be encoded, or it is
  -- empty since the file could not be decoded.
  abbrev pub IsScrubbed : SecureProvider W K → String → String → Type 0
  IsScrubbed p contents file =
      ((secrets : List ServiceSecret) × (written : List ServiceSecret) × (unmarshal contents
          ≡ ok secrets)
        × AllWritten run_callback clock 0 p secrets written
        × ((marshal written ≡ ok file)
            ⊎ ((e : SecretErr) × (marshal written ≡ failed e) × (file ≡ ""))))
      ⊎ ((e : SecretErr) × (unmarshal contents ≡ failed e) × (file ≡ ""))

  marshalled-IsScrubbed :
      (contents : String) (secrets written : List ServiceSecret) (errs : List SecretErr)
      (p q : SecureProvider W K) (r : Result String)
      → unmarshal contents ≡ ok secrets
      → AllWritten run_callback clock 0 p secrets written
      → marshal written ≡ r
      → IsScrubbed p contents (file_of (marshalled r errs q).0)
  marshalled-IsScrubbed contents secrets written errs p q (failed e) parsed all m =
      inl (secrets, written, parsed, all, inr (e, m, refl))
  marshalled-IsScrubbed contents secrets written errs p q (ok text) parsed all m =
      inl (secrets, written, parsed, all, inl m)

  unmarshalled-IsScrubbed :
      (contents : String) (r : Result (List ServiceSecret)) (p : SecureProvider W K)
      → unmarshal contents ≡ r
      → IsScrubbed p contents (file_of (unmarshalled r p).0)
  unmarshalled-IsScrubbed contents (failed e) p parsed = inr (e, parsed, refl)
  unmarshalled-IsScrubbed contents (ok secrets) p parsed =
      let (written, errs, q) = seed_secrets run_callback clock 0 secrets p in
      marshalled-IsScrubbed contents secrets written errs p q (marshal written) parsed
        (seed_secrets-AllWritten run_callback clock 0 secrets p).0 refl

  -- When the scrubbing is on and the file can be written, then after LoadServiceSecrets it has
  -- every secret in its place, without its data if StoreSecret of it has succeeded and as it was if
  -- it was imported before or StoreSecret of it has failed; or else it is empty, as what is written
  -- back could not be encoded or the file could not be decoded. It is empty whenever it could not
  -- be decoded, so that the secrets in it are lost.
  pub load_service_secrets-IsScrubbed :
      (contents bad : String) (e : SecretErr) (p : SecureProvider W K)
      → unmarshal bad ≡ failed e
      → IsScrubbed p contents (load_service_secrets false none contents p).0
        × ((load_service_secrets false none bad p).0 ≡ "")
  unfolding load_service_secrets
  load_service_secrets-IsScrubbed contents bad e p undecoded = (
    unmarshalled-IsScrubbed contents (unmarshal contents) p refl,
    ap (λ r. file_of (unmarshalled r p).0) undecoded,
  )
