-- ===== src/Secret/Creation.antt =====
-- pkg/bootstrap/secret/secret.go: NewSecretProvider, which retries until the startup timer has elapsed.
use Prim.Native.String
use go_mod_edge_utils.Prelude.{
  ◌≡◌, refl, ◌∙◌, Bool, true, false, Option, none, some, List, [], ◌∷◌, ◌++◌, All, if◌then◌else◌,
  Bool-cases, inl, inr,
}
use go_mod_edge_utils.Secret.{SecretErr, foreign, error_text, Result, ok, failed}
use go_mod_edge_utils.Secret.Client.{access_token_auth_error, contains}

-- Which provider is made.
pub data Provider : Type 0 where
  secure insecure : Provider

-- A round of the loop: the configuration fails; the client fails, and then the steps that have the
-- token made anew give a result, if they are taken; or the client is created, and the secrets of
-- the file are loaded if there is one.
pub data Round : Type 0 where
  config_failed : SecretErr → Round
  client_failed : SecretErr → Result Unit → Round
  created : Option (Result Unit) → Round

-- Whether a round ends the loop, and how.
abbrev pub Decided : Type 0
Decided = Option (Result (Option Provider))

abbrev pub regenerated : Result Unit → Decided
regenerated (failed e) = some (failed e)
regenerated (ok done) = none

abbrev pub loaded : Option (Result Unit) → Result (Option Provider)
loaded none = ok (some secure)
loaded (some (ok done)) = ok (some secure)
loaded (some (failed e)) = failed e

unfoldable pub decide : Round → Decided
unfolding error_text
decide (config_failed e) = none
decide (client_failed e regen) =
    if contains (error_text e) access_token_auth_error then regenerated regen else none
decide (created load) = some (loaded load)

-- `err` after a round that is retried.
abbrev pub err_of : Round → Option SecretErr
err_of (config_failed e) = some e
err_of (client_failed e regen) = some e
err_of (created load) = none

-- After the loop: without an error the provider is nil if no round was made.
abbrev pub gave_up : Option SecretErr → Result (Option Provider)
gave_up none = ok none
gave_up (some e) = failed (foreign (String.◌++◌ "unable to create SecretClient: " (error_text e)))

-- The loop, over the rounds that begin before the timer has elapsed.
unfoldable pub try_rounds : Option SecretErr → List Round → Result (Option Provider)
unfolding decide
try_rounds err [] = gave_up err
try_rounds err (r ∷ rounds) = elim (decide r) [
  | none ↦ try_rounds (err_of r) rounds
  | some result ↦ result
]

abbrev pub configured : Result Unit → List Round → Result (Option Provider)
configured (failed e) rounds = failed e
configured (ok done) rounds = try_rounds none rounds

-- `NewSecretProvider`, given whether security is enabled and the result of BuildSecretStoreConfig.
unfoldable pub new_secret_provider : Bool → Result Unit → List Round → Result (Option Provider)
unfolding try_rounds
new_secret_provider false store_config rounds = ok (some insecure)
new_secret_provider true store_config rounds = configured store_config rounds

-- A round that ends the loop, and what NewSecretProvider then gives.
pub data Ends : Round → Result (Option Provider) → Type 0 where
  connected : Ends (created none) (ok (some secure))
  seeded : Ends (created (some (ok tt))) (ok (some secure))
  not_seeded : {e : SecretErr} → Ends (created (some (failed e))) (failed e)
  not_regenerated :
      {e f : SecretErr}
      → contains (error_text e) access_token_auth_error ≡ true
      → Ends (client_failed e (failed f)) (failed f)

-- A round after which the loop goes on, and its error.
pub data Retries : Round → SecretErr → Type 0 where
  unconfigured : {e : SecretErr} → Retries (config_failed e) e
  unreachable :
      {e : SecretErr} {r : Result Unit}
      → contains (error_text e) access_token_auth_error ≡ false
      → Retries (client_failed e r) e
  regenerates : {e : SecretErr} → Retries (client_failed e (ok tt)) e

Ends-decide :
    {r : Round} {result : Result (Option Provider)} → Ends r result → decide r ≡ some result
unfolding decide
Ends-decide connected = refl
Ends-decide seeded = refl
Ends-decide not_seeded = refl
Ends-decide (not_regenerated h) = rw h

Retries-decide : {r : Round} {e : SecretErr} → Retries r e → (decide r ≡ none) × (err_of r ≡ some e)
unfolding decide
Retries-decide unconfigured = (refl, refl)
Retries-decide (unreachable h) = (rw h, refl)
Retries-decide {e = e} regenerates =
    elim (Bool-cases (contains (error_text e) access_token_auth_error)) [
      | inl expired ↦ (rw expired, refl)
      | inr other ↦ (rw other, refl)
    ]

abbrev pub AllRetried : List Round → Type 0
AllRetried rounds = All (λ r. (e : SecretErr) × Retries r e) rounds

try_rounds-retried :
    (err : Option SecretErr) (rounds : List Round) (r : Round) (rest : List Round)
    → AllRetried rounds
    → try_rounds err (rounds ++ r ∷ rest) ≡ try_rounds none (r ∷ rest)
unfolding try_rounds
try_rounds-retried err [] r rest h = refl
try_rounds-retried err (q ∷ rounds) r rest h =
    rw ((Retries-decide h.0.1).0, try_rounds) (try_rounds-retried (err_of q) rounds r rest h.1)

-- With security and a configuration of the store, NewSecretProvider ends with the first round that
-- creates the client or fails to have the token made anew, whatever would come after it: with a
-- secure provider, unless the seeding or that step fails, and then with its error. If every round
-- is retried, it fails with the text of the error of the last round. If the timer has elapsed
-- before the first round, both the provider and the error are nil.
pub new_secret_provider_lem :
    (rounds rest : List Round) (r last : Round) (result : Result (Option Provider)) (e : SecretErr)
    → AllRetried rounds
    → Ends r result
    → Retries last e
    → (new_secret_provider true (ok tt) (rounds ++ r ∷ rest) ≡ result)
      × (new_secret_provider true (ok tt) (rounds ++ last ∷ [])
          ≡ failed (foreign (String.◌++◌ "unable to create SecretClient: " (error_text e))))
      × (new_secret_provider true (ok tt) [] ≡ ok none)
unfolding new_secret_provider
new_secret_provider_lem rounds rest r last result e retried ends retries = (
  try_rounds-retried none rounds r rest retried ∙ rw (Ends-decide ends, try_rounds) refl,
  try_rounds-retried none rounds last [] retried
      ∙ rw ((Retries-decide retries).0, (Retries-decide retries).1, try_rounds) refl,
  refl,
)
