-- ===== src/Log/Tests.antt =====
-- Loggers at concrete calls.
use go_mod_edge_utils.Prelude.{
  ℕ, pos, String, Bool, true, false, none, some, List, [], ◌∷◌, ◌++◌, All, length, ◌≡◌, refl,
  string_eq,
}
use go_mod_edge_utils.Log.{
  Line, Logger, init_logger, text, given, run, Call, set_level, call_info, call_debug, call_errorf,
}
use go_mod_edge_utils.Log.Written.{IsPaired, expected, run-IsPaired}
use go_mod_edge_utils.Log.Audit as A
use go_mod_edge_utils.Log.Audit.Entries as E
use go_mod_edge_utils.Log.Audit.Entries.{run-init_logger, level_given, Given}
use go_mod_edge_utils.Log.Audit.Writer.{Configuration, absent, exists, writer_of, file, stdout}

-- A format that shows nothing of its arguments, and a writer that takes every line.
abbrev plain : String → List ℕ → String
plain format args = format

abbrev takes : Line ℕ → Bool
takes line = true

abbrev calls : List (Call ℕ)
calls =
    call_debug "hidden" []
    ∷ call_info "odd" (1 ∷ [])
    ∷ set_level "ERROR"
    ∷ call_info "hidden" []
    ∷ set_level "error"
    ∷ call_errorf "failed" (7 ∷ [])
    ∷ []

two_lines :
    run plain takes calls (init_logger "app" "bad")
    ≡ some (record {
      owning_service_name = "app";
      log_level = "ERROR";
      written =
          record { level = "INFO"; fields = given 1 ∷ text "" ∷ text "msg" ∷ text "odd" ∷ [] }
          ∷ record { level = "ERROR"; fields = text "msg" ∷ text "failed" ∷ [] }
          ∷ [];
    })
unfolding run init_logger
two_lines = refl

abbrev started : Logger ℕ
started = init_logger "app" "INFO"

run-IsPaired_example :
    (r : Logger ℕ) × (run plain takes calls started ≡ some r)
    × (r.written ≡ started.written ++ expected plain started.log_level calls)
    × All IsPaired (expected plain started.log_level calls)
run-IsPaired_example = run-IsPaired plain takes (λ line. refl) calls started

abbrev login : Given
login = record {
  now = 5;
  severity = "LOW";
  actor = "admin";
  action = "LOGIN";
  description = "";
  details = none;
}

-- FULL after the start does not show what is below BASE.
abbrev audited : List E.Call
audited = E.enable true ∷ E.cover "FULL" ∷ E.full login ∷ E.base login ∷ []

audited_once : length (E.run audited (A.init_logger (λ s. s) "app" "BASE")).written ≡ 1
unfolding E.run A.init_logger A.level_at
audited_once = refl

run-init_logger_example :
    (E.run audited (A.init_logger (λ s. s) "app" "BASE")).written
    ≡ E.expected (level_given "BASE") (A.init_logger (λ s. s) "app" "BASE") false audited
run-init_logger_example = run-init_logger (λ s. s) "app" "BASE" audited

abbrev unset : Configuration
unset = record {
  storage_dir = "";
  file_name = "";
  max_size = pos 0;
  max_age = pos 0;
  max_backups = pos 7;
}

default_writer :
    writer_of (λ path. absent) (λ path. false) (λ dir. true) (λ dir name. name) "app" false unset
    ≡ file "/tmp/log/audit/app-audit.log" (pos 100) (pos 7) (pos 28)
unfolding writer_of
default_writer = refl

locked_writer :
    writer_of (λ path. exists) (λ path. false) (λ dir. true) (λ dir name. name) "app" false unset
    ≡ stdout
unfolding writer_of
locked_writer = refl
