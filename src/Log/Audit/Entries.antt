-- ===== src/Log/Audit/Entries.antt =====
-- Which entries an audit log has: SetCoverageLevel has no part in it.
use go_mod_edge_utils.Prelude.{
  ℕ, zero, suc, ◌<◌, ℤ, int_lt, String, Bool, false, not, ◌&&◌, Option, none, some, List, [], ◌∷◌,
  ◌++◌, append-nil, append_assoc, length, length-append, if◌then◌else◌, string_eq, Bool-cases, inl,
  inr, ◌≡◌, refl, sym, ◌∙◌, arith,
}
use go_mod_edge_utils.Log.Audit.{
  Logger, Entry, level_at, set_enabled, set_coverage_level, init_logger, entry_of, log, log_base,
  log_advanced, log_full, base_coverage, base_coverage_level, advanced_coverage_level,
  full_coverage_level, slog_level_from_string, is_valid_coverage_level,
}

-- What is given to a call that logs.
pub record Given : Type 0 where
  pub now : ℕ
  pub severity : String
  pub actor : String
  pub action : String
  pub description : String
  pub details : Option String

pub data Call : Type 0 where
  enable : Bool → Call
  cover : String → Call
  base advanced full : Given → Call

unfoldable pub step : Call → Logger → Logger
unfolding set_enabled set_coverage_level log_base log_advanced log_full
step (enable b) l = set_enabled b l
step (cover coverage_level) l = set_coverage_level coverage_level l
step (base g) l = log_base g.now g.severity g.actor g.action g.description g.details l
step (advanced g) l = log_advanced g.now g.severity g.actor g.action g.description g.details l
step (full g) l = log_full g.now g.severity g.actor g.action g.description g.details l

unfoldable pub run : List Call → Logger → Logger
unfolding step
run [] l = l
run (c ∷ cs) l = run cs (step c l)

-- The level and the arguments of a call that logs.
abbrev pub logged : Call → Option (ℤ × Given)
logged (enable b) = none
logged (cover coverage_level) = none
logged (base g) = some (base_coverage_level, g)
logged (advanced g) = some (advanced_coverage_level, g)
logged (full g) = some (full_coverage_level, g)

abbrev pub enabled_after : Bool → Call → Bool
enabled_after enabled (enable b) = b
enabled_after enabled _ = enabled

-- The entry of a call, if the logger is enabled and the level is at least the threshold.
module _ (threshold : ℤ) (l : Logger) where
  abbrev pub entries_at : Bool → Option (ℤ × Given) → List Entry
  entries_at enabled none = []
  entries_at enabled (some (level, g)) =
      if enabled && not (int_lt level threshold)
      then entry_of g.now g.severity g.actor g.action g.description g.details level l ∷ []
      else []

  unfoldable pub expected : Bool → List Call → List Entry
  expected enabled [] = []
  expected enabled (c ∷ cs) = entries_at enabled (logged c) ++ expected (enabled_after enabled c) cs

-- The level that the handler goes by, and what no call changes.
pub record IsHandled (threshold : ℤ) (origin l : Logger) : Type 0 where
  pub within : l.handler_level < length l.level_vars
  pub handled : level_at l.handler_level l.level_vars ≡ threshold
  pub named : l.owning_service_name ≡ origin.owning_service_name

level_at-append :
    (n : ℕ) (levels more : List ℤ)
    → n < length levels
    → level_at n (levels ++ more) ≡ level_at n levels
unfolding level_at
level_at-append n [] more h = absurd (omega arith)
level_at-append zero (level ∷ levels) more h = refl
level_at-append (suc n) (level ∷ levels) more h = level_at-append n levels more (omega arith)

module _ (threshold : ℤ) (origin : Logger) where
  cover-IsHandled :
      (coverage_level : String) (l : Logger)
      → IsHandled threshold origin l
      → IsHandled threshold origin (set_coverage_level coverage_level l)
  unfolding set_coverage_level
  cover-IsHandled coverage_level l h = record {
    within = rw length-append (omega (arith, h.within));
    handled = level_at-append l.handler_level l.level_vars _ h.within ∙ h.handled;
    named = h.named;
  }

  entry-named :
      (g : Given) (level : ℤ) (l : Logger)
      → l.owning_service_name ≡ origin.owning_service_name
      → entry_of g.now g.severity g.actor g.action g.description g.details level l
        ≡ entry_of g.now g.severity g.actor g.action g.description g.details level origin
  unfolding entry_of
  entry-named g level l n = cc

  log-written :
      (g : Given) (level : ℤ) (l : Logger)
      → IsHandled threshold origin l
      → (log g.now g.severity g.actor g.action g.description g.details level l).written
        ≡ l.written ++ entries_at threshold origin l.enabled (some (level, g))
  unfolding log
  log-written g level l h =
      ground (arith, append-nil l.written, h.handled, entry-named g level l h.named)

  log-IsHandled :
      (g : Given) (level : ℤ) (l : Logger)
      → IsHandled threshold origin l
      → IsHandled threshold origin
          (log g.now g.severity g.actor g.action g.description g.details level l)
        × ((log g.now g.severity g.actor g.action g.description g.details level l).enabled
            ≡ l.enabled)
  unfolding log
  log-IsHandled g level l h = elim (Bool-cases l.enabled) [
    | inl on ↦ rw on (elim (Bool-cases (int_lt level (level_at l.handler_level l.level_vars))) [
      | inl low ↦ rw low (record { within = h.within; handled = h.handled; named = h.named }, refl)
      | inr high ↦
          rw high (record { within = h.within; handled = h.handled; named = h.named }, refl)
    ])
    | inr off ↦ rw off (record { within = h.within; handled = h.handled; named = h.named }, refl)
  ]

  -- Every call leaves the level of the handler, and adds its entry.
  step-IsHandled :
      (c : Call) (l : Logger)
      → IsHandled threshold origin l
      → IsHandled threshold origin (step c l)
        × ((step c l).enabled ≡ enabled_after l.enabled c)
        × ((step c l).written ≡ l.written ++ entries_at threshold origin l.enabled (logged c))
  unfolding step
  step-IsHandled (enable b) l h = (
    record { within = h.within; handled = h.handled; named = h.named },
    refl,
    sym (append-nil l.written),
  )
  step-IsHandled (cover coverage_level) l h =
      (cover-IsHandled coverage_level l h, refl, sym (append-nil l.written))
  step-IsHandled (base g) l h =
      let (k, e) = log-IsHandled g base_coverage_level l h in
      (k, e, log-written g base_coverage_level l h)
  step-IsHandled (advanced g) l h =
      let (k, e) = log-IsHandled g advanced_coverage_level l h in
      (k, e, log-written g advanced_coverage_level l h)
  step-IsHandled (full g) l h =
      let (k, e) = log-IsHandled g full_coverage_level l h in
      (k, e, log-written g full_coverage_level l h)

  run-expected :
      (cs : List Call) (l : Logger)
      → IsHandled threshold origin l
      → (run cs l).written ≡ l.written ++ expected threshold origin l.enabled cs
  unfolding run expected
  run-expected [] l h = sym (append-nil l.written)
  run-expected (c ∷ cs) l h =
      let (k, e, w) = step-IsHandled c l h in
      run-expected cs (step c l) k ∙ rw (e, w) (append_assoc l.written _ _)

-- The level that the name given to InitLogger stands for.
abbrev pub level_given : String → ℤ
level_given name =
    slog_level_from_string (if is_valid_coverage_level name then name else base_coverage)

init_logger-IsHandled :
    (to_upper : String → String) (name coverage_level : String)
    → IsHandled
        (level_given (to_upper coverage_level))
        (init_logger to_upper name coverage_level)
        (init_logger to_upper name coverage_level)
unfolding init_logger level_at
init_logger-IsHandled to_upper name coverage_level = record {
  within = omega arith;
  handled = refl;
  named = refl;
}

-- After any calls of a new logger, its entries are those of the calls that logged, in order, at a
-- time when the logger was enabled, with a level that is at least that given to InitLogger.
-- SetCoverageLevel has no effect.
pub run-init_logger :
    (to_upper : String → String) (name coverage_level : String) (cs : List Call)
    → (run cs (init_logger to_upper name coverage_level)).written
      ≡ expected
          (level_given (to_upper coverage_level))
          (init_logger to_upper name coverage_level)
          false
          cs
unfolding init_logger
run-init_logger to_upper name coverage_level cs =
    run-expected (level_given (to_upper coverage_level)) (init_logger to_upper name coverage_level)
      cs (init_logger to_upper name coverage_level)
      (init_logger-IsHandled to_upper name coverage_level)
