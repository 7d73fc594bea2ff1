-- ===== src/Log.antt =====
-- pkg/log/log.go: a logger with a minimum level, which its copies share.
pub mod Audit
pub mod Written
pub mod Tests
use Prim.Native.String
use go_mod_edge_utils.Prelude.{
  ℕ, ◌%◌, String, Bool, true, false, Option, none, some, List, [], ◌∷◌, ◌++◌, length, map,
  if◌then◌else◌, ◌==◌, string_eq, nat_eq,
}
use go_mod_edge_utils.Errors.{GoError, nil, foreign}

abbrev pub trace_log : String
trace_log = "TRACE"

abbrev pub debug_log : String
debug_log = "DEBUG"

abbrev pub info_log : String
info_log = "INFO"

abbrev pub warn_log : String
warn_log = "WARN"

abbrev pub error_log : String
error_log = "ERROR"

-- `logLevels`
abbrev pub log_levels : List String
log_levels = trace_log ∷ debug_log ∷ info_log ∷ warn_log ∷ error_log ∷ []

-- The loop of `isValidLogLevel`.
unfoldable pub is_one_of : List String → String → Bool
is_one_of [] l = false
is_one_of (name ∷ names) l = if name == l then true else is_one_of names l

-- `isValidLogLevel`
unfoldable pub is_valid_log_level : String → Bool
unfolding is_one_of
is_valid_log_level l = is_one_of log_levels l

-- The loop of `log` over the levels: whether it returns.
unfoldable pub is_below : List String → String → String → Bool
is_below [] minimum level = false
is_below (name ∷ names) minimum level =
    let rest = is_below names minimum level in
    if name == minimum then false else if name == level then true else rest

-- An element of what is given to a level's logger: a text, or an argument of the caller.
pub data Arg {ℓ} (A : Type ℓ) : Type ℓ where
  text : String → Arg A
  given : A → Arg A

-- A line: its level, and the keys and values behind the level.
pub record Line {ℓ} (A : Type ℓ) : Type ℓ where
  pub level : String
  pub fields : List (Arg A)

-- The logger, with all that it has written.
pub record Logger {ℓ} (A : Type ℓ) : Type ℓ where
  pub owning_service_name : String
  pub log_level : String
  pub written : List (Line A)

-- `InitLogger`
unfoldable pub init_logger {ℓ} : {A : Type ℓ} → String → String → Logger A
unfolding is_valid_log_level
init_logger owning_service_name log_level = record {
  owning_service_name = owning_service_name;
  log_level = if is_valid_log_level log_level then log_level else info_log;
  written = [];
}

-- A call of the interface, with the arguments of its method.
pub data Call {ℓ} (A : Type ℓ) : Type ℓ where
  set_level : String → Call A
  call_info call_trace call_debug call_warn call_error : String → List A → Call A
  call_infof call_tracef call_debugf call_warnf call_errorf : String → List A → Call A

module _ {ℓ} {A : Type ℓ} where
  -- An empty text keeps the pairs of keys and values correct.
  abbrev pub padded : List (Arg A) → List (Arg A)
  padded args = if length args % 2 == 1 then args ++ text "" ∷ [] else args

  abbrev pub with_msg : String → List (Arg A) → List (Arg A)
  with_msg msg args = if msg == "" then args else args ++ text "msg" ∷ text msg ∷ []

  -- `SetLogLevel`
  unfoldable pub set_log_level : String → Logger A → Logger A × GoError
  unfolding is_valid_log_level
  set_log_level log_level l =
      if is_valid_log_level log_level
      then (record l { log_level = log_level }, nil)
      else (l, foreign (String.◌++◌ "invalid log level `" (String.◌++◌ log_level "`")) nil)

  -- `fmt.Sprintf`; no arguments are a nil slice.
  module _ (sprintf : String → List A → String) where
    abbrev pub fields_of : Bool → String → List A → List (Arg A)
    fields_of formatted msg [] = text "msg" ∷ text msg ∷ []
    fields_of true msg args = text "msg" ∷ text (sprintf msg args) ∷ []
    fields_of false msg args = with_msg msg (padded (map given args))

    -- Whether the writer takes a line; if it does not, the process ends.
    module _ (takes : Line A → Bool) where
      abbrev pub emit : Line A → Logger A → Option (Logger A)
      emit line l =
          if takes line then some (record l { written = l.written ++ line ∷ [] }) else none

      -- `log`
      unfoldable pub log : String → Bool → String → List A → Logger A → Option (Logger A)
      unfolding is_below
      log log_level formatted msg args l =
          if is_below log_levels l.log_level log_level
          then some l
          else emit (record { level = log_level; fields = fields_of formatted msg args }) l

      unfoldable pub info : String → List A → Logger A → Option (Logger A)
      unfolding log
      info msg args = log info_log false msg args

      unfoldable pub trace : String → List A → Logger A → Option (Logger A)
      unfolding log
      trace msg args = log trace_log false msg args

      unfoldable pub debug : String → List A → Logger A → Option (Logger A)
      unfolding log
      debug msg args = log debug_log false msg args

      unfoldable pub warn : String → List A → Logger A → Option (Logger A)
      unfolding log
      warn msg args = log warn_log false msg args

      unfoldable pub error : String → List A → Logger A → Option (Logger A)
      unfolding log
      error msg args = log error_log false msg args

      unfoldable pub infof : String → List A → Logger A → Option (Logger A)
      unfolding log
      infof msg args = log info_log true msg args

      unfoldable pub tracef : String → List A → Logger A → Option (Logger A)
      unfolding log
      tracef msg args = log trace_log true msg args

      unfoldable pub debugf : String → List A → Logger A → Option (Logger A)
      unfolding log
      debugf msg args = log debug_log true msg args

      unfoldable pub warnf : String → List A → Logger A → Option (Logger A)
      unfolding log
      warnf msg args = log warn_log true msg args

      unfoldable pub errorf : String → List A → Logger A → Option (Logger A)
      unfolding log
      errorf msg args = log error_log true msg args

      unfoldable pub step : Call A → Logger A → Option (Logger A)
      unfolding set_log_level info trace debug warn error infof tracef debugf warnf errorf
      step (set_level level) l = some (set_log_level level l).0
      step (call_info msg args) l = info msg args l
      step (call_trace msg args) l = trace msg args l
      step (call_debug msg args) l = debug msg args l
      step (call_warn msg args) l = warn msg args l
      step (call_error msg args) l = error msg args l
      step (call_infof msg args) l = infof msg args l
      step (call_tracef msg args) l = tracef msg args l
      step (call_debugf msg args) l = debugf msg args l
      step (call_warnf msg args) l = warnf msg args l
      step (call_errorf msg args) l = errorf msg args l

      unfoldable pub run : List (Call A) → Logger A → Option (Logger A)
      unfolding step
      run [] l = some l
      run (c ∷ cs) l = elim (step c l) [ none ↦ none | some l' ↦ run cs l' ]
