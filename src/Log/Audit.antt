-- ===== src/Log/Audit.antt =====
-- pkg/log/auditlog: auditlog.go, types.go, utils.go and config.go. A pointer to a LevelVar is an
-- address in the list of all that were made.
pub mod Entries
pub mod Writer
use Prim.Native.String
use go_mod_edge_utils.Prelude.{
  ℕ, zero, suc, ℤ, pos, negsuc, int_lt, String, Bool, true, false, not, ◌&&◌, Option, none, some,
  List, [], ◌∷◌, ◌++◌, length, if◌then◌else◌, ◌==◌, string_eq, nat_eq,
}
use go_mod_edge_utils.Log.{is_one_of}

abbrev pub base_coverage : String
base_coverage = "BASE"

abbrev pub advanced_coverage : String
advanced_coverage = "ADVANCED"

abbrev pub full_coverage : String
full_coverage = "FULL"

abbrev pub full_coverage_level : ℤ
full_coverage_level = negsuc 7

abbrev pub advanced_coverage_level : ℤ
advanced_coverage_level = pos 2

abbrev pub base_coverage_level : ℤ
base_coverage_level = pos 12

-- `slogLevelFromString`
abbrev pub slog_level_from_string : String → ℤ
slog_level_from_string coverage_level =
    if coverage_level == base_coverage
    then base_coverage_level
    else if coverage_level == advanced_coverage
    then advanced_coverage_level
    else if coverage_level == full_coverage
    then full_coverage_level
    else base_coverage_level

-- `coverageLevels`
abbrev pub coverage_levels : List String
coverage_levels = full_coverage ∷ advanced_coverage ∷ base_coverage ∷ []

-- `isValidCoverageLevel`
unfoldable pub is_valid_coverage_level : String → Bool
unfolding is_one_of
is_valid_coverage_level l = is_one_of coverage_levels l

abbrev pub action_types : List String
action_types =
    "CREATE" ∷ "DELETE" ∷ "DOWNLOAD" ∷ "LOGIN" ∷ "LOGOUT" ∷ "INVOKE" ∷ "READ" ∷ "UNKNOWN" ∷ "UPDATE"
    ∷ "UPLOAD" ∷ "VIEW" ∷ "WRITE" ∷ []

-- `isValidActionType`
unfoldable pub is_valid_action_type : String → Bool
unfolding is_one_of
is_valid_action_type a = is_one_of action_types a

abbrev pub severities : List String
severities = "CRITICAL" ∷ "NORMAL" ∷ "MINOR" ∷ []

-- What stands in a line of the log; `details` are the texts of the details, if there are any.
pub record Entry : Type 0 where
  pub level : String
  pub ts : ℕ
  pub app : String
  pub severity : String
  pub actor : String
  pub action : String
  pub desc : String
  pub details : Option String

pub record Logger : Type 0 where
  pub enabled : Bool
  pub owning_service_name : String
  pub coverage_level : ℕ
  pub handler_level : ℕ
  pub level_vars : List ℤ
  pub written : List Entry

-- The value of a LevelVar; a new one has the value 0.
unfoldable pub level_at : ℕ → List ℤ → ℤ
level_at n [] = pos 0
level_at zero (level ∷ levels) = level
level_at (suc n) (level ∷ levels) = level_at n levels

-- `SetCoverageLevel`: a new LevelVar each time.
unfoldable pub set_coverage_level : String → Logger → Logger
unfolding is_valid_coverage_level
set_coverage_level coverage_level l =
    let name = if is_valid_coverage_level coverage_level then coverage_level else base_coverage in
    record l {
      level_vars = l.level_vars ++ slog_level_from_string name ∷ [];
      coverage_level = length l.level_vars;
    }

-- `SetEnabled`
unfoldable pub set_enabled : Bool → Logger → Logger
set_enabled enabled l = record l { enabled = enabled }

-- The handler is made with the LevelVar that is there at the end of `InitLogger`.
abbrev pub with_handler : Logger → Logger
with_handler l = record l { handler_level = l.coverage_level }

abbrev pub blank : String → Logger
blank owning_service_name = record {
  enabled = false;
  owning_service_name = owning_service_name;
  coverage_level = 0;
  handler_level = 0;
  level_vars = [];
  written = [];
}

-- `InitLogger`, but for the choice of the writer.
unfoldable pub init_logger : (String → String) → String → String → Logger
unfolding set_coverage_level
init_logger to_upper owning_service_name coverage_level =
    with_handler (set_coverage_level (to_upper coverage_level) (blank owning_service_name))

-- The name of the level in a line, as `replaceAttr` writes it.
abbrev pub level_name : ℤ → String
level_name (negsuc n) = if suc n == 8 then full_coverage else base_coverage
level_name (pos n) = if n == 2 then advanced_coverage else base_coverage

abbrev pub severity_or_normal : String → String
severity_or_normal severity =
    if not (severity == "CRITICAL") && not (severity == "NORMAL") && not (severity == "MINOR")
    then "NORMAL"
    else severity

abbrev pub action_or_unknown : String → String
action_or_unknown action = if is_valid_action_type action then action else "UNKNOWN"

module _ (now : ℕ) (severity actor action description : String) (details : Option String) where
  unfoldable pub entry_of : ℤ → Logger → Entry
  unfolding is_valid_action_type
  entry_of level l = record {
    level = level_name level;
    ts = now;
    app = l.owning_service_name;
    severity = severity_or_normal severity;
    actor = actor;
    action = action_or_unknown action;
    desc = description;
    details = details;
  }

  -- `log`; the handler drops what is below its level.
  unfoldable pub log : ℤ → Logger → Logger
  unfolding entry_of level_at
  log level l =
      if l.enabled
      then (if int_lt level (level_at l.handler_level l.level_vars)
          then l
          else record l { written = l.written ++ entry_of level l ∷ [] })
      else l

  unfoldable pub log_base : Logger → Logger
  unfolding log
  log_base = log base_coverage_level

  unfoldable pub log_advanced : Logger → Logger
  unfolding log
  log_advanced = log advanced_coverage_level

  unfoldable pub log_full : Logger → Logger
  unfolding log
  log_full = log full_coverage_level
