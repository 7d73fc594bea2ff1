-- ===== src/Environment/Startup.antt =====
-- pkg/bootstrap/environment/variables.go: the settings that are needed before the configuration.
use go_mod_edge_utils.Prelude.{suc, ℤ, pos, String, if◌then◌else◌, ◌==◌, string_eq}
use go_mod_edge_utils.Environment.Convert.{Number, value, parse_int}

abbrev pub boot_timeout_seconds_default : ℤ
boot_timeout_seconds_default = pos 60

abbrev pub boot_retry_seconds_default : ℤ
boot_retry_seconds_default = pos 1

abbrev pub default_config_dir_value : String
default_config_dir_value = "./res"

abbrev pub default_config_file_value : String
default_config_file_value = "configuration.json"

abbrev pub env_key_startup_duration : String
env_key_startup_duration = "EDGE_STARTUP_DURATION"

abbrev pub env_key_startup_interval : String
env_key_startup_interval = "EDGE_STARTUP_INTERVAL"

abbrev pub env_key_config_dir : String
env_key_config_dir = "EDGE_CONFIG_DIR"

abbrev pub env_key_config_file : String
env_key_config_file = "EDGE_CONFIG_FILE"

pub record StartupInfo : Type 0 where
  pub duration : ℤ
  pub interval : ℤ

-- A number that is parsed and is positive replaces the default.
abbrev pub positive_or : ℤ → Number ℤ → ℤ
positive_or default (value (pos (suc n))) = pos (suc n)
positive_or default _ = default

-- The environment, with the empty text for a variable that is not set.
module _ (getenv : String → String) where
  unfoldable pub seconds_from : String → ℤ → ℤ
  unfolding parse_int
  seconds_from key default =
      if getenv key == "" then default else positive_or default (parse_int 64 (getenv key))

  -- `GetStartupInfo`
  unfoldable pub get_startup_info : StartupInfo
  unfolding seconds_from
  get_startup_info = record {
    duration = seconds_from env_key_startup_duration boot_timeout_seconds_default;
    interval = seconds_from env_key_startup_interval boot_retry_seconds_default;
  }

  -- The variable before the argument, and the default for the empty text.
  unfoldable pub preferred : String → String → String → String
  preferred key given default =
      let chosen = if getenv key == "" then given else getenv key in
      if chosen == "" then default else chosen

  -- `GetConfigDir`
  unfoldable pub get_config_dir : String → String
  unfolding preferred
  get_config_dir config_dir = preferred env_key_config_dir config_dir default_config_dir_value

  -- `GetConfigFileName`
  unfoldable pub get_config_file_name : String → String
  unfolding preferred
  get_config_file_name config_file_name =
      preferred env_key_config_file config_file_name default_config_file_value
