-- ===== src/Log/Audit/Writer.antt =====
-- pkg/log/auditlog: the defaults of config.go, and the writer that InitLogger chooses.
use Prim.Native.String
use go_mod_edge_utils.Prelude.{
  ℤ, pos, String, Bool, true, false, if◌then◌else◌, ◌==◌, string_eq, nat_eq,
}

pub record Configuration : Type 0 where
  pub storage_dir : String
  pub file_name : String
  pub max_size : ℤ
  pub max_age : ℤ
  pub max_backups : ℤ

abbrev pub default_config : Configuration
default_config = record {
  storage_dir = "/tmp/log/audit";
  file_name = "audit.log";
  max_size = pos 100;
  max_age = pos 28;
  max_backups = pos 3;
}

abbrev pub text_or : String → String → String
text_or given default = if given == "" then default else given

abbrev pub number_or : ℤ → ℤ → ℤ
number_or (pos n) default = if n == 0 then default else pos n
number_or given default = given

-- `setDefault`
unfoldable pub set_default : Configuration → Configuration
set_default c = record {
  storage_dir = text_or c.storage_dir default_config.storage_dir;
  file_name = text_or c.file_name default_config.file_name;
  max_size = number_or c.max_size default_config.max_size;
  max_age = number_or c.max_age default_config.max_age;
  max_backups = number_or c.max_backups default_config.max_backups;
}

-- What `os.Stat` says of a path.
pub data Stat : Type 0 where
  exists absent unknown : Stat

-- The writer: that of the caller, a file that is rotated, or the standard output.
pub data Writer : Type 0 where
  given : Writer
  file : String → ℤ → ℤ → ℤ → Writer
  stdout : Writer

-- The file system: the status of a path, whether a file can be opened to read and write, whether
-- a temporary file can be made in a directory, and how a path is joined.
module _ (stat : String → Stat) (opens : String → Bool) (creates : String → Bool)
    (join : String → String → String) where
  -- `canCreateFileInDir`
  unfoldable pub can_create_file_in_dir : String → String → Bool
  can_create_file_in_dir dir_path file_name = elim (stat (join dir_path file_name)) [
    | exists ↦ opens (join dir_path file_name)
    | absent ↦ creates dir_path
    | unknown ↦ false
  ]

  abbrev pub rotated : String → Configuration → Writer
  rotated name c =
      if can_create_file_in_dir c.storage_dir name
      then file (String.◌++◌ c.storage_dir (String.◌++◌ "/" name)) c.max_size c.max_backups
          c.max_age
      else stdout

  -- The choice of the writer in `InitLogger`, by whether the caller gives one.
  unfoldable pub writer_of : String → Bool → Configuration → Writer
  unfolding set_default can_create_file_in_dir
  writer_of owning_service_name true config = given
  writer_of owning_service_name false config =
      let c = set_default config in
      rotated (String.◌++◌ owning_service_name (String.◌++◌ "-" c.file_name)) c
