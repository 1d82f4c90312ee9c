-- ===== src/Config/Types.antt =====
-- internal/config/types.go, with database.go and secret.go: the configuration and its job names. The
-- map of the jobs is a list of names and jobs; Go does not fix the order in which a map is read.
pub mod Names
use ezdbbackup.Common.{
  ℕ, Bool, true, false, Option, none, some, List, [], ◌∷◌, if◌then◌else◌, ℤ, pos,
}
use ezdbbackup.Common.Bytes.{Bytes, equal}
use ezdbbackup.Common.Sorting.{sort_strings}

pub record Defaults : Type 0 where
  pub dump_binary : Bytes
  pub temp_dir : Bytes

pub record RotationConfig : Type 0 where
  pub max_size_mb : ℤ
  pub max_files : ℤ
  pub max_age_days : ℤ
  pub compress : Bool

pub record LoggingConfig : Type 0 where
  pub directory : Bytes
  pub debug : Bool
  pub rotation : RotationConfig

pub record DatabaseSelection : Type 0 where
  pub every : Bool
  pub names : List Bytes

pub record MySqlConfig : Type 0 where
  pub host : Bytes
  pub port : ℤ
  pub user : Bytes
  pub password : Bytes
  pub password_file : Bytes
  pub databases : DatabaseSelection
  pub extra_args : List Bytes

pub record S3Config : Type 0 where
  pub bucket : Bytes
  pub prefix : Bytes
  pub region : Bytes
  pub endpoint : Bytes
  pub force_path_style : Bool
  pub access_key_id : Bytes
  pub access_key_id_file : Bytes
  pub secret_access_key : Bytes
  pub secret_access_key_file : Bytes
  pub session_token : Bytes
  pub session_token_file : Bytes

pub record JobConfig : Type 0 where
  pub enabled : Bool
  pub schedule : Bytes
  pub run_as : Bytes
  pub dump_binary : Bytes
  pub temp_dir : Bytes
  pub mysql : MySqlConfig
  pub s3 : S3Config

abbrev pub Jobs : Type 0
Jobs = List (Bytes × JobConfig)

pub record Config : Type 0 where
  pub version : ℤ
  pub defaults : Defaults
  pub logging : LoggingConfig
  pub jobs : Jobs

-- The value of a missing key: all fields zero.
abbrev pub no_job : JobConfig
no_job = record {
  enabled = false;
  schedule = [];
  run_as = [];
  dump_binary = [];
  temp_dir = [];
  mysql = record {
    host = [];
    port = pos 0;
    user = [];
    password = [];
    password_file = [];
    databases = record { every = false; names = [] };
    extra_args = [];
  };
  s3 = record {
    bucket = [];
    prefix = [];
    region = [];
    endpoint = [];
    force_path_style = false;
    access_key_id = [];
    access_key_id_file = [];
    secret_access_key = [];
    secret_access_key_file = [];
    session_token = [];
    session_token_file = [];
  };
}

-- `job, exists := cfg.Jobs[name]`
unfoldable pub find_job : Bytes → Jobs → Option JobConfig
find_job name [] = none
find_job name ((key, job) ∷ jobs) = if equal key name then some job else find_job name jobs

abbrev or_zero : Option JobConfig → JobConfig
or_zero none = no_job
or_zero (some job) = job

-- `cfg.Jobs[name]`
unfoldable pub job_at : Bytes → Jobs → JobConfig
unfolding find_job
job_at name jobs = or_zero (find_job name jobs)

unfoldable pub all_names : Jobs → List Bytes
all_names [] = []
all_names ((name, job) ∷ jobs) = name ∷ all_names jobs

unfoldable pub enabled_names : Jobs → List Bytes
enabled_names [] = []
enabled_names ((name, job) ∷ jobs) =
    let rest = enabled_names jobs in if job.enabled then name ∷ rest else rest

-- `(*Config).JobNames`; a nil configuration is `none`.
unfoldable pub job_names : Option Config → List Bytes
unfolding all_names sort_strings
job_names none = []
job_names (some c) = sort_strings (all_names c.jobs)

-- `(*Config).EnabledJobNames`
unfoldable pub enabled_job_names : Option Config → List Bytes
unfolding enabled_names
enabled_job_names none = []
enabled_job_names (some c) = sort_strings (enabled_names c.jobs)
