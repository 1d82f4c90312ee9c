-- ===== src/Validation/Jobs.antt =====
-- internal/validation/validator.go: the local checks of the selected jobs.
use ezdbbackup.Common.{
  ℕ, Bool, true, false, ◌&&◌, Option, none, some, List, [], ◌∷◌, ◌++◌, String, if◌then◌else◌,
}
use ezdbbackup.Common.Exec.{◌>>=◌, pure}
use ezdbbackup.Common.World.{perform, consult}
use ezdbbackup.Common.Bytes.{Bytes, is_empty, member}
use ezdbbackup.Config.Types.{S3Config, JobConfig, Config, job_at}
use ezdbbackup.Backup.Fault.{Fault}
use ezdbbackup.Validation.Report.{LiveFinding, append_check}
use ezdbbackup.Validation.Selection.{Prerequisites, States, without_local}
use ezdbbackup.Validation.Connectivity.{
  identity_checked, runtime_executed, dump_executed, LiveExec, Environment,
}

-- `Options`, with the source that the configuration was read from
pub record CheckOptions : Type 0 where
  pub connectivity : Bool
  pub backup_execution : Bool
  pub binary_path : Bytes
  pub config_path : Bytes
  pub source : Option ℕ

abbrev pub unless_failed :
    Option Fault → (Prerequisites → Prerequisites) → Prerequisites → Prerequisites
unless_failed none change s = s
unless_failed (some f) change s = change s

abbrev pub passed : Option Fault → Bool
passed none = true
passed (some f) = false

abbrev pub without_mysql : Prerequisites → Prerequisites
without_mysql s = record s { mysql_local = false }

abbrev pub without_s3 : Prerequisites → Prerequisites
without_s3 s = record s { s3_local = false }

-- Every job loses its local prerequisites.
abbrev pub all_without_local : States → States
all_without_local [] = []
all_without_local ((name, s) ∷ states) = (name, without_local s) ∷ all_without_local states

-- `logRunAs`: each account once, in the order of the jobs
unfoldable pub log_run_as : Config → List Bytes → States → List Bytes
log_run_as c seen [] = []
log_run_as c seen ((name, s) ∷ states) =
    let run_as = (job_at name c.jobs).run_as in
    let again = log_run_as c seen states in
    let more = log_run_as c (run_as ∷ seen) states in
    if member run_as seen then again else run_as ∷ more

-- `secretFileCheck`
pub record SecretFileCheck : Type 0 where
  pub path : Bytes
  pub check : String
  pub message : String

-- `s3SecretFiles`
abbrev pub s3_secret_files : S3Config → List SecretFileCheck
s3_secret_files s =
    record {
      path = s.access_key_id_file;
      check = "s3_access_key_id_file";
      message = "S3 access key ID file is invalid";
    }
    ∷ record {
      path = s.secret_access_key_file;
      check = "s3_secret_access_key_file";
      message = "S3 secret access key file is invalid";
    }
    ∷ record {
      path = s.session_token_file;
      check = "s3_session_token_file";
      message = "S3 session token file is invalid";
    }
    ∷ []

-- the findings of a job, in the order of the checks
abbrev pub job_report :
    Bytes
    → Option Fault
    → List LiveFinding
    → Option Fault
    → List LiveFinding
    → Option Fault
    → List LiveFinding
    → List LiveFinding
    → List LiveFinding
job_report name user runtime source executable staging password secrets =
    append_check name "run_as_user" "configured run_as user is unavailable" user
    ++ (runtime
        ++ (append_check name "configuration_file"
              "configuration file is unreadable or unsafe for execution" source
            ++ (executable
                ++ (append_check name "temp_directory"
                      "temporary directory is not writable or safe for staging" staging
                    ++ (password ++ secrets)))))

module _ {E : Type 0} (env : Environment E) where
  -- What a check of a job gives: what it appends, and the prerequisites that are left.
  abbrev pub JobExec : Type 0
  JobExec = LiveExec E (List LiveFinding × Prerequisites)

  -- `checkConfigurationSource`
  abbrev pub config_source_answer :
      Option (ℕ → Bytes → E → Option Fault × E) → Option ℕ → Bytes → Bytes → E → Option Fault × E
  config_source_answer (some check) (some source) path run_as = check source run_as
  config_source_answer (some check) none path run_as = env.check_config_file path run_as
  config_source_answer none source path run_as = env.check_config_file path run_as

  -- `checkExecutable`
  abbrev pub executable_answer :
      Option (Bytes → Bytes → E → Option Fault × E) → Bytes → Bytes → E → Option Fault × E
  executable_answer (some check) path run_as = check path run_as
  executable_answer none path run_as = env.check_executable path

  -- `checkStagingTarget`
  abbrev pub staging_answer :
      Option (Bytes → Bytes → E → Option Fault × E) → Bytes → Bytes → E → Option Fault × E
  staging_answer (some check) path run_as = check path run_as
  staging_answer none path run_as = env.check_writable_target path run_as

  -- The checks of the identities of the selected jobs: the report, and whether none failed.
  unfoldable pub check_identities : Config → States → LiveExec E (List LiveFinding × Bool)
  check_identities c [] = pure ([], true)
  check_identities c ((name, s) ∷ states) = do
    answer ←
        perform (identity_checked (job_at name c.jobs).run_as)
          (env.check_run_identity (job_at name c.jobs).run_as)
    rest ← check_identities c states
    pure (
      append_check name "execution_identity" "process identity does not match configured run_as"
            answer
          ++ rest.0,
      passed answer && rest.1,
    )

  -- The executables of a job are run only where all identities match.
  unfoldable pub check_runtime : Bool → CheckOptions → Bytes → JobConfig → Prerequisites → JobExec
  check_runtime false options name job s = pure ([], s)
  check_runtime true options name job s = do
    answer ←
        perform (runtime_executed options.binary_path job.run_as)
          (env.check_runtime_executable options.binary_path job.run_as)
    pure (
      append_check name "runtime_executable" "ezdbbackup executable is unavailable or unsafe"
          answer,
      unless_failed answer without_local s,
    )

  unfoldable pub check_dump_executable : Bool → Bytes → JobConfig → Prerequisites → JobExec
  check_dump_executable false name job s = pure ([], s)
  check_dump_executable true name job s = do
    answer ←
        perform (dump_executed job.dump_binary job.run_as)
          (executable_answer env.check_executable_as job.dump_binary job.run_as)
    pure (
      append_check name "dump_executable" "dump executable is unavailable" answer,
      unless_failed answer without_mysql s,
    )

  unfoldable pub check_password_file : Bytes → JobConfig → Prerequisites → JobExec
  check_password_file name job s = if is_empty job.mysql.password_file then pure ([], s) else do
    answer ← consult (env.check_secret_file job.mysql.password_file job.run_as)
    pure (
      append_check name "mysql_password_file" "MySQL password file is invalid" answer,
      unless_failed answer without_mysql s,
    )

  unfoldable pub check_secret_file : Bytes → Bytes → SecretFileCheck → Prerequisites → JobExec
  check_secret_file name run_as secret s = if is_empty secret.path then pure ([], s) else do
    answer ← consult (env.check_secret_file secret.path run_as)
    pure (append_check name secret.check secret.message answer, unless_failed answer without_s3 s)

  -- the loop over the secret files of S3
  unfoldable pub check_secret_files : Bytes → Bytes → List SecretFileCheck → Prerequisites → JobExec
  unfolding check_secret_file
  check_secret_files name run_as [] s = pure ([], s)
  check_secret_files name run_as (secret ∷ secrets) s = do
    first ← check_secret_file name run_as secret s
    rest ← check_secret_files name run_as secrets first.1
    pure (first.0 ++ rest.0, rest.1)

  -- the local checks of one job
  unfoldable pub check_job : Bool → CheckOptions → Bytes → JobConfig → Prerequisites → JobExec
  unfolding check_runtime check_dump_executable check_password_file check_secret_files
  check_job identities_ok options name job s = do
    user ← consult (env.check_user job.run_as)
    runtime ← check_runtime identities_ok options name job (unless_failed user without_local s)
    source ←
        consult (
          config_source_answer env.check_config_source options.source options.config_path
            job.run_as)
    executable ←
        check_dump_executable identities_ok name job (unless_failed source without_local runtime.1)
    staging ← consult (staging_answer env.check_staging_target job.temp_dir job.run_as)
    password ← check_password_file name job executable.1
    secrets ← check_secret_files name job.run_as (s3_secret_files job.s3) password.1
    pure
        (job_report name user runtime.0 source executable.0 staging password.0 secrets.0, secrets.1)

  unfoldable pub check_jobs :
      Bool → CheckOptions → Config → States → LiveExec E (List LiveFinding × States)
  unfolding check_job
  check_jobs identities_ok options c [] = pure ([], [])
  check_jobs identities_ok options c ((name, s) ∷ states) = do
    first ← check_job identities_ok options name (job_at name c.jobs) s
    rest ← check_jobs identities_ok options c states
    pure (first.0 ++ rest.0, (name, first.1) ∷ rest.1)
