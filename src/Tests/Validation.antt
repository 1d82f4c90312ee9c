-- ===== src/Tests/Validation.antt =====
-- A configuration that is valid, and extra arguments.
use ezdbbackup.Common.{
  ◌≡◌, ◌↔◌, ◌==◌, false, ok, ◌≤◌, refl, true, false, none, some, [], ◌∷◌, length, All, pos, ℕ, List,
  ◌++◌, all,
}
use ezdbbackup.Common.Bytes.{Bytes, codes, fields_func, split}
use ezdbbackup.Common.Utf8.{decodings, has_control, valid_string}
use ezdbbackup.Config.Types.{JobConfig, Config, no_job, job_names, job_at}
use ezdbbackup.Config.DumpOptions.{forbidden_or_abbreviation, conflicting_dump_argument}
use ezdbbackup.Dump.LongName.{long_name}
use ezdbbackup.Config.DumpOptions.Conflicts.{Prefix, Decorated, conflicting-Decorated}
use ezdbbackup.Config.Checks.{
  valid_s3_prefix, validate_absolute_path, is_blank, validate_databases, validate_secret_ref,
  validate_extra_args,
}
use ezdbbackup.Config.Validate.{validate, validate_bucket}
use ezdbbackup.Config.Endpoint.{Texts, validate_endpoint}
use ezdbbackup.Config.Patterns.{job_name_pattern, valid_bucket, region_pattern}
use ezdbbackup.Config.Schedule.{validate_cron_schedule}
use ezdbbackup.Config.Validate.Prefix.{valid_s3_prefix-fits}
use ezdbbackup.Config.Validate.Sound.{IsJob, validate-IsJob}
use ezdbbackup.Common.World.{World}
use ezdbbackup.Backup.Fault.{plain}
use ezdbbackup.Validation.Connectivity.{LiveCall, Environment, Validator}
use ezdbbackup.Validation.Jobs.{CheckOptions}
use ezdbbackup.Validation.Check.{check}
use ezdbbackup.Validation.Identity.{
  UserIdentity, CredentialState, validate_run_identity_state, allows_stat, bit,
}
use ezdbbackup.Validation.Identity.Exact.{IsExact, validate_run_identity_state_iff}
use ezdbbackup.Validation.LogTarget.{
  DirectoryStat, validate_log_target_directory, distinct_uids, distinct_uid_count, validate_target,
  check_shared, check_members,
}
use ezdbbackup.Validation.SensitiveFile.{
  FileStat, Machine, check_sensitive_file, check_inspected, check_file_stat, check_file_user,
}
use ezdbbackup.Validation.SensitiveFile.Private.{IsPrivate, check_sensitive_file-IsPrivate}
use ezdbbackup.Validation.LogTarget.Usable.{CanUse, validate_log_target_directory-CanUse}
use ezdbbackup.Validation.Check.Identities.{is_identity, has_mismatch}
use ezdbbackup.Validation.Check.Gate.{check-gated}
use ezdbbackup.Storage.Key.{Stamp, clean_prefix, object_key}

abbrev stamp : Stamp
stamp = record { date_path = codes "2026/01/02"; timestamp = codes "20260102T030405.000000000Z" }

valid_s3_prefix-fits_example : length (object_key (codes "/a//b/") (codes "job") stamp) ≤ 1024
unfolding valid_s3_prefix valid_string fields_func clean_prefix
valid_s3_prefix-fits_example =
    valid_s3_prefix-fits (codes "/a//b/") (codes "job") stamp refl refl refl

abbrev texts : Texts
texts = record {
  parse_request_uri = λ _. none;
  is_ip = λ _. false;
  atoi = λ _. none;
  schedule_text = λ _. [];
}

abbrev nightly : JobConfig
nightly = record no_job {
  enabled = true;
  schedule = codes "*/5 3 * * *";
  run_as = codes "root";
  dump_binary = codes "/d";
  temp_dir = codes "/t";
  mysql = record no_job.mysql {
    host = codes "h";
    port = pos 3306;
    user = codes "u";
    databases = record { every = true; names = [] };
    extra_args = codes "--quick" ∷ [];
  };
  s3 = record no_job.s3 {
    bucket = codes "abc";
    region = codes "eu-1";
    access_key_id = codes "k";
    secret_access_key_file = codes "/s";
  };
}

abbrev configuration : Config
configuration = record {
  version = pos 1;
  defaults = record { dump_binary = codes "/d"; temp_dir = codes "/t" };
  logging = record {
    directory = codes "/l";
    debug = false;
    rotation = record {
      max_size_mb = pos 1;
      max_files = pos 1;
      max_age_days = pos 1;
      compress = false;
    };
  };
  jobs = (codes "nightly", nightly) ∷ [];
}

validate-IsJob_example :
    All (λ name. IsJob texts name (job_at name configuration.jobs)) (job_names (some configuration))
unfolding validate validate_absolute_path job_names job_name_pattern validate_cron_schedule job_at
    fields_func split is_blank decodings validate_databases validate_secret_ref validate_extra_args
    has_control long_name validate_bucket valid_bucket region_pattern clean_prefix valid_string
    valid_s3_prefix validate_endpoint
validate-IsJob_example = validate-IsJob texts configuration refl

-- the prefixes `disable-` and `skip-`, and an abbreviation of `host`
abbrev decorated : Decorated (codes "ho") (codes "disable-skip-ho")
decorated =
    Decorated.behind Prefix.disable refl (Decorated.behind Prefix.skip refl (Decorated.bare refl))

conflicting-Decorated_example : conflicting_dump_argument (codes "--DISABLE_skip-ho=x") ≡ true
unfolding long_name forbidden_or_abbreviation
conflicting-Decorated_example =
    conflicting-Decorated (codes "--DISABLE_skip-ho=x") (codes "disable-skip-ho") (codes "ho") refl
      refl decorated refl

-- Every check of an identity fails.
abbrev strict : Environment ℕ
strict = record {
  check_user = λ name e. (none, e);
  check_run_identity = λ name e. (some (plain (codes "other user")), e);
  check_executable = λ path e. (none, e);
  check_runtime_executable = λ path run_as e. (none, e);
  check_config_file = λ path run_as e. (none, e);
  check_writable_target = λ path run_as e. (none, e);
  check_logging_target = λ path accounts e. (none, e);
  check_secret_file = λ path run_as e. (none, e);
  check_cron_path = λ path e. (none, e);
  check_executable_as = none;
  check_staging_target = none;
  check_config_source = none;
}

abbrev live : Validator ℕ
live = record { environment = some strict; resolve = none; dump_probe = none; stores = none }

abbrev options : CheckOptions
options = record {
  connectivity = true;
  backup_execution = false;
  binary_path = codes "/b";
  config_path = codes "/c";
  source = none;
}

abbrev quiet : World ℕ LiveCall
quiet = record { env = 0; calls = [] }

abbrev as_it_is : Bytes → Bytes
as_it_is name = name

check-gated_example :
    (t : List LiveCall) × ((check as_it_is texts live (some configuration) [] options quiet).1.calls
      ≡ quiet.calls ++ t)
    × (has_mismatch (check as_it_is texts live (some configuration) [] options quiet).0 ≡ true
        → all is_identity t ≡ true)
check-gated_example = check-gated as_it_is texts live (some configuration) [] options quiet

abbrev account : UserIdentity
account = record { uid = 5; gid = 6; groups = 6 ∷ 7 ∷ [] }

-- The process has the groups of the account in another order.
abbrev process : CredentialState
process = record {
  ruid = 5;
  euid = 5;
  suid = 5;
  fsuid = 5;
  rgid = 6;
  egid = 6;
  sgid = 6;
  fsgid = 6;
  state_groups = 7 ∷ 6 ∷ [];
  cap_effective = 0;
  cap_permitted = 0;
  cap_inheritable = 0;
}

validate_run_identity_state_iff_example :
    (validate_run_identity_state account process ≡ ok tt)
    ↔ ((process.euid ≡ account.uid) × ((account.uid == 0) ≡ false → IsExact account process))
validate_run_identity_state_iff_example =
    validate_run_identity_state_iff account process (refl, (refl, tt)) (refl, (refl, tt))

-- a setgid directory of root and group 7 with mode 2770
abbrev log_directory : DirectoryStat
log_directory = record { stat_mode = 17912; stat_uid = 0; stat_gid = 7 }

abbrev other_account : UserIdentity
other_account = record { uid = 8; gid = 7; groups = 7 ∷ [] }

validate_log_target_directory-CanUse_example :
    (bit 1 log_directory.stat_mode ≡ false)
    × All (CanUse log_directory) (account ∷ other_account ∷ [])
unfolding validate_log_target_directory bit distinct_uids distinct_uid_count validate_target
    check_shared check_members
validate_log_target_directory-CanUse_example =
    validate_log_target_directory-CanUse log_directory (account ∷ other_account ∷ []) refl

-- a file of root and group 6 with mode 640
abbrev secret : FileStat
secret = record { file_mode = 33184; file_links = 1; file_uid = 0; file_gid = 6 }

abbrev machine : Machine
machine = record {
  inspect = λ path. ok (path, secret);
  lookup = λ name. ok account;
  traverse = λ u path resolved. ok tt;
}

check_sensitive_file-IsPrivate_example : IsPrivate secret account
unfolding check_sensitive_file check_inspected check_file_stat check_file_user allows_stat bit
check_sensitive_file-IsPrivate_example =
    check_sensitive_file-IsPrivate machine (codes "/s") (codes "app") (codes "/s") secret account
      refl refl refl
