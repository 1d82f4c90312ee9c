-- ===== src/Config/Validate.antt =====
-- internal/config/validate.go: the checks of a job and of a whole configuration.
pub mod Prefix
pub mod Clean
pub mod Sound
use ezdbbackup.Common.{
  ℕ, suc, ◌+◌, ◌*◌, Bool, true, false, not, ◌&&◌, ◌||◌, Option, none, some, List, [], ◌∷◌, ◌++◌,
  String, any, all, leb, ltb, ◌==◌, within, length, if◌then◌else◌, Result, ok, err, ℤ, pos, negsuc,
}
use ezdbbackup.Common.Bytes.{
  Bytes, codes, is_empty, equal, has_prefix, contains_byte, join, fields_func, itoa,
}
use ezdbbackup.Common.Utf8.{decodings, valid_string, is_control, is_space, has_control}
use ezdbbackup.Config.Types.{DatabaseSelection, JobConfig, Config, job_names, job_at}
use ezdbbackup.Config.Secrets.{
  SecretRef, password_ref, access_key_id_ref, secret_access_key_ref, session_token_ref,
}
use ezdbbackup.Config.Schedule.{ScheduleError, validate_cron_schedule}
use ezdbbackup.Config.Findings.{Finding, job_error, job_warning, config_error}
use ezdbbackup.Config.Patterns.{job_name_pattern, region_pattern, valid_bucket, valid_endpoint_host}
use ezdbbackup.Config.DumpOptions.{conflicting_dump_argument}
use ezdbbackup.Config.Checks.{
  unless, is_blank, valid_s3_prefix, validate_absolute_path, validate_secret_ref, secret_configured,
  validate_databases, validate_extra_args,
}
use ezdbbackup.Config.Endpoint.{in_port_range, Texts, validate_endpoint}
use ezdbbackup.Storage.Key.{clean_prefix}

-- (1 << 63 - 1) / (1024 * 1024), and (1 << 63 - 1) nanoseconds in days
abbrev pub max_rotation_size_mb : ℕ
max_rotation_size_mb = 8796093022207

abbrev pub max_rotation_age_days : ℕ
max_rotation_age_days = 106751

abbrev pub max_rotation_files : ℕ
max_rotation_files = 1000

module _ (texts : Texts) where
  bucket_message : Bool → String
  bucket_message custom_endpoint =
      if custom_endpoint
      then "must be a single 3-63 character compatible bucket name"
      else "must be a valid AWS S3 bucket name"

  -- `validateBucket`
  unfoldable pub validate_bucket : Bytes → Bytes → Bytes → Bool → List Finding
  unfolding bucket_message
  validate_bucket job path bucket custom_endpoint =
      unless (valid_bucket texts.is_ip bucket custom_endpoint)
        (job_error job path (codes (bucket_message custom_endpoint)))

  schedule_error : Bytes → Bytes → Result ScheduleError (Unit {0}) → List Finding
  schedule_error job path (ok u) = []
  schedule_error job path (err e) =
      job_error job path (codes "invalid cron expression: " ++ texts.schedule_text e)

  required : Bytes → Bytes → Bytes → List Finding
  required job path value = unless (not (is_blank value)) (job_error job path (codes "is required"))

  -- `validateJob`, up to the settings of S3
  unfoldable pub validate_mysql : Bytes → JobConfig → List Finding
  unfolding required schedule_error
  validate_mysql name job =
      let base = codes "jobs." ++ name in
      unless (job_name_pattern name)
        (job_error name base (codes "job name must match [A-Za-z0-9][A-Za-z0-9_-]{0,63}"))
      ++ (schedule_error name (base ++ codes ".schedule") (validate_cron_schedule job.schedule)
          ++ (required name (base ++ codes ".run_as") job.run_as
              ++ (validate_absolute_path name (base ++ codes ".dump_binary") job.dump_binary
                  ++ (validate_absolute_path name (base ++ codes ".temp_dir") job.temp_dir
                      ++ (required name (base ++ codes ".mysql.host") job.mysql.host
                          ++ (unless (in_port_range job.mysql.port) (
                                job_error name (base ++ codes ".mysql.port")
                                  (codes "must be between 1 and 65535"))
                              ++ (required name (base ++ codes ".mysql.user") job.mysql.user
                                  ++ (validate_databases name base job.mysql.databases
                                      ++ (validate_secret_ref name (base ++ codes ".mysql.password")
                                            (password_ref job.mysql)
                                          ++ validate_extra_args name base 0
                                              job.mysql.extra_args)))))))))

  bucket_findings : Bytes → Bytes → JobConfig → List Finding
  bucket_findings name base job =
      if is_blank job.s3.bucket
      then job_error name (base ++ codes ".s3.bucket") (codes "is required")
      else validate_bucket name (base ++ codes ".s3.bucket") job.s3.bucket
          (not (is_empty job.s3.endpoint))

  region_findings : Bytes → Bytes → JobConfig → List Finding
  region_findings name base job =
      if is_blank job.s3.region
      then job_error name (base ++ codes ".s3.region") (codes "is required")
      else unless (leb (length job.s3.region) 63 && region_pattern job.s3.region) (
          job_error name (base ++ codes ".s3.region")
            (codes "must be a lowercase region identifier of at most 63 characters"))

  abbrev same : Bool → Bool → Bool
  same a b = if a then b else not b

  -- the settings of S3 of `validateJob`
  unfoldable pub validate_s3 : Bytes → JobConfig → List Finding
  unfolding bucket_findings region_findings
  validate_s3 name job =
      let base = codes "jobs." ++ name in
      let access = access_key_id_ref job.s3 in
      let secret = secret_access_key_ref job.s3 in
      let token = session_token_ref job.s3 in
      bucket_findings name base job
      ++ (region_findings name base job
          ++ (validate_endpoint texts name (base ++ codes ".s3.endpoint") job.s3.endpoint
              ++ (unless (valid_s3_prefix job.s3.prefix name) (
                    job_error name (base ++ codes ".s3.prefix") (
                      codes
                        "must form a terminal-safe S3 key of at most 1024 bytes without relative path segments"))
                  ++ (validate_secret_ref name (base ++ codes ".s3.access_key_id") access
                      ++ (validate_secret_ref name (base ++ codes ".s3.secret_access_key") secret
                          ++ (validate_secret_ref name (base ++ codes ".s3.session_token") token
                              ++ (unless
                                    (same (secret_configured access) (secret_configured secret))
                                    (job_error name (base ++ codes ".s3") (
                                      codes
                                        "explicit access key ID and secret access key must be configured together"))
                                  ++ unless
                                      (not (secret_configured token)
                                        || (secret_configured access && secret_configured secret))
                                      (job_error name (base ++ codes ".s3.session_token") (
                                        codes
                                          "requires explicit access key ID and secret access key")))))))))

  -- `validateJob`
  unfoldable pub validate_job : Bytes → JobConfig → List Finding
  unfolding validate_mysql validate_s3
  validate_job name job = validate_mysql name job ++ validate_s3 name job

  not_positive : ℤ → Bool
  not_positive (pos n) = n == 0
  not_positive (negsuc n) = true

  exceeds : ℤ → ℕ → Bool
  exceeds (pos n) limit = ltb limit n
  exceeds (negsuc n) limit = false

  -- a setting of the rotation
  rotation_findings : String → ℤ → ℕ → List Finding
  unfolding not_positive exceeds
  rotation_findings path value limit =
      if not_positive value
      then config_error path "must be greater than zero"
      else if exceeds value limit
      then job_error [] (codes path) (codes "must not exceed " ++ itoa limit)
      else []

  -- the loop over the jobs, by their names
  unfoldable pub validate_jobs : Config → List Bytes → List Finding
  unfolding validate_job
  validate_jobs c [] = []
  validate_jobs c (name ∷ names) = validate_job name (job_at name c.jobs) ++ validate_jobs c names

  abbrev is_version_one : ℤ → Bool
  is_version_one (pos n) = n == 1
  is_version_one (negsuc n) = false

  -- `Validate` up to the loop
  unfoldable pub validate_settings : Config → List Finding
  unfolding rotation_findings
  validate_settings c =
      unless (is_version_one c.version) (config_error "version" "must be 1")
      ++ (validate_absolute_path [] (codes "defaults.dump_binary") c.defaults.dump_binary
          ++ (validate_absolute_path [] (codes "defaults.temp_dir") c.defaults.temp_dir
              ++ (validate_absolute_path [] (codes "logging.directory") c.logging.directory
                  ++ (rotation_findings "logging.rotation.max_size_mb"
                        c.logging.rotation.max_size_mb max_rotation_size_mb
                      ++ (rotation_findings "logging.rotation.max_files"
                            c.logging.rotation.max_files max_rotation_files
                          ++ rotation_findings "logging.rotation.max_age_days"
                              c.logging.rotation.max_age_days max_rotation_age_days)))))

  -- `Validate`
  unfoldable pub validate : Option Config → List Finding
  unfolding validate_settings validate_jobs
  validate none = config_error "" "configuration is required"
  validate (some c) = validate_settings c ++ validate_jobs c (job_names (some c))
