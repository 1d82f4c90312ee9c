-- ===== src/Config/Validate/Sound.antt =====
-- internal/config/validate.go: what a configuration without errors satisfies.
use ezdbbackup.Common.{
  ◌≡◌, refl, Bool, true, false, not, ◌&&◌, ◌||◌, some, List, [], ◌∷◌, ◌++◌, arith, Result, ok, err,
  All, length, leb,
}
use ezdbbackup.Common.Bytes.{Bytes, codes, is_empty}
use ezdbbackup.Config.Types.{JobConfig, Config, job_names, job_at}
use ezdbbackup.Config.Secrets.{
  password_ref, access_key_id_ref, secret_access_key_ref, session_token_ref,
}
use ezdbbackup.Config.Schedule.{ScheduleError, validate_cron_schedule}
use ezdbbackup.Config.Schedule.Whole.{IsSchedule, validate_cron_schedule_iff}
use ezdbbackup.Config.Findings.{has_errors}
use ezdbbackup.Config.Patterns.{job_name_pattern, region_pattern, valid_bucket}
use ezdbbackup.Config.DumpOptions.{conflicting_dump_argument}
use ezdbbackup.Config.Endpoint.{Texts, in_port_range, validate_endpoint}
use ezdbbackup.Config.Checks.{is_blank, secret_configured, valid_s3_prefix}
use ezdbbackup.Config.Validate.Clean.{
  IsClean, IsClean-parts, unless-IsClean, is_false, IsAbsolute, IsSecretRef, secret_ref, absolute,
  extra_args, IsSelection, selection, IsClean-if,
}
use ezdbbackup.Config.Validate.{
  same, validate_mysql, validate_s3, validate_job, validate_jobs, validate_settings, validate,
  required, schedule_error, bucket_findings, region_findings, validate_endpoint, validate_bucket,
}

module _ (texts : Texts) where
  clean_result :
      (job path : Bytes) (r : Result ScheduleError (Unit {0}))
      → IsClean (schedule_error texts job path r)
      → r ≡ ok tt
  unfolding IsClean schedule_error
  clean_result job path (ok tt) h = refl
  clean_result job path (err e) h = cc

  clean_required :
      (job path value : Bytes) → IsClean (required texts job path value) → is_blank value ≡ false
  unfolding required
  clean_required job path value h = is_false (is_blank value) (unless-IsClean _ _ _ _ h)

  -- What validation promises of a job's schedule, account, paths and settings of MySQL.
  pub record IsMySqlJob (name : Bytes) (job : JobConfig) : Type 0 where
    pub named : job_name_pattern name ≡ true
    pub scheduled : IsSchedule job.schedule
    pub has_account : is_blank job.run_as ≡ false
    pub dump_binary : IsAbsolute job.dump_binary
    pub temp_dir : IsAbsolute job.temp_dir
    pub has_host : is_blank job.mysql.host ≡ false
    pub port : in_port_range job.mysql.port ≡ true
    pub has_user : is_blank job.mysql.user ≡ false
    pub databases : IsSelection job.mysql.databases
    pub password : IsSecretRef (password_ref job.mysql)
    pub extra_args : All (λ arg. conflicting_dump_argument arg ≡ false) job.mysql.extra_args

  mysql-IsMySqlJob :
      (name : Bytes) (job : JobConfig)
      → IsClean (validate_mysql texts name job)
      → IsMySqlJob name job
  unfolding validate_mysql
  mysql-IsMySqlJob name job h =
      let (a, h1) = IsClean-parts _ _ h in
      let (b, h2) = IsClean-parts _ _ h1 in
      let (c, h3) = IsClean-parts _ _ h2 in
      let (d, h4) = IsClean-parts _ _ h3 in
      let (e, h5) = IsClean-parts _ _ h4 in
      let (f, h6) = IsClean-parts _ _ h5 in
      let (g, h7) = IsClean-parts _ _ h6 in
      let (i, h8) = IsClean-parts _ _ h7 in
      let (j, h9) = IsClean-parts _ _ h8 in
      let (k, l) = IsClean-parts _ _ h9 in
      record {
        named = unless-IsClean _ _ _ _ a;
        scheduled =
            (validate_cron_schedule_iff job.schedule).0
              (clean_result _ _ (validate_cron_schedule job.schedule) b);
        has_account = clean_required _ _ _ c;
        dump_binary = absolute _ _ _ d;
        temp_dir = absolute _ _ _ e;
        has_host = clean_required _ _ _ f;
        port = unless-IsClean _ _ _ _ g;
        has_user = clean_required _ _ _ i;
        databases = selection _ _ job.mysql.databases.every job.mysql.databases.names j;
        password = secret_ref _ _ _ k;
        extra_args = extra_args _ _ 0 _ l;
      }

  -- What validation promises of a job's settings of S3.
  pub record IsS3Job (name : Bytes) (job : JobConfig) : Type 0 where
    pub bucket : valid_bucket texts.is_ip job.s3.bucket (not (is_empty job.s3.endpoint)) ≡ true
    pub region : (leb (length job.s3.region) 63 && region_pattern job.s3.region) ≡ true
    pub prefix : valid_s3_prefix job.s3.prefix name ≡ true
    pub access_key_id : IsSecretRef (access_key_id_ref job.s3)
    pub secret_access_key : IsSecretRef (secret_access_key_ref job.s3)
    pub session_token : IsSecretRef (session_token_ref job.s3)
    pub paired :
        secret_configured (access_key_id_ref job.s3)
        ≡ secret_configured (secret_access_key_ref job.s3)
    pub token_paired :
        secret_configured (session_token_ref job.s3) ≡ true
        → secret_configured (access_key_id_ref job.s3) ≡ true

  s3_bucket :
      (name base : Bytes) (job : JobConfig)
      → IsClean (bucket_findings texts name base job)
      → valid_bucket texts.is_ip job.s3.bucket (not (is_empty job.s3.endpoint)) ≡ true
  unfolding bucket_findings validate_bucket
  s3_bucket name base job h =
      unless-IsClean _ _ _ _ (IsClean-if (is_blank job.s3.bucket) _ _ _ _ h).1

  s3_region :
      (name base : Bytes) (job : JobConfig)
      → IsClean (region_findings texts name base job)
      → (leb (length job.s3.region) 63 && region_pattern job.s3.region) ≡ true
  unfolding region_findings
  s3_region name base job h =
      unless-IsClean _ _ _ _ (IsClean-if (is_blank job.s3.region) _ _ _ _ h).1

  same_eq : (a b : Bool) → same texts a b ≡ true → a ≡ b
  same_eq a b h = ground arith

  token_lem : (t a b : Bool) → (not t || (a && b)) ≡ true → t ≡ true → a ≡ true
  token_lem t a b h k = ground arith

  s3-IsS3Job :
      (name : Bytes) (job : JobConfig) → IsClean (validate_s3 texts name job) → IsS3Job name job
  unfolding validate_s3
  s3-IsS3Job name job h =
      let base = codes "jobs." ++ name in
      let (a, h1) = IsClean-parts (bucket_findings texts name base job) _ h in
      let (b, h2) = IsClean-parts (region_findings texts name base job) _ h1 in
      let (_, h3) =
        IsClean-parts (validate_endpoint texts name (base ++ codes ".s3.endpoint") job.s3.endpoint)
          _ h2 in
      let (d, h4) = IsClean-parts _ _ h3 in
      let (e, h5) = IsClean-parts _ _ h4 in
      let (f, h6) = IsClean-parts _ _ h5 in
      let (g, h7) = IsClean-parts _ _ h6 in
      let (i, j) = IsClean-parts _ _ h7 in
      record {
        bucket = s3_bucket name base job a;
        region = s3_region name base job b;
        prefix = unless-IsClean _ _ _ _ d;
        access_key_id = secret_ref _ _ _ e;
        secret_access_key = secret_ref _ _ _ f;
        session_token = secret_ref _ _ _ g;
        paired = same_eq _ _ (unless-IsClean _ _ _ _ i);
        token_paired = token_lem _ _ _ (unless-IsClean _ _ _ _ j);
      }

  abbrev pub IsJob : Bytes → JobConfig → Type 0
  IsJob name job = IsMySqlJob name job × IsS3Job name job

  jobs-IsJob :
      (c : Config) (names : List Bytes)
      → IsClean (validate_jobs texts c names)
      → All (λ name. IsJob name (job_at name c.jobs)) names
  unfolding validate_jobs validate_job
  jobs-IsJob c [] h = tt
  jobs-IsJob c (name ∷ names) h =
      let (a, b) = IsClean-parts _ _ h in
      let (m, s) = IsClean-parts _ _ a in
      ((mysql-IsMySqlJob name _ m, s3-IsS3Job name _ s), jobs-IsJob c names b)

  -- Where `Validate` finds no error, each job that `JobNames` gives has a schedule that is in the
  -- grammar, an account, absolute paths, a port from 1 to 65535, either all databases or names fit
  -- for an argument, no extra argument that conflicts with an option of the program's own, a valid
  -- bucket, region and prefix, secrets of one source each, and the S3 credentials in pairs, with a
  -- session token only beside them.
  pub validate-IsJob :
      (c : Config)
      → has_errors (validate texts (some c)) ≡ false
      → All (λ name. IsJob name (job_at name c.jobs)) (job_names (some c))
  unfolding validate IsClean
  validate-IsJob c h =
      jobs-IsJob c (job_names (some c)) (IsClean-parts (validate_settings texts c) _ h).1
