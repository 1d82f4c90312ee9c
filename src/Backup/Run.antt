-- ===== src/Backup/Run.antt =====
-- `(*Service).Run` of internal/backup/service.go, from the resolution of the options to the deferred
-- calls: the removal of the artifact comes first, then the last log event and the last progress.
pub mod Keeps
pub mod Balance
pub mod Cleanup
pub mod Files
pub mod Ending
pub mod Success
pub mod Logging
use ezdbbackup.Common.{
  ℕ, Bool, true, false, not, Option, none, some, List, [], ◌∷◌, ◌++◌, String, if◌then◌else◌, length,
  Result, ok, err,
}
use mathlib.Core.Option
use ezdbbackup.Common.Exec.{Exec, ◌>>=◌, ◌>>◌, pure, resume}
use ezdbbackup.Common.Bytes.{Bytes, is_empty}
use ezdbbackup.Storage.Key.{object_key}
use ezdbbackup.Config.Types.{JobConfig}
use ezdbbackup.Backup.Fault.{
  Fault, append_secret, safe_error_text, new_stage_error, join_errors, error_stage_of,
  failure_stage,
}
use ezdbbackup.Backup.Types.{
  DumpRequest, StorageOptions, Artifact, Instant, Value, duration, no_duration, text, count, flag,
  Level, debug_level, info_level, error_level, Event, ProgressKind, started, staged, upload_started,
  completed, failed, ProgressEvent, Action, logged, progressed, dump_resolved, dumped,
  storage_resolved, store_created, opened, uploaded, closed, removed, Service, RunResult, Outcome,
}
use ezdbbackup.Backup.Service.{
  RunState, no_result, observe, ask, add_secret, stage_fault, progress, write_log, must_log,
  log_now, log_debug,
}

abbrev progress_event : ProgressKind → Bytes → String → Bytes → ℕ → ProgressEvent
progress_event kind job stage key size = record {
  kind = kind;
  job = job;
  stage = stage;
  object_key = key;
  size = size;
  error = [];
}

-- an error that may be joined by a second one
abbrev join_optional : Fault → Option Fault → Fault
join_optional f none = f
join_optional f (some g) = join_errors f g

abbrev failed_with : Result Fault RunResult → Fault → Outcome
failed_with (ok r) cleanup = record { result = r; error = some cleanup }
failed_with (err f) cleanup = record { result = no_result; error = some (join_errors f cleanup) }

abbrev outcome_of : Result Fault RunResult → Outcome
outcome_of (ok r) = record { result = r; error = none }
outcome_of (err f) = record { result = no_result; error = some f }

-- `result.Duration`
abbrev elapsed : Option (Instant × Instant) → Value
elapsed none = no_duration
elapsed (some (finish, start)) = duration finish start

module _ {E : Type 0} (v : Service E) (job_name : Bytes) (job : JobConfig) where
  -- A resolver's or a store's error under its stage, or the value.
  or_stage : {A : Type 0} → String → Result Fault A → Exec (RunState E) (Result Fault A)
  or_stage stage (ok a) = pure (ok a)
  or_stage stage (err f) = stage_fault stage f

  pub also_failed :
      {A : Type 0} → String → Fault → Option Fault → Exec (RunState E) (Result Fault A)
  also_failed stage primary none s = (err primary, s)
  also_failed stage primary (some f) s =
      (err (join_errors primary (new_stage_error stage f s.secrets)), s)

  close_file : ℕ → Exec (RunState E) (Option Fault)
  close_file file = observe (closed file) (v.close file)

  -- behind the upload and the close of the file
  pub upload_outcome :
      RunResult → Option Fault → Option Fault → Exec (RunState E) (Result Fault RunResult)
  upload_outcome r none none s = (ok r, s)
  upload_outcome r (some f) close s =
      also_failed "temporary_storage" (new_stage_error "s3_upload" f s.secrets) close s
  upload_outcome r none (some f) s = stage_fault "temporary_storage" f s

  -- behind the event `backup upload started`
  pub upload_begun :
      Bytes
      → Artifact
      → ℕ
      → ℕ
      → Result Fault (Unit {0})
      → Exec (RunState E) (Result Fault RunResult)
  unfolding close_file upload_outcome also_failed
  upload_begun key artifact store file (err f) = do
    close ← close_file file
    also_failed "temporary_storage" f close
  upload_begun key artifact store file (ok _) = do
    progress v (progress_event upload_started job_name "s3_upload" key artifact.size)
    failure ←
        observe (uploaded store job.s3.bucket key file artifact.size)
          (v.upload_file store job.s3.bucket key file artifact.size)
    close ← close_file file
    upload_outcome
        (record { job = job_name; object_key = key; size = artifact.size; duration = none }) failure
        close

  pub send_file : Instant → Artifact → ℕ → ℕ → Exec (RunState E) (Result Fault RunResult)
  unfolding upload_begun
  send_file start artifact store file = do
    let key = object_key job.s3.prefix job_name start.stamp
    begun ←
        log_now v info_level "backup upload started" job_name "s3_upload"
          (("object_key", text key) ∷ ("size", count artifact.size) ∷ [])
    upload_begun key artifact store file begun

  add_credentials : StorageOptions → Exec (RunState E) (Unit {0})
  add_credentials o = do
    add_secret o.access_key_id
    add_secret o.secret_access_key
    add_secret o.session_token

  pub open_and_send : Instant → Artifact → ℕ → Exec (RunState E) (Result Fault RunResult)
  unfolding or_stage send_file
  open_and_send start artifact store = do
    opening ← observe (opened artifact) (v.open_artifact artifact)
    file ← or_stage "temporary_storage" opening
    resume file (send_file start artifact store)

  create_store : Instant → Artifact → StorageOptions → Exec (RunState E) (Result Fault RunResult)
  unfolding or_stage add_credentials open_and_send
  create_store start artifact options = do
    add_credentials options
    logging ← log_debug v "storage options resolved" job_name (
        ("custom_endpoint", flag (not (is_empty options.endpoint)))
        ∷ ("explicit_credentials", flag options.explicit)
        ∷ ("force_path_style", flag options.force_path_style)
        ∷ [])
    resume logging (λ _. do
      creation ← observe (λ _. store_created options) (v.new_store options)
      store ← or_stage "s3_upload" creation
      resume store (open_and_send start artifact))

  -- from the event `backup staged` to the end of the body
  unfoldable pub upload_staged : Instant → Artifact → Exec (RunState E) (Result Fault RunResult)
  unfolding or_stage create_store
  upload_staged start artifact = do
    logging ←
        log_now v info_level "backup staged" job_name "temporary_storage"
          (("size", count artifact.size) ∷ [])
    resume logging (λ _. do
      progress v (progress_event staged job_name "temporary_storage" [] artifact.size)
      resolution ← observe (λ _. storage_resolved) (v.resolve_storage job)
      options ← or_stage "configuration" resolution
      resume options (create_store start artifact))

  log_cleanup : Fault → Exec (RunState E) (Option Fault)
  log_cleanup f s =
      (if s.log_healthy
          then (do
            now ← ask v.clock
            write_log v (record {
              time = now;
              level = error_level;
              message = "temporary backup cleanup failed";
              job = job_name;
              stage = "cleanup";
              fields = ("error", text (safe_error_text f s.secrets)) ∷ [];
            }))
          else pure none)
        s

  add_log_failure : Outcome → Option Fault → Outcome
  add_log_failure o none = o
  add_log_failure o (some g) = record o { error = Option.map (λ f. join_errors f g) o.error }

  pub removal_failed : Result Fault RunResult → Option Fault → Exec (RunState E) Outcome
  unfolding log_cleanup add_log_failure
  removal_failed r none s = (outcome_of r, s)
  removal_failed r (some f) s =
      let (logging, s') = log_cleanup f s in
      (add_log_failure (failed_with r (new_stage_error "cleanup" f s.secrets)) logging, s')

  -- the deferred removal of the artifact
  unfoldable pub clean_up : Artifact → Result Fault RunResult → Exec (RunState E) Outcome
  unfolding removal_failed
  clean_up artifact r = do
    failure ← observe (removed artifact) (v.remove artifact)
    removal_failed r failure

  stage_result : Instant → Result Fault Artifact → Exec (RunState E) Outcome
  stage_result start (err f) s = (
    record { result = no_result; error = some (new_stage_error (failure_stage f) f s.secrets) },
    s,
  )
  stage_result start (ok artifact) s =
      let (r, s') = upload_staged start artifact s in clean_up artifact r s'

  pub dump_and_stage : Instant → DumpRequest → Exec (RunState E) Outcome
  unfolding stage_result
  dump_and_stage start request = do
    staging ← observe (dumped job.temp_dir request) (v.stage job.temp_dir request)
    stage_result start staging

  -- a step that ends the body with its error, before an artifact is staged
  or_end :
      {A : Type 0} → Result Fault A → (A → Exec (RunState E) Outcome) → Exec (RunState E) Outcome
  or_end (ok a) f = f a
  or_end (err e) f = pure (record { result = no_result; error = some e })

  request_resolved : Instant → DumpRequest → Exec (RunState E) Outcome
  unfolding or_end dump_and_stage
  request_resolved start request = do
    add_secret request.password
    logging ← log_debug v "dump options resolved" job_name (
        ("all_databases", flag request.all_databases)
        ∷ ("database_count", count (length request.databases))
        ∷ ("extra_argument_count", count (length request.extra_args))
        ∷ [])
    or_end logging (λ _. dump_and_stage start request)

  -- the body of `Run`, with the deferred removal
  unfoldable pub attempt : Instant → Exec (RunState E) Outcome
  unfolding request_resolved or_stage
  attempt start = do
    logging ← must_log v (record {
      time = start;
      level = info_level;
      message = "backup started";
      job = job_name;
      stage = "start";
      fields = [];
    })
    or_end logging (λ _. do
      progress v (progress_event started job_name "start" [] 0)
      resolution ← observe (λ _. dump_resolved) (v.resolve_dump job)
      request ← or_stage "configuration" resolution
      or_end request (request_resolved start))

  set_duration : Instant → Instant → RunResult → RunResult
  set_duration start finish r =
      if is_empty r.job then r else record r { duration = some (finish, start) }

  progress_failed : String → RunResult → Fault → Exec (RunState E) Outcome
  progress_failed stage r f s =
      (do
        progress v (record {
          kind = failed;
          job = job_name;
          stage = stage;
          object_key = [];
          size = 0;
          error = safe_error_text f s.secrets;
        })
        pure (record { result = r; error = some f }))
        s

  -- the last log event and progress of a run that failed
  end_failed : Instant → Instant → RunResult → Fault → Exec (RunState E) Outcome
  unfolding progress_failed
  end_failed start finish r f s =
      let event : Event = record {
        time = finish;
        level = error_level;
        message = "backup failed";
        job = job_name;
        stage = error_stage_of f;
        fields =
            ("duration", duration finish start)
            ∷ ("error", text (safe_error_text f s.secrets))
            ∷ [];
      } in
      let (logging, s') = write_log v event s in
      let e = join_optional f logging in progress_failed (error_stage_of e) r e s'

  log_completed : RunResult → Option Fault → Exec (RunState E) Outcome
  log_completed r (some f) = progress_failed "logging" r f
  log_completed r none = do
    progress v (progress_event completed job_name "complete" r.object_key r.size)
    pure (record { result = r; error = none })

  end_completed : Instant → RunResult → Exec (RunState E) Outcome
  unfolding log_completed progress_failed
  end_completed finish r = do
    logging ← write_log v (record {
      time = finish;
      level = info_level;
      message = "backup completed";
      job = job_name;
      stage = "complete";
      fields =
          ("object_key", text r.object_key)
          ∷ ("size", count r.size)
          ∷ ("duration", elapsed r.duration)
          ∷ [];
    })
    log_completed r logging

  end_by : Instant → Instant → RunResult → Option Fault → Exec (RunState E) Outcome
  end_by start finish r (some f) = end_failed start finish r f
  end_by start finish r none = end_completed finish r

  -- the deferred end of `Run`
  unfoldable pub end_run : Instant → Outcome → Exec (RunState E) Outcome
  unfolding end_by end_failed end_completed set_duration
  end_run start o = do
    finish ← ask v.clock
    end_by start finish (set_duration start finish o.result) o.error

  job_secrets : List Bytes
  job_secrets =
      append_secret
        (append_secret (append_secret (append_secret [] job.mysql.password) job.s3.access_key_id)
          job.s3.secret_access_key)
        job.s3.session_token

  pub timed_run : Exec (RunState E) Outcome
  timed_run = do start ← ask v.clock; o ← attempt start; end_run start o

  -- `(*Service).Run`, with the environment that it leaves and all that it has done
  unfoldable pub run : E → Outcome × RunState E
  unfolding timed_run job_secrets
  run e = timed_run (record { env = e; actions = []; secrets = job_secrets; log_healthy = true })
