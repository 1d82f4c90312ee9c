-- ===== src/Backup/Run/Keeps.antt =====
-- Which parts of a run keep an invariant, by the kinds of action that the invariant looks at.
use ezdbbackup.Common.{
  ℕ, Bool, Option, none, some, List, [], ◌∷◌, length, not, String, Result, ok, err,
}
use ezdbbackup.Common.Exec.{Exec}
use ezdbbackup.Common.Bytes.{Bytes, is_empty}
use ezdbbackup.Config.Types.{JobConfig}
use ezdbbackup.Backup.Fault.{Fault, safe_error_text}
use ezdbbackup.Backup.Types.{
  started, staged, upload_started, completed, info_level, error_level, text, flag, count,
  DumpRequest, StorageOptions, Artifact, Instant, Action, dump_resolved, dumped, storage_resolved,
  store_created, opened, uploaded, closed, removed, Service, RunResult, Outcome,
}
use ezdbbackup.Backup.Service.{RunState, no_result}
use ezdbbackup.Storage.Key.{object_key}
use ezdbbackup.Backup.Service.Keeps.{
  Ignores, Keeps, Keeps-pure, Keeps-bind, Keeps-resume, Keeps-if, Keeps-ask, Keeps-add_secret,
  Keeps-stage_fault, Keeps-observe, IsLogInvariant, Keeps-progress, Keeps-write_log, Keeps-must_log,
  Keeps-log_now, Keeps-log_debug,
}
use ezdbbackup.Backup.Run.{
  progress_event, elapsed, set_duration, or_stage, also_failed, close_file, upload_outcome,
  upload_begun, send_file, add_credentials, open_and_send, create_store, upload_staged, log_cleanup,
  removal_failed, clean_up, stage_result, dump_and_stage, or_end, request_resolved, attempt,
  progress_failed, end_failed, log_completed, end_completed, end_by, end_run, timed_run,
}

module _ {E : Type 0} {P : List Action → Bool → Type 0} (i : IsLogInvariant P) (v : Service E)
    (job_name : Bytes) (job : JobConfig) where
  Keeps-or_stage :
      {A : Type 0} (stage : String) (r : Result Fault A) → Keeps P (or_stage v job_name job stage r)
  unfolding or_stage
  Keeps-or_stage stage (ok a) = Keeps-pure P (ok a)
  Keeps-or_stage stage (err f) = Keeps-stage_fault P stage f

  pub Keeps-also_failed :
      {A : Type 0} (stage : String) (primary : Fault) (o : Option Fault)
      → Keeps P (also_failed v job_name job {A = A} stage primary o)
  unfolding also_failed
  Keeps-also_failed stage primary none = record { at = λ s h. h }
  Keeps-also_failed stage primary (some f) = record { at = λ s h. h }

  pub Keeps-upload_outcome :
      (r : RunResult) (a b : Option Fault) → Keeps P (upload_outcome v job_name job r a b)
  unfolding upload_outcome
  Keeps-upload_outcome r none none = record { at = λ s h. h }
  Keeps-upload_outcome r (some f) close = record {
    at = λ s h. (Keeps-also_failed _ _ close).at s h;
  }
  Keeps-upload_outcome r none (some f) = Keeps-stage_fault P _ f

  Keeps-add_credentials : (o : StorageOptions) → Keeps P (add_credentials v job_name job o)
  unfolding add_credentials
  Keeps-add_credentials o =
      Keeps-bind P
        (Keeps-bind P (Keeps-add_secret P o.access_key_id)
          (λ _. Keeps-add_secret P o.secret_access_key))
        (λ _. Keeps-add_secret P o.session_token)

module _ {E : Type 0} {P : List Action → Bool → Type 0} (i : IsLogInvariant P) (v : Service E)
    (job_name : Bytes) (job : JobConfig) where
  Keeps-log_cleanup : (f : Fault) → Keeps P (log_cleanup v job_name job f)
  unfolding log_cleanup
  Keeps-log_cleanup f = record {
    at = λ s h.
        (Keeps-if P s.log_healthy
            (Keeps-bind P (Keeps-ask P v.clock) (λ now. Keeps-write_log i v (record {
              time = now;
              level = error_level;
              message = "temporary backup cleanup failed";
              job = job_name;
              stage = "cleanup";
              fields = ("error", text (safe_error_text f s.secrets)) ∷ [];
            })))
            (Keeps-pure P none)).at
          s h;
  }

  pub Keeps-removal_failed :
      (r : Result Fault RunResult) (o : Option Fault) → Keeps P (removal_failed v job_name job r o)
  unfolding removal_failed
  Keeps-removal_failed r none = record { at = λ s h. h }
  Keeps-removal_failed r (some f) = record { at = λ s h. (Keeps-log_cleanup f).at s h }

-- An invariant that holds on over every action but those on artifacts and files.
pub record IsFileInvariant (P : List Action → Bool → Type 0) : Type 0 where
  pub logs : IsLogInvariant P
  pub on_dump_resolved : Ignores P dump_resolved
  pub on_storage_resolved : Ignores P storage_resolved
  pub on_store_created : (o : StorageOptions) → Ignores P (store_created o)
  pub on_uploaded :
      (store : ℕ) (bucket key : Bytes) (file size : ℕ) (o : Option Fault)
      → Ignores P (uploaded store bucket key file size o)

module _ {E : Type 0} {P : List Action → Bool → Type 0} (i : IsFileInvariant P) (v : Service E)
    (job_name : Bytes) (job : JobConfig) where
  -- the body behind an upload and its close, for an invariant that looks at neither
  module _ (on_opened : (a : Artifact) (r : Result Fault ℕ) → Ignores P (opened a r))
      (on_closed : (file : ℕ) (o : Option Fault) → Ignores P (closed file o)) where
    Keeps-upload_begun :
        (key : Bytes) (a : Artifact) (store file : ℕ) (r : Result Fault (Unit {0}))
        → Keeps P (upload_begun v job_name job key a store file r)
    unfolding upload_begun close_file
    Keeps-upload_begun key a store file (err f) =
        Keeps-bind P (Keeps-observe P (closed file) (v.close file) (on_closed file))
          (λ c. Keeps-also_failed i.logs v job_name job "temporary_storage" f c)
    Keeps-upload_begun key a store file (ok _) =
        Keeps-bind P
          (Keeps-progress i.logs v (progress_event upload_started job_name "s3_upload" key a.size))
          (λ _.
            Keeps-bind P
              (Keeps-observe P (uploaded store job.s3.bucket key file a.size)
                (v.upload_file store job.s3.bucket key file a.size)
                (i.on_uploaded store job.s3.bucket key file a.size))
              (λ failure.
                Keeps-bind P (Keeps-observe P (closed file) (v.close file) (on_closed file))
                  (λ close.
                    Keeps-upload_outcome i.logs v job_name job
                      (record { job = job_name; object_key = key; size = a.size; duration = none })
                      failure close)))

    Keeps-send_file :
        (start : Instant) (a : Artifact) (store file : ℕ)
        → Keeps P (send_file v job_name job start a store file)
    unfolding send_file
    Keeps-send_file start a store file =
        let key = object_key job.s3.prefix job_name start.stamp in
        Keeps-bind P
          (Keeps-log_now i.logs v info_level "backup upload started" job_name "s3_upload"
            (("object_key", text key) ∷ ("size", count a.size) ∷ []))
          (λ begun. Keeps-upload_begun key a store file begun)

    pub Keeps-open_and_send :
        (start : Instant) (a : Artifact) (store : ℕ)
        → Keeps P (open_and_send v job_name job start a store)
    unfolding open_and_send
    Keeps-open_and_send start a store =
        Keeps-bind P (Keeps-observe P (opened a) (v.open_artifact a) (on_opened a)) (λ opening.
          Keeps-bind P (Keeps-or_stage i.logs v job_name job "temporary_storage" opening)
            (λ file. Keeps-resume P file (λ f. Keeps-send_file start a store f)))

  -- the body behind the staging of an artifact, given that its end keeps the invariant
  module _
      (sends : (start : Instant) (a : Artifact) (store : ℕ)
        → Keeps P (open_and_send v job_name job start a store)) where
    Keeps-create_store :
        (start : Instant) (a : Artifact) (o : StorageOptions)
        → Keeps P (create_store v job_name job start a o)
    unfolding create_store
    Keeps-create_store start a o =
        Keeps-bind P (Keeps-add_credentials i.logs v job_name job o) (λ _.
          Keeps-bind P
            (Keeps-log_debug i.logs v "storage options resolved" job_name (
              ("custom_endpoint", flag (not (is_empty o.endpoint)))
              ∷ ("explicit_credentials", flag o.explicit)
              ∷ ("force_path_style", flag o.force_path_style)
              ∷ []))
            (λ logging. Keeps-resume P logging (λ _.
              Keeps-bind P
                (Keeps-observe P (λ _. store_created o) (v.new_store o) (λ _. i.on_store_created o))
                (λ creation.
                  Keeps-bind P (Keeps-or_stage i.logs v job_name job "s3_upload" creation)
                    (λ store. Keeps-resume P store (sends start a))))))

    pub Keeps-upload_staged :
        (start : Instant) (a : Artifact) → Keeps P (upload_staged v job_name job start a)
    unfolding upload_staged
    Keeps-upload_staged start a =
        Keeps-bind P
          (Keeps-log_now i.logs v info_level "backup staged" job_name "temporary_storage"
            (("size", count a.size) ∷ []))
          (λ logging. Keeps-resume P logging (λ _.
            Keeps-bind P
              (Keeps-progress i.logs v
                (progress_event staged job_name "temporary_storage" [] a.size))
              (λ _.
                Keeps-bind P
                  (Keeps-observe P (λ _. storage_resolved) (v.resolve_storage job)
                    (λ _. i.on_storage_resolved))
                  (λ resolution.
                    Keeps-bind P (Keeps-or_stage i.logs v job_name job "configuration" resolution)
                      (λ options. Keeps-resume P options (Keeps-create_store start a))))))

    Keeps-stage_result :
        ((a : Artifact) (o : Option Fault) → Ignores P (removed a o))
        → (start : Instant) (r : Result Fault Artifact)
        → Keeps P (stage_result v job_name job start r)
    unfolding stage_result clean_up
    Keeps-stage_result on_removed start (err f) = record { at = λ s h. h }
    Keeps-stage_result on_removed start (ok a) = Keeps-bind P (Keeps-upload_staged start a) (λ r.
        Keeps-bind P (Keeps-observe P (removed a) (v.remove a) (on_removed a))
          (λ o. Keeps-removal_failed i.logs v job_name job r o))

    pub Keeps-dump_and_stage :
        ((dir : Bytes) (request : DumpRequest) (r : Result Fault Artifact)
          → Ignores P (dumped dir request r))
        → ((a : Artifact) (o : Option Fault) → Ignores P (removed a o))
        → (start : Instant) (request : DumpRequest)
        → Keeps P (dump_and_stage v job_name job start request)
    unfolding dump_and_stage
    Keeps-dump_and_stage on_dumped on_removed start request =
        Keeps-bind P
          (Keeps-observe P (dumped job.temp_dir request) (v.stage job.temp_dir request)
            (on_dumped job.temp_dir request))
          (Keeps-stage_result on_removed start)

  -- the whole run, given that the dump, the upload and the removal keep the invariant
  module _
      (dumps : (start : Instant) (r : DumpRequest)
        → Keeps P (dump_and_stage v job_name job start r)) where
    Keeps-or_end :
        {A : Type 0} (r : Result Fault A) {f : A → Exec (RunState E) Outcome}
        → ((a : A) → Keeps P (f a))
        → Keeps P (or_end v job_name job r f)
    unfolding or_end
    Keeps-or_end (ok a) kf = kf a
    Keeps-or_end (err e) kf = Keeps-pure P (record { result = no_result; error = some e })

    Keeps-request_resolved :
        (start : Instant) (r : DumpRequest) → Keeps P (request_resolved v job_name job start r)
    unfolding request_resolved
    Keeps-request_resolved start r = Keeps-bind P (Keeps-add_secret P r.password) (λ _.
        Keeps-bind P
          (Keeps-log_debug i.logs v "dump options resolved" job_name (
            ("all_databases", flag r.all_databases)
            ∷ ("database_count", count (length r.databases))
            ∷ ("extra_argument_count", count (length r.extra_args))
            ∷ []))
          (λ logging. Keeps-or_end logging (λ _. dumps start r)))

    Keeps-attempt : (start : Instant) → Keeps P (attempt v job_name job start)
    unfolding attempt
    Keeps-attempt start =
        Keeps-bind P
          (Keeps-must_log i.logs v (record {
            time = start;
            level = info_level;
            message = "backup started";
            job = job_name;
            stage = "start";
            fields = [];
          }))
          (λ logging. Keeps-or_end logging (λ _.
            Keeps-bind P (Keeps-progress i.logs v (progress_event started job_name "start" [] 0))
              (λ _.
                Keeps-bind P
                  (Keeps-observe P (λ _. dump_resolved) (v.resolve_dump job)
                    (λ _. i.on_dump_resolved))
                  (λ resolution.
                    Keeps-bind P (Keeps-or_stage i.logs v job_name job "configuration" resolution)
                      (λ request. Keeps-or_end request (Keeps-request_resolved start))))))

    Keeps-progress_failed :
        (stage : String) (r : RunResult) (f : Fault)
        → Keeps P (progress_failed v job_name job stage r f)
    unfolding progress_failed
    Keeps-progress_failed stage r f = record { at = λ s h. (Keeps-progress i.logs v _).at s h }

    Keeps-log_completed :
        (r : RunResult) (o : Option Fault) → Keeps P (log_completed v job_name job r o)
    unfolding log_completed
    Keeps-log_completed r (some f) = Keeps-progress_failed "logging" r f
    Keeps-log_completed r none =
        Keeps-bind P
          (Keeps-progress i.logs v
            (progress_event completed job_name "complete" r.object_key r.size))
          (λ _. Keeps-pure P (record { result = r; error = none }))

    Keeps-end_by :
        (start finish : Instant) (r : RunResult) (o : Option Fault)
        → Keeps P (end_by v job_name job start finish r o)
    unfolding end_by end_failed end_completed
    Keeps-end_by start finish r (some f) = record {
      at = λ s h. (Keeps-progress_failed _ r _).at _ ((Keeps-write_log i.logs v _).at s h);
    }
    Keeps-end_by start finish r none =
        Keeps-bind P
          (Keeps-write_log i.logs v (record {
            time = finish;
            level = info_level;
            message = "backup completed";
            job = job_name;
            stage = "complete";
            fields =
                ("object_key", text r.object_key)
                ∷ ("size", count r.size)
                ∷ ("duration", elapsed r.duration)
                ∷ [];
          }))
          (Keeps-log_completed r)

    pub Keeps-timed_run : Keeps P (timed_run v job_name job)
    unfolding timed_run end_run
    Keeps-timed_run = Keeps-bind P (Keeps-ask P v.clock) (λ start.
        Keeps-bind P (Keeps-attempt start) (λ o. Keeps-bind P (Keeps-ask P v.clock) (λ finish.
          Keeps-end_by start finish (set_duration v job_name job start finish o.result) o.error)))
