-- ===== src/Backup/Run/Files.antt =====
-- A run leaves no file open.
use ezdbbackup.Common.{ℕ, ◌≡◌, refl, sym, Bool, List, [], ◌∷◌, ◌++◌, append-nil, Result, ok, err}
use ezdbbackup.Common.Exec.{◌>>=◌, resume}
use ezdbbackup.Common.Bytes.{Bytes}
use ezdbbackup.Config.Types.{JobConfig}
use ezdbbackup.Storage.Key.{object_key}
use ezdbbackup.Backup.Fault.{Fault}
use ezdbbackup.Backup.Types.{
  Artifact, Instant, Action, opened, closed, uploaded, upload_started, info_level, text, count,
  Service,
}
use ezdbbackup.Backup.Service.{RunState, observe, stage_fault, progress}
use ezdbbackup.Backup.Service.Keeps.{Holds, Keeps, Keeps-observe, Keeps-progress, Keeps-log_now}
use ezdbbackup.Backup.Run.{
  progress_event, or_stage, close_file, upload_begun, send_file, open_and_send, run,
}
use ezdbbackup.Backup.Run.Balance.{gather, Balanced, Balanced-step, Balanced-start, Balanced-end}
use ezdbbackup.Backup.Run.Keeps.{
  IsFileInvariant, Keeps-also_failed, Keeps-upload_outcome, Keeps-dump_and_stage, Keeps-timed_run,
}

-- the file that was opened
unfoldable pub opened_by : Action → List ℕ
opened_by (opened a (ok file)) = file ∷ []
opened_by _ = []

-- the file whose close was asked for
unfoldable pub closed_by : Action → List ℕ
closed_by (closed file answer) = file ∷ []
closed_by _ = []

-- the files `files` are open
abbrev Open : List ℕ → List Action → Bool → Type 0
Open = Balanced opened_by closed_by

Open-IsFileInvariant : (files : List ℕ) → IsFileInvariant (Open files)
unfolding opened_by closed_by gather
Open-IsFileInvariant files = record {
  logs = record {
    progress_kept = λ event l b. Balanced-step l _ (sym (append-nil files));
    written = λ event l. Balanced-step l _ (sym (append-nil files));
    broken = λ event f l. Balanced-step l _ (sym (append-nil files));
  };
  on_dump_resolved = λ l b. Balanced-step l _ (sym (append-nil files));
  on_storage_resolved = λ l b. Balanced-step l _ (sym (append-nil files));
  on_store_created = λ o l b. Balanced-step l _ (sym (append-nil files));
  on_uploaded = λ store bucket key file size o l b. Balanced-step l _ (sym (append-nil files));
}

module _ {E : Type 0} (v : Service E) (job_name : Bytes) (job : JobConfig) where
  close_releases :
      (file : ℕ) (s : RunState E)
      → Holds (Open (file ∷ [])) s
      → Holds (Open []) (close_file v job_name job file s).1
  unfolding close_file observe opened_by closed_by gather
  close_releases file s h = Balanced-step s.actions (closed file (v.close file s.env).0) refl h

  upload_begun_closes :
      (key : Bytes) (a : Artifact) (store file : ℕ) (r : Result Fault (Unit {0})) (s : RunState E)
      → Holds (Open (file ∷ [])) s
      → Holds (Open []) (upload_begun v job_name job key a store file r s).1
  unfolding upload_begun observe
  upload_begun_closes key a store file (err f) s h =
      (Keeps-also_failed (Open-IsFileInvariant []).logs v job_name job _ f _).at _
        (close_releases file s h)
  upload_begun_closes key a store file (ok _) s h =
      let i = Open-IsFileInvariant (file ∷ []) in
      let event = progress_event upload_started job_name "s3_upload" key a.size in
      let s1 = (progress v event s).1 in
      let s2 =
        (observe (uploaded store job.s3.bucket key file a.size)
          (v.upload_file store job.s3.bucket key file a.size) s1).1 in
      let sent =
        (Keeps-observe (Open (file ∷ [])) (uploaded store job.s3.bucket key file a.size)
            (v.upload_file store job.s3.bucket key file a.size)
            (i.on_uploaded store job.s3.bucket key file a.size)).at
          s1 ((Keeps-progress i.logs v event).at s h) in
      (Keeps-upload_outcome (Open-IsFileInvariant []).logs v job_name job _ _ _).at _
        (close_releases file s2 sent)

  send_file_closes :
      (start : Instant) (a : Artifact) (store file : ℕ) (s : RunState E)
      → Holds (Open (file ∷ [])) s
      → Holds (Open []) (send_file v job_name job start a store file s).1
  unfolding send_file
  send_file_closes start a store file s h =
      let key = object_key job.s3.prefix job_name start.stamp in
      upload_begun_closes key a store file _ _ (
        (Keeps-log_now (Open-IsFileInvariant (file ∷ [])).logs v info_level "backup upload started"
            job_name "s3_upload" (("object_key", text key) ∷ ("size", count a.size) ∷ [])).at
          s h)

  open_and_send_closes :
      (start : Instant) (a : Artifact) (store : ℕ)
      → Keeps (Open []) (open_and_send v job_name job start a store)
  unfolding open_and_send or_stage stage_fault observe opened_by closed_by gather
  open_and_send_closes start a store = record { at = λ s h. answered s h (v.open_artifact a s.env) }
    where
      answered :
          (s : RunState E)
          → Holds (Open []) s
          → (r : Result Fault ℕ × E)
          → Holds
              (Open [])
              ((or_stage v job_name job "temporary_storage" r.0 >>= λ file.
                  resume file (send_file v job_name job start a store))
                (record s { env = r.1; actions = s.actions ++ opened a r.0 ∷ [] })).1
      answered s h (ok file, e) =
          send_file_closes start a store file _
            (Balanced-step s.actions (opened a (ok file)) refl h)
      answered s h (err f, e) = Balanced-step s.actions (opened a (err f)) refl h

  -- On every path, whatever fails, a run asks once for the close of each file that it opened, and of
  -- nothing else.
  pub run_closes_files :
      (e : E)
      → gather opened_by (run v job_name job e).1.actions
        ≡ gather closed_by (run v job_name job e).1.actions
  unfolding run opened_by closed_by gather
  run_closes_files e = Balanced-end (
      (Keeps-timed_run (Open-IsFileInvariant []) v job_name job (
          Keeps-dump_and_stage (Open-IsFileInvariant []) v job_name job open_and_send_closes
            (λ d q r l b. Balanced-step l _ refl) (λ a o l b. Balanced-step l _ refl))).at
        _ Balanced-start)
