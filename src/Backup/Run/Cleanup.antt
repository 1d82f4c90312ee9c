-- ===== src/Backup/Run/Cleanup.antt =====
-- A run leaves no artifact behind.
use ezdbbackup.Common.{◌≡◌, refl, sym, Bool, List, [], ◌∷◌, ◌++◌, append-nil, Result, ok, err}
use ezdbbackup.Common.Bytes.{Bytes}
use ezdbbackup.Config.Types.{JobConfig}
use ezdbbackup.Backup.Fault.{Fault}
use ezdbbackup.Backup.Types.{
  DumpRequest, Artifact, Instant, Action, dumped, removed, Service, RunResult,
}
use ezdbbackup.Backup.Service.{RunState, observe}
use ezdbbackup.Backup.Service.Keeps.{Holds, Keeps}
use ezdbbackup.Backup.Run.{upload_staged, clean_up, dump_and_stage, stage_result, run}
use ezdbbackup.Backup.Run.Balance.{gather, Balanced, Balanced-step, Balanced-start, Balanced-end}
use ezdbbackup.Backup.Run.Keeps.{
  IsFileInvariant, Keeps-removal_failed, Keeps-open_and_send, Keeps-upload_staged, Keeps-timed_run,
}

-- the artifact that was staged
unfoldable pub staged_by : Action → List Artifact
staged_by (dumped dir request (ok a)) = a ∷ []
staged_by _ = []

-- the artifact whose removal was asked for
unfoldable pub removed_by : Action → List Artifact
removed_by (removed a answer) = a ∷ []
removed_by _ = []

-- the artifacts `held` are there
abbrev Held : List Artifact → List Action → Bool → Type 0
Held = Balanced staged_by removed_by

Held-IsFileInvariant : (held : List Artifact) → IsFileInvariant (Held held)
unfolding staged_by removed_by gather
Held-IsFileInvariant held = record {
  logs = record {
    progress_kept = λ event l b. Balanced-step l _ (sym (append-nil held));
    written = λ event l. Balanced-step l _ (sym (append-nil held));
    broken = λ event f l. Balanced-step l _ (sym (append-nil held));
  };
  on_dump_resolved = λ l b. Balanced-step l _ (sym (append-nil held));
  on_storage_resolved = λ l b. Balanced-step l _ (sym (append-nil held));
  on_store_created = λ o l b. Balanced-step l _ (sym (append-nil held));
  on_uploaded = λ store bucket key file size o l b. Balanced-step l _ (sym (append-nil held));
}

module _ {E : Type 0} (v : Service E) (job_name : Bytes) (job : JobConfig) where
  upload_staged-Held :
      (held : List Artifact) (start : Instant) (a : Artifact)
      → Keeps (Held held) (upload_staged v job_name job start a)
  unfolding staged_by removed_by gather
  upload_staged-Held held start a =
      Keeps-upload_staged (Held-IsFileInvariant held) v job_name job
        (Keeps-open_and_send (Held-IsFileInvariant held) v job_name job
          (λ a r l b. Balanced-step l _ (sym (append-nil held)))
          (λ f o l b. Balanced-step l _ (sym (append-nil held))))
        start a

  clean_up_releases :
      (a : Artifact) (r : Result Fault RunResult) (s : RunState E)
      → Holds (Held (a ∷ [])) s
      → Holds (Held []) (clean_up v job_name job a r s).1
  unfolding clean_up staged_by removed_by gather observe
  clean_up_releases a r s h =
      (Keeps-removal_failed (Held-IsFileInvariant []).logs v job_name job r _).at _
        (Balanced-step s.actions (removed a (v.remove a s.env).0) refl h)

  dump_and_stage_releases :
      (start : Instant) (request : DumpRequest)
      → Keeps (Held []) (dump_and_stage v job_name job start request)
  unfolding dump_and_stage stage_result staged_by removed_by gather observe
  dump_and_stage_releases start request = record {
    at = λ s h. answered s h (v.stage job.temp_dir request s.env);
  }
    where
      answered :
          (s : RunState E)
          → Holds (Held []) s
          → (a : Result Fault Artifact × E)
          → Holds
              (Held [])
              (stage_result v job_name job start a.0 (record s {
                env = a.1;
                actions = s.actions ++ dumped job.temp_dir request a.0 ∷ [];
              })).1
      answered s h (ok a, e) = clean_up_releases a _ _ (
          (upload_staged-Held (a ∷ []) start a).at _
            (Balanced-step s.actions (dumped job.temp_dir request (ok a)) refl h))
      answered s h (err f, e) = Balanced-step s.actions (dumped job.temp_dir request (err f)) refl h

  -- On every path, whatever fails, a run asks for the removal of each artifact that it staged, once and
  -- in the order of their staging, and of nothing else.
  pub run_removes_staged :
      (e : E)
      → gather staged_by (run v job_name job e).1.actions
        ≡ gather removed_by (run v job_name job e).1.actions
  unfolding run staged_by removed_by gather
  run_removes_staged e = Balanced-end (
      (Keeps-timed_run (Held-IsFileInvariant []) v job_name job dump_and_stage_releases).at _
        Balanced-start)
