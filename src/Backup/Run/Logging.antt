-- ===== src/Backup/Run/Logging.antt =====
-- A run writes no log event after one that failed.
use ezdbbackup.Common.{
  ◌≡◌, refl, ap, ◌∙◌, Bool, true, false, Option, none, some, List, [], ◌∷◌, ◌++◌,
}
use ezdbbackup.Common.Bytes.{Bytes}
use ezdbbackup.Config.Types.{JobConfig}
use ezdbbackup.Backup.Types.{Action, logged, Service}
use ezdbbackup.Backup.Run.{run}
use ezdbbackup.Backup.Run.Keeps.{
  IsFileInvariant, Keeps-open_and_send, Keeps-dump_and_stage, Keeps-timed_run,
}

-- The log after an action, or none where a log that failed was written to.
unfoldable pub log_after : Bool → Action → Option Bool
log_after true (logged event none) = some true
log_after true (logged event (some f)) = some false
log_after false (logged event answer) = none
log_after b _ = some b

unfoldable pub logs_after : Option Bool → List Action → Option Bool
unfolding log_after
logs_after none l = none
logs_after (some b) [] = some b
logs_after (some b) (a ∷ l) = logs_after (log_after b a) l

logs_after-append :
    (o : Option Bool) (l m : List Action) → logs_after o (l ++ m) ≡ logs_after (logs_after o l) m
unfolding logs_after
logs_after-append none l m = refl
logs_after-append (some b) [] m = refl
logs_after-append (some b) (a ∷ l) m = logs_after-append (log_after b a) l m

record Quiet (l : List Action) (healthy : Bool) : Type 0 where
  state : logs_after (some true) l ≡ some healthy

Quiet-step :
    {b b' : Bool} (l : List Action) (a : Action)
    → logs_after (some b) (a ∷ []) ≡ some b'
    → Quiet l b
    → Quiet (l ++ a ∷ []) b'
Quiet-step l a e h = record {
  state = logs_after-append (some true) l (a ∷ []) ∙ ap (λ o. logs_after o (a ∷ [])) h.state ∙ e;
}

Quiet-other :
    (l : List Action) (b : Bool) (a : Action)
    → log_after true a ≡ some true
    → log_after false a ≡ some false
    → Quiet l b
    → Quiet (l ++ a ∷ []) b
unfolding logs_after
Quiet-other l true a e f = Quiet-step l a (ap (λ o. logs_after o []) e)
Quiet-other l false a e f = Quiet-step l a (ap (λ o. logs_after o []) f)

Quiet-IsFileInvariant : IsFileInvariant Quiet
unfolding log_after logs_after
Quiet-IsFileInvariant = record {
  logs = record {
    progress_kept = λ event l b. Quiet-other l b _ refl refl;
    written = λ event l. Quiet-step l _ refl;
    broken = λ event f l. Quiet-step l _ refl;
  };
  on_dump_resolved = λ l b. Quiet-other l b _ refl refl;
  on_storage_resolved = λ l b. Quiet-other l b _ refl refl;
  on_store_created = λ o l b. Quiet-other l b _ refl refl;
  on_uploaded = λ store bucket key file size o l b. Quiet-other l b _ refl refl;
}

-- Once the log sink has failed, a run writes no further event to it, on any path; and the flag that
-- the run keeps on its log says at the end whether the sink has failed.
pub run_stops_logging :
    {E : Type 0} (v : Service E) (job_name : Bytes) (job : JobConfig) (e : E)
    → let s = (run v job_name job e).1 in logs_after (some true) s.actions ≡ some s.log_healthy
unfolding run log_after logs_after
run_stops_logging v job_name job e =
    ((Keeps-timed_run Quiet-IsFileInvariant v job_name job (
        Keeps-dump_and_stage Quiet-IsFileInvariant v job_name job
          (Keeps-open_and_send Quiet-IsFileInvariant v job_name job
            (λ a r l b. Quiet-other l b _ refl refl) (λ f o l b. Quiet-other l b _ refl refl))
          (λ d q r l b. Quiet-other l b _ refl refl) (λ a o l b. Quiet-other l b _ refl refl))).at
      _ (record { state = refl })).state
