-- ===== src/Backup/Run/Ending.antt =====
-- The last thing that a run reports.
use ezdbbackup.Common.{◌≡◌, refl, ap, Option, none, some, List, [], ◌∷◌, ◌++◌, String}
use ezdbbackup.Common.Bytes.{Bytes}
use ezdbbackup.Config.Types.{JobConfig}
use ezdbbackup.Backup.Fault.{Fault}
use ezdbbackup.Backup.Types.{
  Action, progressed, ProgressKind, ProgressEvent, completed, failed, Service, RunResult, Outcome,
  Instant,
}
use ezdbbackup.Backup.Service.{RunState, observe, progress, progress_by}
use ezdbbackup.Backup.Run.{
  progress_failed, end_failed, log_completed, end_completed, end_by, end_run, timed_run, run,
}

unfoldable pub kind_for : Option Fault → ProgressKind
kind_for none = completed
kind_for (some f) = failed

-- the last action reports the end, of the kind that the error says
pub record Reported (o : Outcome) (l : List Action) : Type 0 where
  pub before : List Action
  pub event : ProgressEvent
  pub last : l ≡ before ++ progressed event ∷ []
  pub kind : event.kind ≡ kind_for o.error

module _ {E : Type 0} (v : Service E) (callback : ProgressEvent → E → Unit {0} × E)
    (present : v.progress ≡ some callback) where
  progress-last :
      (event : ProgressEvent) (s : RunState E)
      → (progress v event s).1.actions ≡ s.actions ++ progressed event ∷ []
  unfolding progress progress_by observe
  progress-last event s = ap (λ p. (progress_by p event s).1.actions) present

  module _ (job_name : Bytes) (job : JobConfig) where
    progress_failed-Reported :
        (stage : String) (r : RunResult) (f : Fault) (s : RunState E)
        → let (o, s') = progress_failed v job_name job stage r f s in Reported o s'.actions
    unfolding progress_failed kind_for
    progress_failed-Reported stage r f s = record {
      before = s.actions;
      event = _;
      last = progress-last _ s;
      kind = refl;
    }

    log_completed-Reported :
        (r : RunResult) (f : Option Fault) (s : RunState E)
        → let (o, s') = log_completed v job_name job r f s in Reported o s'.actions
    unfolding log_completed kind_for
    log_completed-Reported r none s = record {
      before = s.actions;
      event = _;
      last = progress-last _ s;
      kind = refl;
    }
    log_completed-Reported r (some f) s = progress_failed-Reported "logging" r f s

    end_by-Reported :
        (start finish : Instant) (r : RunResult) (f : Option Fault) (s : RunState E)
        → let (o, s') = end_by v job_name job start finish r f s in Reported o s'.actions
    unfolding end_by end_failed end_completed
    end_by-Reported start finish r none s = log_completed-Reported r _ _
    end_by-Reported start finish r (some f) s = progress_failed-Reported _ r _ _

    -- With a progress callback, the last thing that a run does is to report its end to the callback: as
    -- completed when it returns no error, as failed when it returns one.
    pub run-Reported : (e : E) → let (o, s) = run v job_name job e in Reported o s.actions
    unfolding run timed_run end_run
    run-Reported e = end_by-Reported _ _ _ _ _
