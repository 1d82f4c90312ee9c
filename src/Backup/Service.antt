-- ===== src/Backup/Service.antt =====
-- The steps of `(*Service).Run` of internal/backup/service.go: logging, progress and errors. The
-- variables that its closures share are the state of a run.
pub mod Keeps
use ezdbbackup.Common.{
  ℕ, Bool, true, false, not, Option, none, some, List, [], ◌∷◌, ◌++◌, String, if◌then◌else◌, length,
  Result, ok, err,
}
use ezdbbackup.Common.Exec.{Exec, ◌>>=◌, ◌>>◌, pure, resume}
use ezdbbackup.Common.Bytes.{Bytes, is_empty}
use ezdbbackup.Storage.Key.{object_key}
use ezdbbackup.Config.Types.{JobConfig}
use ezdbbackup.Backup.Fault.{
  Fault, append_secret, safe_error_text, new_stage_error, join_errors, error_stage_of,
  failure_stage,
}
use ezdbbackup.Backup.Types.{
  DumpRequest, StorageOptions, Artifact, Instant, Value, duration, text, count, flag, Level,
  debug_level, info_level, error_level, Event, ProgressKind, started, staged, upload_started,
  completed, failed, ProgressEvent, Action, logged, progressed, dump_resolved, dumped,
  storage_resolved, store_created, opened, uploaded, closed, removed, Service, RunResult, Outcome,
}

-- The variables of one run, and what it has done.
pub record RunState (E : Type 0) : Type 0 where
  pub env : E
  pub actions : List Action
  pub secrets : List Bytes
  pub log_healthy : Bool

abbrev pub no_result : RunResult
no_result = record { job = []; object_key = []; size = 0; duration = none }

as_result : Option Fault → Result Fault (Unit {0})
as_result none = ok tt
as_result (some f) = err f

module _ {E : Type 0} where
  -- a call whose answer is recorded
  unfoldable pub observe : {A : Type 0} → (A → Action) → (E → A × E) → Exec (RunState E) A
  observe action call s =
      let (a, e) = call s.env in (a, record s { env = e; actions = s.actions ++ action a ∷ [] })

  -- a call that is not recorded, such as the clock's
  unfoldable pub ask : {A : Type 0} → (E → A × E) → Exec (RunState E) A
  ask call s = let (a, e) = call s.env in (a, record s { env = e })

  unfoldable pub add_secret : Bytes → Exec (RunState E) (Unit {0})
  add_secret value s = (tt, record s { secrets = append_secret s.secrets value })

  unfoldable pub stage_fault : {A : Type 0} → String → Fault → Exec (RunState E) (Result Fault A)
  stage_fault stage f s = (err (new_stage_error stage f s.secrets), s)

  -- `(*Service).progress`
  unfoldable pub progress_by :
      Option (ProgressEvent → E → Unit {0} × E) → ProgressEvent → Exec (RunState E) (Unit {0})
  progress_by none event = pure tt
  progress_by (some callback) event = observe (λ _. progressed event) (callback event)

  unfoldable pub progress : Service E → ProgressEvent → Exec (RunState E) (Unit {0})
  unfolding progress_by observe
  progress v event = progress_by v.progress event

  -- the closure `writeLog`, behind a write
  log_answer : Option Fault → Exec (RunState E) (Option Fault)
  log_answer none s = (none, s)
  log_answer (some f) s =
      (some (new_stage_error "logging" f s.secrets), record s { log_healthy = false })

  -- `(*Service).write`
  write_by : Option (Event → E → Option Fault × E) → Event → Exec (RunState E) (Option Fault)
  write_by none event = pure none
  write_by (some sink) event = observe (logged event) (sink event)

  write_event : Service E → Event → Exec (RunState E) (Option Fault)
  unfolding write_by log_answer observe
  write_event v event = do answer ← write_by v.log event; log_answer answer

  -- the closure `writeLog`
  unfoldable pub write_log : Service E → Event → Exec (RunState E) (Option Fault)
  unfolding write_event
  write_log v event s = (if s.log_healthy then write_event v event else pure none) s

  -- `if logErr := writeLog(...); logErr != nil { return Result{}, logErr }`
  unfoldable pub must_log : Service E → Event → Exec (RunState E) (Result Fault (Unit {0}))
  unfolding as_result
  must_log v event = do failure ← write_log v event; pure (as_result failure)

  unfoldable pub log_now :
      Service E
      → Level
      → String
      → Bytes
      → String
      → List (String × Value)
      → Exec (RunState E) (Result Fault (Unit {0}))
  log_now v level message job stage fields = do
    now ← ask v.clock
    must_log v (record {
      time = now;
      level = level;
      message = message;
      job = job;
      stage = stage;
      fields = fields;
    })

  -- the same under `if s.Debug`
  unfoldable pub log_debug :
      Service E
      → String
      → Bytes
      → List (String × Value)
      → Exec (RunState E) (Result Fault (Unit {0}))
  log_debug v message job fields =
      if v.debug then log_now v debug_level message job "configuration" fields else pure (ok tt)
