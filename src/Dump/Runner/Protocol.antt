-- ===== src/Dump/Runner/Protocol.antt =====
-- internal/dump/runner.go: the calls and the errors of a run.
use ezdbbackup.Common.{ℕ, Option, List, Result, ℤ}
use ezdbbackup.Common.World.{World}
use ezdbbackup.Common.Bytes.{Bytes}
use ezdbbackup.Backup.Types.{DumpRequest}
use ezdbbackup.Dump.Capture.{Capture, new_capture, stderr_limit}
use ezdbbackup.Dump.Environment.{child_env}
use ezdbbackup.Dump.Runner.{RunError, RunCall, started, RunnerOs}
use ezdbbackup.Dump.Runner.Shape.{IsAttempt, IsRun, shown_by}

module _ {E X : Type 0} (os : RunnerOs E X) (request : DumpRequest) (arguments : List Bytes)
    (limit : ℤ) where
  abbrev shown_stderr : List Bytes → Bytes
  shown_stderr = shown_by limit request.password

  abbrev initial : Capture
  initial = new_capture (stderr_limit limit) request.password

  abbrev Attempt : Option X → List (RunCall X) → List (RunError X) → Type 0
  Attempt = IsAttempt os.is_error request.binary arguments request.password shown_stderr

  abbrev Run : List (RunCall X) → List (RunError X) → Type 0
  Run = IsRun os.is_error request.binary arguments request.password shown_stderr

  abbrev start_call : List Bytes → Result X ℕ → RunCall X
  start_call entries = started request.binary arguments (child_env entries request.password)
