-- ===== src/Dump/Runner.antt =====
-- internal/dump/runner.go: one run of mysqldump. Identities, files and the process are the answers
-- of a parameter; the calls are recorded in order.
pub mod Shape
pub mod Protocol
use ezdbbackup.Common.{
  ℕ, Bool, true, false, not, ◌&&◌, ◌||◌, Option, none, some, List, [], ◌∷◌, ◌++◌, Result, ok, err,
  if◌then◌else◌, ℤ,
}
use ezdbbackup.Common.Exec.{Exec, ◌>>=◌, ◌>>◌, pure}
use ezdbbackup.Common.World.{World, perform, consult, observe}
use ezdbbackup.Common.Bytes.{Bytes, codes, is_empty}
use ezdbbackup.Backup.Types.{DumpRequest}
use ezdbbackup.Dump.Args.{args, probe_args}
use ezdbbackup.Dump.Capture.{Capture, new_capture, stderr_limit, write_pieces, finish}
use ezdbbackup.Dump.Environment.{child_env}

-- `FailureKind`
pub data FailureKind : Type 0 where
  startup execution : FailureKind

-- `RunError`: its kind, what `Err` wraps, in order, and the text behind it.
pub record RunError (X : Type 0) : Type 0 where
  pub kind : FailureKind
  pub causes : List X
  pub text : Option Bytes

-- What `Wait` gives: its error, the pieces of standard error, and the errors of the writes to the
-- destination.
pub record Waited (X : Type 0) : Type 0 where
  pub failure : Option X
  pub stderr_pieces : List Bytes
  pub write_errors : List (Option X)

-- Files, sources and processes go by numbers. Each call has its answer behind what it is given.
pub data RunCall (X : Type 0) : Type 0 where
  identified : Result X ℕ → RunCall X
  opening : Bytes → ℕ → Result X (ℕ × ℕ) → RunCall X
  opened : ℕ → RunCall X
  rechecked : ℕ → Option X → RunCall X
  listed : List Bytes → RunCall X
  started : Bytes → List Bytes → List Bytes → Result X ℕ → RunCall X
  waited : ℕ → Waited X → RunCall X
  killed : ℕ → RunCall X
  asked_context : Option X → RunCall X
  closed : ℕ → Option X → RunCall X

-- internal/securepath, os/exec, the context, the environment and `errors.Is`.
pub record RunnerOs (E X : Type 0) : Type 0 where
  pub current_identity : E → Result X ℕ × E
  pub lookup_identity : Bytes → E → Result X ℕ × E
  pub open_regular : Bytes → ℕ → E → Result X (ℕ × ℕ) × E
  pub after_executable_open : Option (ℕ → E → Unit {0} × E)
  pub close_answer : ℕ → E → Option X × E
  pub recheck_answer : ℕ → E → Option X × E
  pub environ : E → List Bytes × E
  pub start_answer : Bytes → List Bytes → List Bytes → E → Result X ℕ × E
  pub wait_answer : ℕ → E → Waited X × E
  pub kill_answer : ℕ → E → Option X × E
  pub context_error : E → Option X × E
  pub is_error : X → X → Bool

-- `(*errorRecordingWriter).Write`, for each write in order: the first error is kept.
unfoldable pub recorded_error : {X : Type 0} → List (Option X) → Option X
recorded_error [] = none
recorded_error (none ∷ writes) = recorded_error writes
recorded_error (some x ∷ writes) = some x

abbrev pub finished_text : Capture → Bytes
finished_text b = (finish b).output.data_bytes

abbrev pub startup_error : {X : Type 0} → List X → Option Bytes → RunError X
startup_error causes text = record { kind = startup; causes = causes; text = text }

abbrev pub execution_error : {X : Type 0} → List X → Option Bytes → RunError X
execution_error causes text = record { kind = execution; causes = causes; text = text }

abbrev pub with_context : {X : Type 0} → Option X → List X → List X
with_context none causes = causes
with_context (some x) causes = x ∷ causes

abbrev pub close_failure : {X : Type 0} → Option X → List (RunError X)
close_failure none = []
close_failure (some x) = execution_error (x ∷ []) none ∷ []

abbrev pub after_open : {E : Type 0} → Option (ℕ → E → Unit {0} × E) → ℕ → E → Unit {0} × E
after_open none file e = (tt, e)
after_open (some f) file e = f file e

module _ {E X : Type 0} (os : RunnerOs E X) where
  abbrev pub RunExec : Type 0 → Type 0
  RunExec A = Exec (World E (RunCall X)) A

  -- `executableIdentity`
  unfoldable pub executable_identity : Bytes → RunExec (Result X ℕ)
  executable_identity run_as =
      if is_empty run_as
      then observe identified os.current_identity
      else observe identified (os.lookup_identity run_as)

  -- the error of `Wait`, joined with that of a copy which it is not
  unfoldable pub wait_causes : Option X → Option X → List X
  wait_causes none none = []
  wait_causes none (some copy) = copy ∷ []
  wait_causes (some e) none = e ∷ []
  wait_causes (some e) (some copy) = if os.is_error e copy then e ∷ [] else e ∷ copy ∷ []

  -- behind `Wait`
  unfoldable pub end_process : ℕ → Capture → List X → RunExec (List (RunError X))
  end_process process stderr [] = pure []
  end_process process stderr (e ∷ es) = do
    perform (killed process) (os.kill_answer process)
    context ← observe asked_context os.context_error
    pure (execution_error (with_context context (e ∷ es)) (some (finished_text stderr)) ∷ [])

  unfoldable pub run_process : Capture → Result X ℕ → RunExec (List (RunError X))
  unfolding end_process wait_causes
  run_process stderr (err x) = pure (startup_error (x ∷ []) (some (finished_text stderr)) ∷ [])
  run_process stderr (ok process) = do
    outcome ← observe (waited process) (os.wait_answer process)
    end_process process (write_pieces outcome.stderr_pieces stderr)
        (wait_causes outcome.failure (recorded_error outcome.write_errors))

  -- behind `RecheckPath`
  unfoldable pub start_process :
      DumpRequest → List Bytes → Capture → Option X → RunExec (List (RunError X))
  unfolding run_process
  start_process request arguments stderr (some x) = pure (startup_error (x ∷ []) none ∷ [])
  start_process request arguments stderr none = do
    entries ← observe listed os.environ
    answer ←
        observe (started request.binary arguments (child_env entries request.password))
          (os.start_answer request.binary arguments (child_env entries request.password))
    run_process stderr answer

  -- The deferred call joins its error.
  unfoldable pub run_opened :
      DumpRequest → List Bytes → Capture → Result X (ℕ × ℕ) → RunExec (List (RunError X))
  unfolding start_process
  run_opened request arguments stderr (err x) = pure (startup_error (x ∷ []) none ∷ [])
  run_opened request arguments stderr (ok (file, source)) = do
    perform (opened file) (after_open os.after_executable_open file)
    rechecked_answer ← observe (rechecked source) (os.recheck_answer source)
    errors ← start_process request arguments stderr rechecked_answer
    close_error ← observe (closed file) (os.close_answer file)
    pure (errors ++ close_failure close_error)

  unfoldable pub run_as_identity :
      DumpRequest → List Bytes → Capture → Result X ℕ → RunExec (List (RunError X))
  unfolding run_opened
  run_as_identity request arguments stderr (err x) = pure (startup_error (x ∷ []) none ∷ [])
  run_as_identity request arguments stderr (ok identity) = do
    answer ← observe (opening request.binary identity) (os.open_regular request.binary identity)
    run_opened request arguments stderr answer

  -- `run`
  unfoldable pub run_dump : ℤ → DumpRequest → List Bytes → RunExec (List (RunError X))
  unfolding run_as_identity executable_identity
  run_dump limit request arguments = do
    identity ← executable_identity request.run_as
    run_as_identity request arguments (new_capture (stderr_limit limit) request.password) identity

  -- `Run`
  unfoldable pub run_backup : ℤ → DumpRequest → RunExec (List (RunError X))
  unfolding run_dump
  run_backup limit request = run_dump limit request (args request)

  -- `Probe`
  unfoldable pub run_probe : ℤ → DumpRequest → RunExec (List (RunError X))
  unfolding run_dump
  run_probe limit request = run_dump limit request (probe_args request)
