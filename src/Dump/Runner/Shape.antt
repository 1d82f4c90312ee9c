-- ===== src/Dump/Runner/Shape.antt =====
-- internal/dump/runner.go: the calls of a run with their answers, and the errors that fit them.
use ezdbbackup.Common.{
  ℕ, Bool, true, false, ◌≡◌, take, All, Option, none, some, List, [], ◌∷◌, ◌++◌, ok, err, ℤ,
}
use ezdbbackup.Common.Bytes.{Bytes}
use ezdbbackup.Dump.Capture.{stderr_limit}
use ezdbbackup.Dump.Capture.Refines.{concat, redacted_text}
use ezdbbackup.Dump.Environment.{child_env}
use ezdbbackup.Dump.Runner.{
  startup, execution, RunError, Waited, RunCall, identified, opening, listed, opened, closed,
  rechecked, started, waited, killed, asked_context, close_failure, with_context,
}

-- the first error of the writes of the copy
pub data FirstError {X : Type 0} : List (Option X) → X → Type 0 where
  here : {x : X} {writes : List (Option X)} → FirstError (some x ∷ writes) x
  later : {x : X} {writes : List (Option X)} → FirstError writes x → FirstError (none ∷ writes) x

-- every write of the copy went well
abbrev pub NoError : {X : Type 0} → List (Option X) → Type 0
NoError writes = All (λ w. w ≡ none) writes

-- What the end of a process says: no error, that of `Wait`, that of the copy, or both, where the one
-- is not the other.
pub data Ended {X : Type 0} (is_error : X → X → Bool) (outcome : Waited X) : List X → Type 0 where
  cleanly : outcome.failure ≡ none → NoError outcome.write_errors → Ended is_error outcome []
  by_exit :
      (x : X)
      → outcome.failure ≡ some x
      → NoError outcome.write_errors
      → Ended is_error outcome (x ∷ [])
  by_copy :
      (y : X)
      → outcome.failure ≡ none
      → FirstError outcome.write_errors y
      → Ended is_error outcome (y ∷ [])
  by_exit_of_copy :
      (x y : X)
      → outcome.failure ≡ some x
      → FirstError outcome.write_errors y
      → is_error x y ≡ true
      → Ended is_error outcome (x ∷ [])
  by_both :
      (x y : X)
      → outcome.failure ≡ some x
      → FirstError outcome.write_errors y
      → is_error x y ≡ false
      → Ended is_error outcome (x ∷ y ∷ [])

-- The calls and errors behind the check of the executable's path, with what is shown of standard error.
pub data IsAttempt {X : Type 0} (is_error : X → X → Bool) (binary : Bytes) (arguments : List Bytes)
    (password : Bytes) (shown : List Bytes → Bytes) (recheck : Option X)
    : List (RunCall X) → List (RunError X) → Type 0 where
  recheck_failed :
      (x : X)
      → recheck ≡ some x
      → IsAttempt is_error binary arguments password shown recheck []
          (record { kind = startup; causes = x ∷ []; text = none } ∷ [])
  start_failed :
      (entries : List Bytes) (x : X) (text : Bytes)
      → text ≡ shown []
      → recheck ≡ none
      → IsAttempt is_error binary arguments password shown recheck
          (listed entries ∷ started binary arguments (child_env entries password) (err x) ∷ [])
          (record { kind = startup; causes = x ∷ []; text = some text } ∷ [])
  succeeded :
      (entries : List Bytes) (process : ℕ) (outcome : Waited X)
      → recheck ≡ none
      → Ended is_error outcome []
      → IsAttempt is_error binary arguments password shown recheck
          (listed entries
            ∷ started binary arguments (child_env entries password) (ok process)
            ∷ waited process outcome
            ∷ [])
          []
  failed :
      (entries : List Bytes) (process : ℕ) (outcome : Waited X) (x : X) (xs : List X)
      (context : Option X) (text : Bytes)
      → text ≡ shown outcome.stderr_pieces
      → recheck ≡ none
      → Ended is_error outcome (x ∷ xs)
      → IsAttempt is_error binary arguments password shown recheck
          (listed entries
            ∷ started binary arguments (child_env entries password) (ok process)
            ∷ waited process outcome
            ∷ killed process
            ∷ asked_context context
            ∷ [])
          (record { kind = execution; causes = with_context context (x ∷ xs); text = some text }
            ∷ [])

-- A run opens the executable, checks its path again, attempts the process and closes the executable,
-- in this order, or it opens nothing.
pub data IsRun {X : Type 0} (is_error : X → X → Bool) (binary : Bytes) (arguments : List Bytes)
    (password : Bytes) (shown : List Bytes → Bytes)
    : List (RunCall X) → List (RunError X) → Type 0 where
  no_identity :
      (x : X)
      → IsRun is_error binary arguments password shown
          (identified (err x) ∷ [])
          (record { kind = startup; causes = x ∷ []; text = none } ∷ [])
  not_opened :
      (identity : ℕ) (x : X)
      → IsRun is_error binary arguments password shown
          (identified (ok identity) ∷ opening binary identity (err x) ∷ [])
          (record { kind = startup; causes = x ∷ []; text = none } ∷ [])
  attempted :
      (identity file source : ℕ) {t : List (RunCall X)} {errors : List (RunError X)}
      (recheck close_error : Option X)
      → IsAttempt is_error binary arguments password shown recheck t errors
      → IsRun is_error binary arguments password shown
          (identified (ok identity)
              ∷ opening binary identity (ok (file, source))
              ∷ opened file
              ∷ rechecked source recheck
              ∷ t
            ++ closed file close_error ∷ [])
          (errors ++ close_failure close_error)

-- standard error, up to the limit, with the password replaced
abbrev pub shown_by : ℤ → Bytes → List Bytes → Bytes
shown_by limit password pieces = take (stderr_limit limit) (redacted_text password (concat pieces))
