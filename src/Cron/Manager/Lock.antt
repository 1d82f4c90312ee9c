-- ===== src/Cron/Manager/Lock.antt =====
-- internal/cron/manager.go: the lock file beside the cron file.
use ezdbbackup.Common.{ℕ, zero, suc, Bool, Option, none, some, List, [], ◌∷◌, Result, ok, err}
use ezdbbackup.Common.Exec.{◌>>=◌, ◌>>◌, pure, resume}
use ezdbbackup.Common.World.{perform}
use ezdbbackup.Common.Bytes.{Bytes}
use ezdbbackup.Cron.Manager.Files.{
  OsError, interrupted, Stat, FileError, os_error, lock_changed, open_lock, flock, unlock, close,
  Os, as_file_error, validate_regular_single_link, same_file, guard, FileExec, stat_path, stat_file,
  act,
}

-- `errors.Join` of two results
abbrev join_answers : Option OsError → Option OsError → List OsError
join_answers none none = []
join_answers (some e) none = e ∷ []
join_answers none (some e) = e ∷ []
join_answers (some e) (some f) = e ∷ f ∷ []

-- `lock_path` is the name of the lock file, `retries` a bound of the calls that a signal interrupts.
module _ {E : Type 0} (os : Os E) (lock_path : Bytes) (retries : ℕ) where
  flock_answer :
      FileExec os (Result FileError (Unit {0}))
      → Option OsError
      → FileExec os (Result FileError (Unit {0}))
  flock_answer again none = pure (ok tt)
  flock_answer again (some interrupted) = again
  flock_answer again (some e) = pure (err (os_error e))

  -- the loop around `flock`
  unfoldable pub flock_until : ℕ → ℕ → FileExec os (Result FileError (Unit {0}))
  unfolding flock_answer
  flock_until zero file = pure (err (os_error interrupted))
  flock_until (suc n) file = do
    answer ← act os (flock file)
    flock_answer (flock_until n file) answer

  -- the checks under the lock
  check_locked : Stat → ℕ → FileExec os (Result FileError (Unit {0}))
  check_locked before file = do
    stat ← stat_path os lock_path
    resume stat (λ s. resume (validate_regular_single_link s) (λ _.
        resume (guard (same_file before s) lock_changed) (λ _. do
          again ← stat_file os file
          resume again (λ t. pure (validate_regular_single_link t)))))

  unlock_failed : ℕ → Result FileError (Unit {0}) → FileExec os (Result FileError (Unit {0}))
  unlock_failed file (ok u) = pure (ok u)
  unlock_failed file (err e) = do act os (unlock file); pure (err e)

  lock_opened : ℕ → FileExec os (Result FileError (Unit {0}))
  unfolding check_locked unlock_failed flock_until
  lock_opened file = do
    stat ← stat_file os file
    resume stat (λ s. resume (validate_regular_single_link s) (λ _. do
      locked ← flock_until retries file
      resume locked (λ _. do checked ← check_locked s file; unlock_failed file checked)))

  close_failed : ℕ → Result FileError (Unit {0}) → FileExec os (Result FileError ℕ)
  close_failed file (ok u) = pure (ok file)
  close_failed file (err e) = do act os (close file); pure (err e)

  -- `acquireMutationLockWithCreate`
  unfoldable pub acquire_mutation_lock : Bool → FileExec os (Result FileError ℕ)
  unfolding lock_opened close_failed
  acquire_mutation_lock create = do
    answer ← perform (open_lock create lock_path) (os.open_lock_answer create lock_path)
    resume (as_file_error answer) (λ file. do locked ← lock_opened file; close_failed file locked)

  -- `releaseMutationLock`
  unfoldable pub release_mutation_lock : ℕ → FileExec os (List OsError)
  release_mutation_lock file = do
    unlocked ← act os (unlock file)
    closed ← act os (close file)
    pure (join_answers unlocked closed)
