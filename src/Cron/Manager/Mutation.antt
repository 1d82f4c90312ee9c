-- ===== src/Cron/Manager/Mutation.antt =====
-- internal/cron/manager.go: the operations of the manager on the cron file.
use ezdbbackup.Common.{
  ℕ, Bool, true, not, ◌&&◌, Option, none, some, List, [], ◌∷◌, if◌then◌else◌, Result, ok, err,
}
use ezdbbackup.Common.Exec.{◌>>=◌, ◌>>◌, pure, resume}
use ezdbbackup.Common.World.{perform}
use ezdbbackup.Common.Bytes.{Bytes}
use ezdbbackup.Cron.Marker.{has_ownership_marker}
use ezdbbackup.Cron.Manager.Files.{
  OsError, not_exist, FileError, is_not_exist, Destination, create_temp, before_mutation, write,
  sync, chmod, close, rename, remove, Os, FileExec, act, inspect_destination, destination_present,
  verify_destination_ownership,
}
use ezdbbackup.Cron.Manager.Lock.{acquire_mutation_lock, release_mutation_lock}

pub data ManagerError : Type 0 where
  content_lacks_marker existing_lacks_marker : ManagerError
  acquire_failed inspect_failed ownership : FileError → ManagerError
  create_failed write_failed sync_failed mode_failed close_failed replace_failed :
      OsError → ManagerError
  presence_failed remove_failed : OsError → ManagerError
  release_failed : List OsError → ManagerError
  joined : ManagerError → ManagerError → ManagerError

abbrev pub Done : Type 0
Done = Result ManagerError (Unit {0})

-- the deferred release of the lock
abbrev with_release : Done → List OsError → Done
with_release r [] = r
with_release (ok u) (e ∷ es) = err (release_failed (e ∷ es))
with_release (err f) (e ∷ es) = err (joined f (release_failed (e ∷ es)))

abbrev after : (OsError → ManagerError) → Option OsError → Done
after wrap none = ok tt
after wrap (some e) = err (wrap e)

abbrev wrapped : {A X Y : Type 0} → (X → Y) → Result X A → Result Y A
wrapped wrap (ok a) = ok a
wrapped wrap (err x) = err (wrap x)

-- what stands at the path: nothing, or a file of the program
abbrev replaceable : Result FileError Destination → Result ManagerError (Option Destination)
replaceable (ok d) =
    if has_ownership_marker d.content then ok (some d) else err existing_lacks_marker
replaceable (err e) = if is_not_exist e then ok none else err (inspect_failed e)

abbrev after_remove : Option OsError → Done
after_remove none = ok tt
after_remove (some not_exist) = ok tt
after_remove (some e) = err (remove_failed e)

abbrev shown : Result FileError Destination → Result ManagerError Bytes
shown (ok d) = if has_ownership_marker d.content then ok d.content else err existing_lacks_marker
shown (err e) = err (inspect_failed e)

-- `path` is that of the cron file, `lock_path` that of its lock.
module _ {E : Type 0} (os : Os E) (path lock_path : Bytes) (retries : ℕ) where
  run_hook : Option (E → Unit {0} × E) → FileExec os (Unit {0})
  run_hook none = pure tt
  run_hook (some hook) = perform before_mutation hook

  release : ℕ → Done → FileExec os Done
  release lock r = do
    failures ← release_mutation_lock os lock_path retries lock
    pure (with_release r failures)

  -- the temporary file, up to its close
  fill_temp : Bytes → ℕ → FileExec os Done
  fill_temp content file = do
    written ← act os (write file content)
    resume (after write_failed written) (λ _. do
      synced ← act os (sync file)
      resume (after sync_failed synced)
          (λ _. do mode ← act os (chmod file); pure (after mode_failed mode)))

  close_temp : ℕ → Done → FileExec os Done
  close_temp file (ok u) = do closed ← act os (close file); pure (after close_failed closed)
  close_temp file (err e) = do act os (close file); pure (err e)

  publish : Option Destination → Bytes → Done → FileExec os Done
  unfolding run_hook
  publish existing temp (err e) = pure (err e)
  publish existing temp (ok u) = do
    run_hook os.hook
    verified ← verify_destination_ownership os path existing
    resume (wrapped ownership verified)
        (λ _. do replaced ← act os (rename temp path); pure (after replace_failed replaced))

  -- the deferred removal of a temporary file that was not renamed
  drop_temp : Bytes → Done → FileExec os Done
  drop_temp temp (ok u) = pure (ok u)
  drop_temp temp (err e) = do act os (remove temp); pure (err e)

  replace_by : Bytes → Option Destination → ℕ × Bytes → FileExec os Done
  unfolding fill_temp close_temp publish drop_temp
  replace_by content existing (file, temp) = do
    filled ← fill_temp content file
    ready ← close_temp file filled
    result ← publish existing temp ready
    drop_temp temp result

  install_locked : Bytes → FileExec os Done
  unfolding replace_by
  install_locked content = do
    destination ← inspect_destination os path
    resume (replaceable destination) (λ existing. do
      answer ← perform create_temp os.create_temp_answer
      resume (wrapped create_failed answer) (replace_by content existing))

  -- `Manager.Install`
  unfoldable pub install : Bytes → FileExec os Done
  unfolding install_locked release
  install content w =
      (if not (has_ownership_marker content) then pure (err content_lacks_marker) else (do
        lock ← acquire_mutation_lock os lock_path retries true
        resume (wrapped acquire_failed lock)
            (λ file. do result ← install_locked content; release file result)))
        w

  -- `Manager.Show`
  unfoldable pub show : FileExec os (Result ManagerError Bytes)
  show = do destination ← inspect_destination os path; pure (shown destination)

  remove_owned : Option Destination → FileExec os Done
  unfolding run_hook
  remove_owned none = pure (ok tt)
  remove_owned (some d) = do
    run_hook os.hook
    verified ← verify_destination_ownership os path (some d)
    resume (wrapped ownership verified)
        (λ _. do removal ← act os (remove path); pure (after_remove removal))

  remove_locked : ℕ → FileExec os Done
  unfolding remove_owned release
  remove_locked file = do
    destination ← inspect_destination os path
    result ← resume (replaceable destination) remove_owned
    release file result

  -- without a cron file, no lock file is made, and without a lock file there is nothing to do
  with_lock : Bool → Result FileError ℕ → FileExec os Done
  unfolding remove_locked
  with_lock present (ok file) = remove_locked file
  with_lock present (err e) =
      pure (if not present && is_not_exist e then ok tt else err (acquire_failed e))

  -- `Manager.Remove`
  unfoldable pub remove_file : FileExec os Done
  unfolding with_lock
  remove_file = do
    presence ← destination_present os path
    resume (wrapped presence_failed presence) (λ present. do
      lock ← acquire_mutation_lock os lock_path retries present
      with_lock present lock)
