-- ===== src/Cron/Manager/Files.antt =====
-- internal/cron/manager.go: the inspection of the cron file. The calls of the operating system are
-- parameters; each is recorded.
use ezdbbackup.Common.{
  ℕ, Bool, true, false, not, ◌&&◌, Option, none, some, if◌then◌else◌, ◌==◌, Result, ok, err,
}
use ezdbbackup.Common.Exec.{Exec, ◌>>=◌, ◌>>◌, pure, resume}
use ezdbbackup.Common.World.{World, perform}
use ezdbbackup.Common.Bytes.{Bytes}
use ezdbbackup.Cron.Marker.{has_ownership_marker}

pub data OsError : Type 0 where
  not_exist interrupted : OsError
  other : Bytes → OsError

-- The fields of `unix.Stat_t` that are read; `regular` is `Mode & S_IFMT == S_IFREG`.
pub record Stat : Type 0 where
  pub regular : Bool
  pub links : ℕ
  pub device : ℕ
  pub inode : ℕ

pub data FileError : Type 0 where
  os_error : OsError → FileError
  not_regular many_links changed_while_inspected lock_changed : FileError
  inspect_failed : OsError → FileError
  appeared identity_changed marker_changed : FileError
  changed : FileError → FileError

-- What is asked of the operating system; open files go by numbers.
pub data FileCall : Type 0 where
  lstat open_read : Bytes → FileCall
  open_lock : Bool → Bytes → FileCall
  fstat read_all flock unlock close sync chmod : ℕ → FileCall
  create_temp before_mutation : FileCall
  write : ℕ → Bytes → FileCall
  rename : Bytes → Bytes → FileCall
  remove : Bytes → FileCall

-- The answers, over an environment `E`. `create_temp` makes a file in the folder of the cron file,
-- and `before_mutation` is the hook of the tests.
pub record Os (E : Type 0) : Type 0 where
  pub lstat_answer : Bytes → E → Result OsError Stat × E
  pub open_answer : Bytes → E → Result OsError ℕ × E
  pub open_lock_answer : Bool → Bytes → E → Result OsError ℕ × E
  pub fstat_answer : ℕ → E → Result OsError Stat × E
  pub read_answer : ℕ → E → Result OsError Bytes × E
  pub create_temp_answer : E → Result OsError (ℕ × Bytes) × E
  pub answer : FileCall → E → Option OsError × E
  pub hook : Option (E → Unit {0} × E)

abbrev pub as_file_error : {A : Type 0} → Result OsError A → Result FileError A
as_file_error (ok a) = ok a
as_file_error (err e) = err (os_error e)

-- `errors.Is(err, os.ErrNotExist)`
unfoldable pub is_not_exist : FileError → Bool
is_not_exist (os_error not_exist) = true
is_not_exist _ = false

-- `inspectedDestination`
pub record Destination : Type 0 where
  pub content : Bytes
  pub device : ℕ
  pub inode : ℕ

-- `validateRegularSingleLink`
unfoldable pub validate_regular_single_link : Stat → Result FileError (Unit {0})
validate_regular_single_link s =
    if not s.regular then err not_regular else if not (s.links == 1) then err many_links else ok tt

unfoldable pub same_file : Stat → Stat → Bool
same_file l r = (l.device == r.device) && (l.inode == r.inode)

abbrev pub guard : {A : Type 0} → Bool → A → Result A (Unit {0})
guard b e = if b then ok tt else err e

module _ {E : Type 0} (os : Os E) where
  abbrev pub FileExec : Type 0 → Type 0
  FileExec A = Exec (World E FileCall) A

  abbrev pub stat_path : Bytes → FileExec (Result FileError Stat)
  stat_path path = do
    answer ← perform (lstat path) (os.lstat_answer path)
    pure (as_file_error answer)

  abbrev pub stat_file : ℕ → FileExec (Result FileError Stat)
  stat_file file = do
    answer ← perform (fstat file) (os.fstat_answer file)
    pure (as_file_error answer)

  abbrev pub act : FileCall → FileExec (Option OsError)
  act call = perform call (os.answer call)

  inspect_opened : Stat → ℕ → FileExec (Result FileError Destination)
  unfolding validate_regular_single_link same_file
  inspect_opened seen file = do
    stat ← stat_file file
    resume stat (λ s. resume (validate_regular_single_link s) (λ _.
        resume (guard (same_file seen s) changed_while_inspected) (λ _. do
          answer ← perform (read_all file) (os.read_answer file)
          resume (as_file_error answer) (λ content.
              pure (ok (record { content = content; device = s.device; inode = s.inode }))))))

  -- `inspectDestination`
  unfoldable pub inspect_destination : Bytes → FileExec (Result FileError Destination)
  unfolding inspect_opened validate_regular_single_link
  inspect_destination path = do
    stat ← stat_path path
    resume stat (λ s. resume (validate_regular_single_link s) (λ _. do
      answer ← perform (open_read path) (os.open_answer path)
      resume (as_file_error answer)
          (λ file. do result ← inspect_opened s file; act (close file); pure result)))

  -- `destinationPresent`
  presence : Result OsError Stat → Result OsError Bool
  presence (ok s) = ok true
  presence (err not_exist) = ok false
  presence (err e) = err e

  unfoldable pub destination_present : Bytes → FileExec (Result OsError Bool)
  unfolding presence
  destination_present path = do
    answer ← perform (lstat path) (os.lstat_answer path)
    pure (presence answer)

  still_absent : Result OsError Stat → Result FileError (Unit {0})
  still_absent (ok s) = err appeared
  still_absent (err not_exist) = ok tt
  still_absent (err e) = err (inspect_failed e)

  still_owned : Destination → Result FileError Destination → Result FileError (Unit {0})
  still_owned expected (err e) = err (changed e)
  still_owned expected (ok d) =
      if not ((d.device == expected.device) && (d.inode == expected.inode))
      then err identity_changed
      else if not (has_ownership_marker d.content)
      then err marker_changed
      else ok tt

  -- `verifyDestinationOwnership`
  unfoldable pub verify_destination_ownership :
      Bytes → Option Destination → FileExec (Result FileError (Unit {0}))
  unfolding still_absent still_owned
  verify_destination_ownership path none = do
    answer ← perform (lstat path) (os.lstat_answer path)
    pure (still_absent answer)
  verify_destination_ownership path (some expected) = do
    result ← inspect_destination path
    pure (still_owned expected result)
