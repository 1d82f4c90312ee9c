-- ===== src/Validation/SensitiveFile.antt =====
-- internal/validation/environment.go: the rules on a file with a secret, `checkSensitiveFile`.
-- What looks at the file system or at the accounts is the record `Machine`.
pub mod Private
use ezdbbackup.Common.{
  ℕ, ◌/◌, ◌%◌, Bool, true, false, not, ◌&&◌, ◌||◌, ◌==◌, Result, ok, err, ◌>>=◌, ◌>>◌,
}
use ezdbbackup.Common.Bytes.{Bytes}
use ezdbbackup.Backup.Fault.{Fault}
use ezdbbackup.Validation.Identity.{UserIdentity, read_permission, refuse_if, bit, allows_stat}

-- `syscall.Stat_t`, as far as it is looked at
pub record FileStat : Type 0 where
  pub file_mode : ℕ
  pub file_links : ℕ
  pub file_uid : ℕ
  pub file_gid : ℕ

pub data SensitiveError : Type 0 where
  uninspected unknown_user no_traversal : Fault → SensitiveError
  not_regular hard_links others_allowed others_can_write not_readable unrelated_owner :
      SensitiveError

-- `inspectResolvedTarget`, `lookupIdentity` and `checkLexicalAndResolvedTraversal`
pub record Machine : Type 0 where
  pub inspect : Bytes → Result Fault (Bytes × FileStat)
  pub lookup : Bytes → Result Fault UserIdentity
  pub traverse : UserIdentity → Bytes → Bytes → Result Fault (Unit {0})

-- `mode & S_IFMT == S_IFREG`
abbrev pub is_regular : ℕ → Bool
is_regular mode = mode / 4096 % 16 == 8

-- up to the look at the account
unfoldable pub check_file_stat : FileStat → Result SensitiveError (Unit {0})
unfolding bit
check_file_stat s = do
  refuse_if (not (is_regular s.file_mode)) not_regular
  refuse_if (not (s.file_links == 1)) hard_links
  refuse_if (bit 0 s.file_mode || bit 1 s.file_mode || bit 2 s.file_mode) others_allowed
  refuse_if (bit 1 s.file_mode || bit 4 s.file_mode) others_can_write

abbrev pub traversed : Result Fault (Unit {0}) → Result SensitiveError (Unit {0})
traversed (err f) = err (no_traversal f)
traversed (ok u) = ok u

-- behind the look at the account
unfoldable pub check_file_user :
    Machine
    → Bytes
    → Bytes
    → FileStat
    → Result Fault UserIdentity
    → Result SensitiveError (Unit {0})
unfolding allows_stat
check_file_user m path resolved s (err f) = err (unknown_user f)
check_file_user m path resolved s (ok u) = do
  refuse_if (not (allows_stat u s.file_mode s.file_uid s.file_gid false read_permission))
      not_readable
  traversed (m.traverse u path resolved)
  refuse_if (not (s.file_uid == 0) && not (s.file_uid == u.uid)) unrelated_owner

-- behind the look at the file
unfoldable pub check_inspected :
    Machine → Bytes → Bytes → Result Fault (Bytes × FileStat) → Result SensitiveError (Unit {0})
unfolding check_file_stat check_file_user
check_inspected m path run_as (err f) = err (uninspected f)
check_inspected m path run_as (ok (resolved, s)) = do
  check_file_stat s
  check_file_user m path resolved s (m.lookup run_as)

-- `checkSensitiveFile`
unfoldable pub check_sensitive_file : Machine → Bytes → Bytes → Result SensitiveError (Unit {0})
unfolding check_inspected
check_sensitive_file m path run_as = check_inspected m path run_as (m.inspect path)
