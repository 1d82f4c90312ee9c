-- ===== src/Backup/Fault.antt =====
-- The error values that internal/backup/service.go takes apart, and the texts that it makes of them.
use ezdbbackup.Common.{
  ℕ, zero, suc, ◌-◌, Option, none, some, List, [], ◌∷◌, ◌++◌, String, leb, if◌then◌else◌, length,
}
use ezdbbackup.Common.Bytes.{Bytes, codes, is_empty, has_prefix}

-- `dump.FailureKind` and `stage.FailureKind`
pub data DumpKind : Type 0 where
  startup execution : DumpKind

pub data StagingKind : Type 0 where
  compression temporary_storage unnamed : StagingKind

-- The dynamic types of an error that the service looks for; every other error has its text, and
-- wraps nothing, one error, or several.
mutual
  pub data Fault : Type 0 where
    plain : Bytes → Fault
    wrapping : Bytes → Fault → Fault
    aggregate : Bytes → Faults → Fault
    stage_error : String → Fault → Bytes → Fault
    run_error : DumpKind → Fault → Fault
    staging_error : StagingKind → Fault → Fault

  pub data Faults : Type 0 where
    nil : Faults
    cons : Fault → Faults → Faults

staging_kind_text : StagingKind → Bytes
staging_kind_text compression = codes "compression"
staging_kind_text temporary_storage = codes "temporary_storage"
staging_kind_text unnamed = []

-- `err.Error()`
unfoldable pub error_text : Fault → Bytes
unfolding staging_kind_text
error_text (plain text) = text
error_text (wrapping text cause) = text
error_text (aggregate text causes) = text
error_text (stage_error stage cause text) =
    codes "backup stage " ++ (codes stage ++ (codes ": " ++ text))
error_text (run_error kind cause) = codes "mysqldump failed: " ++ error_text cause
error_text (staging_error kind cause) =
    codes "staging " ++ (staging_kind_text kind ++ (codes " failed: " ++ error_text cause))

-- `errors.Join` of two errors
unfoldable pub join_errors : Fault → Fault → Fault
join_errors a b = aggregate (error_text a ++ b'\n' ∷ error_text b) (cons a (cons b nil))

abbrev pub first_of {ℓ} : {A : Type ℓ} → Option A → Option A → Option A
first_of (some a) o = some a
first_of none o = o

-- `errors.As(err, &stageErr)`: the stage of the first `StageError`, depth first
unfoldable mutual
  pub stage_in : Fault → Option String
  stage_in (plain text) = none
  stage_in (wrapping text cause) = stage_in cause
  stage_in (aggregate text causes) = stage_in_any causes
  stage_in (stage_error stage cause text) = some stage
  stage_in (run_error kind cause) = stage_in cause
  stage_in (staging_error kind cause) = stage_in cause

  pub stage_in_any : Faults → Option String
  stage_in_any nil = none
  stage_in_any (cons f fs) = first_of (stage_in f) (stage_in_any fs)

abbrev or_unknown : Option String → String
or_unknown none = "unknown"
or_unknown (some stage) = stage

unfoldable pub error_stage_of : Fault → String
error_stage_of f = or_unknown (stage_in f)

-- `errors.As(err, &localFailure)`
unfoldable mutual
  pub staging_in : Fault → Option StagingKind
  staging_in (plain text) = none
  staging_in (wrapping text cause) = staging_in cause
  staging_in (aggregate text causes) = staging_in_any causes
  staging_in (stage_error stage cause text) = staging_in cause
  staging_in (run_error kind cause) = staging_in cause
  staging_in (staging_error kind cause) = some kind

  pub staging_in_any : Faults → Option StagingKind
  staging_in_any nil = none
  staging_in_any (cons f fs) = first_of (staging_in f) (staging_in_any fs)

unfoldable pub stage_failure_name : StagingKind → String
stage_failure_name compression = "compression"
stage_failure_name temporary_storage = "temporary_storage"
stage_failure_name unnamed = "dump_execution"

abbrev pub run_error_name : DumpKind → Option StagingKind → String
run_error_name kind (some local) = stage_failure_name local
run_error_name startup none = "dump_startup"
run_error_name execution none = "dump_execution"

-- the first branch of an aggregate, which decides
unfoldable mutual
  pub failure_stage : Fault → String
  failure_stage (plain text) = "dump_execution"
  failure_stage (wrapping text cause) = failure_stage cause
  failure_stage (aggregate text causes) = first_failure_stage causes
  failure_stage (stage_error stage cause text) = failure_stage cause
  failure_stage (run_error kind cause) = run_error_name kind (staging_in cause)
  failure_stage (staging_error kind cause) = stage_failure_name kind

  pub first_failure_stage : Faults → String
  first_failure_stage nil = "dump_execution"
  first_failure_stage (cons f fs) = failure_stage f

unfoldable pub append_secret : List Bytes → Bytes → List Bytes
append_secret secrets value = if is_empty value then secrets else secrets ++ value ∷ []

-- a stable sort, the longest text first
unfoldable pub insert_by_length : Bytes → List Bytes → List Bytes
insert_by_length x [] = x ∷ []
insert_by_length x (y ∷ ys) =
    if leb (length y) (length x) then x ∷ y ∷ ys else y ∷ insert_by_length x ys

unfoldable pub longest_first : List Bytes → List Bytes
unfolding insert_by_length
longest_first [] = []
longest_first (x ∷ xs) = insert_by_length x (longest_first xs)

-- `skip` bytes belong to a match that is replaced already.
unfoldable pub replace_from : Bytes → Bytes → ℕ → Bytes → Bytes
replace_from old new skip [] = []
replace_from old new (suc skip) (c ∷ cs) = replace_from old new skip cs
replace_from old new zero (c ∷ cs) =
    let found = has_prefix (c ∷ cs) old in
    (if found then new else c ∷ []) ++ replace_from old new (if found then length old - 1 else 0) cs

-- `strings.ReplaceAll` of a text that is not empty
unfoldable pub replace_all : Bytes → Bytes → Bytes → Bytes
unfolding replace_from
replace_all text old new = replace_from old new 0 text

abbrev pub redaction : Bytes
redaction = codes "[REDACTED]"

unfoldable pub redact_all : Bytes → List Bytes → Bytes
unfolding replace_all
redact_all text [] = text
redact_all text (secret ∷ secrets) = redact_all (replace_all text secret redaction) secrets

unfoldable pub safe_error_text : Fault → List Bytes → Bytes
unfolding error_text redact_all longest_first
safe_error_text f secrets = redact_all (error_text f) (longest_first secrets)

-- `stageError`
unfoldable pub new_stage_error : String → Fault → List Bytes → Fault
unfolding safe_error_text
new_stage_error stage f secrets = stage_error stage f (safe_error_text f secrets)
