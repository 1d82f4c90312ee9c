-- ===== src/Backup/Types.antt =====
-- What internal/backup/service.go exchanges with the parts that it is given: the resolver, the stager
-- with the dump runner, the stores, the log, the clock and the progress callback.
use ezdbbackup.Common.{ℕ, Bool, Option, List, String, Result, ℤ}
use ezdbbackup.Common.Bytes.{Bytes}
use ezdbbackup.Storage.Key.{Stamp}
use ezdbbackup.Config.Types.{JobConfig}
use ezdbbackup.Backup.Fault.{Fault}

-- `dump.Request`
pub record DumpRequest : Type 0 where
  pub binary : Bytes
  pub run_as : Bytes
  pub host : Bytes
  pub port : ℤ
  pub user : Bytes
  pub password : Bytes
  pub all_databases : Bool
  pub databases : List Bytes
  pub extra_args : List Bytes

-- `storage.Options`, with its `Credentials`
pub record StorageOptions : Type 0 where
  pub region : Bytes
  pub endpoint : Bytes
  pub force_path_style : Bool
  pub access_key_id : Bytes
  pub secret_access_key : Bytes
  pub session_token : Bytes
  pub explicit : Bool

-- `stage.Artifact`: which one it is, and its size
pub record Artifact : Type 0 where
  pub id : ℕ
  pub size : ℕ

-- A time that the clock gave, in nanoseconds, with its formats in UTC.
pub record Instant : Type 0 where
  pub nanoseconds : ℕ
  pub stamp : Stamp

-- The values in the fields of a log event; a duration is that between two times.
pub data Value : Type 0 where
  duration : Instant → Instant → Value
  no_duration : Value
  text : Bytes → Value
  count : ℕ → Value
  flag : Bool → Value

pub data Level : Type 0 where
  debug_level info_level error_level : Level

-- `logging.Event`, with the command `backup`
pub record Event : Type 0 where
  pub time : Instant
  pub level : Level
  pub message : String
  pub job : Bytes
  pub stage : String
  pub fields : List (String × Value)

pub data ProgressKind : Type 0 where
  started staged upload_started completed failed : ProgressKind

pub record ProgressEvent : Type 0 where
  pub kind : ProgressKind
  pub job : Bytes
  pub stage : String
  pub object_key : Bytes
  pub size : ℕ
  pub error : Bytes

-- What one run does to the outside, with what came back.
pub data Action : Type 0 where
  logged : Event → Option Fault → Action
  progressed : ProgressEvent → Action
  dump_resolved : Action
  dumped : Bytes → DumpRequest → Result Fault Artifact → Action
  storage_resolved : Action
  store_created : StorageOptions → Action
  opened : Artifact → Result Fault ℕ → Action
  uploaded : ℕ → Bytes → Bytes → ℕ → ℕ → Option Fault → Action
  closed : ℕ → Option Fault → Action
  removed : Artifact → Option Fault → Action

-- The fields of `Service`, over an environment `E`; stores and open files go by numbers.
-- `stage` is `Stager.Stage` with the dump of the request as its callback.
pub record Service (E : Type 0) : Type 0 where
  pub resolve_dump : JobConfig → E → Result Fault DumpRequest × E
  pub resolve_storage : JobConfig → E → Result Fault StorageOptions × E
  pub stage : Bytes → DumpRequest → E → Result Fault Artifact × E
  pub open_artifact : Artifact → E → Result Fault ℕ × E
  pub remove : Artifact → E → Option Fault × E
  pub close : ℕ → E → Option Fault × E
  pub new_store : StorageOptions → E → Result Fault ℕ × E
  pub upload_file : ℕ → Bytes → Bytes → ℕ → ℕ → E → Option Fault × E
  pub log : Option (Event → E → Option Fault × E)
  pub clock : E → Instant × E
  pub debug : Bool
  pub progress : Option (ProgressEvent → E → Unit {0} × E)

-- `Result`; a duration that is not set is `none`.
pub record RunResult : Type 0 where
  pub job : Bytes
  pub object_key : Bytes
  pub size : ℕ
  pub duration : Option (Instant × Instant)

-- the results `result` and `err` of `Run`
pub record Outcome : Type 0 where
  pub result : RunResult
  pub error : Option Fault
