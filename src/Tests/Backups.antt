-- ===== src/Tests/Backups.antt =====
-- Backups with a concrete service, whose environment counts the calls.
use ezdbbackup.Common.{ℕ, suc, ◌≡◌, refl, true, false, none, some, List, [], ◌∷◌, pos, ok}
use ezdbbackup.Common.Bytes.{Bytes, codes}
use ezdbbackup.Config.Types.{Config, no_job}
use ezdbbackup.Backup.Fault.{plain}
use ezdbbackup.Backup.Types.{DumpRequest, StorageOptions, Instant, ProgressEvent, Service}
use ezdbbackup.Backup.Service.{must_log, write_log, ask, log_debug, log_now, add_secret, progress}
use ezdbbackup.Backup.Run.{run, end_run, attempt, clean_up, upload_staged}
use ezdbbackup.Backup.Run.Balance.{gather}
use ezdbbackup.Backup.Run.Cleanup.{staged_by, removed_by, run_removes_staged}
use ezdbbackup.Backup.Run.Files.{opened_by, closed_by, run_closes_files}
use ezdbbackup.Backup.Run.Logging.{logs_after, run_stops_logging}
use ezdbbackup.Backup.Run.Ending.{Reported, run-Reported}
use ezdbbackup.Backup.Run.Success.{Uploaded, run-Uploaded}
use ezdbbackup.Backup.Summary.{run_many}
use ezdbbackup.Backup.Summary.Selection.{IsSelection, run_many-IsSelection}
use ezdbbackup.Config.Secrets.{SecretRef}
use ezdbbackup.Resolve.{Resolver, resolve_secret}
use ezdbbackup.Resolve.Trimmed.{IsResolved, resolve_secret-IsResolved}

abbrev dump_request : DumpRequest
dump_request = record {
  binary = codes "mysqldump";
  run_as = codes "root";
  host = codes "db";
  port = pos 3306;
  user = codes "u";
  password = codes "secret";
  all_databases = true;
  databases = [];
  extra_args = [];
}

abbrev storage_options : StorageOptions
storage_options = record {
  region = codes "r";
  endpoint = [];
  force_path_style = false;
  access_key_id = codes "AKIA";
  secret_access_key = codes "S";
  session_token = [];
  explicit = true;
}

abbrev noon : Instant
noon = record {
  nanoseconds = 1;
  stamp = record { date_path = codes "2024/01/02"; timestamp = codes "20240102T120000.000000000Z" };
}

abbrev callback : ProgressEvent → ℕ → Unit {0} × ℕ
callback event e = (tt, suc e)

-- the upload fails, with a text that holds the password
abbrev service : Service ℕ
service = record {
  resolve_dump = λ job e. (ok dump_request, suc e);
  resolve_storage = λ job e. (ok storage_options, suc e);
  stage = λ dir request e. (ok (record { id = e; size = 9 }), suc e);
  open_artifact = λ a e. (ok e, suc e);
  remove = λ a e. (none, suc e);
  close = λ file e. (none, suc e);
  new_store = λ o e. (ok e, suc e);
  upload_file = λ store bucket key file size e. (some (plain (codes "secret refused")), suc e);
  log = some (λ event e. (none, suc e));
  clock = λ e. (noon, suc e);
  debug = true;
  progress = some callback;
}

abbrev job_name : Bytes
job_name = codes "nightly"

run_removes_staged_example :
    gather staged_by (run service job_name no_job 0).1.actions
    ≡ gather removed_by (run service job_name no_job 0).1.actions
run_removes_staged_example = run_removes_staged service job_name no_job 0

run_closes_files_example :
    gather opened_by (run service job_name no_job 0).1.actions
    ≡ gather closed_by (run service job_name no_job 0).1.actions
run_closes_files_example = run_closes_files service job_name no_job 0

run_stops_logging_example :
    logs_after (some true) (run service job_name no_job 0).1.actions
    ≡ some (run service job_name no_job 0).1.log_healthy
run_stops_logging_example = run_stops_logging service job_name no_job 0

run-Reported_example :
    Reported (run service job_name no_job 0).0 (run service job_name no_job 0).1.actions
run-Reported_example = run-Reported service callback refl job_name no_job 0

abbrev no_jobs : Config
no_jobs = record {
  version = pos 1;
  defaults = record { dump_binary = []; temp_dir = [] };
  logging = record {
    directory = [];
    debug = false;
    rotation = record {
      max_size_mb = pos 1;
      max_files = pos 1;
      max_age_days = pos 1;
      compress = false;
    };
  };
  jobs = (codes "a", record no_job { enabled = true }) ∷ [];
}

abbrev quote : Bytes → Bytes
quote name = name

abbrev selection : List Bytes
selection = codes "b" ∷ codes "a" ∷ []

run_many-IsSelection_example :
    IsSelection quote no_jobs service selection 0
      (run_many quote service (some no_jobs) selection 0)
run_many-IsSelection_example = run_many-IsSelection quote no_jobs service selection 0 refl

-- every secret file holds `key` and a line end
abbrev resolver : Resolver ℕ
resolver = record {
  read_file = none;
  current_identity = λ e. (ok 0, suc e);
  lookup_identity = λ name e. (ok 1, suc e);
  open_regular = λ file who e. (ok e, suc e);
  after_secret_open = none;
  read_all = λ file e. (ok (codes "key\r\n"), suc e);
  close = λ file e. (none, suc e);
}

abbrev secret_file : SecretRef
secret_file = record { literal = []; file = codes "/run/secret" }

resolve_secret-IsResolved_example :
    IsResolved resolver
      (codes "/run/secret")
      (codes "root")
      0
      (resolve_secret resolver secret_file (codes "root") 0).0
resolve_secret-IsResolved_example =
    resolve_secret-IsResolved resolver secret_file (codes "root") 0 refl refl

abbrev working_service : Service ℕ
working_service = record service { upload_file = λ store bucket key file size e. (none, suc e) }

run-Uploaded_example :
    Uploaded no_job.s3.bucket
      (run working_service job_name no_job 0).0.result
      (run working_service job_name no_job 0).1.actions
unfolding run end_run attempt must_log write_log ask log_debug log_now add_secret progress clean_up
    upload_staged
run-Uploaded_example = run-Uploaded working_service job_name no_job 0 refl
