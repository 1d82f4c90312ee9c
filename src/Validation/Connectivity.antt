-- ===== src/Validation/Connectivity.antt =====
-- internal/validation/validator.go: the probes of a job. The checks of the machine, the resolver,
-- mysqldump and the stores are parameters; what runs a program or reaches a server is recorded.
use ezdbbackup.Common.{
  ℕ, not, Option, none, some, List, [], ◌∷◌, ◌++◌, Result, ok, err, if◌then◌else◌,
}
use ezdbbackup.Common.Exec.{Exec, ◌>>=◌, pure}
use ezdbbackup.Common.World.{World, perform, consult}
use ezdbbackup.Common.Bytes.{Bytes, codes}
use ezdbbackup.Config.Types.{JobConfig}
use ezdbbackup.Backup.Fault.{Fault}
use ezdbbackup.Backup.Types.{DumpRequest, StorageOptions}
use ezdbbackup.Validation.Report.{
  LiveFinding, append_non_empty, redact_cause, redact_answer, append_check, skipped_finding,
  plain_finding,
}
use ezdbbackup.Validation.Selection.{Prerequisites}

-- The calls that run a program or reach a server, and the checks of an identity.
pub data LiveCall : Type 0 where
  identity_checked : Bytes → LiveCall
  runtime_executed : Bytes → Bytes → LiveCall
  dump_executed : Bytes → Bytes → LiveCall
  mysql_probed : DumpRequest → LiveCall
  client_made : StorageOptions → LiveCall
  bucket_inspected : ℕ → Bytes → LiveCall

abbrev pub LiveExec : Type 0 → Type 0 → Type 0
LiveExec E A = Exec (World E LiveCall) A

-- `Environment`, with the interfaces that an environment may have besides; the source of a
-- configuration goes by a number.
pub record Environment (E : Type 0) : Type 0 where
  pub check_user : Bytes → E → Option Fault × E
  pub check_run_identity : Bytes → E → Option Fault × E
  pub check_executable : Bytes → E → Option Fault × E
  pub check_runtime_executable : Bytes → Bytes → E → Option Fault × E
  pub check_config_file : Bytes → Bytes → E → Option Fault × E
  pub check_writable_target : Bytes → Bytes → E → Option Fault × E
  pub check_logging_target : Bytes → List Bytes → E → Option Fault × E
  pub check_secret_file : Bytes → Bytes → E → Option Fault × E
  pub check_cron_path : Bytes → E → Option Fault × E
  pub check_executable_as : Option (Bytes → Bytes → E → Option Fault × E)
  pub check_staging_target : Option (Bytes → Bytes → E → Option Fault × E)
  pub check_config_source : Option (ℕ → Bytes → E → Option Fault × E)

-- `jobresolve.OptionsResolver`
pub record OptionsResolver (E : Type 0) : Type 0 where
  pub resolve_dump : JobConfig → E → Result Fault DumpRequest × E
  pub resolve_storage : JobConfig → E → Result Fault StorageOptions × E

-- `storage.Factory` and its stores
pub record StoreFactory (E : Type 0) : Type 0 where
  pub new_store : StorageOptions → E → Result Fault ℕ × E
  pub probe_bucket : ℕ → Bytes → E → Option Fault × E

-- `Validator`
pub record Validator (E : Type 0) : Type 0 where
  pub environment : Option (Environment E)
  pub resolve : Option (OptionsResolver E)
  pub dump_probe : Option (DumpRequest → E → Option Fault × E)
  pub stores : Option (StoreFactory E)

-- `configuredSecretValues`
unfoldable pub configured_secret_values : JobConfig → List Bytes
unfolding append_non_empty
configured_secret_values job = append_non_empty [] (
    job.mysql.password ∷ job.s3.access_key_id ∷ job.s3.secret_access_key ∷ job.s3.session_token
    ∷ [])

module _ {E : Type 0} (v : Validator E) where
  -- The report of a part of the probes, with the secrets known by then.
  abbrev ProbeExec : Type 0
  ProbeExec = LiveExec E (List LiveFinding × List Bytes)

  unfoldable pub mysql_resolved :
      Bytes
      → List Bytes
      → (DumpRequest → E → Option Fault × E)
      → Result Fault DumpRequest
      → ProbeExec
  mysql_resolved name secrets probe (err f) = pure (
    append_check name "mysql_connectivity" "resolve MySQL probe options"
        (some (redact_cause f secrets)),
    secrets,
  )
  mysql_resolved name secrets probe (ok request) = do
    answer ← perform (mysql_probed request) (probe request)
    pure (
      append_check name "mysql_connectivity" "MySQL connection probe failed"
          (redact_answer answer (append_non_empty secrets (request.password ∷ []))),
      append_non_empty secrets (request.password ∷ []),
    )

  unfoldable pub mysql_with :
      Bytes
      → JobConfig
      → List Bytes
      → Option (OptionsResolver E)
      → Option (DumpRequest → E → Option Fault × E)
      → ProbeExec
  unfolding mysql_resolved
  mysql_with name job secrets (some r) (some probe) = do
    request ← consult (r.resolve_dump job)
    mysql_resolved name secrets probe request
  mysql_with name job secrets none probe = pure (
    plain_finding name "mysql_connectivity"
        (codes "MySQL connectivity dependencies are not configured"),
    secrets,
  )
  mysql_with name job secrets (some r) none = pure (
    plain_finding name "mysql_connectivity"
        (codes "MySQL connectivity dependencies are not configured"),
    secrets,
  )

  -- `checkConnectivity` up to the store
  unfoldable pub check_mysql : Bytes → JobConfig → Prerequisites → List Bytes → ProbeExec
  unfolding mysql_with
  check_mysql name job state secrets =
      if not state.mysql_config
      then pure (
        skipped_finding name "mysql_connectivity"
            "skipped because MySQL configuration prerequisites failed",
        secrets,
      )
      else if not state.mysql_local
      then pure (
        skipped_finding name "mysql_connectivity"
            "skipped because local MySQL prerequisites failed",
        secrets,
      )
      else mysql_with name job secrets v.resolve v.dump_probe

  unfoldable pub s3_made :
      Bytes
      → JobConfig
      → List Bytes
      → StoreFactory E
      → Result Fault ℕ
      → LiveExec E (List LiveFinding)
  s3_made name job secrets factory (err f) =
      pure (append_check name "s3_connectivity" "create S3 client" (some (redact_cause f secrets)))
  s3_made name job secrets factory (ok store) = do
    answer ←
        perform (bucket_inspected store job.s3.bucket) (factory.probe_bucket store job.s3.bucket)
    pure (
        append_check name "s3_connectivity"
          "S3 bucket inspection failed; bucket inspection may be denied even when uploads are allowed"
          (redact_answer answer secrets))

  unfoldable pub s3_resolved :
      Bytes
      → JobConfig
      → List Bytes
      → StoreFactory E
      → Result Fault StorageOptions
      → LiveExec E (List LiveFinding)
  unfolding s3_made
  s3_resolved name job secrets factory (err f) = pure (
      append_check name "s3_connectivity" "resolve S3 client options"
        (some (redact_cause f secrets)))
  s3_resolved name job secrets factory (ok options) = do
    store ← perform (client_made options) (factory.new_store options)
    s3_made name job
        (append_non_empty secrets
          (options.access_key_id ∷ options.secret_access_key ∷ options.session_token ∷ []))
        factory store

  unfoldable pub s3_with :
      Bytes
      → JobConfig
      → List Bytes
      → Option (OptionsResolver E)
      → Option (StoreFactory E)
      → LiveExec E (List LiveFinding)
  unfolding s3_resolved
  s3_with name job secrets (some r) (some factory) = do
    options ← consult (r.resolve_storage job)
    s3_resolved name job secrets factory options
  s3_with name job secrets none factory = pure (
      plain_finding name "s3_connectivity"
        (codes "S3 connectivity dependencies are not configured"))
  s3_with name job secrets (some r) none = pure (
      plain_finding name "s3_connectivity"
        (codes "S3 connectivity dependencies are not configured"))

  -- the part of `checkConnectivity` on the store
  unfoldable pub check_s3 :
      Bytes → JobConfig → Prerequisites → List Bytes → LiveExec E (List LiveFinding)
  unfolding s3_with
  check_s3 name job state secrets =
      if not state.s3_config
      then pure (
          skipped_finding name "s3_connectivity"
            "skipped because S3 configuration prerequisites failed")
      else if not state.s3_local
      then pure
          (skipped_finding name "s3_connectivity" "skipped because local S3 prerequisites failed")
      else s3_with name job secrets v.resolve v.stores

  -- `checkConnectivity`
  unfoldable pub check_connectivity :
      Bytes → JobConfig → Prerequisites → LiveExec E (List LiveFinding)
  unfolding check_mysql check_s3 configured_secret_values
  check_connectivity name job state = do
    mysql ← check_mysql name job state (configured_secret_values job)
    s3 ← check_s3 name job state mysql.1
    pure (mysql.0 ++ s3)
