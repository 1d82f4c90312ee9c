-- ===== src/Validation/Check.antt =====
-- internal/validation/validator.go: `Validator.Check`.
pub mod Identities
pub mod Probes
pub mod Gate
use ezdbbackup.Common.{
  ℕ, Bool, true, false, not, ◌&&◌, ◌||◌, Option, none, some, List, [], ◌∷◌, ◌++◌, String,
  if◌then◌else◌,
}
use ezdbbackup.Common.Exec.{Exec, ◌>>=◌, ◌>>◌, pure}
use ezdbbackup.Common.World.{perform, consult}
use ezdbbackup.Common.Bytes.{Bytes, codes, is_empty, member}
use ezdbbackup.Config.Types.{S3Config, JobConfig, Config, job_at}
use ezdbbackup.Config.Endpoint.{Texts}
use ezdbbackup.Config.Validate.{validate}
use ezdbbackup.Backup.Fault.{Fault}
use ezdbbackup.Validation.Report.{LiveFinding, append_check, plain_finding}
use ezdbbackup.Validation.Selection.{
  Selected, selected_jobs, Prerequisites, States, initial_states, without_local,
  configuration_report, mark_states,
}
use ezdbbackup.Validation.Connectivity.{
  LiveCall, identity_checked, runtime_executed, dump_executed, LiveExec, Environment, Validator,
  check_connectivity,
}
use ezdbbackup.Validation.Jobs.{
  CheckOptions, all_without_local, log_run_as, check_identities, check_jobs,
}

module _ {E : Type 0} (v : Validator E) where
  -- Identities are checked before anything is run; where one fails, no job keeps its local
  -- prerequisites.
  unfoldable pub check_boundary :
      Environment E → Config → CheckOptions → States → LiveExec E (List LiveFinding × Bool)
  unfolding check_identities
  check_boundary env c options states =
      if options.backup_execution || options.connectivity
      then check_identities env c states
      else pure ([], true)

  unfoldable pub check_logging : Environment E → Config → List Bytes → LiveExec E (List LiveFinding)
  check_logging env c [] = pure []
  check_logging env c (account ∷ accounts) = do
    answer ← consult (env.check_logging_target c.logging.directory (account ∷ accounts))
    pure (
        append_check [] "log_directory"
          "global log directory is incompatible with selected run_as identities" answer)

  -- the loop over the probes
  unfoldable pub check_probes : Config → States → LiveExec E (List LiveFinding)
  unfolding check_connectivity
  check_probes c [] = pure []
  check_probes c ((name, s) ∷ states) = do
    first ← check_connectivity v name (job_at name c.jobs) s
    rest ← check_probes c states
    pure (first ++ rest)

  unfoldable pub check_remote : Config → CheckOptions → States → LiveExec E (List LiveFinding)
  unfolding check_probes
  check_remote c options states = if options.connectivity then check_probes c states else pure []

  -- `Check` behind the findings of the configuration
  unfoldable pub check_local :
      Environment E → Config → CheckOptions → States → LiveExec E (List LiveFinding)
  unfolding check_boundary check_logging check_remote check_jobs log_run_as
  check_local env c options states = do
    binary ← consult (env.check_cron_path options.binary_path)
    path ← consult (env.check_cron_path options.config_path)
    identities ← check_boundary env c options states
    jobs ←
        check_jobs env identities.1 options c
          (if identities.1 then states else all_without_local states)
    logging ← check_logging env c (log_run_as c [] states)
    remote ← check_remote c options jobs.1
    pure (
        append_check [] "cron_binary_path" "binary path is unsafe for cron" binary
        ++ (append_check [] "cron_config_path" "configuration path is unsafe for cron" path
            ++ (identities.0 ++ (jobs.0 ++ (logging ++ remote)))))

  unfoldable pub check_configured :
      Option (Environment E) → Option Config → CheckOptions → States → LiveExec E (List LiveFinding)
  unfolding check_local
  check_configured env none options states = pure []
  check_configured none (some c) options states =
      pure (plain_finding [] "environment" (codes "local environment checker is not configured"))
  check_configured (some env) (some c) options states = check_local env c options states

-- with the parameters of the selection and of the configuration's check
module _ (quote : Bytes → Bytes) (texts : Texts) {E : Type 0} (v : Validator E) where
  -- `Check`
  unfoldable pub check : Option Config → List Bytes → CheckOptions → LiveExec E (List LiveFinding)
  unfolding check_configured selected_jobs configuration_report mark_states validate
  check c requested options = do
    let s = selected_jobs quote c requested
    let findings = validate texts c
    local ←
        check_configured v v.environment c options
          (mark_states s.chosen findings (initial_states s.names))
    pure (s.report ++ (configuration_report s.chosen findings ++ local))
