-- ===== src/Validation/Selection.antt =====
-- internal/validation/validator.go: the selected jobs, and what configuration findings rule out.
use ezdbbackup.Common.{
  Bool, true, false, not, ◌&&◌, ◌||◌, Option, none, some, List, [], ◌∷◌, ◌++◌, if◌then◌else◌,
}
use ezdbbackup.Common.Bytes.{Bytes, codes, is_empty, equal, has_prefix, member}
use ezdbbackup.Common.Sorting.{sort_strings}
use ezdbbackup.Config.Types.{JobConfig, Config, find_job, job_names}
use ezdbbackup.Config.Findings.{Finding}
use ezdbbackup.Config.DumpOptions.{without_prefix}
use ezdbbackup.Validation.Report.{LiveFinding, severity_error, severity_warning, plain_finding}

-- What `selectedJobs` returns: the names, the set of the selected names, and the report.
pub record Selected : Type 0 where
  pub names : List Bytes
  pub chosen : List Bytes
  pub report : List LiveFinding

-- `fmt` quotes a name by `%q`, which is `quote`.
module _ (quote : Bytes → Bytes) where
  abbrev pub take_job : Bytes → Option JobConfig → Selected → Selected
  take_job name none s = record s {
    report =
        s.report
        ++ plain_finding name "selection"
            (codes "job " ++ (quote name ++ codes " is not configured"));
  }
  take_job name (some job) s = record s { names = s.names ++ name ∷ [] }

  -- the loop over the requested names
  unfoldable pub select_requested : Config → List Bytes → Selected → Selected
  select_requested c [] s = s
  select_requested c (name ∷ names) s = select_requested c names (
      if member name s.chosen
      then s
      else take_job name (find_job name c.jobs) (record s { chosen = name ∷ s.chosen }))

  -- `selectedJobs`
  unfoldable pub selected_jobs : Option Config → List Bytes → Selected
  unfolding select_requested
  selected_jobs none requested = record { names = []; chosen = []; report = [] }
  selected_jobs (some c) [] = record {
    names = job_names (some c);
    chosen = job_names (some c);
    report = [];
  }
  selected_jobs (some c) (name ∷ names) =
      let s = select_requested c (name ∷ names) (record { names = []; chosen = []; report = [] }) in
      record s { names = sort_strings s.names }

-- `jobPrerequisites`
pub record Prerequisites : Type 0 where
  pub mysql_config : Bool
  pub s3_config : Bool
  pub mysql_local : Bool
  pub s3_local : Bool

-- The map of the prerequisites, by the selected names in their order.
abbrev pub States : Type 0
States = List (Bytes × Prerequisites)

abbrev pub initial_states : List Bytes → States
initial_states [] = []
initial_states (name ∷ names) =
    (name, record { mysql_config = true; s3_config = true; mysql_local = true; s3_local = true })
    ∷ initial_states names

abbrev pub without_local : Prerequisites → Prerequisites
without_local s = record s { mysql_local = false; s3_local = false }

-- `strings.TrimPrefix`
abbrev trim_prefix : Option Bytes → Bytes → Bytes
trim_prefix none path = path
trim_prefix (some rest) path = rest

-- `markConfigPrerequisite`
unfoldable pub mark_config_prerequisite : Bytes → Bytes → Prerequisites → Prerequisites
unfolding without_prefix
mark_config_prerequisite path job s =
    let relative = trim_prefix (without_prefix path (codes "jobs." ++ (job ++ codes "."))) path in
    if equal relative (codes "run_as")
    then record s { mysql_config = false; s3_config = false }
    else if equal relative (codes "dump_binary") || has_prefix relative (codes "mysql.")
    then record s { mysql_config = false }
    else if has_prefix relative (codes "s3.") || equal relative (codes "s3")
    then record s { s3_config = false }
    else s

-- the prerequisites of a name, where the map has it
unfoldable pub update_state : Bytes → (Prerequisites → Prerequisites) → States → States
update_state name f [] = []
update_state name f ((key, s) ∷ states) =
    let rest = update_state name f states in
    if equal key name then (key, f s) ∷ states else (key, s) ∷ rest

abbrev message_of : Finding → Bytes
message_of f = if is_empty f.path then f.message else f.path ++ (codes ": " ++ f.message)

abbrev pub configuration_finding : Finding → LiveFinding
configuration_finding f = record {
  severity = if f.warning then severity_warning else severity_error;
  job = f.job;
  check = codes "configuration";
  message = message_of f;
  cause = none;
}

-- The loop over the findings of the configuration: those of other jobs are left out.
unfoldable pub configuration_report : List Bytes → List Finding → List LiveFinding
configuration_report chosen [] = []
configuration_report chosen (f ∷ fs) =
    let rest = configuration_report chosen fs in
    if not (is_empty f.job) && not (member f.job chosen)
    then rest
    else configuration_finding f ∷ rest

unfoldable pub mark_states : List Bytes → List Finding → States → States
unfolding update_state mark_config_prerequisite
mark_states chosen [] states = states
mark_states chosen (f ∷ fs) states = mark_states chosen fs (
    if not (is_empty f.job) && not (member f.job chosen)
    then states
    else if not f.warning && not (is_empty f.job)
    then update_state f.job (mark_config_prerequisite f.path f.job) states
    else states)
