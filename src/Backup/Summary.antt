-- ===== src/Backup/Summary.antt =====
-- internal/backup/summary.go: the selection of jobs, and the runs one after another.
pub mod Selection
use ezdbbackup.Common.{
  ℕ, Bool, true, false, not, Option, none, some, List, [], ◌∷◌, ◌++◌, map, any, String,
  if◌then◌else◌,
}
use ezdbbackup.Common.Bytes.{Bytes, codes, is_empty}
use ezdbbackup.Common.Sorting.{sort_strings}
use ezdbbackup.Config.Types.{JobConfig, Config, find_job, job_at, enabled_job_names}
use ezdbbackup.Backup.Fault.{Fault, plain, new_stage_error}
use ezdbbackup.Backup.Types.{Service, RunResult, Outcome}
use ezdbbackup.Backup.Service.{no_result}
use ezdbbackup.Backup.Run.{run}

-- `JobResult`
pub record JobResult : Type 0 where
  pub result : RunResult
  pub error : Option Fault

-- `Summary.JobNames`
unfoldable pub summary_names : List JobResult → List Bytes
summary_names [] = []
summary_names (r ∷ rs) = r.result.job ∷ summary_names rs

abbrev is_failure : Option Fault → Bool
is_failure none = false
is_failure (some f) = true

-- `Summary.HasFailures`
unfoldable pub has_failures : List JobResult → Bool
has_failures [] = false
has_failures (r ∷ rs) = let rest = has_failures rs in if is_failure r.error then true else rest

-- `fmt` quotes a name by `%q`, which is `quote`.
module _ (quote : Bytes → Bytes) where
  abbrev job_error : Bytes → Option JobConfig → Option Fault
  job_error name none = some (plain (codes "job " ++ (quote name ++ codes " not found")))
  job_error name (some job) =
      if job.enabled
      then none
      else some (plain (codes "job " ++ (quote name ++ codes " is disabled")))

  -- `selectionErrors[name]`
  unfoldable pub selection_error : Config → Bytes → Option Fault
  selection_error c name = job_error name (find_job name c.jobs)

  abbrev or_not_run : Option Fault → Fault
  or_not_run (some f) = f
  or_not_run none = plain (codes "job not run because explicit job selection was rejected")

  unfoldable pub rejected : Config → Bytes → JobResult
  unfolding selection_error
  rejected c name = record {
    result = record no_result { job = name };
    error = some (new_stage_error "configuration" (or_not_run (selection_error c name)) []);
  }

  unfoldable pub rejects : Config → List Bytes → Bool
  unfolding selection_error
  rejects c [] = false
  rejects c (name ∷ names) =
      let rest = rejects c names in if is_failure (selection_error c name) then true else rest

  module _ {E : Type 0} (v : Service E) where
    abbrev with_name : Bytes → RunResult → RunResult
    with_name name r = if is_empty r.job then record r { job = name } else r

    -- the runs, in order
    unfoldable pub run_selected : Config → List Bytes → E → List JobResult × E
    run_selected c [] e = ([], e)
    run_selected c (name ∷ names) e =
        let (o, s) = run v name (job_at name c.jobs) e in
        let (rs, e') = run_selected c names s.env in
        (record { result = with_name name o.result; error = o.error } ∷ rs, e')

    abbrev run_explicit : Config → List Bytes → E → List JobResult × E
    run_explicit c selected e =
        if rejects c selected then (map (rejected c) selected, e) else run_selected c selected e

    -- `(*Service).RunMany`
    unfoldable pub run_many : Option Config → List Bytes → E → List JobResult × E
    unfolding run_selected rejects
    run_many none names e = (
      record {
        result = no_result;
        error =
            some (new_stage_error "configuration" (plain (codes "configuration is required")) []);
      }
          ∷ [],
      e,
    )
    run_many (some c) names e =
        if is_empty names
        then run_selected c (enabled_job_names (some c)) e
        else run_explicit c (sort_strings names) e
