-- ===== src/Backup/Summary/Selection.antt =====
-- internal/backup/summary.go: what becomes of an explicit selection of jobs.
use mathlib.Core.Bool.{Bool-set}
use mathlib.Core.List.{Mem, mem-cons, mem-cons_self, mem-cons_of_mem, not-mem-nil}
use mathlib.Core.List.Perm
use mathlib.Core.Logic.Or
use ezdbbackup.Common.{
  arith, if◌then◌else◌, ◌≡◌, refl, ap, ◌∙◌, Bool, true, false, not, Bool-cases, inl, inr, Option,
  none, some, List, [], ◌∷◌, map,
}
use ezdbbackup.Common.Bytes.{Bytes, is_empty}
use ezdbbackup.Common.Sorting.{sort_strings, sort_strings-perm}
use ezdbbackup.Config.Types.{JobConfig, Config, find_job, job_at}
use ezdbbackup.Backup.Types.{Service}
use ezdbbackup.Backup.Run.{run}
use ezdbbackup.Backup.Summary.{
  JobResult, summary_names, is_failure, job_error, selection_error, rejected, rejects, with_name,
  run_selected, run_explicit, run_many,
}

-- every job of the selection has an error
unfoldable pub all_failed : List JobResult → Bool
all_failed [] = true
all_failed (r ∷ rs) = if is_failure r.error then all_failed rs else false

-- a job that is there and has `enabled` set
abbrev pub is_enabled : Option JobConfig → Bool
is_enabled none = false
is_enabled (some job) = job.enabled

module _ (quote : Bytes → Bytes) (c : Config) where
  rejected-summary_names : (l : List Bytes) → summary_names (map (rejected quote c) l) ≡ l
  unfolding summary_names rejected
  rejected-summary_names [] = refl
  rejected-summary_names (name ∷ l) = ap (λ r. name ∷ r) (rejected-summary_names l)

  rejected-all_failed : (l : List Bytes) → all_failed (map (rejected quote c) l) ≡ true
  unfolding all_failed rejected
  rejected-all_failed [] = refl
  rejected-all_failed (name ∷ l) = rejected-all_failed l

  -- There is a job of the name, and it is enabled.
  abbrev pub is_available : Bytes → Bool
  is_available name = is_enabled (find_job name c.jobs)

  is_failure-job_error :
      (name : Bytes) (o : Option JobConfig)
      → is_failure (job_error quote name o) ≡ not (is_enabled o)
  is_failure-job_error name none = refl
  is_failure-job_error name (some job) = elim (Bool-cases job.enabled) [
    | inl e ↦ rw e refl
    | inr e ↦ rw e refl
  ]

  is_failure-selection_error :
      (name : Bytes) → is_failure (selection_error quote c name) ≡ not (is_available name)
  unfolding selection_error
  is_failure-selection_error name = is_failure-job_error name (find_job name c.jobs)

  -- a name of a list that has no enabled job
  pub record HasUnavailable (l : List Bytes) : Type 0 where
    pub bad : Bytes
    pub selected : Mem bad l
    pub unavailable : is_available bad ≡ false

  later : (name : Bytes) (l : List Bytes) → HasUnavailable l → HasUnavailable (name ∷ l)
  later name l h = record {
    bad = h.bad;
    selected = mem-cons_of_mem name h.selected;
    unavailable = h.unavailable;
  }

  rejects-HasUnavailable : (l : List Bytes) → rejects quote c l ≡ true → HasUnavailable l
  unfolding rejects
  rejects-HasUnavailable [] h = absurd cc
  rejects-HasUnavailable (name ∷ l) h = elim (Bool-cases (is_available name)) [
    | inl e ↦ later name l (rejects-HasUnavailable l (rw (is_failure-selection_error name, e) at h))
    | inr e ↦ record { bad = name; selected = mem-cons_self; unavailable = e }
  ]

  abbrev pub AllAvailable : List Bytes → Type 0
  AllAvailable l = (name : Bytes) → Mem name l → is_available name ≡ true

  rejects-AllAvailable : (l : List Bytes) → rejects quote c l ≡ false → AllAvailable l
  unfolding rejects
  rejects-AllAvailable [] h name m = absurd (not-mem-nil m)
  rejects-AllAvailable (key ∷ l) h name m = elim (Bool-cases (is_available key)) [
    | inl e ↦
        Or.elim (λ x y. Bool-set _ _ x y) (mem-cons.0 m) (λ q. ap is_available q ∙ e)
          (rejects-AllAvailable l (rw (is_failure-selection_error key, e) at h) name)
    | inr e ↦ absurd (true_false (rw (is_failure-selection_error key, e) at h))
  ]
    where
      true_false : true ≡ false → ⊥
      true_false k = ground arith

  -- The runs of enabled jobs, one after another, each with its own configuration.
  pub data Ran {E : Type 0} (v : Service E) : List Bytes → E → List JobResult → E → Type 0 where
    finished : (e : E) → Ran v [] e [] e
    ran :
        (name : Bytes) (job : JobConfig) (names : List Bytes) (e : E) (rs : List JobResult) (e' : E)
        → find_job name c.jobs ≡ some job
        → job.enabled ≡ true
        → Ran v names (run v name job e).1.env rs e'
        → Ran v
            (name ∷ names)
            e
            (record {
              result = with_name quote v name (run v name job e).0.result;
              error = (run v name job e).0.error;
            }
              ∷ rs)
            e'

  enabled_job :
      (o : Option JobConfig)
      → is_enabled o ≡ true
      → (job : JobConfig) × (o ≡ some job) × (job.enabled ≡ true)
  enabled_job none h = absurd cc
  enabled_job (some job) h = (job, refl, h)

  run_selected-Ran :
      {E : Type 0} (v : Service E) (l : List Bytes) (e : E)
      → AllAvailable l
      → Ran v l e (run_selected quote v c l e).0 (run_selected quote v c l e).1
  unfolding run_selected job_at
  run_selected-Ran v [] e h = finished e
  run_selected-Ran v (name ∷ l) e h =
      let (job, k, enabled) = enabled_job (find_job name c.jobs) (h name mem-cons_self) in
      rw k (
        ran name job l e _ _ k enabled
          (run_selected-Ran v l (run v name job e).1.env (λ n m. h n (mem-cons_of_mem name m))))

  -- What becomes of an explicit selection: with a name that has no enabled job, no job is run, and every
  -- name has a result with an error; without one, the jobs are run.
  pub data IsSelection {E : Type 0} (v : Service E) (names : List Bytes) (e : E)
      (r : List JobResult × E) : Type 0 where
    none_run :
        HasUnavailable names
        → r.1 ≡ e
        → summary_names r.0 ≡ sort_strings names
        → all_failed r.0 ≡ true
        → IsSelection v names e r
    all_run : AllAvailable names → Ran v (sort_strings names) e r.0 r.1 → IsSelection v names e r

  run_explicit-IsSelection :
      {E : Type 0} (v : Service E) (names : List Bytes) (e : E)
      → IsSelection v names e (run_explicit quote v c (sort_strings names) e)
  run_explicit-IsSelection v names e = elim (Bool-cases (rejects quote c (sort_strings names))) [
    | inl h ↦
        let bad = rejects-HasUnavailable (sort_strings names) h in
        rw h (
          none_run
            (record {
              bad = bad.bad;
              selected = (Perm.mem_iff (sort_strings-perm names)).0 bad.selected;
              unavailable = bad.unavailable;
            })
            refl (rejected-summary_names (sort_strings names))
            (rejected-all_failed (sort_strings names)))
    | inr h ↦ rw h (
        all_run
          (λ name m.
            rejects-AllAvailable (sort_strings names) h name
              ((Perm.mem_iff (sort_strings-perm names)).1 m))
          (run_selected-Ran v (sort_strings names) e (rejects-AllAvailable (sort_strings names) h)))
  ]

  -- If a name of an explicit selection has no job or a job that is disabled, no job is run, the
  -- environment is as before, and each name of the selection has a result with an error, in ascending
  -- order. Otherwise every name has an enabled job, and the jobs are run one after another in the
  -- ascending order of the names, each with the configuration of its name, and each has the result of
  -- its run.
  pub run_many-IsSelection :
      {E : Type 0} (v : Service E) (names : List Bytes) (e : E)
      → is_empty names ≡ false
      → IsSelection v names e (run_many quote v (some c) names e)
  unfolding run_many
  run_many-IsSelection v names e given = rw given (run_explicit-IsSelection v names e)
