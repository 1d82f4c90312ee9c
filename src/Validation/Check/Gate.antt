-- ===== src/Validation/Check/Gate.antt =====
-- internal/validation/validator.go: where an identity does not match, nothing is run.
use ezdbbackup.Common.{
  ◌≡◌, ◌⊎◌, inl, inr, refl, sym, ◌∙◌, Bool, true, false, not, ◌&&◌, ◌||◌, Option, none, some, List,
  [], ◌∷◌, ◌++◌, append-nil, all, if◌then◌else◌, arith, Bool-cases,
}
use ezdbbackup.Common.World.{World}
use ezdbbackup.Common.World.Trace.{Gives, Gives-pure, Gives-consult, Gives-bind}
use ezdbbackup.Common.Bytes.{Bytes, is_empty, member}
use ezdbbackup.Config.Types.{JobConfig, Config, find_job}
use ezdbbackup.Config.Findings.{Finding}
use ezdbbackup.Config.Endpoint.{Texts}
use ezdbbackup.Config.Validate.{validate}
use ezdbbackup.Backup.Fault.{Fault}
use ezdbbackup.Validation.Report.{LiveFinding, append_check}
use ezdbbackup.Validation.Selection.{
  States, Selected, select_requested, take_job, selected_jobs, configuration_report, mark_states,
  initial_states,
}
use ezdbbackup.Validation.Connectivity.{LiveCall, Environment, Validator}
use ezdbbackup.Validation.Jobs.{CheckOptions, all_without_local, log_run_as, check_jobs}
use ezdbbackup.Validation.Check.{
  check_boundary, check_logging, check_remote, check_local, check_configured, check,
}
use ezdbbackup.Validation.Check.Identities.{
  is_identity, is_mismatch, has_mismatch, NoMismatch, NoMismatch-append, append_check-NoMismatch,
  NoneLocal, check_jobs-IsJobsPart, identities-checked,
}
use ezdbbackup.Validation.Check.Probes.{probes-Silent}

apart : true ≡ false → ⊥
apart e = ground arith

-- A report without a mismatch, or calls that check identities and nothing else.
abbrev IsGated : List LiveCall → List LiveFinding → Type 0
IsGated t r = NoMismatch r ⊎ (all is_identity t ≡ true)

all_without_local-NoneLocal : (states : States) → NoneLocal (all_without_local states)
all_without_local-NoneLocal [] = tt
all_without_local-NoneLocal ((name, s) ∷ states) =
    ((refl, refl), all_without_local-NoneLocal states)

module _ {E : Type 0} (v : Validator E) where
  boundary-checked :
      (env : Environment E) (c : Config) (options : CheckOptions) (states : States)
      → Gives
          (λ t x. (all is_identity t ≡ true) × (x.1 ≡ true → NoMismatch x.0))
          (check_boundary v env c options states)
  unfolding check_boundary
  boundary-checked env c options states =
      elim (Bool-cases (options.backup_execution || options.connectivity)) [
        | inl e ↦ rw e (identities-checked env c states)
        | inr e ↦ rw e (Gives-pure E _ _ (refl, λ _. refl))
      ]

  logging-silent :
      (env : Environment E) (c : Config) (accounts : List Bytes)
      → Gives (λ t r. (t ≡ []) × NoMismatch r) (check_logging v env c accounts)
  unfolding check_logging
  logging-silent env c [] = Gives-pure E _ _ (refl, refl)
  logging-silent env c (account ∷ accounts) =
      Gives-consult _ (env.check_logging_target c.logging.directory (account ∷ accounts)) _
        (λ answer.
          Gives-pure E _
            (append_check [] "log_directory"
              "global log directory is incompatible with selected run_as identities" answer)
            (
              refl,
              append_check-NoMismatch [] "log_directory"
                  "global log directory is incompatible with selected run_as identities" answer
                  refl,
            ))

  remote-silent :
      (c : Config) (options : CheckOptions) (states : States)
      → Gives (λ t r. NoMismatch r × (NoneLocal states → t ≡ [])) (check_remote v c options states)
  unfolding check_remote
  remote-silent c options states = elim (Bool-cases options.connectivity) [
    | inl e ↦ rw e (probes-Silent v c states)
    | inr e ↦ rw e (Gives-pure E _ _ (refl, λ _. refl))
  ]

  -- the report and the calls behind the checks of identities
  IsGated-end :
      (ok_ : Bool) (t1 t2 t3 t4 : List LiveCall) (binary path : Option Fault)
      (identities jobs logging remote : List LiveFinding)
      → all is_identity t1 ≡ true
      → (ok_ ≡ true → NoMismatch identities)
      → NoMismatch jobs
      → NoMismatch logging
      → NoMismatch remote
      → (ok_ ≡ false → t2 ≡ [])
      → t3 ≡ []
      → (ok_ ≡ false → t4 ≡ [])
      → IsGated (t1 ++ (t2 ++ (t3 ++ (t4 ++ [])))) (
          append_check [] "cron_binary_path" "binary path is unsafe for cron" binary
          ++ (append_check [] "cron_config_path" "configuration path is unsafe for cron" path
              ++ (identities ++ (jobs ++ (logging ++ remote)))))
  IsGated-end true t1 t2 t3 t4 binary path identities jobs logging remote a b j l r q3 q4 q5 = inl (
      NoMismatch-append _ _
        (append_check-NoMismatch [] "cron_binary_path" "binary path is unsafe for cron" binary refl)
        (NoMismatch-append _ _
          (append_check-NoMismatch [] "cron_config_path" "configuration path is unsafe for cron"
            path refl)
          (NoMismatch-append identities _ (b refl)
            (NoMismatch-append jobs _ j (NoMismatch-append logging _ l r)))))
  IsGated-end false t1 t2 t3 t4 binary path identities jobs logging remote a b j l r q2 q3 q4 =
      inr (rw (q2 refl, q3, q4 refl, append-nil t1) a)

  local-IsGated :
      (env : Environment E) (c : Config) (options : CheckOptions) (states : States)
      → Gives IsGated (check_local v env c options states)
  unfolding check_local
  local-IsGated env c options states =
      Gives-consult _ (env.check_cron_path options.binary_path) _ (λ binary.
        Gives-consult _ (env.check_cron_path options.config_path) _ (λ path.
          Gives-bind _ _ (check_boundary v env c options states) _
            (boundary-checked env c options states)
            (λ identities t1 p1.
              Gives-bind _ _
                (check_jobs env identities.1 options c
                  (if identities.1 then states else all_without_local states))
                _ (check_jobs-IsJobsPart env identities.1 options c _)
                (λ jobs t2 p2.
                  Gives-bind _ _ (check_logging v env c (log_run_as c [] states)) _
                    (logging-silent env c _)
                    (λ logging t3 p3.
                      Gives-bind _ _ (check_remote v c options jobs.1) _
                        (remote-silent c options jobs.1)
                        (λ remote t4 p4.
                          Gives-pure E _
                            (append_check [] "cron_binary_path" "binary path is unsafe for cron"
                                binary
                              ++ (append_check [] "cron_config_path"
                                    "configuration path is unsafe for cron" path
                                  ++ (identities.0 ++ (jobs.0 ++ (logging ++ remote)))))
                            (IsGated-end identities.1 t1 t2 t3 t4 binary path identities.0 jobs.0
                              logging remote p1.0 p1.1 p2.no_mismatch p3.1 p4.0 p2.quiet p3.0
                              (λ h. p4.1 (p2.keeps (refused identities.1 states h))))))))))
    where
      refused :
          (b : Bool) (l : States) → b ≡ false → NoneLocal (if b then l else all_without_local l)
      refused true l h = absurd (apart h)
      refused false l h = all_without_local-NoneLocal l

configuration-NoMismatch :
    (chosen : List Bytes) (findings : List Finding)
    → NoMismatch (configuration_report chosen findings)
unfolding configuration_report is_mismatch
configuration-NoMismatch chosen [] = refl
configuration-NoMismatch chosen (f ∷ fs) =
    elim (Bool-cases (not (is_empty f.job) && not (member f.job chosen))) [
      | inl e ↦ rw e (configuration-NoMismatch chosen fs)
      | inr e ↦ rw e (configuration-NoMismatch chosen fs)
    ]

module _ (quote : Bytes → Bytes) where
  take-NoMismatch :
      (name : Bytes) (job : Option JobConfig) (s : Selected)
      → NoMismatch s.report
      → NoMismatch (take_job quote name job s).report
  unfolding is_mismatch
  take-NoMismatch name none s h = NoMismatch-append s.report _ h refl
  take-NoMismatch name (some job) s h = h

  requested-NoMismatch :
      (c : Config) (names : List Bytes) (s : Selected)
      → NoMismatch s.report
      → NoMismatch (select_requested quote c names s).report
  unfolding select_requested
  requested-NoMismatch c [] s h = h
  requested-NoMismatch c (name ∷ names) s h =
      let taken =
        take_job quote name (find_job name c.jobs) (record s { chosen = name ∷ s.chosen }) in
      requested-NoMismatch c names (if member name s.chosen then s else taken) (
        either (member name s.chosen) s taken h
          (take-NoMismatch name (find_job name c.jobs) (record s { chosen = name ∷ s.chosen }) h))
    where
      either :
          (b : Bool) (x y : Selected)
          → NoMismatch x.report
          → NoMismatch y.report
          → NoMismatch (if b then x else y).report
      either true x y a b = a
      either false x y a b = b

  selected-NoMismatch :
      (c : Option Config) (requested : List Bytes)
      → NoMismatch (selected_jobs quote c requested).report
  unfolding selected_jobs
  selected-NoMismatch none requested = refl
  selected-NoMismatch (some c) [] = refl
  selected-NoMismatch (some c) (name ∷ names) =
      requested-NoMismatch c (name ∷ names) (record { names = []; chosen = []; report = [] }) refl

module _ (quote : Bytes → Bytes) (texts : Texts) {E : Type 0} (v : Validator E) where
  configured-IsGated :
      (env : Option (Environment E)) (c : Option Config) (options : CheckOptions) (states : States)
      → Gives IsGated (check_configured v env c options states)
  unfolding check_configured is_mismatch
  configured-IsGated env none options states = Gives-pure E _ _ (inl refl)
  configured-IsGated none (some c) options states = Gives-pure E _ _ (inl refl)
  configured-IsGated (some env) (some c) options states = local-IsGated v env c options states

  gated_if :
      (t : List LiveCall) (r s findings : List LiveFinding)
      → NoMismatch r
      → NoMismatch s
      → IsGated t findings
      → has_mismatch (r ++ (s ++ findings)) ≡ true
      → all is_identity t ≡ true
  gated_if t r s findings h k (inl none_found) e =
      absurd (apart (sym e ∙ NoMismatch-append r _ h (NoMismatch-append s findings k none_found)))
  gated_if t r s findings h k (inr only) e = only

  -- Where the report of `Check` has a finding that an identity does not match, the check has called
  -- nothing but checks of identities: no executable is run, no client made and no server reached,
  -- also for the jobs whose identity does match.
  pub check-gated :
      (c : Option Config) (requested : List Bytes) (options : CheckOptions) (w : World E LiveCall)
      → (t : List LiveCall) × ((check quote texts v c requested options w).1.calls ≡ w.calls ++ t)
        × (has_mismatch (check quote texts v c requested options w).0 ≡ true
            → all is_identity t ≡ true)
  unfolding check Gives
  check-gated c requested options w =
      let s = selected_jobs quote c requested in
      let findings = configuration_report s.chosen (validate texts c) in
      let (t, e, gated) =
        configured-IsGated v.environment c options
          (mark_states s.chosen (validate texts c) (initial_states s.names)) w in
      (
        t,
        e,
        gated_if t s.report findings _ (selected-NoMismatch quote c requested)
            (configuration-NoMismatch s.chosen (validate texts c)) gated,
      )
