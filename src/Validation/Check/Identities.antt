-- ===== src/Validation/Check/Identities.antt =====
-- internal/validation/validator.go: the checks of identities come before everything that runs.
use ezdbbackup.Common.{
  ◌≡◌, refl, Bool, true, false, not, ◌&&◌, ◌||◌, Option, none, some, List, [], ◌∷◌, ◌++◌,
  append-nil, String, any, all, if◌then◌else◌, arith,
}
use ezdbbackup.Common.Exec.{◌>>=◌, pure}
use ezdbbackup.Common.World.{consult}
use ezdbbackup.Common.World.Trace.{Gives, Gives-pure, Gives-consult, Gives-perform, Gives-bind}
use ezdbbackup.Common.Bytes.{Bytes, codes, is_empty, equal}
use ezdbbackup.Config.Types.{JobConfig, Config, job_at}
use ezdbbackup.Backup.Fault.{Fault}
use ezdbbackup.Validation.Report.{LiveFinding, append_check}
use ezdbbackup.Validation.Selection.{Prerequisites, States, without_local}
use ezdbbackup.Validation.Connectivity.{
  LiveCall, identity_checked, runtime_executed, dump_executed, mysql_probed, client_made,
  bucket_inspected, Environment,
}
use ezdbbackup.Validation.Jobs.{
  CheckOptions, SecretFileCheck, s3_secret_files, check_identities, check_runtime,
  check_dump_executable, check_password_file, check_secret_file, check_secret_files, check_job,
  check_jobs, unless_failed, job_report, passed, without_mysql, without_s3, executable_answer,
  config_source_answer, staging_answer,
}

abbrev pub is_identity : LiveCall → Bool
is_identity (identity_checked account) = true
is_identity (runtime_executed path account) = false
is_identity (dump_executed path account) = false
is_identity (mysql_probed request) = false
is_identity (client_made options) = false
is_identity (bucket_inspected store bucket) = false

-- a finding that an identity does not match
unfoldable pub is_mismatch : LiveFinding → Bool
is_mismatch f = equal f.check (codes "execution_identity")

abbrev pub has_mismatch : List LiveFinding → Bool
has_mismatch findings = any is_mismatch findings

abbrev pub NoMismatch : List LiveFinding → Type 0
NoMismatch findings = has_mismatch findings ≡ false

pub NoMismatch-append : (r s : List LiveFinding) → NoMismatch r → NoMismatch s → NoMismatch (r ++ s)
NoMismatch-append [] s h k = k
NoMismatch-append (f ∷ r) s h k =
    elim_or (is_mismatch f) (has_mismatch r) (has_mismatch (r ++ s)) h
      (λ g. NoMismatch-append r s g k)
  where
    elim_or : (a b c : Bool) → (a || b) ≡ false → (b ≡ false → c ≡ false) → (a || c) ≡ false
    elim_or a b c h k = ground arith

pub append_check-NoMismatch :
    (job : Bytes) (check message : String) (answer : Option Fault)
    → equal (codes check) (codes "execution_identity") ≡ false
    → NoMismatch (append_check job check message answer)
unfolding is_mismatch
append_check-NoMismatch job check message none h = refl
append_check-NoMismatch job check message (some f) h = rw h refl

abbrev pub NoLocal : Prerequisites → Type 0
NoLocal s = (s.mysql_local ≡ false) × (s.s3_local ≡ false)

-- A part of a job's checks: it reports no mismatch, it calls nothing where an identity has failed,
-- and it gives no prerequisite back.
pub record IsPart (ok_ : Bool) (s : Prerequisites) (t : List LiveCall)
    (x : List LiveFinding × Prerequisites) : Type 0 where
  pub no_mismatch : NoMismatch x.0
  pub quiet : ok_ ≡ false → t ≡ []
  pub keeps : NoLocal s → NoLocal x.1

nil_append : (t u : List LiveCall) → t ≡ [] → u ≡ [] → t ++ u ≡ []
nil_append [] u h k = k
nil_append (c ∷ t) u h k = absurd cc

apart : true ≡ false → ⊥
apart e = ground arith

unless-local :
    (answer : Option Fault) (s : Prerequisites)
    → NoLocal s
    → NoLocal (unless_failed answer without_local s)
unless-local none s h = h
unless-local (some f) s h = (refl, refl)

unless-mysql :
    (answer : Option Fault) (s : Prerequisites)
    → NoLocal s
    → NoLocal (unless_failed answer without_mysql s)
unless-mysql none s h = h
unless-mysql (some f) s h = (refl, h.1)

unless-s3 :
    (answer : Option Fault) (s : Prerequisites)
    → NoLocal s
    → NoLocal (unless_failed answer without_s3 s)
unless-s3 none s h = h
unless-s3 (some f) s h = (h.0, refl)

module _ {E : Type 0} (env : Environment E) where
  runtime-IsPart :
      (ok_ : Bool) (options : CheckOptions) (name : Bytes) (job : JobConfig) (s : Prerequisites)
      → Gives (IsPart ok_ s) (check_runtime env ok_ options name job s)
  unfolding check_runtime
  runtime-IsPart false options name job s =
      Gives-pure E _ _ (record { no_mismatch = refl; quiet = λ _. refl; keeps = λ h. h })
  runtime-IsPart true options name job s =
      Gives-perform _ _ (env.check_runtime_executable options.binary_path job.run_as) _ (λ answer.
        Gives-pure E _
          (
            append_check name "runtime_executable" "ezdbbackup executable is unavailable or unsafe"
                answer,
            unless_failed answer without_local s,
          )
          (record {
            no_mismatch =
                append_check-NoMismatch name "runtime_executable"
                  "ezdbbackup executable is unavailable or unsafe" answer refl;
            quiet = λ h. absurd (apart h);
            keeps = unless-local answer s;
          }))

  executable-IsPart :
      (ok_ : Bool) (name : Bytes) (job : JobConfig) (s : Prerequisites)
      → Gives (IsPart ok_ s) (check_dump_executable env ok_ name job s)
  unfolding check_dump_executable
  executable-IsPart false name job s =
      Gives-pure E _ _ (record { no_mismatch = refl; quiet = λ _. refl; keeps = λ h. h })
  executable-IsPart true name job s =
      Gives-perform _ _ (executable_answer env env.check_executable_as job.dump_binary job.run_as) _
        (λ answer.
          Gives-pure E _
            (
              append_check name "dump_executable" "dump executable is unavailable" answer,
              unless_failed answer without_mysql s,
            )
            (record {
              no_mismatch =
                  append_check-NoMismatch name "dump_executable" "dump executable is unavailable"
                    answer refl;
              quiet = λ h. absurd (apart h);
              keeps = unless-mysql answer s;
            }))

  file-IsPart :
      (ok_ skip : Bool) (name : Bytes) (check message : String) (question : E → Option Fault × E)
      (change : Prerequisites → Prerequisites) (s : Prerequisites)
      → equal (codes check) (codes "execution_identity") ≡ false
      → ((answer : Option Fault) → NoLocal s → NoLocal (unless_failed answer change s))
      → Gives (IsPart ok_ s) (
          if skip
          then pure ([], s)
          else (consult question >>= λ answer.
              pure (append_check name check message answer, unless_failed answer change s)))
  file-IsPart ok_ true name check message question change s e k =
      Gives-pure E _ _ (record { no_mismatch = refl; quiet = λ _. refl; keeps = λ h. h })
  file-IsPart ok_ false name check message question change s e k =
      Gives-consult _ question _ (λ answer.
        Gives-pure E _ (append_check name check message answer, unless_failed answer change s)
          (record {
            no_mismatch = append_check-NoMismatch name check message answer e;
            quiet = λ _. refl;
            keeps = k answer;
          }))

  password-IsPart :
      (ok_ : Bool) (name : Bytes) (job : JobConfig) (s : Prerequisites)
      → Gives (IsPart ok_ s) (check_password_file env name job s)
  unfolding check_password_file
  password-IsPart ok_ name job s =
      file-IsPart ok_ (is_empty job.mysql.password_file) name "mysql_password_file"
        "MySQL password file is invalid" (env.check_secret_file job.mysql.password_file job.run_as)
        without_mysql s refl (λ answer. unless-mysql answer s)

  secrets-IsPart :
      (ok_ : Bool) (name run_as : Bytes) (literal : List SecretFileCheck) (s : Prerequisites)
      → all (λ secret. not (equal (codes secret.check) (codes "execution_identity"))) literal ≡ true
      → Gives (IsPart ok_ s) (check_secret_files env name run_as literal s)
  unfolding check_secret_files check_secret_file
  secrets-IsPart ok_ name run_as [] s e =
      Gives-pure E _ _ (record { no_mismatch = refl; quiet = λ _. refl; keeps = λ h. h })
  secrets-IsPart ok_ name run_as (secret ∷ secrets) s e =
      let (here, there) = and_parts _ _ e in
      Gives-bind _ _ (check_secret_file env name run_as secret s) _
        (file-IsPart ok_ (is_empty secret.path) name secret.check secret.message
          (env.check_secret_file secret.path run_as) without_s3 s (not_true _ here)
          (λ answer. unless-s3 answer s))
        (λ first t p.
          Gives-bind _ _ (check_secret_files env name run_as secrets first.1) _
            (secrets-IsPart ok_ name run_as secrets first.1 there)
            (λ rest u q.
              Gives-pure E _ (first.0 ++ rest.0, rest.1)
                (record {
                  no_mismatch = NoMismatch-append _ _ p.no_mismatch q.no_mismatch;
                  quiet = λ h. nil_append _ _ (p.quiet h) (nil_append _ _ (q.quiet h) refl);
                  keeps = λ h. q.keeps (p.keeps h);
                })))
    where
      and_parts : (a b : Bool) → (a && b) ≡ true → (a ≡ true) × (b ≡ true)
      and_parts a b h = ground arith

      not_true : (b : Bool) → not b ≡ true → b ≡ false
      not_true b h = ground arith

  report-NoMismatch :
      (name : Bytes) (user source staging : Option Fault) (a b d e : List LiveFinding)
      → NoMismatch a
      → NoMismatch b
      → NoMismatch d
      → NoMismatch e
      → NoMismatch (job_report name user a source b staging d e)
  report-NoMismatch name user source staging a b d e ha hb hd he =
      NoMismatch-append _ _
        (append_check-NoMismatch name "run_as_user" "configured run_as user is unavailable" user
          refl)
        (NoMismatch-append a _ ha (
          NoMismatch-append _ _
            (append_check-NoMismatch name "configuration_file"
              "configuration file is unreadable or unsafe for execution" source refl)
            (NoMismatch-append b _ hb (
              NoMismatch-append _ _
                (append_check-NoMismatch name "temp_directory"
                  "temporary directory is not writable or safe for staging" staging refl)
                (NoMismatch-append d e hd he)))))

  job-IsPart :
      (ok_ : Bool) (options : CheckOptions) (name : Bytes) (job : JobConfig) (s : Prerequisites)
      → Gives (IsPart ok_ s) (check_job env ok_ options name job s)
  unfolding check_job
  job-IsPart ok_ options name job s = Gives-consult _ (env.check_user job.run_as) _ (λ user.
      Gives-bind _ _ (check_runtime env ok_ options name job (unless_failed user without_local s)) _
        (runtime-IsPart ok_ options name job _)
        (λ runtime t1 p1.
          Gives-consult _
            (config_source_answer env env.check_config_source options.source options.config_path
              job.run_as)
            _
            (λ source.
              Gives-bind _ _
                (check_dump_executable env ok_ name job
                  (unless_failed source without_local runtime.1))
                _ (executable-IsPart ok_ name job _)
                (λ executable t2 p2.
                  Gives-consult _
                    (staging_answer env env.check_staging_target job.temp_dir job.run_as) _
                    (λ staging.
                      Gives-bind _ _ (check_password_file env name job executable.1) _
                        (password-IsPart ok_ name job _)
                        (λ password t3 p3.
                          Gives-bind _ _
                            (check_secret_files env name job.run_as (s3_secret_files job.s3)
                              password.1)
                            _ (secrets-IsPart ok_ name job.run_as (s3_secret_files job.s3) _ refl)
                            (λ secrets t4 p4.
                              Gives-pure E _
                                (
                                  job_report name user runtime.0 source executable.0 staging
                                      password.0 secrets.0,
                                  secrets.1,
                                )
                                (record {
                                  no_mismatch =
                                      report-NoMismatch name user source staging _ _ _ _
                                        p1.no_mismatch p2.no_mismatch p3.no_mismatch p4.no_mismatch;
                                  quiet = λ h. nil_append _ _ (p1.quiet h) (
                                      nil_append _ _ (p2.quiet h) (
                                        nil_append _ _ (p3.quiet h)
                                          (nil_append _ _ (p4.quiet h) refl)));
                                  keeps = λ h. p4.keeps (
                                      p3.keeps (
                                        p2.keeps (
                                          unless-local source _
                                            (p1.keeps (unless-local user _ h)))));
                                }))))))))

-- no job has its local prerequisites
abbrev pub NoneLocal : States → Type 0
NoneLocal [] = Unit
NoneLocal ((name, s) ∷ states) = NoLocal s × NoneLocal states

pub record IsJobsPart (ok_ : Bool) (states : States) (t : List LiveCall)
    (x : List LiveFinding × States) : Type 0 where
  pub no_mismatch : NoMismatch x.0
  pub quiet : ok_ ≡ false → t ≡ []
  pub keeps : NoneLocal states → NoneLocal x.1

module _ {E : Type 0} (env : Environment E) where
  pub check_jobs-IsJobsPart :
      (ok_ : Bool) (options : CheckOptions) (c : Config) (states : States)
      → Gives (IsJobsPart ok_ states) (check_jobs env ok_ options c states)
  unfolding check_jobs
  check_jobs-IsJobsPart ok_ options c [] =
      Gives-pure E _ _ (record { no_mismatch = refl; quiet = λ _. refl; keeps = λ h. h })
  check_jobs-IsJobsPart ok_ options c ((name, s) ∷ states) =
      Gives-bind _ _ (check_job env ok_ options name (job_at name c.jobs) s) _
        (job-IsPart env ok_ options name (job_at name c.jobs) s)
        (λ first t p.
          Gives-bind _ _ (check_jobs env ok_ options c states) _
            (check_jobs-IsJobsPart ok_ options c states)
            (λ rest u q.
              Gives-pure E _ (first.0 ++ rest.0, (name, first.1) ∷ rest.1)
                (record {
                  no_mismatch = NoMismatch-append _ _ p.no_mismatch q.no_mismatch;
                  quiet = λ h. nil_append _ _ (p.quiet h) (nil_append _ _ (q.quiet h) refl);
                  keeps = λ h. (p.keeps h.0, q.keeps h.1);
                })))

  -- The checks of identities call nothing else, and report a mismatch only where one fails.
  pub identities-checked :
      (c : Config) (states : States)
      → Gives
          (λ t x. (all is_identity t ≡ true) × (x.1 ≡ true → NoMismatch x.0))
          (check_identities env c states)
  unfolding check_identities
  identities-checked c [] = Gives-pure E _ _ (refl, λ _. refl)
  identities-checked c ((name, s) ∷ states) =
      Gives-perform _ _ (env.check_run_identity (job_at name c.jobs).run_as) _ (λ answer.
        Gives-bind _ _ (check_identities env c states) _ (identities-checked c states) (λ rest t p.
          Gives-pure E _
            (
              append_check name "execution_identity"
                    "process identity does not match configured run_as" answer
                  ++ rest.0,
              passed answer && rest.1,
            )
            (identities_only t p.0, all_passed name answer rest.0 rest.1 p.1)))
    where
      identities_only :
          (u : List LiveCall) → all is_identity u ≡ true → all is_identity (u ++ []) ≡ true
      identities_only u h = rw (append-nil u) h

      all_passed :
          (label : Bytes) (answer : Option Fault) (r : List LiveFinding) (b : Bool)
          → (b ≡ true → NoMismatch r)
          → (passed answer && b) ≡ true
          → NoMismatch (
              append_check label "execution_identity"
                "process identity does not match configured run_as" answer
              ++ r)
      all_passed label none r b k h = k h
      all_passed label (some f) r b k h = absurd (apart (ground arith))
