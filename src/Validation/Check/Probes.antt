-- ===== src/Validation/Check/Probes.antt =====
-- internal/validation/validator.go: the probes of a job that lacks its prerequisites.
use ezdbbackup.Common.{
  ℕ, ◌≡◌, refl, Bool, true, false, Option, none, some, List, [], ◌∷◌, ◌++◌, Result, ok, err, arith,
}
use ezdbbackup.Common.World.Trace.{
  Gives, Gives-pure, Gives-consult, Gives-perform, Gives-bind, Gives-imp,
}
use ezdbbackup.Common.Bytes.{Bytes}
use ezdbbackup.Config.Types.{JobConfig, Config, job_at}
use ezdbbackup.Backup.Fault.{Fault}
use ezdbbackup.Backup.Types.{DumpRequest, StorageOptions}
use ezdbbackup.Validation.Report.{
  LiveFinding, append_check, append_non_empty, redact_cause, redact_answer,
}
use ezdbbackup.Validation.Selection.{Prerequisites, States}
use ezdbbackup.Validation.Connectivity.{
  LiveCall, OptionsResolver, StoreFactory, Validator, configured_secret_values, mysql_resolved,
  mysql_with, check_mysql, s3_made, s3_resolved, s3_with, check_s3, check_connectivity,
}
use ezdbbackup.Validation.Check.{check_probes}
use ezdbbackup.Validation.Check.Identities.{
  is_mismatch, NoMismatch, NoMismatch-append, append_check-NoMismatch, NoLocal, NoneLocal,
}

apart : true ≡ false → ⊥
apart e = ground arith

-- The probes of a job report no mismatch, and call nothing where it lacks its local prerequisites.
module _ {E : Type 0} (v : Validator E) where
  abbrev IsMysql : Bool → List LiveCall → List LiveFinding × List Bytes → Type 0
  IsMysql local t x = NoMismatch x.0 × (local ≡ false → t ≡ [])

  abbrev IsS3 : Bool → List LiveCall → List LiveFinding → Type 0
  IsS3 local t x = NoMismatch x × (local ≡ false → t ≡ [])

  mysql_resolved-IsMysql :
      (name : Bytes) (secrets : List Bytes) (probe : DumpRequest → E → Option Fault × E)
      (r : Result Fault DumpRequest)
      → Gives (IsMysql true) (mysql_resolved v name secrets probe r)
  unfolding mysql_resolved
  mysql_resolved-IsMysql name secrets probe (err f) = Gives-pure E _ _ (
    append_check-NoMismatch name "mysql_connectivity" "resolve MySQL probe options"
        (some (redact_cause f secrets)) refl,
    λ _. refl,
  )
  mysql_resolved-IsMysql name secrets probe (ok request) =
      Gives-perform _ _ (probe request) _ (λ answer.
        let known = append_non_empty secrets (request.password ∷ []) in
        Gives-pure E _
          (
            append_check name "mysql_connectivity" "MySQL connection probe failed"
                (redact_answer answer known),
            known,
          )
          (
            append_check-NoMismatch name "mysql_connectivity" "MySQL connection probe failed"
                (redact_answer answer known) refl,
            λ h. absurd (apart h),
          ))

  mysql_with-IsMysql :
      (name : Bytes) (job : JobConfig) (secrets : List Bytes) (r : Option (OptionsResolver E))
      (probe : Option (DumpRequest → E → Option Fault × E))
      → Gives (IsMysql true) (mysql_with v name job secrets r probe)
  unfolding mysql_with is_mismatch
  mysql_with-IsMysql name job secrets (some r) (some probe) =
      Gives-consult _ (r.resolve_dump job) _
        (λ request. mysql_resolved-IsMysql name secrets probe request)
  mysql_with-IsMysql name job secrets none probe = Gives-pure E _ _ (refl, λ _. refl)
  mysql_with-IsMysql name job secrets (some r) none = Gives-pure E _ _ (refl, λ _. refl)

  check_mysql-IsMysql :
      (name : Bytes) (job : JobConfig) (config local a b : Bool) (secrets : List Bytes)
      → Gives (IsMysql local) (
          check_mysql v name job
            (record { mysql_config = config; mysql_local = local; s3_config = a; s3_local = b })
            secrets)
  unfolding check_mysql is_mismatch
  check_mysql-IsMysql name job false local a b secrets = Gives-pure E _ _ (refl, λ _. refl)
  check_mysql-IsMysql name job true false a b secrets = Gives-pure E _ _ (refl, λ _. refl)
  check_mysql-IsMysql name job true true a b secrets =
      mysql_with-IsMysql name job secrets v.resolve v.dump_probe

  s3_made-IsS3 :
      (name : Bytes) (job : JobConfig) (secrets : List Bytes) (factory : StoreFactory E)
      (r : Result Fault ℕ)
      → Gives (IsS3 true) (s3_made v name job secrets factory r)
  unfolding s3_made
  s3_made-IsS3 name job secrets factory (err f) = Gives-pure E _ _ (
    append_check-NoMismatch name "s3_connectivity" "create S3 client"
        (some (redact_cause f secrets)) refl,
    λ _. refl,
  )
  s3_made-IsS3 name job secrets factory (ok store) =
      Gives-perform _ _ (factory.probe_bucket store job.s3.bucket) _ (λ answer.
        Gives-pure E _
          (append_check name "s3_connectivity"
            "S3 bucket inspection failed; bucket inspection may be denied even when uploads are allowed"
            (redact_answer answer secrets))
          (
            append_check-NoMismatch name "s3_connectivity"
                "S3 bucket inspection failed; bucket inspection may be denied even when uploads are allowed"
                (redact_answer answer secrets) refl,
            λ h. absurd (apart h),
          ))

  s3_resolved-IsS3 :
      (name : Bytes) (job : JobConfig) (secrets : List Bytes) (factory : StoreFactory E)
      (r : Result Fault StorageOptions)
      → Gives (IsS3 true) (s3_resolved v name job secrets factory r)
  unfolding s3_resolved
  s3_resolved-IsS3 name job secrets factory (err f) = Gives-pure E _ _ (
    append_check-NoMismatch name "s3_connectivity" "resolve S3 client options"
        (some (redact_cause f secrets)) refl,
    λ _. refl,
  )
  s3_resolved-IsS3 name job secrets factory (ok options) =
      Gives-perform _ _ (factory.new_store options) _ (λ store.
        let known =
          append_non_empty secrets
            (options.access_key_id ∷ options.secret_access_key ∷ options.session_token ∷ []) in
        Gives-imp (IsS3 true) _ (s3_made v name job known factory store)
          (λ t x p. (p.0, λ h. absurd (apart h))) (s3_made-IsS3 name job known factory store))

  s3_with-IsS3 :
      (name : Bytes) (job : JobConfig) (secrets : List Bytes) (r : Option (OptionsResolver E))
      (factory : Option (StoreFactory E))
      → Gives (IsS3 true) (s3_with v name job secrets r factory)
  unfolding s3_with is_mismatch
  s3_with-IsS3 name job secrets (some r) (some factory) =
      Gives-consult _ (r.resolve_storage job) _
        (λ options. s3_resolved-IsS3 name job secrets factory options)
  s3_with-IsS3 name job secrets none factory = Gives-pure E _ _ (refl, λ _. refl)
  s3_with-IsS3 name job secrets (some r) none = Gives-pure E _ _ (refl, λ _. refl)

  check_s3-IsS3 :
      (name : Bytes) (job : JobConfig) (config local a b : Bool) (secrets : List Bytes)
      → Gives (IsS3 local) (
          check_s3 v name job
            (record { mysql_config = a; mysql_local = b; s3_config = config; s3_local = local })
            secrets)
  unfolding check_s3 is_mismatch
  check_s3-IsS3 name job false local a b secrets = Gives-pure E _ _ (refl, λ _. refl)
  check_s3-IsS3 name job true false a b secrets = Gives-pure E _ _ (refl, λ _. refl)
  check_s3-IsS3 name job true true a b secrets = s3_with-IsS3 name job secrets v.resolve v.stores

  nil_append : (t u : List LiveCall) → t ≡ [] → u ≡ [] → t ++ u ≡ []
  nil_append [] u h k = k
  nil_append (c ∷ t) u h k = absurd cc

  connectivity-Silent :
      (name : Bytes) (job : JobConfig) (s : Prerequisites)
      → Gives (λ t r. NoMismatch r × (NoLocal s → t ≡ [])) (check_connectivity v name job s)
  unfolding check_connectivity
  connectivity-Silent name job s =
      Gives-bind _ _ (check_mysql v name job s (configured_secret_values job)) _
        (check_mysql-IsMysql name job s.mysql_config s.mysql_local s.s3_config s.s3_local _)
        (λ mysql t p.
          Gives-bind _ _ (check_s3 v name job s mysql.1) _
            (check_s3-IsS3 name job s.s3_config s.s3_local s.mysql_config s.mysql_local _)
            (λ s3 u q. Gives-pure E _ (mysql.0 ++ s3) (
              NoMismatch-append _ _ p.0 q.0,
              λ h. nil_append _ _ (p.1 h.0) (nil_append _ _ (q.1 h.1) refl),
            )))

  pub probes-Silent :
      (c : Config) (states : States)
      → Gives (λ t r. NoMismatch r × (NoneLocal states → t ≡ [])) (check_probes v c states)
  unfolding check_probes
  probes-Silent c [] = Gives-pure E _ _ (refl, λ _. refl)
  probes-Silent c ((name, s) ∷ states) =
      Gives-bind _ _ (check_connectivity v name (job_at name c.jobs) s) _
        (connectivity-Silent name (job_at name c.jobs) s)
        (λ first t p.
          Gives-bind _ _ (check_probes v c states) _ (probes-Silent c states) (λ rest u q.
            Gives-pure E _ (first ++ rest) (
              NoMismatch-append _ _ p.0 q.0,
              λ h. nil_append _ _ (p.1 h.0) (nil_append _ _ (q.1 h.1) refl),
            )))
