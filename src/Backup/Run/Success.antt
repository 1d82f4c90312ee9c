-- ===== src/Backup/Run/Success.antt =====
-- A run that returns no error has uploaded its artifact.
use ezdbbackup.Common.{
  ℕ, ◌≡◌, refl, ap, ◌∙◌, Bool-cases, inl, inr, true, Option, none, some, List, [], ◌∷◌, ◌++◌,
  append_assoc, String, Result, ok, err,
}
use ezdbbackup.Common.Exec.{Exec, ◌>>=◌, ◌>>◌, resume}
use ezdbbackup.Common.Bytes.{Bytes, is_empty}
use ezdbbackup.Config.Types.{JobConfig}
use ezdbbackup.Backup.Fault.{Fault, new_stage_error}
use ezdbbackup.Backup.Types.{
  storage_resolved, store_created, dump_resolved, staged, started, completed, DumpRequest,
  StorageOptions, Artifact, Instant, Action, uploaded, removed, closed, Service, RunResult, Outcome,
}
use ezdbbackup.Backup.Service.{RunState, ask, observe, stage_fault, progress}
use ezdbbackup.Backup.Service.Keeps.{IsLogInvariant, Keeps-write_log, Keeps-progress}
use ezdbbackup.Backup.Run.{
  progress_event, add_log_failure, failed_with, or_stage, also_failed, close_file, upload_outcome,
  upload_begun, send_file, open_and_send, create_store, upload_staged, removal_failed, clean_up,
  stage_result, dump_and_stage, or_end, request_resolved, attempt, set_duration, progress_failed,
  end_failed, log_completed, end_completed, end_by, end_run, job_secrets, timed_run, run,
}

-- the actions hold an upload of the result's key and size that was answered without an error
pub record Uploaded (bucket : Bytes) (r : RunResult) (l : List Action) : Type 0 where
  pub before : List Action
  pub after : List Action
  pub store : ℕ
  pub file : ℕ
  pub found : l ≡ before ++ uploaded store bucket r.object_key file r.size none ∷ after

Uploaded-append :
    {bucket : Bytes} {r : RunResult} {l : List Action} (a : Action)
    → Uploaded bucket r l
    → Uploaded bucket r (l ++ a ∷ [])
Uploaded-append {bucket} {r} a u = record {
  before = u.before;
  after = u.after ++ a ∷ [];
  store = u.store;
  file = u.file;
  found =
      ap (λ l. l ++ a ∷ []) u.found
      ∙ append_assoc u.before (uploaded u.store bucket r.object_key u.file r.size none ∷ u.after)
          (a ∷ []);
}

Uploaded-IsLogInvariant :
    (bucket : Bytes) (r : RunResult) → IsLogInvariant (λ l b. Uploaded bucket r l)
Uploaded-IsLogInvariant bucket r = record {
  progress_kept = λ event l b u. Uploaded-append _ u;
  written = λ event l u. Uploaded-append _ u;
  broken = λ event f l u. Uploaded-append _ u;
}

-- what a result says of the actions, if it is no error
abbrev Delivered : Bytes → Result Fault RunResult → List Action → Type 0
Delivered bucket (ok r) l = Uploaded bucket r l
Delivered bucket (err f) l = Unit

abbrev Reached : Bytes → Option Fault → RunResult → List Action → Type 0
Reached bucket none r l = Uploaded bucket r l
Reached bucket (some f) r l = Unit

module _ {E : Type 0} (v : Service E) (job_name : Bytes) (job : JobConfig) where
  abbrev Ends : Exec (RunState E) (Result Fault RunResult) → Type 0
  Ends m = (s : RunState E) → let (r, s') = m s in Delivered job.s3.bucket r s'.actions

  abbrev Finishes : Exec (RunState E) Outcome → Type 0
  Finishes m =
      (s : RunState E) → let (o, s') = m s in Reached job.s3.bucket o.error o.result s'.actions

  Ends-resume :
      {A : Type 0} (a : Result Fault A) (f : A → Exec (RunState E) (Result Fault RunResult))
      → ((x : A) → Ends (f x))
      → Ends (resume a f)
  Ends-resume (ok a) f h = h a
  Ends-resume (err e) f h = λ s. tt

  also_failed-Ends :
      (stage : String) (f : Fault) (o : Option Fault) → Ends (also_failed v job_name job stage f o)
  unfolding also_failed
  also_failed-Ends stage f none = λ s. tt
  also_failed-Ends stage f (some g) = λ s. tt

  sent :
      (r : RunResult) (store file : ℕ) (a b : Option Fault) (l : List Action) (s : RunState E)
      → s.actions
        ≡ (l ++ uploaded store job.s3.bucket r.object_key file r.size a ∷ []) ++ closed file b ∷ []
      → let (x, s') = upload_outcome v job_name job r a b s in Delivered job.s3.bucket x s'.actions
  unfolding upload_outcome also_failed stage_fault
  sent r store file none none l s e = record {
    before = l;
    after = closed file none ∷ [];
    store = store;
    file = file;
    found = e ∙ append_assoc l _ _;
  }
  sent r store file none (some f) l s e = tt
  sent r store file (some f) none l s e = tt
  sent r store file (some f) (some g) l s e = tt

  upload_begun-Ends :
      (key : Bytes) (a : Artifact) (store file : ℕ) (b : Result Fault (Unit {0}))
      → Ends (upload_begun v job_name job key a store file b)
  unfolding upload_begun close_file observe
  upload_begun-Ends key a store file (ok _) s = sent _ store file _ _ _ _ refl
  upload_begun-Ends key a store file (err f) s = also_failed-Ends _ f _ _

  send_file-Ends :
      (start : Instant) (a : Artifact) (store file : ℕ)
      → Ends (send_file v job_name job start a store file)
  unfolding send_file
  send_file-Ends start a store file s = upload_begun-Ends _ a store file _ _

  open_and_send-Ends :
      (start : Instant) (a : Artifact) (store : ℕ)
      → Ends (open_and_send v job_name job start a store)
  unfolding open_and_send
  open_and_send-Ends start a store s = Ends-resume _ _ (send_file-Ends start a store) _

  create_store-Ends :
      (start : Instant) (a : Artifact) (o : StorageOptions)
      → Ends (create_store v job_name job start a o)
  unfolding create_store
  create_store-Ends start a o s =
      Ends-resume _
        (λ _. do
          creation ← observe (λ _. store_created o) (v.new_store o)
          store ← or_stage v job_name job "s3_upload" creation
          resume store (open_and_send v job_name job start a))
        (λ _ s'.
          Ends-resume _ (open_and_send v job_name job start a) (open_and_send-Ends start a) _)
        _

  upload_staged-Ends :
      (start : Instant) (a : Artifact) → Ends (upload_staged v job_name job start a)
  unfolding upload_staged
  upload_staged-Ends start a s =
      Ends-resume _
        (λ _. do
          progress v (progress_event staged job_name "temporary_storage" [] a.size)
          resolution ← observe (λ _. storage_resolved) (v.resolve_storage job)
          options ← or_stage v job_name job "configuration" resolution
          resume options (create_store v job_name job start a))
        (λ _ s'. Ends-resume _ (create_store v job_name job start a) (create_store-Ends start a) _)
        _

  add_log_failure-Reached :
      (r : Result Fault RunResult) (cleanup : Fault) (o : Option Fault) (l : List Action)
      → let x = add_log_failure v job_name job (failed_with r cleanup) o in
        Reached job.s3.bucket x.error x.result l
  unfolding add_log_failure
  add_log_failure-Reached (ok r) cleanup none l = tt
  add_log_failure-Reached (ok r) cleanup (some f) l = tt
  add_log_failure-Reached (err e) cleanup none l = tt
  add_log_failure-Reached (err e) cleanup (some f) l = tt

  removal_failed-Reached :
      (r : Result Fault RunResult) (o : Option Fault) (s : RunState E)
      → Delivered job.s3.bucket r s.actions
      → let (x, s') = removal_failed v job_name job r o s in
        Reached job.s3.bucket x.error x.result s'.actions
  unfolding removal_failed
  removal_failed-Reached (ok r) none s h = h
  removal_failed-Reached (err f) none s h = tt
  removal_failed-Reached r (some f) s h =
      add_log_failure-Reached r (new_stage_error "cleanup" f s.secrets) _ _

  Delivered-append :
      (r : Result Fault RunResult) (a : Action) (l : List Action)
      → Delivered job.s3.bucket r l
      → Delivered job.s3.bucket r (l ++ a ∷ [])
  Delivered-append (ok r) a l h = Uploaded-append a h
  Delivered-append (err f) a l h = tt

  clean_up-Reached :
      (a : Artifact) (r : Result Fault RunResult) (s : RunState E)
      → Delivered job.s3.bucket r s.actions
      → let (x, s') = clean_up v job_name job a r s in
        Reached job.s3.bucket x.error x.result s'.actions
  unfolding clean_up observe
  clean_up-Reached a r s h =
      removal_failed-Reached r (v.remove a s.env).0
        (record s {
          env = (v.remove a s.env).1;
          actions = s.actions ++ removed a (v.remove a s.env).0 ∷ [];
        })
        (Delivered-append r _ _ h)

  stage_result-Finishes :
      (start : Instant) (r : Result Fault Artifact) → Finishes (stage_result v job_name job start r)
  unfolding stage_result
  stage_result-Finishes start (err f) s = tt
  stage_result-Finishes start (ok a) s = clean_up-Reached a _ _ (upload_staged-Ends start a s)

  or_end-Finishes :
      {A : Type 0} (a : Result Fault A) (f : A → Exec (RunState E) Outcome)
      → ((x : A) → Finishes (f x))
      → Finishes (or_end v job_name job a f)
  unfolding or_end
  or_end-Finishes (ok a) f h = h a
  or_end-Finishes (err e) f h = λ s. tt

  dump_and_stage-Finishes :
      (start : Instant) (q : DumpRequest) → Finishes (dump_and_stage v job_name job start q)
  unfolding dump_and_stage
  dump_and_stage-Finishes start q s = stage_result-Finishes start _ _

  request_resolved-Finishes :
      (start : Instant) (q : DumpRequest) → Finishes (request_resolved v job_name job start q)
  unfolding request_resolved
  request_resolved-Finishes start q s =
      or_end-Finishes _ (λ _. dump_and_stage v job_name job start q)
        (λ _. dump_and_stage-Finishes start q) _

  attempt-Finishes : (start : Instant) → Finishes (attempt v job_name job start)
  unfolding attempt
  attempt-Finishes start s =
      or_end-Finishes _
        (λ _. do
          progress v (progress_event started job_name "start" [] 0)
          resolution ← observe (λ _. dump_resolved) (v.resolve_dump job)
          request ← or_stage v job_name job "configuration" resolution
          or_end v job_name job request (request_resolved v job_name job start))
        (λ _ s'.
          or_end-Finishes _ (request_resolved v job_name job start)
            (request_resolved-Finishes start) _)
        _

  set_duration-Uploaded :
      (start finish : Instant) (r : RunResult) (l : List Action)
      → Uploaded job.s3.bucket r l
      → Uploaded job.s3.bucket (set_duration v job_name job start finish r) l
  unfolding set_duration
  set_duration-Uploaded start finish r l u = elim (Bool-cases (is_empty r.job)) [
    | inl e ↦ rw e u
    | inr e ↦ rw e (record {
      before = u.before;
      after = u.after;
      store = u.store;
      file = u.file;
      found = u.found;
    })
  ]

  log_completed-Reached :
      (r : RunResult) (o : Option Fault) (s : RunState E)
      → Uploaded job.s3.bucket r s.actions
      → let (x, s') = log_completed v job_name job r o s in
        Reached job.s3.bucket x.error x.result s'.actions
  unfolding log_completed progress_failed
  log_completed-Reached r none s u =
      (Keeps-progress (Uploaded-IsLogInvariant job.s3.bucket r) v
          (progress_event completed job_name "complete" r.object_key r.size)).at
        s u
  log_completed-Reached r (some f) s u = tt

  end_by-Reached :
      (start finish : Instant) (r : RunResult) (o : Option Fault) (s : RunState E)
      → Reached job.s3.bucket o r s.actions
      → let (x, s') =
          end_by v job_name job start finish (set_duration v job_name job start finish r) o s in
        Reached job.s3.bucket x.error x.result s'.actions
  unfolding end_by end_failed end_completed progress_failed
  end_by-Reached start finish r (some f) s h = tt
  end_by-Reached start finish r none s h = log_completed-Reached _ _ _ (
      (Keeps-write_log
          (Uploaded-IsLogInvariant job.s3.bucket (set_duration v job_name job start finish r)) v
          _).at
        s (set_duration-Uploaded start finish r _ h))

  end_run-Reached :
      (start : Instant) (o : Outcome) (s : RunState E)
      → Reached job.s3.bucket o.error o.result s.actions
      → let (x, s') = end_run v job_name job start o s in
        Reached job.s3.bucket x.error x.result s'.actions
  unfolding end_run ask
  end_run-Reached start o s h =
      end_by-Reached start (v.clock s.env).0 o.result o.error (record s { env = (v.clock s.env).1 })
        h

  timed_run-Finishes : Finishes (timed_run v job_name job)
  unfolding timed_run
  timed_run-Finishes s =
      let (start, s1) = ask v.clock s in
      let (o, s2) = attempt v job_name job start s1 in
      end_run-Reached start o s2 (attempt-Finishes start s1)

  by_error :
      {r : RunResult} {l : List Action} (o : Option Fault)
      → o ≡ none
      → Reached job.s3.bucket o r l
      → Uploaded job.s3.bucket r l
  by_error none e u = u
  by_error (some f) e u = absurd (cc)

  -- A run that returns no error has uploaded to the job's bucket, under the key and with the size of its
  -- result, and the store has answered this upload without an error.
  pub run-Uploaded :
      (e : E)
      → (run v job_name job e).0.error ≡ none
      → Uploaded job.s3.bucket (run v job_name job e).0.result (run v job_name job e).1.actions
  unfolding run
  run-Uploaded e h = by_error _ h (
      timed_run-Finishes (record {
        env = e;
        actions = [];
        secrets = job_secrets v job_name job;
        log_healthy = true;
      }))
