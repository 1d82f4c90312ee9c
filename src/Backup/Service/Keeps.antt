-- ===== src/Backup/Service/Keeps.antt =====
-- Invariants of a run: predicates on what it has done and on whether its log still works, with one
-- rule for each way to build a step.
use ezdbbackup.Common.{
  ◌≡◌, refl, sym, Bool, true, false, Option, none, some, List, [], ◌∷◌, ◌++◌, String, if◌then◌else◌,
  Result, ok, err,
}
use mathlib.Core.Path.{subst}
use ezdbbackup.Common.Exec.{Exec, ◌>>=◌, pure, resume}
use ezdbbackup.Common.Bytes.{Bytes}
use ezdbbackup.Backup.Fault.{Fault}
use ezdbbackup.Backup.Types.{
  Event, Level, Value, ProgressEvent, Action, logged, progressed, Service,
}
use ezdbbackup.Backup.Service.{
  RunState, observe, ask, add_secret, stage_fault, progress, progress_by, log_answer, write_by,
  write_event, write_log, must_log, log_now, log_debug, as_result,
}

-- an action that the invariant does not look at
abbrev pub Ignores : (List Action → Bool → Type 0) → Action → Type 0
Ignores P a = (l : List Action) (healthy : Bool) → P l healthy → P (l ++ a ∷ []) healthy

module _ {E : Type 0} (P : List Action → Bool → Type 0) where
  abbrev pub Holds : RunState E → Type 0
  Holds s = P s.actions s.log_healthy

  pub record Keeps {A : Type 0} (m : Exec (RunState E) A) : Type 0 where
    pub at : (s : RunState E) → Holds s → Holds (m s).1

  pub Keeps-pure : {A : Type 0} (a : A) → Keeps (pure a)
  Keeps-pure a = record { at = λ s h. h }

  pub Keeps-bind :
      {A B : Type 0} {m : Exec (RunState E) A} {f : A → Exec (RunState E) B}
      → Keeps m
      → ((a : A) → Keeps (f a))
      → Keeps (m >>= f)
  Keeps-bind {m = m} km kf = record { at = λ s h. let (a, s') = m s in (kf a).at s' (km.at s h) }

  pub Keeps-resume :
      {A B : Type 0} (r : Result Fault A) {f : A → Exec (RunState E) (Result Fault B)}
      → ((a : A) → Keeps (f a))
      → Keeps (resume r f)
  Keeps-resume (ok a) kf = kf a
  Keeps-resume (err e) kf = Keeps-pure (err e)

  pub Keeps-if :
      {A : Type 0} (b : Bool) {m n : Exec (RunState E) A}
      → Keeps m
      → Keeps n
      → Keeps (if b then m else n)
  Keeps-if true km kn = km
  Keeps-if false km kn = kn

  pub Keeps-ask : {A : Type 0} (call : E → A × E) → Keeps (ask call)
  unfolding ask
  Keeps-ask call = record { at = λ s h. h }

  pub Keeps-add_secret : (value : Bytes) → Keeps (add_secret value)
  unfolding add_secret
  Keeps-add_secret value = record { at = λ s h. h }

  pub Keeps-stage_fault :
      {A : Type 0} (stage : String) (f : Fault) → Keeps (stage_fault {A = A} stage f)
  unfolding stage_fault
  Keeps-stage_fault stage f = record { at = λ s h. h }

  pub Keeps-observe :
      {A : Type 0} (action : A → Action) (call : E → A × E)
      → ((a : A) → Ignores P (action a))
      → Keeps (observe action call)
  unfolding observe
  Keeps-observe action call i = record { at = λ s h. i _ _ _ h }

-- An invariant that holds on over progress events, and over the writes of a log that works.
pub record IsLogInvariant (P : List Action → Bool → Type 0) : Type 0 where
  pub progress_kept : (event : ProgressEvent) → Ignores P (progressed event)
  pub written :
      (event : Event) → (l : List Action) → P l true → P (l ++ logged event none ∷ []) true
  pub broken :
      (event : Event) (f : Fault)
      → (l : List Action) → P l true
      → P (l ++ logged event (some f) ∷ []) false

module _ {E : Type 0} {P : List Action → Bool → Type 0} (i : IsLogInvariant P) (v : Service E) where
  pub Keeps-progress : (event : ProgressEvent) → Keeps P (progress v event)
  unfolding progress
  Keeps-progress event = by_callback v.progress
    where
      by_callback : (o : Option (ProgressEvent → E → Unit {0} × E)) → Keeps P (progress_by o event)
      by_callback none = Keeps-pure P tt
      by_callback (some c) = Keeps-observe P _ _ (λ _. i.progress_kept event)

  healthy_write :
      (event : Event) (o : Option (Event → E → Option Fault × E)) (s : RunState E)
      → s.log_healthy ≡ true
      → P s.actions true
      → Holds P ((write_by o event >>= log_answer) s).1
  unfolding write_by observe log_answer
  healthy_write event none s e h = subst (P s.actions) (sym e) h
  healthy_write event (some sink) s e h = answered (sink event s.env).0
    where
      answered :
          (a : Option Fault)
          → Holds P
              (log_answer a (record s {
                env = (sink event s.env).1;
                actions = s.actions ++ logged event a ∷ [];
              })).1
      answered none =
          subst (P (s.actions ++ logged event none ∷ [])) (sym e) (i.written event s.actions h)
      answered (some f) = i.broken event f s.actions h

  pub Keeps-write_log : (event : Event) → Keeps P (write_log v event)
  unfolding write_log write_event
  Keeps-write_log event = record { at = λ s h. by_health s s.log_healthy refl h }
    where
      by_health :
          (s : RunState E) (b : Bool)
          → s.log_healthy ≡ b
          → Holds P s
          → Holds P ((if b then write_event v event else pure none) s).1
      by_health s true e h = healthy_write event v.log s e (subst (P s.actions) e h)
      by_health s false e h = h

  pub Keeps-must_log : (event : Event) → Keeps P (must_log v event)
  unfolding must_log
  Keeps-must_log event = Keeps-bind P (Keeps-write_log event) (λ f. Keeps-pure P (as_result f))

  pub Keeps-log_now :
      (level : Level) (message : String) (job : Bytes) (stage : String)
      (fields : List (String × Value))
      → Keeps P (log_now v level message job stage fields)
  unfolding log_now
  Keeps-log_now level message job stage fields = Keeps-bind P (Keeps-ask P v.clock) (λ now.
      Keeps-must_log (record {
        time = now;
        level = level;
        message = message;
        job = job;
        stage = stage;
        fields = fields;
      }))

  pub Keeps-log_debug :
      (message : String) (job : Bytes) (fields : List (String × Value))
      → Keeps P (log_debug v message job fields)
  unfolding log_debug
  Keeps-log_debug message job fields =
      Keeps-if P v.debug (Keeps-log_now _ _ _ _ _) (Keeps-pure P (ok tt))
