-- ===== src/Validation/Report.antt =====
-- internal/validation/report.go and redact.go: the report. A check is the list of the findings that
-- it appends.
use ezdbbackup.Common.{
  Bool, true, false, Option, none, some, List, [], ◌∷◌, ◌++◌, String, any, if◌then◌else◌,
}
use ezdbbackup.Common.Bytes.{Bytes, codes, is_empty}
use ezdbbackup.Backup.Fault.{Fault, wrapping, error_text, longest_first, redact_all}

pub data Severity : Type 0 where
  severity_error severity_warning : Severity

-- `Finding`
pub record LiveFinding : Type 0 where
  pub severity : Severity
  pub job : Bytes
  pub check : Bytes
  pub message : Bytes
  pub cause : Option Fault

severity_text : Severity → Bytes
severity_text severity_error = codes "error"
severity_text severity_warning = codes "warning"

with_cause : Bytes → Option Fault → Bytes
with_cause text none = text
with_cause text (some f) = text ++ (codes ": " ++ error_text f)

-- `Finding.Error`
unfoldable pub live_finding_text : LiveFinding → Bytes
unfolding severity_text with_cause
live_finding_text f =
    let prefix = severity_text f.severity in
    let prefix = if is_empty f.job then prefix else prefix ++ (codes " job " ++ f.job) in
    let prefix = if is_empty f.check then prefix else prefix ++ (codes " " ++ f.check) in
    with_cause (prefix ++ (codes ": " ++ f.message)) f.cause

abbrev pub is_error : Severity → Bool
is_error severity_error = true
is_error severity_warning = false

-- `Report.HasErrors`
abbrev pub report_has_errors : List LiveFinding → Bool
report_has_errors findings = any (λ f. is_error f.severity) findings

-- `appendNonEmpty`
unfoldable pub append_non_empty : List Bytes → List Bytes → List Bytes
append_non_empty values [] = values
append_non_empty values (addition ∷ additions) =
    append_non_empty (if is_empty addition then values else values ++ addition ∷ []) additions

-- `redactCause` of an error that is not nil
unfoldable pub redact_cause : Fault → List Bytes → Fault
unfolding append_non_empty
redact_cause f secrets =
    wrapping (redact_all (error_text f) (longest_first (append_non_empty [] secrets))) f

abbrev pub redact_answer : Option Fault → List Bytes → Option Fault
redact_answer none secrets = none
redact_answer (some f) secrets = some (redact_cause f secrets)

-- `appendCheck`
abbrev pub append_check : Bytes → String → String → Option Fault → List LiveFinding
append_check job check message none = []
append_check job check message (some f) =
    record {
      severity = severity_error;
      job = job;
      check = codes check;
      message = codes message;
      cause = some f;
    }
    ∷ []

-- `skippedFinding`
abbrev pub skipped_finding : Bytes → String → String → List LiveFinding
skipped_finding job check message =
    record {
      severity = severity_warning;
      job = job;
      check = codes check;
      message = codes message;
      cause = none;
    }
    ∷ []

-- an error without a cause
abbrev pub plain_finding : Bytes → String → Bytes → List LiveFinding
plain_finding job check message =
    record {
      severity = severity_error;
      job = job;
      check = codes check;
      message = message;
      cause = none;
    }
    ∷ []
