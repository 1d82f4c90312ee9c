-- ===== src/Config/Findings.antt =====
-- internal/config/types.go: the problems that validation finds.
use ezdbbackup.Common.{
  Bool, true, false, not, ◌&&◌, List, [], ◌∷◌, ◌++◌, String, map, any, if◌then◌else◌,
}
use ezdbbackup.Common.Bytes.{Bytes, codes, is_empty, equal, join}

pub record Finding : Type 0 where
  pub path : Bytes
  pub job : Bytes
  pub message : Bytes
  pub warning : Bool

-- `Finding.String`
unfoldable pub finding_text : Finding → Bytes
finding_text f =
    let severity = codes (if f.warning then "warning" else "error") in
    if is_empty f.path
    then severity ++ (codes ": " ++ f.message)
    else severity ++ (codes " " ++ (f.path ++ (codes ": " ++ f.message)))

-- `Findings.HasErrors`
abbrev pub has_errors : List Finding → Bool
has_errors fs = any (λ f. not f.warning) fs

-- `Findings.ContainsWarning`
unfoldable pub contains_warning : Bytes → List Finding → Bool
contains_warning path fs = any (λ f. f.warning && equal f.path path) fs

-- `Findings.Error`
unfoldable pub findings_text : List Finding → Bytes
unfolding finding_text
findings_text fs = join (codes "; ") (map finding_text fs)

-- Findings are only appended: a check is modelled by the list of what it appends.
abbrev pub job_error : Bytes → Bytes → Bytes → List Finding
job_error job path message =
    record { path = path; job = job; message = message; warning = false } ∷ []

abbrev pub job_warning : Bytes → Bytes → Bytes → List Finding
job_warning job path message =
    record { path = path; job = job; message = message; warning = true } ∷ []

abbrev pub config_error : String → String → List Finding
config_error path message = job_error [] (codes path) (codes message)
