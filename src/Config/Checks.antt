-- ===== src/Config/Checks.antt =====
-- internal/config/validate.go: the checks of a single setting. A check is the list of the findings
-- that it appends.
use ezdbbackup.Common.{
  ℕ, suc, ◌+◌, ◌*◌, Bool, false, not, ◌&&◌, ◌||◌, Option, none, some, List, [], ◌∷◌, ◌++◌, String,
  any, all, leb, ◌==◌, within, length, if◌then◌else◌,
}
use ezdbbackup.Common.Bytes.{Bytes, codes, is_empty, equal, has_prefix, fields_func, itoa}
use ezdbbackup.Common.Utf8.{decodings, valid_string, is_control, is_space, has_control}
use ezdbbackup.Config.Types.{DatabaseSelection}
use ezdbbackup.Config.Secrets.{SecretRef}
use ezdbbackup.Config.Findings.{Finding, job_error}
use ezdbbackup.Config.DumpOptions.{conflicting_dump_argument}
use ezdbbackup.Storage.Key.{clean_prefix}

abbrev pub unless : Bool → List Finding → List Finding
unless b found = if b then [] else found

-- `strings.TrimSpace(s) == ""`
unfoldable pub is_blank : Bytes → Bool
is_blank s = all (λ d. is_space d.rune) (decodings s)

-- `filepath.IsAbs` on Unix
abbrev pub is_abs : Bytes → Bool
is_abs path = has_prefix path (codes "/")

-- unicode.Cf, unicode.Zl and unicode.Zp
abbrev pub is_format_rune : ℕ → Bool
is_format_rune r =
    r == 0xad
    || within 0x600 0x605 r
    || r == 0x61c
    || r == 0x6dd
    || r == 0x70f
    || within 0x890 0x891 r
    || r == 0x8e2
    || r == 0x180e
    || within 0x200b 0x200f r
    || within 0x202a 0x202e r
    || within 0x2060 0x2064 r
    || within 0x2066 0x206f r
    || r == 0xfeff
    || within 0xfff9 0xfffb r
    || r == 0x110bd
    || r == 0x110cd
    || within 0x13430 0x1343f r
    || within 0x1bca0 0x1bca3 r
    || within 0x1d173 0x1d17a r
    || r == 0xe0001
    || within 0xe0020 0xe007f r

abbrev pub unsafe_s3_text_rune : ℕ → Bool
unsafe_s3_text_rune r = is_control r || is_format_rune r || r == 0x2028 || r == 0x2029

abbrev pub has_unsafe_rune : Bytes → Bool
has_unsafe_rune s = any (λ d. unsafe_s3_text_rune d.rune) (decodings s)

abbrev pub is_relative : Bytes → Bool
is_relative segment = equal segment (codes ".") || equal segment (codes "..")

unfoldable pub key_length : Bytes → Bytes → ℕ
key_length normalized job_name =
    (2 * length job_name + 46) + (if is_empty normalized then 0 else length normalized + 1)

-- `validS3Prefix`
unfoldable pub valid_s3_prefix : Bytes → Bytes → Bool
unfolding key_length
valid_s3_prefix prefix job_name =
    if not (valid_string prefix) || has_unsafe_rune prefix
    then false
    else if any is_relative (fields_func (λ r. r == b'/') prefix)
    then false
    else leb (key_length (clean_prefix prefix) job_name) 1024

-- `validateAbsolutePath`
unfoldable pub validate_absolute_path : Bytes → Bytes → Bytes → List Finding
validate_absolute_path job path value =
    unless (not (is_empty value) && is_abs value)
      (job_error job path (codes "must be an absolute path"))

-- `validateSecretRef`
unfoldable pub validate_secret_ref : Bytes → Bytes → SecretRef → List Finding
validate_secret_ref job path secret =
    (unless (is_empty secret.literal || is_empty secret.file)
      (job_error job path (codes "literal and file secret sources are mutually exclusive")))
    ++ (unless (is_empty secret.file || is_abs secret.file)
        (job_error job (path ++ codes "_file") (codes "must be an absolute path")))

abbrev pub secret_configured : SecretRef → Bool
secret_configured secret = not (is_empty secret.literal) || not (is_empty secret.file)

abbrev pub indexed : Bytes → String → ℕ → Bytes
indexed base field index = base ++ (codes field ++ (codes "[" ++ (itoa index ++ codes "]")))

abbrev pub database_error : Bytes → Option String
database_error name =
    if is_empty name
    then some "must not be empty"
    else if has_prefix name (codes "-")
    then some "must not begin with '-'"
    else if has_control name
    then some "must not contain control characters"
    else none

abbrev pub indexed_error : Bytes → Bytes → Option String → List Finding
indexed_error job path none = []
indexed_error job path (some message) = job_error job path (codes message)

-- the loop over the names of databases
unfoldable pub validate_database_names : Bytes → Bytes → ℕ → List Bytes → List Finding
validate_database_names job base index [] = []
validate_database_names job base index (name ∷ names) =
    indexed_error job (indexed base ".mysql.databases" index) (database_error name)
    ++ validate_database_names job base (suc index) names

unfoldable pub validate_databases : Bytes → Bytes → DatabaseSelection → List Finding
unfolding validate_database_names
validate_databases job base d =
    if d.every && not (is_empty d.names)
    then job_error job (base ++ codes ".mysql.databases")
        (codes "must select either all databases or an explicit list")
    else if not d.every && is_empty d.names
    then job_error job (base ++ codes ".mysql.databases") (codes "is required")
    else if d.every
    then []
    else validate_database_names job base 0 d.names

-- the loop over the extra arguments
unfoldable pub validate_extra_args : Bytes → Bytes → ℕ → List Bytes → List Finding
unfolding conflicting_dump_argument
validate_extra_args job base index [] = []
validate_extra_args job base index (arg ∷ args) =
    unless (not (conflicting_dump_argument arg)) (
      job_error job (indexed base ".mysql.extra_args" index)
        (codes "conflicts with an ezdbbackup-managed mysqldump setting"))
    ++ validate_extra_args job base (suc index) args
