-- ===== src/Config/Validate/Prefix.antt =====
-- `validS3Prefix` of internal/config/validate.go with `ObjectKey` of internal/storage/key.go.
use ezdbbackup.Common.{
  ◌+◌, ◌*◌, ◌≤◌, ◌≡◌, Bool, true, false, not, ◌||◌, ◌++◌, arith, length, length-append, any, ◌==◌,
  leb→le, if◌then◌else◌, Bool-cases, inl, inr,
}
use ezdbbackup.Common.Bytes.{Bytes, codes, is_empty, join, fields_func}
use ezdbbackup.Common.Utf8.{valid_string}
use ezdbbackup.Config.Checks.{key_length, valid_s3_prefix, is_relative, has_unsafe_rune}
use ezdbbackup.Storage.Key.{Stamp, clean_prefix, key_parts, object_key}

-- What `validS3Prefix` rules out, apart from the length.
accepted : (a b : Bool) {c : Bool} → (if a then false else if b then false else c) ≡ true → c ≡ true
accepted a b h = ground arith

name_length :
    (job : Bytes) (at : Stamp)
    → length at.timestamp ≡ 26
    → length (job ++ (codes "-" ++ (at.timestamp ++ codes ".sql.gz"))) ≡ length job + 34
name_length job at t = omega (
  arith,
  length-append job (codes "-" ++ (at.timestamp ++ codes ".sql.gz")),
  length-append at.timestamp (codes ".sql.gz"),
)

parts_length :
    (job : Bytes) (at : Stamp)
    → length at.date_path ≡ 10
    → length at.timestamp ≡ 26
    → length (join (codes "/") (key_parts job at)) ≡ 2 * length job + 46
unfolding key_parts
parts_length job at d t =
    let file = job ++ (codes "-" ++ (at.timestamp ++ codes ".sql.gz")) in
    omega (
      arith,
      name_length job at t,
      length-append job (codes "/" ++ (at.date_path ++ (codes "/" ++ file))),
      length-append at.date_path (codes "/" ++ file),
    )

-- The length that the check computes is that of the key.
object_key-length :
    (prefix job : Bytes) (at : Stamp)
    → length at.date_path ≡ 10
    → length at.timestamp ≡ 26
    → length (object_key prefix job at) ≡ key_length (clean_prefix prefix) job
unfolding object_key key_length
object_key-length prefix job at d t = elim (Bool-cases (is_empty (clean_prefix prefix))) [
  | inl e ↦ rw e (omega (arith, parts_length job at d t))
  | inr e ↦ rw e (
      omega (
        arith,
        parts_length job at d t,
        length-append (clean_prefix prefix) (codes "/" ++ join (codes "/") (key_parts job at)),
      ))
]

-- Where the date is printed in 10 bytes and the time in 26, a prefix is accepted only if the key that
-- `ObjectKey` builds from it and the job's name has at most the 1024 bytes that S3 allows.
pub valid_s3_prefix-fits :
    (prefix job : Bytes) (at : Stamp)
    → length at.date_path ≡ 10
    → length at.timestamp ≡ 26
    → valid_s3_prefix prefix job ≡ true
    → length (object_key prefix job at) ≤ 1024
unfolding valid_s3_prefix
valid_s3_prefix-fits prefix job at d t h =
    let short = leb→le (key_length (clean_prefix prefix) job) 1024 (
      accepted (not (valid_string prefix) || has_unsafe_rune prefix)
        (any is_relative (fields_func (λ r. r == b'/') prefix)) h) in
    rw (object_key-length prefix job at d t) short
