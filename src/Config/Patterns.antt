-- ===== src/Config/Patterns.antt =====
-- internal/config/validate.go: the patterns of names, buckets, regions and hosts. A pattern of the
-- source is anchored at both ends and holds ASCII classes, so it is a test of the bytes.
use ezdbbackup.Common.{
  ℕ, Bool, true, false, not, ◌&&◌, ◌||◌, List, [], ◌∷◌, all, any, leb, ◌==◌, within, length,
  if◌then◌else◌,
}
use ezdbbackup.Common.Bytes.{Bytes, codes, is_empty, has_prefix, contains, split}
use mathlib.Core.List.{reverse}

abbrev pub lower_or_digit : ℕ → Bool
lower_or_digit c = within b'a' b'z' c || within b'0' b'9' c

abbrev pub letter_or_digit : ℕ → Bool
letter_or_digit c = within b'a' b'z' c || within b'A' b'Z' c || within b'0' b'9' c

abbrev first_is : (ℕ → Bool) → Bytes → Bool
first_is p [] = false
first_is p (c ∷ cs) = p c

abbrev last_is : (ℕ → Bool) → Bytes → Bool
last_is p [] = false
last_is p (c ∷ []) = p c
last_is p (c ∷ d ∷ ds) = last_is p (d ∷ ds)

-- `^[ends][class]{n,m}[ends]$`, by the length of the whole
abbrev pub bounded_by : (ℕ → Bool) → (ℕ → Bool) → ℕ → ℕ → Bytes → Bool
bounded_by ends class lo hi s =
    within lo hi (length s) && first_is ends s && last_is ends s && all class s

-- `strings.HasSuffix`
unfoldable pub has_suffix : Bytes → Bytes → Bool
has_suffix s suffix = has_prefix (reverse s) (reverse suffix)

-- `jobNamePattern`
unfoldable pub job_name_pattern : Bytes → Bool
job_name_pattern s =
    first_is letter_or_digit s
    && all (λ c. letter_or_digit c || c == b'_' || c == b'-') s
    && leb (length s) 64

-- `awsBucketPattern`
unfoldable pub aws_bucket_pattern : Bytes → Bool
aws_bucket_pattern =
    bounded_by lower_or_digit (λ c. lower_or_digit c || c == b'.' || c == b'-') 3 63

-- `customBucketPattern`
unfoldable pub custom_bucket_pattern : Bytes → Bool
custom_bucket_pattern =
    bounded_by letter_or_digit (λ c. letter_or_digit c || c == b'.' || c == b'_' || c == b'-') 3 63

-- `regionPattern`
unfoldable pub region_pattern : Bytes → Bool
region_pattern s = all (λ piece. not (is_empty piece) && all lower_or_digit piece) (split b'-' s)

-- `domainLabelPattern`
unfoldable pub domain_label_pattern : Bytes → Bool
domain_label_pattern = bounded_by letter_or_digit (λ c. letter_or_digit c || c == b'-') 1 63

-- `reservedBucketPrefix` and `reservedBucketSuffix`
abbrev pub reserved_bucket_prefix : List Bytes
reserved_bucket_prefix = codes "xn--" ∷ codes "sthree-" ∷ codes "amzn-s3-demo-" ∷ []

abbrev pub reserved_bucket_suffix : List Bytes
reserved_bucket_suffix =
    codes "-s3alias" ∷ codes "--ol-s3" ∷ codes ".mrap" ∷ codes "--x-s3" ∷ codes "--table-s3" ∷ []

-- dots side by side, or next to a hyphen
abbrev bad_dots : Bytes → Bool
bad_dots s = contains s (codes "..") || contains s (codes ".-") || contains s (codes "-.")

-- `net.ParseIP(s) != nil` is a parameter.
module _ (is_ip : Bytes → Bool) where
  -- `validAWSBucket`
  unfoldable pub valid_aws_bucket : Bytes → Bool
  unfolding aws_bucket_pattern has_suffix
  valid_aws_bucket bucket =
      if not (aws_bucket_pattern bucket) || bad_dots bucket || is_ip bucket
      then false
      else not (any (λ prefix. has_prefix bucket prefix) reserved_bucket_prefix)
        && not (any (λ suffix. has_suffix bucket suffix) reserved_bucket_suffix)

  -- the test of `validateBucket`
  unfoldable pub valid_bucket : Bytes → Bool → Bool
  unfolding custom_bucket_pattern valid_aws_bucket
  valid_bucket bucket custom_endpoint =
      if custom_endpoint
      then custom_bucket_pattern bucket && not (bad_dots bucket)
      else valid_aws_bucket bucket

  abbrev without_dot : Bytes → Bytes
  without_dot [] = []
  without_dot (c ∷ []) = if c == b'.' then [] else c ∷ []
  without_dot (c ∷ d ∷ ds) = c ∷ without_dot (d ∷ ds)

  abbrev valid_labels : Bytes → Bool
  valid_labels host =
      not (is_empty host) && leb (length host) 253 && all domain_label_pattern (split b'.' host)

  -- `validEndpointHost`
  unfoldable pub valid_endpoint_host : Bytes → Bool
  unfolding domain_label_pattern
  valid_endpoint_host host = if is_ip host then true else valid_labels (without_dot host)
