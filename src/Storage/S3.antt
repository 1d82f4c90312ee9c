-- ===== src/Storage/S3.antt =====
-- What internal/storage/uploader.go exchanges with S3: requests, answers, the uploader and its results.
-- The S3 client, the context and `url.ParseRequestURI` are a parameter, the record `Client`.
use ezdbbackup.Common.{
  ℕ, Bool, false, ◌&&◌, ◌||◌, not, Option, none, some, List, [], ltb, ◌==◌, if◌then◌else◌, ℤ, pos,
  negsuc, length, Result,
}
use ezdbbackup.Common.Bytes.{Bytes, codes, is_empty, equal}
use ezdbbackup.Common.Utf8.{valid_string, has_control}
use ezdbbackup.Storage.Plan.{default_multipart_threshold, default_part_size}
use ezdbbackup.Storage.SafeError.{Failure, S3Error, MetadataFilter}

-- `io.NewSectionReader(source, offset, length)`
pub record Section : Type 0 where
  pub source : ℕ
  pub offset : ℕ
  pub length : ℕ

pub record CompletedPart : Type 0 where
  pub etag : Bytes
  pub part_number : ℕ

-- Bucket and key of a request.
pub record Target : Type 0 where
  pub bucket : Bytes
  pub key : Bytes

-- The requests to S3.
pub data Call : Type 0 where
  put_object : Target → Section → ℕ → Call
  create_multipart_upload : Target → Call
  upload_part : Target → Bytes → ℕ → ℕ → Section → Call
  complete_multipart_upload : Target → Bytes → List CompletedPart → Call
  abort_multipart_upload : Target → Bytes → ℕ → Call

-- What `url.ParseRequestURI` finds in a location.
pub record Uri : Type 0 where
  pub host : Bytes
  pub scheme : Bytes
  pub has_user : Bool

pub record Completion : Type 0 where
  pub location : Bytes
  pub etag : Bytes

-- Each answer is an error or the part of the output that is read, by `aws.ToString`; an output that
-- is nil is `none`.
pub record Client (E : Type 0) : Type 0 where
  pub put : Call → E → Result Failure (Option Bytes) × E
  pub create : Call → E → Result Failure (Option Bytes) × E
  pub part : Call → E → Result Failure (Option Bytes) × E
  pub complete : Call → E → Result Failure (Option Completion) × E
  pub abort : Call → E → Option Failure × E
  pub context_error : E → Option Failure × E
  pub parse_request_uri : Bytes → Option Uri

pub record FileUploader (E : Type 0) : Type 0 where
  pub client : Option (Client E)
  pub multipart_threshold : ℤ
  pub part_size : ℤ
  pub abort_timeout : ℤ
  pub metadata_filter : MetadataFilter

-- 30 seconds in nanoseconds
abbrev pub default_abort_timeout : ℕ
default_abort_timeout = 30000000000

unfoldable pub new_file_uploader : {E : Type 0} → Client E → FileUploader E
new_file_uploader client = record {
  client = some client;
  multipart_threshold = pos default_multipart_threshold;
  part_size = pos default_part_size;
  abort_timeout = pos default_abort_timeout;
  metadata_filter = none;
}

pub record UploadResult : Type 0 where
  pub location : Bytes
  pub etag : Bytes

-- `errors.Join(primary, ...)` is `joined`.
pub data UploadError : Type 0 where
  single : S3Error → UploadError
  joined : UploadError → S3Error → UploadError

-- A setting that holds if it is positive, and a default for it.
abbrev pub positive_or : ℤ → ℕ → ℕ
positive_or (pos n) default = if n == 0 then default else n
positive_or (negsuc _) default = default

unfoldable pub safe_etag : Bytes → Bytes
safe_etag value =
    if is_empty value || ltb 1024 (length value) || not (valid_string value) || has_control value
    then []
    else value

abbrev acceptable : Option Uri → Bool
acceptable none = false
acceptable (some u) =
    not (is_empty u.host)
    && (equal u.scheme (codes "http") || equal u.scheme (codes "https"))
    && not u.has_user

unfoldable pub safe_location : (Bytes → Option Uri) → Bytes → Bytes
safe_location parse value =
    if is_empty value || ltb 2048 (length value) || not (valid_string value) || has_control value
    then []
    else if acceptable (parse value)
    then value
    else []

-- One upload as the steps of `multipart` see it.
pub record Job (E : Type 0) : Type 0 where
  pub client : Client E
  pub filter : MetadataFilter
  pub timeout : ℤ
  pub target : Target
  pub source : ℕ
  pub size : ℕ
