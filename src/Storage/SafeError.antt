-- ===== src/Storage/SafeError.antt =====
-- The error boundary of internal/storage/error.go, with the metadata policy of internal/storage/s3.go.
pub mod Text
pub mod Metadata
use ezdbbackup.Common.{
  ℕ, ◌≤◌, Bool, true, false, ◌&&◌, ◌||◌, not, Option, none, some, List, [], ◌∷◌, ◌++◌, String, leb,
  ltb, ◌==◌, within, if◌then◌else◌, ℤ, pos, negsuc, all, any, length,
}
use ezdbbackup.Common.Bytes.{Bytes, codes, join, itoa, contains, member, is_empty}

abbrev lower : ℕ → Bool
lower = within b'a' b'z'

abbrev alphanumeric : ℕ → Bool
alphanumeric c = lower c || within b'A' b'Z' c || within b'0' b'9' c

-- `^[first][rest]{0,max}$`
abbrev pub matches_pattern : (ℕ → Bool) → (ℕ → Bool) → ℕ → Bytes → Bool
matches_pattern first rest max [] = false
matches_pattern first rest max (c ∷ cs) = first c && all rest cs && leb (length cs) max

pub safe_operation_pattern : Bytes → Bool
safe_operation_pattern = matches_pattern lower (λ c. lower c || within b'0' b'9' c || c == b' ') 63

pub safe_code_pattern : Bytes → Bool
safe_code_pattern =
    matches_pattern alphanumeric (λ c. alphanumeric c || any (λ d. d == c) (codes "._:#-")) 127

pub safe_id_pattern : Bytes → Bool
safe_id_pattern =
    matches_pattern alphanumeric (λ c. alphanumeric c || any (λ d. d == c) (codes "._/+=-")) 255

-- An error that the SDK or the context returned: what `errors.As` finds in it.
pub record Failure : Type 0 where
  pub api_code : Option Bytes
  pub response_ids : Option (Bytes × Bytes)
  pub http_status : Option ℤ

pub data Cause : Type 0 where
  message : String → Cause
  external : Failure → Cause

pub record S3Error : Type 0 where
  pub operation : Bytes
  pub code : Bytes
  pub status : ℕ
  pub request_id : Bytes
  pub host_id : Bytes
  pub cause : Cause

pub data MetadataKind : Type 0 where
  metadata_code metadata_response_id : MetadataKind

-- The interface `s3MetadataFilter`; nil is `none`.
abbrev pub MetadataFilter : Type 0
MetadataFilter = Option (MetadataKind → Bytes → Bool)

abbrev when : Bool → Bytes → List Bytes
when b text = if b then text ∷ [] else []

abbrev status_in_range : ℕ → Bool
status_in_range n = leb 100 n && leb n 599

-- the list `fields` of `Error`
pub error_fields : S3Error → List Bytes
error_fields e =
    when (safe_code_pattern e.code) (codes "code=" ++ e.code)
    ++ (when (status_in_range e.status) (codes "status=" ++ itoa e.status)
        ++ (when (safe_id_pattern e.request_id) (codes "request_id=" ++ e.request_id)
            ++ when (safe_id_pattern e.host_id) (codes "host_id=" ++ e.host_id)))

-- `(*S3Error).Error`
unfoldable pub s3_error_text : S3Error → Bytes
unfolding error_fields
s3_error_text e =
    let operation = if safe_operation_pattern e.operation then e.operation else codes "operation" in
    let text = codes "S3 " ++ (operation ++ codes " failed") in
    let fields = error_fields e in
    if is_empty fields
    then text
    else text ++ (codes " (" ++ (join (codes ", ") fields ++ codes ")"))

abbrev filter_allows : MetadataFilter → MetadataKind → Bytes → Bool
filter_allows none kind value = true
filter_allows (some allows) kind value = allows kind value

unfoldable pub safe_metadata : MetadataKind → Bytes → (Bytes → Bool) → MetadataFilter → Bool
safe_metadata kind value pattern filter = pattern value && filter_allows filter kind value

-- the value that is kept, or the empty text of a field that is not set
abbrev kept : MetadataKind → Bytes → (Bytes → Bool) → MetadataFilter → Bytes
kept kind value pattern filter = if safe_metadata kind value pattern filter then value else []

abbrev safe_code : MetadataFilter → Option Bytes → Bytes
safe_code filter none = []
safe_code filter (some code) = kept metadata_code code safe_code_pattern filter

abbrev safe_request_id : MetadataFilter → Option (Bytes × Bytes) → Bytes
safe_request_id filter none = []
safe_request_id filter (some (request, host)) =
    kept metadata_response_id request safe_id_pattern filter

abbrev safe_host_id : MetadataFilter → Option (Bytes × Bytes) → Bytes
safe_host_id filter none = []
safe_host_id filter (some (request, host)) = kept metadata_response_id host safe_id_pattern filter

abbrev safe_status : Option ℤ → ℕ
safe_status (some (pos n)) = if status_in_range n then n else 0
safe_status _ = 0

-- `safeS3ErrorWithFilter`, at an error that is not nil
unfoldable pub safe_s3_error_with_filter : Bytes → Cause → MetadataFilter → S3Error
unfolding safe_metadata
safe_s3_error_with_filter operation (message m) filter = record {
  operation = operation;
  code = [];
  status = 0;
  request_id = [];
  host_id = [];
  cause = message m;
}
safe_s3_error_with_filter operation (external f) filter = record {
  operation = operation;
  code = safe_code filter f.api_code;
  status = safe_status f.http_status;
  request_id = safe_request_id filter f.response_ids;
  host_id = safe_host_id filter f.response_ids;
  cause = external f;
}

-- The keys of `knownS3ErrorCodes`.
pub known_s3_error_codes : List Bytes
known_s3_error_codes =
    codes "AccessDenied"
    ∷ codes "BadDigest"
    ∷ codes "BadRequest"
    ∷ codes "BucketAlreadyExists"
    ∷ codes "BucketAlreadyOwnedByYou"
    ∷ codes "BucketNotEmpty"
    ∷ codes "EntityTooLarge"
    ∷ codes "EntityTooSmall"
    ∷ codes "ExpiredToken"
    ∷ codes "Forbidden"
    ∷ codes "IncompleteBody"
    ∷ codes "InternalError"
    ∷ codes "InvalidAccessKeyId"
    ∷ codes "InvalidArgument"
    ∷ codes "InvalidBucketName"
    ∷ codes "InvalidDigest"
    ∷ codes "InvalidPart"
    ∷ codes "InvalidPartOrder"
    ∷ codes "InvalidRange"
    ∷ codes "InvalidRequest"
    ∷ codes "InvalidSecurity"
    ∷ codes "InvalidToken"
    ∷ codes "InvalidURI"
    ∷ codes "MalformedACLError"
    ∷ codes "MalformedPOSTRequest"
    ∷ codes "MalformedXML"
    ∷ codes "MethodNotAllowed"
    ∷ codes "MissingContentLength"
    ∷ codes "NoSuchBucket"
    ∷ codes "NoSuchKey"
    ∷ codes "NoSuchUpload"
    ∷ codes "NotFound"
    ∷ codes "NotImplemented"
    ∷ codes "OperationAborted"
    ∷ codes "PermanentRedirect"
    ∷ codes "PreconditionFailed"
    ∷ codes "RequestExpired"
    ∷ codes "RequestTimeout"
    ∷ codes "RequestTimeTooSkewed"
    ∷ codes "ServiceUnavailable"
    ∷ codes "SignatureDoesNotMatch"
    ∷ codes "SlowDown"
    ∷ codes "TemporaryRedirect"
    ∷ codes "TokenRefreshRequired"
    ∷ codes "TooManyBuckets"
    ∷ codes "UnexpectedContent"
    ∷ codes "XAmzContentSHA256Mismatch"
    ∷ codes "AuthorizationHeaderMalformed"
    ∷ codes "IllegalLocationConstraintException"
    ∷ []

-- `conservativeS3MetadataFilter`
unfoldable pub conservative_filter : MetadataKind → Bytes → Bool
unfolding known_s3_error_codes
conservative_filter metadata_code value = member value known_s3_error_codes
conservative_filter metadata_response_id value = false

-- `safeS3Error`
unfoldable pub safe_s3_error : Bytes → Cause → S3Error
safe_s3_error operation cause = safe_s3_error_with_filter operation cause (some conservative_filter)

-- `(*credentialTracker).allowsValue`; a nil tracker is `none`.
unfoldable pub allows_value : Option (List Bytes) → Bytes → Bool
allows_value none value = true
allows_value (some values) value = all (λ secret. not (contains value secret)) values

-- `s3ErrorMetadataPolicy`
pub record MetadataPolicy : Type 0 where
  pub credentials : Option (List Bytes)
  pub trusted_service_metadata : Bool

-- `(*s3ErrorMetadataPolicy).allowsS3Metadata`; a nil policy is `none`.
unfoldable pub allows_s3_metadata : Option MetadataPolicy → MetadataKind → Bytes → Bool
unfolding conservative_filter allows_value
allows_s3_metadata none kind value = false
allows_s3_metadata (some p) kind value =
    if not (allows_value p.credentials value)
    then false
    else if p.trusted_service_metadata
    then true
    else conservative_filter kind value

-- `(*credentialTracker).Retrieve`, at what the provider returned: what is tracked afterwards
unfoldable pub track : List Bytes → Bytes × Bytes × Bytes → List Bytes
track values (access_key_id, secret_access_key, session_token) =
    let add = λ (vs : List Bytes) (v : Bytes). if is_empty v then vs else v ∷ vs in
    add (add (add values access_key_id) secret_access_key) session_token
