-- ===== src/Storage/Parts.antt =====
-- The requests of internal/storage/uploader.go: one object, the parts in their loop, the completion,
-- and the abort of what failed.
pub mod Tiles
pub mod Trace
use ezdbbackup.Common.{
  ℕ, zero, suc, ◌+◌, ◌-◌, ◌*◌, ◌≤◌, ◌<◌, Bool, true, false, ◌&&◌, ◌||◌, not, Option, none, some,
  List, [], ◌∷◌, ◌++◌, String, leb, ltb, ◌==◌, if◌then◌else◌, ℤ, pos, negsuc, length, Result, ok,
  err,
}
use ezdbbackup.Common.Exec.{Exec, ◌>>=◌, ◌>>◌, pure, resume}
use ezdbbackup.Common.World.{World, perform, consult}
use ezdbbackup.Common.Bytes.{Bytes, codes, is_empty, equal}
use ezdbbackup.Common.Utf8.{valid_string, has_control}
use ezdbbackup.Storage.Plan.{
  default_multipart_threshold, default_part_size, maximum_object_size, PlanError, multipart_plan,
}
use ezdbbackup.Storage.SafeError.{
  Failure, Cause, message, external, S3Error, MetadataFilter, safe_s3_error,
  safe_s3_error_with_filter,
}
use ezdbbackup.Storage.S3.{
  Section, CompletedPart, Target, Call, put_object, create_multipart_upload, upload_part,
  complete_multipart_upload, abort_multipart_upload, Completion, Client, FileUploader,
  default_abort_timeout, UploadResult, UploadError, single, joined, positive_or, safe_etag,
  safe_location, Job,
}

abbrev pub Outcome : Type 0 → Type 0 → Type 0
Outcome E A = Exec (World E Call) (Result UploadError A)

min_length : ℕ → ℕ → ℕ
min_length a b = if ltb a b then a else b

part_etag : Option Bytes → Bytes
part_etag none = []
part_etag (some etag) = safe_etag etag

module _ {E : Type 0} where
  -- `u.safeError`
  abbrev pub job_error : Job E → String → Cause → S3Error
  job_error j operation cause = safe_s3_error_with_filter (codes operation) cause j.filter

  abbrev pub fail : {A : Type 0} → Job E → String → Cause → Outcome E A
  fail j operation cause = pure (err (single (job_error j operation cause)))

  abort_result : {A : Type 0} → Job E → UploadError → Option Failure → Result UploadError A
  abort_result j primary none = err primary
  abort_result j primary (some f) =
      err (joined primary (job_error j "abort multipart upload" (external f)))

  abbrev pub abort_call : Job E → Bytes → Call
  abort_call j upload_id =
      abort_multipart_upload j.target upload_id (positive_or j.timeout default_abort_timeout)

  unfoldable pub abort : {A : Type 0} → Job E → Bytes → String → Cause → Outcome E A
  unfolding perform abort_result
  abort j upload_id operation cause = do
    answer ← perform (abort_call j upload_id) (j.client.abort (abort_call j upload_id))
    pure (abort_result j (single (job_error j operation cause)) answer)

  unfoldable pub put_result :
      Job E → Result Failure (Option Bytes) → Result UploadError UploadResult
  put_result j (err f) = err (single (job_error j "put object" (external f)))
  put_result j (ok none) =
      err (single (job_error j "put object" (message "S3 returned an empty PutObject response")))
  put_result j (ok (some etag)) = ok (record { location = []; etag = safe_etag etag })

  abbrev pub put_call : Job E → Call
  put_call j =
      put_object j.target (record { source = j.source; offset = 0; length = j.size }) j.size

  unfoldable pub put_object_whole : Job E → Outcome E UploadResult
  unfolding perform put_result
  put_object_whole j = do
    answer ← perform (put_call j) (j.client.put (put_call j))
    pure (put_result j answer)

  -- The request for the part at an index.
  unfoldable pub part_call : Job E → Bytes → ℕ → ℕ → Call
  unfolding min_length
  part_call j upload_id part_size index =
      let offset = index * part_size in
      let length = min_length part_size (j.size - offset) in
      upload_part j.target upload_id (index + 1) length
        (record { source = j.source; offset = offset; length = length })

  context_result : {A : Type 0} → Job E → Bytes → A → Option Failure → Outcome E A
  context_result j upload_id a none = pure (ok a)
  context_result j upload_id a (some f) = abort j upload_id "upload part" (external f)

  -- whether the context has ended: before the first part and after each
  pub check_context : {A : Type 0} → Job E → Bytes → A → Outcome E A
  unfolding consult context_result
  check_context j upload_id a = do
    stopped ← consult j.client.context_error
    context_result j upload_id a stopped

  accept_part : Job E → Bytes → ℕ → Bytes → Outcome E CompletedPart
  accept_part j upload_id index etag =
      if is_empty etag
      then abort j upload_id "upload part" (message "S3 returned an empty or unsafe part ETag")
      else check_context j upload_id (record { etag = etag; part_number = index + 1 })

  part_result : Job E → Bytes → ℕ → Result Failure (Option Bytes) → Outcome E CompletedPart
  unfolding accept_part part_etag
  part_result j upload_id index (err f) = abort j upload_id "upload part" (external f)
  part_result j upload_id index (ok output) = accept_part j upload_id index (part_etag output)

  -- The body of the loop over the parts.
  pub upload_one : Job E → Bytes → ℕ → ℕ → Outcome E CompletedPart
  unfolding perform part_result
  upload_one j upload_id part_size index = do
    answer ←
        perform (part_call j upload_id part_size index)
          (j.client.part (part_call j upload_id part_size index))
    part_result j upload_id index answer

  -- The loop over the parts, by the rounds that are left.
  pub upload_parts : Job E → Bytes → ℕ → ℕ → ℕ → List CompletedPart → Outcome E (List CompletedPart)
  upload_parts j upload_id part_size zero index completed = pure (ok completed)
  upload_parts j upload_id part_size (suc rounds) index completed = do
    result ← upload_one j upload_id part_size index
    resume result
        (λ part. upload_parts j upload_id part_size rounds (index + 1) (completed ++ part ∷ []))

  completion_result : Job E → Bytes → Result Failure (Option Completion) → Outcome E UploadResult
  completion_result j upload_id (err f) = abort j upload_id "complete multipart upload" (external f)
  completion_result j upload_id (ok none) =
      abort j upload_id "complete multipart upload"
        (message "S3 returned an empty completion response")
  completion_result j upload_id (ok (some c)) = pure (
      ok (record {
        location = safe_location j.client.parse_request_uri c.location;
        etag = safe_etag c.etag;
      }))

  pub complete_upload : Job E → Bytes → List CompletedPart → Outcome E UploadResult
  unfolding perform completion_result
  complete_upload j upload_id parts = do
    answer ←
        perform (complete_multipart_upload j.target upload_id parts)
          (j.client.complete (complete_multipart_upload j.target upload_id parts))
    completion_result j upload_id answer
