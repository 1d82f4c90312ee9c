-- ===== src/Storage/Uploader.antt =====
-- internal/storage/uploader.go: uploads of one object or of its parts, with the abort of what failed.
pub mod Trace
pub mod Requests
pub mod Begins
use ezdbbackup.Common.{
  ℕ, zero, suc, ◌+◌, ◌-◌, ◌*◌, ◌≤◌, ◌<◌, Bool, true, false, ◌&&◌, ◌||◌, not, Option, none, some,
  List, [], ◌∷◌, ◌++◌, String, leb, ltb, ◌==◌, if◌then◌else◌, ℤ, pos, negsuc, length, Result, ok,
  err,
}
use ezdbbackup.Common.Exec.{Exec, ◌>>=◌, ◌>>◌, pure, resume}
use ezdbbackup.Common.World.{World, perform, consult}
use ezdbbackup.Common.Bytes.{Bytes, codes, is_empty, equal}
use ezdbbackup.Common.Utf8.{valid_string, has_control}
use ezdbbackup.Storage.Plan.{
  default_multipart_threshold, default_part_size, maximum_object_size, PlanError, multipart_plan,
}
use ezdbbackup.Storage.SafeError.{
  Failure, Cause, message, external, S3Error, MetadataFilter, safe_s3_error,
  safe_s3_error_with_filter,
}
use ezdbbackup.Storage.S3.{
  Section, CompletedPart, Target, Call, put_object, create_multipart_upload, upload_part,
  complete_multipart_upload, abort_multipart_upload, Completion, Client, FileUploader,
  default_abort_timeout, UploadResult, UploadError, single, joined, positive_or, safe_etag,
  safe_location, Job,
}
use ezdbbackup.Storage.Parts.{
  Outcome, job_error, fail, abort_call, abort, put_call, put_object_whole, part_call, check_context,
  upload_one, upload_parts, complete_upload,
}

uploaded_id : Option Bytes → Bytes
uploaded_id none = []
uploaded_id (some upload_id) = upload_id

plan_message : PlanError → String
plan_message PlanError.size_outside_limits = "object size is outside S3 multipart limits"
plan_message PlanError.part_size_exceeds_limit = "required multipart part size exceeds S3 limit"
plan_message PlanError.part_count_exceeds_limit = "required multipart part count exceeds S3 limit"

module _ {E : Type 0} where
  -- `multipart` from the point where the upload ID is known
  pub run_parts : Job E → Bytes → ℕ → ℕ → Outcome E UploadResult
  run_parts j upload_id part_size part_count = do
    begun ← check_context {A = Unit {0}} j upload_id tt
    resume begun (λ _. do
      parts ← upload_parts j upload_id part_size part_count 0 []
      resume parts (complete_upload j upload_id))

  created_id : Job E → ℕ → ℕ → Bytes → Outcome E UploadResult
  created_id j part_size part_count upload_id =
      if is_empty upload_id
      then fail j "create multipart upload response missing upload id"
          (message "S3 returned an empty multipart upload ID")
      else run_parts j upload_id part_size part_count

  created_result : Job E → ℕ → ℕ → Result Failure (Option Bytes) → Outcome E UploadResult
  created_result j part_size part_count (err f) = fail j "create multipart upload" (external f)
  created_result j part_size part_count (ok output) =
      created_id j part_size part_count (uploaded_id output)

  start_plan : Job E → Result PlanError (ℕ × ℕ) → Outcome E UploadResult
  start_plan j (err e) = fail j "prepare multipart upload" (message (plan_message e))
  start_plan j (ok (part_size, part_count)) = do
    created ←
        perform (create_multipart_upload j.target)
          (j.client.create (create_multipart_upload j.target))
    created_result j part_size part_count created

  pub multipart : Job E → ℤ → Outcome E UploadResult
  unfolding perform plan_message uploaded_id start_plan created_result created_id
  multipart j configured = start_plan j (multipart_plan (pos j.size) configured)

  start_upload : Job E → ℤ → ℤ → Option Failure → Outcome E UploadResult
  start_upload j threshold configured (some f) = fail j "upload object" (external f)
  start_upload j threshold configured none =
      if leb j.size (positive_or threshold default_multipart_threshold)
      then put_object_whole j
      else multipart j configured

  -- `Upload` once the uploader, the source and the size are accepted
  pub upload_job : Job E → ℤ → ℤ → Outcome E UploadResult
  unfolding consult start_upload
  upload_job j threshold configured = do
    stopped ← consult j.client.context_error
    start_upload j threshold configured stopped

  refuse : FileUploader E → String → Outcome E UploadResult
  refuse u text = pure (
      err (
        single (
          safe_s3_error_with_filter (codes "read staged object") (message text) u.metadata_filter)))

  upload_with : FileUploader E → Client E → Target → Option ℕ → ℤ → Outcome E UploadResult
  unfolding refuse
  upload_with u client target none size = refuse u "staged object reader is required"
  upload_with u client target (some source) (negsuc _) =
      refuse u "staged object size is outside S3 limits"
  upload_with u client target (some source) (pos size) =
      if ltb maximum_object_size size
      then refuse u "staged object size is outside S3 limits"
      else upload_job
          (record {
            client = client;
            filter = u.metadata_filter;
            timeout = u.abort_timeout;
            target = target;
            source = source;
            size = size;
          })
          u.multipart_threshold u.part_size

  not_configured : Outcome E UploadResult
  not_configured = pure (
      err
        (single (safe_s3_error (codes "upload object") (message "S3 uploader is not configured"))))

  upload_by : FileUploader E → Option (Client E) → Target → Option ℕ → ℤ → Outcome E UploadResult
  unfolding upload_with not_configured
  upload_by u none target source size = not_configured
  upload_by u (some client) target source size = upload_with u client target source size

  -- `(*fileUploader).Upload`; a nil uploader is `none`, and a source that is nil too.
  pub upload : Option (FileUploader E) → Target → Option ℕ → ℤ → Outcome E UploadResult
  unfolding upload_by not_configured
  upload none target source size = not_configured
  upload (some u) target source size = upload_by u u.client target source size
