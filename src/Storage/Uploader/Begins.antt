-- ===== src/Storage/Uploader/Begins.antt =====
-- internal/storage/uploader.go: how an upload that is accepted begins, by the context and the size.
use ezdbbackup.Common.{ℕ, ◌≤◌, ◌<◌, ◌≡◌, Option, none, some, [], ◌∷◌, ◌++◌, Result, ok, err, ℤ}
use ezdbbackup.Common.World.{World}
use ezdbbackup.Common.Bytes.{Bytes}
use ezdbbackup.Storage.Plan.{default_multipart_threshold}
use ezdbbackup.Storage.SafeError.{Failure}
use ezdbbackup.Storage.S3.{
  Call, Client, FileUploader, Target, Job, UploadResult, UploadError, positive_or, safe_etag,
}
use ezdbbackup.Storage.Parts.{put_call}
use ezdbbackup.Storage.Parts.Trace.{IsErr}
use ezdbbackup.Storage.Uploader.Trace.{MultipartTrace}

-- What S3's answer to the request for a whole object makes of the result.
abbrev pub PutAnswered : Result Failure (Option Bytes) → Result UploadError UploadResult → Type 0
PutAnswered (err _) r = IsErr r
PutAnswered (ok none) r = IsErr r
PutAnswered (ok (some etag)) r = r ≡ ok (record { location = []; etag = safe_etag etag })

module _ {E : Type 0} where
  -- the world behind the look at the context
  abbrev pub looked : Client E → World E Call → World E Call
  looked c w = record { env = (c.context_error w.env).1; calls = w.calls }

  -- An upload of a job, with the threshold and the part size that are configured.
  pub data IsUpload (j : Job E) (threshold configured : ℤ) (w : World E Call)
      (r : Result UploadError UploadResult × World E Call) : Type 0 where
    cancelled :
        (f : Failure)
        → (j.client.context_error w.env).0 ≡ some f
        → IsErr r.0
        → r.1.calls ≡ w.calls
        → IsUpload j threshold configured w r
    whole :
        (j.client.context_error w.env).0 ≡ none
        → j.size ≤ positive_or threshold default_multipart_threshold
        → r.1.calls ≡ w.calls ++ put_call j ∷ []
        → PutAnswered (j.client.put (put_call j) (looked j.client w).env).0 r.0
        → IsUpload j threshold configured w r
    in_parts :
        (j.client.context_error w.env).0 ≡ none
        → positive_or threshold default_multipart_threshold < j.size
        → MultipartTrace j configured (looked j.client w) r
        → IsUpload j threshold configured w r

  -- the job of an uploader with a client
  abbrev pub job_of : FileUploader E → Client E → Target → ℕ → ℕ → Job E
  job_of u c target source size = record {
    client = c;
    filter = u.metadata_filter;
    timeout = u.abort_timeout;
    target = target;
    source = source;
    size = size;
  }
