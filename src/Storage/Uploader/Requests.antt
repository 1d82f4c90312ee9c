-- ===== src/Storage/Uploader/Requests.antt =====
-- When `Upload` refuses what it is given.
use ezdbbackup.Common.{
  ℕ, ◌<◌, ◌≡◌, refl, ◌⊎◌, inl, inr, Option, none, some, Result, ℤ, pos, negsuc, lt→ltb,
}
use ezdbbackup.Common.World.{World}
use ezdbbackup.Storage.Plan.{maximum_object_size}
use ezdbbackup.Storage.S3.{Call, Client, FileUploader, Target, UploadResult, UploadError}
use ezdbbackup.Storage.Parts.Trace.{IsErr}
use ezdbbackup.Storage.Uploader.{upload, upload_by, upload_with}

-- No source, or a size that S3 does not take.
abbrev pub IsInvalid : Option ℕ → ℤ → Type 0
IsInvalid none size = Unit
IsInvalid (some source) (negsuc _) = Unit
IsInvalid (some source) (pos n) = maximum_object_size < n

module _ {E : Type 0} where
  -- a nil uploader, or one with no client
  abbrev pub IsUnconfigured : Option (FileUploader E) → Type 0
  IsUnconfigured none = Unit
  IsUnconfigured (some u) = u.client ≡ none

  -- The call failed and has changed nothing outside.
  abbrev pub Refuses : World E Call → Result UploadError UploadResult × World E Call → Type 0
  Refuses w r = IsErr r.0 × (r.1 ≡ w)

  upload_with-Refuses :
      (u : FileUploader E) (c : Client E) (target : Target) (source : Option ℕ) (size : ℤ)
      (w : World E Call)
      → IsInvalid source size
      → Refuses w (upload_with u c target source size w)
  unfolding upload_with
  upload_with-Refuses u c target none size w h = (tt, refl)
  upload_with-Refuses u c target (some source) (negsuc _) w h = (tt, refl)
  upload_with-Refuses u c target (some source) (pos n) w h = rw (lt→ltb _ _ h) (tt, refl)

  upload_by-Refuses :
      (u : FileUploader E) (c : Option (Client E)) (target : Target) (source : Option ℕ) (size : ℤ)
      (w : World E Call)
      → (c ≡ none) ⊎ IsInvalid source size
      → Refuses w (upload_by u c target source size w)
  unfolding upload_by
  upload_by-Refuses u none target source size w h = (tt, refl)
  upload_by-Refuses u (some c) target source size w (inl e) = absurd (cc)
  upload_by-Refuses u (some c) target source size w (inr h) =
      upload_with-Refuses u c target source size w h

  -- A nil uploader, client or source and a size below 0 or above S3's maximum are refused with an
  -- error, before any request and before the context is asked.
  pub upload-Refuses :
      (u : Option (FileUploader E)) (target : Target) (source : Option ℕ) (size : ℤ)
      (w : World E Call)
      → IsUnconfigured u ⊎ IsInvalid source size
      → Refuses w (upload u target source size w)
  unfolding upload upload_by
  upload-Refuses none target source size w h = (tt, refl)
  upload-Refuses (some u) target source size w h =
      upload_by-Refuses u u.client target source size w h
