-- ===== src/Storage/SafeError/Metadata.antt =====
-- No credential that the client has retrieved is in the metadata of an S3 error.
use ezdbbackup.Common.{
  ◌≡◌, refl, ◌⊎◌, inl, inr, Bool, true, false, ◌&&◌, not, Option, none, some, List, [], ◌∷◌, all,
  arith, if◌then◌else◌,
}
use ezdbbackup.Common.Bytes.{Bytes, is_empty, contains, member, equal_iff}
use ezdbbackup.Storage.SafeError.{
  Cause, message, external, S3Error, MetadataKind, metadata_code, metadata_response_id,
  safe_metadata, safe_s3_error_with_filter, allows_s3_metadata, track, safe_code_pattern,
  safe_id_pattern, kept, conservative_filter, safe_code, safe_host_id, safe_request_id,
}

not-contains_of_all :
    (value secret : Bytes) (values : List Bytes)
    → member secret values ≡ true
    → all (λ s. not (contains value s)) values ≡ true
    → contains value secret ≡ false
not-contains_of_all value secret [] m h = cc
not-contains_of_all value secret (v ∷ vs) m h =
    ground (arith, equal_iff v secret, not-contains_of_all value secret vs)

-- An empty text holds no secret, since a tracked secret is not empty.
contains-nil : (secret : Bytes) → is_empty secret ≡ false → contains [] secret ≡ false
contains-nil [] h = cc
contains-nil (c ∷ s) h = refl

policy_requires :
    (p a t k : Bool) → (p && (if not a then false else if t then true else k)) ≡ true → a ≡ true
policy_requires p a t k h = ground arith

contains-if :
    (b : Bool) (value secret : Bytes)
    → is_empty secret ≡ false
    → (b ≡ true → contains value secret ≡ false)
    → contains (if b then value else []) secret ≡ false
contains-if true value secret ne f = f refl
contains-if false value secret ne f = contains-nil secret ne

-- the policy of a client whose tracker holds the values
abbrev pub policy : List Bytes → Bool → MetadataKind → Bytes → Bool
policy values trusted =
    allows_s3_metadata
      (some (record { credentials = some values; trusted_service_metadata = trusted }))

module _ (secret : Bytes) (values : List Bytes) (trusted : Bool) (ne : is_empty secret ≡ false)
    (tracked : member secret values ≡ true) where
  contains-kept :
      (kind : MetadataKind) (value : Bytes) (pattern : Bytes → Bool)
      → contains (kept kind value pattern (some (policy values trusted))) secret ≡ false
  unfolding safe_metadata allows_s3_metadata
  contains-kept kind value pattern = contains-if _ value secret ne (λ h.
      not-contains_of_all value secret values tracked
        (policy_requires (pattern value) _ trusted (conservative_filter kind value) h))

  contains-safe_code :
      (c : Option Bytes) → contains (safe_code (some (policy values trusted)) c) secret ≡ false
  contains-safe_code none = contains-nil secret ne
  contains-safe_code (some c) = contains-kept metadata_code c safe_code_pattern

  contains-safe_request_id :
      (ids : Option (Bytes × Bytes))
      → contains (safe_request_id (some (policy values trusted)) ids) secret ≡ false
  contains-safe_request_id none = contains-nil secret ne
  contains-safe_request_id (some (r, h)) = contains-kept metadata_response_id r safe_id_pattern

  contains-safe_host_id :
      (ids : Option (Bytes × Bytes))
      → contains (safe_host_id (some (policy values trusted)) ids) secret ≡ false
  contains-safe_host_id none = contains-nil secret ne
  contains-safe_host_id (some (r, h)) = contains-kept metadata_response_id h safe_id_pattern

-- the metadata of an error that comes with a text: code, request ID and host ID
pub record HidesSecret (e : S3Error) (secret : Bytes) : Type 0 where
  pub in_code : contains e.code secret ≡ false
  pub in_request_id : contains e.request_id secret ≡ false
  pub in_host_id : contains e.host_id secret ≡ false

tracked_HidesSecret :
    (secret : Bytes) (values : List Bytes) (trusted : Bool) (operation : Bytes) (cause : Cause)
    → is_empty secret ≡ false
    → member secret values ≡ true
    → HidesSecret (safe_s3_error_with_filter operation cause (some (policy values trusted))) secret
unfolding safe_s3_error_with_filter
tracked_HidesSecret secret values trusted operation (message m) ne tracked = record {
  in_code = contains-nil secret ne;
  in_request_id = contains-nil secret ne;
  in_host_id = contains-nil secret ne;
}
tracked_HidesSecret secret values trusted operation (external f) ne tracked = record {
  in_code = contains-safe_code secret values trusted ne tracked f.api_code;
  in_request_id = contains-safe_request_id secret values trusted ne tracked f.response_ids;
  in_host_id = contains-safe_host_id secret values trusted ne tracked f.response_ids;
}

-- the values that a set of credentials holds, and those that were tracked before
abbrev pub IsTracked : Bytes → List Bytes → Bytes → Bytes → Bytes → Type 0
IsTracked secret values access_key_id secret_access_key session_token =
    (secret ≡ access_key_id)
    ⊎ (secret ≡ secret_access_key)
    ⊎ (secret ≡ session_token)
    ⊎ (member secret values ≡ true)

add_lem :
    (secret v : Bytes) (values : List Bytes)
    → is_empty secret ≡ false
    → (secret ≡ v) ⊎ (member secret values ≡ true)
    → member secret (if is_empty v then values else v ∷ values) ≡ true
add_lem secret [] values ne (inl e) = ground arith
add_lem secret (c ∷ v) values ne (inl e) = ground (arith, equal_iff (c ∷ v) secret)
add_lem secret [] values ne (inr m) = m
add_lem secret (c ∷ v) values ne (inr m) = ground arith

member-track :
    (secret : Bytes) (values : List Bytes) (a k t : Bytes)
    → is_empty secret ≡ false
    → IsTracked secret values a k t
    → member secret (track values (a, k, t)) ≡ true
unfolding track
member-track secret values a k t ne (inl e) =
    add_lem secret t _ ne (inr (add_lem secret k _ ne (inr (add_lem secret a values ne (inl e)))))
member-track secret values a k t ne (inr (inl e)) =
    add_lem secret t _ ne (inr (add_lem secret k _ ne (inl e)))
member-track secret values a k t ne (inr (inr (inl e))) = add_lem secret t _ ne (inl e)
member-track secret values a k t ne (inr (inr (inr m))) =
    add_lem secret t _ ne (inr (add_lem secret k _ ne (inr (add_lem secret a values ne (inr m)))))

-- After credentials are retrieved, no value of them that is not empty, and none of those retrieved
-- before, is contained in the code, the request ID or the host ID of an S3 error, whether the
-- endpoint is trusted or not.
pub retrieved_HidesSecret :
    (values : List Bytes) (access_key_id secret_access_key session_token : Bytes) (trusted : Bool)
    (operation : Bytes) (cause : Cause) (secret : Bytes)
    → is_empty secret ≡ false
    → IsTracked secret values access_key_id secret_access_key session_token
    → HidesSecret
        (safe_s3_error_with_filter operation cause
          (some (policy (track values (access_key_id, secret_access_key, session_token)) trusted)))
        secret
retrieved_HidesSecret values a k t trusted operation cause secret ne h =
    tracked_HidesSecret secret _ trusted operation cause ne (member-track secret values a k t ne h)
