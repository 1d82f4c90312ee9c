-- ===== src/Storage/Uploader/Trace.antt =====
-- internal/storage/uploader.go: the requests of one multipart upload and their order.
use mathlib.Core.Path.{subst}
use ezdbbackup.Common.{
  ℕ, zero, suc, ◌≤◌, ◌≡◌, refl, ◌∙◌, ◌⊎◌, inl, inr, true, false, Option, none, some, List, [], ◌∷◌,
  ◌++◌, append_assoc, Result, ok, err, arith, ℤ, pos,
}
use ezdbbackup.Common.Exec.{◌>>=◌, resume}
use ezdbbackup.Common.World.{World, perform}
use ezdbbackup.Common.Bytes.{Bytes, is_empty}
use ezdbbackup.Storage.Plan.{PlanError, multipart_plan}
use ezdbbackup.Storage.SafeError.{Failure}
use ezdbbackup.Storage.S3.{
  Call, CompletedPart, UploadError, UploadResult, Job, create_multipart_upload,
  complete_multipart_upload,
}
use ezdbbackup.Storage.Parts.{check_context, upload_parts, complete_upload}
use ezdbbackup.Storage.Parts.Trace.{
  IsErr, Aborted, Aborted-append, Aborted-subst, Checked, goes_on, stopped, check_context-Checked,
  planned, Numbered, Concluded, LoopTrace, all_uploaded, broke_off, upload_parts-trace, EndTrace,
  finished, undone, complete_upload-trace,
}
use ezdbbackup.Storage.Uploader.{
  run_parts, created_id, created_result, start_plan, multipart, uploaded_id,
}

-- The upload ID in S3's answer to the creation, or the empty text.
abbrev pub answered_id : Result Failure (Option Bytes) → Bytes
answered_id (err _) = []
answered_id (ok none) = []
answered_id (ok (some id)) = id

module _ {E : Type 0} (j : Job E) where
  -- From the creation on, with its upload ID and the plan; the parts begin in the environment `begun`.
  pub data RunTrace (id : Bytes) (part_size part_count : ℕ) (before : List Call) (begun : E)
      (r : Result UploadError UploadResult × World E Call) : Type 0 where
    aborted :
        (k : ℕ)
        → k ≤ part_count
        → Aborted j id before (planned j id part_size 0 k) r
        → RunTrace id part_size part_count before begun r
    not_completed :
        (parts : List CompletedPart)
        → Numbered j id part_size begun 0 part_count parts
        → Aborted j id before
            (planned j id part_size 0 part_count
              ++ complete_multipart_upload j.target id parts ∷ [])
            r
        → RunTrace id part_size part_count before begun r
    completed :
        (u : UploadResult) (parts : List CompletedPart)
        → r.0 ≡ ok u
        → Concluded j id parts u
        → Numbered j id part_size begun 0 part_count parts
        → r.1.calls
          ≡ before
            ++ (planned j id part_size 0 part_count
                ++ complete_multipart_upload j.target id parts ∷ [])
        → RunTrace id part_size part_count before begun r

  module _ (id : Bytes) (part_size part_count : ℕ) (before : List Call) (begun : E) where
    end_step :
        (parts : List CompletedPart) (w : World E Call)
        → Numbered j id part_size begun 0 part_count parts
        → w.calls ≡ before ++ planned j id part_size 0 part_count
        → (r : Result UploadError UploadResult × World E Call) → EndTrace j id parts w.calls r
        → RunTrace id part_size part_count before begun r
    end_step parts w n c r (finished u e g d) =
        completed u parts e g n (d ∙ rw c (append_assoc before _ _))
    end_step parts w n c r (undone a) =
        not_completed parts n (Aborted-append j id before _ _ (Aborted-subst j id c a))

    parts_step :
        (res : Result UploadError (List CompletedPart)) (w : World E Call)
        → LoopTrace j id part_size part_count 0 [] before begun (res, w)
        → RunTrace id part_size part_count before begun (resume res (complete_upload j id) w)
    parts_step (ok parts) w (all_uploaded ps e n c) =
        let same : parts ≡ ps = cc in
        end_step parts w (rw same n) c _ (complete_upload-trace j id parts w)
    parts_step (ok parts) w (broke_off k lt a) = absurd a.fails
    parts_step (err x) w (all_uploaded ps e n c) = absurd (cc)
    parts_step (err x) w (broke_off k lt a) =
        aborted (suc k) (omega arith) (record { fails = tt; aborts = a.aborts })

    abbrev go_on : Unit {0} → World E Call → Result UploadError UploadResult × World E Call
    go_on _ =
        upload_parts j id part_size part_count 0 [] >>= λ parts. resume parts (complete_upload j id)

    begun_step :
        (res : Result UploadError (Unit {0})) (w : World E Call)
        → Checked j id tt before begun (res, w)
        → RunTrace id part_size part_count before begun (resume res go_on w)
    begun_step (ok u) w (goes_on e c f) =
        let (res, w') = upload_parts j id part_size part_count 0 [] w in
        parts_step res w' (
          subst (λ b. LoopTrace j id part_size part_count 0 [] b begun (res, w')) c
            (subst (λ x. LoopTrace j id part_size part_count 0 [] w.calls x (res, w')) f
              (upload_parts-trace j id part_size part_count 0 [] w)))
    begun_step (ok u) w (stopped a) = absurd a.fails
    begun_step (err x) w (goes_on e c f) = absurd (cc)
    begun_step (err x) w (stopped a) =
        aborted zero (omega arith) (record { fails = tt; aborts = a.aborts })

  run_parts-trace :
      (id : Bytes) (part_size part_count : ℕ) (w : World E Call)
      → RunTrace id part_size part_count w.calls
          (j.client.context_error w.env).1
          (run_parts j id part_size part_count w)
  unfolding run_parts
  run_parts-trace id part_size part_count w =
      let (res, w') = check_context j id tt w in
      begun_step id part_size part_count w.calls _ res w' (check_context-Checked j id tt w)

  abbrev create_call : Call
  create_call = create_multipart_upload j.target

  -- The whole of a multipart upload that starts in `w`.
  pub data MultipartTrace (configured : ℤ) (w : World E Call)
      (r : Result UploadError UploadResult × World E Call) : Type 0 where
    refused :
        (e : PlanError)
        → multipart_plan (pos j.size) configured ≡ err e
        → IsErr r.0
        → r.1.calls ≡ w.calls
        → MultipartTrace configured w r
    not_created :
        is_empty (answered_id (j.client.create create_call w.env).0) ≡ true
        → IsErr r.0
        → r.1.calls ≡ w.calls ++ create_call ∷ []
        → MultipartTrace configured w r
    created :
        (part_size part_count : ℕ)
        → multipart_plan (pos j.size) configured ≡ ok (part_size, part_count)
        → is_empty (answered_id (j.client.create create_call w.env).0) ≡ false
        → RunTrace
            (answered_id (j.client.create create_call w.env).0)
            part_size
            part_count
            (w.calls ++ create_call ∷ [])
            (j.client.context_error (j.client.create create_call w.env).1).1
            r
        → MultipartTrace configured w r

  created_id-trace :
      (part_size part_count : ℕ) (id : Bytes) (w : World E Call)
      → ((is_empty id ≡ true)
          × IsErr (created_id j part_size part_count id w).0
          × ((created_id j part_size part_count id w).1.calls ≡ w.calls))
        ⊎ ((is_empty id ≡ false)
            × RunTrace id part_size part_count w.calls
                (j.client.context_error w.env).1
                (created_id j part_size part_count id w))
  unfolding created_id
  created_id-trace ps n [] w = inl (refl, tt, refl)
  created_id-trace ps n (c ∷ cs) w = inr (refl, run_parts-trace (c ∷ cs) ps n w)

  created_result-trace :
      (part_size part_count : ℕ) (answer : Result Failure (Option Bytes)) (w : World E Call)
      → ((is_empty (answered_id answer) ≡ true)
          × IsErr (created_result j part_size part_count answer w).0
          × ((created_result j part_size part_count answer w).1.calls ≡ w.calls))
        ⊎ ((is_empty (answered_id answer) ≡ false)
            × RunTrace
                (answered_id answer)
                part_size
                part_count
                w.calls
                (j.client.context_error w.env).1
                (created_result j part_size part_count answer w))
  unfolding created_result uploaded_id
  created_result-trace ps n (err f) w = inl (refl, tt, refl)
  created_result-trace ps n (ok none) w = created_id-trace ps n [] w
  created_result-trace ps n (ok (some id)) w = created_id-trace ps n id w

  start_plan-trace :
      (configured : ℤ) (w : World E Call) (plan : Result PlanError (ℕ × ℕ))
      → multipart_plan (pos j.size) configured ≡ plan
      → MultipartTrace configured w (start_plan j plan w)
  unfolding start_plan perform
  start_plan-trace configured w (err e) p = refused e p tt refl
  start_plan-trace configured w (ok (ps, n)) p =
      elim (created_result-trace ps n (j.client.create create_call w.env).0 (record {
        env = (j.client.create create_call w.env).1;
        calls = w.calls ++ create_call ∷ [];
      })) [ inl (t, e, c) ↦ not_created t e c | inr (t, r) ↦ created ps n p t r ]

  -- Every multipart upload makes its requests in one of these ways, whatever the answers are: it is
  -- refused before any request, if there is no plan; it stops behind the creation, with an error, if
  -- S3 gives no upload ID; or, under the plan and the upload ID that S3 gave, it requests the first
  -- parts of the plan in order and then aborts, with an error; or all parts and the completion and
  -- then aborts, with an error; or all parts and then the completion with the parts numbered from
  -- 1, each with the ETag of S3's answer for it as far as it is passed on, not empty, and succeeds with the
  -- location and the ETag of S3's answer to the completion, as far as these are passed on. So no upload that S3 has created is left behind with neither a
  -- completion nor an abort requested.
  pub multipart-trace :
      (configured : ℤ) (w : World E Call) → MultipartTrace configured w (multipart j configured w)
  unfolding multipart
  multipart-trace configured w = start_plan-trace configured w _ refl
