-- ===== src/Storage/Parts/Trace.antt =====
-- internal/storage/uploader.go: the loop over the parts, its requests and its results.
use mathlib.Core.Path.{subst}
use ezdbbackup.Common.{
  ℕ, zero, suc, ◌+◌, ◌<◌, ◌≡◌, refl, sym, ap, ◌∙◌, false, Option, none, some, List, [], ◌∷◌, ◌++◌,
  append_assoc, append-nil, String, Result, ok, err, arith,
}
use ezdbbackup.Common.Exec.{resume}
use ezdbbackup.Common.World.{World}
use ezdbbackup.Common.Bytes.{Bytes, is_empty}
use ezdbbackup.Storage.SafeError.{Failure, Cause}
use ezdbbackup.Storage.S3.{
  Call, CompletedPart, Completion, UploadError, UploadResult, Job, complete_multipart_upload,
  safe_etag, safe_location,
}
use ezdbbackup.Storage.Parts.{
  abort_call, abort, abort_result, context_result, check_context, accept_part, part_result,
  part_etag, part_call, upload_one, upload_parts, completion_result, complete_upload,
}

abbrev pub IsErr : {X A : Type 0} → Result X A → Type 0
IsErr (ok _) = ⊥
IsErr (err _) = Unit

-- S3 has answered with an ETag, and this is it, as far as `safeETag` passes it on, and not empty.
abbrev pub Tagged : Result Failure (Option Bytes) → Bytes → Type 0
Tagged (err _) tag = ⊥
Tagged (ok none) tag = ⊥
Tagged (ok (some etag)) tag = (tag ≡ safe_etag etag) × (is_empty tag ≡ false)

module _ {E : Type 0} (j : Job E) (id : Bytes) where
  -- The call failed, and the last request is the abort of the upload, behind `made`.
  pub record Aborted {A : Type 0} (before made : List Call)
      (r : Result UploadError A × World E Call) : Type 0 where
    pub fails : IsErr r.0
    pub aborts : r.1.calls ≡ before ++ (made ++ abort_call j id ∷ [])

  pub Aborted-append :
      {A : Type 0} {r : Result UploadError A × World E Call} (before made more : List Call)
      → Aborted (before ++ made) more r
      → Aborted before (made ++ more) r
  Aborted-append before made more a = record {
    fails = a.fails;
    aborts =
        rw a.aborts
          (append_assoc before made _ ∙ ap (λ l. before ++ l) (sym (append_assoc made more _)));
  }

  pub Aborted-subst :
      {A : Type 0} {r : Result UploadError A × World E Call} {before before' made : List Call}
      → before ≡ before'
      → Aborted before made r
      → Aborted before' made r
  Aborted-subst {made = made} c a = record {
    fails = a.fails;
    aborts = a.aborts ∙ ap (λ l. l ++ (made ++ abort_call j id ∷ [])) c;
  }

  abort_result-Aborted :
      {A : Type 0} (primary : UploadError) (o : Option Failure) (before : List Call) (e : E)
      → Aborted {A = A} before []
          (abort_result j primary o, record { env = e; calls = before ++ abort_call j id ∷ [] })
  unfolding abort_result
  abort_result-Aborted primary none before e = record { fails = tt; aborts = refl }
  abort_result-Aborted primary (some f) before e = record { fails = tt; aborts = refl }

  pub abort-Aborted :
      {A : Type 0} (operation : String) (c : Cause) (w : World E Call)
      → Aborted {A = A} w.calls [] (abort j id operation c w)
  unfolding abort
  abort-Aborted operation c w =
      let (o, e) = j.client.abort (abort_call j id) w.env in abort_result-Aborted _ o w.calls e

  pub data Checked {A : Type 0} (a : A) (before : List Call) (after : E)
      (r : Result UploadError A × World E Call) : Type 0 where
    goes_on : r.0 ≡ ok a → r.1.calls ≡ before → r.1.env ≡ after → Checked a before after r
    stopped : Aborted before [] r → Checked a before after r

  context_result-Checked :
      {A : Type 0} (a : A) (o : Option Failure) (w : World E Call)
      → Checked a w.calls w.env (context_result j id a o w)
  unfolding context_result
  context_result-Checked a none w = goes_on refl refl refl
  context_result-Checked a (some f) w = stopped (abort-Aborted _ _ w)

  pub check_context-Checked :
      {A : Type 0} (a : A) (w : World E Call)
      → Checked a w.calls (j.client.context_error w.env).1 (check_context j id a w)
  unfolding check_context
  check_context-Checked a w =
      let (o, e) = j.client.context_error w.env in
      context_result-Checked a o (record { env = e; calls = w.calls })

  -- One part: it is uploaded with its number and the ETag of S3's answer, or the upload is aborted.
  pub data PartTrace (part_size index : ℕ) (before : List Call)
      (answer : Result Failure (Option Bytes)) (after : E)
      (r : Result UploadError CompletedPart × World E Call) : Type 0 where
    uploaded :
        (p : CompletedPart)
        → r.0 ≡ ok p
        → p.part_number ≡ index + 1
        → Tagged answer p.etag
        → r.1.calls ≡ before ++ part_call j id part_size index ∷ []
        → r.1.env ≡ after
        → PartTrace part_size index before answer after r
    given_up :
        Aborted before (part_call j id part_size index ∷ []) r
        → PartTrace part_size index before answer after r

  module _ (part_size index : ℕ) (before : List Call) (answer : Result Failure (Option Bytes)) where
    abbrev behind : List Call
    behind = before ++ part_call j id part_size index ∷ []

    give_up :
        {after : E} {r : Result UploadError CompletedPart × World E Call}
        → Aborted behind [] r
        → PartTrace part_size index before answer after r
    give_up a = given_up (Aborted-append before (part_call j id part_size index ∷ []) [] a)

    Checked-part :
        (p : CompletedPart) (after : E)
        → p.part_number ≡ index + 1
        → Tagged answer p.etag
        → (r : Result UploadError CompletedPart × World E Call) → Checked p behind after r
        → PartTrace part_size index before answer after r
    Checked-part p after n t r (goes_on e c f) = uploaded p e n t c f
    Checked-part p after n t r (stopped a) = give_up a

    accept_part-trace :
        (tag : Bytes) (e : E)
        → (is_empty tag ≡ false → Tagged answer tag)
        → PartTrace part_size index before answer
            (j.client.context_error e).1
            (accept_part j id index tag (record { env = e; calls = behind }))
    unfolding accept_part
    accept_part-trace [] e t = give_up (abort-Aborted _ _ _)
    accept_part-trace (c ∷ cs) e t =
        Checked-part (record { etag = c ∷ cs; part_number = index + 1 }) _ refl (t refl) _
          (check_context-Checked _ _)

  part_result-trace :
      (part_size index : ℕ) (before : List Call) (answer : Result Failure (Option Bytes)) (e : E)
      → PartTrace part_size index before answer (j.client.context_error e).1 (
          part_result j id index answer
            (record { env = e; calls = before ++ part_call j id part_size index ∷ [] }))
  unfolding part_result part_etag
  part_result-trace part_size index before (err f) e =
      give_up part_size index before (err f) (abort-Aborted _ _ _)
  part_result-trace part_size index before (ok none) e =
      accept_part-trace part_size index before (ok none) [] e (λ h. absurd cc)
  part_result-trace part_size index before (ok (some etag)) e =
      accept_part-trace part_size index before (ok (some etag)) (safe_etag etag) e (λ h. (refl, h))

  -- The environment behind the request for a part and the look at the context.
  abbrev pub after_part : ℕ → ℕ → E → E
  after_part part_size index e =
      (j.client.context_error (j.client.part (part_call j id part_size index) e).1).1

  pub upload_one-trace :
      (part_size index : ℕ) (w : World E Call)
      → PartTrace part_size index w.calls
          (j.client.part (part_call j id part_size index) w.env).0
          (after_part part_size index w.env)
          (upload_one j id part_size index w)
  unfolding upload_one
  upload_one-trace part_size index w =
      let (a, e) = j.client.part (part_call j id part_size index) w.env in
      part_result-trace part_size index w.calls a e

  -- The requests for `n` parts from an index on.
  abbrev pub planned : ℕ → ℕ → ℕ → List Call
  planned part_size index zero = []
  planned part_size index (suc n) = part_call j id part_size index ∷ planned part_size (index + 1) n

  -- `n` parts, numbered upwards behind an index, with the ETags that S3 gives for them in turn.
  abbrev pub Numbered : ℕ → E → ℕ → ℕ → List CompletedPart → Type 0
  Numbered part_size e index zero [] = Unit
  Numbered part_size e index zero (_ ∷ _) = ⊥
  Numbered part_size e index (suc n) [] = ⊥
  Numbered part_size e index (suc n) (p ∷ ps) =
      (p.part_number ≡ index + 1)
      × Tagged (j.client.part (part_call j id part_size index) e).0 p.etag
      × Numbered part_size (after_part part_size index e) (index + 1) n ps

  pub data LoopTrace (part_size rounds index : ℕ) (completed : List CompletedPart)
      (before : List Call) (start : E) (r : Result UploadError (List CompletedPart) × World E Call)
      : Type 0 where
    all_uploaded :
        (ps : List CompletedPart)
        → r.0 ≡ ok (completed ++ ps)
        → Numbered part_size start index rounds ps
        → r.1.calls ≡ before ++ planned part_size index rounds
        → LoopTrace part_size rounds index completed before start r
    broke_off :
        (k : ℕ)
        → k < rounds
        → Aborted before (planned part_size index (suc k)) r
        → LoopTrace part_size rounds index completed before start r

  module _ (part_size rounds index : ℕ) (completed : List CompletedPart) (before : List Call)
      (start : E) where
    abbrev rest :
        CompletedPart → World E Call → Result UploadError (List CompletedPart) × World E Call
    rest part = upload_parts j id part_size rounds (index + 1) (completed ++ part ∷ [])

    extend :
        (p : CompletedPart) (w : World E Call)
        → p.part_number ≡ index + 1
        → Tagged (j.client.part (part_call j id part_size index) start).0 p.etag
        → w.calls ≡ before ++ part_call j id part_size index ∷ []
        → w.env ≡ after_part part_size index start
        → LoopTrace part_size rounds (index + 1) (completed ++ p ∷ []) w.calls w.env (rest p w)
        → LoopTrace part_size (suc rounds) index completed before start (rest p w)
    extend p w n t c f (all_uploaded ps e h d) =
        all_uploaded (p ∷ ps) (e ∙ ap ok (append_assoc completed (p ∷ []) ps))
          (n, t, subst (λ x. Numbered part_size x (index + 1) rounds ps) f h)
          (d ∙ rw c (append_assoc before _ _))
    extend p w n t c f (broke_off k lt a) =
        broke_off (suc k) (omega arith)
          (Aborted-append before (part_call j id part_size index ∷ []) _ (Aborted-subst c a))

    loop_step :
        (res : Result UploadError CompletedPart) (w : World E Call)
        → PartTrace part_size index before
            (j.client.part (part_call j id part_size index) start).0
            (after_part part_size index start)
            (res, w)
        → ((p : CompletedPart)
            → LoopTrace part_size rounds (index + 1) (completed ++ p ∷ []) w.calls w.env (rest p w))
        → LoopTrace part_size (suc rounds) index completed before start (resume res rest w)
    loop_step (ok p) w (uploaded q e n t c f) ih =
        let same : p ≡ q = cc in extend p w (rw same n) (rw same t) c f (ih p)
    loop_step (ok p) w (given_up a) ih = absurd a.fails
    loop_step (err x) w (uploaded q e n t c f) ih = absurd (cc)
    loop_step (err x) w (given_up a) ih =
        broke_off zero (omega arith) (record { fails = tt; aborts = a.aborts })

  pub upload_parts-trace :
      (part_size rounds index : ℕ) (completed : List CompletedPart) (w : World E Call)
      → LoopTrace part_size rounds index completed w.calls w.env
          (upload_parts j id part_size rounds index completed w)
  unfolding upload_parts
  upload_parts-trace part_size zero index completed w =
      all_uploaded [] (ap ok (sym (append-nil completed))) tt (sym (append-nil w.calls))
  upload_parts-trace part_size (suc rounds) index completed w =
      let (r, w') = upload_one j id part_size index w in
      loop_step part_size rounds index completed w.calls w.env r w'
        (upload_one-trace part_size index w)
        (λ p. upload_parts-trace part_size rounds (index + 1) (completed ++ p ∷ []) w')

  -- S3 has answered to the completion, and this is the result with its location and its ETag.
  pub record Concluded (parts : List CompletedPart) (u : UploadResult) : Type 0 where
    pub asked_in : E
    pub completion : Completion
    pub answered :
        (j.client.complete (complete_multipart_upload j.target id parts) asked_in).0
        ≡ ok (some completion)
    pub etag_of : u.etag ≡ safe_etag completion.etag
    pub location_of : u.location ≡ safe_location j.client.parse_request_uri completion.location

  -- The completion: it is requested last, or it fails and the upload is aborted.
  pub data EndTrace (parts : List CompletedPart) (before : List Call)
      (r : Result UploadError UploadResult × World E Call) : Type 0 where
    finished :
        (u : UploadResult)
        → r.0 ≡ ok u
        → Concluded parts u
        → r.1.calls ≡ before ++ complete_multipart_upload j.target id parts ∷ []
        → EndTrace parts before r
    undone :
        Aborted before (complete_multipart_upload j.target id parts ∷ []) r
        → EndTrace parts before r

  completion_result-trace :
      (parts : List CompletedPart) (before : List Call)
      (answer : Result Failure (Option Completion)) (start e : E)
      → (j.client.complete (complete_multipart_upload j.target id parts) start).0 ≡ answer
      → EndTrace parts before (
          completion_result j id answer (record {
            env = e;
            calls = before ++ complete_multipart_upload j.target id parts ∷ [];
          }))
  unfolding completion_result
  completion_result-trace parts before (err f) start e h =
      undone (Aborted-append before _ [] (abort-Aborted _ _ _))
  completion_result-trace parts before (ok none) start e h =
      undone (Aborted-append before _ [] (abort-Aborted _ _ _))
  completion_result-trace parts before (ok (some c)) start e h =
      finished _ refl
        (record {
          asked_in = start;
          completion = c;
          answered = h;
          etag_of = refl;
          location_of = refl;
        })
        refl

  pub complete_upload-trace :
      (parts : List CompletedPart) (w : World E Call)
      → EndTrace parts w.calls (complete_upload j id parts w)
  unfolding complete_upload
  complete_upload-trace parts w =
      let (a, e) = j.client.complete (complete_multipart_upload j.target id parts) w.env in
      completion_result-trace parts w.calls a w.env e refl
