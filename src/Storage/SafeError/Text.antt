-- ===== src/Storage/SafeError/Text.antt =====
-- The text of an S3 error holds printable ASCII alone, whatever the error carries.
use ezdbbackup.Common.{
  ℕ, ◌≤◌, ◌≡◌, refl, inl, inr, Bool, true, false, List, [], ◌∷◌, ◌++◌, All, All-append, all, arith,
  Bool-cases, if◌then◌else◌,
}
use ezdbbackup.Common.Bytes.{Bytes, codes, join, itoa-All, is_empty}
use ezdbbackup.Storage.SafeError.{
  S3Error, matches_pattern, safe_operation_pattern, safe_code_pattern, safe_id_pattern,
  error_fields, s3_error_text, when,
}

-- From the space to the tilde: no control, no line break, no byte above ASCII.
abbrev pub IsPrintable : ℕ → Type 0
IsPrintable c = (32 ≤ c) × (c ≤ 126)

all-All :
    (p : ℕ → Bool)
    → ((c : ℕ) → p c ≡ true → IsPrintable c)
    → (s : Bytes) → all p s ≡ true
    → All IsPrintable s
all-All p f [] h = tt
all-All p f (c ∷ cs) h = (f c (ground arith), all-All p f cs (ground arith))

matches_pattern-All :
    (first rest : ℕ → Bool) (max : ℕ)
    → ((c : ℕ) → first c ≡ true → IsPrintable c)
    → ((c : ℕ) → rest c ≡ true → IsPrintable c)
    → (s : Bytes) → matches_pattern first rest max s ≡ true
    → All IsPrintable s
matches_pattern-All first rest max f r [] h = tt
matches_pattern-All first rest max f r (c ∷ cs) h =
    (f c (ground arith), all-All rest r cs (ground arith))

operation-All : (s : Bytes) → safe_operation_pattern s ≡ true → All IsPrintable s
unfolding safe_operation_pattern
operation-All = matches_pattern-All _ _ _ (λ c h. ground arith) (λ c h. ground arith)

code-All : (s : Bytes) → safe_code_pattern s ≡ true → All IsPrintable s
unfolding safe_code_pattern
code-All = matches_pattern-All _ _ _ (λ c h. ground arith) (λ c h. ground arith)

id-All : (s : Bytes) → safe_id_pattern s ≡ true → All IsPrintable s
unfolding safe_id_pattern
id-All = matches_pattern-All _ _ _ (λ c h. ground arith) (λ c h. ground arith)

labelled :
    (label s : Bytes) → All IsPrintable label → All IsPrintable s → All IsPrintable (label ++ s)
labelled label s h k = All-append IsPrintable label s h k

when-All :
    (b : Bool) (text : Bytes)
    → (b ≡ true → All IsPrintable text)
    → All (All IsPrintable) (when b text)
when-All true text f = (f refl, tt)
when-All false text f = tt

join-All :
    (sep : Bytes)
    → All IsPrintable sep
    → (l : List Bytes) → All (All IsPrintable) l
    → All IsPrintable (join sep l)
join-All sep h [] k = tt
join-All sep h (x ∷ []) k = k.0
join-All sep h (x ∷ y ∷ ys) k = labelled x _ k.0 (labelled sep _ h (join-All sep h (y ∷ ys) k.1))

error_fields-All : (e : S3Error) → All (All IsPrintable) (error_fields e)
unfolding error_fields
error_fields-All e =
    All-append (All IsPrintable) _ _
      (when-All _ _ (λ h. labelled (codes "code=") _ (omega arith) (code-All e.code h)))
      (All-append (All IsPrintable) _ _
        (when-All _ _ (λ h.
          labelled (codes "status=") _ (omega arith)
            (itoa-All IsPrintable (λ n h. omega arith) e.status)))
        (All-append (All IsPrintable) _ _
          (when-All _ _
            (λ h. labelled (codes "request_id=") _ (omega arith) (id-All e.request_id h)))
          (when-All _ _ (λ h. labelled (codes "host_id=") _ (omega arith) (id-All e.host_id h)))))

operation_or_default :
    (s : Bytes) → All IsPrintable (if safe_operation_pattern s then s else codes "operation")
operation_or_default s = elim (Bool-cases (safe_operation_pattern s)) [
  | inl h ↦ rw h (operation-All s h)
  | inr h ↦ rw h (omega arith)
]

with_fields :
    (text : Bytes) (fields : List Bytes)
    → All IsPrintable text
    → All (All IsPrintable) fields
    → All IsPrintable (
        if is_empty fields
        then text
        else text ++ (codes " (" ++ (join (codes ", ") fields ++ codes ")")))
with_fields text [] h k = h
with_fields text (f ∷ fs) h k = labelled text _ h (
    labelled (codes " (") _ (omega arith)
      (labelled _ (codes ")") (join-All (codes ", ") (omega arith) (f ∷ fs) k) (omega arith)))

-- Every byte of the text of an S3 error is printable ASCII, whatever operation, code, status and
-- identifiers the error holds.
pub s3_error_text-IsPrintable : (e : S3Error) → All IsPrintable (s3_error_text e)
unfolding s3_error_text
s3_error_text-IsPrintable e =
    with_fields _ (error_fields e)
      (labelled (codes "S3 ") _ (omega arith)
        (labelled _ (codes " failed") (operation_or_default e.operation) (omega arith)))
      (error_fields-All e)
