-- ===== src/Dump/Capture/Refines.antt =====
-- internal/dump/runner.go: what the buffer holds in the end.
use ezdbbackup.Common.{
  ℕ, ◌-◌, ◌≡◌, refl, sym, ap, ◌∙◌, List, [], ◌∷◌, ◌++◌, arith, if◌then◌else◌, take, Bool-cases, inl,
  inr,
}
use ezdbbackup.Common.Bytes.{Bytes, is_empty}
use ezdbbackup.Dump.Capture.{
  write_capped, Capture, new_capture, prefix_failure_table, write_each, write, write_pieces, finish,
}
use ezdbbackup.Dump.Capture.Capped.{capped-data, capped-nil}
use ezdbbackup.Dump.Capture.Chunks.{write-append}
use ezdbbackup.Dump.Capture.Stream.{write_each-stream}
use ezdbbackup.Dump.Capture.Table.{prefix_failure_table-IsTable}
use ezdbbackup.Dump.Capture.Reference.{redact}
use ezdbbackup.Dump.Capture.Reference.Scan.{stream-redact}

abbrev pub concat : List Bytes → Bytes
concat [] = []
concat (p ∷ ps) = p ++ concat ps

-- What may be shown of a text: all of it without a password, or the redacted text.
abbrev pub redacted_text : Bytes → Bytes → Bytes
redacted_text secret text = if is_empty secret then text else redact secret text

write-nil : (b : Capture) → write [] b ≡ b
unfolding write write_each
write-nil b = elim (Bool-cases (is_empty b.secret)) [
  | inl e ↦ rw e (ap (λ o. record b { output = o }) (capped-nil b.output))
  | inr e ↦ rw e refl
]

write_pieces-concat : (ps : List Bytes) (b : Capture) → write_pieces ps b ≡ write (concat ps) b
unfolding write_pieces
write_pieces-concat [] b = sym (write-nil b)
write_pieces-concat (p ∷ ps) b = write_pieces-concat ps (write p b) ∙ write-append p (concat ps) b

from_empty :
    (limit : ℕ) (p : Bytes)
    → (write_capped (record { limit = limit; data_bytes = [] }) p).data_bytes ≡ take limit p
from_empty limit p =
    ap (λ o. o.data_bytes) (capped-data (record { limit = limit; data_bytes = [] }) p)
    ∙ ap (λ n. take n p) (less_zero limit)
  where
    less_zero : (n : ℕ) → n - 0 ≡ n
    less_zero n = omega arith

whole-shown :
    (limit : ℕ) (secret p : Bytes)
    → (finish (write p (new_capture limit secret))).output.data_bytes
      ≡ take limit (redacted_text secret p)
unfolding write new_capture finish redact
whole-shown limit [] p = from_empty limit p
whole-shown limit (c ∷ s) p =
    ap (λ o. o.data_bytes) (write_each-stream p (new_capture limit (c ∷ s)))
    ∙ from_empty limit _
    ∙ ap (take limit) (
        stream-redact (c ∷ s) (prefix_failure_table (c ∷ s)) (prefix_failure_table-IsTable (c ∷ s))
          0 p (omega arith))

-- However standard error arrives in pieces, at the end the buffer holds the first bytes, up to its
-- limit, of the whole text in which every occurrence of the password, from the left, is replaced
-- by `[REDACTED]`, and so is a last part of the text that the password starts with.
pub capture-shown :
    (limit : ℕ) (secret : Bytes) (pieces : List Bytes)
    → (finish (write_pieces pieces (new_capture limit secret))).output.data_bytes
      ≡ take limit (redacted_text secret (concat pieces))
capture-shown limit secret pieces =
    ap (λ b. (finish b).output.data_bytes) (write_pieces-concat pieces (new_capture limit secret))
    ∙ whole-shown limit secret (concat pieces)
