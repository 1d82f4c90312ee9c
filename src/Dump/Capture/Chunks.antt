-- ===== src/Dump/Capture/Chunks.antt =====
-- internal/dump/runner.go: how a pipe cuts standard error into writes does not matter.
use ezdbbackup.Common.{◌≡◌, refl, ap, ◌∙◌, true, [], ◌∷◌, ◌++◌, leb, length, Bool-cases, inl, inr}
use ezdbbackup.Common.Bytes.{Bytes, is_empty}
use ezdbbackup.Dump.Capture.{Capture, set_matched, accept_byte, write_each, write}
use ezdbbackup.Dump.Capture.Stream.{accept_byte-step, emit-emit}

full_each :
    (q : Bytes) (b : Capture)
    → leb b.output.limit (length b.output.data_bytes) ≡ true
    → write_each q (set_matched 0 b) ≡ set_matched 0 b
unfolding write_each
full_each [] b h = refl
full_each (value ∷ values) b h = rw h refl

write_each-append :
    (p q : Bytes) (b : Capture) → write_each q (write_each p b) ≡ write_each (p ++ q) b
unfolding write_each
write_each-append [] q b = refl
write_each-append (value ∷ values) q b =
    elim (Bool-cases (leb b.output.limit (length b.output.data_bytes))) [
      | inl e ↦ rw e (full_each q b e)
      | inr e ↦ rw e (write_each-append values q (accept_byte value b))
    ]

write_each-secret : (p : Bytes) (b : Capture) → (write_each p b).secret ≡ b.secret
unfolding write_each
write_each-secret [] b = refl
write_each-secret (value ∷ values) b =
    elim (Bool-cases (leb b.output.limit (length b.output.data_bytes))) [
      | inl e ↦ rw e refl
      | inr e ↦ rw e (
          write_each-secret values (accept_byte value b)
          ∙ ap (λ c. c.secret) (accept_byte-step value b))
    ]

-- Two writes leave the buffer as one write of both texts does, at any bound and with any password:
-- a password that is cut in two by the writes is found like any other.
pub write-append : (p q : Bytes) (b : Capture) → write q (write p b) ≡ write (p ++ q) b
unfolding write
write-append p q b = elim (Bool-cases (is_empty b.secret)) [
  | inl e ↦ rw (e, e) (emit-emit p q b)
  | inr e ↦ rw (e, ap is_empty (write_each-secret p b), e) (write_each-append p q b)
]
