-- ===== src/Terminal/Bounded.antt =====
-- internal/terminal/encode.go: the length of an encoded text.
use ezdbbackup.Common.{
  ℕ, zero, suc, ◌+◌, ◌-◌, ◌≤◌, [], ◌∷◌, arith, ltb, ltb-false→le, length, length-append, Bool-cases,
  inl, inr,
}
use ezdbbackup.Common.Bytes.{Bytes}
use ezdbbackup.Terminal.{encode_from, encoded_token, encode}

from-bounded :
    (skip used : ℕ) (value : Bytes)
    → used ≤ 4082
    → used + length (encode_from skip used value) ≤ 4096
unfolding encode_from
from-bounded skip used [] h = omega (arith, h)
from-bounded zero used (b ∷ rest) h =
    elim (Bool-cases (ltb 4082 (used + length (encoded_token b rest).0))) [
      | inl e ↦ rw e (omega (arith, h))
      | inr e ↦ rw e (
          let again =
            from-bounded ((encoded_token b rest).1 - 1) (used + length (encoded_token b rest).0)
              rest (ltb-false→le _ _ e) in
          omega (
            arith,
            again,
            length-append (encoded_token b rest).0 (
                encode_from ((encoded_token b rest).1 - 1) (used + length (encoded_token b rest).0)
                  rest),
          ))
    ]
from-bounded (suc skip) used (b ∷ rest) h = from-bounded skip used rest h

-- `Encode` returns at most 4096 bytes, whatever the text.
pub encode-bounded : (value : Bytes) → length (encode value) ≤ 4096
unfolding encode
encode-bounded value = omega (arith, from-bounded 0 0 value (omega arith))
