-- ===== src/Terminal/Safe.antt =====
-- internal/terminal/encode.go: the runes of an encoded text.
use ezdbbackup.Common.{
  ℕ, zero, suc, ◌+◌, ◌-◌, ◌/◌, ◌%◌, ◌≡◌, refl, Bool, true, false, not, ◌&&◌, ◌||◌, [], ◌∷◌, ◌++◌,
  arith, all, ltb, leb, ◌==◌, within, length, take, Bool-cases, inl, inr, if◌then◌else◌,
}
use ezdbbackup.Common.Bytes.{Bytes, codes}
use ezdbbackup.Common.Utf8.{Decoded, decode_rune, decodings, is_invalid, is_control, rune_error}
use ezdbbackup.Common.Utf8.Whole.{decodings-whole, decodings-ascii}
use ezdbbackup.Terminal.{
  hex_digit, escape_byte, escape_rune, is_bidi_control, token_text, encoded_token, encode_from,
  encode, truncated_suffix,
}

-- a rune that is decoded, and neither a control nor a separator of lines or paragraphs
abbrev pub is_safe : Decoded → Bool
is_safe d =
    not (is_invalid d)
    && not (is_control d.rune || is_bidi_control d.rune || d.rune == 0x2028 || d.rune == 0x2029)

abbrev pub safe_text : Bytes → Bool
safe_text s = all is_safe (decodings s)

-- printable ASCII
abbrev printable : ℕ → Bool
printable = within 0x20 0x7e

printable-is_safe : (b : ℕ) → printable b ≡ true → is_safe (record { rune = b; width = 1 }) ≡ true
printable-is_safe b h = ground arith

printable-ascii : (b : ℕ) → printable b ≡ true → ltb b 0x80 ≡ true
printable-ascii b h = ground arith

and_parts : (a b : Bool) → (a && b) ≡ true → (a ≡ true) × (b ≡ true)
and_parts a b h = ground arith

both : (a b : Bool) → a ≡ true → b ≡ true → (a && b) ≡ true
both a b h k = ground arith

ascii-front :
    (p tail : Bytes) → all printable p ≡ true → safe_text tail ≡ true → safe_text (p ++ tail) ≡ true
ascii-front [] tail h k = k
ascii-front (b ∷ p) tail h k =
    let (first, others) = and_parts (printable b) (all printable p) h in
    rw (decodings-ascii b (p ++ tail) (printable-ascii b first))
      (both _ _ (printable-is_safe b first) (ascii-front p tail others k))

hex_digit-printable : (n : ℕ) → printable (hex_digit (n % 16)) ≡ true
hex_digit-printable n = ground arith

escape_byte-printable : (n : ℕ) → all printable (escape_byte n) ≡ true
escape_byte-printable n = rw (hex_digit-printable (n / 16), hex_digit-printable n) refl

escape_rune-printable : (n : ℕ) → all printable (escape_rune n) ≡ true
escape_rune-printable n =
    rw
      (
        hex_digit-printable (n / 4096),
        hex_digit-printable (n / 256),
        hex_digit-printable (n / 16),
        hex_digit-printable n,
      )
      refl

safe_parts :
    (invalid marked control bidi line paragraph : Bool)
    → invalid ≡ false
    → (marked || control) ≡ false
    → (bidi || line || paragraph) ≡ false
    → (not invalid && not (control || bidi || line || paragraph)) ≡ true
safe_parts invalid marked control bidi line paragraph h k l = ground arith

escaped :
    (short : Bool) (n : ℕ) (tail : Bytes)
    → safe_text tail ≡ true
    → safe_text ((if short then escape_byte n else escape_rune n) ++ tail) ≡ true
escaped true n tail k = ascii-front (escape_byte n) tail (escape_byte-printable n) k
escaped false n tail k = ascii-front (escape_rune n) tail (escape_rune-printable n) k

plain_text : ℕ → Bytes → Decoded → Bytes
plain_text b rest d =
    if d.rune == rune_error || is_control d.rune
    then (if leb d.rune 0xff then escape_byte d.rune else escape_rune d.rune)
    else if is_bidi_control d.rune || d.rune == 0x2028 || d.rune == 0x2029
    then escape_rune d.rune
    else b ∷ take (d.width - 1) rest

plain-safe :
    (b : ℕ) (rest tail : Bytes)
    → safe_text tail ≡ true
    → is_invalid (decode_rune b rest) ≡ false
    → safe_text (plain_text b rest (decode_rune b rest) ++ tail) ≡ true
unfolding plain_text
plain-safe b rest tail k v =
    let d = decode_rune b rest in
    elim (Bool-cases (d.rune == rune_error || is_control d.rune)) [
      | inl e ↦ rw e (escaped (leb d.rune 0xff) d.rune tail k)
      | inr e ↦ elim (Bool-cases (is_bidi_control d.rune || d.rune == 0x2028 || d.rune == 0x2029)) [
        | inl f ↦ rw (e, f) (ascii-front (escape_rune d.rune) tail (escape_rune-printable d.rune) k)
        | inr f ↦
            rw (e, f)
              (rw (decodings-whole b rest tail v) (
                both _ _
                  (safe_parts (is_invalid d) (d.rune == rune_error) (is_control d.rune)
                    (is_bidi_control d.rune) (d.rune == 0x2028) (d.rune == 0x2029) v e f)
                  k))
      ]
    ]

-- A token in front of a safe text.
token-safe :
    (b : ℕ) (rest tail : Bytes)
    → safe_text tail ≡ true
    → safe_text (token_text b rest (decode_rune b rest) ++ tail) ≡ true
unfolding token_text plain_text
token-safe b rest tail k =
    let d = decode_rune b rest in
    elim (Bool-cases (is_invalid d)) [
      | inl e ↦ rw e (ascii-front (escape_byte b) tail (escape_byte-printable b) k)
      | inr e ↦ elim (Bool-cases (d.rune == b'\n')) [
        | inl f ↦ rw (e, f) (ascii-front (codes "\\n") tail refl k)
        | inr f ↦ elim (Bool-cases (d.rune == b'\r')) [
          | inl g ↦ rw (e, f, g) (ascii-front (codes "\\r") tail refl k)
          | inr g ↦ elim (Bool-cases (d.rune == b'\t')) [
            | inl i ↦ rw (e, f, g, i) (ascii-front (codes "\\t") tail refl k)
            | inr i ↦ rw (e, f, g, i) (plain-safe b rest tail k e)
          ]
        ]
      ]
    ]

nil-safe : safe_text [] ≡ true
unfolding decodings
nil-safe = refl

suffix-safe : safe_text truncated_suffix ≡ true
unfolding decodings decode_rune
suffix-safe = refl

from-safe : (skip used : ℕ) (value : Bytes) → safe_text (encode_from skip used value) ≡ true
unfolding encode_from encoded_token
from-safe skip used [] = nil-safe
from-safe zero used (b ∷ rest) =
    elim (Bool-cases (ltb 4082 (used + length (encoded_token b rest).0))) [
      | inl e ↦ rw e (suffix-safe)
      | inr e ↦ rw e (
          token-safe b rest _ (
            from-safe ((encoded_token b rest).1 - 1) (used + length (encoded_token b rest).0) rest))
    ]
from-safe (suc skip) used (b ∷ rest) = from-safe skip used rest

-- What `Encode` returns decodes, as UTF-8, to runes that are no controls, no bidirectional controls
-- and no separators of lines or paragraphs, and holds no byte that is not UTF-8, whatever the text.
pub encode-safe : (value : Bytes) → safe_text (encode value) ≡ true
unfolding encode
encode-safe value = from-safe 0 0 value
