-- ===== src/Terminal.antt =====
-- internal/terminal/encode.go: texts for a terminal.
pub mod Bounded
pub mod Safe
pub mod Lines
use ezdbbackup.Common.{
  ℕ, zero, suc, ◌+◌, ◌-◌, ◌/◌, ◌%◌, Bool, ◌&&◌, ◌||◌, List, [], ◌∷◌, ◌++◌, ltb, leb, ◌==◌, within,
  if◌then◌else◌, length, take,
}
use ezdbbackup.Common.Bytes.{Bytes, codes, is_empty}
use ezdbbackup.Common.Utf8.{Decoded, decode_rune, is_invalid, is_control, rune_error}

abbrev pub max_encoded_bytes : ℕ
max_encoded_bytes = 4096

-- "…[truncated]"
abbrev pub truncated_suffix : Bytes
truncated_suffix = 0xe2 ∷ 0x80 ∷ 0xa6 ∷ codes "[truncated]"

abbrev pub hex_digit : ℕ → ℕ
hex_digit n = if ltb n 10 then 48 + n else 87 + n

-- `\x%02x` of a number below 256
abbrev pub escape_byte : ℕ → Bytes
escape_byte n = b'\\' ∷ b'x' ∷ hex_digit (n / 16 % 16) ∷ hex_digit (n % 16) ∷ []

-- `\u%04x` of a number below 65536
abbrev pub escape_rune : ℕ → Bytes
escape_rune n =
    b'\\'
    ∷ b'u'
    ∷ hex_digit (n / 4096 % 16)
    ∷ hex_digit (n / 256 % 16)
    ∷ hex_digit (n / 16 % 16)
    ∷ hex_digit (n % 16)
    ∷ []

-- `isBidiControl`
abbrev pub is_bidi_control : ℕ → Bool
is_bidi_control r =
    r == 0x61c || r == 0x200e || r == 0x200f || within 0x202a 0x202e r || within 0x2066 0x2069 r

-- `encodedToken` at a first byte, those behind it and what they decode to: the token
unfoldable pub token_text : ℕ → Bytes → Decoded → Bytes
token_text b rest d =
    if is_invalid d
    then escape_byte b
    else if d.rune == b'\n'
    then codes "\\n"
    else if d.rune == b'\r'
    then codes "\\r"
    else if d.rune == b'\t'
    then codes "\\t"
    else if d.rune == rune_error || is_control d.rune
    then (if leb d.rune 0xff then escape_byte d.rune else escape_rune d.rune)
    else if is_bidi_control d.rune || d.rune == 0x2028 || d.rune == 0x2029
    then escape_rune d.rune
    else b ∷ take (d.width - 1) rest

unfoldable pub encoded_token : ℕ → Bytes → Bytes × ℕ
unfolding token_text
encoded_token b rest = let d = decode_rune b rest in (token_text b rest d, d.width)

-- The loop of `Encode`, with the length of the output so far; `skip` bytes belong to the last token.
unfoldable pub encode_from : ℕ → ℕ → Bytes → Bytes
unfolding encoded_token
encode_from skip used [] = []
encode_from zero used (b ∷ rest) =
    let (token, width) = encoded_token b rest in
    let more = encode_from (width - 1) (used + length token) rest in
    if ltb (max_encoded_bytes - length truncated_suffix) (used + length token)
    then truncated_suffix
    else token ++ more
encode_from (suc skip) used (b ∷ rest) = encode_from skip used rest

-- `Encode`
unfoldable pub encode : Bytes → Bytes
unfolding encode_from
encode value = encode_from 0 0 value

-- The loop of `EncodeLines`, with the bytes between `start` and the index.
unfoldable pub encode_lines_from : Bytes → Bytes → Bytes
unfolding encode
encode_lines_from line [] = if is_empty line then [] else encode line
encode_lines_from line (c ∷ cs) =
    let ended = encode line ++ b'\n' ∷ encode_lines_from [] cs in
    let longer = encode_lines_from (line ++ c ∷ []) cs in if c == b'\n' then ended else longer

-- `EncodeLines`
unfoldable pub encode_lines : Bytes → Bytes
unfolding encode_lines_from
encode_lines value = encode_lines_from [] value
