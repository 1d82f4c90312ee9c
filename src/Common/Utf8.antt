-- ===== src/Common/Utf8.antt =====
-- UTF-8 as the package `unicode/utf8` decodes it, and the classes of package `unicode` in use.
pub mod Whole
use ezdbbackup.Common.Tests.{leb, ltb, ◌==◌, if◌then◌else◌, within}
use ezdbbackup.Common.Lists.{any, all}
use ezdbbackup.Common.Bytes.{Bytes}
use Prim.Native.Nat.{ℕ, zero, suc, ◌+◌, ◌-◌, ◌*◌}
use mathlib.Core.Bool.{Bool, not, ◌&&◌, ◌||◌}
use mathlib.Core.List.{List, [], ◌∷◌}

-- What one call of `utf8.DecodeRuneInString` returns: the rune and its width in bytes.
pub record Decoded : Type 0 where
  pub rune : ℕ
  pub width : ℕ

abbrev pub rune_error : ℕ
rune_error = 0xfffd

abbrev invalid : Decoded
invalid = record { rune = rune_error; width = 1 }

abbrev continues : ℕ → Bool
continues = within 0x80 0xbf

-- the second byte of a sequence of three, by its first byte
abbrev second_of_three : ℕ → ℕ → Bool
second_of_three b0 b1 =
    if b0 == 0xe0
    then within 0xa0 0xbf b1
    else if b0 == 0xed
    then within 0x80 0x9f b1
    else continues b1

abbrev second_of_four : ℕ → ℕ → Bool
second_of_four b0 b1 =
    if b0 == 0xf0
    then within 0x90 0xbf b1
    else if b0 == 0xf4
    then within 0x80 0x8f b1
    else continues b1

decode_two : ℕ → Bytes → Decoded
decode_two b0 (b1 ∷ _) =
    if continues b1 then record { rune = (b0 - 0xc0) * 64 + (b1 - 0x80); width = 2 } else invalid
decode_two b0 [] = invalid

decode_three : ℕ → Bytes → Decoded
decode_three b0 (b1 ∷ b2 ∷ _) =
    if second_of_three b0 b1 && continues b2
    then record { rune = (b0 - 0xe0) * 4096 + (b1 - 0x80) * 64 + (b2 - 0x80); width = 3 }
    else invalid
decode_three b0 _ = invalid

decode_four : ℕ → Bytes → Decoded
decode_four b0 (b1 ∷ b2 ∷ b3 ∷ _) =
    if second_of_four b0 b1 && continues b2 && continues b3
    then record {
      rune = (b0 - 0xf0) * 262144 + (b1 - 0x80) * 4096 + (b2 - 0x80) * 64 + (b3 - 0x80);
      width = 4;
    }
    else invalid
decode_four b0 _ = invalid

-- `utf8.DecodeRuneInString`, at a first byte and those behind it
unfoldable pub decode_rune : ℕ → Bytes → Decoded
unfolding decode_two decode_three decode_four
decode_rune b0 rest =
    if ltb b0 0x80
    then record { rune = b0; width = 1 }
    else if within 0xc2 0xdf b0
    then decode_two b0 rest
    else if within 0xe0 0xef b0
    then decode_three b0 rest
    else if within 0xf0 0xf4 b0
    then decode_four b0 rest
    else invalid

-- All decodings of a text, in order; `skip` bytes belong to a rune that is decoded already.
pub decode_from : ℕ → Bytes → List Decoded
decode_from skip [] = []
decode_from zero (b ∷ rest) = let d = decode_rune b rest in d ∷ decode_from (d.width - 1) rest
decode_from (suc skip) (b ∷ rest) = decode_from skip rest

-- `for _, r := range s`
unfoldable pub decodings : Bytes → List Decoded
unfolding decode_from decode_rune
decodings = decode_from 0

-- A decoding that stands for a byte which is no UTF-8.
abbrev pub is_invalid : Decoded → Bool
is_invalid d = d.rune == rune_error && d.width == 1

-- `utf8.ValidString`
unfoldable pub valid_string : Bytes → Bool
unfolding decodings
valid_string s = all (λ d. not (is_invalid d)) (decodings s)

-- `unicode.IsControl`
abbrev pub is_control : ℕ → Bool
is_control r = leb r 0x1f || within 0x7f 0x9f r

-- `unicode.IsSpace`
abbrev pub is_space : ℕ → Bool
is_space r =
    within 0x09 0x0d r
    || r == 0x20
    || r == 0x85
    || r == 0xa0
    || r == 0x1680
    || within 0x2000 0x200a r
    || r == 0x2028
    || r == 0x2029
    || r == 0x202f
    || r == 0x205f
    || r == 0x3000

-- `strings.IndexFunc(s, unicode.IsControl) >= 0`
unfoldable pub has_control : Bytes → Bool
unfolding decodings
has_control s = any (λ d. is_control d.rune) (decodings s)
