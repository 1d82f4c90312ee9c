-- ===== src/Terminal/Lines.antt =====
-- internal/terminal/encode.go: the lines of `EncodeLines`.
use ezdbbackup.Common.{
  ℕ, ◌≡◌, refl, sym, ap, ◌∙◌, false, List, [], ◌∷◌, ◌++◌, map, ◌==◌, ==_iff, Bool-cases, inl, inr,
  append_assoc, append-nil,
}
use ezdbbackup.Common.Bytes.{Bytes, is_empty, join, split}
use ezdbbackup.Common.Split.{Free, is_empty-split, split-Free, split-append, append-Free}
use ezdbbackup.Terminal.{encode, encode_lines_from, encode_lines}

encode-nil : (line : Bytes) → encode_lines_from line [] ≡ encode line
unfolding encode_lines_from encode
encode-nil [] = refl
encode-nil (c ∷ line) = refl

join_first :
    (sep : ℕ) (x : Bytes) (l : List Bytes)
    → is_empty l ≡ false
    → join (sep ∷ []) (x ∷ map encode l) ≡ x ++ sep ∷ join (sep ∷ []) (map encode l)
join_first sep x [] h = absurd cc
join_first sep x (y ∷ ys) h = refl

abbrev joined : Bytes → Bytes
joined value = join (b'\n' ∷ []) (map encode (split b'\n' value))

encode_feed :
    (line cs : Bytes)
    → encode_lines_from line (b'\n' ∷ cs) ≡ encode line ++ b'\n' ∷ encode_lines_from [] cs
unfolding encode_lines_from
encode_feed line cs = refl

encode_other :
    (line : Bytes) (c : ℕ) (cs : Bytes)
    → (c == b'\n') ≡ false
    → encode_lines_from line (c ∷ cs) ≡ encode_lines_from (line ++ c ∷ []) cs
unfolding encode_lines_from
encode_other line c cs e = rw e refl

Free-one : (c : ℕ) → (c == b'\n') ≡ false → Free b'\n' (c ∷ [])
Free-one c e = rw e refl

from-joined :
    (line value : Bytes) → Free b'\n' line → encode_lines_from line value ≡ joined (line ++ value)
from-joined line [] h = rw (append-nil line, split-Free b'\n' line h) (encode-nil line)
from-joined line (c ∷ cs) h = elim (Bool-cases (c == b'\n')) [
  | inl e ↦
      rw
        (
          (==_iff c b'\n').0 e,
          encode_feed line cs,
          from-joined [] cs refl,
          split-append b'\n' line cs h,
        )
        (sym (join_first b'\n' (encode line) (split b'\n' cs) (is_empty-split b'\n' cs)))
  | inr e ↦
      encode_other line c cs e
      ∙ from-joined (line ++ c ∷ []) cs (append-Free b'\n' line (c ∷ []) h (Free-one c e))
      ∙ ap joined (append_assoc line (c ∷ []) cs)
]

-- `EncodeLines` encodes each line of a text alone and keeps the line feeds between them: the result
-- is that of splitting at the line feeds, encoding the pieces, and joining them again.
pub encode_lines-joined :
    (value : Bytes) → encode_lines value ≡ join (b'\n' ∷ []) (map encode (split b'\n' value))
unfolding encode_lines
encode_lines-joined value = from-joined [] value refl
