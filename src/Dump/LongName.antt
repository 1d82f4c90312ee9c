-- ===== src/Dump/LongName.antt =====
-- internal/mysqldumpopt/option.go: the canonical name of a long option. The letters of a name that is
-- returned are ASCII, so lower case is that of the bytes.
pub mod Canonical
use ezdbbackup.Common.{
  ℕ, ◌+◌, Bool, true, false, not, ◌&&◌, ◌||◌, Option, none, some, List, [], ◌∷◌, ◌==◌, within, map,
  all, if◌then◌else◌,
}
use ezdbbackup.Common.Bytes.{Bytes, codes, is_empty}

-- `value` is in the alphabet of option names.
abbrev pub name_byte : ℕ → Bool
name_byte c =
    (c == b'-') || (c == b'_') || within b'a' b'z' c || within b'A' b'Z' c || within b'0' b'9' c

abbrev is_dash : ℕ → Bool
is_dash c = (c == b'-') || (c == b'_')

-- the text before the first `=`
unfoldable pub before_equals : Bytes → Bytes
before_equals [] = []
before_equals (c ∷ cs) = let rest = before_equals cs in if c == b'=' then [] else c ∷ rest

abbrev starts_badly : Bytes → Bool
starts_badly [] = true
starts_badly (c ∷ cs) = is_dash c

unfoldable pub ends_badly : Bytes → Bool
ends_badly [] = true
ends_badly (c ∷ []) = is_dash c
ends_badly (c ∷ d ∷ ds) = ends_badly (d ∷ ds)

-- a byte behind `strings.ReplaceAll` and `strings.ToLower`
abbrev pub canonical_byte : ℕ → ℕ
canonical_byte c = if c == b'_' then b'-' else if within b'A' b'Z' c then c + 32 else c

unfoldable pub canonical_name : Bytes → Option Bytes
unfolding ends_badly
canonical_name raw =
    if not (all name_byte raw) || starts_badly raw || ends_badly raw
    then none
    else some (map canonical_byte raw)

abbrev after_dashes : Bytes → Option Bytes
after_dashes (c ∷ d ∷ raw) = if (c == b'-') && (d == b'-') then some raw else none
after_dashes _ = none

abbrev name_of : Option Bytes → Option Bytes
name_of none = none
name_of (some raw) = canonical_name (before_equals raw)

-- `LongName`; the empty name, of `--` and of `--=v`, is refused as one that starts badly
unfoldable pub long_name : Bytes → Option Bytes
unfolding canonical_name before_equals
long_name arg = name_of (after_dashes arg)
