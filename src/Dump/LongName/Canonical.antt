-- ===== src/Dump/LongName/Canonical.antt =====
-- internal/mysqldumpopt/option.go: canonical names of options and their spellings.
use ezdbbackup.Common.{
  arith, ℕ, ◌+◌, ◌≡◌, refl, ap, ◌∙◌, ◌⊎◌, inl, inr, Bool, Bool-cases, ==_iff, not, ◌||◌, within,
  if◌then◌else◌, true, false, Option, none, some, [], ◌∷◌, ◌++◌, ◌==◌, map, all,
}
use ezdbbackup.Common.Bytes.{Bytes, codes}
use ezdbbackup.Dump.LongName.{
  name_byte, is_dash, before_equals, starts_badly, ends_badly, canonical_byte, canonical_name,
  name_of, after_dashes, long_name,
}

canonical_byte-name : (c : ℕ) → name_byte c ≡ true → name_byte (canonical_byte c) ≡ true
canonical_byte-name c h = ground arith

canonical_byte-twice :
    (c : ℕ) → name_byte c ≡ true → canonical_byte (canonical_byte c) ≡ canonical_byte c
canonical_byte-twice c h = ground arith

canonical_byte-dash : (c : ℕ) → name_byte c ≡ true → is_dash (canonical_byte c) ≡ is_dash c
canonical_byte-dash c h = ground arith

name_byte-equals : (c : ℕ) → name_byte c ≡ true → (c == b'=') ≡ false
name_byte-equals c h = ground arith

canonical-all :
    (raw : Bytes) → all name_byte raw ≡ true → all name_byte (map canonical_byte raw) ≡ true
canonical-all [] h = refl
canonical-all (c ∷ cs) h = ground (arith, canonical_byte-name c, canonical-all cs)

canonical-twice :
    (raw : Bytes)
    → all name_byte raw ≡ true
    → map canonical_byte (map canonical_byte raw) ≡ map canonical_byte raw
canonical-twice [] h = refl
canonical-twice (c ∷ cs) h = ground (arith, canonical_byte-twice c, canonical-twice cs)

starts-canonical :
    (raw : Bytes)
    → all name_byte raw ≡ true
    → starts_badly (map canonical_byte raw) ≡ starts_badly raw
starts-canonical [] h = refl
starts-canonical (c ∷ cs) h = ground (arith, canonical_byte-dash c)

ends-canonical :
    (raw : Bytes) → all name_byte raw ≡ true → ends_badly (map canonical_byte raw) ≡ ends_badly raw
unfolding ends_badly
ends-canonical [] h = refl
ends-canonical (c ∷ []) h = ground (arith, canonical_byte-dash c)
ends-canonical (c ∷ d ∷ ds) h = ground (arith, ends-canonical (d ∷ ds))

before_equals-name : (raw : Bytes) → all name_byte raw ≡ true → before_equals raw ≡ raw
unfolding before_equals
before_equals-name [] h = refl
before_equals-name (c ∷ cs) h = ground (arith, name_byte-equals c, before_equals-name cs)

canonical_name-again :
    (raw n : Bytes)
    → canonical_name raw ≡ some n
    → (all name_byte n ≡ true) × (canonical_name n ≡ some n)
unfolding canonical_name
canonical_name-again raw n h =
    ground (arith, canonical-all raw, canonical-twice raw, starts-canonical raw, ends-canonical raw)

-- a lower-case letter, a digit or a dash
abbrev pub canonical_letter : ℕ → Bool
canonical_letter c = (c == b'-') || within b'a' b'z' c || within b'0' b'9' c

-- Two bytes are the same letter of a name, up to case and the kind of its dash.
abbrev pub SameLetter : ℕ → ℕ → Type 0
SameLetter c d = (c ≡ d) ⊎ ((c ≡ b'_') × (d ≡ b'-')) ⊎ ((within b'A' b'Z' c ≡ true) × (d ≡ c + 32))

abbrev pub SameName : Bytes → Bytes → Type 0
SameName [] [] = Unit
SameName [] (_ ∷ _) = ⊥
SameName (_ ∷ _) [] = ⊥
SameName (c ∷ cs) (d ∷ ds) = SameLetter c d × SameName cs ds

-- nothing, or a value behind an equals sign
abbrev pub IsValue : Bytes → Type 0
IsValue [] = Unit
IsValue (c ∷ cs) = c ≡ b'='

-- The argument is two dashes, a spelling of the name, and perhaps a value.
pub record Spells (arg n : Bytes) : Type 0 where
  pub spelling : Bytes
  pub value : Bytes
  pub written : arg ≡ codes "--" ++ (spelling ++ value)
  pub value_follows : IsValue value
  pub same_name : SameName spelling n

canonical_byte-letter : (c : ℕ) → name_byte c ≡ true → canonical_letter (canonical_byte c) ≡ true
canonical_byte-letter c h = ground arith

map-canonical :
    (raw : Bytes) → all name_byte raw ≡ true → all canonical_letter (map canonical_byte raw) ≡ true
map-canonical [] h = refl
map-canonical (c ∷ cs) h = ground (arith, canonical_byte-letter c, map-canonical cs)

SameLetter-canonical_byte : (c : ℕ) → SameLetter c (canonical_byte c)
SameLetter-canonical_byte c = elim (Bool-cases (c == b'_')) [
  | inl e ↦ rw e (inr (inl ((==_iff c b'_').0 e, refl)))
  | inr e ↦ elim (Bool-cases (within b'A' b'Z' c)) [
    | inl u ↦ rw (e, u) (inr (inr (refl, refl)))
    | inr u ↦ rw (e, u) (inl refl)
  ]
]

SameName-map : (raw : Bytes) → SameName raw (map canonical_byte raw)
SameName-map [] = tt
SameName-map (c ∷ cs) = (SameLetter-canonical_byte c, SameName-map cs)

-- what is behind the text before the first `=`
abbrev behind : Bytes → Bytes
behind [] = []
behind (c ∷ cs) = let rest = behind cs in if c == b'=' then c ∷ cs else rest

behind-IsValue : (raw : Bytes) → IsValue (behind raw)
behind-IsValue [] = tt
behind-IsValue (c ∷ cs) = elim (Bool-cases (c == b'=')) [
  | inl e ↦ rw e ((==_iff c b'=').0 e)
  | inr e ↦ rw e (behind-IsValue cs)
]

before-behind : (raw : Bytes) → raw ≡ before_equals raw ++ behind raw
unfolding before_equals
before-behind [] = refl
before-behind (c ∷ cs) = elim (Bool-cases (c == b'=')) [
  | inl e ↦ rw e refl
  | inr e ↦ rw e (ap (λ l. c ∷ l) (before-behind cs))
]

named :
    (raw n : Bytes) → canonical_name raw ≡ some n → (all canonical_letter n ≡ true) × SameName raw n
unfolding canonical_name
named raw n h =
    let (a, e) = parts (all name_byte raw) (starts_badly raw) (ends_badly raw) h in
    (rw e at (map-canonical raw a), rw e at (SameName-map raw))
  where
    parts :
        (a b c : Bool)
        → (if not a || b || c then none else some (map canonical_byte raw)) ≡ some n
        → (a ≡ true) × (map canonical_byte raw ≡ n)
    parts a b c e = ground arith

after_dashes-written : (arg raw : Bytes) → after_dashes arg ≡ some raw → arg ≡ codes "--" ++ raw
after_dashes-written [] raw h = absurd cc
after_dashes-written (c ∷ []) raw h = absurd cc
after_dashes-written (c ∷ d ∷ cs) raw h = ground arith

-- The argument of which `LongName` returns a name is two dashes, that name in some case and with some
-- dashes written `_`, and perhaps `=` with a value; the name is of lower-case letters, digits and
-- dashes, and as an option of its own it has the same name.
pub long_name-canonical :
    (arg n : Bytes)
    → long_name arg ≡ some n
    → Spells arg n × (all canonical_letter n ≡ true) × (long_name (codes "--" ++ n) ≡ some n)
unfolding long_name
long_name-canonical arg n h = by_raw (after_dashes arg) refl h
  where
    by_raw :
        (o : Option Bytes)
        → after_dashes arg ≡ o
        → name_of o ≡ some n
        → Spells arg n
          × (all canonical_letter n ≡ true)
          × (canonical_name (before_equals n) ≡ some n)
    by_raw none w e = absurd cc
    by_raw (some raw) w e =
        let (a, b) = canonical_name-again (before_equals raw) n e in
        let (letters, same) = named (before_equals raw) n e in
        (
          record {
            spelling = before_equals raw;
            value = behind raw;
            written =
                after_dashes-written arg raw w ∙ ap (λ l. codes "--" ++ l) (before-behind raw);
            value_follows = behind-IsValue raw;
            same_name = same;
          },
          letters,
          rw (before_equals-name n a) b,
        )
