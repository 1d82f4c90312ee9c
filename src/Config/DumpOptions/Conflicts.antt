-- ===== src/Config/DumpOptions/Conflicts.antt =====
-- A managed option is refused in all of its spellings.
use ezdbbackup.Common.{
  arith, ℕ, zero, suc, ◌≤◌, ◌<◌, ◌≡◌, refl, ap, ◌∙◌, Bool, true, false, not, ◌&&◌, ◌||◌, ◌⊎◌, inl,
  inr, none, some, List, [], ◌∷◌, ◌++◌, any, all, length, length-append, if◌then◌else◌,
}
use ezdbbackup.Common.Bytes.{Bytes, codes, equal, has_prefix, member}
use ezdbbackup.Common.Utf8.{has_control}
use ezdbbackup.Dump.LongName.{long_name}
use ezdbbackup.Config.DumpOptions.{
  without_prefix, nothing, stripped, find_prefix, strip_prefixes, forbidden_dump_options,
  forbidden_or_abbreviation, conflicting_base, conflicting_dump_argument,
}

-- the prefixes that the source strips and goes on behind
pub data Prefix : Type 0 where
  enable disable skip maximum : Prefix

abbrev pub prefix_text : Prefix → Bytes
prefix_text enable = codes "enable-"
prefix_text disable = codes "disable-"
prefix_text skip = codes "skip-"
prefix_text maximum = codes "maximum-"

-- `name` is `base` behind any number of prefixes.
pub data Decorated (base : Bytes) : Bytes → Type 0 where
  bare : {name : Bytes} → name ≡ base → Decorated base name
  behind :
      {name rest : Bytes} (p : Prefix)
      → name ≡ prefix_text p ++ rest
      → Decorated base rest
      → Decorated base name

find_prefix-text : (p : Prefix) (rest : Bytes) → find_prefix (prefix_text p ++ rest) ≡ stripped rest
unfolding find_prefix without_prefix
find_prefix-text enable rest = refl
find_prefix-text disable rest = refl
find_prefix-text skip rest = refl
find_prefix-text maximum rest = refl

-- What a text begins with begins with no prefix that the text does not begin with.
without_prefix-none :
    (f base q : Bytes)
    → has_prefix f base ≡ true
    → has_prefix f q ≡ false
    → without_prefix base q ≡ none
unfolding without_prefix
without_prefix-none f base [] h k = absurd (cc)
without_prefix-none f [] (p ∷ ps) h k = refl
without_prefix-none [] (c ∷ s) (p ∷ ps) h k = absurd (cc)
without_prefix-none (x ∷ f) (c ∷ s) (p ∷ ps) h k = ground (arith, without_prefix-none f s ps)

-- the prefixes that the loop looks for
abbrev undecorated : Bytes → Bool
undecorated f =
    not (has_prefix f (codes "enable-"))
    && not (has_prefix f (codes "disable-"))
    && not (has_prefix f (codes "skip-"))
    && not (has_prefix f (codes "maximum-"))
    && not (has_prefix f (codes "loose-"))

-- facts on tests, kept apart from the texts that they test
none_of_five :
    (a b c d e : Bool)
    → (not a && not b && not c && not d && not e) ≡ true
    → (a ≡ false) × (b ≡ false) × (c ≡ false) × (d ≡ false) × (e ≡ false)
none_of_five a b c d e h = ground arith

and_parts : (a b : Bool) → (a && b) ≡ true → (a ≡ true) × (b ≡ true)
and_parts a b h = ground arith

or_cases : (a b : Bool) → (a || b) ≡ true → (a ≡ true) ⊎ (b ≡ true)
or_cases true b h = inl refl
or_cases false b h = inr h

third_of_four : (a b c d : Bool) → c ≡ true → (a || b || c || d) ≡ true
third_of_four a b c d h = ground arith

find_prefix-nothing :
    (f base : Bytes) → has_prefix f base ≡ true → undecorated f ≡ true → find_prefix base ≡ nothing
unfolding find_prefix
find_prefix-nothing f base h u =
    let (a, b, c, d, e) = none_of_five _ _ _ _ _ u in
    rw (
      without_prefix-none f base (codes "enable-") h a,
      without_prefix-none f base (codes "disable-") h b,
      without_prefix-none f base (codes "skip-") h c,
      without_prefix-none f base (codes "maximum-") h d,
      without_prefix-none f base (codes "loose-") h e,
    )

equal-has_prefix : (a b : Bytes) → equal a b ≡ true → has_prefix b a ≡ true
equal-has_prefix [] b h = refl
equal-has_prefix (c ∷ a) [] h = absurd (cc)
equal-has_prefix (c ∷ a) (d ∷ b) h = ground (arith, equal-has_prefix a b)

find_prefix-any :
    (l : List Bytes) (base : Bytes)
    → all undecorated l ≡ true
    → any (λ f. equal base f || has_prefix f base) l ≡ true
    → find_prefix base ≡ nothing
find_prefix-any [] base u h = absurd (cc)
find_prefix-any (f ∷ l) base u h =
    let (plain, others) = and_parts _ _ u in
    elim (or_cases _ _ h) [
      | inl here ↦
          find_prefix-nothing f base
            (elim (or_cases _ _ here) [
              | inl same ↦ equal-has_prefix base f same
              | inr longer ↦ longer
            ])
            plain
      | inr there ↦ find_prefix-any l base others there
    ]

find_prefix-forbidden :
    (base : Bytes) → forbidden_or_abbreviation base ≡ true → find_prefix base ≡ nothing
unfolding forbidden_or_abbreviation forbidden_dump_options
find_prefix-forbidden base h = find_prefix-any forbidden_dump_options base refl h

-- The length is enough fuel to strip every prefix.
strip_prefixes-base :
    (fuel : ℕ) (base : Bytes) → find_prefix base ≡ nothing → strip_prefixes fuel base ≡ some base
unfolding strip_prefixes
strip_prefixes-base zero base h = refl
strip_prefixes-base (suc fuel) base h = rw h

length-prefix : (p : Prefix) → 0 < length (prefix_text p)
length-prefix enable = omega arith
length-prefix disable = omega arith
length-prefix skip = omega arith
length-prefix maximum = omega arith

strip_step :
    (fuel : ℕ) (p : Prefix) (rest : Bytes)
    → strip_prefixes (suc fuel) (prefix_text p ++ rest) ≡ strip_prefixes fuel rest
unfolding strip_prefixes
strip_step fuel p rest = rw (find_prefix-text p rest)

strip_prefixes-Decorated :
    {base name : Bytes} (fuel : ℕ)
    → find_prefix base ≡ nothing
    → Decorated base name
    → length name ≤ fuel
    → strip_prefixes fuel name ≡ some base
strip_prefixes-Decorated {base} fuel h (bare e) l = rw e (strip_prefixes-base fuel base h)
strip_prefixes-Decorated zero h (behind {name} {rest} p e d) l =
    absurd (omega (arith, length-prefix p, length-append (prefix_text p) rest, ap length e))
strip_prefixes-Decorated (suc fuel) h (behind {name} {rest} p e d) l = rw e (
    strip_step fuel p rest
    ∙ strip_prefixes-Decorated fuel h d
        (omega (arith, length-prefix p, length-append (prefix_text p) rest, ap length e)))

conflicting_base-forbidden :
    (name base : Bytes)
    → equal name (codes "all") ≡ false
    → forbidden_or_abbreviation base ≡ true
    → conflicting_base name (some base) ≡ true
unfolding conflicting_base
conflicting_base-forbidden name base n f = rw n (
    third_of_four (member base forbidden_dump_options) (has_prefix base (codes "password")) _
      (has_prefix base (codes "init-command-")) f)

if_same : (b : Bool) → (if b then true else true) ≡ true
if_same b = ground arith

-- An argument is refused if its name, under any number of the prefixes `enable-`, `disable-`,
-- `skip-` and `maximum-`, is that of a managed option or an abbreviation of one. The only
-- exception is `all`.
pub conflicting-Decorated :
    (arg name base : Bytes)
    → long_name arg ≡ some name
    → equal name (codes "all") ≡ false
    → Decorated base name
    → forbidden_or_abbreviation base ≡ true
    → conflicting_dump_argument arg ≡ true
unfolding conflicting_dump_argument
conflicting-Decorated arg name base e n d f =
    rw
      (
        e,
        strip_prefixes-Decorated (length name) (find_prefix-forbidden base f) d (omega arith),
        conflicting_base-forbidden name base n f,
      )
      (if_same (has_control arg))
