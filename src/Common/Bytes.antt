-- ===== src/Common/Bytes.antt =====
-- Go strings and byte slices as lists of numbers, and the functions of the packages `strings` and
-- `strconv` that the source calls.
use Prim.Native.Char.{code}
use ezdbbackup.Common.Tests.{ltb, ◌==◌, if◌then◌else◌}
use ezdbbackup.Common.Lists.{any, All}
use Prim.Native.Nat.{ℕ, zero, suc, ◌+◌, ◌/◌, ◌%◌, ◌<◌}
use Prim.Native.String.{String}
use mathlib.Core.Path.{◌≡◌, refl}
use mathlib.Core.Logic.{◌↔◌}
use mathlib.Core.Bool.{Bool, true, false, ◌&&◌, ◌||◌}
use mathlib.Core.List.{List, [], ◌∷◌, ◌++◌}
use native.Mathlib.Omega.{arith}

abbrev pub Bytes : Type 0
Bytes = List ℕ

-- The bytes of an ASCII literal.
abbrev pub codes : String → Bytes
codes String.[] = []
codes (String.◌∷◌ c s) = code c ∷ codes s

abbrev pub is_empty {ℓ} : {A : Type ℓ} → List A → Bool
is_empty [] = true
is_empty (_ ∷ _) = false

-- `==` on strings, `bytes.Equal`
abbrev pub equal : Bytes → Bytes → Bool
equal [] [] = true
equal [] (d ∷ right) = false
equal (c ∷ left) [] = false
equal (c ∷ left) (d ∷ right) = c == d && equal left right

pub equal_iff : (left right : Bytes) → (equal left right ≡ true) ↔ (left ≡ right)
equal_iff [] [] = ground arith
equal_iff [] (d ∷ right) = ground arith
equal_iff (c ∷ left) [] = ground arith
equal_iff (c ∷ left) (d ∷ right) = ground (arith, equal_iff left right)

pub equal_refl : (a : Bytes) → equal a a ≡ true
equal_refl a = (equal_iff a a).1 refl

-- `<` on strings
unfoldable pub lt_bytes : Bytes → Bytes → Bool
lt_bytes [] [] = false
lt_bytes [] (_ ∷ _) = true
lt_bytes (_ ∷ _) [] = false
lt_bytes (x ∷ xs) (y ∷ ys) = ltb x y || (x == y && lt_bytes xs ys)

-- `strings.HasPrefix s prefix`
abbrev pub has_prefix : Bytes → Bytes → Bool
has_prefix s [] = true
has_prefix [] (_ ∷ _) = false
has_prefix (c ∷ s) (p ∷ ps) = c == p && has_prefix s ps

-- `strings.ContainsRune` and `strings.ContainsAny`
abbrev pub contains_byte : Bytes → ℕ → Bool
contains_byte s b = any (λ c. c == b) s

-- `strings.Join`
abbrev pub join : Bytes → List Bytes → Bytes
join sep [] = []
join sep (x ∷ []) = x
join sep (x ∷ y ∷ ys) = x ++ (sep ++ join sep (y ∷ ys))

abbrev pub cons_head : ℕ → List Bytes → List Bytes
cons_head c [] = (c ∷ []) ∷ []
cons_head c (w ∷ ws) = (c ∷ w) ∷ ws

-- The pieces between the separators, empty ones kept.
unfoldable pub split_func : (ℕ → Bool) → Bytes → List Bytes
split_func p [] = [] ∷ []
split_func p (c ∷ cs) = if p c then [] ∷ split_func p cs else cons_head c (split_func p cs)

-- `strings.Split` with a separator of one byte
unfoldable pub split : ℕ → Bytes → List Bytes
unfolding split_func
split sep = split_func (λ c. c == sep)

abbrev pub drop_empty : List Bytes → List Bytes
drop_empty [] = []
drop_empty ([] ∷ ws) = drop_empty ws
drop_empty ((c ∷ w) ∷ ws) = (c ∷ w) ∷ drop_empty ws

-- `strings.FieldsFunc`
unfoldable pub fields_func : (ℕ → Bool) → Bytes → List Bytes
unfolding split_func
fields_func p s = drop_empty (split_func p s)

-- `strings.Contains`
abbrev pub contains : Bytes → Bytes → Bool
contains [] sub = has_prefix [] sub
contains (c ∷ s) sub = has_prefix (c ∷ s) sub || contains s sub

-- Membership of a text in a list, such as the keys of a Go map.
abbrev pub member : Bytes → List Bytes → Bool
member s keys = any (λ k. equal k s) keys

-- `strconv.Itoa` of a number that is not negative, by fuel; `acc` has the digits found so far.
abbrev pub decimal : ℕ → ℕ → Bytes → Bytes
decimal zero n acc = acc
decimal (suc f) n acc =
    let digits = (48 + n % 10) ∷ acc in
    elim (ltb n 10) [ true ↦ digits | false ↦ decimal f (n / 10) digits ]

unfoldable pub itoa : ℕ → Bytes
itoa n = decimal (suc n) n []

module _ (P : ℕ → Type 0) (digit : (n : ℕ) → n < 10 → P (48 + n)) where
  decimal-All : (f n : ℕ) (acc : Bytes) → All P acc → All P (decimal f n acc)
  decimal-All zero n acc h = h
  decimal-All (suc f) n acc h =
      elim (ltb n 10)
        as (λ b. All P (elim b as (λ _. Bytes) [
          | true ↦ (48 + n % 10) ∷ acc
          | false ↦ decimal f (n / 10) ((48 + n % 10) ∷ acc)
        ])) [
          | true ↦ (digit (n % 10) (omega arith), h)
          | false ↦ decimal-All f (n / 10) ((48 + n % 10) ∷ acc) (digit (n % 10) (omega arith), h)
        ]

  -- What holds of every digit holds of every byte of a printed number.
  pub itoa-All : (n : ℕ) → All P (itoa n)
  unfolding itoa
  itoa-All n = decimal-All (suc n) n [] tt
