-- ===== src/Common/Utf8/Whole.antt =====
-- A rune that decodes is decoded in the same way in front of any other text.
use Prim.Native.Nat.{ℕ, suc, ◌-◌}
use mathlib.Core.Path.{◌≡◌, refl, ap, ◌∙◌}
use mathlib.Core.Logic.{inl, inr}
use mathlib.Core.Bool.{true, false, ◌&&◌}
use mathlib.Core.List.{[], ◌∷◌, ◌++◌}
use native.Mathlib.Omega.{arith}
use ezdbbackup.Common.Tests.{ltb, within, Bool-cases}
use ezdbbackup.Common.Lists.{length, take}
use ezdbbackup.Common.Bytes.{Bytes}
use ezdbbackup.Common.Utf8.{
  Decoded, decode_rune, decode_from, decodings, is_invalid, decode_two, decode_three, decode_four,
  continues, second_of_three, second_of_four,
}

abbrev Reader : Type 0
Reader = ℕ → Bytes → Decoded

-- The bytes behind the first that a rune takes are there, and what is behind them does not matter.
pub record IsWhole (read : Reader) (b : ℕ) (rest : Bytes) : Type 0 where
  pub width : (read b rest).width ≡ suc (length (take ((read b rest).width - 1) rest))
  pub same : (tail : Bytes) → read b (take ((read b rest).width - 1) rest ++ tail) ≡ read b rest

two-IsWhole :
    (b : ℕ) (rest : Bytes) → is_invalid (decode_two b rest) ≡ false → IsWhole decode_two b rest
unfolding decode_two
two-IsWhole b [] h = absurd cc
two-IsWhole b (c ∷ rest) h = elim (Bool-cases (continues c)) [
  | inl e ↦ record { width = rw e refl; same = λ tail. rw e (rw e refl) }
  | inr e ↦ absurd cc
]

three-IsWhole :
    (b : ℕ) (rest : Bytes) → is_invalid (decode_three b rest) ≡ false → IsWhole decode_three b rest
unfolding decode_three
three-IsWhole b [] h = absurd cc
three-IsWhole b (c ∷ []) h = absurd cc
three-IsWhole b (c ∷ d ∷ rest) h = elim (Bool-cases (second_of_three b c && continues d)) [
  | inl e ↦ record { width = rw e refl; same = λ tail. rw e (rw e refl) }
  | inr e ↦ absurd cc
]

four-IsWhole :
    (b : ℕ) (rest : Bytes) → is_invalid (decode_four b rest) ≡ false → IsWhole decode_four b rest
unfolding decode_four
four-IsWhole b [] h = absurd cc
four-IsWhole b (c ∷ []) h = absurd cc
four-IsWhole b (c ∷ d ∷ []) h = absurd cc
four-IsWhole b (c ∷ d ∷ f ∷ rest) h =
    elim (Bool-cases (second_of_four b c && continues d && continues f)) [
      | inl e ↦ record { width = rw e refl; same = λ tail. rw e (rw e refl) }
      | inr e ↦ absurd cc
    ]

ascii : Reader
ascii b rest = record { rune = b; width = 1 }

ascii-IsWhole : (b : ℕ) (rest : Bytes) → IsWhole ascii b rest
unfolding ascii
ascii-IsWhole b rest = record { width = refl; same = λ tail. refl }

-- A reader that agrees with another at a first byte.
transfer :
    (read : Reader) (b : ℕ) (rest : Bytes)
    → ((s : Bytes) → decode_rune b s ≡ read b s)
    → (is_invalid (read b rest) ≡ false → IsWhole read b rest)
    → is_invalid (decode_rune b rest) ≡ false
    → IsWhole decode_rune b rest
transfer read b rest e whole h =
    let w = whole (rw (e rest) at h) in
    record { width = rw (e rest) w.width; same = λ tail. rw (e rest) (e _ ∙ w.same tail) }

pub decode_rune-IsWhole :
    (b : ℕ) (rest : Bytes) → is_invalid (decode_rune b rest) ≡ false → IsWhole decode_rune b rest
unfolding decode_rune ascii
decode_rune-IsWhole b rest h = elim (Bool-cases (ltb b 0x80)) [
  | inl e ↦ transfer ascii b rest (λ s. rw e refl) (λ _. ascii-IsWhole b rest) h
  | inr e ↦ elim (Bool-cases (within 0xc2 0xdf b)) [
    | inl f ↦ transfer decode_two b rest (λ s. rw (e, f) refl) (two-IsWhole b rest) h
    | inr f ↦ elim (Bool-cases (within 0xe0 0xef b)) [
      | inl g ↦ transfer decode_three b rest (λ s. rw (e, f, g) refl) (three-IsWhole b rest) h
      | inr g ↦ elim (Bool-cases (within 0xf0 0xf4 b)) [
        | inl i ↦ transfer decode_four b rest (λ s. rw (e, f, g, i) refl) (four-IsWhole b rest) h
        | inr i ↦ absurd cc
      ]
    ]
  ]
]

skip_all : (u tail : Bytes) → decode_from (length u) (u ++ tail) ≡ decode_from 0 tail
unfolding decode_from
skip_all [] tail = refl
skip_all (c ∷ u) tail = skip_all u tail

pred_eq : (n m : ℕ) → n ≡ suc m → n - 1 ≡ m
pred_eq n m h = omega (arith, h)

-- The decodings of a rune in front of a text.
pub decodings-whole :
    (b : ℕ) (rest tail : Bytes)
    → is_invalid (decode_rune b rest) ≡ false
    → decodings (b ∷ take ((decode_rune b rest).width - 1) rest ++ tail)
      ≡ decode_rune b rest ∷ decodings tail
unfolding decodings decode_from
decodings-whole b rest tail h =
    let w = decode_rune-IsWhole b rest h in
    let u = take ((decode_rune b rest).width - 1) rest in
    rw (w.same tail) (
      ap (◌∷◌ (decode_rune b rest))
        (ap (λ n. decode_from n (u ++ tail)) (pred_eq _ _ w.width) ∙ skip_all u tail))

-- A byte of ASCII stands for itself.
pub decodings-ascii :
    (b : ℕ) (tail : Bytes)
    → ltb b 0x80 ≡ true
    → decodings (b ∷ tail) ≡ record { rune = b; width = 1 } ∷ decodings tail
unfolding decodings decode_from decode_rune
decodings-ascii b tail e = rw e refl
