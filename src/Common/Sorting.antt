-- ===== src/Common/Sorting.antt =====
-- `sort.Strings`: the texts in the order of their bytes. Texts that are equal cannot be told apart,
-- so the result does not depend on the algorithm; insertion is used here.
use mathlib.Core.Path.{ap₂}
use mathlib.Core.List.Perm
use mathlib.Core.List.{Perm, Permᴰ}
use mathlib.Core.Logic.{∥∥₁_elim}
use ezdbbackup.Common.{
  ◌≡◌, refl, ◌∙◌, true, false, List, [], ◌∷◌, arith, if◌then◌else◌, Bool-cases, inl, inr,
}
use ezdbbackup.Common.Bytes.{Bytes, lt_bytes}

unfoldable pub insert_text : Bytes → List Bytes → List Bytes
insert_text x [] = x ∷ []
insert_text x (y ∷ ys) = if lt_bytes y x then y ∷ insert_text x ys else x ∷ y ∷ ys

unfoldable pub sort_strings : List Bytes → List Bytes
unfolding insert_text
sort_strings [] = []
sort_strings (x ∷ xs) = insert_text x (sort_strings xs)

lt_asym : (a b : Bytes) → lt_bytes a b ≡ true → lt_bytes b a ≡ false
unfolding lt_bytes
lt_asym [] [] h = refl
lt_asym [] (_ ∷ _) h = refl
lt_asym (_ ∷ _) [] h = cc
lt_asym (x ∷ xs) (y ∷ ys) h = ground (arith, lt_asym xs ys)

lt_antisym : (a b : Bytes) → lt_bytes a b ≡ false → lt_bytes b a ≡ false → a ≡ b
unfolding lt_bytes
lt_antisym [] [] h k = refl
lt_antisym [] (_ ∷ _) h k = cc
lt_antisym (_ ∷ _) [] h k = cc
lt_antisym (x ∷ xs) (y ∷ ys) h k = ground (arith, lt_antisym xs ys)

-- x ≤ z and z < y
le_lt_trans : (x z y : Bytes) → lt_bytes z x ≡ false → lt_bytes z y ≡ true → lt_bytes x y ≡ true
unfolding lt_bytes
le_lt_trans [] [] y h k = k
le_lt_trans [] (z ∷ zs) [] h k = cc
le_lt_trans [] (z ∷ zs) (y ∷ ys) h k = refl
le_lt_trans (x ∷ xs) [] y h k = cc
le_lt_trans (x ∷ xs) (z ∷ zs) [] h k = cc
le_lt_trans (x ∷ xs) (z ∷ zs) (y ∷ ys) h k = ground (arith, le_lt_trans xs zs ys)

insert_comm :
    (x y : Bytes) (l : List Bytes)
    → insert_text x (insert_text y l) ≡ insert_text y (insert_text x l)
unfolding insert_text
insert_comm x y [] = ground (arith, lt_asym x y, lt_asym y x, lt_antisym x y)
insert_comm x y (z ∷ zs) = ground (
  arith,
  insert_comm x y zs,
  lt_asym x y,
  lt_asym y x,
  lt_antisym x y,
  le_lt_trans x z y,
  le_lt_trans y z x,
)

texts_set : IsSet (List Bytes)
texts_set = hlevel

sort-Permᴰ : {l m : List Bytes} → Permᴰ l m → sort_strings l ≡ sort_strings m
unfolding sort_strings
sort-Permᴰ Permᴰ.nil = refl
sort-Permᴰ (Permᴰ.cons e p) = ap₂ insert_text e (sort-Permᴰ p)
sort-Permᴰ (Permᴰ.swap {a} {b} {l = l} e f) =
    insert_comm a b (sort_strings l)
    ∙ ap₂ (λ x y. insert_text x (insert_text y (sort_strings l))) f e
sort-Permᴰ (Permᴰ.trans p q) = sort-Permᴰ p ∙ sort-Permᴰ q

-- The sorted list does not depend on the order of what is sorted.
pub sort-perm : {l m : List Bytes} → Perm l m → sort_strings l ≡ sort_strings m
sort-perm p = ∥∥₁_elim p (λ x y. texts_set _ _ x y) sort-Permᴰ

-- each text is not above the next
abbrev pub IsSorted : List Bytes → Type 0
IsSorted [] = Unit
IsSorted (x ∷ []) = Unit
IsSorted (x ∷ y ∷ ys) = (lt_bytes y x ≡ false) × IsSorted (y ∷ ys)

insert-IsSorted : (x : Bytes) (l : List Bytes) → IsSorted l → IsSorted (insert_text x l)
unfolding insert_text
insert-IsSorted x [] h = tt
insert-IsSorted x (y ∷ []) h = elim (Bool-cases (lt_bytes y x)) [
  | inl e ↦ rw e (lt_asym y x e, tt)
  | inr e ↦ rw e (e, tt)
]
insert-IsSorted x (y ∷ z ∷ zs) h = elim (Bool-cases (lt_bytes y x)) [
  | inr e ↦ rw e (e, h)
  | inl e ↦ elim (Bool-cases (lt_bytes z x)) [
    | inl f ↦ rw (e, f) (h.0, rw f at (insert-IsSorted x (z ∷ zs) h.1))
    | inr f ↦ rw (e, f) (lt_asym y x e, (f, h.1))
  ]
]

pub sort-IsSorted : (l : List Bytes) → IsSorted (sort_strings l)
unfolding sort_strings
sort-IsSorted [] = tt
sort-IsSorted (x ∷ xs) = insert-IsSorted x _ (sort-IsSorted xs)

pub insert-perm : (x : Bytes) (l : List Bytes) → Perm (insert_text x l) (x ∷ l)
unfolding insert_text
insert-perm x [] = Perm.refl _
insert-perm x (y ∷ ys) = elim (Bool-cases (lt_bytes y x)) [
  | inl e ↦ rw e (Perm.trans (Perm.cons y (insert-perm x ys)) (Perm.swap x y ys))
  | inr e ↦ rw e (Perm.refl _)
]

pub sort_strings-perm : (l : List Bytes) → Perm (sort_strings l) l
unfolding sort_strings
sort_strings-perm [] = Perm.refl _
sort_strings-perm (x ∷ xs) =
    Perm.trans (insert-perm x (sort_strings xs)) (Perm.cons x (sort_strings-perm xs))
