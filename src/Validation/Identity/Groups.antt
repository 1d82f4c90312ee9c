-- ===== src/Validation/Identity/Groups.antt =====
-- internal/validation/environment.go: `sameGroupSet` compares sets.
use ezdbbackup.Common.{
  ℕ, suc, ◌≤◌, ◌≡◌, refl, sym, ap, ◌∙◌, Bool, true, false, not, ◌&&◌, ◌||◌, List, [], ◌∷◌, all,
  ◌==◌, ==_iff, length, if◌then◌else◌, arith, Bool-cases, inl, inr,
}
use ezdbbackup.Validation.Identity.{in_group, same_group_set}

-- no element twice, as the keys of a map
abbrev pub IsDistinct : List ℕ → Type 0
IsDistinct [] = Unit
IsDistinct (g ∷ groups) = (in_group groups g ≡ false) × IsDistinct groups

-- the list without the first place of an element
abbrev pub without : ℕ → List ℕ → List ℕ
without g [] = []
without g (h ∷ groups) = let rest = without g groups in if h == g then groups else h ∷ rest

length-without :
    (g : ℕ) (groups : List ℕ)
    → in_group groups g ≡ true
    → suc (length (without g groups)) ≡ length groups
length-without g [] h = absurd cc
length-without g (x ∷ groups) h = ground (arith, length-without g groups)

in_group-without :
    (g x : ℕ) (groups : List ℕ)
    → (x == g) ≡ false
    → in_group (without x groups) g ≡ in_group groups g
in_group-without g x [] h = refl
in_group-without g x (y ∷ groups) h = ground (arith, in_group-without g x groups)

not_head :
    (x y : ℕ) (rest : Bool) → ((y == x) || rest) ≡ false → ((x == y) ≡ false) × (rest ≡ false)
not_head x y rest h = ground arith

and_parts : (a b : Bool) → (a && b) ≡ true → (a ≡ true) × (b ≡ true)
and_parts a b h = ground arith

all-without :
    (x : ℕ) (left right : List ℕ)
    → in_group left x ≡ false
    → all (in_group right) left ≡ true
    → all (in_group (without x right)) left ≡ true
all-without x [] right h k = refl
all-without x (y ∷ left) right h k =
    let (apart, rest) = not_head x y (in_group left x) h in
    let (here, there) = and_parts (in_group right y) (all (in_group right) left) k in
    rw (in_group-without y x right apart, here) (all-without x left right rest there)

-- Distinct elements of a list of the same length are all of it.
all_of :
    (left right : List ℕ) (g : ℕ)
    → IsDistinct left
    → length left ≡ length right
    → all (in_group right) left ≡ true
    → in_group right g ≡ true
    → in_group left g ≡ true
all_of [] [] g d l a h = h
all_of [] (y ∷ right) g d l a h = absurd (omega (arith, l))
all_of (x ∷ left) right g d l a h =
    let (here, there) = and_parts (in_group right x) (all (in_group right) left) a in
    elim (Bool-cases (x == g)) [
      | inl e ↦ rw e refl
      | inr e ↦ rw e (
          all_of left (without x right) g d.1 (omega (arith, l, length-without x right here))
            (all-without x left right d.0 there) (in_group-without g x right e ∙ h))
    ]

subset_length :
    (left right : List ℕ)
    → IsDistinct left
    → all (in_group right) left ≡ true
    → length left ≤ length right
subset_length [] right d a = omega arith
subset_length (x ∷ left) right d a =
    let (here, there) = and_parts (in_group right x) (all (in_group right) left) a in
    omega (
      arith,
      subset_length left (without x right) d.1 (all-without x left right d.0 there),
      length-without x right here,
    )

all-members :
    (left right : List ℕ)
    → ((g : ℕ) → in_group left g ≡ true → in_group right g ≡ true)
    → all (in_group right) left ≡ true
all-members [] right h = refl
all-members (x ∷ left) right h =
    let here = h x (ground arith) in
    rw here (all-members left right (λ g k. h g (ground (arith, k))))

member_of :
    (left right : List ℕ) (g : ℕ)
    → all (in_group right) left ≡ true
    → in_group left g ≡ true
    → in_group right g ≡ true
member_of [] right g a h = absurd cc
member_of (x ∷ left) right g a h =
    let (here, there) = and_parts (in_group right x) (all (in_group right) left) a in
    elim (Bool-cases (x == g)) [
      | inl e ↦ ap (in_group right) (sym ((==_iff x g).0 e)) ∙ here
      | inr e ↦ member_of left right g there (rw e at h)
    ]

same_true : (a b : Bool) → (a ≡ true → b ≡ true) → (b ≡ true → a ≡ true) → a ≡ b
same_true true b h k = sym (h refl)
same_true false true h k = k refl
same_true false false h k = refl

-- the two lists have the same elements
abbrev pub SameGroups : List ℕ → List ℕ → Type 0
SameGroups left right = (g : ℕ) → in_group left g ≡ in_group right g

guard_parts : (a b : Bool) → (if not a then false else b) ≡ true → (a ≡ true) × (b ≡ true)
guard_parts a b h = ground arith

pub same_group_set-SameGroups :
    (left right : List ℕ)
    → IsDistinct left
    → same_group_set left right ≡ true
    → SameGroups left right
unfolding same_group_set
same_group_set-SameGroups left right d h g =
    let (l, a) = guard_parts (length left == length right) (all (in_group right) left) h in
    same_true _ _ (member_of left right g a) (all_of left right g d ((==_iff _ _).0 l) a)

pub SameGroups-same_group_set :
    (left right : List ℕ)
    → IsDistinct left
    → IsDistinct right
    → SameGroups left right
    → same_group_set left right ≡ true
unfolding same_group_set
SameGroups-same_group_set left right d e h =
    let a = all-members left right (λ g k. sym (h g) ∙ k) in
    let b = all-members right left (λ g k. h g ∙ k) in
    let l =
      (==_iff (length left) (length right)).1
        (omega (arith, subset_length left right d a, subset_length right left e b)) in
    rw (l, a) refl
