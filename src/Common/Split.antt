-- ===== src/Common/Split.antt =====
-- `strings.Split` at one byte, and `strings.Join`, undo one another.
use mathlib.Core.Path.{subst}
use ezdbbackup.Common.{
  ℕ, ◌||◌, ◌≡◌, refl, sym, ap, ◌∙◌, Bool, true, false, List, [], ◌∷◌, ◌++◌, All, arith, ◌==◌,
  ==_iff, Bool-cases, inl, inr,
}
use ezdbbackup.Common.Bytes.{Bytes, is_empty, contains_byte, join, split, cons_head}

join-cons_head : (sep : Bytes) (c : ℕ) (l : List Bytes) → join sep (cons_head c l) ≡ c ∷ join sep l
join-cons_head sep c [] = refl
join-cons_head sep c (x ∷ []) = refl
join-cons_head sep c (x ∷ y ∷ ys) = refl

split_sep : (sep c : ℕ) (s : Bytes) → (c == sep) ≡ true → split sep (c ∷ s) ≡ [] ∷ split sep s
unfolding split
split_sep sep c s e = rw e

split_other :
    (sep c : ℕ) (s : Bytes) → (c == sep) ≡ false → split sep (c ∷ s) ≡ cons_head c (split sep s)
unfolding split
split_other sep c s e = rw e

is_empty-cons_head : (c : ℕ) (l : List Bytes) → is_empty (cons_head c l) ≡ false
is_empty-cons_head c [] = refl
is_empty-cons_head c (x ∷ l) = refl

pub is_empty-split : (sep : ℕ) (s : Bytes) → is_empty (split sep s) ≡ false
is_empty-split sep [] = unfold split in refl
is_empty-split sep (c ∷ s) = elim (Bool-cases (c == sep)) [
  | inl e ↦ rw (split_sep sep c s e)
  | inr e ↦ rw (split_other sep c s e) (is_empty-cons_head c (split sep s))
]

join-nil_cons :
    (sep : ℕ) (l : List Bytes)
    → is_empty l ≡ false
    → join (sep ∷ []) ([] ∷ l) ≡ sep ∷ join (sep ∷ []) l
join-nil_cons sep [] h = cc
join-nil_cons sep (x ∷ l) h = refl

-- The pieces, joined, are the text.
pub join-split : (sep : ℕ) (s : Bytes) → join (sep ∷ []) (split sep s) ≡ s
join-split sep [] = unfold split in refl
join-split sep (c ∷ s) = elim (Bool-cases (c == sep)) [
  | inl e ↦ rw (split_sep sep c s e) (
      join-nil_cons sep (split sep s) (is_empty-split sep s)
      ∙ cc (join-split sep s, (==_iff c sep).0 e))
  | inr e ↦
      rw (split_other sep c s e)
        (join-cons_head (sep ∷ []) c (split sep s) ∙ ap (◌∷◌ c) (join-split sep s))
]

abbrev pub Free : ℕ → Bytes → Type 0
Free sep s = contains_byte s sep ≡ false

Free-cons_head :
    (sep c : ℕ) (l : List Bytes)
    → (c == sep) ≡ false
    → All (Free sep) l
    → All (Free sep) (cons_head c l)
Free-cons_head sep c [] e h = (ground arith, tt)
Free-cons_head sep c (x ∷ xs) e h = (ground arith, h.1)

-- The pieces hold no separator.
pub split-All : (sep : ℕ) (s : Bytes) → All (Free sep) (split sep s)
split-All sep [] = unfold split in (refl, tt)
split-All sep (c ∷ s) = elim (Bool-cases (c == sep)) [
  | inl e ↦ rw (split_sep sep c s e) (refl, split-All sep s)
  | inr e ↦ rw (split_other sep c s e) (Free-cons_head sep c (split sep s) e (split-All sep s))
]

free_head : (a b : Bool) → (a || b) ≡ false → (a ≡ false) × (b ≡ false)
free_head a b h = ground arith

pub split-Free : (sep : ℕ) (s : Bytes) → Free sep s → split sep s ≡ s ∷ []
split-Free sep [] h = unfold split in refl
split-Free sep (c ∷ s) h =
    let (a, b) = free_head (c == sep) (contains_byte s sep) h in
    split_other sep c s a ∙ rw (split-Free sep s b)

pub split-append :
    (sep : ℕ) (s rest : Bytes) → Free sep s → split sep (s ++ sep ∷ rest) ≡ s ∷ split sep rest
split-append sep [] rest h = split_sep sep sep rest ((==_iff sep sep).1 refl)
split-append sep (c ∷ s) rest h =
    let (a, b) = free_head (c == sep) (contains_byte s sep) h in
    split_other sep c (s ++ sep ∷ rest) a ∙ rw (split-append sep s rest b)

-- Pieces that hold no separator come back.
pub split-join :
    (sep : ℕ) (l : List Bytes)
    → is_empty l ≡ false
    → All (Free sep) l
    → split sep (join (sep ∷ []) l) ≡ l
split-join sep [] n h = cc
split-join sep (x ∷ []) n h = split-Free sep x h.0
split-join sep (x ∷ y ∷ ys) n h =
    split-append sep x _ h.0 ∙ ap (◌∷◌ x) (split-join sep (y ∷ ys) refl h.1)

pub Free-append : (sep : ℕ) (s t : Bytes) → Free sep (s ++ t) → Free sep s × Free sep t
Free-append sep [] t h = (refl, h)
Free-append sep (c ∷ s) t h =
    let (a, b) = free_head (c == sep) (contains_byte (s ++ t) sep) h in
    let (f, g) = Free-append sep s t b in (rw a f, g)

pub append-Free : (sep : ℕ) (s t : Bytes) → Free sep s → Free sep t → Free sep (s ++ t)
append-Free sep [] t f g = g
append-Free sep (c ∷ s) t f g =
    let (a, b) = free_head (c == sep) (contains_byte s sep) f in rw a (append-Free sep s t b g)

-- One piece is the text itself, and two are the text with the separator between them.
pub one_piece : (sep : ℕ) (s x : Bytes) → split sep s ≡ x ∷ [] → (s ≡ x) × Free sep x
one_piece sep s x e = (
  sym (join-split sep s) ∙ ap (join (sep ∷ [])) e,
  (subst (All (Free sep)) e (split-All sep s)).0,
)

pub two_pieces :
    (sep : ℕ) (s x y : Bytes)
    → split sep s ≡ x ∷ y ∷ []
    → (s ≡ x ++ sep ∷ y) × Free sep x × Free sep y
two_pieces sep s x y e =
    let h = subst (All (Free sep)) e (split-All sep s) in
    (sym (join-split sep s) ∙ ap (join (sep ∷ [])) e, h.0, h.1.0)
