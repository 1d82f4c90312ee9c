-- ===== src/Dump/Capture/Borders.antt =====
-- internal/dump/runner.go: prefixes of a pattern that end a text, and the inner loop that finds the
-- longest one that the next byte continues.
use ezdbbackup.Common.{
  ℕ, zero, suc, ◌-◌, ◌≤◌, ◌<◌, ◌≡◌, ◌⊎◌, refl, sym, ap, ◌∙◌, false, List, [], ◌∷◌, ◌++◌, arith,
  append_assoc, ◌==◌, ==_iff, length, length-append, take, Bool-cases, inl, inr,
}
use ezdbbackup.Common.Bytes.{Bytes}
use ezdbbackup.Dump.Capture.{fall_back, at}

-- the text ends in the first `k` bytes of the pattern
abbrev pub Ends : Bytes → Bytes → ℕ → Type 0
Ends pattern text k = (front : Bytes) × (text ≡ front ++ take k pattern)

pub length-take-exact : (n : ℕ) (p : Bytes) → n ≤ length p → length (take n p) ≡ n
length-take-exact zero p h = refl
length-take-exact (suc n) [] h = absurd (omega (arith, h))
length-take-exact (suc n) (c ∷ p) h = ap (λ k. suc k) (length-take-exact n p (omega (arith, h)))

pub take-suc : (k : ℕ) (p : Bytes) → k < length p → take (suc k) p ≡ take k p ++ at p k ∷ []
take-suc zero [] h = absurd (omega (arith, h))
take-suc zero (c ∷ p) h = refl
take-suc (suc k) [] h = absurd (omega (arith, h))
take-suc (suc k) (c ∷ p) h = ap (◌∷◌ c) (take-suc k p (omega (arith, h)))

pub tail_eq : (x y : ℕ) (u v : Bytes) → (x ∷ u) ≡ (y ∷ v) → (x ≡ y) × (u ≡ v)
tail_eq x y u v e = (cc, cc)

-- Of two endings of a text the shorter ends the longer.
pub shorter_ending :
    (u a v b : Bytes) → u ++ a ≡ v ++ b → length b ≤ length a → (w : Bytes) × (a ≡ w ++ b)
shorter_ending [] a v b e h = (v, e)
shorter_ending (x ∷ u) a [] b e h = absurd (omega (arith, h, ap length e, length-append u a))
shorter_ending (x ∷ u) a (y ∷ v) b e h =
    shorter_ending u a v b (tail_eq x y (u ++ a) (v ++ b) e).1 h

-- The last bytes of equal texts.
pub last_eq : (u v : Bytes) (x y : ℕ) → u ++ x ∷ [] ≡ v ++ y ∷ [] → (u ≡ v) × (x ≡ y)
last_eq [] [] x y e = (refl, (tail_eq x y [] [] e).0)
last_eq [] (b ∷ []) x y e = absurd cc
last_eq [] (b ∷ c ∷ v) x y e = absurd cc
last_eq (a ∷ []) [] x y e = absurd cc
last_eq (a ∷ c ∷ u) [] x y e = absurd cc
last_eq (a ∷ u) (b ∷ v) x y e =
    let (h, t) = tail_eq a b (u ++ x ∷ []) (v ++ y ∷ []) e in
    let (f, g) = last_eq u v x y t in (cc, g)

-- `k` is the longest proper border of the first `m` bytes.
pub record IsEntry (pattern : Bytes) (k m : ℕ) : Type 0 where
  pub less : k < m
  pub ends : Ends pattern (take m pattern) k
  pub longest : (j : ℕ) → j < m → Ends pattern (take m pattern) j → j ≤ k

-- The table's elements below an index are right.
abbrev pub IsTable : Bytes → List ℕ → ℕ → Type 0
IsTable pattern failure n = (m : ℕ) → m < n → IsEntry pattern (at failure m) (suc m)

-- What the inner loop gives: the longest border, up to a bound, that the byte continues, or 0.
pub record IsFound (pattern text : Bytes) (value bound k : ℕ) : Type 0 where
  pub below : k ≤ bound
  pub ends : Ends pattern text k
  pub continued : (at pattern k ≡ value) ⊎ (k ≡ 0)
  pub longest : (j : ℕ) → j ≤ bound → Ends pattern text j → at pattern j ≡ value → j ≤ k

suc_pred : (k : ℕ) → suc k - 1 ≡ k
suc_pred k = omega arith

pub suc_nonzero : (k : ℕ) → (suc k == 0) ≡ false
suc_nonzero k = ground arith

pub differs : (a b : ℕ) → (a == b) ≡ false → a ≡ b → ⊥
differs a b h e = ground arith

step_below : (j k : ℕ) → j ≤ suc k → (j ≡ suc k → ⊥) → j < suc k
step_below j k h n = ground (arith, h, n)

-- Endings of a text that are shorter than one of its endings are endings of that one.
inner :
    (pattern text : Bytes) (j m : ℕ)
    → j ≤ m
    → m ≤ length pattern
    → Ends pattern text m
    → Ends pattern text j
    → Ends pattern (take m pattern) j
inner pattern text j m h l (u, e) (v, f) =
    shorter_ending u (take m pattern) v (take j pattern) (sym e ∙ f) (
      omega (
        arith,
        h,
        l,
        length-take-exact m pattern l,
        length-take-exact j pattern (omega (arith, h, l)),
      ))

outer :
    (pattern text : Bytes) (j m : ℕ)
    → Ends pattern text m
    → Ends pattern (take m pattern) j
    → Ends pattern text j
outer pattern text j m (u, e) (v, f) =
    (u ++ v, e ∙ ap (◌++◌ u) f ∙ sym (append_assoc u v (take j pattern)))

module _ (pattern : Bytes) (failure : List ℕ) (value : ℕ) (text : Bytes) (n bound : ℕ)
    (table : IsTable pattern failure n) where
  pub fall_back-IsFound :
      (fuel m : ℕ)
      → m ≤ fuel
      → m ≤ n
      → m < length pattern
      → m ≤ bound
      → Ends pattern text m
      → ((j : ℕ) → j ≤ bound → Ends pattern text j → at pattern j ≡ value → j ≤ m)
      → IsFound pattern text value bound (fall_back pattern failure value fuel m)
  fall_back-IsFound zero m f i l b e c = record {
    below = b;
    ends = e;
    continued = inr (omega (arith, f));
    longest = c;
  }
  fall_back-IsFound (suc fuel) zero f i l b e c = record {
    below = b;
    ends = e;
    continued = inr refl;
    longest = c;
  }
  fall_back-IsFound (suc fuel) (suc k) f i l b e c =
      elim (Bool-cases (at pattern (suc k) == value)) [
        | inl same ↦
            rw (suc_nonzero k, same)
              (record { below = b; ends = e; continued = inl ((==_iff _ _).0 same); longest = c })
        | inr other ↦
            rw (suc_nonzero k, other, suc_pred k)
              (let entry = table k (omega (arith, i)) in
                fall_back-IsFound fuel (at failure k) (omega (arith, f, entry.less))
                  (omega (arith, i, entry.less)) (omega (arith, l, entry.less))
                  (omega (arith, b, entry.less))
                  (outer pattern text (at failure k) (suc k) e entry.ends)
                  (λ j under ending fits.
                    let smaller =
                      step_below j k (c j under ending fits)
                        (λ q. differs _ _ other (sym (ap (at pattern) q) ∙ fits)) in
                    entry.longest j smaller (
                      inner pattern text j (suc k) (omega (arith, smaller)) (omega (arith, l)) e
                        ending)))
      ]
