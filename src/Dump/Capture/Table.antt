-- ===== src/Dump/Capture/Table.antt =====
-- internal/dump/runner.go: the table of `prefixFailureTable` holds the longest proper borders.
use mathlib.Core.Path.{subst}
use ezdbbackup.Common.{
  ℕ, zero, suc, ◌≤◌, ◌<◌, ◌≡◌, refl, sym, ap, ◌∙◌, false, List, [], ◌∷◌, ◌++◌, arith, append_assoc,
  append-nil, ltb, ltb→lt, ltb-false→le, ◌==◌, ==_iff, length, length-append, take, Bool-cases, inl,
  inr,
}
use ezdbbackup.Common.Bytes.{Bytes}
use ezdbbackup.Dump.Capture.{fall_back, at, extended, failure_from, prefix_failure_table}
use ezdbbackup.Dump.Capture.Borders.{
  Ends, IsEntry, IsTable, IsFound, fall_back-IsFound, take-suc, last_eq, differs,
}

pub at-append : (s t : Bytes) (c : ℕ) → at (s ++ c ∷ t) (length s) ≡ c
at-append [] t c = refl
at-append (d ∷ s) t c = at-append s t c

at-left : (s t : List ℕ) (m : ℕ) → m < length s → at (s ++ t) m ≡ at s m
at-left [] t m h = absurd (omega (arith, h))
at-left (d ∷ s) t zero h = refl
at-left (d ∷ s) t (suc m) h = at-left s t m (omega (arith, h))

module _ (pattern : Bytes) (i matched value : ℕ) (inside : i < length pattern)
    (here : at pattern i ≡ value) (entry : IsEntry pattern matched i) where
  take-here : take (suc i) pattern ≡ take i pattern ++ value ∷ []
  take-here = take-suc i pattern inside ∙ ap (λ c. take i pattern ++ c ∷ []) here

  -- What ends the text with the next byte ends it without, and the byte continues it.
  ending_before :
      (j : ℕ)
      → j < i
      → Ends pattern (take (suc i) pattern) (suc j)
      → Ends pattern (take i pattern) j × (value ≡ at pattern j)
  ending_before j h (w, e) =
      let (front, last) = last_eq (take i pattern) (w ++ take j pattern) value (at pattern j) (
        sym take-here
        ∙ e
        ∙ ap (◌++◌ w) (take-suc j pattern (omega (arith, h, inside)))
        ∙ sym (append_assoc w (take j pattern) (at pattern j ∷ []))) in
      ((w, front), last)

  found_before :
      (k : ℕ)
      → IsFound pattern (take i pattern) value matched k
      → (j : ℕ) → j < i
      → Ends pattern (take (suc i) pattern) (suc j)
      → (at pattern j ≡ value) × (j ≤ k)
  found_before k found j h ending =
      let (before, last) = ending_before j h ending in
      (sym last, found.longest j (entry.longest j h before) before (sym last))

  at_zero :
      (k : ℕ)
      → IsFound pattern (take i pattern) value matched k
      → (at pattern k == value) ≡ false
      → k ≡ 0
  at_zero k found e = elim found.continued [ inl fits ↦ absurd (differs _ _ e fits) | inr z ↦ z ]

  zero-Ends : (k : ℕ) (text : Bytes) → k ≡ 0 → Ends pattern text k
  zero-Ends k text e = rw e (text, sym (append-nil text))

  pub next-IsEntry :
      (k : ℕ)
      → IsFound pattern (take i pattern) value matched k
      → IsEntry pattern (extended pattern value k) (suc i)
  next-IsEntry k found = elim (Bool-cases (at pattern k == value)) [
    | inl e ↦ rw e (record {
      less = omega (arith, found.below, entry.less);
      ends = longer_ending ((==_iff _ _).0 e) found.ends;
      longest = λ j. longer_bound j;
    })
    | inr e ↦ rw e (record {
      less = omega (arith, found.below, entry.less);
      ends = zero-Ends k (take (suc i) pattern) (at_zero k found e);
      longest = λ j. none_longer e j;
    })
  ]
    where
      longer_ending :
          at pattern k ≡ value
          → Ends pattern (take i pattern) k
          → Ends pattern (take (suc i) pattern) (suc k)
      longer_ending e (u, f) = (
        u,
        take-here
            ∙ ap (λ t. t ++ value ∷ []) f
            ∙ append_assoc u (take k pattern) (value ∷ [])
            ∙ ap (λ c. u ++ (take k pattern ++ c ∷ [])) (sym e)
            ∙ ap (◌++◌ u)
                (sym (take-suc k pattern (omega (arith, found.below, entry.less, inside)))),
      )

      longer_bound : (j : ℕ) → j < suc i → Ends pattern (take (suc i) pattern) j → j ≤ suc k
      longer_bound zero h ending = omega arith
      longer_bound (suc j) h ending =
          omega (arith, (found_before k found j (omega (arith, h)) ending).1)

      none_longer :
          (at pattern k == value) ≡ false
          → (j : ℕ) → j < suc i
          → Ends pattern (take (suc i) pattern) j
          → j ≤ k
      none_longer e zero h ending = omega arith
      none_longer e (suc j) h ending =
          let (fits, under) = found_before k found j (omega (arith, h)) ending in
          absurd (differs _ _ e (ap (at pattern) (omega (arith, under, at_zero k found e)) ∙ fits))

module _ (pattern : Bytes) (i matched value : ℕ) (inside : i < length pattern)
    (here : at pattern i ≡ value) (entry : IsEntry pattern matched i) where
  IsEntry-after :
      (failure : List ℕ)
      → IsTable pattern failure i
      → IsEntry pattern
          (extended pattern value (fall_back pattern failure value matched matched))
          (suc i)
  IsEntry-after failure table =
      next-IsEntry pattern i matched value inside here entry
        (fall_back pattern failure value matched matched)
        (fall_back-IsFound pattern failure value (take i pattern) i matched table matched matched
          (omega arith) (omega (arith, entry.less)) (omega (arith, entry.less, inside))
          (omega arith) entry.ends (λ j u _ _. u))

IsTable-grows :
    (pattern : Bytes) (failure : List ℕ) (next : ℕ)
    → IsTable pattern failure (length failure)
    → IsEntry pattern next (suc (length failure))
    → IsTable pattern (failure ++ next ∷ []) (length (failure ++ next ∷ []))
IsTable-grows pattern failure next table entry m h = elim (Bool-cases (ltb m (length failure))) [
  | inl e ↦ rw (at-left failure (next ∷ []) m (ltb→lt _ _ e)) (table m (ltb→lt _ _ e))
  | inr e ↦ last_entry (omega (arith, h, length-append failure (next ∷ []), ltb-false→le _ _ e))
]
  where
    last_entry : m ≡ length failure → IsEntry pattern (at (failure ++ next ∷ []) m) (suc m)
    last_entry q = rw (q, at-append failure [] next) entry

below_length :
    (pattern done : Bytes) (value : ℕ) (values : Bytes)
    → pattern ≡ done ++ value ∷ values
    → length done < length pattern
below_length pattern done value values e =
    omega (arith, ap length e, length-append done (value ∷ values))

snoc_length : (s : List ℕ) (c : ℕ) → length (s ++ c ∷ []) ≡ suc (length s)
snoc_length s c = omega (arith, length-append s (c ∷ []))

from-IsTable :
    (pattern done values : Bytes) (failure : List ℕ) (matched : ℕ)
    → pattern ≡ done ++ values
    → length failure ≡ length done
    → IsTable pattern failure (length failure)
    → IsEntry pattern matched (length failure)
    → IsTable pattern (failure_from pattern failure matched values) (length pattern)
unfolding failure_from
from-IsTable pattern done [] failure matched e l table entry =
    subst (IsTable pattern failure) (l ∙ ap length (sym (append-nil done) ∙ sym e)) table
from-IsTable pattern done (value ∷ values) failure matched e l table entry =
    let next =
      IsEntry-after pattern (length failure) matched value
        (subst (λ n. n < length pattern) (sym l) (below_length pattern done value values e))
        (ap (at pattern) l ∙ ap (λ s. at s (length done)) e ∙ at-append done values value) entry
        failure table in
    let k = extended pattern value (fall_back pattern failure value matched matched) in
    from-IsTable pattern (done ++ value ∷ []) values (failure ++ k ∷ []) k
      (e ∙ sym (append_assoc done (value ∷ []) values))
      (snoc_length failure k ∙ ap (λ n. suc n) l ∙ sym (snoc_length done value))
      (IsTable-grows pattern failure k table next)
      (subst (IsEntry pattern k) (sym (snoc_length failure k)) next)

-- Each element of the table of a pattern is the length of the longest border, shorter than all, of
-- the prefix that ends at its index.
pub prefix_failure_table-IsTable :
    (pattern : Bytes) → IsTable pattern (prefix_failure_table pattern) (length pattern)
unfolding prefix_failure_table
prefix_failure_table-IsTable [] = λ m h. absurd (omega (arith, h))
prefix_failure_table-IsTable (c ∷ values) =
    from-IsTable (c ∷ values) (c ∷ []) values (0 ∷ []) 0 refl refl first_table first_entry
  where
    first_entry : IsEntry (c ∷ values) 0 1
    first_entry = record {
      less = omega arith;
      ends = (c ∷ [], refl);
      longest = λ j h _. omega (arith, h);
    }

    first_table : IsTable (c ∷ values) (0 ∷ []) 1
    first_table zero h = first_entry
    first_table (suc m) h = absurd (omega (arith, h))
