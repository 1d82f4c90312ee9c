-- ===== src/Dump/Capture/Reference/Scan.antt =====
-- internal/dump/runner.go: the loop with the table against the reference.
use mathlib.Core.Path.{subst}
use ezdbbackup.Common.{
  ℕ, zero, suc, ◌-◌, ◌≤◌, ◌<◌, ◌≡◌, refl, sym, ap, ◌∙◌, true, false, List, [], ◌∷◌, ◌++◌, arith,
  append_assoc, append-nil, ltb, ◌==◌, ==_iff, if◌then◌else◌, length, length-append, take,
  Bool-cases, inl, inr,
}
use ezdbbackup.Common.Bytes.{Bytes, has_prefix}
use ezdbbackup.Dump.Capture.{redacted, at, fall_back}
use ezdbbackup.Dump.Capture.Borders.{
  Ends, IsTable, IsFound, fall_back-IsFound, take-suc, length-take-exact, differs, tail_eq,
  suc_nonzero,
}
use ezdbbackup.Dump.Capture.Capped.{take-all}
use ezdbbackup.Dump.Capture.Stream.{step, stream}
use ezdbbackup.Dump.Capture.Reference.{
  redact_from, NoHit, hit, redact-NoHit, redact-unhit, redact-secret, redact-part, hit-agrees,
}

module _ (secret : Bytes) (m k c : ℕ) (cs : Bytes) (inside : m < length secret)
    (found : IsFound secret (take m secret) c m k) where
  abbrev behind : Bytes
  behind = take k secret ++ c ∷ cs

  longer_size : (front z : Bytes) → take m secret ≡ front ++ z → length z ≤ m
  longer_size front z e = omega (
    arith,
    ap length e,
    length-append front z,
    length-take-exact m secret (omega (arith, inside)),
  )

  not_longer :
      (front z : Bytes)
      → take m secret ≡ front ++ z
      → k < length z
      → hit secret (z ++ c ∷ cs) ≡ true
      → ⊥
  not_longer front z e l h =
      let (same, next) =
        hit-agrees secret z c cs (omega (arith, inside, longer_size front z e)) h in
      omega (
        arith,
        l,
        found.longest (length z) (longer_size front z e) (front, e ∙ ap (◌++◌ front) same) next,
      )

  clear : (front u : Bytes) → take m secret ≡ front ++ (u ++ take k secret) → NoHit secret u behind
  clear front [] e = tt
  clear front (a ∷ u) e = (
    elim (Bool-cases (hit secret (a ∷ u ++ behind))) [
      | inl h ↦ absurd (
          not_longer front (a ∷ u ++ take k secret) e longer
            (ap (hit secret) (append_assoc (a ∷ u) (take k secret) (c ∷ cs)) ∙ h))
      | inr h ↦ h
    ],
    clear (front ++ a ∷ []) u (e ∙ sym (append_assoc front (a ∷ []) (u ++ take k secret))),
  )
    where
      longer : k < length (a ∷ u ++ take k secret)
      longer = omega (
        arith,
        length-append (a ∷ u) (take k secret),
        length-take-exact k secret (omega (arith, inside, found.below)),
      )

  -- The matched bytes in front of the border that remains hold no place that is hit.
  pub redact-shift :
      redact_from secret 0 (take m secret ++ c ∷ cs) ≡ found.ends.0 ++ redact_from secret 0 behind
  redact-shift =
      ap (λ t. redact_from secret 0 (t ++ c ∷ cs)) found.ends.1
      ∙ ap (redact_from secret 0) (append_assoc found.ends.0 (take k secret) (c ∷ cs))
      ∙ redact-NoHit secret found.ends.0 behind (clear [] found.ends.0 found.ends.1)

take-front : (s u w : Bytes) (m : ℕ) → take m s ≡ u ++ w → take (length u) s ≡ u
take-front s [] w m e = refl
take-front [] (a ∷ u) w zero e = absurd cc
take-front [] (a ∷ u) w (suc m) e = absurd cc
take-front (d ∷ s) (a ∷ u) w zero e = absurd cc
take-front (d ∷ s) (a ∷ u) w (suc m) e = cc (
  take-front s u w m (tail_eq d a (take m s) (u ++ w) e).1,
  (tail_eq d a (take m s) (u ++ w) e).0,
)

-- The bytes that a shorter border releases.
released :
    (secret : Bytes) (m k : ℕ) (ends : Ends secret (take m secret) k)
    → k ≤ m
    → m ≤ length secret
    → (if ltb k m then take (m - k) secret else []) ≡ ends.0
released secret m k (u, e) h l = elim (Bool-cases (ltb k m)) [
  | inl f ↦ rw f (ap (λ n. take n secret) size ∙ take-front secret u (take k secret) m e)
  | inr f ↦ rw f (sym (empty_list u (ground (arith, size, h))))
]
  where
    size : m - k ≡ length u
    size = omega (
      arith,
      ap length e,
      length-append u (take k secret),
      length-take-exact m secret l,
      length-take-exact k secret (omega (arith, h, l)),
    )

    empty_list : (v : Bytes) → length v ≡ 0 → v ≡ []
    empty_list [] q = refl
    empty_list (a ∷ v) q = absurd (omega (arith, q))

unfit_zero :
    (secret : Bytes) (m k c : ℕ)
    → IsFound secret (take m secret) c m k
    → (at secret k == c) ≡ false
    → k ≡ 0
unfit_zero secret m k c found e = elim found.continued [
  | inl fits ↦ absurd (differs _ _ e fits)
  | inr z ↦ z
]

released_all :
    (secret : Bytes) (m k : ℕ) (ends : Ends secret (take m secret) k)
    → k ≤ m
    → m ≤ length secret
    → k ≡ 0
    → (if ltb 0 m then take m secret else []) ≡ ends.0
released_all secret m k ends h l z =
    ap (λ n. if ltb 0 m then take n secret else []) (less_zero m)
    ∙ subst (λ j. (if ltb j m then take (m - j) secret else []) ≡ ends.0) z
        (released secret m k ends h l)
  where
    less_zero : (n : ℕ) → n ≡ n - 0
    less_zero n = omega arith

redact-whole :
    (secret t : Bytes)
    → 0 < length secret
    → redact_from secret 0 (secret ++ t) ≡ redacted ++ redact_from secret 0 t
redact-whole [] t h = absurd (omega (arith, h))
redact-whole (c ∷ s) t h = redact-secret c s t

has_prefix-take : (n : ℕ) (s : Bytes) → has_prefix s (take n s) ≡ true
has_prefix-take zero s = refl
has_prefix-take (suc n) [] = refl
has_prefix-take (suc n) (c ∷ s) = ground (arith, has_prefix-take n s)

-- What `finish` replaces.
redact-rest :
    (secret : Bytes) (m : ℕ)
    → m < length secret
    → redact_from secret 0 (take m secret ++ []) ≡ (if m == 0 then [] else redacted)
unfolding redact_from
redact-rest secret zero h = refl
redact-rest [] (suc m) h = absurd (omega (arith, h))
redact-rest (c ∷ s) (suc m) h =
    ap (redact_from (c ∷ s) 0) (append-nil (c ∷ take m s))
    ∙ redact-part (c ∷ s) c (take m s) (has_prefix-take (suc m) (c ∷ s))
        (omega (arith, h, length-take-exact (suc m) (c ∷ s) (omega (arith, h))))
    ∙ sym (rw (suc_nonzero m) refl)

module _ (secret : Bytes) (failure : List ℕ) (table : IsTable secret failure (length secret)) where
  IsFound-for :
      (m c : ℕ)
      → m < length secret
      → IsFound secret (take m secret) c m (fall_back secret failure c m m)
  IsFound-for m c h =
      fall_back-IsFound secret failure c (take m secret) (length secret) m table m m (omega arith)
        (omega (arith, h)) h (omega arith) ([], refl) (λ j u _ _. u)

  -- A byte that continues a border, taken into the matched bytes.
  taken :
      (k c : ℕ) (cs : Bytes)
      → k < length secret
      → at secret k ≡ c
      → take k secret ++ c ∷ cs ≡ take (suc k) secret ++ cs
  taken k c cs h e =
      sym (append_assoc (take k secret) (c ∷ []) cs)
      ∙ ap (λ t. t ++ cs) (ap (λ b. take k secret ++ b ∷ []) (sym e) ∙ sym (take-suc k secret h))

  whole_step :
      (k c : ℕ) (cs : Bytes)
      → suc k ≡ length secret
      → at secret k ≡ c
      → redact_from secret 0 (take k secret ++ c ∷ cs) ≡ redacted ++ redact_from secret 0 cs
  whole_step k c cs f e =
      ap (redact_from secret 0) (
        taken k c cs (omega (arith, f)) e
        ∙ ap (λ t. t ++ cs) (take-all (suc k) secret (omega (arith, f))))
      ∙ redact-whole secret cs (omega (arith, f))

  below_whole :
      (k : ℕ) → k < length secret → (suc k == length secret) ≡ false → suc k < length secret
  below_whole k h f = ground arith

  unfit_first :
      (c : ℕ) (cs : Bytes)
      → 0 < length secret
      → (at secret 0 == c) ≡ false
      → hit secret (c ∷ cs) ≡ false
  unfit_first c cs h e = elim (Bool-cases (hit secret (c ∷ cs))) [
    | inl f ↦ absurd (differs _ _ e (hit-agrees secret [] c cs h f).1)
    | inr f ↦ f
  ]

  pub stream-redact :
      (m : ℕ) (x : Bytes)
      → m < length secret
      → stream secret failure m x ≡ redact_from secret 0 (take m secret ++ x)
  unfolding stream step
  stream-redact m [] h = sym (redact-rest secret m h)
  stream-redact m (c ∷ cs) h =
      let k = fall_back secret failure c m m in
      let found = IsFound-for m c h in
      let shift = redact-shift secret m k c cs h found in
      let out = released secret m k found.ends found.below (omega (arith, h)) in
      let again = λ (n : ℕ) (l : n < length secret). stream-redact n cs l in
      elim (Bool-cases (at secret k == c)) [
        | inl e ↦ elim (Bool-cases (suc k == length secret)) [
          | inl f ↦
              rw (e, f, shift, out)
                (append_assoc found.ends.0 redacted (stream secret failure 0 cs)
                  ∙ ap (◌++◌ found.ends.0) (
                      ap (◌++◌ redacted) (again 0 (omega (arith, h)))
                      ∙ sym (whole_step k c cs ((==_iff _ _).0 f) ((==_iff _ _).0 e))))
          | inr f ↦
              rw (e, f, shift, out)
                (append_assoc found.ends.0 [] (stream secret failure (suc k) cs)
                  ∙ ap (◌++◌ found.ends.0) (
                      again (suc k) (below_whole k (omega (arith, found.below, h)) f)
                      ∙ ap (redact_from secret 0)
                          (sym (taken k c cs (omega (arith, found.below, h)) ((==_iff _ _).0 e)))))
        ]
        | inr e ↦
            let z = unfit_zero secret m k c found e in
            rw (e, shift, released_all secret m k found.ends found.below (omega (arith, h)) z, z)
              (append_assoc found.ends.0 (c ∷ []) (stream secret failure 0 cs)
                ∙ ap (◌++◌ found.ends.0) (
                    ap (◌∷◌ c) (again 0 (omega (arith, h)))
                    ∙ sym (
                        redact-unhit secret c cs (
                          unfit_first c cs (omega (arith, h))
                            (ap (λ j. at secret j == c) (sym z) ∙ e)))))
      ]
