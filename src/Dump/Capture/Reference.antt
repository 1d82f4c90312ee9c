-- ===== src/Dump/Capture/Reference.antt =====
-- internal/dump/runner.go: redaction as it would be written without a table.
pub mod Scan
use ezdbbackup.Common.{
  ℕ, zero, suc, ◌+◌, ◌-◌, ◌≤◌, ◌<◌, ◌≡◌, refl, sym, ap, ◌∙◌, Bool, true, false, ◌&&◌, ◌||◌, List,
  [], ◌∷◌, ◌++◌, arith, ◌==◌, ==_iff, if◌then◌else◌, length, length-append, take, Bool-cases, inl,
  inr,
}
use ezdbbackup.Common.Bytes.{Bytes, has_prefix}
use ezdbbackup.Dump.Capture.{redacted, at}

-- Every occurrence from the left is replaced, and so is a last part of the text that the secret
-- starts with; `skip` bytes belong to an occurrence that is replaced already.
unfoldable pub redact_from : Bytes → ℕ → Bytes → Bytes
redact_from secret skip [] = []
redact_from secret zero (c ∷ cs) =
    let replaced = redact_from secret (length secret - 1) cs in
    let kept = redact_from secret zero cs in
    if has_prefix (c ∷ cs) secret
    then redacted ++ replaced
    else if has_prefix secret (c ∷ cs)
    then redacted
    else c ∷ kept
redact_from secret (suc skip) (c ∷ cs) = redact_from secret skip cs

unfoldable pub redact : Bytes → Bytes → Bytes
unfolding redact_from
redact secret text = redact_from secret 0 text

-- the text starts with the secret, or the secret with the text
abbrev pub hit : Bytes → Bytes → Bool
hit secret text = has_prefix text secret || has_prefix secret text

-- no place in front of the second text is hit
abbrev pub NoHit : Bytes → Bytes → Bytes → Type 0
NoHit secret [] v = Unit
NoHit secret (c ∷ u) v = (hit secret (c ∷ u ++ v) ≡ false) × NoHit secret u v

parts_false : (a b : Bool) → (a || b) ≡ false → (a ≡ false) × (b ≡ false)
parts_false a b h = ground arith

pub redact-unhit :
    (secret : Bytes) (c : ℕ) (cs : Bytes)
    → hit secret (c ∷ cs) ≡ false
    → redact_from secret 0 (c ∷ cs) ≡ c ∷ redact_from secret 0 cs
unfolding redact_from
redact-unhit secret c cs h =
    let (a, b) = parts_false (has_prefix (c ∷ cs) secret) (has_prefix secret (c ∷ cs)) h in
    rw (a, b) refl

pub redact-NoHit :
    (secret u v : Bytes)
    → NoHit secret u v
    → redact_from secret 0 (u ++ v) ≡ u ++ redact_from secret 0 v
redact-NoHit secret [] v h = refl
redact-NoHit secret (c ∷ u) v h =
    redact-unhit secret c (u ++ v) h.0 ∙ ap (◌∷◌ c) (redact-NoHit secret u v h.1)

has_prefix-append : (s t : Bytes) → has_prefix (s ++ t) s ≡ true
has_prefix-append [] t = refl
has_prefix-append (c ∷ s) t = ground (arith, has_prefix-append s t)

skip_all : (secret s t : Bytes) → redact_from secret (length s) (s ++ t) ≡ redact_from secret 0 t
unfolding redact_from
skip_all secret [] t = refl
skip_all secret (c ∷ s) t = skip_all secret s t

pub redact-secret :
    (c : ℕ) (s t : Bytes)
    → redact_from (c ∷ s) 0 ((c ∷ s) ++ t) ≡ redacted ++ redact_from (c ∷ s) 0 t
unfolding redact_from
redact-secret c s t =
    rw (has_prefix-append (c ∷ s) t)
      (ap (◌++◌ redacted) (rw (suc_pred (length s)) (skip_all (c ∷ s) s t)))
  where
    suc_pred : (n : ℕ) → suc n - 1 ≡ n
    suc_pred n = omega arith

prefix_long : (y s : Bytes) → has_prefix y s ≡ true → length s ≤ length y
prefix_long y [] h = omega arith
prefix_long [] (d ∷ s) h = absurd cc
prefix_long (c ∷ y) (d ∷ s) h = ground (arith, prefix_long y s)

too_short : (y s : Bytes) → length y < length s → has_prefix y s ≡ false
too_short y s h = elim (Bool-cases (has_prefix y s)) [
  | inl e ↦ absurd (omega (arith, h, prefix_long y s e))
  | inr e ↦ e
]

-- A last part that the secret starts with.
pub redact-part :
    (secret : Bytes) (c : ℕ) (cs : Bytes)
    → has_prefix secret (c ∷ cs) ≡ true
    → length (c ∷ cs) < length secret
    → redact_from secret 0 (c ∷ cs) ≡ redacted
unfolding redact_from
redact-part secret c cs h l = rw (too_short (c ∷ cs) secret l, h) refl

-- A place whose text goes on behind it is hit only if the secret goes on in the same way.
pub hit-agrees :
    (s z : Bytes) (c : ℕ) (cs : Bytes)
    → length z < length s
    → hit s (z ++ c ∷ cs) ≡ true
    → (z ≡ take (length z) s) × (at s (length z) ≡ c)
hit-agrees [] z c cs l h = absurd (omega (arith, l))
hit-agrees (d ∷ s) [] c cs l h = (refl, ground arith)
hit-agrees (d ∷ s) (a ∷ z) c cs l h =
    let (same, more) = heads a d (has_prefix (z ++ c ∷ cs) s) (has_prefix s (z ++ c ∷ cs)) h in
    let (f, g) = hit-agrees s z c cs (omega (arith, l)) more in (cc, g)
  where
    heads :
        (a d : ℕ) (x y : Bool)
        → ((a == d && x) || (d == a && y)) ≡ true
        → (a ≡ d) × ((x || y) ≡ true)
    heads a d x y h = ground arith
