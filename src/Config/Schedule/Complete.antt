-- ===== src/Config/Schedule/Complete.antt =====
-- What the grammar of schedules holds, `validateCronField` accepts.
use ezdbbackup.Common.{
  ℕ, ◌≤◌, ◌≡◌, refl, ◌↔◌, ◌⊎◌, inl, inr, true, false, none, some, List, [], ◌∷◌, ◌++◌, All, all,
  arith, Bool-cases, ok, ◌>>=◌,
}
use ezdbbackup.Common.Bytes.{Bytes, codes, is_empty, contains_byte, split}
use ezdbbackup.Common.Split.{split-Free, split-append, append-Free, split-join, Free}
use ezdbbackup.Config.Schedule.{
  is_star, CronFieldSpec, is_digit, parse_cron_number, in_range, parse_cron_value, split_cron_step,
  validate_cron_base, check_step, validate_parts, validate_item, validate_items,
  validate_cron_field,
}
use ezdbbackup.Config.Schedule.Sound.{validate_cron_field-IsField}
use ezdbbackup.Config.Schedule.Grammar.{
  IsNumber, IsValue, name, number, IsPlain, IsRange, IsStep, IsItem, star, star_step, value, range,
  range_step, IsField,
}

IsNumber-parse : (text : Bytes) (v : ℕ) → IsNumber text v → parse_cron_number text ≡ ok v
unfolding parse_cron_number
IsNumber-parse text v n = rw (n.not_empty, n.digits, n.value_is) (ground (arith, n.fits))

in_range-ok : (spec : CronFieldSpec) (v : ℕ) → spec.min ≤ v → v ≤ spec.max → in_range spec v ≡ ok v
unfolding in_range
in_range-ok spec v h k = ground arith

IsValue-parse :
    (spec : CronFieldSpec) (text : Bytes) (v : ℕ)
    → IsValue spec text v
    → parse_cron_value spec text ≡ ok v
unfolding parse_cron_value
IsValue-parse spec text v (name e) = rw e
IsValue-parse spec text v (number e n h k) =
    rw e (rw (IsNumber-parse text v n) (in_range-ok spec v h k))

IsStep-check : (text : Bytes) → IsStep text → check_step (parse_cron_number text) ≡ ok tt
unfolding check_step
IsStep-check text s = rw (IsNumber-parse text s.value s.number) (ground (arith, s.positive))

digits-Free : (sep : ℕ) (s : Bytes) → is_digit sep ≡ false → all is_digit s ≡ true → Free sep s
digits-Free sep [] d h = refl
digits-Free sep (c ∷ s) d h = ground (arith, digits-Free sep s d)

plain_pair :
    (spec : CronFieldSpec) (low high : Bytes) (a b : ℕ)
    → is_empty low ≡ false
    → is_empty high ≡ false
    → IsValue spec low a
    → IsValue spec high b
    → a ≤ b
    → validate_cron_base spec (low ∷ high ∷ []) ≡ ok tt
unfolding validate_cron_base
plain_pair spec [] high a b n m p q o = absurd (cc)
plain_pair spec (c ∷ low) [] a b n m p q o = absurd (cc)
plain_pair spec (c ∷ low) (d ∷ high) a b n m p q o =
    rw (IsValue-parse spec (c ∷ low) a p, IsValue-parse spec (d ∷ high) b q) (ground arith)

IsRange-base :
    (spec : CronFieldSpec) (base : Bytes)
    → IsRange spec base
    → validate_cron_base spec (split b'-' base) ≡ ok tt
IsRange-base spec base r = rw r.written (
    rw
      (
        split-append b'-' r.low r.high r.plain.0.no_hyphen,
        split-Free b'-' r.high r.plain.1.no_hyphen,
      )
      (plain_pair spec r.low r.high r.start r.end r.plain.0.not_empty r.plain.1.not_empty
        r.low_value r.high_value r.ordered))

IsRange-Free : (spec : CronFieldSpec) (base : Bytes) → IsRange spec base → Free b'/' base
IsRange-Free spec base r =
    rw r.written (append-Free b'/' r.low (b'-' ∷ r.high) r.plain.0.no_slash r.plain.1.no_slash)

value_base :
    (spec : CronFieldSpec) (text : Bytes) (v : ℕ)
    → IsPlain text
    → IsValue spec text v
    → validate_cron_base spec (split b'-' text) ≡ ok tt
unfolding validate_cron_base
value_base spec text v p h =
    rw (split-Free b'-' text p.no_hyphen) (rw (IsValue-parse spec text v h))

abbrev IsGood : CronFieldSpec → Bytes → Type 0
IsGood spec base = (is_star base ≡ true) ⊎ (validate_cron_base spec (split b'-' base) ≡ ok tt)

no_step :
    (spec : CronFieldSpec) (base : Bytes) → IsGood spec base → validate_parts spec base none ≡ ok tt
unfolding validate_parts
no_step spec base (inl e) = rw e
no_step spec base (inr h) = elim (Bool-cases (is_star base)) [ inl e ↦ rw e | inr e ↦ rw e h ]

stepped :
    (spec : CronFieldSpec) (base step : Bytes)
    → IsGood spec base
    → (is_star base ≡ true) ⊎ (contains_byte base b'-' ≡ true)
    → IsStep step
    → validate_parts spec base (some step) ≡ ok tt
unfolding validate_parts
stepped spec base step (inl e) k s = rw e (IsStep-check step s)
stepped spec base step (inr h) (inl e) s = rw e (IsStep-check step s)
stepped spec base step (inr h) (inr c) s = elim (Bool-cases (is_star base)) [
  | inl e ↦ rw e (IsStep-check step s)
  | inr e ↦ rw e (rw h (rw c (IsStep-check step s)))
]

unstepped_item :
    (spec : CronFieldSpec) (item : Bytes)
    → is_empty item ≡ false
    → Free b'/' item
    → IsGood spec item
    → validate_item spec item ≡ ok tt
unfolding validate_item split_cron_step
unstepped_item spec item n f g = rw (n, split-Free b'/' item f) (no_step spec item g)

stepped_parts :
    (spec : CronFieldSpec) (base step : Bytes)
    → is_empty base ≡ false
    → is_empty step ≡ false
    → validate_parts spec base (some step) ≡ ok tt
    → (do p ← split_cron_step (base ∷ step ∷ []); validate_parts spec p.0 p.1) ≡ ok tt
unfolding split_cron_step
stepped_parts spec base step n m h = rw (n, m) h

stepped_item :
    (spec : CronFieldSpec) (base step : Bytes)
    → is_empty base ≡ false
    → Free b'/' base
    → IsStep step
    → validate_parts spec base (some step) ≡ ok tt
    → validate_item spec (base ++ b'/' ∷ step) ≡ ok tt
unfolding validate_item
stepped_item spec [] step n f s h = absurd (cc)
stepped_item spec (c ∷ base) step n f s h =
    rw
      (
        split-append b'/' (c ∷ base) step f,
        split-Free b'/' step (digits-Free b'/' step refl s.number.digits),
      )
      (stepped_parts spec (c ∷ base) step refl s.number.not_empty h)

contains-hyphen : (low high : Bytes) → contains_byte (low ++ b'-' ∷ high) b'-' ≡ true
contains-hyphen [] high = refl
contains-hyphen (c ∷ low) high = ground (arith, contains-hyphen low high)

is_empty-append : (s t : Bytes) → is_empty s ≡ false → is_empty (s ++ t) ≡ false
is_empty-append [] t h = cc
is_empty-append (c ∷ s) t h = refl

is_empty-range : (spec : CronFieldSpec) (base : Bytes) → IsRange spec base → is_empty base ≡ false
is_empty-range spec base r = rw r.written (is_empty-append r.low _ r.plain.0.not_empty)

IsItem-validate :
    (spec : CronFieldSpec) (item : Bytes) → IsItem spec item → validate_item spec item ≡ ok tt
unfolding is_star
IsItem-validate spec item (star e) = rw e (unstepped_item spec (codes "*") refl refl (inl refl))
IsItem-validate spec item (star_step step s e) = rw e (
    stepped_item spec (codes "*") step refl refl s
      (stepped spec (codes "*") step (inl refl) (inl refl) s))
IsItem-validate spec item (value v p h) =
    unstepped_item spec item p.not_empty p.no_slash (inr (value_base spec item v p h))
IsItem-validate spec item (range r) =
    unstepped_item spec item (is_empty-range spec item r) (IsRange-Free spec item r)
      (inr (IsRange-base spec item r))
IsItem-validate spec item (range_step base step r s e) =
    let hyphen : contains_byte base b'-' ≡ true = rw r.written (contains-hyphen r.low r.high) in
    rw e (
      stepped_item spec base step (is_empty-range spec base r) (IsRange-Free spec base r) s
        (stepped spec base step (inr (IsRange-base spec base r)) (inr hyphen) s))

All-validate :
    (spec : CronFieldSpec) (items : List Bytes)
    → All (IsItem spec) items
    → validate_items spec items ≡ ok tt
unfolding validate_items
All-validate spec [] h = refl
All-validate spec (item ∷ items) h =
    rw (IsItem-validate spec item h.0) (All-validate spec items h.1)

IsField-validate :
    (spec : CronFieldSpec) (field : Bytes)
    → IsField spec field
    → validate_cron_field spec field ≡ ok tt
unfolding validate_cron_field
IsField-validate spec field f =
    rw f.written
      (rw (split-join b',' f.items f.some_item f.no_comma) (All-validate spec f.items f.each))

-- `validateCronField` accepts a field exactly if the field is in the grammar: items with commas
-- between them, each a star, a star with a step, a value, a range in order, or such a range with a
-- step, where the values are names or numbers in the field's range and steps are positive numbers.
pub validate_cron_field_iff :
    (spec : CronFieldSpec) (field : Bytes)
    → (validate_cron_field spec field ≡ ok tt) ↔ IsField spec field
validate_cron_field_iff spec field =
    (validate_cron_field-IsField spec field, IsField-validate spec field)
