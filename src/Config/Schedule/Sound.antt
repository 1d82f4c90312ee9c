-- ===== src/Config/Schedule/Sound.antt =====
-- What `validateCronField` accepts is in the grammar.
use mathlib.Core.Path.{subst}
use ezdbbackup.Common.{
  ℕ, ◌≤◌, ◌≡◌, refl, sym, ap, ◌∙◌, inl, inr, Bool, true, false, not, Option, none, some, List, [],
  ◌∷◌, ◌++◌, All, map, arith, if◌then◌else◌, Bool-cases, Result, ok, err, ◌>>=◌, >>=-eq-ok,
}
use ezdbbackup.Common.Bytes.{Bytes, codes, is_empty, contains_byte, split, equal_iff}
use ezdbbackup.Common.Split.{
  Free, one_piece, two_pieces, Free-append, join-split, split-All, is_empty-split,
}
use ezdbbackup.Config.Schedule.{
  step_without_range, is_star, ScheduleError, CronFieldSpec, lookup_name, to_upper,
  parse_cron_number, in_range, value_or_number, parse_cron_value, split_cron_step, check_order,
  validate_cron_base, check_step, validate_parts, validate_item, validate_items,
  validate_cron_field,
}
use ezdbbackup.Config.Schedule.Grammar.{
  IsNumber, IsValue, name, number, IsPlain, IsRange, IsStep, IsItem, star, star_step, value, range,
  range_step, IsField,
}

parse_cron_number-IsNumber :
    (text : Bytes) (v : ℕ) → parse_cron_number text ≡ ok v → IsNumber text v
unfolding parse_cron_number
parse_cron_number-IsNumber text v h = ground arith

in_range_lem :
    (spec : CronFieldSpec) (n v : ℕ)
    → in_range spec n ≡ ok v
    → (n ≡ v) × (spec.min ≤ v) × (v ≤ spec.max)
unfolding in_range
in_range_lem spec n v h = ground arith

value_or_number-IsValue :
    (spec : CronFieldSpec) (text : Bytes) (v : ℕ) (o : Option ℕ)
    → lookup_name (map to_upper text) spec.names ≡ o
    → value_or_number spec text o ≡ ok v
    → IsValue spec text v
unfolding value_or_number
value_or_number-IsValue spec text v (some n) e h = name (e ∙ (ground arith))
value_or_number-IsValue spec text v none e h =
    let (n, p, q) = >>=-eq-ok (parse_cron_number text) (in_range spec) h in
    let (same, low, high) = in_range_lem spec n v q in
    number e (subst (IsNumber text) same (parse_cron_number-IsNumber text n p)) low high

parse_cron_value-IsValue :
    (spec : CronFieldSpec) (text : Bytes) (v : ℕ)
    → parse_cron_value spec text ≡ ok v
    → IsValue spec text v
unfolding parse_cron_value
parse_cron_value-IsValue spec text v h = value_or_number-IsValue spec text v _ refl h

check_order-le : (a b : ℕ) → check_order a b ≡ ok tt → a ≤ b
unfolding check_order
check_order-le a b h = ground arith

check_step-IsStep :
    (text : Bytes) (r : Result ScheduleError ℕ)
    → parse_cron_number text ≡ r
    → check_step r ≡ ok tt
    → IsStep text
unfolding check_step
check_step-IsStep text (ok v) e h = record {
  value = v;
  number = parse_cron_number-IsNumber text v e;
  positive = ground arith;
}
check_step-IsStep text (err x) e h = absurd (cc)

-- the parts of a base between hyphens, all free of slashes, and the item that they make
data Base (spec : CronFieldSpec) (parts : List Bytes) : Type 0 where
  single : (text : Bytes) (v : ℕ) → parts ≡ text ∷ [] → IsValue spec text v → Base spec parts
  pair :
      (low high : Bytes) (a b : ℕ)
      → parts ≡ low ∷ high ∷ []
      → is_empty low ≡ false
      → is_empty high ≡ false
      → IsValue spec low a
      → IsValue spec high b
      → a ≤ b
      → Base spec parts

validate_pair-Base :
    (spec : CronFieldSpec) (low high : Bytes)
    → is_empty low ≡ false
    → is_empty high ≡ false
    → (do
      start ← parse_cron_value spec low
      end ← parse_cron_value spec high
      check_order start end)
      ≡ ok tt
    → Base spec (low ∷ high ∷ [])
validate_pair-Base spec low high e f h =
    let (a, p, q) = >>=-eq-ok (parse_cron_value spec low) _ h in
    let (b, r, s) = >>=-eq-ok (parse_cron_value spec high) _ q in
    pair low high a b refl e f (parse_cron_value-IsValue spec low a p)
      (parse_cron_value-IsValue spec high b r) (check_order-le a b s)

validate_cron_base-Base :
    (spec : CronFieldSpec) (parts : List Bytes)
    → validate_cron_base spec parts ≡ ok tt
    → Base spec parts
unfolding validate_cron_base
validate_cron_base-Base spec [] h = absurd (cc)
validate_cron_base-Base spec (text ∷ []) h =
    let (v, p, q) = >>=-eq-ok (parse_cron_value spec text) _ h in
    single text v refl (parse_cron_value-IsValue spec text v p)
validate_cron_base-Base spec ([] ∷ high ∷ []) h = absurd (cc)
validate_cron_base-Base spec ((c ∷ low) ∷ [] ∷ []) h = absurd (cc)
validate_cron_base-Base spec ((c ∷ low) ∷ (d ∷ high) ∷ []) h =
    validate_pair-Base spec (c ∷ low) (d ∷ high) refl refl h
validate_cron_base-Base spec (a ∷ b ∷ c ∷ ds) h = absurd (cc)

-- A base that was accepted is a value or a range.
data IsBase (spec : CronFieldSpec) (base : Bytes) : Type 0 where
  plain_base : (v : ℕ) → IsPlain base → IsValue spec base v → IsBase spec base
  range_base : IsRange spec base → IsBase spec base

Base-IsBase :
    (spec : CronFieldSpec) (base : Bytes)
    → is_empty base ≡ false
    → Free b'/' base
    → Base spec (split b'-' base)
    → IsBase spec base
Base-IsBase spec base n s (single text v e h) =
    let (same, free) = one_piece b'-' base text e in
    plain_base v (record { not_empty = n; no_hyphen = rw same free; no_slash = s }) (rw same h)
Base-IsBase spec base n s (pair low high a b e f g h k o) =
    let (same, fl, fh) = two_pieces b'-' base low high e in
    let (sl, sh) = Free-append b'/' low (b'-' ∷ high) (rw same at s) in
    range_base (record {
      low = low;
      high = high;
      start = a;
      end = b;
      plain = (
        record { not_empty = f; no_hyphen = fl; no_slash = sl },
        record { not_empty = g; no_hyphen = fh; no_slash = sh },
      );
      low_value = h;
      high_value = k;
      ordered = o;
      written = same;
    })

IsBase-IsItem : (spec : CronFieldSpec) (base : Bytes) → IsBase spec base → IsItem spec base
IsBase-IsItem spec base (plain_base v p h) = value v p h
IsBase-IsItem spec base (range_base r) = range r

IsBase-IsRange :
    (spec : CronFieldSpec) (base : Bytes)
    → contains_byte base b'-' ≡ true
    → IsBase spec base
    → IsRange spec base
IsBase-IsRange spec base h (plain_base v p k) = absurd (cc (p.no_hyphen))
IsBase-IsRange spec base h (range_base r) = r

validate_cron_base-IsBase :
    (spec : CronFieldSpec) (base : Bytes)
    → is_empty base ≡ false
    → Free b'/' base
    → validate_cron_base spec (split b'-' base) ≡ ok tt
    → IsBase spec base
validate_cron_base-IsBase spec base n s h =
    Base-IsBase spec base n s (validate_cron_base-Base spec _ h)

star_eq : (base : Bytes) → is_star base ≡ true → base ≡ codes "*"
unfolding is_star
star_eq base h = (equal_iff base (codes "*")).0 h

no_step-IsItem :
    (spec : CronFieldSpec) (base : Bytes)
    → is_empty base ≡ false
    → Free b'/' base
    → validate_parts spec base none ≡ ok tt
    → IsItem spec base
unfolding validate_parts
no_step-IsItem spec base n s h = elim (Bool-cases (is_star base)) [
  | inl e ↦ star (star_eq base e)
  | inr e ↦ IsBase-IsItem spec base (validate_cron_base-IsBase spec base n s (rw e at h))
]

hyphen_and_step :
    (b : Bool) (r : Result ScheduleError (Unit {0}))
    → (if not b then err step_without_range else r) ≡ ok tt
    → (b ≡ true) × (r ≡ ok tt)
hyphen_and_step b r h = ground arith

stepped-IsItem :
    (spec : CronFieldSpec) (base step : Bytes)
    → is_empty base ≡ false
    → Free b'/' base
    → validate_parts spec base (some step) ≡ ok tt
    → IsItem spec (base ++ b'/' ∷ step)
unfolding validate_parts
stepped-IsItem spec base step n s h = elim (Bool-cases (is_star base)) [
  | inl e ↦
      star_step step (check_step-IsStep step _ refl (rw e at h))
        (ap (λ b. b ++ b'/' ∷ step) (star_eq base e))
  | inr e ↦
      let (u, p, q) = >>=-eq-ok (validate_cron_base spec (split b'-' base)) _ (rw e at h) in
      let (hyphen, checked) = hyphen_and_step (contains_byte base b'-') _ q in
      range_step base step
        (IsBase-IsRange spec base hyphen (validate_cron_base-IsBase spec base n s p))
        (check_step-IsStep step _ refl checked) refl
]

validate_parts-IsItem :
    (spec : CronFieldSpec) (item : Bytes) (parts : List Bytes)
    → is_empty item ≡ false
    → split b'/' item ≡ parts
    → (do p ← split_cron_step parts; validate_parts spec p.0 p.1) ≡ ok tt
    → IsItem spec item
unfolding split_cron_step
validate_parts-IsItem spec item [] n e h = absurd (cc)
validate_parts-IsItem spec item (base ∷ []) n e h =
    let (same, free) = one_piece b'/' item base e in
    rw same (no_step-IsItem spec base (rw same at n) free h)
validate_parts-IsItem spec item ([] ∷ step ∷ []) n e h = absurd (cc)
validate_parts-IsItem spec item ((c ∷ base) ∷ [] ∷ []) n e h = absurd (cc)
validate_parts-IsItem spec item ((c ∷ base) ∷ (d ∷ step) ∷ []) n e h =
    let (same, free, _) = two_pieces b'/' item (c ∷ base) (d ∷ step) e in
    rw same (stepped-IsItem spec (c ∷ base) (d ∷ step) refl free h)
validate_parts-IsItem spec item (a ∷ b ∷ c ∷ ds) n e h = absurd (cc)

validate_item-IsItem :
    (spec : CronFieldSpec) (item : Bytes) → validate_item spec item ≡ ok tt → IsItem spec item
unfolding validate_item
validate_item-IsItem spec [] h = absurd (cc)
validate_item-IsItem spec (c ∷ cs) h = validate_parts-IsItem spec (c ∷ cs) _ refl refl h

validate_items-All :
    (spec : CronFieldSpec) (items : List Bytes)
    → validate_items spec items ≡ ok tt
    → All (IsItem spec) items
unfolding validate_items
validate_items-All spec [] h = tt
validate_items-All spec (item ∷ items) h =
    let (u, p, q) = >>=-eq-ok (validate_item spec item) _ h in
    (validate_item-IsItem spec item p, validate_items-All spec items q)

-- Each field that is accepted is in the grammar.
pub validate_cron_field-IsField :
    (spec : CronFieldSpec) (field : Bytes)
    → validate_cron_field spec field ≡ ok tt
    → IsField spec field
unfolding validate_cron_field
validate_cron_field-IsField spec field h = record {
  items = split b',' field;
  some_item = is_empty-split b',' field;
  no_comma = split-All b',' field;
  each = validate_items-All spec (split b',' field) h;
  written = sym (join-split b',' field);
}
