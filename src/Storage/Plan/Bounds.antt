-- ===== src/Storage/Plan/Bounds.antt =====
-- What a multipart plan promises: S3's limits, and parts that cover the object with none to spare.
use ezdbbackup.Common.{
  ℕ, zero, suc, ◌+◌, ◌*◌, ◌≤◌, ◌<◌, ◌≡◌, ◌≢◌, inl, inr, leb, ℤ, pos, negsuc, ok, err, arith,
  Bool-cases, leb→le, leb-false→lt,
}
use ezdbbackup.Storage.Plan.{
  part_count_exceeds_limit, minimum_part_size, maximum_part_size, maximum_part_count,
  maximum_object_size, divide_round_up, at_least_minimum, enlarged, plan_parts, multipart_plan,
}

-- `divideRoundUp` is the least number of parts that covers the value.
pub divide_round_up_covers :
    (value divisor : ℕ)
    → 0 < divisor
    → (value ≤ divide_round_up value divisor * divisor)
      × (divide_round_up value divisor * divisor < value + divisor)
unfolding divide_round_up
divide_round_up_covers value divisor h = grind arith

pub divide_round_up_le :
    (value divisor bound : ℕ)
    → 0 < divisor
    → value ≤ bound * divisor
    → divide_round_up value divisor ≤ bound
divide_round_up_le value divisor bound h k =
    elim (Bool-cases (leb (divide_round_up value divisor) bound)) [
      | inl e ↦ leb→le _ _ e
      | inr e ↦ absurd (grind (arith, divide_round_up_covers value divisor h, leb-false→lt _ _ e))
    ]

divide_round_up_pos :
    (value divisor : ℕ) → 0 < value → 0 < divisor → 0 < divide_round_up value divisor
unfolding divide_round_up
divide_round_up_pos value divisor h k = grind arith

enlarged_lem :
    (size part_size : ℕ)
    → 0 < part_size
    → (part_size ≤ enlarged size part_size) × (size ≤ maximum_part_count * enlarged size part_size)
unfolding enlarged
enlarged_lem size part_size h =
    ground (arith, divide_round_up_covers size maximum_part_count (omega arith))

enlarged_le :
    (size part_size : ℕ)
    → part_size ≤ maximum_part_size
    → size ≤ maximum_object_size
    → enlarged size part_size ≤ maximum_part_size
unfolding enlarged
enlarged_le size part_size h k =
    ground (arith, divide_round_up_le size maximum_part_count maximum_part_size (omega arith))

-- Every limit of S3 is kept, the parts cover the object, and one part fewer would not.
pub record IsPlan (size part_size part_count : ℕ) : Type 0 where
  pub at_least : minimum_part_size ≤ part_size
  pub at_most : part_size ≤ maximum_part_size
  pub count_limit : part_count ≤ maximum_part_count
  pub covers : size ≤ part_count * part_size
  pub no_spare : part_count * part_size < size + part_size

plan_parts-IsPlan :
    (size part_size ps n : ℕ)
    → minimum_part_size ≤ part_size
    → plan_parts size part_size ≡ ok (ps, n)
    → IsPlan size ps n
unfolding plan_parts
plan_parts-IsPlan size part_size ps n h e =
    ground (arith, divide_round_up_covers size part_size (omega arith))

plan_parts_total :
    (size part_size : ℕ)
    → 0 < size
    → minimum_part_size ≤ part_size
    → part_size ≤ maximum_part_size
    → size ≤ maximum_part_count * part_size
    → plan_parts size part_size ≡ ok (part_size, divide_round_up size part_size)
unfolding plan_parts
plan_parts_total size part_size p h k c = ground (
  arith,
  divide_round_up_le size part_size maximum_part_count (omega arith) c,
  divide_round_up_pos size part_size p (omega arith),
)

at_least_minimum_lem : (configured : ℤ) → minimum_part_size ≤ at_least_minimum configured
unfolding at_least_minimum
at_least_minimum_lem (pos n) = ground arith
at_least_minimum_lem (negsuc n) = omega arith

-- A plan that is returned keeps every limit of S3, and its parts cover the object with less than
-- one part to spare.
pub multipart_plan-IsPlan :
    (size : ℕ) (configured : ℤ) {part_size part_count : ℕ}
    → multipart_plan (pos size) configured ≡ ok (part_size, part_count)
    → IsPlan size part_size part_count
unfolding multipart_plan
multipart_plan-IsPlan size configured {part_size = ps} {part_count = n} e = ground (
  arith,
  at_least_minimum_lem configured,
  enlarged_lem size (at_least_minimum configured),
  plan_parts-IsPlan size (enlarged size (at_least_minimum configured)) ps n,
)

-- For an object of a size that S3 takes, and a configured part size that is at most S3's maximum,
-- there is a plan.
pub multipart_plan_total :
    (size : ℕ) (configured : ℤ)
    → size ≤ maximum_object_size
    → at_least_minimum configured ≤ maximum_part_size
    → (part_size : ℕ) × (part_count : ℕ) × (multipart_plan (pos size) configured
        ≡ ok (part_size, part_count))
unfolding multipart_plan
multipart_plan_total zero configured h k = (minimum_part_size, 0, ground arith)
multipart_plan_total (suc s) configured h k =
    let p = enlarged (suc s) (at_least_minimum configured) in
    (
      p,
      divide_round_up (suc s) p,
      ground (
        arith,
        at_least_minimum_lem configured,
        enlarged_lem (suc s) (at_least_minimum configured),
        enlarged_le (suc s) (at_least_minimum configured) k h,
        plan_parts_total (suc s) p,
      ),
    )

plan_parts-ne-count :
    (size part_size : ℕ)
    → 0 < size
    → minimum_part_size ≤ part_size
    → size ≤ maximum_part_count * part_size
    → plan_parts size part_size ≢ err part_count_exceeds_limit
unfolding plan_parts
plan_parts-ne-count size part_size p h c = ground (
  arith,
  divide_round_up_le size part_size maximum_part_count (omega arith) c,
  divide_round_up_pos size part_size p (omega arith),
)

-- Whatever the size and the configured part size, no plan is refused for its count of parts.
pub part_count_never_exceeds :
    (size configured : ℤ) → multipart_plan size configured ≢ err part_count_exceeds_limit
unfolding multipart_plan
part_count_never_exceeds (negsuc _) configured = cc
part_count_never_exceeds (pos zero) configured = ground arith
part_count_never_exceeds (pos (suc s)) configured = ground (
  arith,
  at_least_minimum_lem configured,
  enlarged_lem (suc s) (at_least_minimum configured),
  plan_parts-ne-count (suc s) (enlarged (suc s) (at_least_minimum configured)),
)
