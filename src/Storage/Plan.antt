-- ===== src/Storage/Plan.antt =====
-- `multipartPlan` and its helpers of internal/storage/uploader.go.
pub mod Bounds
use ezdbbackup.Common.{
  ℕ, zero, suc, ◌+◌, ◌*◌, ◌/◌, ◌%◌, Bool, true, false, not, ◌||◌, leb, ltb, ◌==◌, if◌then◌else◌, ℤ,
  pos, negsuc, Result, ok, err,
}

abbrev pub default_multipart_threshold : ℕ
default_multipart_threshold = 8388608

abbrev pub default_part_size : ℕ
default_part_size = 5242880

abbrev pub minimum_part_size : ℕ
minimum_part_size = 5242880

abbrev pub maximum_part_size : ℕ
maximum_part_size = 5368709120

abbrev pub maximum_part_count : ℕ
maximum_part_count = 10000

abbrev pub maximum_object_size : ℕ
maximum_object_size = maximum_part_size * maximum_part_count

pub data PlanError : Type 0 where
  size_outside_limits part_size_exceeds_limit part_count_exceeds_limit : PlanError

unfoldable pub bool_to_int64 : Bool → ℕ
bool_to_int64 true = 1
bool_to_int64 false = 0

unfoldable pub divide_round_up : ℕ → ℕ → ℕ
unfolding bool_to_int64
divide_round_up value divisor = value / divisor + bool_to_int64 (not (value % divisor == 0))

-- `partSize` after the first test, at a configured size of either sign
unfoldable pub at_least_minimum : ℤ → ℕ
at_least_minimum (pos configured) =
    if ltb configured minimum_part_size then minimum_part_size else configured
at_least_minimum (negsuc _) = minimum_part_size

-- the part size that is then enough for the count of parts
unfoldable pub enlarged : ℕ → ℕ → ℕ
enlarged size part_size =
    let required = divide_round_up size maximum_part_count in
    if ltb part_size required then required else part_size

unfoldable pub plan_parts : ℕ → ℕ → Result PlanError (ℕ × ℕ)
plan_parts size part_size =
    if ltb maximum_part_size part_size
    then err part_size_exceeds_limit
    else let part_count = divide_round_up size part_size in
      if ltb part_count 1 || ltb maximum_part_count part_count
      then err part_count_exceeds_limit
      else ok (part_size, part_count)

unfoldable pub multipart_plan : ℤ → ℤ → Result PlanError (ℕ × ℕ)
multipart_plan (negsuc _) configured = err size_outside_limits
multipart_plan (pos size) configured =
    if ltb maximum_object_size size
    then err size_outside_limits
    else if size == 0
    then ok (minimum_part_size, 0)
    else plan_parts size (enlarged size (at_least_minimum configured))
