-- ===== src/Config/Schedule.antt =====
-- internal/config/cron.go: the validation of the five time fields of a schedule. A text is here the
-- sequence of its code points, since each function of the source reads runes or splits at ASCII.
pub mod Grammar
pub mod Sound
pub mod Complete
pub mod Whole
use ezdbbackup.Common.{
  ℕ, zero, suc, ◌+◌, ◌-◌, ◌*◌, ◌^◌, Bool, true, false, not, ◌&&◌, ◌||◌, Option, none, some, List,
  [], ◌∷◌, String, leb, ltb, ◌==◌, within, if◌then◌else◌, map, any, all, length, Result, ok, err,
  ◌>>=◌, ◌>>◌,
}
use ezdbbackup.Common.Bytes.{Bytes, codes, is_empty, equal, contains_byte, split, fields_func}
use ezdbbackup.Common.Utf8.{is_control, is_space}

pub data ScheduleError : Type 0 where
  line_break question_mark field_count : ScheduleError
  empty_item malformed_step multiple_steps step_without_range step_not_positive : ScheduleError
  malformed_range range_order not_decimal out_of_range : ScheduleError

pub record CronFieldSpec : Type 0 where
  pub min : ℕ
  pub max : ℕ
  pub names : List (Bytes × ℕ)

abbrev named : String → ℕ → Bytes × ℕ
named name value = (codes name, value)

abbrev pub minute_spec : CronFieldSpec
minute_spec = record { min = 0; max = 59; names = [] }

abbrev pub hour_spec : CronFieldSpec
hour_spec = record { min = 0; max = 23; names = [] }

abbrev pub day_of_month_spec : CronFieldSpec
day_of_month_spec = record { min = 1; max = 31; names = [] }

abbrev pub month_spec : CronFieldSpec
month_spec = record {
  min = 1;
  max = 12;
  names =
      named "JAN" 1
      ∷ named "FEB" 2
      ∷ named "MAR" 3
      ∷ named "APR" 4
      ∷ named "MAY" 5
      ∷ named "JUN" 6
      ∷ named "JUL" 7
      ∷ named "AUG" 8
      ∷ named "SEP" 9
      ∷ named "OCT" 10
      ∷ named "NOV" 11
      ∷ named "DEC" 12
      ∷ [];
}

abbrev pub day_of_week_spec : CronFieldSpec
day_of_week_spec = record {
  min = 0;
  max = 7;
  names =
      named "SUN" 0
      ∷ named "MON" 1
      ∷ named "TUE" 2
      ∷ named "WED" 3
      ∷ named "THU" 4
      ∷ named "FRI" 5
      ∷ named "SAT" 6
      ∷ [];
}

abbrev pub cron_field_specs : List CronFieldSpec
cron_field_specs = minute_spec ∷ hour_spec ∷ day_of_month_spec ∷ month_spec ∷ day_of_week_spec ∷ []

-- `unicode.ToUpper`, for all runes whose upper case is ASCII; the other runes that it changes become
-- runes above ASCII, which are in no name, so they may stay as they are.
unfoldable pub to_upper : ℕ → ℕ
to_upper r =
    if within b'a' b'z' r
    then r - 32
    else if r == 0x131
    then b'I'
    else if r == 0x17f
    then b'S'
    else r

-- a lookup in the map `spec.names`
unfoldable pub lookup_name : Bytes → List (Bytes × ℕ) → Option ℕ
lookup_name name [] = none
lookup_name name ((key, value) ∷ names) =
    if equal key name then some value else lookup_name name names

abbrev pub is_digit : ℕ → Bool
is_digit = within b'0' b'9'

unfoldable pub decimal_value : ℕ → Bytes → ℕ
decimal_value acc [] = acc
decimal_value acc (c ∷ cs) = decimal_value (acc * 10 + (c - b'0')) cs

-- the least number that `strconv.Atoi` refuses
abbrev pub int_limit : ℕ
int_limit = 2 ^ 63

unfoldable pub parse_cron_number : Bytes → Result ScheduleError ℕ
unfolding decimal_value
parse_cron_number value =
    if is_empty value
    then err not_decimal
    else if not (all is_digit value)
    then err not_decimal
    else if ltb (decimal_value 0 value) int_limit
    then ok (decimal_value 0 value)
    else err not_decimal

unfoldable pub in_range : CronFieldSpec → ℕ → Result ScheduleError ℕ
in_range spec number =
    if ltb number spec.min || ltb spec.max number then err out_of_range else ok number

-- the part of `parseCronValue` behind the lookup
unfoldable pub value_or_number : CronFieldSpec → Bytes → Option ℕ → Result ScheduleError ℕ
unfolding parse_cron_number in_range
value_or_number spec value (some number) = ok number
value_or_number spec value none = do number ← parse_cron_number value; in_range spec number

unfoldable pub parse_cron_value : CronFieldSpec → Bytes → Result ScheduleError ℕ
unfolding value_or_number lookup_name to_upper
parse_cron_value spec value =
    value_or_number spec value (lookup_name (map to_upper value) spec.names)

-- `base`, and the step if there is one
unfoldable pub split_cron_step : List Bytes → Result ScheduleError (Bytes × Option Bytes)
split_cron_step (base ∷ []) = ok (base, none)
split_cron_step (base ∷ step ∷ []) =
    if is_empty base || is_empty step then err malformed_step else ok (base, some step)
split_cron_step _ = err multiple_steps

check_order : ℕ → ℕ → Result ScheduleError (Unit {0})
check_order start end = if ltb end start then err range_order else ok tt

-- `validateCronBase`, on the parts of the base between hyphens
unfoldable pub validate_cron_base : CronFieldSpec → List Bytes → Result ScheduleError (Unit {0})
unfolding parse_cron_value check_order
validate_cron_base spec (value ∷ []) = do parse_cron_value spec value; ok tt
validate_cron_base spec (low ∷ high ∷ []) =
    if is_empty low || is_empty high then err malformed_range else do
      start ← parse_cron_value spec low
      end ← parse_cron_value spec high
      check_order start end
validate_cron_base spec _ = err malformed_range

unfoldable pub check_step : Result ScheduleError ℕ → Result ScheduleError (Unit {0})
check_step (ok step) = if step == 0 then err step_not_positive else ok tt
check_step (err _) = err step_not_positive

is_star : Bytes → Bool
is_star base = equal base (codes "*")

unfoldable pub validate_parts :
    CronFieldSpec → Bytes → Option Bytes → Result ScheduleError (Unit {0})
unfolding validate_cron_base check_step is_star parse_cron_number
validate_parts spec base none =
    if is_star base then ok tt else validate_cron_base spec (split b'-' base)
validate_parts spec base (some step) =
    if is_star base then check_step (parse_cron_number step) else do
      validate_cron_base spec (split b'-' base)
      if not (contains_byte base b'-')
          then err step_without_range
          else check_step (parse_cron_number step)

unfoldable pub validate_item : CronFieldSpec → Bytes → Result ScheduleError (Unit {0})
unfolding split_cron_step validate_parts
validate_item spec item =
    if is_empty item
    then err empty_item
    else do parts ← split_cron_step (split b'/' item); validate_parts spec parts.0 parts.1

unfoldable pub validate_items : CronFieldSpec → List Bytes → Result ScheduleError (Unit {0})
unfolding validate_item
validate_items spec [] = ok tt
validate_items spec (item ∷ items) = do validate_item spec item; validate_items spec items

unfoldable pub validate_cron_field : CronFieldSpec → Bytes → Result ScheduleError (Unit {0})
unfolding validate_items
validate_cron_field spec field = validate_items spec (split b',' field)

unfoldable pub validate_fields : List Bytes → List CronFieldSpec → Result ScheduleError (Unit {0})
unfolding validate_cron_field
validate_fields (field ∷ fields) (spec ∷ specs) = do
  validate_cron_field spec field
  validate_fields fields specs
validate_fields _ _ = ok tt

-- a rune that is refused before the fields are read
abbrev pub is_refused : ℕ → Bool
is_refused r = is_control r && not (r == b'\t') || is_space r && not (r == b' ') && not (r == b'\t')

unfoldable pub validate_cron_schedule : Bytes → Result ScheduleError (Unit {0})
unfolding validate_fields
validate_cron_schedule schedule =
    if any is_refused schedule
    then err line_break
    else if contains_byte schedule b'?'
    then err question_mark
    else let fields = fields_func is_space schedule in
      if not (length fields == length cron_field_specs)
      then err field_count
      else validate_fields fields cron_field_specs
