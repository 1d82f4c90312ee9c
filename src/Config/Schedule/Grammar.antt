-- ===== src/Config/Schedule/Grammar.antt =====
-- The language of schedules that `validateCronField` accepts, as a grammar.
use ezdbbackup.Common.{ℕ, ◌≤◌, ◌<◌, ◌≡◌, true, false, none, some, List, ◌∷◌, ◌++◌, All, map, all}
use ezdbbackup.Common.Bytes.{Bytes, codes, is_empty, contains_byte, join}
use ezdbbackup.Config.Schedule.{
  CronFieldSpec, is_digit, decimal_value, int_limit, lookup_name, to_upper,
}

-- Digits, at least one, with a value that an `int` can hold.
pub record IsNumber (text : Bytes) (value : ℕ) : Type 0 where
  pub not_empty : is_empty text ≡ false
  pub digits : all is_digit text ≡ true
  pub value_is : decimal_value 0 text ≡ value
  pub fits : value < int_limit

-- A name of the field in any case, or a number in the field's range.
pub data IsValue (spec : CronFieldSpec) (text : Bytes) (value : ℕ) : Type 0 where
  name : lookup_name (map to_upper text) spec.names ≡ some value → IsValue spec text value
  number :
      lookup_name (map to_upper text) spec.names ≡ none
      → IsNumber text value
      → spec.min ≤ value
      → value ≤ spec.max
      → IsValue spec text value

-- a text with no hyphen and no slash
pub record IsPlain (text : Bytes) : Type 0 where
  pub not_empty : is_empty text ≡ false
  pub no_hyphen : contains_byte text b'-' ≡ false
  pub no_slash : contains_byte text b'/' ≡ false

-- `low-high`, in order
pub record IsRange (spec : CronFieldSpec) (text : Bytes) : Type 0 where
  pub low : Bytes
  pub high : Bytes
  pub start : ℕ
  pub end : ℕ
  pub plain : IsPlain low × IsPlain high
  pub low_value : IsValue spec low start
  pub high_value : IsValue spec high end
  pub ordered : start ≤ end
  pub written : text ≡ low ++ b'-' ∷ high

-- a number above zero
pub record IsStep (text : Bytes) : Type 0 where
  pub value : ℕ
  pub number : IsNumber text value
  pub positive : 0 < value

pub data IsItem (spec : CronFieldSpec) (text : Bytes) : Type 0 where
  star : text ≡ codes "*" → IsItem spec text
  star_step : (step : Bytes) → IsStep step → text ≡ codes "*/" ++ step → IsItem spec text
  value : (v : ℕ) → IsPlain text → IsValue spec text v → IsItem spec text
  range : IsRange spec text → IsItem spec text
  range_step :
      (base step : Bytes)
      → IsRange spec base
      → IsStep step
      → text ≡ base ++ b'/' ∷ step
      → IsItem spec text

-- One item or more, with commas between them and none inside.
pub record IsField (spec : CronFieldSpec) (field : Bytes) : Type 0 where
  pub items : List Bytes
  pub some_item : is_empty items ≡ false
  pub no_comma : All (λ item. contains_byte item b',' ≡ false) items
  pub each : All (IsItem spec) items
  pub written : field ≡ join (codes ",") items
