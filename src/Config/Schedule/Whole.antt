-- ===== src/Config/Schedule/Whole.antt =====
-- Schedules: five fields, each in its grammar.
use ezdbbackup.Common.{
  arith, suc, ◌≡◌, ◌↔◌, refl, ap, false, List, [], ◌∷◌, any, length, ok, >>=-eq-ok,
}
use ezdbbackup.Common.Bytes.{Bytes, contains_byte, fields_func}
use ezdbbackup.Common.Utf8.{is_space}
use ezdbbackup.Config.Schedule.{
  CronFieldSpec, cron_field_specs, validate_cron_field, validate_fields, is_refused,
  validate_cron_schedule,
}
use ezdbbackup.Config.Schedule.Grammar.{IsField}
use ezdbbackup.Config.Schedule.Complete.{validate_cron_field_iff}

-- one field for each spec, in order
pub data AllFields : List CronFieldSpec → List Bytes → Type 0 where
  nil : AllFields [] []
  cons :
      {spec : CronFieldSpec} {specs : List CronFieldSpec} {field : Bytes} {fields : List Bytes}
      → IsField spec field
      → AllFields specs fields
      → AllFields (spec ∷ specs) (field ∷ fields)

-- no control or line break that is refused, no question mark, and the fields of the table
pub record IsSchedule (schedule : Bytes) : Type 0 where
  pub no_refused : any is_refused schedule ≡ false
  pub no_mark : contains_byte schedule b'?' ≡ false
  pub fields : AllFields cron_field_specs (fields_func is_space schedule)

validate_fields-AllFields :
    (fields : List Bytes) (specs : List CronFieldSpec)
    → length fields ≡ length specs
    → validate_fields fields specs ≡ ok tt
    → AllFields specs fields
unfolding validate_fields
validate_fields-AllFields [] [] l h = nil
validate_fields-AllFields [] (spec ∷ specs) l h = ground arith
validate_fields-AllFields (field ∷ fields) [] l h = ground arith
validate_fields-AllFields (field ∷ fields) (spec ∷ specs) l h =
    let (_, e, k) = >>=-eq-ok (validate_cron_field spec field) _ h in
    cons ((validate_cron_field_iff spec field).0 e)
      (validate_fields-AllFields fields specs (omega (arith, l)) k)

AllFields-length :
    {specs : List CronFieldSpec} {fields : List Bytes}
    → AllFields specs fields
    → length fields ≡ length specs
AllFields-length nil = refl
AllFields-length (cons f a) = ap (λ n. suc n) (AllFields-length a)

AllFields-validate :
    {specs : List CronFieldSpec} {fields : List Bytes}
    → AllFields specs fields
    → validate_fields fields specs ≡ ok tt
unfolding validate_fields
AllFields-validate nil = refl
AllFields-validate (cons {spec} {specs} {field} {fields} f a) =
    rw ((validate_cron_field_iff spec field).1 f) (AllFields-validate a)

validate_cron_schedule-IsSchedule :
    (schedule : Bytes) → validate_cron_schedule schedule ≡ ok tt → IsSchedule schedule
unfolding validate_cron_schedule
validate_cron_schedule-IsSchedule schedule h = record {
  no_refused = ground arith;
  no_mark = ground arith;
  fields = validate_fields-AllFields _ _ (ground arith) (ground arith);
}

IsSchedule-validate :
    (schedule : Bytes) → IsSchedule schedule → validate_cron_schedule schedule ≡ ok tt
unfolding validate_cron_schedule
IsSchedule-validate schedule s =
    ground (arith, s.no_refused, s.no_mark, AllFields-length s.fields, AllFields-validate s.fields)

-- `ValidateCronSchedule` accepts a schedule exactly if it holds no control character or line break
-- that is refused and no question mark, and has five fields that are in the grammar of minutes,
-- hours, days of the month, months and days of the week, in this order.
pub validate_cron_schedule_iff :
    (schedule : Bytes) → (validate_cron_schedule schedule ≡ ok tt) ↔ IsSchedule schedule
validate_cron_schedule_iff schedule =
    (validate_cron_schedule-IsSchedule schedule, IsSchedule-validate schedule)
