-- ===== src/Cron/Render.antt =====
-- internal/cron/render.go: the cron file of the enabled jobs. Texts are sequences of code points.
pub mod Shell
pub mod Owned
use ezdbbackup.Common.{
  ℕ, Bool, true, false, not, ◌&&◌, ◌||◌, Option, none, some, List, [], ◌∷◌, ◌++◌, String, ◌==◌,
  if◌then◌else◌, any, Result, ok, err, ◌>>=◌, ◌>>◌,
}
use ezdbbackup.Common.Bytes.{Bytes, codes, is_empty, has_prefix, contains_byte, join, fields_func}
use ezdbbackup.Common.Utf8.{is_space}
use ezdbbackup.Config.Schedule.{ScheduleError, validate_cron_schedule}
use ezdbbackup.Config.Types.{JobConfig, Jobs, Config, job_at, enabled_job_names}
use ezdbbackup.Cron.Marker.{ownership_marker}

pub data RenderError : Type 0 where
  configuration_required newline_or_nul cron_special_percent not_absolute run_user_field :
      RenderError
  invalid_schedule : Bytes → ScheduleError → RenderError

abbrev pub is_line_break_or_nul : ℕ → Bool
is_line_break_or_nul r = r == b'\r' || r == b'\n' || r == 0

unfoldable pub reject_line_break_or_nul : Bytes → Result RenderError (Unit {0})
reject_line_break_or_nul value =
    if any is_line_break_or_nul value then err newline_or_nul else ok tt

unfoldable pub validate_run_as : Bytes → Result RenderError (Unit {0})
unfolding reject_line_break_or_nul
validate_run_as run_as = do
  reject_line_break_or_nul run_as
  if is_empty run_as || any is_space run_as then err run_user_field else ok tt

check_path : Bytes → Result RenderError (Unit {0})
check_path value =
    if contains_byte value b'%'
    then err cron_special_percent
    else if not (has_prefix value (codes "/"))
    then err not_absolute
    else ok tt

unfoldable pub validate_rendered_path : Bytes → Result RenderError (Unit {0})
unfolding check_path reject_line_break_or_nul
validate_rendered_path value = do reject_line_break_or_nul value; check_path value

-- `strings.ReplaceAll(value, "'", "'\"'\"'")`
unfoldable pub escape_quotes : Bytes → Bytes
escape_quotes [] = []
escape_quotes (c ∷ cs) =
    if c == 39 then 39 ∷ 34 ∷ 39 ∷ 34 ∷ 39 ∷ escape_quotes cs else c ∷ escape_quotes cs

unfoldable pub posix_quote : Bytes → Bytes
unfolding escape_quotes
posix_quote value = 39 ∷ (escape_quotes value ++ 39 ∷ [])

-- the command of a line, from the quoted path of the program on
unfoldable pub command_text : Bytes → Bytes → Bytes → Bytes
unfolding posix_quote
command_text binary_path name config_path =
    posix_quote binary_path
    ++ (codes " backup " ++ (posix_quote name ++ (codes " --config " ++ posix_quote config_path)))

unfoldable pub job_line : Bytes → Bytes → Bytes → JobConfig → Bytes
unfolding command_text
job_line binary_path config_path name job =
    join (codes " ") (fields_func is_space job.schedule)
    ++ (codes " "
        ++ (job.run_as ++ (codes " " ++ (command_text binary_path name config_path ++ codes "\n"))))

lift_schedule : Bytes → Result ScheduleError (Unit {0}) → Result RenderError (Unit {0})
lift_schedule name (ok u) = ok u
lift_schedule name (err e) = err (invalid_schedule name e)

-- The body of the loop over the jobs.
unfoldable pub render_job : Bytes → Bytes → Bytes → JobConfig → Result RenderError Bytes
unfolding job_line validate_run_as lift_schedule
render_job binary_path config_path name job = do
  reject_line_break_or_nul name
  reject_line_break_or_nul job.schedule
  lift_schedule name (validate_cron_schedule job.schedule)
  validate_run_as job.run_as
  ok (job_line binary_path config_path name job)

unfoldable pub render_jobs : Bytes → Bytes → Jobs → List Bytes → Result RenderError Bytes
unfolding render_job
render_jobs binary_path config_path jobs [] = ok []
render_jobs binary_path config_path jobs (name ∷ names) = do
  line ← render_job binary_path config_path name (job_at name jobs)
  lines ← render_jobs binary_path config_path jobs names
  ok (line ++ lines)

abbrev pub generated_line : Bytes
generated_line = codes "# Generated by ezdbbackup. DO NOT EDIT."

abbrev pub environment_lines : Bytes
environment_lines =
    codes "SHELL=/bin/sh\nPATH=/usr/local/sbin:/usr/local/bin:/usr/sbin:/usr/bin:/sbin:/bin\n\n"

-- `Render`; a nil configuration is `none`.
unfoldable pub render : Option Config → Bytes → Bytes → Result RenderError Bytes
unfolding render_jobs validate_rendered_path
render none binary_path config_path = err configuration_required
render (some c) binary_path config_path = do
  validate_rendered_path binary_path
  validate_rendered_path config_path
  lines ← render_jobs binary_path config_path c.jobs (enabled_job_names (some c))
  ok (generated_line ++ b'\n' ∷ (ownership_marker ++ b'\n' ∷ (environment_lines ++ lines)))
