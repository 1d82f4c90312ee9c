-- ===== src/Tests/Texts.antt =====
-- Schedules, cron files, option names and names of jobs.
use ezdbbackup.Common.{◌≡◌, ◌↔◌, refl, true, false, some, [], ◌∷◌, all, map, pos, Result, ok, err}
use mathlib.Core.List.{Perm}
use mathlib.Core.List.Perm
use ezdbbackup.Common.Bytes.{Bytes, codes, lt_bytes, fields_func, split}
use ezdbbackup.Common.Sorting.{IsSorted, sort_strings}
use ezdbbackup.Config.Types.{JobConfig, Config, no_job, job_at, enabled_job_names}
use ezdbbackup.Config.Types.Names.{enabled_jobs, name_of_job, enabled_job_names-perm}
use ezdbbackup.Config.Schedule.{minute_spec, validate_cron_schedule, validate_cron_field}
use ezdbbackup.Config.Schedule.Grammar.{IsField}
use ezdbbackup.Config.Schedule.Complete.{validate_cron_field_iff}
use ezdbbackup.Config.Schedule.Whole.{IsSchedule, validate_cron_schedule_iff}
use ezdbbackup.Cron.Marker.{has_ownership_marker}
use ezdbbackup.Cron.Render.{command_text, render}
use ezdbbackup.Cron.Render.Shell.{shell_words, shell_words-command_text}
use ezdbbackup.Cron.Render.Owned.{render_owned}
use ezdbbackup.Dump.LongName.{long_name}
use ezdbbackup.Dump.LongName.Canonical.{Spells, canonical_letter, long_name-canonical}

validate_cron_field_iff_example :
    (validate_cron_field minute_spec (codes "*/5,7-9") ≡ ok tt)
    ↔ IsField minute_spec (codes "*/5,7-9")
validate_cron_field_iff_example = validate_cron_field_iff minute_spec (codes "*/5,7-9")

validate_cron_schedule_iff_example :
    (validate_cron_schedule (codes "*/5 3 * JAN 1-5") ≡ ok tt)
    ↔ IsSchedule (codes "*/5 3 * JAN 1-5")
validate_cron_schedule_iff_example = validate_cron_schedule_iff (codes "*/5 3 * JAN 1-5")

shell_words-command_text_example :
    shell_words (command_text (codes "/bin/e x") (codes "o'job") (codes "/etc/c"))
    ≡ some
        (codes "/bin/e x" ∷ codes "backup" ∷ codes "o'job" ∷ codes "--config" ∷ codes "/etc/c" ∷ [])
shell_words-command_text_example =
    shell_words-command_text (codes "/bin/e x") (codes "o'job") (codes "/etc/c")

long_name-canonical_example :
    Spells (codes "--SSL_Mode=x") (codes "ssl-mode")
    × (all canonical_letter (codes "ssl-mode") ≡ true)
    × (long_name (codes "--ssl-mode") ≡ some (codes "ssl-mode"))
unfolding long_name
long_name-canonical_example = long_name-canonical (codes "--SSL_Mode=x") (codes "ssl-mode") refl

abbrev job : JobConfig
job = record no_job { enabled = true; schedule = codes "*/5 3 * * *"; run_as = codes "root" }

abbrev config : Config
config = record {
  version = pos 1;
  defaults = record { dump_binary = []; temp_dir = [] };
  logging = record {
    directory = [];
    debug = false;
    rotation = record {
      max_size_mb = pos 1;
      max_files = pos 1;
      max_age_days = pos 1;
      compress = false;
    };
  };
  jobs = (codes "b", job) ∷ (codes "a", job) ∷ [];
}

abbrev value_of : {E : Type 0} → Result E Bytes → Bytes
value_of (ok content) = content
value_of (err e) = []

abbrev cron_text : Bytes
unfolding render
cron_text = value_of (render (some config) (codes "/bin/e") (codes "/etc/c"))

render_owned_example : has_ownership_marker cron_text ≡ true
unfolding render enabled_job_names sort_strings lt_bytes job_at validate_cron_schedule fields_func
    split
render_owned_example = render_owned (some config) (codes "/bin/e") (codes "/etc/c") cron_text refl

enabled_job_names-perm_example :
    (enabled_job_names (some config) ≡ enabled_job_names (some config))
    × IsSorted (enabled_job_names (some config))
    × Perm (enabled_job_names (some config)) (map name_of_job (enabled_jobs config.jobs))
enabled_job_names-perm_example = enabled_job_names-perm config config (Perm.refl config.jobs)
