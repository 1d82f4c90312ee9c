-- ===== src/Cron/Render/Owned.antt =====
-- A rendered file is one that the manager accepts as its own.
use ezdbbackup.Common.{◌≡◌, refl, true, Option, none, some, ◌∷◌, ◌++◌, Result, ok, >>=-eq-ok}
use ezdbbackup.Common.Bytes.{Bytes}
use ezdbbackup.Common.Split.{split-append}
use ezdbbackup.Config.Types.{Config, enabled_job_names}
use ezdbbackup.Cron.Marker.{ownership_marker, has_ownership_marker}
use ezdbbackup.Cron.Render.{
  render, generated_line, environment_lines, validate_rendered_path, render_jobs,
}

owned :
    (rest : Bytes)
    → has_ownership_marker (generated_line ++ b'\n' ∷ (ownership_marker ++ b'\n' ∷ rest)) ≡ true
unfolding has_ownership_marker
owned rest =
    rw (split-append b'\n' generated_line (ownership_marker ++ b'\n' ∷ rest) refl)
      (rw (split-append b'\n' ownership_marker rest refl))

ok_inj : {E A : Type 0} {a b : A} → ◌≡◌ {A = Result E A} (ok a) (ok b) → a ≡ b
ok_inj e = cc

-- Whatever the configuration, a file that `Render` returns has the ownership marker, so that
-- `Install` takes it and `Show` and `Remove` take it once it is installed.
pub render_owned :
    (cfg : Option Config) (binary_path config_path content : Bytes)
    → render cfg binary_path config_path ≡ ok content
    → has_ownership_marker content ≡ true
unfolding render
render_owned none b p content h = absurd (cc)
render_owned (some c) b p content h =
    let (_, _, k) = >>=-eq-ok (validate_rendered_path b) _ h in
    let (_, _, l) = >>=-eq-ok (validate_rendered_path p) _ k in
    let (lines, _, e) = >>=-eq-ok (render_jobs b p c.jobs (enabled_job_names (some c))) _ l in
    rw (← ok_inj e) (owned (environment_lines ++ lines))
