-- ===== src/Lib.antt =====
-- ezdbbackup: scheduled backups of MySQL databases to S3
--
-- A configuration names jobs. `backup` runs them one after another: the service resolves a job's
-- options, has mysqldump's output staged as a compressed file, uploads it under a dated key and
-- removes the staged file; it logs and reports each step. `cron` renders the enabled jobs to a file
-- for the cron daemon and installs, shows or removes it. Errors of S3 pass a filter before people
-- see them.
--
-- Backup (internal/backup). Backup/Fault.antt: the errors that the service takes apart and their
-- texts. Backup/Types.antt: what it exchanges with the other parts, and the record `Service` of those
-- parts over an environment `E` that gives every answer. Backup/Service.antt and Backup/Run.antt:
-- `(*Service).Run`, with the variables of the run, and all that it does to the outside, in
-- `RunState`; a closure or a deferred call of the source is a step of its own, and the steps are
-- composed in the order of the source. Backup/Service/Keeps.antt and Backup/Run/Keeps.antt carry
-- invariants of the actions through the steps. Backup/Summary.antt: `RunMany` and `Summary`.
--
-- Storage (internal/storage). Storage/Key.antt: `ObjectKey`. Storage/Plan.antt: `multipartPlan` and
-- its limits. Storage/S3.antt: requests, answers and the record `Client`. Storage/Parts.antt and
-- Storage/Uploader.antt: `(*fileUploader).Upload` with the steps of its loop; each request is
-- recorded in a `World`. Storage/SafeError.antt: error.go and the metadata policy of s3.go.
--
-- Config (internal/config). Config/Types.antt: types.go with the lists of job names.
-- Config/Schedule.antt: cron.go; Config/Schedule/Grammar.antt is the grammar of a field.
-- Config/Secrets.antt: secret.go. Config/Findings.antt: the findings of types.go.
-- Config/Patterns.antt, Config/DumpOptions.antt, Config/Endpoint.antt, Config/Checks.antt and
-- Config/Validate.antt: validate.go, from its patterns up to `Validate`. A check that appends to the
-- findings is here the list of what it appends.
--
-- Cron (internal/cron). Cron/Marker.antt: `hasOwnershipMarker`. Cron/Render.antt: render.go;
-- Cron/Render/Shell.antt has a reader of POSIX quoting. Cron/Manager: manager.go, its inspection of
-- files, its lock and its operations.
--
-- Dump (internal/dump/args.go and internal/mysqldumpopt). Dump/LongName.antt: `LongName`.
-- Dump/Args.antt: `Args` and `ProbeArgs`. Of runner.go, Dump/Capture.antt is the buffer that keeps
-- standard error without the password, Dump/Environment.antt the environment of the child, and
-- Dump/Runner.antt a run over a parameter `RunnerOs` for files, processes and the context.
-- Dump/Capture/Reference.antt says without a table what the buffer is to show.
--
-- Stage (internal/stage). Stage.antt: `(GzipStager).Stage`, over a record `StageOs` for the workspace,
-- the dump and the compression. Stage/Protocol.antt and Dump/Runner/Shape.antt have the calls and
-- results of these two as data types.
--
-- Validation (internal/validation). Validation/Identity.antt, Validation/LogTarget.antt and
-- Validation/SensitiveFile.antt: the rules of environment.go on identities, modes, a shared log
-- directory and a file with a secret; the looks at files are parameters. Validation/Report.antt:
-- report.go and redact.go. Validation/Selection.antt, Validation/Jobs.antt, Validation/Connectivity.antt and
-- Validation/Check.antt: validator.go. The checks of the machine are the record `Environment`; what
-- runs a program or reaches a server is recorded in a `World`.
--
-- Terminal (internal/terminal). Terminal.antt: `Encode` and `EncodeLines`.
--
-- Resolve (internal/jobresolve and internal/config/secret.go). Resolve.antt: `Resolver`, whose methods
-- give the service its options.
--
-- Common holds shared types and lemmas: results, steps, bytes, UTF-8, sorting, splitting. A text is a
-- list of its bytes; in the schedules it is a list of its code points, which the source reads there.
-- A pointer or an interface that may be nil is an option; a Go map of jobs is a list of names and
-- jobs, of which no order is assumed.
--
-- Bounds. Sizes and part sizes are at most 5 GiB times 10,000, below 2 ^ 63, and so are the products in
-- the loop over the parts, so no int64 wraps. A number in a schedule has a bound, that of Go's int,
-- and a longer one is refused as the source does. The fuel of the loop over the prefixes of an
-- option is the name's length, that of the inner loop of the redaction is the number of matched
-- bytes; each round makes them smaller. The only other fuel is that of the loop around flock,
-- which the source leaves unbounded: a parameter says how many interrupted calls are repeated.
--
-- Not modelled: YAML and its files (internal/config/load.go), the system calls of a staging, logging to
-- files, secure paths, the system calls of internal/validation/environment.go, the command line, and
-- the AWS SDK, net/url and net; where the modelled parts call these, they are parameters. Contexts are
-- the answers to `ctx.Err()`. Durations are pairs of times, and the formats of a time are given with
-- it. The goroutines that copy the output of mysqldump give the pieces that arrive, in their order.
pub mod Common
pub mod Config
pub mod Cron
pub mod Storage
pub mod Backup
pub mod Resolve
pub mod Dump
pub mod Stage
pub mod Terminal
pub mod Tests
pub mod Validation
