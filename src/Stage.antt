-- ===== src/Stage.antt =====
-- internal/stage/gzip.go: the staging of a dump. The workspace of secure_linux.go, the compression and
-- the dump are the answers of a parameter; what is made, closed and removed is recorded.
pub mod Protocol
use ezdbbackup.Common.{
  ℕ, Bool, true, false, Option, none, some, List, [], ◌∷◌, ◌++◌, String, Result, ok, err,
}
use ezdbbackup.Common.Exec.{Exec, ◌>>=◌, ◌>>◌, pure}
use ezdbbackup.Common.World.{World, perform, consult, observe}
use ezdbbackup.Common.Bytes.{Bytes, codes}
use ezdbbackup.Backup.Fault.{
  Fault, StagingKind, compression, temporary_storage, wrapping, staging_error, join_errors,
  error_text, staging_in,
}

-- `unix.Stat_t`, as far as it is looked at
pub record FileStat : Type 0 where
  pub device : ℕ
  pub inode : ℕ
  pub links : ℕ
  pub mode : ℕ
  pub bytes_ : ℕ

-- `workspace`, with its descriptors by numbers
pub record Workspace : Type 0 where
  pub parent_path : Bytes
  pub work_name : Bytes
  pub parent_fd : ℕ
  pub work_fd : ℕ
  pub parent_stat : FileStat
  pub work_stat : FileStat

-- `Artifact`; its path and the file's name follow from the parent and the workspace.
pub record StagedArtifact : Type 0 where
  pub artifact_size : ℕ
  pub artifact_parent : Bytes
  pub artifact_workspace : Bytes
  pub parent_device : ℕ
  pub parent_inode : ℕ
  pub work_device : ℕ
  pub work_inode : ℕ
  pub artifact_device : ℕ
  pub artifact_inode : ℕ
  pub artifact_links : ℕ
  pub artifact_mode : ℕ

-- `(*workspace).artifact`
abbrev pub artifact_of : Workspace → FileStat → StagedArtifact
artifact_of w stat = record {
  artifact_size = stat.bytes_;
  artifact_parent = w.parent_path;
  artifact_workspace = w.work_name;
  parent_device = w.parent_stat.device;
  parent_inode = w.parent_stat.inode;
  work_device = w.work_stat.device;
  work_inode = w.work_stat.inode;
  artifact_device = stat.device;
  artifact_inode = stat.inode;
  artifact_links = stat.links;
  artifact_mode = stat.mode;
}

pub data StageCall : Type 0 where
  workspace_made : Workspace → StageCall
  file_created : ℕ → StageCall
  dump_written gzip_closed : Option Fault → StageCall
  file_closed : ℕ → Option Fault → StageCall
  final_verified : StagedArtifact → Option Fault → StageCall
  artifact_removed : StagedArtifact → Option Fault → StageCall
  directory_removed : Workspace → Option Fault → StageCall
  workspace_closed : Workspace → StageCall

-- The operations of secure_linux.go, `ctx.Err()`, the callback `write` and the close of the compressor
-- behind it; `remove_file` is the field of `GzipStager`.
pub record StageOs (E : Type 0) : Type 0 where
  pub context_error : E → Option Fault × E
  pub new_workspace : Bytes → E → Result Fault Workspace × E
  pub create_file : Workspace → E → Result Fault (ℕ × FileStat) × E
  pub write_dump : ℕ → E → Option Fault × E
  pub close_gzip : ℕ → E → Option Fault × E
  pub stat_descriptor : ℕ → E → Result Fault FileStat × E
  pub close_file : ℕ → E → Option Fault × E
  pub verify_final : Workspace → StagedArtifact → E → Option Fault × E
  pub remove_file : Option (StagedArtifact → E → Option Fault × E)
  pub remove_artifact : Workspace → StagedArtifact → E → Option Fault × E
  pub remove_directory : Workspace → E → Option Fault × E
  pub close_workspace : Workspace → E → Unit {0} × E

-- an error under an operation's name
abbrev in_operation : String → Fault → Fault
in_operation text f = wrapping (codes text ++ error_text f) f

keep_kind : StagingKind → Fault → Option StagingKind → Fault
keep_kind kind f (some known) = f
keep_kind kind f none = staging_error kind f

-- `classifyFailure`
unfoldable pub classify_failure : StagingKind → Option Fault → Option Fault
unfolding keep_kind
classify_failure kind none = none
classify_failure kind (some f) = some (keep_kind kind f (staging_in f))

-- the contextual error, classified as its cause is
abbrev pub kept_context : StagingKind → Fault → Option StagingKind → Fault
kept_context kind contextual (some known) = contextual
kept_context kind contextual none = staging_error kind contextual

-- `contextualFailure`
unfoldable pub contextual_failure : StagingKind → String → Fault → Fault
contextual_failure kind operation f = kept_context kind (in_operation operation f) (staging_in f)

-- `stageError` of temporary storage
abbrev pub storage_error : Fault → Fault
storage_error f = staging_error temporary_storage f

-- What the steps up to the close of the file have come to, in the order of the returns.
unfoldable pub written_error :
    Option Fault → Option Fault → Result Fault FileStat → Option Fault → Option Fault
unfolding contextual_failure
written_error (some f) (some g) stat close =
    some (join_errors f (contextual_failure compression "close gzip staging file: " g))
written_error (some f) none stat close = some f
written_error none (some g) stat close =
    some (contextual_failure compression "close gzip staging file: " g)
written_error none none (err f) close =
    some (storage_error (in_operation "inspect staging file: " f))
written_error none none (ok stat) (some f) =
    some (storage_error (in_operation "close staging file: " f))
written_error none none (ok stat) none = none

-- `cleanupArtifact`
abbrev pub cleanup_artifact : Workspace → FileStat → Result Fault FileStat → StagedArtifact
cleanup_artifact w created (ok final) = artifact_of w final
cleanup_artifact w created (err f) = artifact_of w created

module _ {E : Type 0} (os : StageOs E) where
  abbrev pub StageExec : Type 0 → Type 0
  StageExec A = Exec (World E StageCall) A

  unfoldable pub remove_directory_after : Workspace → Option Fault → StageExec (Option Fault)
  remove_directory_after w (some f) = pure (some f)
  remove_directory_after w none = observe (directory_removed w) (os.remove_directory w)

  -- the removal in the deferred call, with the field of the stager where it is set
  unfoldable pub remove_partial :
      Workspace
      → StagedArtifact
      → Option (StagedArtifact → E → Option Fault × E)
      → StageExec (Option Fault)
  unfolding remove_directory_after
  remove_partial w a none = observe (artifact_removed a) (os.remove_artifact w a)
  remove_partial w a (some remove) = do
    removed ← observe (artifact_removed a) (remove a)
    remove_directory_after w removed

  abbrev pub with_cleanup : Fault → Option Fault → Fault
  with_cleanup f none = f
  with_cleanup f (some g) =
      join_errors f (storage_error (in_operation "remove partial staging artifact: " g))

  -- A failure removes the partial file.
  unfoldable pub fail_stage :
      Workspace → StagedArtifact → Fault → StageExec (Result Fault StagedArtifact)
  unfolding remove_partial
  fail_stage w a f = do
    removed ← remove_partial w a os.remove_file
    pure (err (with_cleanup f removed))

  unfoldable pub verified :
      Workspace
      → StagedArtifact
      → StagedArtifact
      → Option Fault
      → StageExec (Result Fault StagedArtifact)
  unfolding fail_stage
  verified w cleanup a (some f) = fail_stage w cleanup (storage_error f)
  verified w cleanup a none = pure (ok a)

  unfoldable pub verify_staged :
      Workspace
      → StagedArtifact
      → StagedArtifact
      → Option Fault
      → StageExec (Result Fault StagedArtifact)
  unfolding verified
  verify_staged w cleanup a (some f) = fail_stage w cleanup (storage_error f)
  verify_staged w cleanup a none = do
    answer ← observe (final_verified a) (os.verify_final w a)
    verified w cleanup a answer

  -- behind the close of the file
  unfoldable pub end_stage :
      Workspace → StagedArtifact → Option Fault → StageExec (Result Fault StagedArtifact)
  unfolding verify_staged
  end_stage w cleanup (some f) = fail_stage w cleanup f
  end_stage w cleanup none = do
    context ← consult os.context_error
    verify_staged w cleanup cleanup context

  unfoldable pub write_file : Workspace → ℕ → FileStat → StageExec (Result Fault StagedArtifact)
  unfolding end_stage written_error classify_failure
  write_file w file created = do
    wrote ← observe dump_written (os.write_dump file)
    gzip ← observe gzip_closed (os.close_gzip file)
    stat ← consult (os.stat_descriptor file)
    close ← observe (file_closed file) (os.close_file file)
    end_stage w (cleanup_artifact w created stat)
        (written_error wrote (classify_failure compression gzip) stat close)

  abbrev pub join_removal : Fault → Option Fault → Fault
  join_removal f none = f
  join_removal f (some g) = join_errors f g

  unfoldable pub stage_in_workspace :
      Workspace → Result Fault (ℕ × FileStat) → StageExec (Result Fault StagedArtifact)
  unfolding write_file
  stage_in_workspace w (err f) = do
    removed ← observe (directory_removed w) (os.remove_directory w)
    pure (err (storage_error (join_removal f removed)))
  stage_in_workspace w (ok (file, stat)) = do
    perform (file_created file) (λ e. (tt, e))
    write_file w file stat

  -- The workspace is closed by the deferred call.
  unfoldable pub stage_with : Result Fault Workspace → StageExec (Result Fault StagedArtifact)
  unfolding stage_in_workspace
  stage_with (err f) = pure (err (storage_error f))
  stage_with (ok w) = do
    perform (workspace_made w) (λ e. (tt, e))
    created ← consult (os.create_file w)
    staged ← stage_in_workspace w created
    perform (workspace_closed w) (os.close_workspace w)
    pure staged

  unfoldable pub stage_checked : Bytes → Option Fault → StageExec (Result Fault StagedArtifact)
  unfolding stage_with
  stage_checked dir (some f) = pure (err (storage_error f))
  stage_checked dir none = do made ← consult (os.new_workspace dir); stage_with made

  -- `(GzipStager).Stage`
  unfoldable pub stage : Bytes → StageExec (Result Fault StagedArtifact)
  unfolding stage_checked
  stage dir = do context ← consult os.context_error; stage_checked dir context
