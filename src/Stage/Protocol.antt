-- ===== src/Stage/Protocol.antt =====
-- internal/stage/gzip.go: the calls and the result of a staging.
use ezdbbackup.Common.{
  ℕ, ◌≡◌, refl, Option, none, some, List, [], ◌∷◌, ◌++◌, append-nil, Result, ok, err,
}
use ezdbbackup.Common.World.{World}
use ezdbbackup.Common.World.Trace.{
  Gives, Gives-pure, Gives-consult, Gives-perform, Gives-observe, Gives-last, Gives-bind, Gives-imp,
}
use ezdbbackup.Common.Bytes.{Bytes}
use ezdbbackup.Backup.Fault.{Fault, compression}
use ezdbbackup.Stage.{
  FileStat, Workspace, StagedArtifact, StageCall, workspace_made, file_created, dump_written,
  gzip_closed, file_closed, final_verified, artifact_removed, directory_removed, workspace_closed,
  StageOs, classify_failure, written_error, cleanup_artifact, remove_partial,
  remove_directory_after, with_cleanup, fail_stage, verified, verify_staged, end_stage, write_file,
  join_removal, stage_in_workspace, stage_with, stage_checked, stage, storage_error,
}

-- The removal of the partial file and of its directory: by the workspace in one call, or by the
-- stager's field and, behind its success, by the workspace.
pub data IsRemoval (w : Workspace) (a : StagedArtifact) : List StageCall → Type 0 where
  removed_once : (answer : Option Fault) → IsRemoval w a (artifact_removed a answer ∷ [])
  removed_both :
      (answer : Option Fault)
      → IsRemoval w a (artifact_removed a none ∷ directory_removed w answer ∷ [])

-- The calls between the close of the file and that of the workspace.
pub data IsEnd (wrote gzip close : Option Fault) (w : Workspace) (a : StagedArtifact)
    : List StageCall → Result Fault StagedArtifact → Type 0 where
  dropped :
      {t : List StageCall} (f : Fault) → IsRemoval w a t → IsEnd wrote gzip close w a t (err f)
  unverified :
      {t : List StageCall} (f g : Fault)
      → IsRemoval w a t
      → IsEnd wrote gzip close w a (final_verified a (some g) ∷ t) (err f)
  kept :
      wrote ≡ none
      → gzip ≡ none
      → close ≡ none
      → IsEnd wrote gzip close w a (final_verified a none ∷ []) (ok a)

-- The calls of a staging. A file that is created is closed, once; the workspace is closed last; on a
-- failure the directory or the partial file is removed before; an artifact is returned only where
-- the dump, the compression and the close had no error and the final check agreed.
pub data IsStaged : List StageCall → Result Fault StagedArtifact → Type 0 where
  refused : (f : Fault) → IsStaged [] (err f)
  no_file :
      (w : Workspace) (f : Fault) (answer : Option Fault)
      → IsStaged (workspace_made w ∷ directory_removed w answer ∷ workspace_closed w ∷ []) (err f)
  attempted :
      (w : Workspace) (file : ℕ) (wrote gzip close : Option Fault) (a : StagedArtifact)
      {t : List StageCall} {r : Result Fault StagedArtifact}
      → IsEnd wrote gzip close w a t r
      → IsStaged
          (workspace_made w
              ∷ file_created file
              ∷ dump_written wrote
              ∷ gzip_closed gzip
              ∷ file_closed file close
              ∷ t
            ++ workspace_closed w ∷ [])
          r

module _ {E : Type 0} (os : StageOs E) where
  directory-Gives :
      (w : Workspace) (a : StagedArtifact) (answer : Option Fault)
      → Gives
          (λ t x. IsRemoval w a (artifact_removed a answer ∷ t))
          (remove_directory_after os w answer)
  unfolding remove_directory_after
  directory-Gives w a (some f) = Gives-pure E _ (some f) (removed_once (some f))
  directory-Gives w a none =
      Gives-last _ (directory_removed w) (os.remove_directory w) (λ answer. removed_both answer)

  IsRemoval-Gives :
      (w : Workspace) (a : StagedArtifact) (remove : Option (StagedArtifact → E → Option Fault × E))
      → Gives (λ t x. IsRemoval w a t) (remove_partial os w a remove)
  unfolding remove_partial
  IsRemoval-Gives w a none =
      Gives-last _ (artifact_removed a) (os.remove_artifact w a) (λ answer. removed_once answer)
  IsRemoval-Gives w a (some remove) =
      Gives-observe _ (artifact_removed a) (remove a) _ (λ answer. directory-Gives w a answer)

  module _ (wrote gzip close : Option Fault) (w : Workspace) (a : StagedArtifact) where
    fail-IsEnd : (f : Fault) → Gives (IsEnd wrote gzip close w a) (fail_stage os w a f)
    unfolding fail_stage
    fail-IsEnd f =
        Gives-bind _ _ (remove_partial os w a os.remove_file) _ (IsRemoval-Gives w a os.remove_file)
          (λ removed t p.
            Gives-pure E _ (err (with_cleanup os f removed))
              (dropped_rest t (with_cleanup os f removed) p))
      where
        dropped_rest :
            (t : List StageCall) (g : Fault)
            → IsRemoval w a t
            → IsEnd wrote gzip close w a (t ++ []) (err g)
        dropped_rest t g p = rw (append-nil t) (dropped g p)

    -- a failure of the final check
    fail-unverified :
        (f g : Fault)
        → Gives
            (λ t r. IsEnd wrote gzip close w a (final_verified a (some g) ∷ t) r)
            (fail_stage os w a f)
    unfolding fail_stage
    fail-unverified f g =
        Gives-bind _ _ (remove_partial os w a os.remove_file) _ (IsRemoval-Gives w a os.remove_file)
          (λ removed t p.
            Gives-pure E _ (err (with_cleanup os f removed)) (rest t (with_cleanup os f removed) p))
      where
        rest :
            (t : List StageCall) (h : Fault)
            → IsRemoval w a t
            → IsEnd wrote gzip close w a (final_verified a (some g) ∷ t ++ []) (err h)
        rest t h p = rw (append-nil t) (unverified h g p)

    verified-IsEnd :
        wrote ≡ none
        → gzip ≡ none
        → close ≡ none
        → (answer : Option Fault)
        → Gives
            (λ t r. IsEnd wrote gzip close w a (final_verified a answer ∷ t) r)
            (verified os w a a answer)
    unfolding verified
    verified-IsEnd x y z none = Gives-pure E _ _ (kept x y z)
    verified-IsEnd x y z (some g) = fail-unverified (storage_error g) g

    checked-IsEnd :
        wrote ≡ none
        → gzip ≡ none
        → close ≡ none
        → (context : Option Fault)
        → Gives (IsEnd wrote gzip close w a) (verify_staged os w a a context)
    unfolding verify_staged
    checked-IsEnd x y z none =
        Gives-observe _ (final_verified a) (os.verify_final w a) _
          (λ answer. verified-IsEnd x y z answer)
    checked-IsEnd x y z (some f) = fail-IsEnd (storage_error f)

    clean-IsEnd :
        wrote ≡ none
        → gzip ≡ none
        → close ≡ none
        → Gives (IsEnd wrote gzip close w a) (end_stage os w a none)
    unfolding end_stage
    clean-IsEnd x y z = Gives-consult _ os.context_error _ (λ context. checked-IsEnd x y z context)

    failed-IsEnd : (f : Fault) → Gives (IsEnd wrote gzip close w a) (end_stage os w a (some f))
    unfolding end_stage
    failed-IsEnd f = fail-IsEnd f

  -- The returns behind the close of the file.
  end-IsEnd :
      (wrote gzip : Option Fault) (stat : Result Fault FileStat) (close : Option Fault)
      (w : Workspace) (a : StagedArtifact)
      → Gives
          (IsEnd wrote gzip close w a)
          (end_stage os w a (written_error wrote (classify_failure compression gzip) stat close))
  unfolding written_error classify_failure
  end-IsEnd (some f) none stat close w a = failed-IsEnd (some f) none close w a _
  end-IsEnd (some f) (some g) stat close w a = failed-IsEnd (some f) (some g) close w a _
  end-IsEnd none (some g) stat close w a = failed-IsEnd none (some g) close w a _
  end-IsEnd none none (err f) close w a = failed-IsEnd none none close w a _
  end-IsEnd none none (ok stat) (some f) w a = failed-IsEnd none none (some f) w a _
  end-IsEnd none none (ok stat) none w a = clean-IsEnd none none none w a refl refl refl

  -- what the workspace's close completes
  abbrev IsInside : Workspace → List StageCall → Result Fault StagedArtifact → Type 0
  IsInside w t r = IsStaged (workspace_made w ∷ t ++ workspace_closed w ∷ []) r

  file-IsInside :
      (w : Workspace) (file : ℕ) (created : FileStat)
      → Gives (λ t r. IsInside w (file_created file ∷ t) r) (write_file os w file created)
  unfolding write_file
  file-IsInside w file created = Gives-observe _ dump_written (os.write_dump file) _ (λ wrote.
      Gives-observe _ gzip_closed (os.close_gzip file) _ (λ gzip.
        Gives-consult _ (os.stat_descriptor file) _ (λ stat.
          Gives-observe _ (file_closed file) (os.close_file file) _ (λ close.
            Gives-imp (IsEnd wrote gzip close w (cleanup_artifact w created stat)) _
              (end_stage os w (cleanup_artifact w created stat)
                (written_error wrote (classify_failure compression gzip) stat close))
              (λ t r e. attempted w file wrote gzip close (cleanup_artifact w created stat) e)
              (end-IsEnd wrote gzip stat close w (cleanup_artifact w created stat))))))

  workspace-IsInside :
      (w : Workspace) (created : Result Fault (ℕ × FileStat))
      → Gives (IsInside w) (stage_in_workspace os w created)
  unfolding stage_in_workspace
  workspace-IsInside w (err f) =
      Gives-observe _ (directory_removed w) (os.remove_directory w) _ (λ removed.
        Gives-pure E _ (err (storage_error (join_removal os f removed)))
          (no_file w (storage_error (join_removal os f removed)) removed))
  workspace-IsInside w (ok (file, stat)) =
      Gives-perform _ (file_created file) (λ e. (tt, e)) _ (λ _. file-IsInside w file stat)

  made-IsStaged : (made : Result Fault Workspace) → Gives IsStaged (stage_with os made)
  unfolding stage_with
  made-IsStaged (err f) = Gives-pure E _ _ (refused (storage_error f))
  made-IsStaged (ok w) =
      Gives-perform _ (workspace_made w) (λ e. (tt, e)) _
        (λ _. Gives-consult _ (os.create_file w) _ (λ created.
          Gives-bind _ _ (stage_in_workspace os w created) _ (workspace-IsInside w created)
            (λ staged t p.
              Gives-perform _ (workspace_closed w) (os.close_workspace w) _
                (λ _. Gives-pure E _ staged p))))

  checked-IsStaged :
      (dir : Bytes) (context : Option Fault) → Gives IsStaged (stage_checked os dir context)
  unfolding stage_checked
  checked-IsStaged dir (some f) = Gives-pure E _ _ (refused (storage_error f))
  checked-IsStaged dir none = Gives-consult _ (os.new_workspace dir) _ (λ made. made-IsStaged made)

  -- `Stage` closes the file that it creates once, and the workspace last; it removes the partial file
  -- or the directory before that in every case of failure; and it returns an artifact only where the
  -- dump, the compression and the close of the file had no error and the final check of that
  -- artifact agreed.
  pub stage-IsStaged :
      (dir : Bytes) (w : World E StageCall)
      → (t : List StageCall) × ((stage os dir w).1.calls ≡ w.calls ++ t)
        × IsStaged t (stage os dir w).0
  unfolding stage Gives
  stage-IsStaged dir =
      Gives-consult IsStaged os.context_error (λ context. stage_checked os dir context)
        (λ context. checked-IsStaged dir context)
