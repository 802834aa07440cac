-- ===== src/Monitor/Retention.antt =====
-- server/internal/services/health_monitor.go, enforceRetention and deleteRunFiles: old runs go, with
-- their artifacts and, on a local target, their files.
--
-- A run row is soft-deleted: it moves to `deleted_runs`. The paths handed to os.Remove are returned;
-- its outcome is only logged. The date arithmetic is that of days without a clock change.
pub mod Slots
pub mod Cancelled
use db_backup_app.Base.{
  ℕ, ◌+◌, ◌*◌, Bool, true, false, ◌&&◌, ◌||◌, not, Option, none, some, List, [], ◌∷◌, ◌++◌, ◌==◌,
  ltb, if◌then◌else◌, ℤ, pos, pos_part, ltb_ℤ, day, Text, text_eq, is_empty, any, keep, map,
  first_where,
}
use db_backup_app.Policy.{Job}
use db_backup_app.Runs.{Run, RunStatus, completed, failed, cancelled, same_status}
use db_backup_app.Store.{is_local, Server, Artifact, StorageTarget, StorageType, local, find_target}

-- completed_at < now - days; a row without that column fits no query.
abbrev pub is_past : ℕ → ℕ → Run → Bool
is_past days now r = elim r.completed_at [ none ↦ false | some t ↦ ltb (t + days * day) now ]

abbrev pub is_expired : ℕ → ℕ → ℕ → Run → Bool
is_expired job days now r =
    r.backup_job_id == job && same_status r.status completed && is_past days now r

abbrev pub is_dead : ℕ → ℕ → ℕ → Run → Bool
is_dead job days now r =
    r.backup_job_id == job
    && (same_status r.status failed || same_status r.status cancelled)
    && is_past days now r

-- The paths to remove, each once.
unfoldable pub distinct_paths : List Text → List Text → List Text
distinct_paths seen [] = []
distinct_paths seen (p ∷ rest) =
    let skip = distinct_paths seen rest in
    let take = p ∷ distinct_paths (p ∷ seen) rest in
    if is_empty p || any (text_eq p) seen then skip else take

unfoldable pub delete_run_files : List StorageTarget → List Artifact → Run → List Text
delete_run_files targets artifacts run = elim (find_target run.storage_target_id targets) [
  | none ↦ []
  | some t ↦
      if is_local t.type
      then distinct_paths [] (
          run.storage_path
          ∷ map (λ (a : Artifact). a.storage_path)
              (keep (λ a. a.backup_run_id == run.id) artifacts))
      else []
]

-- One expired run: its artifacts, then its row.
unfoldable pub delete_run : Run → Server → Server
delete_run run s = record s {
  artifacts = keep (λ a. not (a.backup_run_id == run.id)) s.artifacts;
  runs = keep (λ r. not (r.id == run.id)) s.runs;
  deleted_runs = s.deleted_runs ++ keep (λ r. r.id == run.id) s.runs;
}

unfoldable pub delete_runs : List Run → Server → Server × List Text
delete_runs [] s = (s, [])
delete_runs (run ∷ rest) s =
    let files = delete_run_files s.targets s.artifacts run in
    let (t, more) = delete_runs rest (delete_run run s) in (t, files ++ more)

unfoldable pub retain_job : ℕ → Job → Server → Server × List Text
retain_job now job s =
    let days = pos_part job.retention_days in
    if ltb_ℤ (pos 0) job.retention_days
    then delete_runs
        (keep (is_expired job.id days now) s.runs ++ keep (is_dead job.id days now) s.runs) s
    else (s, [])

unfoldable pub enforce_retention : ℕ → List Job → Server → Server × List Text
enforce_retention now [] s = (s, [])
enforce_retention now (job ∷ rest) s =
    let (t, files) = retain_job now job s in
    let (u, more) = enforce_retention now rest t in (u, files ++ more)
