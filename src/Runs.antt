-- ===== src/Runs.antt =====
-- server/internal/models/backup_run.go: the statuses of a backup run, its row, and the table.
--
-- Every column that an operation reads or writes is a field. Instants are numbers of nanoseconds;
-- identifiers (UUIDs) are numbers; byte counters are int64 and may be negative in a request.
pub mod Lifecycle
pub mod Evolution
pub mod History
use db_backup_app.Base.{
  ℕ, ◌≡◌, Bool, true, false, ◌&&◌, ◌||◌, Option, none, some, List, ◌==◌, count_where, Text, lit,
  text_eq, ℤ, pos, if◌then◌else◌,
}

-- A status column or a reported status; `other` is any other string.
pub data RunStatus : Type 0 where
  pending running uploading verifying completed failed cancelled : RunStatus
  other : Text → RunStatus

-- Go's `==` on the strings.
unfoldable pub same_status : RunStatus → RunStatus → Bool
same_status pending pending = true
same_status running running = true
same_status uploading uploading = true
same_status verifying verifying = true
same_status completed completed = true
same_status failed failed = true
same_status cancelled cancelled = true
same_status (other s) (other t) = text_eq s t
same_status _ _ = false

unfoldable pub can_transition : RunStatus → RunStatus → Bool
unfolding same_status
can_transition pending to = same_status to running || same_status to cancelled
can_transition running to =
    same_status to uploading || same_status to failed || same_status to cancelled
can_transition uploading to =
    same_status to verifying || same_status to failed || same_status to cancelled
can_transition verifying to =
    same_status to completed || same_status to failed || same_status to cancelled
can_transition _ to = false

-- The `status IN ?` list of the in-flight guards.
unfoldable pub is_inflight : RunStatus → Bool
is_inflight pending = true
is_inflight running = true
is_inflight uploading = true
is_inflight verifying = true
is_inflight _ = false

pub record Run : Type 0 where
  pub id : ℕ
  pub organization_id : ℕ
  pub backup_job_id : ℕ
  pub agent_id : ℕ
  pub storage_target_id : ℕ
  pub status : RunStatus
  pub scheduled_for : Option ℕ
  pub cancel_requested : Bool
  pub retry_of_run_id : Option ℕ
  pub retry_attempt : ℕ
  pub started_at : Option ℕ
  pub completed_at : Option ℕ
  pub bytes_read : ℤ
  pub bytes_compressed : ℤ
  pub bytes_uploaded : ℤ
  pub duration_seconds : ℤ
  pub source_type : Text
  pub error_message : Text
  pub failure_category : Text
  pub storage_path : Text
  pub checksum : Text
  pub data_key_encrypted : Text
  pub created_at : ℕ
  pub updated_at : ℕ

-- The row that the scheduler and RunNow insert; a retry and a boundary fill in more.
unfoldable pub new_run : ℕ → ℕ → ℕ → ℕ → ℕ → Text → ℕ → Run
new_run id org job agent target source now = record {
  id = id;
  organization_id = org;
  backup_job_id = job;
  agent_id = agent;
  storage_target_id = target;
  status = pending;
  scheduled_for = none;
  cancel_requested = false;
  retry_of_run_id = none;
  retry_attempt = 0;
  started_at = none;
  completed_at = none;
  bytes_read = pos 0;
  bytes_compressed = pos 0;
  bytes_uploaded = pos 0;
  duration_seconds = pos 0;
  source_type = source;
  error_message = lit "";
  failure_category = lit "";
  storage_path = lit "";
  checksum = lit "";
  data_key_encrypted = lit "";
  created_at = now;
  updated_at = now;
}

-- COUNT of the runs of a job that are in flight.
abbrev pub occupies : ℕ → Run → Bool
occupies job r = r.backup_job_id == job && is_inflight r.status

abbrev pub inflight : ℕ → List Run → ℕ
inflight job runs = count_where (occupies job) runs
