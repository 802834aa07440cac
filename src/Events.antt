-- ===== src/Events.antt =====
-- server/internal/grpcserver/server.go, handleEvent for backup runs, and ReportProgress: what an agent
-- reports over gRPC. The events of restores are left out.
--
-- The writes go by the run's identifier alone, and nothing asks if they fail: `fails` is the write of the
-- event or report, `f` its alert. An identifier that is no UUID fits no row.
pub mod Unguarded
use db_backup_app.Base.{
  ℕ, Bool, true, false, ◌||◌, Option, none, some, List, [], ◌∷◌, ◌++◌, ◌==◌, if◌then◌else◌, ℤ, Text,
  lit, is_empty, update_where, first_where,
}
use db_backup_app.Agents.{Agent, Roster}
use db_backup_app.Alerts.{AlertInput, Faults, raise_alert, backup_failed}
use db_backup_app.Reports.{failed_key}
use db_backup_app.Runs.{Run, RunStatus, running, uploading, completed, failed, same_status}
use db_backup_app.Store.{Server, Env}

pub data Event : Type 0 where
  connected : Text → Text → Event  -- host name, version
  health : Bool → Event
  backup_started : ℕ → Event
  backup_progress : ℕ → ℤ → ℤ → ℤ → Event
  backup_completed : ℕ → ℤ → ℤ → ℤ → Text → Text → Event  -- with checksum and path
  failed_with : ℕ → Text → Event

abbrev pub on_run : Bool → ℕ → (Run → Run) → Server → Server
on_run fails id change s = record s {
  runs = if fails then s.runs else update_where (λ r. r.id == id) change s.runs;
}

abbrev pub on_agent : Bool → ℕ → (Agent → Agent) → Server → Server
on_agent fails id change s = record s {
  roster = record s.roster {
    agents =
        if fails then s.roster.agents else update_where (λ a. a.id == id) change s.roster.agents;
  };
}

abbrev pub counted : ℤ → ℤ → ℤ → Run → Run
counted read compressed uploaded r = record r {
  bytes_read = read;
  bytes_compressed = compressed;
  bytes_uploaded = uploaded;
}

unfoldable pub failure : Env → Agent → ℕ → Text → Server → AlertInput
failure env a id message s = record {
  organization_id = a.organization_id;
  type = backup_failed;
  title = lit "Backup Failed";
  message = message;
  backup_job_id = elim (first_where (λ (r : Run). r.id == id) s.runs) [
    | none ↦ none
    | some r ↦ some r.backup_job_id
  ];
  agent_id = some a.id;
  dedup_key = failed_key env id;
  severity = none;
  email_subject = lit "[VaultGuard] Backup Failed";
  email_body = lit "Backup failed on agent " ++ a.name ++ lit ":\n\n" ++ message;
}

unfoldable pub apply_event : Env → Bool → Faults → Agent → ℕ → ℕ → Event → Server → Server
apply_event env fails f a now alert (connected host version) s =
    on_agent fails a.id (λ b. record b { name = host; version = version }) s
apply_event env fails f a now alert (health ok) s = s
apply_event env fails f a now alert (backup_started id) s =
    on_run fails id (λ r. record r { status = running; started_at = some now; updated_at = now }) s
apply_event env fails f a now alert (backup_progress id read compressed uploaded) s =
    on_run fails id
      (λ r. record (counted read compressed uploaded r) { status = uploading; updated_at = now }) s
apply_event env fails f a now alert (backup_completed id read compressed uploaded sum path) s =
    on_run fails id
      (λ r. record (counted read compressed uploaded r) {
        status = completed;
        completed_at = some now;
        checksum = sum;
        storage_path = path;
        updated_at = now;
      })
      s
apply_event env fails f a now alert (failed_with id message) s =
    record (on_run fails id
      (λ r. record r {
        status = failed;
        completed_at = some now;
        error_message = message;
        updated_at = now;
      })
      s) { book = (raise_alert f s.book (failure env a id message s) alert now).0 }

-- handleEvent, whose first statement is a heartbeat, which may fail by itself.
unfoldable pub handle_event : Env → Bool → Bool → Faults → Agent → ℕ → ℕ → Event → Server → Server
handle_event env beat_fails fails f a now alert e s =
    apply_event env fails f a now alert e
      (on_agent beat_fails a.id (λ b. record b { last_seen_at = some now }) s)

pub record Progress : Type 0 where
  pub run_id : ℕ
  pub bytes_read : ℤ
  pub bytes_compressed : ℤ
  pub bytes_uploaded : ℤ
  pub status : Option RunStatus  -- none is the empty string
  pub checksum : Text
  pub storage_path : Text
  pub error : Text

abbrev pub or_old : Text → Text → Text
or_old new old = if is_empty new then old else new

unfoldable pub progress_row : Progress → ℕ → Run → Run
progress_row p now r = record (counted p.bytes_read p.bytes_compressed p.bytes_uploaded r) {
  status = elim p.status [ none ↦ r.status | some st ↦ st ];
  completed_at = elim p.status [
    | none ↦ r.completed_at
    | some st ↦
        if same_status st completed || same_status st failed then some now else r.completed_at
  ];
  checksum = or_old p.checksum r.checksum;
  storage_path = or_old p.storage_path r.storage_path;
  error_message = or_old p.error r.error_message;
  updated_at = now;
}

-- ReportProgress of an agent that proved itself; which agent it is plays no part.
unfoldable pub report_progress : Bool → Progress → ℕ → Server → Server
report_progress fails p now s = on_run fails p.run_id (progress_row p now) s
