-- ===== src/Cancel.antt =====
-- server/internal/handlers/backup_run.go, Cancel: a user asks to stop a run.
--
-- `judge` is the handler up to its write and `write` the rest; the write has no guard on the status,
-- and what follows it does not ask if it failed.
pub mod Outcome
use db_backup_app.Base.{
  ℕ, Bool, true, false, ◌&&◌, not, Option, none, some, List, [], ◌∷◌, ◌++◌, ◌==◌, if◌then◌else◌,
  lit, update_where, first_where,
}
use db_backup_app.Runs.{Run, RunStatus, pending, cancelled, same_status, can_transition}
use db_backup_app.Store.{Server, Env, RunEvent, cancel_backup, cancel_socket}

pub data Reply : Type 0 where
  cancelled_ok bad_request not_found : Reply

pub data Verdict : Type 0 where
  answer : Reply → Verdict
  proceed : Verdict

unfoldable pub judge : Run → Verdict
judge run =
    if same_status run.status cancelled
    then answer cancelled_ok
    else if can_transition run.status cancelled
    then proceed
    else answer bad_request

-- The columns that the handler writes, from the run as it was read.
unfoldable pub cancel_row : Run → ℕ → Run → Run
cancel_row read now row = record row {
  cancel_requested = true;
  status = if same_status read.status pending then cancelled else row.status;
  updated_at = now;
}

-- The struct after `Updates`: written back, or as it was read.
unfoldable pub struct_after : Env → Run → Run
struct_after env read =
    if env.orm_writes_back && same_status read.status pending
    then record read { status = cancelled; cancel_requested = true }
    else read

abbrev pub run_event : Run → RunStatus → RunEvent
run_event run status = record {
  run = run;
  status = status;
  bytes_read = run.bytes_read;
  bytes_compressed = run.bytes_compressed;
  bytes_uploaded = run.bytes_uploaded;
  checksum = run.checksum;
  error_message = run.error_message;
  storage_path = run.storage_path;
}

unfoldable pub write : Env → Bool → ℕ → ℕ → Run → Server → Server
write env fails user now read s =
    let run = struct_after env read in
    let waits = same_status run.status pending in
    record s {
      runs =
          if fails
          then s.runs
          else update_where (λ r. r.id == read.id) (cancel_row read now) s.runs;
      events = s.events ++ run_event run (if waits then cancelled else run.status) ∷ [];
      commands =
          s.commands
          ++ ((if waits then [] else (read.agent_id, cancel_socket read.id) ∷ [])
              ++ (read.agent_id, cancel_backup read.id) ∷ []);
      audit =
          s.audit
          ++ record {
            organization_id = read.organization_id;
            user_id = user;
            action = lit "BACKUP_CANCELLED";
            resource_id = read.id;
          }
            ∷ [];
    }

unfoldable pub carry_out : Env → Bool → ℕ → ℕ → Run → Verdict → Server → Server × Reply
carry_out env fails user now read (answer r) s = (s, r)
carry_out env fails user now read proceed s = (write env fails user now read s, cancelled_ok)

unfoldable pub cancel : Env → Bool → Option ℕ → ℕ → ℕ → ℕ → Server → Server × Reply
cancel env fails none org user now s = (s, bad_request)
cancel env fails (some id) org user now s =
    elim (first_where (λ r. r.id == id && r.organization_id == org) s.runs) [
      | none ↦ (s, not_found)
      | some read ↦ carry_out env fails user now read (judge read) s
    ]
