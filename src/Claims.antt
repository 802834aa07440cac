-- ===== src/Claims.antt =====
-- server/internal/handlers/agent_work.go, ClaimRun, and
-- server/internal/handlers/backup_job.go, RunNow: how a run comes to be and who starts it.
pub mod Exclusive
use db_backup_app.Base.{
  ℕ, ◌+◌, Bool, true, false, ◌&&◌, Option, none, some, List, [], ◌∷◌, ◌++◌, ◌==◌, if◌then◌else◌,
  pos, lit, update_where, count_where, first_where, keep,
}
use db_backup_app.Agents.{Agent, touch}
use db_backup_app.Runs.{Run, RunStatus, pending, running, same_status, new_run, inflight}
use db_backup_app.Store.{Server, run_backup, RunEvent}
use db_backup_app.Policy.{Job}

pub data Reply : Type 0 where
  claimed : Run → Reply
  created : Run → Reply
  bad_request not_found conflict server_error : Reply

-- WHERE id = ? AND agent_id = ? AND status = 'PENDING'
abbrev pub claimable : ℕ → ℕ → Run → Bool
claimable id agent r = r.id == id && r.agent_id == agent && same_status r.status pending

unfoldable pub start_row : ℕ → Run → Run
start_row now r = record r { status = running; started_at = some now; updated_at = now }

-- publishRun with no counters and no texts.
abbrev pub bare_event : Run → RunStatus → RunEvent
bare_event run status = record {
  run = run;
  status = status;
  bytes_read = pos 0;
  bytes_compressed = pos 0;
  bytes_uploaded = pos 0;
  checksum = lit "";
  error_message = lit "";
  storage_path = lit "";
}

-- ClaimRun after the heartbeat.
unfoldable pub claim_after : Bool → ℕ → Option ℕ → ℕ → Server → Server × Reply
claim_after fails agent none now s = (s, bad_request)
claim_after fails agent (some id) now s =
    let runs = update_where (claimable id agent) (start_row now) s.runs in
    if fails
    then (s, server_error)
    else if count_where (claimable id agent) s.runs == 0
    then (elim (first_where (λ r. r.id == id && r.agent_id == agent) s.runs) [
      | none ↦ (s, not_found)
      | some run ↦ (s, conflict)
    ])
    else (elim (first_where (λ r. r.id == id) runs) [
      | none ↦ (record s { runs = runs }, server_error)
      | some run ↦
          (record s { runs = runs; events = s.events ++ bare_event run running ∷ [] }, claimed run)
    ])

-- An agent that has proved itself claims a run: its heartbeat is recorded first, also for a request
-- that is refused after that. `fails` says if the UPDATE fails.
unfoldable pub claim_run : Bool → Agent → Option ℕ → ℕ → Server → Server × Reply
claim_run fails agent id now s =
    claim_after fails agent.id id now (record s { roster = touch agent now s.roster })

-- RunNow on the job that its look-up found, or none; `id` is the new run's identifier.
unfoldable pub run_now : Option Job → ℕ → ℕ → Server → Server × Reply
run_now none id now s = (s, not_found)
run_now (some job) id now s =
    let run =
      new_run id job.organization_id job.id job.agent_id job.storage_target_id job.source_type
        now in
    if inflight job.id s.runs == 0
    then (
      record s {
        runs = s.runs ++ run ∷ [];
        events = s.events ++ bare_event run pending ∷ [];
        commands = s.commands ++ (job.agent_id, run_backup id job.id) ∷ [];
      },
      created run,
    )
    else (s, conflict)
