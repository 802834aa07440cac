-- ===== src/Restores.antt =====
-- server/internal/models/restore.go and server/internal/handlers/restore.go, with ClaimRestore of
-- handlers/agent_work.go: restores of completed runs.
--
-- What Create looks up is an argument: the agents and runs, and the connection of the run's job with
-- the agent of its row, if there is that row. Create is split at its insert and UpdateStatus at its
-- write, where other requests may come in.
pub mod Lifecycle
pub mod Duplicates
use db_backup_app.Base.{
  ℕ, ◌+◌, Bool, true, false, ◌&&◌, ◌||◌, not, Option, none, some, List, [], ◌∷◌, ◌++◌, ◌==◌,
  if◌then◌else◌, ℤ, pos, elapsed_seconds, Text, lit, text_eq, is_empty, any, first_where,
  update_where, count_where,
}
use db_backup_app.Agents.{Agent, touch, Roster}
use db_backup_app.Runs.{Run, RunStatus, same_status}
use db_backup_app.Runs

-- A status column or a reported status; `other` is any other string.
pub data RestoreStatus : Type 0 where
  pending running completed failed : RestoreStatus
  other : Text → RestoreStatus

unfoldable pub same_restore_status : RestoreStatus → RestoreStatus → Bool
same_restore_status pending pending = true
same_restore_status running running = true
same_restore_status completed completed = true
same_restore_status failed failed = true
same_restore_status (other s) (other t) = text_eq s t
same_restore_status _ _ = false

unfoldable pub can_restore_transition : RestoreStatus → RestoreStatus → Bool
unfolding same_restore_status
can_restore_transition pending to = same_restore_status to running || same_restore_status to failed
can_restore_transition running to =
    same_restore_status to completed || same_restore_status to failed
can_restore_transition _ to = false

pub record Restore : Type 0 where
  pub id : ℕ
  pub organization_id : ℕ
  pub backup_run_id : ℕ
  pub agent_id : ℕ
  pub connection_id : Option ℕ
  pub status : RestoreStatus
  pub destination_path : Text
  pub target_database : Text
  pub started_at : Option ℕ
  pub completed_at : Option ℕ
  pub duration_seconds : ℤ
  pub error_message : Text

-- The restore table, the published changes, and the restores that agents were told to start.
pub record Desk : Type 0 where
  pub rows : List Restore
  pub notices : List (Text × ℕ)
  pub commands : List (ℕ × ℕ)  -- the agent, and the restore

pub data Reply : Type 0 where
  created live : Restore → Reply
  claimed : Restore → Reply
  updated : Reply
  bad_request not_found conflict server_error : Reply

pub record CreateRequest : Type 0 where
  pub backup_run_id : Option ℕ  -- none if it does not parse
  pub agent_id : Option ℕ
  pub destination_path : Text
  pub target_database : Text
  pub confirmed : Bool

pub data Checked : Type 0 where
  refused : Reply → Checked
  wanted : ℕ → ℕ → Option ℕ → Checked  -- the run, the agent, the connection

-- Of a connection with the agent of its row: the restore must run there.
abbrev pub check_connection : ℕ → ℕ → Option (ℕ × Option ℕ) → Checked
check_connection run agent none = wanted run agent none
check_connection run agent (some (c, none)) = wanted run agent none
check_connection run agent (some (c, some a)) =
    if a == agent then wanted run agent (some c) else refused bad_request

unfoldable pub check_create :
    CreateRequest → ℕ → List Agent → List Run → (Run → Option (ℕ × Option ℕ)) → Checked
check_create req org agents runs connection =
    if not req.confirmed then refused bad_request else elim req.backup_run_id [
      | none ↦ refused bad_request
      | some run ↦ elim req.agent_id [
        | none ↦ refused bad_request
        | some agent ↦ elim (first_where (λ a. a.id == agent && a.organization_id == org) agents) [
          | none ↦ refused not_found
          | some a ↦ elim (first_where (λ r. r.id == run && r.organization_id == org) runs) [
            | none ↦ refused not_found
            | some r ↦
                if not (same_status r.status Runs.completed)
                then refused bad_request
                else check_connection run agent (connection r)
          ]
        ]
      ]
    ]

-- The columns of idx_restores_pending_dedupe.
abbrev pub is_twin : ℕ → ℕ → Text → Text → Restore → Bool
is_twin run agent path db r =
    r.backup_run_id == run
    && r.agent_id == agent
    && text_eq r.destination_path path
    && text_eq r.target_database db
    && same_restore_status r.status pending

abbrev pub new_restore : ℕ → ℕ → CreateRequest → ℕ → ℕ → Option ℕ → Restore
new_restore id org req run agent connection = record {
  id = id;
  organization_id = org;
  backup_run_id = run;
  agent_id = agent;
  connection_id = connection;
  status = pending;
  destination_path = req.destination_path;
  target_database = req.target_database;
  started_at = none;
  completed_at = none;
  duration_seconds = pos 0;
  error_message = [];
}

-- Create from its insert on, which fails for a twin that is pending, or for a reason of its own.
unfoldable pub insert_restore :
    Bool → CreateRequest → ℕ → ℕ → ℕ → ℕ → Option ℕ → Desk → Desk × Reply
insert_restore fails req org id run agent connection d =
    let twin = first_where (is_twin run agent req.destination_path req.target_database) d.rows in
    let job = new_restore id org req run agent connection in
    if fails || any (is_twin run agent req.destination_path req.target_database) d.rows
    then (elim twin [ none ↦ (d, server_error) | some winner ↦ (d, live winner) ])
    else (
      record {
        rows = d.rows ++ job ∷ [];
        notices = d.notices ++ (lit "created", id) ∷ [];
        commands = d.commands ++ (agent, id) ∷ [];
      },
      created job,
    )

unfoldable pub create_wanted : Bool → CreateRequest → ℕ → ℕ → Checked → Desk → Desk × Reply
create_wanted fails req org id (refused r) d = (d, r)
create_wanted fails req org id (wanted run agent connection) d =
    elim (first_where (is_twin run agent req.destination_path req.target_database) d.rows) [
      | some r ↦ (d, live r)
      | none ↦ insert_restore fails req org id run agent connection d
    ]

abbrev pub is_final : RestoreStatus → Bool
is_final completed = true
is_final failed = true
is_final _ = false

pub record RestoreReport : Type 0 where
  pub status : RestoreStatus
  pub error_message : Text

pub data Decision : Type 0 where
  answer : Reply → Decision
  transition : Decision

unfoldable pub decide_restore : Restore → RestoreReport → Decision
decide_restore job p =
    if same_restore_status p.status job.status && is_final job.status
    then answer updated
    else if can_restore_transition job.status p.status
    then transition
    else answer bad_request

abbrev pub is_running : RestoreStatus → Bool
is_running running = true
is_running _ = false

unfoldable pub restore_row : Restore → RestoreReport → ℕ → Restore → Restore
restore_row read p now row = record row {
  status = p.status;
  error_message = if is_empty p.error_message then row.error_message else p.error_message;
  started_at =
      if is_running p.status
      then (elim read.started_at [ none ↦ some now | some t ↦ row.started_at ])
      else row.started_at;
  completed_at = if is_final p.status then some now else row.completed_at;
  duration_seconds =
      if is_final p.status
      then (elim read.started_at [ none ↦ row.duration_seconds | some t ↦ elapsed_seconds now t ])
      else row.duration_seconds;
}

-- WHERE id = ? AND agent_id = ? AND status = ?, as the restore was read.
abbrev pub unchanged : Restore → ℕ → Restore → Bool
unchanged read agent row =
    row.id == read.id && row.agent_id == agent && same_restore_status row.status read.status

-- UpdateStatus from its write on: it does not ask if a row was changed.
unfoldable pub commit_restore : ℕ → Restore → RestoreReport → ℕ → Decision → Desk → Desk × Reply
commit_restore agent read p now (answer r) d = (d, r)
commit_restore agent read p now transition d = (
  record d {
    rows = update_where (unchanged read agent) (restore_row read p now) d.rows;
    notices = d.notices ++ (lit "updated", read.id) ∷ [];
  },
  updated,
)

unfoldable pub update_restore : ℕ → Option ℕ → Option RestoreReport → ℕ → Desk → Desk × Reply
update_restore agent none body now d = (d, bad_request)
update_restore agent (some id) none now d = (d, bad_request)
update_restore agent (some id) (some p) now d =
    elim (first_where (λ r. r.id == id && r.agent_id == agent) d.rows) [
      | none ↦ (d, not_found)
      | some read ↦ commit_restore agent read p now (decide_restore read p) d
    ]

abbrev pub restore_claimable : ℕ → ℕ → Restore → Bool
restore_claimable id agent r =
    r.id == id && r.agent_id == agent && same_restore_status r.status pending

-- ClaimRestore after the heartbeat.
unfoldable pub claim_restore : Bool → ℕ → Option ℕ → ℕ → Desk → Desk × Reply
claim_restore fails agent none now d = (d, bad_request)
claim_restore fails agent (some id) now d =
    let rows =
      update_where (restore_claimable id agent)
        (λ r. record r { status = running; started_at = some now }) d.rows in
    if fails
    then (d, server_error)
    else if count_where (restore_claimable id agent) d.rows == 0
    then (elim (first_where (λ r. r.id == id && r.agent_id == agent) d.rows) [
      | none ↦ (d, not_found)
      | some r ↦ (d, conflict)
    ])
    else (elim (first_where (λ r. r.id == id) rows) [
      | none ↦ (record d { rows = rows }, server_error)
      | some r ↦ (record d { rows = rows }, claimed r)
    ])
