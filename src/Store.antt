-- ===== src/Store.antt =====
-- What the handlers of backup runs share: the tables of server/internal/models that they touch, what
-- they publish (server/internal/handlers/helpers.go, publishRun), and what the model takes as given.
use db_backup_app.Base.{
  ℕ, Bool, true, false, Option, List, [], ◌∷◌, Text, ℤ, ◌==◌, first_where, if◌then◌else◌,
}
use db_backup_app.Agents.{Roster}
use db_backup_app.Alerts.{AlertBook}
use db_backup_app.Runs.{Run, RunStatus}

pub data ArtifactStatus : Type 0 where
  unverified verified verify_fail : ArtifactStatus

-- server/internal/models/backup_run.go, BackupArtifact.
pub record Artifact : Type 0 where
  pub id : ℕ
  pub backup_run_id : ℕ
  pub name : Text
  pub size : ℤ
  pub checksum : Text
  pub storage_path : Text
  pub storage_target_id : ℕ
  pub verified_at : Option ℕ
  pub verification_status : ArtifactStatus

pub data StorageType : Type 0 where
  s3 local smb : StorageType

abbrev pub is_local : StorageType → Bool
is_local local = true
is_local _ = false

-- server/internal/models/storage.go, StorageTarget, without its credentials.
pub record StorageTarget : Type 0 where
  pub id : ℕ
  pub type : StorageType
  pub path : Text

-- The payload of publishRun: the run as it was read, and what it is reported to be now.
pub record RunEvent : Type 0 where
  pub run : Run
  pub status : RunStatus
  pub bytes_read : ℤ
  pub bytes_compressed : ℤ
  pub bytes_uploaded : ℤ
  pub checksum : Text
  pub error_message : Text
  pub storage_path : Text

-- The shorter payload of the health monitor: the run, its job and its new status.
pub record StatusEvent : Type 0 where
  pub id : ℕ
  pub backup_job_id : ℕ
  pub status : RunStatus

-- A command for an agent, over gRPC or over its socket.
pub data Command : Type 0 where
  run_backup : ℕ → ℕ → Command
  cancel_backup : ℕ → Command
  cancel_socket : ℕ → Command

pub record AuditEntry : Type 0 where
  pub organization_id : ℕ
  pub user_id : ℕ
  pub action : Text
  pub resource_id : ℕ

-- `deleted_runs` are the rows of the run table that are soft-deleted: only its unique index sees
-- them.
pub record Server : Type 0 where
  pub runs : List Run
  pub deleted_runs : List Run
  pub roster : Roster
  pub artifacts : List Artifact
  pub targets : List StorageTarget
  pub job_names : List (ℕ × Text)
  pub book : AlertBook
  pub events : List RunEvent
  pub status_events : List StatusEvent
  pub commands : List (ℕ × Command)  -- the agent, and what it is sent
  pub audit : List AuditEntry

-- What the handlers rely on: the text of a UUID, envelope encryption under the server's key (with
-- its nonce), `strings.ToLower`, and if the ORM's `Updates` also sets the fields of the struct that
-- it is called on.
pub record Env : Type 0 where
  pub uuid_text : ℕ → Text
  pub encrypt : Text → Option Text
  pub lower : Text → Text
  pub orm_writes_back : Bool

abbrev pub job_name : ℕ → Text → List (ℕ × Text) → Text
job_name job default [] = default
job_name job default ((id, name) ∷ rest) =
    let tail = job_name job default rest in if id == job then name else tail

abbrev pub find_target : ℕ → List StorageTarget → Option StorageTarget
find_target id targets = first_where (λ t. t.id == id) targets
