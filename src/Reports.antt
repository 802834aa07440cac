-- ===== src/Reports.antt =====
-- server/internal/handlers/backup_run.go, UpdateStatus and classifyFailure: an agent reports on a
-- run that it owns.
--
-- The handler reads the run, decides, and writes under a guard. `decide` is all of it up to the
-- write, and `commit` is the rest, on the tables as they are by then; `update_status` does both. Only
-- the error of the guarded write is answered; a `Call` says which statements fail.
pub mod Guard
pub mod Effects
use db_backup_app.Base.{
  ℕ, Bool, true, false, ◌&&◌, ◌||◌, not, Option, none, some, List, [], ◌∷◌, ◌++◌, ◌==◌,
  if◌then◌else◌, ℤ, pos, ltb_ℤ, elapsed_seconds, Text, lit, text_eq, is_empty, contains,
  update_where, count_where, first_where,
}
use db_backup_app.Alerts.{
  AlertInput, AlertBook, Faults, raise_alert, resolve_alerts, backup_failed, backup_missed,
  storage_low,
}
use mathlib.Core.Option
use db_backup_app.Paths.{is_within}
use db_backup_app.Runs.{
  Run, RunStatus, running, uploading, verifying, completed, failed, same_status, can_transition,
}
use db_backup_app.Store.{
  Server, Env, Artifact, ArtifactStatus, unverified, verified, RunEvent, job_name, find_target,
}

pub record Report : Type 0 where
  pub status : RunStatus
  pub bytes_read : ℤ
  pub bytes_compressed : ℤ
  pub bytes_uploaded : ℤ
  pub error_message : Text
  pub storage_path : Text
  pub checksum : Text
  pub data_key : Text

pub data Reply : Type 0 where
  updated : Reply
  updated_unless : Bool → Reply  -- with the cancel_requested flag
  bad_request not_found conflict server_error : Reply

-- What is left to do after the reads: the wrapped data key goes with a transition.
pub data Decision : Type 0 where
  answer : Reply → Decision
  progress : Decision
  transition : Option Text → Decision

abbrev pub is_active : RunStatus → Bool
is_active running = true
is_active uploading = true
is_active verifying = true
is_active _ = false

abbrev pub has_negative : Report → Bool
has_negative p =
    ltb_ℤ p.bytes_read (pos 0) || ltb_ℤ p.bytes_compressed (pos 0) || ltb_ℤ p.bytes_uploaded (pos 0)

-- The path guard: off without a path in the report or on the target.
unfoldable pub escapes : Text → Option Text → Bool
escapes path none = false
escapes path (some dir) = not (is_empty path) && not (is_empty dir) && not (is_within path dir)

-- `dir` is the path of the run's storage target, if there is that row.
unfoldable pub decide : Env → Option Text → Run → Report → Decision
decide env dir run p =
    if not (can_transition run.status p.status)
    then (if same_status p.status run.status
        then (if is_active run.status then progress else answer updated)
        else answer bad_request)
    else if escapes p.storage_path dir
    then answer bad_request
    else if is_empty p.data_key
    then transition none
    else elim (env.encrypt p.data_key) [
      | none ↦ answer server_error
      | some wrapped ↦ transition (some wrapped)
    ]

-- The columns of a progress report.
unfoldable pub count_bytes : Report → ℕ → Run → Run
count_bytes p now row = record row {
  bytes_read = p.bytes_read;
  bytes_compressed = p.bytes_compressed;
  bytes_uploaded = p.bytes_uploaded;
  updated_at = now;
}

abbrev pub closes : RunStatus → Bool
closes completed = true
closes failed = true
closes _ = false

-- The columns of a transition; `read` is the run as it was read.
unfoldable pub apply_report : Run → Report → Option Text → ℕ → Run → Run
apply_report read p wrapped now row = record row {
  status = p.status;
  bytes_read = p.bytes_read;
  bytes_compressed = p.bytes_compressed;
  bytes_uploaded = p.bytes_uploaded;
  error_message = p.error_message;
  storage_path = p.storage_path;
  checksum = p.checksum;
  completed_at = if closes p.status then some now else row.completed_at;
  duration_seconds =
      if closes p.status
      then (elim read.started_at [ none ↦ row.duration_seconds | some t ↦ elapsed_seconds now t ])
      else row.duration_seconds;
  data_key_encrypted = elim wrapped [ none ↦ row.data_key_encrypted | some w ↦ w ];
  updated_at = now;
}

-- WHERE id = ? AND status = ?, as the run was read.
abbrev pub guarded : Run → Run → Bool
guarded read row = row.id == read.id && same_status row.status read.status

abbrev pub any_of : Text → List Text → Bool
any_of m [] = false
any_of m (w ∷ ws) = contains m w || any_of m ws

-- The category of a free-text error message.
unfoldable pub classify_failure : Env → Text → Text
classify_failure env msg =
    let m = env.lower msg in
    if any_of m (
      lit "authentication"
      ∷ lit "password"
      ∷ lit "permission denied"
      ∷ lit "access denied"
      ∷ lit "invalid credentials"
      ∷ [])
    then lit "AUTH_ERROR"
    else if any_of m (lit "no space left" ∷ lit "disk full" ∷ lit "not enough space" ∷ [])
    then lit "DISK_FULL"
    else if any_of m (
        lit "connection refused"
        ∷ lit "no such host"
        ∷ lit "network"
        ∷ lit "dial tcp"
        ∷ lit "i/o timeout"
        ∷ [])
    then lit "NETWORK_ERROR"
    else if any_of m (lit "s3" ∷ lit "bucket" ∷ lit "storage" ∷ lit "upload" ∷ [])
    then lit "STORAGE_ERROR"
    else if any_of m (lit "timeout" ∷ lit "deadline exceeded" ∷ lit "context deadline" ∷ [])
    then lit "TIMEOUT"
    else if any_of m (lit "encrypt" ∷ lit "decrypt" ∷ lit "data key" ∷ [])
    then lit "ENCRYPTION_ERROR"
    else if any_of m (lit "cancelled" ∷ lit "canceled" ∷ [])
    then lit "CANCELLED"
    else if any_of m (lit "source" ∷ lit "pg_dump" ∷ lit "mongodump" ∷ lit "backup database" ∷ [])
    then lit "SOURCE_ERROR"
    else if any_of m (lit "verification" ∷ lit "checksum" ∷ lit "hash mismatch" ∷ [])
    then lit "VERIFICATION_ERROR"
    else lit "UNKNOWN"

unfoldable pub missed_key : Env → ℕ → Text
missed_key env job = lit "backup-missed:" ++ env.uuid_text job

unfoldable pub failed_key : Env → ℕ → Text
failed_key env run = lit "backup-failed:run:" ++ env.uuid_text run

unfoldable pub storage_low_key : Env → ℕ → Text
storage_low_key env job = lit "storage-low:job:" ++ env.uuid_text job

-- The alert of a failed report, and the one that a full disk adds.
unfoldable pub failure_alert : Env → Run → Report → Text → ℕ → Text → AlertInput
failure_alert env run p job agent agent_name = record {
  organization_id = run.organization_id;
  type = backup_failed;
  title = lit "Backup Failed: " ++ job;
  message = p.error_message;
  backup_job_id = some run.backup_job_id;
  agent_id = some agent;
  dedup_key = failed_key env run.id;
  severity = none;
  email_subject = lit "[VaultGuard] Backup Failed: " ++ job;
  email_body =
      lit "Backup job "
      ++ job
      ++ lit " failed on agent "
      ++ agent_name
      ++ lit ":\n\n"
      ++ p.error_message;
}

unfoldable pub storage_alert : Env → Run → Report → Text → ℕ → AlertInput
storage_alert env run p job agent = record {
  organization_id = run.organization_id;
  type = storage_low;
  title = lit "Storage Low: " ++ job;
  message = lit "Backup failed because storage is full: " ++ p.error_message;
  backup_job_id = some run.backup_job_id;
  agent_id = some agent;
  dedup_key = storage_low_key env run.backup_job_id;
  severity = none;
  email_subject = lit "[VaultGuard] Storage Low: " ++ job;
  email_body =
      lit "A backup for job "
      ++ job
      ++ lit " failed because the storage target is full:\n\n"
      ++ p.error_message;
}

abbrev pub is_unverified : ArtifactStatus → Bool
is_unverified unverified = true
is_unverified _ = false

-- WHERE backup_run_id = ? AND verification_status = 'PENDING'
unfoldable pub verify_artifacts : ℕ → ℕ → List Artifact → List Artifact
verify_artifacts run now artifacts =
    update_where (λ a. a.backup_run_id == run && is_unverified a.verification_status)
      (λ a. record a { verification_status = verified; verified_at = some now }) artifacts

-- The agent of the request; what the handler draws, the time and two new identifiers; and which of its
-- statements fail: the UPDATE of the run, the re-read of its flag, the UPDATE of its artifacts, the one of
-- its category, and those of the two alerts.
pub record Call : Type 0 where
  pub agent : ℕ
  pub agent_name : Text
  pub now : ℕ
  pub alert_id : ℕ
  pub storage_alert_id : ℕ
  pub update_fails : Bool
  pub reread_fails : Bool
  pub artifacts_fail : Bool
  pub category_fails : Bool
  pub alert_faults : Faults
  pub storage_faults : Faults

-- After a COMPLETED report.
unfoldable pub after_completed : Env → Call → Run → Server → Server
after_completed env c run s = record s {
  artifacts = if c.artifacts_fail then s.artifacts else verify_artifacts run.id c.now s.artifacts;
  book =
      (resolve_alerts c.alert_faults s.book run.organization_id backup_missed
        (missed_key env run.backup_job_id) c.now).0;
}

-- After a FAILED report.
unfoldable pub after_failed : Env → Call → Run → Report → Server → Server
after_failed env c run p s =
    let job = job_name run.backup_job_id (env.uuid_text run.backup_job_id) s.job_names in
    let category = classify_failure env p.error_message in
    let book =
      (raise_alert c.alert_faults s.book (failure_alert env run p job c.agent c.agent_name)
        c.alert_id c.now).0 in
    record s {
      runs =
          if c.category_fails
          then s.runs
          else update_where (λ r. r.id == run.id)
              (λ r. record r { failure_category = category; updated_at = c.now }) s.runs;
      book =
          if text_eq category (lit "DISK_FULL")
          then (raise_alert c.storage_faults book (storage_alert env run p job c.agent)
              c.storage_alert_id c.now).0
          else book;
    }

abbrev pub after_status : Env → Call → Run → Report → RunStatus → Server → Server
after_status env c run p completed s = after_completed env c run s
after_status env c run p failed s = after_failed env c run p s
after_status env c run p _ s = s

abbrev pub progress_event : Run → Report → RunEvent
progress_event run p = record {
  run = run;
  status = p.status;
  bytes_read = p.bytes_read;
  bytes_compressed = p.bytes_compressed;
  bytes_uploaded = p.bytes_uploaded;
  checksum = run.checksum;
  error_message = run.error_message;
  storage_path = run.storage_path;
}

abbrev pub report_event : Run → Report → RunEvent
report_event run p = record (progress_event run p) {
  checksum = p.checksum;
  error_message = p.error_message;
  storage_path = p.storage_path;
}

-- The re-read of `cancel_requested`; a row that is gone reads as false.
abbrev pub cancel_flag : ℕ → List Run → Bool
cancel_flag id runs = elim (first_where (λ r. r.id == id) runs) [
  | none ↦ false
  | some r ↦ r.cancel_requested
]

-- From the write on.
unfoldable pub commit : Env → Call → Run → Report → Decision → Server → Server × Reply
commit env c run p (answer reply) s = (s, reply)
commit env c run p progress s = (
  record s {
    runs =
        if c.update_fails
        then s.runs
        else update_where (λ r. r.id == run.id) (count_bytes p c.now) s.runs;
    events = s.events ++ progress_event run p ∷ [];
  },
  updated,
)
commit env c run p (transition wrapped) s =
    if c.update_fails
    then (s, server_error)
    else if count_where (guarded run) s.runs == 0
    then (s, conflict)
    else (let runs = update_where (guarded run) (apply_report run p wrapped c.now) s.runs in
        (
          after_status env c run p p.status
              (record s { runs = runs; events = s.events ++ report_event run p ∷ [] }),
          updated_unless (if c.reread_fails then false else cancel_flag run.id runs),
        ))

abbrev pub owned : ℕ → ℕ → Run → Bool
owned id agent r = r.id == id && r.agent_id == agent

-- The handler without interference: the path parameter and the body may fail to parse.
unfoldable pub update_status : Env → Call → Option ℕ → Option Report → Server → Server × Reply
update_status env c none body s = (s, bad_request)
update_status env c (some id) none s = (s, bad_request)
update_status env c (some id) (some p) s =
    if has_negative p then (s, bad_request) else elim (first_where (owned id c.agent) s.runs) [
      | none ↦ (s, not_found)
      | some run ↦
          commit env c run p
            (decide env (Option.map (λ t. t.path) (find_target run.storage_target_id s.targets)) run
              p)
            s
    ]
