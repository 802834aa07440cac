-- ===== src/Examples/Data.antt =====
-- A small server: one agent, one job, and runs in several statuses.
use db_backup_app.Base.{ℕ, true, false, none, some, List, [], ◌∷◌, pos}
use db_backup_app.Agents.{Agent, online}
use db_backup_app.Alerts.{AlertBook, AlertInput, backup_failed, no_faults}
use db_backup_app.Policy.{Job, Policy, normal}
use db_backup_app.Reports.{Report, Call}
use db_backup_app.Runs.{Run, RunStatus}
use db_backup_app.Store.{Server, Env, Artifact, unverified}

abbrev pub env : Env
env = record {
  uuid_text = λ n. n ∷ [];
  encrypt = λ t. some t;
  lower = λ t. t;
  orm_writes_back = true;
}

abbrev pub agent : Agent
agent = record {
  id = 3;
  organization_id = 1;
  name = [];
  token_hash = some (5 ∷ []);
  token_rotated_at = none;
  status = online;
  version = [];
  last_seen_at = some 100;
  registration_key = none;
  platform = [];
  architecture = [];
  machine_name = [];
  installed_at = none;
  revoked_at = none;
}

abbrev pub policy : Policy
policy = record {
  name = 65 ∷ [];
  strategy = [];
  cron_expr = 42 ∷ [];
  timezone = [];
  enabled = true;
  mode = normal;
  encrypted = false;
  retention_days = pos 30;
  verification_enabled = true;
  max_retries = pos 2;
  retry_delay_seconds = pos 60;
  sla_target_minutes = pos 0;
  rpo_target_minutes = pos 60;
  rto_target_minutes = pos 0;
}

abbrev pub job : Job
job = record {
  id = 4;
  name = 66 ∷ [];
  organization_id = 1;
  agent_id = 3;
  storage_target_id = 5;
  source_type = [];
  enabled = true;
  policy_id = some 6;
  policy = some policy;
  schedule = none;
  mode = normal;
  encrypted = false;
  retention_days = pos 30;
  sla_target_minutes = pos 0;
  rpo_target_minutes = pos 0;
  rto_target_minutes = pos 0;
}

-- A run of the job, by its identifier and status.
abbrev pub run_of : ℕ → RunStatus → Run
run_of id status = record {
  id = id;
  organization_id = 1;
  backup_job_id = 4;
  agent_id = 3;
  storage_target_id = 5;
  status = status;
  scheduled_for = none;
  cancel_requested = false;
  retry_of_run_id = none;
  retry_attempt = 0;
  started_at = none;
  completed_at = none;
  bytes_read = pos 0;
  bytes_compressed = pos 0;
  bytes_uploaded = pos 0;
  duration_seconds = pos 0;
  source_type = [];
  error_message = [];
  failure_category = [];
  storage_path = [];
  checksum = [];
  data_key_encrypted = [];
  created_at = 10;
  updated_at = 10;
}

abbrev pub artifact : Artifact
artifact = record {
  id = 20;
  backup_run_id = 8;
  name = [];
  size = pos 9;
  checksum = [];
  storage_path = [];
  storage_target_id = 5;
  verified_at = none;
  verification_status = unverified;
}

abbrev pub book : AlertBook
book = record { rows = []; sent = [] }

-- The server with these runs.
abbrev pub server_with : List Run → Server
server_with runs = record {
  runs = runs;
  deleted_runs = [];
  roster = record { agents = agent ∷ []; presence = [] };
  artifacts = artifact ∷ [];
  targets = [];
  job_names = [];
  book = book;
  events = [];
  status_events = [];
  commands = [];
  audit = [];
}

abbrev pub call : Call
call = record {
  agent = 3;
  agent_name = [];
  now = 200;
  alert_id = 30;
  storage_alert_id = 31;
  update_fails = false;
  reread_fails = false;
  artifacts_fail = false;
  category_fails = false;
  alert_faults = no_faults;
  storage_faults = no_faults;
}

abbrev pub report_of : RunStatus → Report
report_of status = record {
  status = status;
  bytes_read = pos 1;
  bytes_compressed = pos 1;
  bytes_uploaded = pos 1;
  error_message = [];
  storage_path = [];
  checksum = [];
  data_key = [];
}

abbrev pub incident : AlertInput
incident = record {
  organization_id = 1;
  type = backup_failed;
  title = [];
  message = 77 ∷ [];
  backup_job_id = some 4;
  agent_id = none;
  dedup_key = 75 ∷ [];
  severity = none;
  email_subject = 83 ∷ [];
  email_body = [];
}
