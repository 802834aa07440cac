-- ===== src/Monitor.antt =====
-- server/internal/services/health_monitor.go: agents that fall silent, and runs whose agent is lost.
--
-- The two passes of checkAgents and checkStaleRuns work on the rows that they read at their start; that
-- the reads of these rows and of the settings succeed is taken for granted. What fails of the work on
-- each of the rows is an argument, and so are rows of settings and new identifiers.
pub mod Windows
pub mod Baselines
pub mod Retention
pub mod Silent
pub mod Stale
use db_backup_app.Base.{
  ℕ, suc, ◌+◌, ◌*◌, ◌<◌, Bool, true, false, ◌&&◌, ◌||◌, not, Option, none, some, List, [], ◌∷◌,
  ◌++◌, ◌==◌, ltb, leb, if◌then◌else◌, ℤ, pos, pos_part, ltb_ℤ, elapsed_seconds, minute, hour, Text,
  lit, keep, count_where, update_where, first_where, any,
}
use db_backup_app.Agents.{Agent, AgentStatus, offline, Roster, is_online, seen_within}
use db_backup_app.Alerts.{
  AlertInput, AlertBook, Faults, no_faults, raise_alert, resolve_alerts, backup_failed,
  agent_offline, has_key,
}
use db_backup_app.Reports.{failed_key}
use db_backup_app.Runs.{
  Run, RunStatus, running, uploading, verifying, failed, cancelled, same_status,
}
use db_backup_app.Store.{Server, Env, StatusEvent}

-- What fails in the work on one row: its UPDATE, a count, the statements of its alert. The monitor asks
-- for none of these errors but that of the UPDATE of a stale run; a count that fails reads as 0.
pub record PassFaults : Type 0 where
  pub update_fails : Bool
  pub count_fails : Bool
  pub alert : Faults

abbrev pub no_pass_faults : PassFaults
no_pass_faults = record { update_fails = false; count_fails = false; alert = no_faults }

-- The monitor's two columns of the notification settings.
pub record MonitorSettings : Type 0 where
  pub organization_id : ℕ
  pub offline_threshold_min : ℤ
  pub missed_window_mult : ℤ

-- orgThresholds
pub record Thresholds : Type 0 where
  pub offline_after : ℕ
  pub missed_mult : ℕ

abbrev pub in_range : ℕ → ℕ → ℤ → Bool
in_range low high n = not (ltb_ℤ n (pos low)) && not (ltb_ℤ (pos high) n)

unfoldable pub load_thresholds : ℕ → List MonitorSettings → Thresholds
load_thresholds org settings =
    elim (first_where (λ (s : MonitorSettings). s.organization_id == org) settings) [
      | none ↦ record { offline_after = 3 * minute; missed_mult = 2 }
      | some s ↦ record {
        offline_after =
            if in_range 1 60 s.offline_threshold_min
            then pos_part s.offline_threshold_min * minute
            else 3 * minute;
        missed_mult =
            if in_range 1 24 s.missed_window_mult then pos_part s.missed_window_mult else 2;
      }
    ]

abbrev pub is_revoked : Agent → Bool
is_revoked a = elim a.revoked_at [ none ↦ false | some t ↦ true ]

-- revoked_at IS NULL AND last_seen_at >= now - 3 min
abbrev pub is_alive : ℕ → Agent → Bool
is_alive now a =
    not (is_revoked a) && (elim a.last_seen_at [ none ↦ false | some t ↦ leb now (t + 3 * minute) ])

unfoldable pub offline_key : Env → ℕ → Text
offline_key env agent = lit "agent-offline:" ++ env.uuid_text agent

unfoldable pub resolve_alive : Env → (Agent → PassFaults) → ℕ → List Agent → AlertBook → AlertBook
resolve_alive env f now [] b = b
resolve_alive env f now (a ∷ rest) b =
    resolve_alive env f now rest
      (resolve_alerts (f a).alert b a.organization_id agent_offline (offline_key env a.id) now).0

unfoldable pub offline_alert : Env → Agent → AlertInput
offline_alert env a = record {
  organization_id = a.organization_id;
  type = agent_offline;
  title = lit "Agent Offline";
  message = lit "Agent " ++ a.name ++ lit " stopped reporting";
  backup_job_id = none;
  agent_id = some a.id;
  dedup_key = offline_key env a.id;
  severity = none;
  email_subject = lit "[VaultGuard] Agent Offline: " ++ a.name;
  email_body =
      lit "Agent "
      ++ a.name
      ++ lit
          " stopped reporting.\n\nScheduled backups for its jobs will be missed until it reconnects.";
}

-- The flap guard: an alert with this key, of any organization, made within the last hour.
abbrev pub is_recent : Env → ℕ → ℕ → AlertBook → Bool
is_recent env agent now b =
    any (λ r. has_key (offline_key env agent) r.dedup_key && ltb now (r.created_at + hour)) b.rows

unfoldable pub mark_offline : Env → PassFaults → ℕ → ℕ → Agent → Server → Server
mark_offline env f now id a s =
    let agents =
      if f.update_fails
      then s.roster.agents
      else update_where (λ b. b.id == a.id) (λ b. record b { status = offline }) s.roster.agents in
    if not f.count_fails && is_recent env a.id now s.book
    then record s { roster = record s.roster { agents = agents } }
    else record s {
      roster = record {
        agents = agents;
        presence = s.roster.presence ++ record a { status = offline } ∷ [];
      };
      book = (raise_alert f.alert s.book (offline_alert env a) id now).0;
    }

-- The second pass, on the rows as they were read, each with the identifier of its alert.
unfoldable pub mark_silent :
    Env → List MonitorSettings → (Agent → PassFaults) → ℕ → List (Agent × ℕ) → Server → Server
mark_silent env settings f now [] s = s
mark_silent env settings f now ((a, id) ∷ rest) s =
    let th = load_thresholds a.organization_id settings in
    mark_silent env settings f now rest (
      if seen_within th.offline_after now a.last_seen_at || not (is_online a.status)
      then s
      else mark_offline env (f a) now id a s)

-- With the identifiers of new alerts, as many as there may be.
abbrev pub pair_up {ℓ} : {A : Type ℓ} → List A → (ℕ → ℕ) → List (A × ℕ)
pair_up [] ids = []
pair_up (a ∷ rest) ids = (a, ids 0) ∷ pair_up rest (λ n. ids (suc n))

abbrev pub was_seen : Agent → Bool
was_seen a = not (is_revoked a) && (elim a.last_seen_at [ none ↦ false | some t ↦ true ])

unfoldable pub check_agents :
    Env → List MonitorSettings → (Agent → PassFaults) → ℕ → (ℕ → ℕ) → Server → Server
check_agents env settings f now ids s =
    mark_silent env settings f now (pair_up (keep was_seen s.roster.agents) ids)
      (record s { book = resolve_alive env f now (keep (is_alive now) s.roster.agents) s.book })

abbrev pub stale_run_after : ℕ
stale_run_after = 15 * minute

abbrev pub agent_gone_after : ℕ
agent_gone_after = 3 * minute

abbrev pub is_active : RunStatus → Bool
is_active running = true
is_active uploading = true
is_active verifying = true
is_active _ = false

abbrev pub is_stale : ℕ → Run → Bool
is_stale now r = is_active r.status && ltb (r.updated_at + stale_run_after) now

-- In whole seconds; 0 for a run that never started.
unfoldable pub run_duration : Option ℕ → ℕ → ℤ
run_duration none now = pos 0
run_duration (some started) now = elapsed_seconds now started

abbrev pub lost_status : Run → RunStatus
lost_status r = if r.cancel_requested then cancelled else failed

abbrev pub lost_message : Run → Text
lost_message r =
    if r.cancel_requested
    then lit "agent stopped reporting after a cancel request; run marked cancelled"
    else lit "agent stopped reporting; run marked failed by health monitor"

unfoldable pub lose_row : Run → ℕ → Run → Run
lose_row read now row = record row {
  status = lost_status read;
  completed_at = some now;
  error_message = lost_message read;
  failure_category = lit "AGENT_OFFLINE";
  duration_seconds = run_duration read.started_at now;
  updated_at = now;
}

unfoldable pub lost_alert : Env → Run → AlertInput
lost_alert env r =
    let run = lost_message r ++ lit " (job run " ++ env.uuid_text r.id ++ lit ")" in
    record {
      organization_id = r.organization_id;
      type = backup_failed;
      title = lit "Backup Failed: agent lost";
      message = run;
      backup_job_id = some r.backup_job_id;
      agent_id = some r.agent_id;
      dedup_key = failed_key env r.id;
      severity = none;
      email_subject = lit "[VaultGuard] Backup Failed: agent lost";
      email_body = run ++ lit ".";
    }

-- WHERE id = ? AND status = ?, as the run was read.
abbrev pub still : Run → Run → Bool
still read row = row.id == read.id && same_status row.status read.status

-- From the UPDATE on: what follows does not ask if a row was changed.
unfoldable pub finalize : Env → PassFaults → ℕ → ℕ → Run → Server → Server
finalize env f now id read s = if f.update_fails then s else record s {
  runs = update_where (still read) (lose_row read now) s.runs;
  book = (raise_alert f.alert s.book (lost_alert env read) id now).0;
  status_events =
      s.status_events
      ++ (record { id = read.id; backup_job_id = read.backup_job_id; status = lost_status read })
        ∷ [];
}

-- One run that was read as stale: spared if its agent is unknown or was seen just now.
unfoldable pub review : Env → PassFaults → ℕ → ℕ → Run → Server → Server
review env f now id read s =
    elim (first_where (λ (a : Agent). a.id == read.agent_id) s.roster.agents) [
      | none ↦ s
      | some a ↦
          if seen_within agent_gone_after now a.last_seen_at
          then s
          else finalize env f now id read s
    ]

unfoldable pub review_all : Env → (Run → PassFaults) → ℕ → List (Run × ℕ) → Server → Server
review_all env f now [] s = s
review_all env f now ((read, id) ∷ rest) s =
    review_all env f now rest (review env (f read) now id read s)

unfoldable pub check_stale_runs : Env → (Run → PassFaults) → ℕ → (ℕ → ℕ) → Server → Server
check_stale_runs env f now ids s = review_all env f now (pair_up (keep (is_stale now) s.runs) ids) s
