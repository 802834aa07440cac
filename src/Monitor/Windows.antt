-- ===== src/Monitor/Windows.antt =====
-- server/internal/services/health_monitor.go, missedWindow and checkMissedBackups: jobs without a
-- completed run for too long.
--
-- `local_zone` is the zone of the server, in which the next activations are computed.
pub mod Settled
use db_backup_app.Base.{
  ℕ, ◌+◌, ◌*◌, ◌-◌, ◌/◌, Bool, true, false, ◌&&◌, ◌||◌, not, Option, none, some, List, [], ◌∷◌,
  ◌++◌, ◌==◌, ltb, leb, if◌then◌else◌, ℤ, pos, pos_part, ltb_ℤ, minute, hour, Text, lit, is_empty,
  count_where,
}
use db_backup_app.Alerts.{AlertInput, raise_alert, resolve_alerts, backup_missed}
use db_backup_app.Monitor.{PassFaults, MonitorSettings, load_thresholds}
use db_backup_app.Policy.{Job, ResolvedPolicy, effective_policy}
use db_backup_app.Reports.{missed_key}
use db_backup_app.Runs.{Run, RunStatus, completed, same_status}
use db_backup_app.Scheduler.{Cron}
use db_backup_app.Store.{Server, Env}

unfoldable pub missed_window : Cron → Option Text → Text → ℕ → ℕ → ℕ
missed_window cron local_zone expr multiplier now =
    let n = if ltb multiplier 1 then 2 else multiplier in
    let next1 = cron.next expr local_zone now in
    let next2 = cron.next expr local_zone next1 in
    if not (cron.parses expr) || leb next2 next1 then n * 25 * hour / 2 else n * (next2 - next1)

-- The recovery point objective, or else the window of the schedule.
unfoldable pub window_of : Cron → Option Text → List MonitorSettings → Job → ℕ → ℕ
window_of cron local_zone settings job now =
    let eff = effective_policy job in
    if ltb_ℤ (pos 0) eff.rpo_target_minutes
    then pos_part eff.rpo_target_minutes * minute
    else missed_window cron local_zone eff.cron_expr
        (load_thresholds job.organization_id settings).missed_mult now

-- status = COMPLETED AND completed_at > now - window
abbrev pub is_success : ℕ → ℕ → ℕ → Run → Bool
is_success job window now r =
    r.backup_job_id == job
    && same_status r.status completed
    && (elim r.completed_at [ none ↦ false | some t ↦ ltb now (t + window) ])

unfoldable pub missed_alert : Env → Job → AlertInput
missed_alert env job = record {
  organization_id = job.organization_id;
  type = backup_missed;
  title = lit "Backup Missed";
  message = lit "No successful backup within expected window for job: " ++ job.name;
  backup_job_id = some job.id;
  agent_id = none;
  dedup_key = missed_key env job.id;
  severity = none;
  email_subject = lit "[VaultGuard] Backup Missed: " ++ job.name;
  email_body =
      lit "No successful backup within the expected window for job: "
      ++ job.name
      ++ lit ".\n\nCheck the agent and storage target.";
}

abbrev pub is_watched : Job → Bool
is_watched job = (effective_policy job).enabled && not (is_empty (effective_policy job).cron_expr)

unfoldable pub check_missed :
    Env → Cron → Option Text → List MonitorSettings → PassFaults → ℕ → ℕ → Job → Server → Server
check_missed env cron local_zone settings f now id job s =
    let window = window_of cron local_zone settings job now in
    if not (is_watched job)
    then s
    else if f.count_fails || count_where (is_success job.id window now) s.runs == 0
    then record s { book = (raise_alert f.alert s.book (missed_alert env job) id now).0 }
    else record s {
      book =
          (resolve_alerts f.alert s.book job.organization_id backup_missed (missed_key env job.id)
            now).0;
    }

-- Over the jobs that are enabled, each with what fails in its check and the identifier of its alert.
unfoldable pub check_missed_backups :
    Env
    → Cron
    → Option Text
    → List MonitorSettings
    → ℕ
    → List (Job × PassFaults × ℕ)
    → Server
    → Server
check_missed_backups env cron local_zone settings now [] s = s
check_missed_backups env cron local_zone settings now ((job, f, id) ∷ rest) s =
    check_missed_backups env cron local_zone settings now rest
      (if job.enabled then check_missed env cron local_zone settings f now id job s else s)
