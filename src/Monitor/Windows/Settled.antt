-- ===== src/Monitor/Windows/Settled.antt =====
-- The alert of a missed backup fires exactly while there is no success within the window.
use db_backup_app.Base.{
  ℕ, ◌≤◌, ◌≡◌, refl, true, false, Option, some, List, arith, Text, lit, is_empty, count_where,
  first_where,
}
use db_backup_app.Alerts.{Alert, backup_missed, resolvable, fires}
use db_backup_app.Alerts.Coalescing.{raise_alert-fires, resolve_alerts-clears}
use db_backup_app.Monitor.{MonitorSettings, no_pass_faults}
use db_backup_app.Monitor.Windows.{check_missed, is_success, is_watched, window_of, missed_alert}
use db_backup_app.Policy.{Job}
use db_backup_app.Reports.{missed_key}
use db_backup_app.Scheduler.{Cron}
use db_backup_app.Store.{Server, Env}

missed_key-named : (env : Env) (job : ℕ) → is_empty (missed_key env job) ≡ false
unfolding missed_key lit
missed_key-named env job = refl

missed_alert-about :
    (env : Env) (job : Job)
    → ((missed_alert env job).organization_id ≡ job.organization_id)
      × ((missed_alert env job).dedup_key ≡ missed_key env job.id)
unfolding missed_alert
missed_alert-about env job = (refl, refl)

-- After the check of a job that is watched, in which no statement fails: without a success within the window an alert with the
-- job's key fires; with one, no missed-backup alert with the key does.
pub check_missed-settles :
    (env : Env) (cron : Cron) (local_zone : Option Text) (settings : List MonitorSettings)
    (now id : ℕ) (job : Job) (s : Server)
    → is_watched job ≡ true
    → let t = check_missed env cron local_zone settings no_pass_faults now id job s in
      let successes =
        count_where (is_success job.id (window_of cron local_zone settings job now) now) s.runs in
      (successes ≡ 0
        → (a : Alert) × (first_where (fires job.organization_id (missed_key env job.id)) t.book.rows
            ≡ some a))
      × (1 ≤ successes
          → count_where
              (resolvable job.organization_id backup_missed (missed_key env job.id))
              t.book.rows
            ≡ 0)
unfolding check_missed
check_missed-settles env cron local_zone settings now id job s watched = (
  λ zero.
      rw (watched, check_missed, zero)
        (raise_alert-fires job.organization_id (missed_key env job.id) (missed_key-named env job.id)
          s.book (missed_alert env job) id now (missed_alert-about env job)),
  λ some_success.
      rw (watched, check_missed)
        (ground (
          arith,
          some_success,
          resolve_alerts-clears s.book job.organization_id backup_missed (missed_key env job.id) now
              (missed_key-named env job.id),
        )),
)
