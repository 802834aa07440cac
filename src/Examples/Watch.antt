-- ===== src/Examples/Watch.antt =====
-- The health monitor.
use db_backup_app.Base.{
  ◌+◌, ◌*◌, ◌≤◌, ◌≡◌, refl, true, false, none, some, List, [], ◌∷◌, ◌++◌, All, pos, minute,
  count_where, first_where, ◌==◌,
}
use db_backup_app.Agents.{Agent}
use db_backup_app.Alerts.{Alert, fires, resolvable, backup_missed}
use db_backup_app.Examples.Data.{env, agent, job, run_of, server_with}
use db_backup_app.Monitor.{
  MonitorSettings, PassFaults, no_pass_faults, check_agents, was_seen, finalize, lost_status,
}
use db_backup_app.Monitor.Silent.{is_up, spares, check_agents-silent}
use db_backup_app.Monitor.Stale.{finalize-late}
use db_backup_app.Monitor.Windows.{check_missed, is_success, window_of}
use db_backup_app.Monitor.Windows.Settled.{check_missed-settles}
use db_backup_app.Policy.{effective_policy, from_policy, policy_schedule}
use db_backup_app.Reports.{missed_key, failed_key}
use db_backup_app.Runs.{running, completed, same_status}
use db_backup_app.Scheduler.{Cron}
use db_backup_app.Store.{Server, StatusEvent}

abbrev strict : List MonitorSettings
strict =
    record { organization_id = 1; offline_threshold_min = pos 1; missed_window_mult = pos 99 } ∷ []

abbrev at_work : Server
at_work = server_with (run_of 8 running ∷ [])

-- The UPDATE of another agent's row fails.
abbrev one_failing : Agent → PassFaults
one_failing a = record no_pass_faults { update_fails = a.id == 99 }

check_agents-silent_example :
    All
      (λ a.
        was_seen a ≡ true
        → spares strict (2 * minute) a ≡ false
        → (one_failing a).update_fails ≡ false
        → count_where
            (is_up a.id)
            (check_agents env strict one_failing (2 * minute) (λ n. n) at_work).roster.agents
          ≡ 0)
      (agent ∷ [])
check_agents-silent_example =
    check_agents-silent env strict one_failing (2 * minute) (λ n. n) at_work

abbrev finished : Server
finished = server_with (run_of 8 completed ∷ [])

finalize-late_example :
    ((finalize env no_pass_faults 900 50 (run_of 8 running) finished).runs ≡ finished.runs)
    × ((a : Alert) × (first_where
            (fires 1 (failed_key env 8))
            (finalize env no_pass_faults 900 50 (run_of 8 running) finished).book.rows
          ≡ some a))
    × ((e : StatusEvent) × ((finalize env no_pass_faults 900 50
            (run_of 8 running)
            finished).status_events
          ≡ [] ++ e ∷ [])
        × (e.id ≡ 8)
        × (e.status ≡ lost_status (run_of 8 running)))
unfolding same_status
finalize-late_example = finalize-late env 900 50 (run_of 8 running) finished ((λ _. refl), tt)

abbrev hourly : Cron
hourly = record { parses = λ t. true; zone_known = λ t. true; next = λ e z t. t + 60 * minute }

check_missed-settles_example :
    let t = check_missed env hourly none strict no_pass_faults 900 50 job at_work in
    let successes =
      count_where (is_success 4 (window_of hourly none strict job 900) 900) at_work.runs in
    (successes ≡ 0 → (a : Alert) × (first_where (fires 1 (missed_key env 4)) t.book.rows ≡ some a))
    × (1 ≤ successes → count_where (resolvable 1 backup_missed (missed_key env 4)) t.book.rows ≡ 0)
unfolding effective_policy from_policy policy_schedule
check_missed-settles_example = check_missed-settles env hourly none strict 900 50 job at_work refl
