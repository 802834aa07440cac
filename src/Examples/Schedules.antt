-- ===== src/Examples/Schedules.antt =====
-- The scheduler with a schedule that fires every hundred nanoseconds.
use db_backup_app.Base.{
  ℕ, suc, ◌+◌, ◌*◌, ◌≤◌, ◌≡◌, ◌⊎◌, refl, true, false, some, [], ◌∷◌, arith, second,
}
use db_backup_app.Examples.Data.{job, policy, run_of, server_with}
use db_backup_app.Policy.{effective_policy, from_policy, Job}
use db_backup_app.Runs.{Run, failed, inflight}
use db_backup_app.Scheduler.{Cron, Draw, tick, maybe_fire, start, retry_delay}
use db_backup_app.Scheduler.Firing.{FiresOnce, RunsOnce, tick-once}
use db_backup_app.Scheduler.Retries.{IsLatest, maybe_fire-retries, retry_run}
use db_backup_app.Store.{Server}

abbrev cron : Cron
cron = record { parses = λ t. true; zone_known = λ t. true; next = λ e z t. t + 100 }

abbrev draw : Draw
draw = record { retry_id = 40; run_id = 41; retry_fails = false; fire_fails = false }

abbrev idle : Server
idle = server_with []

tick-once_example :
    RunsOnce (tick cron 100 (some ((job, draw) ∷ (job, draw) ∷ [])) 250 idle).1
    × FiresOnce (tick cron 100 (some ((job, draw) ∷ (job, draw) ∷ [])) 250 idle).1
    × ((tick cron 100 (some ((job, draw) ∷ (job, draw) ∷ [])) 250 idle).0 ≡ 250)
tick-once_example =
    tick-once cron 100 (some ((job, draw) ∷ (job, draw) ∷ [])) 250 idle (λ j. omega arith)
      (λ j at. omega arith)

abbrev broken : Run
broken = record (run_of 9 failed) { completed_at = some 300 }

abbrev after_failure : Server
after_failure = server_with (broken ∷ [])

maybe_fire-retries_example :
    (maybe_fire false job (effective_policy job) 40 (100 * second) after_failure ≡ after_failure)
    ⊎ ((r : Run) × IsLatest 4 r after_failure.runs
        × (r.status ≡ failed)
        × (inflight 4 after_failure.runs ≡ 0)
        × ((t : ℕ) × (r.completed_at ≡ some t)
            × (t + retry_delay (effective_policy job) * second ≤ 100 * second))
        × (suc r.retry_attempt ≤ 2)
        × (maybe_fire false job (effective_policy job) 40 (100 * second) after_failure
            ≡ start job (retry_run job 40 (100 * second) r) after_failure))
unfolding effective_policy from_policy
maybe_fire-retries_example =
    maybe_fire-retries false job (effective_policy job) 40 (100 * second) 2 after_failure refl

abbrev paused : Job
paused = record job { policy = some (record policy { enabled = false }) }
