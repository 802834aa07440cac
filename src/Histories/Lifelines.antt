-- ===== src/Histories/Lifelines.antt =====
-- What every history of the server keeps.
use db_backup_app.Base.{ℕ, ◌≡◌, refl, sym, ◌∙◌, subst, ◌||◌, ◌&&◌, not, List, [], ◌∷◌, branch}
use db_backup_app.Agents.{Agent, seen_within, is_online}
use db_backup_app.Cancel.Outcome.{cancel-Evolves}
use db_backup_app.Claims.Exclusive.{claim_run-Evolves, run_now-Evolves}
use db_backup_app.Histories.{
  ◌⟿◌, ◌⟿*◌, claims, runs_now, reports, cancels, ticks, finalizes, checks, start, next,
}
use db_backup_app.Monitor.{
  check_agents, mark_silent, mark_offline, MonitorSettings, load_thresholds, is_recent, PassFaults,
}
use db_backup_app.Monitor.Stale.{check_stale_runs-Reaches}
use db_backup_app.Reports.Guard.{commit-Evolves}
use db_backup_app.Runs.{Run}
use db_backup_app.Runs.Evolution.{Evolves}
use db_backup_app.Runs.History.{
  Reaches, Reaches-refl, Reaches-Evolves, EndedStay, Reaches-EndedStay, Reaches-trans,
}
use db_backup_app.Scheduler.Firing.{tick-Reaches}
use db_backup_app.Store.{Server, Env}

evolved : (rs ts : List Run) → Evolves rs ts → Reaches rs ts
evolved rs ts e = Reaches-Evolves rs rs ts (Reaches-refl rs) e

mark_offline-runs :
    (env : Env) (f : PassFaults) (now id : ℕ) (a : Agent) (s : Server)
    → (mark_offline env f now id a s).runs ≡ s.runs
unfolding mark_offline
mark_offline-runs env f now id a s =
    branch (λ (t : Server). t.runs ≡ s.runs) (not f.count_fails && is_recent env a.id now s.book)
      (λ _. refl) (λ _. refl)

mark_silent-runs :
    (env : Env) (settings : List MonitorSettings) (f : Agent → PassFaults) (now : ℕ)
    (l : List (Agent × ℕ)) (s : Server)
    → (mark_silent env settings f now l s).runs ≡ s.runs
unfolding mark_silent
mark_silent-runs env settings f now [] s = refl
mark_silent-runs env settings f now ((a, id) ∷ rest) s =
    mark_silent-runs env settings f now rest _
    ∙ branch (λ (t : Server). t.runs ≡ s.runs)
        (seen_within (load_thresholds a.organization_id settings).offline_after now a.last_seen_at
          || not (is_online a.status))
        (λ _. refl) (λ _. mark_offline-runs env (f a) now id a s)

step-Reaches : {s t : Server} → s ⟿ t → Reaches s.runs t.runs
unfolding check_agents
step-Reaches {s} (claims fails agent id now) =
    evolved s.runs _ (claim_run-Evolves fails agent id now s)
step-Reaches {s} (runs_now job id now) = evolved s.runs _ (run_now-Evolves job id now s)
step-Reaches {s} (reports env c dir read p) = evolved s.runs _ (commit-Evolves env c dir read p s)
step-Reaches {s} (cancels env fails id org user now one) =
    evolved s.runs _ (cancel-Evolves env fails id org user now s one)
step-Reaches {s} (ticks cron last jobs now) = tick-Reaches cron last jobs now s
step-Reaches {s} (finalizes env f now ids) = check_stale_runs-Reaches env f now ids s
step-Reaches {s} (checks env settings f now ids) =
    subst (λ rs. Reaches s.runs rs) (sym (mark_silent-runs env settings f now _ _))
      (Reaches-refl s.runs)

-- In every history of claims, manual starts, reports whose decision may be outdated, cancellations
-- whose read and write nothing separates, whole ticks and whole monitor passes, each run keeps its
-- identity, its job, its agent and its boundary; its status goes along the lifecycle; the new runs came
-- in pending; and a run that has ended keeps its status for good.
pub history-Reaches : {s t : Server} → s ⟿* t → Reaches s.runs t.runs × EndedStay s.runs t.runs
history-Reaches p = (reach p, Reaches-EndedStay _ _ (reach p))
  where
    reach : {s t : Server} → s ⟿* t → Reaches s.runs t.runs
    reach {s} start = Reaches-refl s.runs
    reach {s} {t} (next {t = u} h e) = Reaches-trans s.runs u.runs t.runs (reach h) (step-Reaches e)
