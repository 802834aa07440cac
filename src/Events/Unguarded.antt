-- ===== src/Events/Unguarded.antt =====
-- What the missing guards allow.
use db_backup_app.Base.{
  ℕ, ◌≡◌, ◌≢◌, refl, Bool, false, true, some, arith, ◌==◌, first_where, first_where-update_where,
  first_where_sound,
}
use db_backup_app.Agents.{Agent}
use db_backup_app.Alerts.{Faults}
use db_backup_app.Events.{
  handle_event, apply_event, backup_started, Progress, progress_row, report_progress,
}
use db_backup_app.Runs.{Run, RunStatus, running, can_transition, completed}
use db_backup_app.Store.{Server, Env}

-- Whatever agent a run belongs to and whatever its status is, an event of any agent that names it
-- sets its status, and a progress report sets the status that it carries: a completed run of another
-- agent is running again, though the lifecycle has no such edge.
pub handle_event-overwrites :
    (env : Env) (beat_fails : Bool) (f : Faults) (a : Agent) (now alert id : ℕ) (s : Server)
    (r : Run) (p : Progress) (st : RunStatus)
    → first_where (λ (q : Run). q.id == id) s.runs ≡ some r
    → p.run_id ≡ id
    → p.status ≡ some st
    → ((q : Run) × (first_where
            (λ (q : Run). q.id == id)
            (handle_event env beat_fails false f a now alert (backup_started id) s).runs
          ≡ some q)
        × (q.status ≡ running)
        × (q.agent_id ≡ r.agent_id))
      × ((q : Run) × (first_where (λ (q : Run). q.id == id) (report_progress false p now s).runs
            ≡ some q)
          × (q.status ≡ st)
          × (q.agent_id ≡ r.agent_id))
      × (can_transition completed running ≢ true)
unfolding handle_event apply_event report_progress progress_row can_transition
handle_event-overwrites env beat_fails f a now alert id s r p st found names carries = (
  (
    _,
    first_where-update_where (λ q. q.id == id) (λ q. q.id == id) _ s.runs r (λ q. refl) found
        (first_where_sound (λ q. q.id == id) s.runs found),
    refl,
    refl,
  ),
  (
    _,
    first_where-update_where (λ q. q.id == id) (λ q. q.id == p.run_id) (progress_row p now) s.runs r
        (λ q. refl) found (ground (arith, names, first_where_sound (λ q. q.id == id) s.runs found)),
    ground arith,
    refl,
  ),
  cc,
)
