-- ===== src/Monitor/Retention/Cancelled.antt =====
-- What becomes of a run that was cancelled while it waited.
use db_backup_app.Base.{ℕ, ◌≡◌, false, ◌&&◌, none, some, arith, ◌==◌, first_where}
use db_backup_app.Runs.{Run, pending, cancelled}
use db_backup_app.Store.{Server, Env}
use db_backup_app.Cancel.{cancel}
use db_backup_app.Cancel.Outcome.{cancel-row}
use db_backup_app.Monitor.Retention.{is_expired, is_dead}

-- A run that is cancelled while it waits has no time of completion, and so is past no retention,
-- whatever the job, the days and the time.
pub cancel-never_expires :
    (env : Env) (id org user now : ℕ) (s : Server) (read : Run)
    → first_where (λ r. r.id == id && r.organization_id == org) s.runs ≡ some read
    → read.status ≡ pending
    → read.completed_at ≡ none
    → (r : Run) × (first_where
          (λ r. r.id == id && r.organization_id == org)
          (cancel env false (some id) org user now s).0.runs
        ≡ some r)
      × (r.status ≡ cancelled)
      × ((job days later : ℕ)
          → (is_expired job days later r ≡ false) × (is_dead job days later r ≡ false))
cancel-never_expires env id org user now s read found waits open_end =
    let c = cancel-row env id org user now s read found waits in
    (
      c.0,
      c.1,
      c.2,
      λ job days later. (ground (arith, c.3, open_end), ground (arith, c.3, open_end)),
    )
