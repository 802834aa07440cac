-- ===== src/Histories.antt =====
-- The server as a whole: the requests and passes that change the table of runs, in any order.
--
-- A step is one of them. `reports` splits a report of server/internal/handlers/backup_run.go
-- (UpdateStatus): its decision may have been made on an older state of the run, so that any other
-- steps may lie between the handler's read and its write. Cancel (`cancels`) writes by the run's
-- identifier alone; here its read and its write are one step, with no other step in between.
pub mod Lifelines
use db_backup_app.Base.{ℕ, ◌≤◌, Bool, Option, some, List, ◌==◌, Text, count_where}
use db_backup_app.Agents.{Agent}
use db_backup_app.Cancel.{cancel}
use db_backup_app.Claims.{claim_run, run_now}
use db_backup_app.Monitor.{check_stale_runs, check_agents, MonitorSettings, PassFaults}
use db_backup_app.Policy.{Job}
use db_backup_app.Reports.{Report, Call, decide, commit}
use db_backup_app.Runs.{Run}
use db_backup_app.Scheduler.{Cron, Draw, tick}
use db_backup_app.Store.{Server, Env}

infix 40 ◌⟿◌ ◌⟿*◌
pub data ◌⟿◌ : Server → Server → Type 0 where
  claims :
      {s : Server} (fails : Bool) (agent : Agent) (id : Option ℕ) (now : ℕ)
      → s ⟿ (claim_run fails agent id now s).0
  runs_now : {s : Server} (job : Option Job) (id now : ℕ) → s ⟿ (run_now job id now s).0
  reports :
      {s : Server} (env : Env) (c : Call) (dir : Option Text) (read : Run) (p : Report)
      → s ⟿ (commit env c read p (decide env dir read p) s).0
  -- Read and write at once. The identifier is the table's primary key.
  cancels :
      {s : Server} (env : Env) (fails : Bool) (id org user now : ℕ)
      → count_where (λ (r : Run). r.id == id) s.runs ≤ 1
      → s ⟿ (cancel env fails (some id) org user now s).0
  ticks :
      {s : Server} (cron : Cron) (last : ℕ) (jobs : Option (List (Job × Draw))) (now : ℕ)
      → s ⟿ (tick cron last jobs now s).1
  finalizes :
      {s : Server} (env : Env) (f : Run → PassFaults) (now : ℕ) (ids : ℕ → ℕ)
      → s ⟿ check_stale_runs env f now ids s
  checks :
      {s : Server} (env : Env) (settings : List MonitorSettings) (f : Agent → PassFaults) (now : ℕ)
      (ids : ℕ → ℕ)
      → s ⟿ check_agents env settings f now ids s

pub data ◌⟿*◌ : Server → Server → Type 0 where
  start : {s : Server} → s ⟿* s
  next : {s t u : Server} → s ⟿* t → t ⟿ u → s ⟿* u
