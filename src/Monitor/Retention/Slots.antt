-- ===== src/Monitor/Retention/Slots.antt =====
-- Retention forgets no boundary: a deleted run still takes its slot.
use db_backup_app.Base.{
  ℕ, ◌+◌, ◌≡◌, refl, ◌∙◌, Bool, not, List, [], ◌∷◌, arith, ◌==◌, branch, count_where,
  count_where-append, keep, ltb_ℤ, pos,
}
use db_backup_app.Policy.{Job}
use db_backup_app.Runs.{Run}
use db_backup_app.Store.{Server}
use db_backup_app.Scheduler.{is_slot}
use db_backup_app.Scheduler.Firing.{FiresOnce}
use db_backup_app.Monitor.Retention.{delete_run, delete_runs, retain_job, enforce_retention}

-- All rows of the table, deleted or not.
abbrev rows_where : (Run → Bool) → Server → ℕ
rows_where p s = count_where p s.runs + count_where p s.deleted_runs

split-count :
    (p q : Run → Bool) (rs : List Run)
    → count_where p (keep (λ r. not (q r)) rs) + count_where p (keep q rs) ≡ count_where p rs
split-count p q [] = refl
split-count p q (r ∷ rs) = ground (arith, split-count p q rs)

delete_run-rows :
    (p : Run → Bool) (run : Run) (s : Server) → rows_where p (delete_run run s) ≡ rows_where p s
unfolding delete_run
delete_run-rows p run s = omega (
  arith,
  split-count p (λ r. r.id == run.id) s.runs,
  count_where-append p s.deleted_runs (keep (λ r. r.id == run.id) s.runs),
)

delete_runs-rows :
    (p : Run → Bool) (runs : List Run) (s : Server)
    → rows_where p (delete_runs runs s).0 ≡ rows_where p s
unfolding delete_runs
delete_runs-rows p [] s = refl
delete_runs-rows p (run ∷ rest) s =
    delete_runs-rows p rest (delete_run run s) ∙ delete_run-rows p run s

retain_job-rows :
    (p : Run → Bool) (now : ℕ) (job : Job) (s : Server)
    → rows_where p (retain_job now job s).0 ≡ rows_where p s
unfolding retain_job
retain_job-rows p now job s =
    branch (λ (r : Server × _). rows_where p r.0 ≡ rows_where p s)
      (ltb_ℤ (pos 0) job.retention_days) (λ _. delete_runs-rows p _ s) (λ _. refl)

all_rows :
    (p : Run → Bool) (now : ℕ) (jobs : List Job) (s : Server)
    → rows_where p (enforce_retention now jobs s).0 ≡ rows_where p s
unfolding enforce_retention
all_rows p now [] s = refl
all_rows p now (job ∷ rest) s =
    all_rows p now rest (retain_job now job s).0 ∙ retain_job-rows p now job s

-- Retention loses no row of the run table: whatever is counted among live and deleted rows together
-- is the same before and after. So each boundary keeps at most one row.
pub enforce_retention-rows :
    (now : ℕ) (jobs : List Job) (s : Server)
    → ((p : Run → Bool)
        → count_where p (enforce_retention now jobs s).0.runs
            + count_where p (enforce_retention now jobs s).0.deleted_runs
          ≡ count_where p s.runs + count_where p s.deleted_runs)
      × (FiresOnce s → FiresOnce (enforce_retention now jobs s).0)
enforce_retention-rows now jobs s = (
  λ p. all_rows p now jobs s,
  λ h j at. omega (arith, h j at, all_rows (is_slot j at) now jobs s),
)
