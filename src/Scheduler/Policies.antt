-- ===== src/Scheduler/Policies.antt =====
-- What a policy decides for the scheduler.
use db_backup_app.Base.{ℕ, ◌≡◌, refl, false, some}
use db_backup_app.Policy.{Job, Policy, effective_policy, from_policy}
use db_backup_app.Scheduler.{Cron, Draw, tick_job}
use db_backup_app.Store.{Server}

-- A job whose policy is disabled is not run, and no failed run of it is repeated, whatever its own
-- switch says and whatever schedule it has.
pub tick_job-disabled :
    (cron : Cron) (prev now : ℕ) (job : Job) (d : Draw) (s : Server) (p : Policy) (id : ℕ)
    → job.policy ≡ some p
    → job.policy_id ≡ some id
    → p.enabled ≡ false
    → tick_job cron prev now job d s ≡ s
unfolding tick_job effective_policy from_policy
tick_job-disabled cron prev now job d s p id loaded refers off = rw (loaded, refers, off) refl
