-- ===== src/Scheduler/Induction.antt =====
-- What every start of a run keeps, a whole tick keeps.
use db_backup_app.Base.{
  ℕ, ◌≡◌, refl, Bool, false, ◌&&◌, ◌||◌, not, Option, none, some, List, [], ◌∷◌, arith, ◌==◌,
  branch, Option-cases, inl, inr, pos,
}
use db_backup_app.Runs.{Run, pending, new_run, inflight}
use db_backup_app.Store.{Server}
use db_backup_app.Policy.{Job, ResolvedPolicy, effective_policy}
use db_backup_app.Scheduler.{
  Cron, boundary_for, slot_taken, start, fire_insert, fire, latest, may_retry, maybe_fire, Draw,
  tick_job, tick_jobs, tick, leb_ℤ,
}

-- What the scheduler has made sure of when it starts a run.
pub record MayStart (job : Job) (run : Run) (s : Server) : Type 0 where
  pub waits : run.status ≡ pending
  pub of_job : run.backup_job_id ≡ job.id
  pub idle : inflight job.id s.runs ≡ 0
  pub free : (at : ℕ) → run.scheduled_for ≡ some at → slot_taken job.id at s ≡ false

module _ {ℓ} (P : Server → Type ℓ)
    (keeps : (job : Job) (run : Run) (s : Server)
      → MayStart job run s
      → P s
      → P (start job run s)) where
  fire-keeps :
      (fails : Bool) (job : Job) (boundary id now : ℕ) (s : Server)
      → P s
      → P (fire fails job boundary id now s)
  unfolding fire fire_insert new_run
  fire-keeps fails job boundary id now s h =
      branch P (inflight job.id s.runs == 0)
        (λ idle.
          branch P (fails || slot_taken job.id boundary s) (λ _. h)
            (λ free.
              keeps job _ s
                (record {
                  waits = refl;
                  of_job = refl;
                  idle = ground arith;
                  free = λ at e. ground arith;
                })
                h))
        (λ _. h)

  maybe_fire-keeps :
      (fails : Bool) (job : Job) (eff : ResolvedPolicy) (id now : ℕ) (s : Server)
      → P s
      → P (maybe_fire fails job eff id now s)
  unfolding maybe_fire new_run
  maybe_fire-keeps fails job eff id now s h =
      branch P (not eff.enabled || leb_ℤ eff.max_retries (pos 0)) (λ _. h)
        (λ _.
          branch P (inflight job.id s.runs == 0)
            (λ idle. elim (Option-cases (latest job.id s.runs)) [
              | inl none_found ↦ rw none_found h
              | inr (r, found) ↦ rw found (
                  branch P (may_retry eff now r && not fails)
                    (λ _.
                      keeps job _ s
                        (record {
                          waits = refl;
                          of_job = refl;
                          idle = ground arith;
                          free = λ at e. absurd (cc);
                        })
                        h)
                    (λ _. h))
            ])
            (λ _. h))

  tick_job-keeps :
      (cron : Cron) (prev now : ℕ) (job : Job) (d : Draw) (s : Server)
      → P s
      → P (tick_job cron prev now job d s)
  unfolding tick_job
  tick_job-keeps cron prev now job d s h =
      branch P (not eff.enabled) (λ _. h)
        (λ _. elim (Option-cases (boundary_for cron eff.cron_expr eff.timezone prev now)) [
          | inl quiet ↦ rw quiet retried
          | inr (at, due) ↦ rw due (fire-keeps d.fire_fails job at d.run_id now _ retried)
        ])
    where
      eff : ResolvedPolicy
      eff = effective_policy job

      retried : P (maybe_fire d.retry_fails job eff d.retry_id now s)
      retried = maybe_fire-keeps d.retry_fails job eff d.retry_id now s h

  tick_jobs-keeps :
      (cron : Cron) (prev now : ℕ) (jobs : List (Job × Draw)) (s : Server)
      → P s
      → P (tick_jobs cron prev now jobs s)
  unfolding tick_jobs
  tick_jobs-keeps cron prev now [] s h = h
  tick_jobs-keeps cron prev now ((job, d) ∷ rest) s h =
      tick_jobs-keeps cron prev now rest _ (tick_job-keeps cron prev now job d s h)

  pub tick-keeps :
      (cron : Cron) (last : ℕ) (jobs : Option (List (Job × Draw))) (now : ℕ) (s : Server)
      → P s
      → P (tick cron last jobs now s).1
  unfolding tick
  tick-keeps cron last none now s h = h
  tick-keeps cron last (some jobs) now s h = tick_jobs-keeps cron last now jobs s h
