-- ===== src/Scheduler/Retries.antt =====
-- What a retry repeats, how long it waits, and how often it may happen.
use db_backup_app.Base.{
  ℕ, suc, ◌+◌, ◌*◌, ◌≤◌, ◌≡◌, refl, ◌⊎◌, inl, inr, Bool, true, false, ◌&&◌, ◌||◌, not, Option, none,
  some, List, [], ◌∷◌, arith, ◌==◌, All, second, branch, Option-cases, pos, subst, if◌then◌else◌,
}
use db_backup_app.Runs.{Run, failed, inflight}
use db_backup_app.Runs.Evolution.{same_status_sound}
use db_backup_app.Store.{Server}
use db_backup_app.Policy.{Job, ResolvedPolicy}
use db_backup_app.Scheduler.{
  latest, newest, newer, maybe_fire, may_retry, retry_delay, start, leb_ℤ, job_run,
}

-- No run of the job is newer than `r`.
abbrev pub IsLatest : ℕ → Run → List Run → Type 0
IsLatest job r rs =
    (r.backup_job_id ≡ job) × All (λ q. q.backup_job_id ≡ job → q.created_at ≤ r.created_at) rs

-- What `latest` promises of its result.
abbrev pub LatestOf : ℕ → List Run → Option Run → Type 0
LatestOf job rs none = (t : ℕ) → All (λ q. q.backup_job_id ≡ job → q.created_at ≤ t) rs
LatestOf job rs (some r) = IsLatest job r rs

All-older :
    (job : ℕ) (r q : Run) (rs : List Run)
    → r.created_at ≤ q.created_at
    → All (λ p. p.backup_job_id ≡ job → p.created_at ≤ r.created_at) rs
    → All (λ p. p.backup_job_id ≡ job → p.created_at ≤ q.created_at) rs
All-older job r q [] le h = tt
All-older job r q (p ∷ rs) le h = (λ e. omega (arith, h.0 e), All-older job r q rs le h.1)

of_another_job :
    (job : ℕ) (p : Run) (rs : List Run) (o : Option Run)
    → (p.backup_job_id == job) ≡ false
    → LatestOf job rs o
    → LatestOf job (p ∷ rs) o
of_another_job job p rs none ne h = λ t. (λ e. ground arith, h t)
of_another_job job p rs (some r) ne h = (h.0, (λ e. ground arith, h.1))

of_the_job :
    (job : ℕ) (p : Run) (rs : List Run) (o : Option Run)
    → (p.backup_job_id == job) ≡ true
    → LatestOf job rs o
    → IsLatest job (newest p o) (p ∷ rs)
of_the_job job p rs none e h = (ground arith, (λ _. omega arith, h p.created_at))
of_the_job job p rs (some q) e h =
    branch (λ x. IsLatest job x (p ∷ rs)) (newer q p) (λ n. (h.0, (λ _. ground arith, h.1)))
      (λ n. (ground arith, (λ _. omega arith, All-older job q p rs (ground arith) h.1)))

latest-LatestOf : (job : ℕ) (rs : List Run) → LatestOf job rs (latest job rs)
unfolding latest
latest-LatestOf job [] = λ t. tt
latest-LatestOf job (p ∷ rs) =
    branch (LatestOf job (p ∷ rs)) (p.backup_job_id == job)
      (λ e. of_the_job job p rs (latest job rs) e (latest-LatestOf job rs))
      (λ e. of_another_job job p rs (latest job rs) e (latest-LatestOf job rs))

-- The run that a retry makes.
abbrev pub retry_run : Job → ℕ → ℕ → Run → Run
retry_run job id now r = record (job_run job id now) {
  retry_of_run_id = some r.id;
  retry_attempt = suc r.retry_attempt;
}

may_retry-failed :
    (eff : ResolvedPolicy) (now : ℕ) (r : Run) → may_retry eff now r ≡ true → r.status ≡ failed
unfolding may_retry
may_retry-failed eff now r h = same_status_sound r.status failed (ground arith)

may_retry-waits :
    (eff : ResolvedPolicy) (now : ℕ) (r : Run)
    → may_retry eff now r ≡ true
    → (t : ℕ) × (r.completed_at ≡ some t) × (t + retry_delay eff * second ≤ now)
unfolding may_retry
may_retry-waits eff now r h = ground arith

may_retry-within :
    (eff : ResolvedPolicy) (now : ℕ) (r : Run) (limit : ℕ)
    → eff.max_retries ≡ pos limit
    → may_retry eff now r ≡ true
    → suc r.retry_attempt ≤ limit
unfolding may_retry
may_retry-within eff now r limit lim h = ground arith

-- maybe_fire leaves everything as it is, or starts one run: that of the job's latest run, where this
-- one has failed, no run of the job is in flight, the policy's delay has passed since it ended, and
-- the number of the attempt is within the policy's limit.
pub maybe_fire-retries :
    (fails : Bool) (job : Job) (eff : ResolvedPolicy) (id now limit : ℕ) (s : Server)
    → eff.max_retries ≡ pos limit
    → (maybe_fire fails job eff id now s ≡ s)
      ⊎ ((r : Run) × IsLatest job.id r s.runs
          × (r.status ≡ failed)
          × (inflight job.id s.runs ≡ 0)
          × ((t : ℕ) × (r.completed_at ≡ some t) × (t + retry_delay eff * second ≤ now))
          × (suc r.retry_attempt ≤ limit)
          × (maybe_fire fails job eff id now s ≡ start job (retry_run job id now r) s))
unfolding maybe_fire
maybe_fire-retries fails job eff id now limit s lim =
    branch Allowed (not eff.enabled || leb_ℤ eff.max_retries (pos 0)) (λ _. inl refl)
      (λ on.
        branch Allowed (inflight job.id s.runs == 0)
          (λ idle. elim (Option-cases (latest job.id s.runs)) [
            | inl none_found ↦ rw none_found (inl refl)
            | inr (r, found) ↦ rw found (chosen idle r found)
          ])
          (λ _. inl refl))
  where
    Allowed : Server → Type 0
    Allowed t =
        (t ≡ s)
        ⊎ ((r : Run) × IsLatest job.id r s.runs
            × (r.status ≡ failed)
            × (inflight job.id s.runs ≡ 0)
            × ((at : ℕ) × (r.completed_at ≡ some at) × (at + retry_delay eff * second ≤ now))
            × (suc r.retry_attempt ≤ limit)
            × (t ≡ start job (retry_run job id now r) s))

    chosen :
        (inflight job.id s.runs == 0) ≡ true
        → (r : Run) → latest job.id s.runs ≡ some r
        → Allowed
            (if may_retry eff now r && not fails then start job (retry_run job id now r) s else s)
    chosen idle r found =
        branch Allowed (may_retry eff now r && not fails)
          (λ ok. inr (
            r,
            subst (LatestOf job.id s.runs) found (latest-LatestOf job.id s.runs),
            may_retry-failed eff now r (ground arith),
            ground arith,
            may_retry-waits eff now r (ground arith),
            may_retry-within eff now r limit lim (ground arith),
            refl,
          ))
          (λ _. inl refl)
