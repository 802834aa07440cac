-- ===== src/Scheduler.antt =====
-- server/internal/services/scheduler.go: the tick that fires due jobs and retries failed runs.
--
-- `Cron` is the cron library with the time zone data base. A query whose error the source ignores is
-- taken to succeed; the others have an argument that says if they fail. The gRPC dispatcher is there.
mod Induction
pub mod Firing
pub mod Retries
pub mod Policies
use db_backup_app.Base.{
  ℕ, suc, ◌+◌, ◌*◌, ◌<◌, Bool, true, false, ◌&&◌, ◌||◌, not, Option, none, some, List, [], ◌∷◌,
  ◌++◌, ◌==◌, ltb, leb, if◌then◌else◌, ℤ, pos, ltb_ℤ, pos_part, second, Text, lit, is_empty, any,
  count_where,
}
use db_backup_app.Runs.{Run, RunStatus, failed, same_status, new_run, occupies, inflight}
use db_backup_app.Store.{Server, run_backup}
use db_backup_app.Policy.{Job, ResolvedPolicy, effective_policy}

pub record Cron : Type 0 where
  pub parses : Text → Bool
  pub zone_known : Text → Bool
  -- The next activation after an instant, in a zone; `none` is UTC.
  pub next : Text → Option Text → ℕ → ℕ

-- A zone that is not known falls back to UTC.
unfoldable pub zone_of : Cron → Text → Option Text
zone_of cron timezone =
    if is_empty timezone || not (cron.zone_known timezone) then none else some timezone

-- The instant of the schedule that was crossed between `prev` and `now`.
unfoldable pub boundary_for : Cron → Text → Text → ℕ → ℕ → Option ℕ
boundary_for cron expr timezone prev now =
    let due = cron.next expr (zone_of cron timezone) prev in
    if is_empty expr || not (cron.parses expr) then none else if ltb now due then none else some due

-- idx_backup_runs_job_scheduled, which soft-deleted rows take part in.
abbrev pub is_slot : ℕ → ℕ → Run → Bool
is_slot job at r =
    r.backup_job_id == job && (elim r.scheduled_for [ none ↦ false | some t ↦ t == at ])

unfoldable pub slot_taken : ℕ → ℕ → Server → Bool
slot_taken job at s = any (is_slot job at) s.runs || any (is_slot job at) s.deleted_runs

abbrev pub job_run : Job → ℕ → ℕ → Run
job_run job id now =
    new_run id job.organization_id job.id job.agent_id job.storage_target_id job.source_type now

-- A new run and the command that tells its agent.
unfoldable pub start : Job → Run → Server → Server
start job run s = record s {
  runs = s.runs ++ run ∷ [];
  commands = s.commands ++ (job.agent_id, run_backup run.id job.id) ∷ [];
}

-- fire from its insert on: INSERT … ON CONFLICT DO NOTHING.
unfoldable pub fire_insert : Bool → Job → ℕ → ℕ → ℕ → Server → Server
fire_insert fails job boundary id now s =
    if fails || slot_taken job.id boundary s
    then s
    else start job (record (job_run job id now) { scheduled_for = some boundary }) s

unfoldable pub fire : Bool → Job → ℕ → ℕ → ℕ → Server → Server
fire fails job boundary id now s =
    if inflight job.id s.runs == 0 then fire_insert fails job boundary id now s else s

-- ORDER BY created_at DESC, id: the first of the rows of a job.
abbrev pub newer : Run → Run → Bool
newer r q = ltb q.created_at r.created_at || (r.created_at == q.created_at && ltb r.id q.id)

abbrev pub newest : Run → Option Run → Run
newest r none = r
newest r (some q) = if newer q r then q else r

unfoldable pub latest : ℕ → List Run → Option Run
latest job [] = none
latest job (r ∷ rs) =
    let rest = latest job rs in if r.backup_job_id == job then some (newest r rest) else rest

abbrev pub leb_ℤ : ℤ → ℤ → Bool
leb_ℤ a b = not (ltb_ℤ b a)

-- In seconds; 300 where the policy has no positive delay.
unfoldable pub retry_delay : ResolvedPolicy → ℕ
retry_delay eff =
    if leb_ℤ eff.retry_delay_seconds (pos 0) then 300 else pos_part eff.retry_delay_seconds

-- The failed run has waited long enough, and has attempts left.
unfoldable pub may_retry : ResolvedPolicy → ℕ → Run → Bool
may_retry eff now r =
    same_status r.status failed
    && ltb_ℤ (pos r.retry_attempt) eff.max_retries
    && (elim r.completed_at [ none ↦ false | some t ↦ leb (t + retry_delay eff * second) now ])

-- maybeFire; `fails` says if one of its statements fails, after which it gives up.
unfoldable pub maybe_fire : Bool → Job → ResolvedPolicy → ℕ → ℕ → Server → Server
maybe_fire fails job eff id now s =
    if not eff.enabled || leb_ℤ eff.max_retries (pos 0)
    then s
    else if inflight job.id s.runs == 0
    then (elim (latest job.id s.runs) [
      | none ↦ s
      | some r ↦
          if may_retry eff now r && not fails
          then start job
              (record (job_run job id now) {
                retry_of_run_id = some r.id;
                retry_attempt = suc r.retry_attempt;
              })
              s
          else s
    ])
    else s

-- What the environment decides for one job of a tick: the new identifiers, and what fails.
pub record Draw : Type 0 where
  pub retry_id : ℕ
  pub run_id : ℕ
  pub retry_fails : Bool
  pub fire_fails : Bool

unfoldable pub tick_job : Cron → ℕ → ℕ → Job → Draw → Server → Server
tick_job cron prev now job d s =
    let eff = effective_policy job in
    let retried = maybe_fire d.retry_fails job eff d.retry_id now s in
    if not eff.enabled then s else elim (boundary_for cron eff.cron_expr eff.timezone prev now) [
      | none ↦ retried
      | some boundary ↦ fire d.fire_fails job boundary d.run_id now retried
    ]

unfoldable pub tick_jobs : Cron → ℕ → ℕ → List (Job × Draw) → Server → Server
tick_jobs cron prev now [] s = s
tick_jobs cron prev now ((job, d) ∷ rest) s =
    tick_jobs cron prev now rest (tick_job cron prev now job d s)

-- The scheduler's own state is the time of its last tick. The job list is that of the enabled jobs,
-- or none if the query fails; the tick is then over, with its time recorded.
unfoldable pub tick : Cron → ℕ → Option (List (Job × Draw)) → ℕ → Server → ℕ × Server
tick cron last none now s = (now, s)
tick cron last (some jobs) now s = (now, tick_jobs cron last now jobs s)
