-- ===== src/Scheduler/Firing.antt =====
-- At most one run for a boundary, at most one run of a job in flight, and the boundaries of a tick.
use db_backup_app.Base.{
  ℕ, ◌+◌, ◌≤◌, ◌<◌, ◌≡◌, refl, Bool, true, false, Option, none, some, List, [], ◌∷◌, ◌++◌, arith,
  any-none, any-append, count_where, count_where-append, Text,
}
use db_backup_app.Runs.{Run, new_run, occupies, inflight}
use db_backup_app.Runs.History.{Reaches, Reaches-refl, Reaches-Evolves}
use db_backup_app.Runs.Evolution.{Evolves-insert}
use db_backup_app.Store.{Server}
use db_backup_app.Policy.{Job}
use db_backup_app.Scheduler.Induction.{MayStart, tick-keeps}
use db_backup_app.Scheduler.{
  Cron, zone_of, boundary_for, is_slot, slot_taken, job_run, start, fire_insert, fire, Draw, tick,
}

-- The boundary that a tick fires lies after the previous tick and not after this one; the next tick
-- of the same schedule fires a later one.
pub boundary_for-between :
    (cron : Cron) (expr zone : Text) (prev now later at : ℕ)
    → ((e : Text) (z : Option Text) (t : ℕ) → t < cron.next e z t)
    → boundary_for cron expr zone prev now ≡ some at
    → (prev < at)
      × (at ≤ now)
      × ((next : ℕ) → boundary_for cron expr zone now later ≡ some next → at < next)
unfolding boundary_for
boundary_for-between cron expr zone prev now later at grows h = (
  ground (arith, grows expr (zone_of cron zone) prev),
  ground arith,
  λ next e. ground (arith, grows expr (zone_of cron zone) now),
)

fire_insert-taken :
    (fails : Bool) (job : Job) (boundary id now : ℕ) (s : Server)
    → slot_taken job.id boundary s ≡ true
    → (fire_insert fails job boundary id now s ≡ s) × (fire fails job boundary id now s ≡ s)
unfolding fire_insert fire
fire_insert-taken fails job boundary id now s taken = (ground arith, ground arith)

slot_taken-fire_insert :
    (job : Job) (boundary id now : ℕ) (s : Server)
    → slot_taken job.id boundary (fire_insert false job boundary id now s) ≡ true
unfolding fire_insert slot_taken start new_run
slot_taken-fire_insert job boundary id now s = ground (
  arith,
  any-append (is_slot job.id boundary) s.runs
      (record (job_run job id now) { scheduled_for = some boundary } ∷ []),
)

-- Once a boundary is fired, firing it again does nothing, whoever does so and when.
pub fire_insert-again :
    (job : Job) (boundary id now id' now' : ℕ) (fails : Bool) (s : Server)
    → let t = fire_insert false job boundary id now s in
      (fire_insert fails job boundary id' now' t ≡ t) × (fire fails job boundary id' now' t ≡ t)
fire_insert-again job boundary id now id' now' fails s =
    fire_insert-taken fails job boundary id' now' _ (slot_taken-fire_insert job boundary id now s)

-- For every job and boundary the index holds at most one row, deleted rows included.
abbrev pub FiresOnce : Server → Type 0
FiresOnce s =
    (job at : ℕ)
    → count_where (is_slot job at) s.runs + count_where (is_slot job at) s.deleted_runs ≤ 1

-- Firing a boundary, also on tables that changed since the guard was read, keeps the index.
pub fire_insert-FiresOnce :
    (fails : Bool) (job : Job) (boundary id now : ℕ) (s : Server)
    → FiresOnce s
    → FiresOnce (fire_insert fails job boundary id now s)
unfolding fire_insert slot_taken start new_run
fire_insert-FiresOnce fails job boundary id now s h j at = ground (
  arith,
  h j at,
  any-none (is_slot job.id boundary) s.runs,
  any-none (is_slot job.id boundary) s.deleted_runs,
  count_where-append (is_slot j at) s.runs
      (record (job_run job id now) { scheduled_for = some boundary } ∷ []),
)

start-FiresOnce :
    (job : Job) (run : Run) (s : Server)
    → MayStart job run s
    → FiresOnce s
    → FiresOnce (start job run s)
unfolding start slot_taken
start-FiresOnce job run s ok h j at = ground (
  arith,
  h j at,
  ok.of_job,
  ok.free at,
  any-none (is_slot job.id at) s.runs,
  any-none (is_slot job.id at) s.deleted_runs,
  count_where-append (is_slot j at) s.runs (run ∷ []),
)

-- A job has at most one run that is pending or under way.
abbrev pub RunsOnce : Server → Type 0
RunsOnce s = (job : ℕ) → inflight job s.runs ≤ 1

start-RunsOnce :
    (job : Job) (run : Run) (s : Server)
    → MayStart job run s
    → RunsOnce s
    → RunsOnce (start job run s)
unfolding start
start-RunsOnce job run s ok h j =
    ground (arith, h j, ok.idle, ok.of_job, count_where-append (occupies j) s.runs (run ∷ []))

-- A whole tick, over all jobs, whatever inserts fail, starts no second run for a job that has one in
-- flight and none for a boundary that has one; it records its own time also if the jobs cannot be
-- listed.
pub tick-once :
    (cron : Cron) (last : ℕ) (jobs : Option (List (Job × Draw))) (now : ℕ) (s : Server)
    → RunsOnce s
    → FiresOnce s
    → RunsOnce (tick cron last jobs now s).1
      × FiresOnce (tick cron last jobs now s).1
      × ((tick cron last jobs now s).0 ≡ now)
unfolding tick
tick-once cron last jobs now s h k = (
  tick-keeps RunsOnce start-RunsOnce cron last jobs now s h,
  tick-keeps FiresOnce start-FiresOnce cron last jobs now s k,
  clock jobs,
)
  where
    clock : (jobs : Option (List (Job × Draw))) → (tick cron last jobs now s).0 ≡ now
    clock none = refl
    clock (some jobs) = refl

-- A tick adds pending runs and changes no other.
pub tick-Reaches :
    (cron : Cron) (last : ℕ) (jobs : Option (List (Job × Draw))) (now : ℕ) (s : Server)
    → Reaches s.runs (tick cron last jobs now s).1.runs
unfolding start
tick-Reaches cron last jobs now s =
    tick-keeps (λ t. Reaches s.runs t.runs) started cron last jobs now s (Reaches-refl s.runs)
  where
    started :
        (job : Job) (run : Run) (t : Server)
        → MayStart job run t
        → Reaches s.runs t.runs
        → Reaches s.runs (start job run t).runs
    started job run t ok h =
        Reaches-Evolves s.runs t.runs (t.runs ++ run ∷ []) h (Evolves-insert t.runs run ok.waits)
