-- ===== src/Runs/Lifecycle.antt =====
-- The lifecycle of a run as a relation, and the test that the handlers make.
use db_backup_app.Base.{ℕ, suc, ◌+◌, ◌≤◌, ◌<◌, ◌≡◌, refl, ◌↔◌, true, false, arith}
use db_backup_app.Runs.{
  RunStatus, pending, running, uploading, verifying, completed, failed, cancelled, can_transition,
  is_inflight,
}

-- One edge of the state machine. An active run fails or is cancelled at every stage; a pending run
-- starts or is cancelled.
infix 40 ◌⟶◌ ◌⟶*◌
pub data ◌⟶◌ : RunStatus → RunStatus → Type 0 where
  claim : pending ⟶ running
  withdraw : pending ⟶ cancelled
  upload : running ⟶ uploading
  verify : uploading ⟶ verifying
  complete : verifying ⟶ completed
  run_fails : running ⟶ failed
  upload_fails : uploading ⟶ failed
  verify_fails : verifying ⟶ failed
  run_stops : running ⟶ cancelled
  upload_stops : uploading ⟶ cancelled
  verify_stops : verifying ⟶ cancelled

pub data ◌⟶*◌ : RunStatus → RunStatus → Type 0 where
  here : {s : RunStatus} → s ⟶* s
  then : {s t u : RunStatus} → s ⟶ t → t ⟶* u → s ⟶* u

pub ruleset edges = (
  claim, withdraw, upload, verify, complete, run_fails, upload_fails, verify_fails, run_stops,
  upload_stops, verify_stops,
)

⟶-can_transition : {s t : RunStatus} → s ⟶ t → can_transition s t ≡ true
unfolding can_transition
⟶-can_transition claim = refl
⟶-can_transition withdraw = refl
⟶-can_transition upload = refl
⟶-can_transition verify = refl
⟶-can_transition complete = refl
⟶-can_transition run_fails = refl
⟶-can_transition upload_fails = refl
⟶-can_transition verify_fails = refl
⟶-can_transition run_stops = refl
⟶-can_transition upload_stops = refl
⟶-can_transition verify_stops = refl

can_transition-⟶ : (s t : RunStatus) → can_transition s t ≡ true → s ⟶ t
unfolding can_transition
can_transition-⟶ pending running h = claim
can_transition-⟶ pending cancelled h = withdraw
can_transition-⟶ running uploading h = upload
can_transition-⟶ running failed h = run_fails
can_transition-⟶ running cancelled h = run_stops
can_transition-⟶ uploading verifying h = verify
can_transition-⟶ uploading failed h = upload_fails
can_transition-⟶ uploading cancelled h = upload_stops
can_transition-⟶ verifying completed h = complete
can_transition-⟶ verifying failed h = verify_fails
can_transition-⟶ verifying cancelled h = verify_stops
can_transition-⟶ _ _ h = absurd (cc)

-- The handlers' test is the state machine: it accepts a pair of statuses exactly when there is an
-- edge between them.
pub can_transition_iff : (s t : RunStatus) → (can_transition s t ≡ true) ↔ (s ⟶ t)
can_transition_iff s t = (can_transition-⟶ s t, ⟶-can_transition)

pub ⟶*-trans : {s t u : RunStatus} → s ⟶* t → t ⟶* u → s ⟶* u
⟶*-trans here q = q
⟶*-trans (then e p) q = then e (⟶*-trans p q)

-- How far a status is along the way.
stage : RunStatus → ℕ
stage pending = 0
stage running = 1
stage uploading = 2
stage verifying = 3
stage completed = 4
stage _ = 4

pub edges_of : {s t : RunStatus} → s ⟶* t → ℕ
edges_of here = 0
edges_of (then e p) = suc (edges_of p)

⟶-stage :
    {s t : RunStatus} → s ⟶ t → (stage s < stage t) × (t ≡ completed → stage t ≡ suc (stage s))
unfolding stage
⟶-stage claim = (omega arith, λ e. refl)
⟶-stage withdraw = (omega arith, λ e. cc)
⟶-stage upload = (omega arith, λ e. refl)
⟶-stage verify = (omega arith, λ e. refl)
⟶-stage complete = (omega arith, λ e. refl)
⟶-stage run_fails = (omega arith, λ e. cc)
⟶-stage upload_fails = (omega arith, λ e. cc)
⟶-stage verify_fails = (omega arith, λ e. cc)
⟶-stage run_stops = (omega arith, λ e. cc)
⟶-stage upload_stops = (omega arith, λ e. cc)
⟶-stage verify_stops = (omega arith, λ e. cc)

-- A run that has ended stays as it is.
pub ⟶*-ended : {s t : RunStatus} → s ⟶* t → is_inflight s ≡ false → t ≡ s
unfolding is_inflight
⟶*-ended here h = refl
⟶*-ended (then claim p) h = cc
⟶*-ended (then withdraw p) h = cc
⟶*-ended (then upload p) h = cc
⟶*-ended (then verify p) h = cc
⟶*-ended (then complete p) h = cc
⟶*-ended (then run_fails p) h = cc
⟶*-ended (then upload_fails p) h = cc
⟶*-ended (then verify_fails p) h = cc
⟶*-ended (then run_stops p) h = cc
⟶*-ended (then upload_stops p) h = cc
⟶*-ended (then verify_stops p) h = cc

stage-le : (s : RunStatus) → stage s ≤ 4
unfolding stage
stage-le pending = omega arith
stage-le running = omega arith
stage-le uploading = omega arith
stage-le verifying = omega arith
stage-le completed = omega arith
stage-le _ = omega arith

path_bounded : {s t : RunStatus} (p : s ⟶* t) → edges_of p + stage s ≤ stage t
unfolding edges_of
path_bounded here = omega arith
path_bounded (then e p) = omega (arith, ⟶-stage e, path_bounded p)

path_completes : {s t : RunStatus} (p : s ⟶* t) → t ≡ completed → edges_of p + stage s ≡ 4
unfolding edges_of stage is_inflight
path_completes here c = ground arith
path_completes {s} (then claim p) c = omega (arith, path_completes p c)
path_completes (then upload p) c = omega (arith, path_completes p c)
path_completes (then verify p) c = omega (arith, path_completes p c)
path_completes (then complete p) c = omega (arith, path_completes p c)
path_completes (then withdraw p) c = absurd (cc (⟶*-ended p refl))
path_completes (then run_fails p) c = absurd (cc (⟶*-ended p refl))
path_completes (then upload_fails p) c = absurd (cc (⟶*-ended p refl))
path_completes (then verify_fails p) c = absurd (cc (⟶*-ended p refl))
path_completes (then run_stops p) c = absurd (cc (⟶*-ended p refl))
path_completes (then upload_stops p) c = absurd (cc (⟶*-ended p refl))
path_completes (then verify_stops p) c = absurd (cc (⟶*-ended p refl))

-- A life has at most four changes of status, and a completed one has passed all of RUNNING,
-- UPLOADING and VERIFYING: it has exactly four. What has ended never changes again.
pub life_bounded :
    {t : RunStatus} (p : pending ⟶* t)
    → (edges_of p ≤ 4)
      × (t ≡ completed → edges_of p ≡ 4)
      × ((u : RunStatus) → t ⟶* u → is_inflight t ≡ false → u ≡ t)
unfolding stage
life_bounded {t} p = (
  omega (arith, path_bounded p, stage-le t),
  λ c. omega (arith, path_completes p c),
  λ u q ended. ⟶*-ended q ended,
)
