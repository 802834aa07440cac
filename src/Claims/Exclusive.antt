-- ===== src/Claims/Exclusive.antt =====
-- A run is started by one claim, and a job gets no second run by hand.
use db_backup_app.Base.{
  ℕ, ◌≤◌, ◌≡◌, ◌≢◌, refl, inl, inr, Bool, true, false, ◌&&◌, Option, none, some, List, [], ◌∷◌,
  arith, ◌==◌, branch, Option-cases, update_where, count_where, first_where,
  count_where-update_where-zero, All, length,
}
use db_backup_app.Agents.{Agent}
use db_backup_app.Runs.{Run, RunStatus, pending, same_status, new_run, inflight}
use db_backup_app.Runs.Lifecycle.{
  ◌⟶◌, ◌⟶*◌, here, then, claim, withdraw, upload, verify, complete, run_fails, upload_fails,
  verify_fails, run_stops, upload_stops, verify_stops,
}
use db_backup_app.Runs.Evolution.{
  RowEvolves, Evolves, Evolves-refl, Evolves-update_where, Evolves-insert, same_status_sound,
}
use db_backup_app.Runs.History.{RowReaches, Reaches}
use db_backup_app.Store.{Server}
use db_backup_app.Policy.{Job}
use db_backup_app.Claims.{Reply, claimed, claimable, start_row, claim_after, claim_run, run_now}

⟶-not_pending : {a b : RunStatus} → a ⟶ b → b ≢ pending
⟶-not_pending claim = cc
⟶-not_pending withdraw = cc
⟶-not_pending upload = cc
⟶-not_pending verify = cc
⟶-not_pending complete = cc
⟶-not_pending run_fails = cc
⟶-not_pending upload_fails = cc
⟶-not_pending verify_fails = cc
⟶-not_pending run_stops = cc
⟶-not_pending upload_stops = cc
⟶-not_pending verify_stops = cc

start_row-RowEvolves :
    (id agent now : ℕ) (r : Run) → claimable id agent r ≡ true → RowEvolves r (start_row now r)
unfolding start_row
start_row-RowEvolves id agent now r h = record {
  same_id = refl;
  same_job = refl;
  same_agent = refl;
  same_boundary = refl;
  status_moves = inr (rw (same_status_sound r.status pending (ground arith)) claim);
}

claimed-Evolves :
    (id agent now : ℕ) (rs : List Run)
    → Evolves rs (update_where (claimable id agent) (start_row now) rs)
claimed-Evolves id agent now rs =
    Evolves-update_where (claimable id agent) (start_row now) rs
      (λ r h. start_row-RowEvolves id agent now r h)

abbrev Leaves : List Run → Server × Reply → Type 0
Leaves rs r = Evolves rs r.0.runs

-- A claim moves runs along the lifecycle at most.
pub claim_run-Evolves :
    (fails : Bool) (agent : Agent) (id : Option ℕ) (now : ℕ) (s : Server)
    → Evolves s.runs (claim_run fails agent id now s).0.runs
unfolding claim_run claim_after
claim_run-Evolves fails agent none now s = Evolves-refl s.runs
claim_run-Evolves fails agent (some id) now s =
    branch (Leaves s.runs) fails (λ _. Evolves-refl s.runs)
      (λ _.
        branch (Leaves s.runs) (count_where (claimable id agent.id) s.runs == 0)
          (λ _.
            elim (Option-cases (first_where (λ r. r.id == id && r.agent_id == agent.id) s.runs)) [
              | inl e ↦ rw e (Evolves-refl s.runs)
              | inr (r, e) ↦ rw e (Evolves-refl s.runs)
            ])
          (λ _. elim (Option-cases (first_where (λ r. r.id == id) moved)) [
            | inl e ↦ rw e (claimed-Evolves id agent.id now s.runs)
            | inr (r, e) ↦ rw e (claimed-Evolves id agent.id now s.runs)
          ]))
  where
    moved : List Run
    moved = update_where (claimable id agent.id) (start_row now) s.runs

new_run-pending :
    (id : ℕ) (job : Job) (now : ℕ)
    → (new_run id job.organization_id job.id job.agent_id job.storage_target_id job.source_type
        now).status
      ≡ pending
unfolding new_run
new_run-pending id job now = refl

start_row-claimable : (id agent now : ℕ) (r : Run) → claimable id agent (start_row now r) ≡ false
unfolding start_row same_status
start_row-claimable id agent now r = ground arith

⟶*-pending : {s t : RunStatus} → s ⟶* t → t ≡ pending → s ≡ pending
⟶*-pending here h = h
⟶*-pending (then e k) h = absurd (⟶-not_pending e (⟶*-pending k h))

pending_same : (st : RunStatus) → st ≡ pending → same_status st pending ≡ true
unfolding same_status
pending_same st h = rw h refl

RowReaches-claimable :
    (id agent : ℕ) (r q : Run)
    → RowReaches r q
    → claimable id agent q ≡ true
    → claimable id agent r ≡ true
RowReaches-claimable id agent r q e h =
    ground (arith, e.same_id, e.same_agent, pending_same r.status was_pending)
  where
    was_pending : r.status ≡ pending
    was_pending = ⟶*-pending e.status_reaches (same_status_sound q.status pending (ground arith))

-- RunNow adds at most one pending run.
pub run_now-Evolves :
    (job : Option Job) (id now : ℕ) (s : Server) → Evolves s.runs (run_now job id now s).0.runs
unfolding run_now
run_now-Evolves none id now s = Evolves-refl s.runs
run_now-Evolves (some job) id now s =
    branch (Leaves s.runs) (inflight job.id s.runs == 0)
      (λ _. Evolves-insert s.runs _ (new_run-pending id job now)) (λ _. Evolves-refl s.runs)

-- Without new rows, what is a claimable run after any number of changes was one before.
Reaches-claimable :
    (id agent : ℕ) (rs qs : List Run)
    → length qs ≡ length rs
    → Reaches rs qs
    → count_where (claimable id agent) qs ≤ count_where (claimable id agent) rs
Reaches-claimable id agent [] [] l e = omega arith
Reaches-claimable id agent [] (q ∷ qs) l e = absurd (omega arith)
Reaches-claimable id agent (r ∷ rs) [] l e = absurd e
Reaches-claimable id agent (r ∷ rs) (q ∷ qs) l e = ground (
  arith,
  RowReaches-claimable id agent r q e.0,
  Reaches-claimable id agent rs qs (omega arith) e.1,
)

-- No run is left to claim after a claim that was granted.
claimed-none_left :
    (fails : Bool) (agent id now : ℕ) (s : Server) (run : Run)
    → (claim_after fails agent (some id) now s).1 ≡ claimed run
    → count_where (claimable id agent) (claim_after fails agent (some id) now s).0.runs ≡ 0
unfolding claim_after
claimed-none_left fails agent id now s run =
    branch Spent fails (λ _ e. absurd (cc))
      (λ _.
        branch Spent (count_where (claimable id agent) s.runs == 0)
          (λ _. elim (Option-cases (first_where (λ r. r.id == id && r.agent_id == agent) s.runs)) [
            | inl e ↦ rw e (λ c. absurd (cc))
            | inr (r, e) ↦ rw e (λ c. absurd (cc))
          ])
          (λ _. elim (Option-cases (first_where (λ r. r.id == id) moved)) [
            | inl e ↦ rw e (λ c. spent)
            | inr (r, e) ↦ rw e (λ c. spent)
          ]))
  where
    moved : List Run
    moved = update_where (claimable id agent) (start_row now) s.runs

    Spent : Server × Reply → Type 0
    Spent r = r.1 ≡ claimed run → count_where (claimable id agent) r.0.runs ≡ 0

    spent : count_where (claimable id agent) moved ≡ 0
    spent =
        count_where-update_where-zero (claimable id agent) (claimable id agent) (start_row now)
          s.runs (λ r h. start_row-claimable id agent now r) (every s.runs)
      where
        every :
            (rs : List Run)
            → All (λ r. claimable id agent r ≡ true → claimable id agent r ≡ true) rs
        every [] = tt
        every (r ∷ rs) = (λ h. h, every rs)

refused :
    (fails : Bool) (agent id now : ℕ) (u : Server)
    → count_where (claimable id agent) u.runs ≡ 0
    → ((claim_after fails agent (some id) now u).0 ≡ u)
      × ((run : Run) → (claim_after fails agent (some id) now u).1 ≢ claimed run)
unfolding claim_after
refused fails agent id now u zero = (ground arith, λ run e. ground arith)

-- A claim that is granted is the only one: on every table that is reached from the one it left by any
-- number of changes along the lifecycle, without new rows, a claim of the same run by the same agent changes nothing and is not granted.
pub claim_after-exclusive :
    (agent id now now' : ℕ) (s u : Server) (run : Run) (fails fails' : Bool)
    → let r = claim_after fails agent (some id) now s in
      r.1 ≡ claimed run
      → length u.runs ≡ length r.0.runs
      → Reaches r.0.runs u.runs
      → ((claim_after fails' agent (some id) now' u).0 ≡ u)
        × ((run' : Run) → (claim_after fails' agent (some id) now' u).1 ≢ claimed run')
claim_after-exclusive agent id now now' s u run fails fails' granted same e =
    refused fails' agent id now' u (
      omega (
        arith,
        Reaches-claimable id agent _ u.runs same e,
        claimed-none_left fails agent id now s run granted,
      ))
