-- ===== src/Monitor/Stale.antt =====
-- A lost run is failed or cancelled along its lifecycle; a run that ended in the meantime is spared,
-- but not its organization.
use db_backup_app.Base.{
  ℕ, ◌≡◌, refl, sym, subst, true, false, List, [], ◌∷◌, ◌++◌, arith, ◌==◌, branch, count_where,
  update_where-none, All, keep, Option-cases, first_where, inl, inr, &&_true, some, is_empty, lit,
}
use db_backup_app.Agents.{Agent, seen_within}
use db_backup_app.Alerts.{Alert, fires}
use db_backup_app.Alerts.Coalescing.{raise_alert-fires}
use db_backup_app.Reports.{failed_key}
use db_backup_app.Runs.{
  Run, RunStatus, running, uploading, verifying, failed, cancelled, same_status, can_transition,
}
use db_backup_app.Runs.Lifecycle.{◌⟶◌, can_transition_iff}
use db_backup_app.Runs.Evolution.{
  RowEvolves, Evolves, Evolves-refl, Evolves-update_where, same_status_sound,
}
use db_backup_app.Runs.History.{Reaches, Reaches-refl, Reaches-Evolves}
use db_backup_app.Store.{Server, Env, StatusEvent}
use db_backup_app.Monitor.{
  PassFaults, no_pass_faults, is_stale, is_active, lost_status, lost_alert, lose_row, still,
  finalize, review, review_all, check_stale_runs, pair_up, agent_gone_after,
}

active-ends :
    (s : RunStatus)
    → is_active s ≡ true
    → (can_transition s failed ≡ true) × (can_transition s cancelled ≡ true)
unfolding can_transition same_status
active-ends running h = (refl, refl)
active-ends uploading h = (refl, refl)
active-ends verifying h = (refl, refl)
active-ends _ h = absurd (cc)

lost-edge : (r : Run) → is_active r.status ≡ true → r.status ⟶ lost_status r
lost-edge r h =
    branch (λ t. r.status ⟶ t) r.cancel_requested
      (λ _. (can_transition_iff r.status cancelled).0 (active-ends r.status h).1)
      (λ _. (can_transition_iff r.status failed).0 (active-ends r.status h).0)

lose_row-RowEvolves :
    (read : Run) (now : ℕ) (row : Run)
    → is_active read.status ≡ true
    → still read row ≡ true
    → RowEvolves row (lose_row read now row)
unfolding lose_row
lose_row-RowEvolves read now row h g = record {
  same_id = refl;
  same_job = refl;
  same_agent = refl;
  same_boundary = refl;
  status_moves = inr (
      subst (λ t. t ⟶ lost_status read)
        (sym (same_status_sound row.status read.status (&&_true _ _ g).1)) (lost-edge read h));
}

review-Evolves :
    (env : Env) (f : PassFaults) (now id : ℕ) (read : Run) (s : Server)
    → is_active read.status ≡ true
    → Evolves s.runs (review env f now id read s).runs
unfolding review finalize
review-Evolves env f now id read s h =
    elim (Option-cases (first_where (λ (a : Agent). a.id == read.agent_id) s.roster.agents)) [
      | inl none_found ↦ rw (none_found, review) (Evolves-refl s.runs)
      | inr (a, found) ↦
          rw (found, review)
            (branch Kept (seen_within agent_gone_after now a.last_seen_at)
              (λ _. Evolves-refl s.runs)
              (λ _.
                branch Kept f.update_fails (λ _. Evolves-refl s.runs)
                  (λ _.
                    Evolves-update_where (still read) (lose_row read now) s.runs
                      (λ row g. lose_row-RowEvolves read now row h g))))
    ]
  where
    Kept : Server → Type 0
    Kept t = Evolves s.runs t.runs

review_all-Reaches :
    (env : Env) (f : Run → PassFaults) (now : ℕ) (rs : List Run) (l : List (Run × ℕ)) (s : Server)
    → All (λ p. is_active p.0.status ≡ true) l
    → Reaches rs s.runs
    → Reaches rs (review_all env f now l s).runs
unfolding review_all
review_all-Reaches env f now rs [] s h k = k
review_all-Reaches env f now rs ((r, id) ∷ rest) s h k =
    review_all-Reaches env f now rs rest _ h.1
      (Reaches-Evolves rs s.runs _ k (review-Evolves env (f r) now id r s h.0))

stale-active :
    (now : ℕ) (rs : List Run) (ids : ℕ → ℕ)
    → All (λ p. is_active p.0.status ≡ true) (pair_up (keep (is_stale now) rs) ids)
stale-active now [] ids = tt
stale-active now (r ∷ rs) ids =
    branch (λ l. All (λ p. is_active p.0.status ≡ true) (pair_up l ids)) (is_stale now r)
      (λ h. (ground arith, stale-active now rs _)) (λ _. stale-active now rs ids)

-- The pass over stale runs moves runs along the lifecycle only.
pub check_stale_runs-Reaches :
    (env : Env) (f : Run → PassFaults) (now : ℕ) (ids : ℕ → ℕ) (s : Server)
    → Reaches s.runs (check_stale_runs env f now ids s).runs
unfolding check_stale_runs
check_stale_runs-Reaches env f now ids s =
    review_all-Reaches env f now s.runs _ s (stale-active now s.runs ids) (Reaches-refl s.runs)

-- A row of this run, if any, has left the status in which it was read.
abbrev pub HasLeft : Run → Run → Type 0
HasLeft read row = (row.id == read.id) ≡ true → same_status row.status read.status ≡ false

left-still :
    (read : Run) (rows : List Run) → All (HasLeft read) rows → count_where (still read) rows ≡ 0
left-still read [] h = refl
left-still read (r ∷ rows) h = ground (arith, h.0, left-still read rows h.1)

failed_key-named : (env : Env) (run : ℕ) → is_empty (failed_key env run) ≡ false
unfolding failed_key lit
failed_key-named env run = refl

lost_alert-about :
    (env : Env) (read : Run)
    → ((lost_alert env read).organization_id ≡ read.organization_id)
      × ((lost_alert env read).dedup_key ≡ failed_key env read.id)
unfolding lost_alert
lost_alert-about env read = (refl, refl)

-- If the run has left the status that the monitor read, and no statement fails, no run is changed, but an
-- alert of a failed backup of that run fires, and its loss is published.
pub finalize-late :
    (env : Env) (now id : ℕ) (read : Run) (s : Server)
    → All (HasLeft read) s.runs
    → let t = finalize env no_pass_faults now id read s in
      (t.runs ≡ s.runs)
      × ((a : Alert) × (first_where
              (fires read.organization_id (failed_key env read.id))
              t.book.rows
            ≡ some a))
      × ((e : StatusEvent) × (t.status_events ≡ s.status_events ++ e ∷ [])
          × (e.id ≡ read.id)
          × (e.status ≡ lost_status read))
unfolding finalize
finalize-late env now id read s left = (
  update_where-none (still read) (lose_row read now) s.runs (left-still read s.runs left),
  raise_alert-fires read.organization_id (failed_key env read.id) (failed_key-named env read.id)
      s.book (lost_alert env read) id now (lost_alert-about env read),
  (_, refl, refl, refl),
)
