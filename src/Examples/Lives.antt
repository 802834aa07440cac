-- ===== src/Examples/Lives.antt =====
-- Runs: claimed, reported on, cancelled.
use db_backup_app.Base.{
  ℕ, ◌≡◌, ◌≢◌, refl, false, none, some, [], ◌∷◌, ◌++◌, arith, ◌==◌, count_where, first_where, ◌&&◌,
}
use db_backup_app.Alerts.{backup_missed, resolvable}
use db_backup_app.Cancel.{cancel, cancelled_ok}
use db_backup_app.Cancel.Outcome.{cancel-settles}
use db_backup_app.Claims.{claim_after, claim_run, claimed, start_row}
use db_backup_app.Claims.Exclusive.{claim_after-exclusive}
use db_backup_app.Examples.Data.{env, agent, run_of, server_with, call, report_of}
use db_backup_app.Histories.{start, next, claims, reports}
use db_backup_app.Histories.Lifelines.{history-Reaches}
use db_backup_app.Monitor.Retention.{is_expired, is_dead}
use db_backup_app.Monitor.Retention.Cancelled.{cancel-never_expires}
use db_backup_app.Reports.{
  Reply, update_status, commit, decide, transition, updated_unless, cancel_flag, missed_key,
  is_unverified,
}
use db_backup_app.Reports.Effects.{update_status-refusal, commit-completed}
use db_backup_app.Reports.Guard.{commit-Evolves}
use db_backup_app.Runs.{
  Run, pending, running, uploading, verifying, completed, cancelled, can_transition, same_status,
}
use db_backup_app.Runs.Evolution.{Evolves}
use db_backup_app.Runs.Lifecycle.{upload, verify, here, then}
use db_backup_app.Runs.History.{Reaches, EndedStay}
use db_backup_app.Store.{Server, RunEvent}

abbrev waiting : Server
waiting = server_with (run_of 7 pending ∷ [])

abbrev claimed_by : Server
claimed_by = (claim_run false agent (some 7) 200 waiting).0

abbrev uploading_now : Server
uploading_now =
    (commit env call (run_of 7 running) (report_of uploading)
      (decide env none (run_of 7 running) (report_of uploading)) claimed_by).0

history-Reaches_example :
    Reaches waiting.runs uploading_now.runs × EndedStay waiting.runs uploading_now.runs
history-Reaches_example = history-Reaches {s = waiting} (
    next (next start (claims false agent (some 7) 200))
      (reports env call none (run_of 7 running) (report_of uploading)))

commit-Evolves_example :
    Evolves
      (run_of 8 cancelled ∷ [])
      (commit env call
        (run_of 8 verifying)
        (report_of completed)
        (decide env none (run_of 8 verifying) (report_of completed))
        (server_with (run_of 8 cancelled ∷ []))).0.runs
commit-Evolves_example =
    commit-Evolves env call none (run_of 8 verifying) (report_of completed)
      (server_with (run_of 8 cancelled ∷ []))

-- The run that was claimed, two edges further.
abbrev verified_later : Server
verified_later = server_with (record (start_row 200 (run_of 7 pending)) { status = verifying } ∷ [])

claim_after-exclusive_example :
    ((claim_after false 3 (some 7) 300 verified_later).0 ≡ verified_later)
    × ((run : Run) → (claim_after false 3 (some 7) 300 verified_later).1 ≢ claimed run)
unfolding claim_after same_status start_row
claim_after-exclusive_example =
    claim_after-exclusive 3 7 200 300 waiting verified_later (start_row 200 (run_of 7 pending))
      false false refl refl
      (
        record {
          same_id = refl;
          same_job = refl;
          same_agent = refl;
          same_boundary = refl;
          status_reaches = then upload (then verify here);
        },
        tt,
      )

update_status-refusal_example :
    (update_status env call
      (some 8)
      (some (report_of running))
      (server_with (run_of 8 verifying ∷ []))).0
    ≡ server_with (run_of 8 verifying ∷ [])
unfolding update_status commit decide can_transition same_status
update_status-refusal_example =
    update_status-refusal env call (some 8) (some (report_of running))
      (server_with (run_of 8 verifying ∷ [])) refl

abbrev sealed : Server × Reply
sealed =
    commit env call (run_of 8 verifying) (report_of completed) (transition none)
      (server_with (run_of 8 verifying ∷ []))

commit-completed_example :
    (sealed.1 ≡ updated_unless (cancel_flag 8 sealed.0.runs))
    × (count_where
          (λ a. a.backup_run_id == 8 && is_unverified a.verification_status)
          sealed.0.artifacts
        ≡ 0)
    × (count_where (resolvable 1 backup_missed (missed_key env 4)) sealed.0.book.rows ≡ 0)
unfolding same_status
commit-completed_example =
    commit-completed env call (run_of 8 verifying) (report_of completed) none
      (server_with (run_of 8 verifying ∷ [])) refl refl refl refl refl (omega arith)

abbrev stopped : Server
stopped = (cancel env false (some 7) 1 2 200 waiting).0

cancel-settles_example :
    ((cancel env false (some 7) 1 2 200 waiting).1 ≡ cancelled_ok)
    × ((r : Run) × (first_where (λ r. r.id == 7 && r.organization_id == 1) stopped.runs ≡ some r)
        × (r.status ≡ cancelled))
    × ((e : RunEvent) × (stopped.events ≡ [] ++ e ∷ []) × (e.status ≡ cancelled) × (e.run.id ≡ 7))
    × (cancel env false (some 7) 1 2 300 stopped ≡ (stopped, cancelled_ok))
cancel-settles_example = cancel-settles env 7 1 2 200 300 waiting (run_of 7 pending) refl refl

cancel-never_expires_example :
    (r : Run) × (first_where (λ r. r.id == 7 && r.organization_id == 1) stopped.runs ≡ some r)
    × (r.status ≡ cancelled)
    × ((job days later : ℕ)
        → (is_expired job days later r ≡ false) × (is_dead job days later r ≡ false))
cancel-never_expires_example =
    cancel-never_expires env 7 1 2 200 waiting (run_of 7 pending) refl refl refl
