-- ===== src/Reports/Effects.antt =====
-- What a report does on each outcome: a refusal changes nothing, a completed run has no artifact left
-- to verify and no missed-backup alert, a failed one has an alert.
use db_backup_app.Base.{
  ℕ, ◌≤◌, ◌≡◌, refl, inl, inr, Bool, true, false, ◌&&◌, Option, none, some, List, arith, ◌==◌, Text,
  branch, Option-cases, count_where, first_where, is_empty, lit, [], ◌∷◌,
}
use db_backup_app.Alerts.{backup_missed, resolvable, no_faults}
use db_backup_app.Alerts.Coalescing.{resolve_alerts-clears}
use db_backup_app.Runs.{Run, completed}
use db_backup_app.Store.{Server, Env, Artifact}
use db_backup_app.Reports.{
  Report, Call, Decision, Reply, answer, progress, transition, commit, guarded, update_status,
  owned, has_negative, updated, updated_unless, conflict, is_unverified, verify_artifacts,
  after_completed, missed_key, cancel_flag,
}

abbrev pub is_refusal : Reply → Bool
is_refusal updated = false
is_refusal (updated_unless flag) = false
is_refusal _ = true

abbrev Spares : Server → Server × Reply → Type 0
Spares s r = is_refusal r.1 ≡ true → r.0 ≡ s

commit-refusal :
    (env : Env) (c : Call) (run : Run) (p : Report) (d : Decision) (s : Server)
    → Spares s (commit env c run p d s)
unfolding commit
commit-refusal env c run p (answer r) s = λ h. refl
commit-refusal env c run p progress s = λ h. absurd (cc)
commit-refusal env c run p (transition wrapped) s =
    branch (Spares s) c.update_fails (λ _ _. refl)
      (λ _.
        branch (Spares s) (count_where (guarded run) s.runs == 0) (λ _ _. refl)
          (λ _ h. absurd (cc)))

-- A report that is answered with an error, whatever the error, has changed nothing.
pub update_status-refusal :
    (env : Env) (c : Call) (id : Option ℕ) (body : Option Report) (s : Server)
    → is_refusal (update_status env c id body s).1 ≡ true
    → (update_status env c id body s).0 ≡ s
unfolding update_status
update_status-refusal env c none body s = λ h. refl
update_status-refusal env c (some id) none s = λ h. refl
update_status-refusal env c (some id) (some p) s =
    branch (Spares s) (has_negative p) (λ _ _. refl)
      (λ _. elim (Option-cases (first_where (owned id c.agent) s.runs)) [
        | inl none_found ↦ rw none_found (λ _. refl)
        | inr (run, found) ↦ rw found (commit-refusal env c run p _ s)
      ])

-- A transition on a run that left the status in which it was read is a conflict.
pub commit-conflict :
    (env : Env) (c : Call) (run : Run) (p : Report) (wrapped : Option Text) (s : Server)
    → c.update_fails ≡ false
    → count_where (guarded run) s.runs ≡ 0
    → commit env c run p (transition wrapped) s ≡ (s, conflict)
unfolding commit
commit-conflict env c run p wrapped s fine gone = rw (fine, gone) refl

verify_artifacts-all :
    (run now : ℕ) (rows : List Artifact)
    → count_where
        (λ a. a.backup_run_id == run && is_unverified a.verification_status)
        (verify_artifacts run now rows)
      ≡ 0
unfolding verify_artifacts
verify_artifacts-all run now [] = refl
verify_artifacts-all run now (a ∷ rows) = ground (arith, verify_artifacts-all run now rows)

missed_key-is_empty : (env : Env) (job : ℕ) → is_empty (missed_key env job) ≡ false
unfolding missed_key lit
missed_key-is_empty env job = refl

-- A run that is reported COMPLETED and was still in the status in which the handler read it, where no
-- statement on the runs, the artifacts and the alert fails: the agent learns if a cancellation is wanted, no artifact of the run is left unverified, and no
-- missed-backup alert of the job fires.
pub commit-completed :
    (env : Env) (c : Call) (run : Run) (p : Report) (wrapped : Option Text) (s : Server)
    → p.status ≡ completed
    → c.update_fails ≡ false
    → c.reread_fails ≡ false
    → c.artifacts_fail ≡ false
    → c.alert_faults ≡ no_faults
    → 1 ≤ count_where (guarded run) s.runs
    → let r = commit env c run p (transition wrapped) s in
      (r.1 ≡ updated_unless (cancel_flag run.id r.0.runs))
      × (count_where
            (λ a. a.backup_run_id == run.id && is_unverified a.verification_status)
            r.0.artifacts
          ≡ 0)
      × (count_where
            (resolvable run.organization_id backup_missed (missed_key env run.backup_job_id))
            r.0.book.rows
          ≡ 0)
unfolding commit after_completed
commit-completed env c run p wrapped s done fine reread marked alerted there =
    rw (fine, still_there, done, reread, marked, alerted)
      (
        refl,
        verify_artifacts-all run.id c.now s.artifacts,
        (resolve_alerts-clears s.book run.organization_id backup_missed
            (missed_key env run.backup_job_id) c.now (missed_key-is_empty env run.backup_job_id)).0,
      )
  where
    still_there : (count_where (guarded run) s.runs == 0) ≡ false
    still_there = ground arith
