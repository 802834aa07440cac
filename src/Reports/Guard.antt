-- ===== src/Reports/Guard.antt =====
-- A report moves a run along its lifecycle, also when other requests change the run between the
-- handler's read and its write.
use db_backup_app.Base.{
  ℕ, ◌≡◌, sym, subst, refl, inl, inr, true, Option, none, some, List, arith, ◌==◌, Text, branch,
  Bool-cases, Option-cases, count_where, first_where, &&_true,
}
use db_backup_app.Runs.{Run, RunStatus, can_transition, completed, failed}
use db_backup_app.Runs.Lifecycle.{◌⟶◌, can_transition_iff}
use db_backup_app.Runs.Evolution.{
  Evolves, RowEvolves, Evolves-refl, Evolves-update_where, Evolves-keeping, kept, same_status_sound,
}
use db_backup_app.Store.{Server, Env}
use db_backup_app.Reports.{
  Report, Call, Decision, Reply, answer, progress, transition, decide, commit, guarded,
  apply_report, count_bytes, after_status, after_completed, after_failed, update_status, owned,
  has_negative,
}

-- Whatever a transition is decided for, its statuses are an edge.
decide-edge :
    (env : Env) (dir : Option Text) (run : Run) (p : Report) (wrapped : Option Text)
    → decide env dir run p ≡ transition wrapped
    → can_transition run.status p.status ≡ true
unfolding decide
decide-edge env dir run p wrapped h = ground arith

-- What follows a report leaves every run's status alone.
after_report-Evolves :
    (env : Env) (c : Call) (run : Run) (p : Report) (st : RunStatus) (rs : List Run) (s : Server)
    → Evolves rs s.runs
    → Evolves rs (after_status env c run p st s).runs
unfolding after_completed after_failed
after_report-Evolves env c run p completed rs s e = e
after_report-Evolves env c run p failed rs s e =
    branch (Evolves rs) c.category_fails (λ _. e)
      (λ _.
        Evolves-keeping (λ r. r.id == run.id) _ rs s.runs (λ r _. kept refl refl refl refl refl) e)
after_report-Evolves env c run p _ rs s e = e

guarded-RowEvolves :
    (run : Run) (p : Report) (wrapped : Option Text) (now : ℕ) (row : Run)
    → can_transition run.status p.status ≡ true
    → guarded run row ≡ true
    → RowEvolves row (apply_report run p wrapped now row)
unfolding apply_report
guarded-RowEvolves run p wrapped now row ok g = record {
  same_id = refl;
  same_job = refl;
  same_agent = refl;
  same_boundary = refl;
  status_moves = inr (
      subst (λ t. t ⟶ p.status) (sym (same_status_sound row.status run.status (&&_true _ _ g).1))
        ((can_transition_iff run.status p.status).0 ok));
}

abbrev Leaves : List Run → Server × Reply → Type 0
Leaves rs r = Evolves rs r.0.runs

transition-Evolves :
    (env : Env) (c : Call) (run : Run) (p : Report) (wrapped : Option Text) (s : Server)
    → can_transition run.status p.status ≡ true
    → Evolves s.runs (commit env c run p (transition wrapped) s).0.runs
unfolding commit
transition-Evolves env c run p wrapped s ok =
    branch (Leaves s.runs) c.update_fails (λ _. Evolves-refl s.runs)
      (λ _.
        branch (Leaves s.runs) (count_where (guarded run) s.runs == 0) (λ _. Evolves-refl s.runs)
          (λ _. after_report-Evolves env c run p p.status s.runs _ (
            Evolves-update_where (guarded run) (apply_report run p wrapped c.now) s.runs
              (λ row g. guarded-RowEvolves run p wrapped c.now row ok g))))

decided-Evolves :
    (env : Env) (c : Call) (run : Run) (p : Report) (d : Decision) (s : Server)
    → ((wrapped : Option Text) → d ≡ transition wrapped → can_transition run.status p.status ≡ true)
    → Evolves s.runs (commit env c run p d s).0.runs
unfolding commit count_bytes
decided-Evolves env c run p (answer r) s ok = Evolves-refl s.runs
decided-Evolves env c run p progress s ok =
    branch (Evolves s.runs) c.update_fails (λ _. Evolves-refl s.runs)
      (λ _.
        Evolves-keeping (λ r. r.id == run.id) (count_bytes p c.now) s.runs s.runs
          (λ r _. kept refl refl refl refl refl) (Evolves-refl s.runs))
decided-Evolves env c run p (transition wrapped) s ok =
    transition-Evolves env c run p wrapped s (ok wrapped refl)

-- A report that was decided on an earlier state of the run, `run`, moves the rows of the table as it
-- is now by at most one edge of the lifecycle, whatever happened in between.
pub commit-Evolves :
    (env : Env) (c : Call) (dir : Option Text) (run : Run) (p : Report) (s : Server)
    → Evolves s.runs (commit env c run p (decide env dir run p) s).0.runs
commit-Evolves env c dir run p s =
    decided-Evolves env c run p (decide env dir run p) s (decide-edge env dir run p)

-- So does the whole request.
pub update_status-Evolves :
    (env : Env) (c : Call) (id : Option ℕ) (body : Option Report) (s : Server)
    → Evolves s.runs (update_status env c id body s).0.runs
unfolding update_status
update_status-Evolves env c none body s = Evolves-refl s.runs
update_status-Evolves env c (some id) none s = Evolves-refl s.runs
update_status-Evolves env c (some id) (some p) s = elim (Bool-cases (has_negative p)) [
  | inl bad ↦ rw (bad, update_status) (Evolves-refl s.runs)
  | inr fine ↦ elim (Option-cases (first_where (owned id c.agent) s.runs)) [
    | inl none_found ↦ rw (fine, none_found, update_status) (Evolves-refl s.runs)
    | inr (run, found) ↦ rw (fine, found, update_status) (commit-Evolves env c _ run p s)
  ]
]
