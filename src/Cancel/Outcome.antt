-- ===== src/Cancel/Outcome.antt =====
-- What cancelling does to the run, and that a second request finds it done.
use db_backup_app.Base.{
  ℕ, ◌≤◌, ◌≡◌, refl, sym, subst, ◌⊎◌, inl, inr, Bool, true, ◌&&◌, some, [], ◌∷◌, ◌++◌, arith, ◌==◌,
  branch, Option-cases, count_where, first_where, first_where-update_where, first_where_sound,
  update_where, false,
}
use db_backup_app.Runs.{Run, pending, cancelled, same_status, can_transition}
use db_backup_app.Runs.Lifecycle.{◌⟶◌, can_transition_iff}
use db_backup_app.Runs.Evolution.{RowEvolves, Evolves, Evolves-refl, Evolves-update_found}
use db_backup_app.Store.{Server, Env, RunEvent}
use db_backup_app.Cancel.{
  Reply, cancelled_ok, judge, cancel_row, struct_after, write, carry_out, cancel,
}

abbrev owns : ℕ → ℕ → Run → Bool
owns id org r = r.id == id && r.organization_id == org

cancel_row-RowEvolves :
    (read : Run) (now : ℕ)
    → can_transition read.status cancelled ≡ true
    → RowEvolves read (cancel_row read now read)
unfolding cancel_row
cancel_row-RowEvolves read now ok = record {
  same_id = refl;
  same_job = refl;
  same_agent = refl;
  same_boundary = refl;
  status_moves =
      branch (λ s. (s ≡ read.status) ⊎ (read.status ⟶ s)) (same_status read.status pending)
        (λ _. inr ((can_transition_iff read.status cancelled).0 ok)) (λ _. inl refl);
}

-- The request moves the run along its lifecycle at most, where identifiers are unique.
pub cancel-Evolves :
    (env : Env) (fails : Bool) (id org user now : ℕ) (s : Server)
    → count_where (λ r. r.id == id) s.runs ≤ 1
    → Evolves s.runs (cancel env fails (some id) org user now s).0.runs
unfolding cancel judge write carry_out
cancel-Evolves env fails id org user now s one =
    elim (Option-cases (first_where (owns id org) s.runs)) [
      | inl none_found ↦ rw (none_found, cancel) (Evolves-refl s.runs)
      | inr (read, found) ↦ rw (found, cancel) (judged read found)
    ]
  where
    Leaves : Server × Reply → Type 0
    Leaves r = Evolves s.runs r.0.runs

    found_id : (read : Run) → first_where (owns id org) s.runs ≡ some read → read.id ≡ id
    found_id read found = ground (arith, first_where_sound (owns id org) s.runs found)

    written :
        (read : Run)
        → first_where (owns id org) s.runs ≡ some read
        → can_transition read.status cancelled ≡ true
        → Evolves s.runs (update_where (λ r. r.id == read.id) (cancel_row read now) s.runs)
    written read found ok =
        Evolves-update_found read.id (owns id org) (cancel_row read now) s.runs read
          (λ r h. ground (arith, first_where_sound (owns id org) s.runs found))
          (subst (λ i. count_where (λ r. r.id == i) s.runs ≤ 1) (sym (found_id read found)) one)
          found (cancel_row-RowEvolves read now ok)

    judged :
        (read : Run)
        → first_where (owns id org) s.runs ≡ some read
        → Leaves (carry_out env fails user now read (judge read) s)
    judged read found =
        branch (λ v. Leaves (carry_out env fails user now read v s))
          (same_status read.status cancelled) (λ _. Evolves-refl s.runs)
          (λ _.
            branch (λ v. Leaves (carry_out env fails user now read v s))
              (can_transition read.status cancelled)
              (λ ok.
                branch (Evolves s.runs) fails (λ _. Evolves-refl s.runs)
                  (λ _. written read found ok))
              (λ _. Evolves-refl s.runs))

-- The row after a request that was accepted.
cancelled-found :
    (env : Env) (id org user now : ℕ) (s : Server) (read : Run)
    → first_where (owns id org) s.runs ≡ some read
    → first_where (owns id org) (write env false user now read s).runs
      ≡ some (cancel_row read now read)
unfolding write cancel_row
cancelled-found env id org user now s read found =
    first_where-update_where (owns id org) (λ r. r.id == read.id) (cancel_row read now) s.runs read
      (λ r. refl) found (ground arith)

accepted :
    (env : Env) (id org user now : ℕ) (s : Server) (read : Run)
    → first_where (owns id org) s.runs ≡ some read
    → read.status ≡ pending
    → cancel env false (some id) org user now s ≡ (write env false user now read s, cancelled_ok)
unfolding cancel judge carry_out can_transition same_status
accepted env id org user now s read found waits = rw (found, cancel, waits) refl

event-cancelled :
    (env : Env) (user now : ℕ) (s : Server) (read : Run)
    → read.status ≡ pending
    → (e : RunEvent) × ((write env false user now read s).events ≡ s.events ++ e ∷ [])
      × (e.status ≡ cancelled)
      × (e.run.id ≡ read.id)
unfolding write struct_after same_status
event-cancelled env user now s read waits = (_, refl, ground arith, ground arith)

cancel_row-cancelled :
    (read : Run) (now : ℕ) → read.status ≡ pending → (cancel_row read now read).status ≡ cancelled
unfolding cancel_row same_status
cancel_row-cancelled read now waits = rw waits refl

cancelled_again :
    (env : Env) (id org user now : ℕ) (s : Server) (r : Run)
    → first_where (owns id org) s.runs ≡ some r
    → r.status ≡ cancelled
    → cancel env false (some id) org user now s ≡ (s, cancelled_ok)
unfolding cancel judge carry_out same_status
cancelled_again env id org user now s r found done = rw (found, cancel, done) refl

-- Cancelling a run that waits, with an UPDATE that does not fail, succeeds: its row is CANCELLED, subscribers are told so, whether or not
-- the ORM wrote the new status back into the handler's struct, and the same request once more changes
-- nothing and succeeds again.
pub cancel-settles :
    (env : Env) (id org user now now' : ℕ) (s : Server) (read : Run)
    → first_where (owns id org) s.runs ≡ some read
    → read.status ≡ pending
    → let t = (cancel env false (some id) org user now s).0 in
      ((cancel env false (some id) org user now s).1 ≡ cancelled_ok)
      × ((r : Run) × (first_where (owns id org) t.runs ≡ some r) × (r.status ≡ cancelled))
      × ((e : RunEvent) × (t.events ≡ s.events ++ e ∷ [])
          × (e.status ≡ cancelled)
          × (e.run.id ≡ read.id))
      × (cancel env false (some id) org user now' t ≡ (t, cancelled_ok))
cancel-settles env id org user now now' s read found waits =
    rw (accepted env id org user now s read found waits) (
      refl,
      (cancel_row read now read, cancelled-found env id org user now s read found, settled),
      event-cancelled env user now s read waits,
      again,
    )
  where
    settled : (cancel_row read now read).status ≡ cancelled
    settled = cancel_row-cancelled read now waits

    again :
        cancel env false (some id) org user now' (write env false user now read s)
        ≡ (write env false user now read s, cancelled_ok)
    again =
        cancelled_again env id org user now' (write env false user now read s)
          (cancel_row read now read) (cancelled-found env id org user now s read found) settled

pub cancel-row :
    (env : Env) (id org user now : ℕ) (s : Server) (read : Run)
    → first_where (owns id org) s.runs ≡ some read
    → read.status ≡ pending
    → (r : Run) × (first_where (owns id org) (cancel env false (some id) org user now s).0.runs
        ≡ some r)
      × (r.status ≡ cancelled)
      × (r.completed_at ≡ read.completed_at)
unfolding cancel_row
cancel-row env id org user now s read found waits =
    rw (accepted env id org user now s read found waits) (
      cancel_row read now read,
      cancelled-found env id org user now s read found,
      cancel_row-cancelled read now waits,
      refl,
    )
