-- ===== src/Runs/History.antt =====
-- Many changes of the table of runs in a row.
use db_backup_app.Base.{◌≡◌, refl, sym, subst, ◌∙◌, ◌⊎◌, inl, inr, false, List, [], ◌∷◌}
use db_backup_app.Runs.{Run, RunStatus, pending, is_inflight}
use db_backup_app.Runs.Lifecycle.{◌⟶◌, ◌⟶*◌, here, then, ⟶*-ended, ⟶*-trans}
use db_backup_app.Runs.Evolution.{RowEvolves, Evolves}

-- A row after any number of changes: its status has gone along the lifecycle.
pub record RowReaches (r q : Run) : Type 0 where
  pub same_id : q.id ≡ r.id
  pub same_job : q.backup_job_id ≡ r.backup_job_id
  pub same_agent : q.agent_id ≡ r.agent_id
  pub same_boundary : q.scheduled_for ≡ r.scheduled_for
  pub status_reaches : r.status ⟶* q.status

-- The rows of `rs` come first, in order; the rest came in as pending runs.
abbrev pub Reaches : List Run → List Run → Type 0
Reaches [] [] = Unit
Reaches [] (q ∷ qs) = (pending ⟶* q.status) × Reaches [] qs
Reaches (r ∷ rs) [] = ⊥
Reaches (r ∷ rs) (q ∷ qs) = RowReaches r q × Reaches rs qs

pub Reaches-refl : (rs : List Run) → Reaches rs rs
Reaches-refl [] = tt
Reaches-refl (r ∷ rs) = (
  record {
    same_id = refl;
    same_job = refl;
    same_agent = refl;
    same_boundary = refl;
    status_reaches = here;
  },
  Reaches-refl rs,
)

further : {s t u : RunStatus} → s ⟶* t → (u ≡ t) ⊎ (t ⟶ u) → s ⟶* u
further {s} p (inl same) = subst (λ v. s ⟶* v) (sym same) p
further p (inr e) = ⟶*-trans p (then e here)

RowReaches-RowEvolves : (r q t : Run) → RowReaches r q → RowEvolves q t → RowReaches r t
RowReaches-RowEvolves r q t p e = record {
  same_id = e.same_id ∙ p.same_id;
  same_job = e.same_job ∙ p.same_job;
  same_agent = e.same_agent ∙ p.same_agent;
  same_boundary = e.same_boundary ∙ p.same_boundary;
  status_reaches = further p.status_reaches e.status_moves;
}

pub Reaches-Evolves : (rs qs ts : List Run) → Reaches rs qs → Evolves qs ts → Reaches rs ts
Reaches-Evolves [] [] [] p e = tt
Reaches-Evolves [] [] (t ∷ ts) p e =
    (subst (λ u. pending ⟶* u) (sym e.0) here, Reaches-Evolves [] [] ts tt e.1)
Reaches-Evolves [] (q ∷ qs) [] p e = absurd e
Reaches-Evolves [] (q ∷ qs) (t ∷ ts) p e =
    (further p.0 e.0.status_moves, Reaches-Evolves [] qs ts p.1 e.1)
Reaches-Evolves (r ∷ rs) [] ts p e = absurd p
Reaches-Evolves (r ∷ rs) (q ∷ qs) [] p e = absurd e
Reaches-Evolves (r ∷ rs) (q ∷ qs) (t ∷ ts) p e =
    (RowReaches-RowEvolves r q t p.0 e.0, Reaches-Evolves rs qs ts p.1 e.1)

-- Every row is there still, in its place, and the status of one that has ended is what it was.
abbrev pub EndedStay : List Run → List Run → Type 0
EndedStay [] qs = Unit
EndedStay (r ∷ rs) [] = ⊥
EndedStay (r ∷ rs) (q ∷ qs) =
    (q.id ≡ r.id) × (is_inflight r.status ≡ false → q.status ≡ r.status) × EndedStay rs qs

pub Reaches-EndedStay : (rs qs : List Run) → Reaches rs qs → EndedStay rs qs
Reaches-EndedStay [] qs p = tt
Reaches-EndedStay (r ∷ rs) [] p = absurd p
Reaches-EndedStay (r ∷ rs) (q ∷ qs) p =
    (p.0.same_id, ⟶*-ended p.0.status_reaches, Reaches-EndedStay rs qs p.1)

RowReaches-trans : (r q t : Run) → RowReaches r q → RowReaches q t → RowReaches r t
RowReaches-trans r q t p e = record {
  same_id = e.same_id ∙ p.same_id;
  same_job = e.same_job ∙ p.same_job;
  same_agent = e.same_agent ∙ p.same_agent;
  same_boundary = e.same_boundary ∙ p.same_boundary;
  status_reaches = ⟶*-trans p.status_reaches e.status_reaches;
}

pub Reaches-trans : (rs qs ts : List Run) → Reaches rs qs → Reaches qs ts → Reaches rs ts
Reaches-trans [] [] ts p e = e
Reaches-trans [] (q ∷ qs) [] p e = absurd e
Reaches-trans [] (q ∷ qs) (t ∷ ts) p e =
    (⟶*-trans p.0 e.0.status_reaches, Reaches-trans [] qs ts p.1 e.1)
Reaches-trans (r ∷ rs) [] ts p e = absurd p
Reaches-trans (r ∷ rs) (q ∷ qs) [] p e = absurd e
Reaches-trans (r ∷ rs) (q ∷ qs) (t ∷ ts) p e =
    (RowReaches-trans r q t p.0 e.0, Reaches-trans rs qs ts p.1 e.1)
