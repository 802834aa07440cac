-- ===== src/Runs/Evolution.antt =====
-- How the table of runs may change: every row keeps its identity and its owner, its status stays or
-- takes one edge of the lifecycle, and new rows are pending.
use db_backup_app.Base.{
  ℕ, ◌≤◌, ◌≡◌, sym, subst, ◌∙◌, text_eq_sound, refl, ◌⊎◌, inl, inr, Bool, true, false, arith, List,
  [], ◌∷◌, ◌++◌, ◌==◌, if◌then◌else◌, update_where, count_where, length, first_where,
  first_where-count, update_where-none, some, Bool-cases,
}
use db_backup_app.Runs.{
  Run, RunStatus, running, uploading, verifying, completed, failed, cancelled, other, pending,
  same_status, is_inflight, occupies, inflight,
}
use db_backup_app.Runs.Lifecycle.{
  ◌⟶◌, claim, withdraw, upload, verify, complete, run_fails, upload_fails, verify_fails, run_stops,
  upload_stops, verify_stops,
}

pub record RowEvolves (r q : Run) : Type 0 where
  pub same_id : q.id ≡ r.id
  pub same_job : q.backup_job_id ≡ r.backup_job_id
  pub same_agent : q.agent_id ≡ r.agent_id
  pub same_boundary : q.scheduled_for ≡ r.scheduled_for
  pub status_moves : (q.status ≡ r.status) ⊎ (r.status ⟶ q.status)

abbrev pub Evolves : List Run → List Run → Type 0
Evolves [] [] = Unit
Evolves [] (q ∷ qs) = (q.status ≡ pending) × Evolves [] qs
Evolves (r ∷ rs) [] = ⊥
Evolves (r ∷ rs) (q ∷ qs) = RowEvolves r q × Evolves rs qs

pub stays : (r : Run) → RowEvolves r r
stays r = record {
  same_id = refl;
  same_job = refl;
  same_agent = refl;
  same_boundary = refl;
  status_moves = inl refl;
}

pub Evolves-refl : (rs : List Run) → Evolves rs rs
Evolves-refl [] = tt
Evolves-refl (r ∷ rs) = (stays r, Evolves-refl rs)

pub Evolves-update_where :
    (hit : Run → Bool) (change : Run → Run) (rs : List Run)
    → ((r : Run) → hit r ≡ true → RowEvolves r (change r))
    → Evolves rs (update_where hit change rs)
Evolves-update_where hit change [] h = tt
Evolves-update_where hit change (r ∷ rs) h =
    (row (hit r) (h r), Evolves-update_where hit change rs h)
  where
    row :
        (b : Bool) → (b ≡ true → RowEvolves r (change r)) → RowEvolves r (if b then change r else r)
    row true k = k refl
    row false k = stays r

-- With unique identifiers, an update by identifier touches only the row that was found.
pub Evolves-update_found :
    (id : ℕ) (p : Run → Bool) (change : Run → Run) (rs : List Run) (a : Run)
    → ((r : Run) → p r ≡ true → (r.id == id) ≡ true)
    → count_where (λ r. r.id == id) rs ≤ 1
    → first_where p rs ≡ some a
    → RowEvolves a (change a)
    → Evolves rs (update_where (λ r. r.id == id) change rs)
Evolves-update_found id p change [] a has one found e = tt
Evolves-update_found id p change (r ∷ rs) a has one found e = elim (Bool-cases (p r)) [
  | inl hit ↦
      let is_it : r ≡ a = ground arith in
      let alone : update_where (λ q. q.id == id) change rs ≡ rs =
        update_where-none (λ q. q.id == id) change rs (ground (arith, has r hit)) in
      rw (has r hit, alone, is_it) (e, Evolves-refl rs)
  | inr miss ↦
      let later : first_where p rs ≡ some a = ground arith in
      let elsewhere : (r.id == id) ≡ false =
        ground (arith, first_where-count p (λ q. q.id == id) rs a has later) in
      rw elsewhere (stays r, Evolves-update_found id p change rs a has (ground arith) later e)
]

pub Evolves-insert : (rs : List Run) (q : Run) → q.status ≡ pending → Evolves rs (rs ++ q ∷ [])
Evolves-insert [] q h = (h, tt)
Evolves-insert (r ∷ rs) q h = (stays r, Evolves-insert rs q h)

-- An edge starts in flight.
⟶-starts_inflight : {s t : RunStatus} → s ⟶ t → is_inflight s ≡ true
unfolding is_inflight
⟶-starts_inflight claim = refl
⟶-starts_inflight withdraw = refl
⟶-starts_inflight upload = refl
⟶-starts_inflight verify = refl
⟶-starts_inflight complete = refl
⟶-starts_inflight run_fails = refl
⟶-starts_inflight upload_fails = refl
⟶-starts_inflight verify_fails = refl
⟶-starts_inflight run_stops = refl
⟶-starts_inflight upload_stops = refl
⟶-starts_inflight verify_stops = refl

RowEvolves-occupies :
    (job : ℕ) (r q : Run) → RowEvolves r q → occupies job q ≡ true → occupies job r ≡ true
RowEvolves-occupies job r q e h = go e.status_moves
  where
    go : (q.status ≡ r.status) ⊎ (r.status ⟶ q.status) → occupies job r ≡ true
    go (inl same) = ground (arith, e.same_job)
    go (inr edge) = ground (arith, e.same_job, ⟶-starts_inflight edge)

-- Without new rows no job has more runs in flight than before.
pub Evolves-inflight :
    (job : ℕ) (rs qs : List Run)
    → length qs ≡ length rs
    → Evolves rs qs
    → inflight job qs ≤ inflight job rs
Evolves-inflight job [] [] l e = omega arith
Evolves-inflight job [] (q ∷ qs) l e = absurd (omega arith)
Evolves-inflight job (r ∷ rs) [] l e = absurd e
Evolves-inflight job (r ∷ rs) (q ∷ qs) l e =
    ground (arith, RowEvolves-occupies job r q e.0, Evolves-inflight job rs qs (omega arith) e.1)

-- A change of other columns.
pub record RowKeeps (r q : Run) : Type 0 where
  pub same_id : q.id ≡ r.id
  pub same_job : q.backup_job_id ≡ r.backup_job_id
  pub same_agent : q.agent_id ≡ r.agent_id
  pub same_boundary : q.scheduled_for ≡ r.scheduled_for
  pub same_status : q.status ≡ r.status

pub kept :
    {r q : Run}
    → q.id ≡ r.id
    → q.backup_job_id ≡ r.backup_job_id
    → q.agent_id ≡ r.agent_id
    → q.scheduled_for ≡ r.scheduled_for
    → q.status ≡ r.status
    → RowKeeps r q
kept i j a b s = record {
  same_id = i;
  same_job = j;
  same_agent = a;
  same_boundary = b;
  same_status = s;
}

RowEvolves-keeps : (r q t : Run) → RowEvolves r q → RowKeeps q t → RowEvolves r t
RowEvolves-keeps r q t e k = record {
  same_id = k.same_id ∙ e.same_id;
  same_job = k.same_job ∙ e.same_job;
  same_agent = k.same_agent ∙ e.same_agent;
  same_boundary = k.same_boundary ∙ e.same_boundary;
  status_moves = go e.status_moves;
}
  where
    go :
        (q.status ≡ r.status) ⊎ (r.status ⟶ q.status)
        → (t.status ≡ r.status) ⊎ (r.status ⟶ t.status)
    go (inl same) = inl (k.same_status ∙ same)
    go (inr edge) = inr (subst (λ u. r.status ⟶ u) (sym k.same_status) edge)

-- A change of other columns on top.
pub Evolves-keeping :
    (hit : Run → Bool) (change : Run → Run) (rs qs : List Run)
    → ((r : Run) → hit r ≡ true → RowKeeps r (change r))
    → Evolves rs qs
    → Evolves rs (update_where hit change qs)
Evolves-keeping hit change [] [] k e = tt
Evolves-keeping hit change [] (q ∷ qs) k e =
    (ground (arith, k q), Evolves-keeping hit change [] qs k e.1)
Evolves-keeping hit change (r ∷ rs) [] k e = absurd e
Evolves-keeping hit change (r ∷ rs) (q ∷ qs) k e =
    (row (hit q) (k q), Evolves-keeping hit change rs qs k e.1)
  where
    row : (b : Bool) → (b ≡ true → RowKeeps q (change q)) → RowEvolves r (if b then change q else q)
    row true h = RowEvolves-keeps r q (change q) e.0 (h refl)
    row false h = e.0

pub same_status_sound : (s t : RunStatus) → same_status s t ≡ true → s ≡ t
unfolding same_status
same_status_sound pending pending h = refl
same_status_sound running running h = refl
same_status_sound uploading uploading h = refl
same_status_sound verifying verifying h = refl
same_status_sound completed completed h = refl
same_status_sound failed failed h = refl
same_status_sound cancelled cancelled h = refl
same_status_sound (other s) (other t) h = cc (text_eq_sound s t h)
same_status_sound _ _ h = absurd (cc)
