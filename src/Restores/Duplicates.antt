-- ===== src/Restores/Duplicates.antt =====
-- A restore that is asked for twice is queued once.
use db_backup_app.Base.{
  ℕ, ◌≤◌, ◌≡◌, refl, ◌∙◌, inl, inr, Bool, false, Option, some, [], ◌∷◌, arith, Text, text_eq_iff,
  text_eq_refl, branch, Option-cases, any, any-none, count_where, count_where-append, first_where,
  first_where-append,
}
use db_backup_app.Restores.{
  Restore, same_restore_status, Desk, Reply, created, live, CreateRequest, wanted, is_twin,
  new_restore, insert_restore, create_wanted,
}

-- At most one pending restore of a run, by an agent, to a path and a database.
abbrev pub QueuesOnce : Desk → Type 0
QueuesOnce d = (run agent : ℕ) (path db : Text) → count_where (is_twin run agent path db) d.rows ≤ 1

-- Also if the table changed since the look for a twin.
pub insert_restore-QueuesOnce :
    (fails : Bool) (req : CreateRequest) (org id run agent : ℕ) (connection : Option ℕ) (d : Desk)
    → QueuesOnce d
    → QueuesOnce (insert_restore fails req org id run agent connection d).0
unfolding insert_restore
insert_restore-QueuesOnce fails req org id run agent connection d h r a path db = ground (
  arith,
  h r a path db,
  text_eq_iff req.destination_path path,
  text_eq_iff req.target_database db,
  any-none (is_twin run agent req.destination_path req.target_database) d.rows,
  count_where-append (is_twin r a path db) d.rows
      (new_restore id org req run agent connection ∷ []),
)

answered :
    (req : CreateRequest) (org id run agent : ℕ) (connection : Option ℕ) (fails : Bool) (d : Desk)
    (r : Restore)
    → first_where (is_twin run agent req.destination_path req.target_database) d.rows ≡ some r
    → create_wanted fails req org id (wanted run agent connection) d ≡ (d, live r)
unfolding create_wanted
answered req org id run agent connection fails d r found = rw (found, create_wanted) refl

queued :
    (req : CreateRequest) (org id run agent : ℕ) (connection : Option ℕ) (d : Desk) (job : Restore)
    → let r = insert_restore false req org id run agent connection d in
      r.1 ≡ created job
      → first_where (is_twin run agent req.destination_path req.target_database) r.0.rows ≡ some job
unfolding insert_restore same_restore_status
queued req org id run agent connection d job =
    branch Queued (any twin d.rows)
      (λ _. elim (Option-cases (first_where twin d.rows)) [
        | inl e ↦ rw e (λ h. absurd (cc))
        | inr (w, e) ↦ rw e (λ h. absurd (cc))
      ])
      (λ fresh h.
        first_where-append twin d.rows new (any-none twin d.rows fresh)
          (ground (arith, text_eq_refl req.destination_path, text_eq_refl req.target_database))
        ∙ cc h)
  where
    twin : Restore → Bool
    twin = is_twin run agent req.destination_path req.target_database

    new : Restore
    new = new_restore id org req run agent connection

    Queued : Desk × Reply → Type 0
    Queued r = r.1 ≡ created job → first_where twin r.0.rows ≡ some job

made :
    (req : CreateRequest) (org id run agent : ℕ) (connection : Option ℕ) (d : Desk) (job : Restore)
    → let r = create_wanted false req org id (wanted run agent connection) d in
      r.1 ≡ created job
      → first_where (is_twin run agent req.destination_path req.target_database) r.0.rows ≡ some job
unfolding create_wanted
made req org id run agent connection d job =
    elim (Option-cases
      (first_where (is_twin run agent req.destination_path req.target_database) d.rows)) [
        | inl none_found ↦
            rw (none_found, create_wanted) (queued req org id run agent connection d job)
        | inr (w, found) ↦ rw (found, create_wanted) (λ h. absurd (cc))
      ]

-- After a restore was created, the same request is answered with that restore and queues nothing.
pub create_wanted-again :
    (req : CreateRequest) (org id id' run agent : ℕ) (connection connection' : Option ℕ)
    (fails : Bool) (d : Desk) (job : Restore)
    → let e = (create_wanted false req org id (wanted run agent connection) d).0 in
      (create_wanted false req org id (wanted run agent connection) d).1 ≡ created job
      → create_wanted fails req org id' (wanted run agent connection') e ≡ (e, live job)
create_wanted-again req org id id' run agent connection connection' fails d job h =
    answered req org id' run agent connection' fails
      (create_wanted false req org id (wanted run agent connection) d).0 job
      (made req org id run agent connection d job h)
