-- ===== src/Jobs/Tenants.antt =====
-- server/internal/handlers/backup_job.go, Create: whose the agent and the storage target of a new job are
-- plays no part.
use db_backup_app.Base.{
  ℕ, ◌≡◌, refl, Bool, ◌&&◌, ◌||◌, not, Option, none, some, List, [], ◌∷◌, ◌==◌, Text, any, map,
  Bool-cases, Option-cases, inl, inr,
}
use db_backup_app.Jobs.{
  AgentKey, TargetKey, Office, JobRequest, JobReply, Reference, create, create_row, is_complete,
  normalize_export_format, resolve_connection, resolve_policy, same_agent, is_refused, lacks_source,
}

-- The same office, with other owners of its agents and storage targets.
abbrev pub reowned : (ℕ → ℕ) → (ℕ → ℕ) → Office → Office
reowned agent_owner target_owner o = record o {
  agents = map (λ (a : AgentKey). record a { organization_id = agent_owner a.id }) o.agents;
  storage_targets =
      map (λ (t : TargetKey). record t { organization_id = target_owner t.id }) o.storage_targets;
}

any_agent :
    (owner : ℕ → ℕ) (id : ℕ) (rows : List AgentKey)
    → any
        (λ (a : AgentKey). a.id == id)
        (map (λ (a : AgentKey). record a { organization_id = owner a.id }) rows)
      ≡ any (λ (a : AgentKey). a.id == id) rows
any_agent owner id [] = refl
any_agent owner id (a ∷ rows) = rw (any_agent owner id rows) refl

any_target :
    (owner : ℕ → ℕ) (id : ℕ) (rows : List TargetKey)
    → any
        (λ (t : TargetKey). t.id == id)
        (map (λ (t : TargetKey). record t { organization_id = owner t.id }) rows)
      ≡ any (λ (t : TargetKey). t.id == id) rows
any_target owner id [] = refl
any_target owner id (t ∷ rows) = rw (any_target owner id rows) refl

module _ (agent_owner target_owner : ℕ → ℕ) (parse : Text → Option ℕ) (upper : Text → Text)
    (fails schedule_fails : Bool) (id org : ℕ) where
  abbrev Same : Office × JobReply → Office × JobReply → Type 0
  Same r q = r ≡ (reowned agent_owner target_owner q.0, q.1)

  create_row-Same :
      (agent storage : ℕ) (format : Text) (req : JobRequest) (o : Office)
      → Same
          (create_row parse upper fails schedule_fails id org agent storage format req
            (reowned agent_owner target_owner o))
          (create_row parse upper fails schedule_fails id org agent storage format req o)
  unfolding create_row
  create_row-Same agent storage format req o =
      rw (any_agent agent_owner agent o.agents, any_target target_owner storage o.storage_targets)
        (elim (Bool-cases unfit) [
          | inl e ↦ rw e refl
          | inr e ↦ elim (Bool-cases rejected) [ inl k ↦ rw (e, k) refl | inr k ↦ rw (e, k) refl ]
        ])
    where
      connection : Reference
      connection =
          resolve_connection parse (same_agent req agent) org req.connection_id o.connections

      unfit : Bool
      unfit =
          is_refused connection
          || lacks_source connection req
          || is_refused (resolve_policy parse org req.policy_id o.policies)

      rejected : Bool
      rejected =
          fails
          || any (λ r. r.job.id == id) o.jobs
          || not (any (λ a. a.id == agent) o.agents && any (λ t. t.id == storage) o.storage_targets)

  -- Whatever organizations own the agents and the storage targets, Create gives the same answer and makes
  -- the same row, for every request: it does not ask if the two that the request names are of the user's
  -- organization.
  pub create-blind_to_owners :
      (req : Option JobRequest) (o : Office)
      → create parse upper fails schedule_fails id org req (reowned agent_owner target_owner o) ≡ (
        reowned agent_owner target_owner (create parse upper fails schedule_fails id org req o).0,
        (create parse upper fails schedule_fails id org req o).1,
      )
  unfolding create
  create-blind_to_owners none o = refl
  create-blind_to_owners (some req) o = elim (Bool-cases (is_complete req)) [
    | inr e ↦ rw e refl
    | inl e ↦ elim (Option-cases (parse req.agent_id)) [
      | inl a ↦ rw (e, a) refl
      | inr (agent, a) ↦ elim (Option-cases (parse req.storage_target_id)) [
        | inl t ↦ rw (e, a, t) refl
        | inr (storage, t) ↦
            elim (Option-cases (normalize_export_format upper req.source_type req.export_format)) [
              | inl f ↦ rw (e, a, t, f) refl
              | inr (format, f) ↦ rw (e, a, t, f) (create_row-Same agent storage format req o)
            ]
      ]
    ]
  ]
