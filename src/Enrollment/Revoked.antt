-- ===== src/Enrollment/Revoked.antt =====
-- A revoked agent is turned away from then on.
use db_backup_app.Base.{
  ℕ, ◌≤◌, ◌≡◌, ◌≢◌, refl, Bool, true, false, ◌&&◌, some, List, arith, ◌==◌, Text, Option-cases, inl,
  inr, count_where, first_where, first_where-none, first_where-count, first_where-update_where,
  update_where, first_where_sound,
}
use db_backup_app.Agents.{Agent, agent_auth, grpc_auth, granted}
use db_backup_app.Enrollment.{Registry, done, revoke, revoke_row}

module _ (matches : Text → Text → Bool) (token : Text) (id : ℕ) where
  -- Neither way in is open.
  abbrev pub Denied : List Agent → Type 0
  Denied rows =
      ((a : Agent) → agent_auth matches token (some id) rows ≢ granted a)
      × ((a : Agent) → grpc_auth matches token (some id) rows ≢ granted a)

  turned_away :
      (rows : List Agent) (b : Agent) (t : ℕ)
      → first_where (λ a. a.id == id) rows ≡ some b
      → b.revoked_at ≡ some t
      → Denied rows
  unfolding agent_auth grpc_auth
  turned_away rows b t found gone = (λ a e. ground arith, λ a e. ground arith)

  revoked_first :
      (now : ℕ) (rows : List Agent) (a : Agent)
      → (a.id == id) ≡ true
      → 1 ≤ count_where (λ b. b.id == id) rows
      → (b : Agent) × (first_where
            (λ b. b.id == id)
            (update_where (λ b. b.id == a.id) (revoke_row now) rows)
          ≡ some b)
        × (b.revoked_at ≡ some now)
  revoked_first now rows a same there = elim (Option-cases (first_where (λ b. b.id == id) rows)) [
    | inl none_found ↦ absurd (omega (arith, first_where-none (λ b. b.id == id) rows none_found))
    | inr (b, found) ↦ (
      revoke_row now b,
      first_where-update_where (λ b. b.id == id) (λ b. b.id == a.id) (revoke_row now) rows b
          (λ r. refl) found (ground (arith, first_where_sound (λ b. b.id == id) rows found)),
      refl,
    )
  ]

  -- After a revocation that succeeded, its statement included, no token lets the agent in again, at the
  -- middleware or at the gRPC server.
  pub revoke-denies :
      (org now : ℕ) (r : Registry)
      → (revoke false (some id) org now r).1 ≡ done
      → Denied (revoke false (some id) org now r).0.roster.agents
  unfolding revoke
  revoke-denies org now r =
      elim (Option-cases
        (first_where (λ a. a.id == id && a.organization_id == org) r.roster.agents)) [
          | inl none_found ↦ rw (none_found, revoke) (λ h. absurd (cc))
          | inr (a, found) ↦
              rw (found, revoke)
                (λ h.
                  let same : (a.id == id && a.organization_id == org) ≡ true =
                    first_where_sound (λ a. a.id == id && a.organization_id == org) r.roster.agents
                      found in
                  let b = revoked_first now r.roster.agents a (ground arith) (
                    first_where-count (λ a. a.id == id && a.organization_id == org)
                      (λ a. a.id == id) r.roster.agents a (λ c k. ground arith) found) in
                  turned_away _ b.0 now b.1 b.2)
        ]
