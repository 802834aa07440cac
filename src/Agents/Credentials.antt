-- ===== src/Agents/Credentials.antt =====
-- Who gets in, on each of the three ways.
use db_backup_app.Base.{
  ℕ, ◌+◌, ◌<◌, ◌≡◌, Bool, true, false, none, some, List, arith, ◌==◌, is_empty, Text, first_where,
}
use db_backup_app.Agents.{
  Agent, up, revoked, lifecycle, online_threshold, granted, accepts, agent_auth, grpc_auth,
  socket_auth,
}

module _ (matches : Text → Text → Bool) (token : Text) (id : ℕ) (agents : List Agent) where
  -- A request passes the middleware exactly as the agent whose row it names, if it brings a token,
  -- the token matches the row's hash and the agent is not revoked; then the gRPC server lets it in
  -- too.
  pub agent_auth-grants :
      (a : Agent)
      → agent_auth matches token (some id) agents ≡ granted a
      → (first_where (λ b. b.id == id) agents ≡ some a)
        × (is_empty token ≡ false)
        × (accepts matches a.token_hash token ≡ true)
        × (a.revoked_at ≡ none)
        × (grpc_auth matches token (some id) agents ≡ granted a)
  unfolding agent_auth grpc_auth
  agent_auth-grants a h = ground arith

  -- The hub opens a socket for a revoked agent whose token still matches, which the middleware
  -- turns away.
  pub socket_auth-revoked :
      (a : Agent) (t : ℕ)
      → first_where (λ b. b.id == id) agents ≡ some a
      → is_empty token ≡ false
      → accepts matches a.token_hash token ≡ true
      → a.revoked_at ≡ some t
      → (socket_auth matches token (some id) agents ≡ some a.id)
        × (lifecycle a t ≡ revoked)
        × ((b : Agent) → ¬ (agent_auth matches token (some id) agents ≡ granted b))
  unfolding agent_auth socket_auth lifecycle
  socket_auth-revoked a t found some_token ok gone =
      (ground arith, ground arith, λ b e. ground arith)

-- The effective state of an agent: revoked wins over all else; an agent that is up has a credential
-- and was seen within the threshold.
pub lifecycle-up :
    (a : Agent) (now : ℕ)
    → lifecycle a now ≡ up
    → (a.revoked_at ≡ none)
      × ((h : Text) × (a.token_hash ≡ some h))
      × ((t : ℕ) × (a.last_seen_at ≡ some t) × (now < t + online_threshold))
unfolding lifecycle
lifecycle-up a now h = ground arith
