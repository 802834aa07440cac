-- ===== src/Agents.antt =====
-- server/internal/models/agent.go, and how an agent proves who it is: AgentAuth of
-- server/internal/middleware/agent_auth.go, authenticateAgent and touch of
-- server/internal/handlers/agent_work.go, authenticateAgent of server/internal/grpcserver/server.go
-- and authAgent of server/internal/realtime/hub.go.
--
-- `matches hash token` is bcrypt's comparison. A header is given as it was read: the bearer token,
-- empty if there is none, and the agent's identifier, none if it does not parse.
pub mod Credentials
use db_backup_app.Base.{
  ℕ, ◌+◌, Bool, true, false, not, Option, none, some, List, [], ◌∷◌, ◌++◌, ◌==◌, ltb, if◌then◌else◌,
  minute, ◌*◌, Text, is_empty, first_where, update_where,
}

pub data AgentStatus : Type 0 where
  online offline : AgentStatus

pub record Agent : Type 0 where
  pub id : ℕ
  pub organization_id : ℕ
  pub name : Text
  pub token_hash : Option Text
  pub token_rotated_at : Option ℕ
  pub status : AgentStatus
  pub version : Text
  pub last_seen_at : Option ℕ
  pub registration_key : Option Text
  pub platform : Text
  pub architecture : Text
  pub machine_name : Text
  pub installed_at : Option ℕ
  pub revoked_at : Option ℕ

pub data Lifecycle : Type 0 where
  pending up down revoked : Lifecycle

abbrev pub online_threshold : ℕ
online_threshold = 3 * minute

-- `time.Since(last) < within`; `none` is never seen.
unfoldable pub seen_within : ℕ → ℕ → Option ℕ → Bool
seen_within within now none = false
seen_within within now (some last) = ltb now (last + within)

-- Agent.Lifecycle
unfoldable pub lifecycle : Agent → ℕ → Lifecycle
unfolding seen_within
lifecycle a now = elim a.revoked_at [
  | some t ↦ revoked
  | none ↦ elim a.token_hash [
    | none ↦ pending
    | some h ↦ if seen_within online_threshold now a.last_seen_at then up else down
  ]
]

pub data Refusal : Type 0 where
  missing_token missing_id invalid_token agent_revoked : Refusal

pub data Access : Type 0 where
  granted : Agent → Access
  denied : Refusal → Access

module _ (matches : Text → Text → Bool) where
  abbrev pub accepts : Option Text → Text → Bool
  accepts none token = false
  accepts (some hash) token = matches hash token

  -- Of AgentAuth, and of the work handler's authenticateAgent.
  unfoldable pub agent_auth : Text → Option ℕ → List Agent → Access
  agent_auth token id agents = if is_empty token then denied missing_token else elim id [
    | none ↦ denied missing_id
    | some i ↦ elim (first_where (λ a. a.id == i) agents) [
      | none ↦ denied invalid_token
      | some a ↦
          if not (accepts a.token_hash token)
          then denied invalid_token
          else elim a.revoked_at [ none ↦ granted a | some t ↦ denied agent_revoked ]
    ]
  ]

  -- Of the gRPC server; an identifier that does not parse finds no row.
  unfoldable pub grpc_auth : Text → Option ℕ → List Agent → Access
  grpc_auth token id agents = elim id [
    | none ↦ denied missing_id
    | some i ↦ elim (first_where (λ a. a.id == i) agents) [
      | none ↦ denied missing_id
      | some a ↦
          if not (accepts a.token_hash token)
          then denied invalid_token
          else elim a.revoked_at [ none ↦ granted a | some t ↦ denied agent_revoked ]
    ]
  ]

  -- Of the realtime hub.
  unfoldable pub socket_auth : Text → Option ℕ → List Agent → Option ℕ
  socket_auth token id agents = if is_empty token then none else elim id [
    | none ↦ none
    | some i ↦ elim (first_where (λ a. a.id == i) agents) [
      | none ↦ none
      | some a ↦ if accepts a.token_hash token then some a.id else none
    ]
  ]

abbrev pub is_online : AgentStatus → Bool
is_online online = true
is_online offline = false

-- The agent table, and the agents whose presence was published, as published.
pub record Roster : Type 0 where
  pub agents : List Agent
  pub presence : List Agent

unfoldable pub touch : Agent → ℕ → Roster → Roster
touch a now r = record {
  agents =
      update_where (λ b. b.id == a.id) (λ b. record b { status = online; last_seen_at = some now })
        r.agents;
  presence =
      if is_online a.status then r.presence else r.presence ++ record a { status = online } ∷ [];
}
