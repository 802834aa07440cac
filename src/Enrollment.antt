-- ===== src/Enrollment.antt =====
-- server/internal/handlers/enrollment.go: one-time enrollment tokens, enrollment, the heartbeat and
-- the revocation of agents and tokens.
--
-- Enroll is split at its transaction: `enroll_read` is what comes before, `enroll_commit` the
-- transaction, on the tables as they are by then; a transaction that fails is rolled back. SHA-256,
-- the minted credential with its bcrypt hash, `strings.ToLower` and a text's length in bytes are
-- arguments.
pub mod Single
pub mod Revoked
use db_backup_app.Base.{
  ℕ, ◌+◌, ◌*◌, Bool, true, false, ◌&&◌, ◌||◌, not, Option, none, some, List, [], ◌∷◌, ◌++◌, ◌==◌,
  ltb, leb, if◌then◌else◌, ℤ, pos, pos_part, ltb_ℤ, minute, Text, lit, text_eq, is_empty,
  trim_space, is_some, first_where, update_where, count_where,
}
use db_backup_app.Agents.{Agent, Roster, online, offline}

-- models/agent.go, EnrollmentToken.
pub record Token : Type 0 where
  pub id : ℕ
  pub organization_id : ℕ
  pub agent_id : Option ℕ
  pub token_hash : Text
  pub expires_at : ℕ
  pub used_at : Option ℕ
  pub revoked_at : Option ℕ
  pub created_by : Option ℕ

-- models/agent.go, Machine.
pub record Machine : Type 0 where
  pub organization_id : ℕ
  pub agent_id : ℕ
  pub hostname : Text
  pub os : Text
  pub ip_address : Text

-- `disconnects` are the agents whose stream was closed, `notices` the published changes.
pub record Registry : Type 0 where
  pub tokens : List Token
  pub roster : Roster
  pub machines : List Machine
  pub disconnects : List ℕ
  pub notices : List (Text × ℕ)

pub data Reply : Type 0 where
  created : ℕ → Text → ℕ → Reply  -- the agent, the token, its expiry
  enrolled : ℕ → Text → Reply  -- the agent and its credential
  done : Reply
  bad_request unauthorized not_found server_error : Reply

-- enrollmentExpired
unfoldable pub is_expired : ℕ → ℕ → Bool
is_expired expires now = leb expires now

-- A row that was made and never enrolled.
abbrev pub pending_agent : ℕ → ℕ → Text → Agent
pending_agent id org name = record {
  id = id;
  organization_id = org;
  name = name;
  token_hash = none;
  token_rotated_at = none;
  status = offline;
  version = [];
  last_seen_at = none;
  registration_key = none;
  platform = [];
  architecture = [];
  machine_name = [];
  installed_at = none;
  revoked_at = none;
}

-- What GenerateEnrollmentToken draws.
pub record Fresh : Type 0 where
  pub token : Text
  pub suffix : Text
  pub agent_id : ℕ
  pub token_id : ℕ
  pub fails : Bool

unfoldable pub generate_token :
    (Text → Text) → Fresh → ℕ → Option ℕ → Text → ℤ → ℕ → Registry → Registry × Reply
generate_token digest f org user name minutes now r =
    let ttl = if ltb_ℤ minutes (pos 0) || ltb_ℤ (pos 0) minutes then minutes else pos 30 in
    let trimmed = trim_space name in
    let expires = now + pos_part ttl * minute in
    if ltb_ℤ ttl (pos 1) || ltb_ℤ (pos 1440) ttl
    then (r, bad_request)
    else if f.fails
    then (r, server_error)
    else (
      record r {
        roster = record r.roster {
          agents =
              r.roster.agents
              ++ pending_agent f.agent_id org
                  (if is_empty trimmed then lit "pending-" ++ f.suffix else trimmed)
                ∷ [];
        };
        tokens =
            r.tokens
            ++ record {
              id = f.token_id;
              organization_id = org;
              agent_id = some f.agent_id;
              token_hash = digest f.token;
              expires_at = expires;
              used_at = none;
              revoked_at = none;
              created_by = user;
            }
              ∷ [];
        notices = r.notices ++ (lit "token-created", f.agent_id) ∷ [];
      },
      created f.agent_id f.token expires,
    )

pub record EnrollRequest : Type 0 where
  pub enrollment_token : Text
  pub machine_name : Text
  pub platform : Text
  pub architecture : Text
  pub agent_version : Text
  pub hostname : Text
  pub os : Text
  pub ip_address : Text

-- The token that the request presents, with its agent, if it may be used.
unfoldable pub enroll_read : (Text → Text) → EnrollRequest → ℕ → List Token → Option (Token × ℕ)
enroll_read digest req now tokens =
    elim (first_where
      (λ t.
        text_eq t.token_hash (digest (trim_space req.enrollment_token))
        && not (is_some t.revoked_at))
      tokens) [
        | none ↦ none
        | some t ↦
            if is_some t.used_at || is_expired t.expires_at now
            then none
            else elim t.agent_id [ none ↦ none | some a ↦ some (t, a) ]
      ]

-- id = ? AND used_at IS NULL AND revoked_at IS NULL
abbrev pub is_usable : ℕ → Token → Bool
is_usable id t = t.id == id && not (is_some t.used_at) && not (is_some t.revoked_at)

abbrev pub use_token : ℕ → Token → Token
use_token now t = record t { used_at = some now }

unfoldable pub enroll_row : (Text → Text) → EnrollRequest → Text → ℕ → Agent → Agent
enroll_row lower req hash now a = record a {
  name =
      if is_empty (trim_space req.machine_name)
      then trim_space req.hostname
      else trim_space req.machine_name;
  machine_name = trim_space req.machine_name;
  platform = lower (trim_space req.platform);
  architecture = lower (trim_space req.architecture);
  version = trim_space req.agent_version;
  token_hash = some hash;
  status = online;
  last_seen_at = some now;
  installed_at = some now;
  registration_key = none;
}

-- Assign of a struct leaves a column alone where the struct is empty.
abbrev pub assign : Text → Text → Text
assign old new = if is_empty new then old else new

abbrev pub assign_machine : Machine → Machine → Machine
assign_machine new m = record m {
  organization_id = new.organization_id;
  hostname = assign m.hostname new.hostname;
  os = assign m.os new.os;
  ip_address = assign m.ip_address new.ip_address;
}

-- Assign(…).FirstOrCreate by agent: the rows of an agent are at most one.
unfoldable pub upsert_machine : Machine → List Machine → List Machine
upsert_machine new machines =
    if count_where (λ (m : Machine). m.agent_id == new.agent_id) machines == 0
    then machines ++ new ∷ []
    else update_where (λ m. m.agent_id == new.agent_id) (assign_machine new) machines

-- What a successful enrollment writes.
unfoldable pub enroll_write :
    (Text → Text) → EnrollRequest → Text → ℕ → Token → Agent → Registry → Registry
enroll_write lower req hash now tok a r =
    let row = enroll_row lower req hash now a in
    record r {
      tokens = update_where (is_usable tok.id) (use_token now) r.tokens;
      roster = record {
        agents = update_where (λ b. b.id == a.id) (enroll_row lower req hash now) r.roster.agents;
        presence = r.roster.presence ++ row ∷ [];
      };
      machines =
          upsert_machine
            (record {
              organization_id = a.organization_id;
              agent_id = a.id;
              hostname = row.name;
              os = req.os;
              ip_address = req.ip_address;
            })
            r.machines;
    }

unfoldable pub enroll_commit :
    (Text → Text) → Bool → EnrollRequest → Text → Text → ℕ → Token → ℕ → Registry → Registry × Reply
enroll_commit lower fails req credential hash now tok agent r =
    if fails || count_where (is_usable tok.id) r.tokens == 0
    then (r, unauthorized)
    else elim (first_where (λ a. a.id == agent && a.organization_id == tok.organization_id)
        r.roster.agents) [
          | none ↦ (r, unauthorized)
          | some a ↦
              if is_some a.revoked_at
              then (r, unauthorized)
              else (enroll_write lower req hash now tok a r, enrolled a.id credential)
        ]

-- The handler without interference; the credential is minted in between.
unfoldable pub enroll :
    (Text → Text)
    → (Text → Text)
    → Bool
    → Option EnrollRequest
    → Option (Text × Text)
    → ℕ
    → Registry
    → Registry × Reply
enroll digest lower fails none minted now r = (r, bad_request)
enroll digest lower fails (some req) minted now r = elim (enroll_read digest req now r.tokens) [
  | none ↦ (r, unauthorized)
  | some (tok, agent) ↦ elim minted [
    | none ↦ (r, server_error)
    | some (credential, hash) ↦ enroll_commit lower fails req credential hash now tok agent r
  ]
]

-- Heartbeat of an agent that the middleware let in.
unfoldable pub heartbeat : (Text → ℕ) → Agent → Text → ℕ → Registry → Registry
heartbeat bytes a version now r =
    let v = trim_space version in
    record r {
      roster = record r.roster {
        agents =
            update_where (λ b. b.id == a.id)
              (λ b. record b {
                status = online;
                last_seen_at = some now;
                version = if not (is_empty v) && leb (bytes v) 32 then v else b.version;
              })
              r.roster.agents;
      };
    }

abbrev pub revoke_row : ℕ → Agent → Agent
revoke_row now b = record b { revoked_at = some now; status = offline }

-- If the statement fails, the rest goes on all the same.
unfoldable pub revoke : Bool → Option ℕ → ℕ → ℕ → Registry → Registry × Reply
revoke fails none org now r = (r, bad_request)
revoke fails (some id) org now r =
    elim (first_where (λ a. a.id == id && a.organization_id == org) r.roster.agents) [
      | none ↦ (r, not_found)
      | some a ↦ (
        record r {
          roster = record r.roster {
            agents =
                if fails
                then r.roster.agents
                else update_where (λ b. b.id == a.id) (revoke_row now) r.roster.agents;
          };
          disconnects = r.disconnects ++ a.id ∷ [];
          notices = r.notices ++ (lit "revoked", a.id) ∷ [];
        },
        done,
      )
    ]

unfoldable pub revoke_token : Bool → Option ℕ → ℕ → ℕ → Registry → Registry × Reply
revoke_token fails none org now r = (r, bad_request)
revoke_token fails (some id) org now r =
    let hit = λ (t : Token). is_usable id t && t.organization_id == org in
    if fails then (r, server_error) else if count_where hit r.tokens == 0 then (r, not_found) else (
      record r {
        tokens = update_where hit (λ t. record t { revoked_at = some now }) r.tokens;
        notices = r.notices ++ (lit "token-revoked", id) ∷ [];
      },
      done,
    )
