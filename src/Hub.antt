-- ===== src/Hub.antt =====
-- server/internal/realtime/hub.go: the event bus between the server, dashboards and agents.
--
-- A peer is known by its number, in the order in which the sockets were opened; `peers` is the heap of
-- peers, and a key that is not in a map of the hub has no peers. `queue` is the buffered channel of what
-- is to be written. What the database and the UUID library say at a frame is its `Directory`.
pub mod Queues
pub mod Sets
pub mod View
pub mod Entering
pub mod Membership
pub mod Simulation
use db_backup_app.Base.{
  ℕ, suc, ◌+◌, Bool, true, false, ◌&&◌, ◌||◌, not, Option, none, some, List, [], ◌∷◌, ◌++◌, ◌==◌,
  ltb, if◌then◌else◌, Text, lit, text_eq, is_empty, any, keep, length,
}

pub record Identity : Type 0 where
  pub user : ℕ  -- of a dashboard
  pub agent : ℕ  -- of an agent
  pub organization : ℕ
  pub is_agent : Bool

pub data Payload : Type 0 where
  log_line : Text → ℕ → Text → Text → Payload  -- run, agent, line, time
  body : Text → Payload

pub record Event : Type 0 where
  pub type : Text
  pub org : Text
  pub payload : Payload

pub record Peer : Type 0 where
  pub who : Identity
  pub orgs : List Text
  pub queue : List Event
  pub closed : Bool

pub record Hub : Type 0 where
  pub next : ℕ
  pub peers : ℕ → Peer
  pub org_peers : Text → List ℕ
  pub agent_peers : ℕ → Option ℕ

pub record Directory : Type 0 where
  pub parse : Text → Option ℕ
  pub is_member : ℕ → ℕ → Bool  -- the organization, the user
  pub owns_run : ℕ → ℕ → Bool  -- the agent, the run
  pub uuid_text : ℕ → Text
  pub time : Text

-- A frame that a peer sends; a log without its payload is one whose payload is no object.
pub data Frame : Type 0 where
  subscribes : Text → Frame
  logs : Option (Text × Text) → Frame  -- run and line, empty if absent
  other : Frame

abbrev pub set_at {ℓ} : {A : Type ℓ} → ℕ → A → (ℕ → A) → ℕ → A
set_at p v f q = if q == p then v else f q

abbrev pub set_text {ℓ} : {A : Type ℓ} → Text → A → (Text → A) → Text → A
set_text o v f t = if text_eq t o then v else f t

abbrev pub has_peer : ℕ → List ℕ → Bool
has_peer p ps = any (λ x. x == p) ps

abbrev pub has_org : Text → List Text → Bool
has_org o os = any (λ t. text_eq t o) os

-- The select on the channel: a peer whose buffer of 64 is full is closed.
unfoldable pub offer : ℕ → Event → (ℕ → Peer) → ℕ → Peer
offer p ev peers =
    let q = peers p in
    set_at p
      (if ltb (length q.queue) 64
        then record q { queue = q.queue ++ ev ∷ [] }
        else record q { closed = true })
      peers

unfoldable pub deliver : Event → List ℕ → (ℕ → Peer) → ℕ → Peer
deliver ev [] peers = peers
deliver ev (p ∷ ps) peers = deliver ev ps (offer p ev peers)

unfoldable pub publish : Text → Event → Hub → Hub
publish org ev h =
    if is_empty org
    then h
    else record h { peers = deliver (record ev { org = org }) (h.org_peers org) h.peers }

-- What does not fit in the agent's buffer is dropped.
unfoldable pub send_to_agent : ℕ → Event → Hub → Hub
send_to_agent agent ev h = elim (h.agent_peers agent) [
  | none ↦ h
  | some p ↦ record h {
    peers =
        set_at p
          (if ltb (length (h.peers p).queue) 64
            then record (h.peers p) { queue = (h.peers p).queue ++ ev ∷ [] }
            else h.peers p)
          h.peers;
  }
]

abbrev pub new_peer : Identity → Peer
new_peer who = record { who = who; orgs = []; queue = []; closed = false }

abbrev pub close_old : Option ℕ → (ℕ → Peer) → ℕ → Peer
close_old none peers = peers
close_old (some p) peers = set_at p (record (peers p) { closed = true }) peers

-- The start of serveDashboard and of serveAgent: an agent's older socket is closed and replaced.
unfoldable pub enter : Identity → Hub → Hub
enter who h =
    if who.is_agent
    then record {
      next = suc h.next;
      peers = set_at h.next (new_peer who) (close_old (h.agent_peers who.agent) h.peers);
      org_peers = h.org_peers;
      agent_peers = set_at who.agent (some h.next) h.agent_peers;
    }
    else record h { next = suc h.next; peers = set_at h.next (new_peer who) h.peers }

abbrev pub delete : ℕ → List ℕ → List ℕ
delete p ps = keep (λ x. not (x == p)) ps

unfoldable pub remove_from : ℕ → List Text → (Text → List ℕ) → Text → List ℕ
remove_from p [] sets = sets
remove_from p (o ∷ os) sets = remove_from p os (set_text o (delete p (sets o)) sets)

unfoldable pub remove_peer : ℕ → Hub → Hub
remove_peer p h = record h { org_peers = remove_from p (h.peers p).orgs h.org_peers }

abbrev pub is_this : ℕ → Option ℕ → Bool
is_this p none = false
is_this p (some q) = q == p

-- The end of serveDashboard and of serveAgent: an agent that has a newer socket keeps it.
unfoldable pub leave : ℕ → Hub → Hub
leave p h =
    let who = (h.peers p).who in
    remove_peer p (
      if who.is_agent && is_this p (h.agent_peers who.agent)
      then record h { agent_peers = set_at who.agent none h.agent_peers }
      else h)

-- If the user may watch the organization.
unfoldable pub may_subscribe : Directory → Identity → Text → Bool
may_subscribe d who org = elim (d.parse org) [ none ↦ false | some id ↦ d.is_member id who.user ]

abbrev pub add_peer : ℕ → List ℕ → List ℕ
add_peer p ps = if has_peer p ps then ps else ps ++ p ∷ []

unfoldable pub subscribe : Directory → ℕ → Text → Hub → Hub
subscribe d p org h =
    if may_subscribe d (h.peers p).who org
    then record h {
      org_peers = set_text org (add_peer p (h.org_peers org)) h.org_peers;
      peers = set_at p (record (h.peers p) { orgs = org ∷ (h.peers p).orgs }) h.peers;
    }
    else h

-- The event of an agent's log line, if the run is the agent's.
unfoldable pub relayed : Directory → Identity → Option (Text × Text) → Option Event
relayed d who none = none
relayed d who (some (run, line)) =
    if is_empty run || is_empty line then none else elim (d.parse run) [
      | none ↦ none
      | some id ↦
          if d.owns_run who.agent id
          then some
              (record { type = lit "log"; org = []; payload = log_line run who.agent line d.time })
          else none
    ]

unfoldable pub relay_agent_log : Directory → ℕ → Option (Text × Text) → Hub → Hub
relay_agent_log d p payload h = elim (relayed d (h.peers p).who payload) [
  | none ↦ h
  | some ev ↦ publish (d.uuid_text (h.peers p).who.organization) ev h
]

unfoldable pub handle_message : Directory → ℕ → Frame → Hub → Hub
handle_message d p (subscribes org) h = if (h.peers p).who.is_agent then h else subscribe d p org h
handle_message d p (logs payload) h =
    if (h.peers p).who.is_agent then relay_agent_log d p payload h else h
handle_message d p other h = h

-- writePump takes the oldest event.
unfoldable pub write_next : ℕ → Hub → Hub
write_next p h = record h {
  peers =
      set_at p
        (record (h.peers p) { queue = elim (h.peers p).queue [ [] ↦ [] | ev ∷ rest ↦ rest ] })
        h.peers;
}

abbrev pub nobody : Identity
nobody = record { user = 0; agent = 0; organization = 0; is_agent = false }

-- NewHub
abbrev pub new_hub : Hub
new_hub = record {
  next = 0;
  peers = λ p. new_peer nobody;
  org_peers = λ o. [];
  agent_peers = λ a. none;
}
