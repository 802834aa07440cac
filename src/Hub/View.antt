-- ===== src/Hub/View.antt =====
-- What the hub is for: who hears which organization, what is queued for whom, and which socket is an
-- agent's, with the sequences of what may happen.
use db_backup_app.Base.{
  ℕ, suc, ◌≤◌, ◌<◌, ◌≡◌, refl, Bool, true, false, ◌&&◌, Option, none, some, List, [], ◌∷◌, ◌==◌,
  if◌then◌else◌, ltb, Text, count_where, text_eq, is_empty,
}
use db_backup_app.Hub.{
  Identity, Event, Hub, Directory, Frame, subscribes, logs, other, has_peer, has_org, set_at,
  publish, send_to_agent, enter, leave, may_subscribe, relayed, handle_message, write_next, is_this,
}
use db_backup_app.Hub.Queues.{enqueue}

-- What may happen; a frame comes with the database as it is by then.
pub data Op : Type 0 where
  enters : Identity → Op
  leaves : ℕ → Op
  says : Directory → ℕ → Frame → Op
  publishes : Text → Event → Op
  commands : ℕ → Event → Op
  writes : ℕ → Op

-- Only a peer that has entered acts.
unfoldable pub step : Hub → Op → Hub
step h (enters who) = enter who h
step h (leaves p) = if ltb p h.next then leave p h else h
step h (says d p frame) = if ltb p h.next then handle_message d p frame h else h
step h (publishes org ev) = publish org ev h
step h (commands a ev) = send_to_agent a ev h
step h (writes p) = write_next p h

unfoldable pub run : Hub → List Op → Hub
run h [] = h
run h (op ∷ ops) = run (step h op) ops

-- The specification has no sets, no lists of organizations and no heap.
pub record View : Type 0 where
  pub next : ℕ
  pub who : ℕ → Identity
  pub hears : ℕ → Text → Bool
  pub queue : ℕ → List Event
  pub current : ℕ → Option ℕ

abbrev pub publish_view : Text → Event → View → View
publish_view org ev v = if is_empty org then v else record v {
  queue = λ p. if v.hears p org then enqueue (record ev { org = org }) (v.queue p) else v.queue p;
}

abbrev pub says_view : Directory → ℕ → Frame → View → View
says_view d p (subscribes org) v =
    if (v.who p).is_agent
    then v
    else if may_subscribe d (v.who p) org
    then record v { hears = λ q o. if p == q && text_eq o org then true else v.hears q o }
    else v
says_view d p (logs payload) v =
    if (v.who p).is_agent
    then elim (relayed d (v.who p) payload) [
      | none ↦ v
      | some ev ↦ publish_view (d.uuid_text (v.who p).organization) ev v
    ]
    else v
says_view d p other v = v

unfoldable pub spec : View → Op → View
spec v (enters who) = record {
  next = suc v.next;
  who = set_at v.next who v.who;
  hears = λ q o. if q == v.next then false else v.hears q o;
  queue = set_at v.next [] v.queue;
  current = if who.is_agent then set_at who.agent (some v.next) v.current else v.current;
}
spec v (leaves p) =
    if ltb p v.next
    then record v {
      hears = λ q o. if q == p then false else v.hears q o;
      current =
          if (v.who p).is_agent && is_this p (v.current (v.who p).agent)
          then set_at (v.who p).agent none v.current
          else v.current;
    }
    else v
spec v (says d p frame) = if ltb p v.next then says_view d p frame v else v
spec v (publishes org ev) = publish_view org ev v
spec v (commands a ev) = elim (v.current a) [
  | none ↦ v
  | some p ↦ record v { queue = set_at p (enqueue ev (v.queue p)) v.queue }
]
spec v (writes p) = record v {
  queue = set_at p (elim (v.queue p) [ [] ↦ [] | ev ∷ rest ↦ rest ]) v.queue;
}

unfoldable pub replay : View → List Op → View
replay v [] = v
replay v (op ∷ ops) = replay (spec v op) ops

-- The hub's sets are sets of dashboards that have entered, and each peer knows the sets that it is in.
pub record Valid (h : Hub) : Type 0 where
  pub known :
      (p : ℕ) (o : Text)
      → has_peer p (h.org_peers o) ≡ true
      → (has_org o (h.peers p).orgs ≡ true) × ((h.peers p).who.is_agent ≡ false) × (p < h.next)
  pub once : (p : ℕ) (o : Text) → count_where (λ x. x == p) (h.org_peers o) ≤ 1

-- What can be seen of the hub is the view.
pub record Shows (h : Hub) (v : View) : Type 0 where
  pub next : h.next ≡ v.next
  pub who : (p : ℕ) → (h.peers p).who ≡ v.who p
  pub hears : (p : ℕ) (o : Text) → has_peer p (h.org_peers o) ≡ v.hears p o
  pub queue : (p : ℕ) → (h.peers p).queue ≡ v.queue p
  pub current : (a : ℕ) → h.agent_peers a ≡ v.current a

abbrev pub Simulates : Hub → View → Type 0
Simulates h v = Valid h × Shows h v

-- What can be seen of a hub.
abbrev pub view_of : Hub → View
view_of h = record {
  next = h.next;
  who = λ p. (h.peers p).who;
  hears = λ p o. has_peer p (h.org_peers o);
  queue = λ p. (h.peers p).queue;
  current = h.agent_peers;
}

pub Shows-view_of : (h : Hub) → Shows h (view_of h)
Shows-view_of h = record {
  next = refl;
  who = λ p. refl;
  hears = λ p o. refl;
  queue = λ p. refl;
  current = λ a. refl;
}

pub view_of-eq : (h : Hub) (v : View) → Shows h v → view_of h ≡ v
view_of-eq h v s i = record {
  next = s.next i;
  who = λ p. s.who p i;
  hears = λ p o. s.hears p o i;
  queue = λ p. s.queue p i;
  current = λ a. s.current a i;
}
