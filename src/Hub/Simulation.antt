-- ===== src/Hub/Simulation.antt =====
-- The hub against its specification.
use db_backup_app.Base.{
  ℕ, ◌<◌, ◌≡◌, refl, ap, ◌∙◌, inl, inr, Bool, true, false, List, [], ◌∷◌, arith, ◌==◌,
  if◌then◌else◌, ltb, Text, Bool-cases, Option-cases, is_empty, length,
}
use db_backup_app.Hub.{
  Event, Peer, Hub, Directory, Frame, subscribes, logs, other, set_at, publish, send_to_agent,
  may_subscribe, subscribe, relayed, relay_agent_log, handle_message, write_next, new_hub,
}
use db_backup_app.Hub.Queues.{deliver-who, deliver-orgs, deliver-queue}
use db_backup_app.Hub.View.{
  Op, enters, leaves, says, publishes, commands, writes, step, run, View, publish_view, says_view,
  spec, replay, Valid, Simulates, view_of, Shows-view_of, view_of-eq,
}
use db_backup_app.Hub.Entering.{field_at, field_kept, peers-Valid, enter-Simulates}
use db_backup_app.Hub.Membership.{leave-Simulates, subscribed}

publish-Simulates :
    (org : Text) (ev : Event) (h : Hub) (v : View)
    → Simulates h v
    → Simulates (publish org ev h) (publish_view org ev v)
unfolding publish
publish-Simulates org ev h v (valid, shows) = elim (Bool-cases (is_empty org)) [
  | inl e ↦ rw e (valid, shows)
  | inr e ↦ rw e (
    record {
      known = λ p o m.
          let k = valid.known p o m in
          (
            rw (deliver-orgs (record ev { org = org }) (h.org_peers org) p h.peers) k.0,
            rw (deliver-who (record ev { org = org }) (h.org_peers org) p h.peers) k.1,
            k.2,
          );
      once = valid.once;
    },
    record {
      next = shows.next;
      who = λ p. deliver-who (record ev { org = org }) (h.org_peers org) p h.peers ∙ shows.who p;
      hears = shows.hears;
      queue = λ p.
          deliver-queue (record ev { org = org }) (h.org_peers org) p h.peers (valid.once p org)
          ∙ rw (shows.hears p org, shows.queue p) refl;
      current = shows.current;
    },
  )
]

-- Both sides take the same branch.
both :
    (b : Bool) {x y : Hub} {v w : View}
    → (b ≡ true → Simulates x v)
    → (b ≡ false → Simulates y w)
    → Simulates (if b then x else y) (if b then v else w)
both true f g = f refl
both false f g = g refl

publish-view_of :
    (org : Text) (ev : Event) (h : Hub)
    → Valid h
    → Simulates (publish org ev h) (publish_view org ev (view_of h))
publish-view_of org ev h valid = publish-Simulates org ev h (view_of h) (valid, Shows-view_of h)

says-Simulates :
    (d : Directory) (p : ℕ) (frame : Frame) (h : Hub)
    → Valid h
    → p < h.next
    → Simulates (handle_message d p frame h) (says_view d p frame (view_of h))
unfolding handle_message subscribe relay_agent_log
says-Simulates d p (subscribes org) h valid before =
    both (h.peers p).who.is_agent (λ _. (valid, Shows-view_of h))
      (λ e.
        both (may_subscribe d (h.peers p).who org) (λ _. subscribed p org h valid before e)
          (λ _. (valid, Shows-view_of h)))
says-Simulates d p (logs payload) h valid before =
    both (h.peers p).who.is_agent
      (λ _. elim (Option-cases (relayed d (h.peers p).who payload)) [
        | inl r ↦ rw (r, relay_agent_log) (valid, Shows-view_of h)
        | inr (ev, r) ↦
            rw (r, relay_agent_log)
              (publish-view_of (d.uuid_text (h.peers p).who.organization) ev h valid)
      ])
      (λ _. (valid, Shows-view_of h))
says-Simulates d p other h valid before = (valid, Shows-view_of h)

-- A change of one queue.
queued :
    (p : ℕ) (x : Peer) (queue : List Event) (h : Hub)
    → Valid h
    → x.who ≡ (h.peers p).who
    → x.orgs ≡ (h.peers p).orgs
    → x.queue ≡ queue
    → Simulates
        (record h { peers = set_at p x h.peers })
        (record (view_of h) { queue = set_at p queue (λ q. (h.peers q).queue) })
queued p x queue h valid same_who same_orgs same_queue = (
  peers-Valid h (set_at p x h.peers) h.next h.agent_peers valid (omega arith) (λ q o m. (
    field_kept (λ y. y.orgs) p q x h.peers same_orgs,
    field_kept (λ y. y.who) p q x h.peers same_who,
  )),
  record {
    next = refl;
    who = λ q. field_kept (λ y. y.who) p q x h.peers same_who;
    hears = λ q o. refl;
    queue = λ q.
        field_at (λ y. y.queue) p q x h.peers
        ∙ ap (λ l. if q == p then l else (h.peers q).queue) same_queue;
    current = λ a. refl;
  },
)

commands-Simulates :
    (a : ℕ) (ev : Event) (h : Hub)
    → Valid h
    → Simulates (send_to_agent a ev h) (spec (view_of h) (commands a ev))
unfolding send_to_agent spec
commands-Simulates a ev h valid = elim (Option-cases (h.agent_peers a)) [
  | inl e ↦ rw (e, send_to_agent) (valid, Shows-view_of h)
  | inr (p, e) ↦
      rw (e, send_to_agent)
        (elim (Bool-cases (ltb (length (h.peers p).queue) 64)) [
          | inl room ↦ rw room (queued p _ _ h valid refl refl refl)
          | inr full ↦ rw full (queued p _ _ h valid refl refl refl)
        ])
]

-- A step of the hub is a step of the specification.
step-Simulates : (h : Hub) (op : Op) → Valid h → Simulates (step h op) (spec (view_of h) op)
unfolding step spec write_next
step-Simulates h (enters who) valid = enter-Simulates who h valid
step-Simulates h (leaves p) valid = elim (Bool-cases (ltb p h.next)) [
  | inl e ↦ rw e (leave-Simulates p h valid)
  | inr e ↦ rw e (valid, Shows-view_of h)
]
step-Simulates h (says d p frame) valid = elim (Bool-cases (ltb p h.next)) [
  | inl e ↦ rw e (says-Simulates d p frame h valid (ground arith))
  | inr e ↦ rw e (valid, Shows-view_of h)
]
step-Simulates h (publishes org ev) valid = publish-view_of org ev h valid
step-Simulates h (commands a ev) valid = commands-Simulates a ev h valid
step-Simulates h (writes p) valid = queued p _ _ h valid refl refl refl

-- After any sockets that opened and closed, frames, events and commands, in any order, what can be seen
-- of the hub is what the specification says, and only dashboards are in the sets of the organizations.
pub run_refines :
    (h : Hub) (ops : List Op)
    → Valid h
    → Valid (run h ops) × (view_of (run h ops) ≡ replay (view_of h) ops)
unfolding run replay
run_refines h [] valid = (valid, refl)
run_refines h (op ∷ ops) valid =
    let (next_valid, shows) = step-Simulates h op valid in
    let ih = run_refines (step h op) ops next_valid in
    (ih.0, ih.1 ∙ ap (λ v. replay v ops) (view_of-eq (step h op) (spec (view_of h) op) shows))

pub new_hub-Valid : Valid new_hub
new_hub-Valid = record { known = λ p o m. absurd (cc); once = λ p o. omega arith }
