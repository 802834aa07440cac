-- ===== src/Hub/Entering.antt =====
-- A socket that opens, and changes of one peer.
use db_backup_app.Base.{
  ℕ, suc, ◌≤◌, ◌≡◌, refl, sym, ap, ◌∙◌, inl, inr, true, false, Option, none, some, [], arith, ◌==◌,
  ==_iff, if◌then◌else◌, Text, Bool-cases,
}
use db_backup_app.Hub.{Identity, Peer, Hub, has_peer, set_at, enter, new_peer, close_old}
use db_backup_app.Hub.View.{enters, spec, Valid, Simulates, view_of}

pub field_at :
    {B : Type 0} (g : Peer → B) (p q : ℕ) (x : Peer) (f : ℕ → Peer)
    → g (set_at p x f q) ≡ (if q == p then g x else g (f q))
field_at g p q x f = elim (Bool-cases (q == p)) [ inl e ↦ rw e refl | inr e ↦ rw e refl ]

-- A change to one peer that leaves a field alone.
pub field_kept :
    {B : Type 0} (g : Peer → B) (p q : ℕ) (x : Peer) (f : ℕ → Peer)
    → g x ≡ g (f p)
    → g (set_at p x f q) ≡ g (f q)
field_kept g p q x f h = elim (Bool-cases (q == p)) [
  | inl e ↦ rw e (h ∙ ap (λ k. g (f k)) (sym ((==_iff q p).0 e)))
  | inr e ↦ rw e refl
]

close_old-kept :
    {B : Type 0} (g : Peer → B) (old : Option ℕ) (q : ℕ) (f : ℕ → Peer)
    → ((x : Peer) → g (record x { closed = true }) ≡ g x)
    → g (close_old old f q) ≡ g (f q)
close_old-kept g none q f h = refl
close_old-kept g (some p) q f h = field_kept g p q (record (f p) { closed = true }) f (h (f p))

unheard : (h : Hub) → Valid h → (o : Text) → has_peer h.next (h.org_peers o) ≡ false
unheard h valid o = elim (Bool-cases (has_peer h.next (h.org_peers o))) [
  | inl e ↦ absurd (omega (arith, (valid.known h.next o e).2))
  | inr e ↦ e
]

-- After some peers changed, none of those that are heard in what the sets say of them.
pub peers-Valid :
    (h : Hub) (peers : ℕ → Peer) (next : ℕ) (agents : ℕ → Option ℕ)
    → Valid h
    → h.next ≤ next
    → ((p : ℕ) (o : Text)
        → has_peer p (h.org_peers o) ≡ true
        → ((peers p).orgs ≡ (h.peers p).orgs) × ((peers p).who ≡ (h.peers p).who))
    → Valid (record { next = next; peers = peers; org_peers = h.org_peers; agent_peers = agents })
peers-Valid h peers next agents valid le same = record {
  known = λ p o m.
      let k = valid.known p o m in
      let s = same p o m in (rw s.0 k.0, rw s.1 k.1, omega (arith, k.2, le));
  once = valid.once;
}

heard_at :
    (h : Hub) (valid : Valid h) (q : ℕ) (o : Text)
    → has_peer q (h.org_peers o) ≡ (if q == h.next then false else has_peer q (h.org_peers o))
heard_at h valid q o = elim (Bool-cases (q == h.next)) [
  | inl e ↦ rw e (ap (λ k. has_peer k (h.org_peers o)) ((==_iff q h.next).0 e) ∙ unheard h valid o)
  | inr e ↦ rw e refl
]

not_next :
    (h : Hub) (valid : Valid h) (q : ℕ) (o : Text)
    → has_peer q (h.org_peers o) ≡ true
    → (q == h.next) ≡ false
not_next h valid q o m = ground (arith, (valid.known q o m).2)

entered :
    (who : Identity) (h : Hub) (peers : ℕ → Peer) (agents : ℕ → Option ℕ)
    → Valid h
    → ((q : ℕ) → (peers q).who ≡ (h.peers q).who)
    → ((q : ℕ) → (peers q).orgs ≡ (h.peers q).orgs)
    → ((q : ℕ) → (peers q).queue ≡ (h.peers q).queue)
    → Simulates
        (record {
          next = suc h.next;
          peers = set_at h.next (new_peer who) peers;
          org_peers = h.org_peers;
          agent_peers = agents;
        })
        (record {
          next = suc h.next;
          who = set_at h.next who (λ p. (h.peers p).who);
          hears = λ q o. if q == h.next then false else has_peer q (h.org_peers o);
          queue = set_at h.next [] (λ p. (h.peers p).queue);
          current = agents;
        })
entered who h peers agents valid same_who same_orgs same_queue = (
  peers-Valid h (set_at h.next (new_peer who) peers) (suc h.next) agents valid (omega arith)
      (λ p o m.
        let away = not_next h valid p o m in
        (
          field_at (λ x. x.orgs) h.next p (new_peer who) peers ∙ rw away (same_orgs p),
          field_at (λ x. x.who) h.next p (new_peer who) peers ∙ rw away (same_who p),
        )),
  record {
    next = refl;
    who = λ q.
        field_at (λ x. x.who) h.next q (new_peer who) peers
        ∙ ap (λ w. if q == h.next then who else w) (same_who q);
    hears = heard_at h valid;
    queue = λ q.
        field_at (λ x. x.queue) h.next q (new_peer who) peers
        ∙ ap (λ w. if q == h.next then [] else w) (same_queue q);
    current = λ a. refl;
  },
)

pub enter-Simulates :
    (who : Identity) (h : Hub) → Valid h → Simulates (enter who h) (spec (view_of h) (enters who))
unfolding enter spec
enter-Simulates who h valid = elim (Bool-cases who.is_agent) [
  | inl e ↦ simp e (
      entered who h (close_old (h.agent_peers who.agent) h.peers)
        (set_at who.agent (some h.next) h.agent_peers) valid
        (λ q. close_old-kept (λ x. x.who) (h.agent_peers who.agent) q h.peers (λ x. refl))
        (λ q. close_old-kept (λ x. x.orgs) (h.agent_peers who.agent) q h.peers (λ x. refl))
        (λ q. close_old-kept (λ x. x.queue) (h.agent_peers who.agent) q h.peers (λ x. refl)))
  | inr e ↦ simp e (entered who h h.peers h.agent_peers valid (λ q. refl) (λ q. refl) (λ q. refl))
]
