-- ===== src/Hub/Queues.antt =====
-- What a delivery to a list of peers does to each of them.
use db_backup_app.Base.{
  ℕ, ◌≤◌, ◌≡◌, refl, ap, ◌∙◌, inl, inr, false, List, [], ◌∷◌, ◌++◌, arith, ◌==◌, ==_refl, ==_iff,
  ltb, if◌then◌else◌, count_where, length, Bool-cases,
}
use db_backup_app.Hub.{Event, Peer, has_peer, offer, deliver}

-- A queue after an event was offered to it.
abbrev pub enqueue : Event → List Event → List Event
enqueue ev queue = if ltb (length queue) 64 then queue ++ ev ∷ [] else queue

module _ (ev : Event) where
  offer-who : (p q : ℕ) (peers : ℕ → Peer) → (offer p ev peers q).who ≡ (peers q).who
  unfolding offer
  offer-who p q peers = elim (Bool-cases (q == p)) [
    | inl e ↦ rw e (ground (arith, ap (λ k. (peers k).who) ((==_iff q p).0 e)))
    | inr e ↦ rw e refl
  ]

  offer-orgs : (p q : ℕ) (peers : ℕ → Peer) → (offer p ev peers q).orgs ≡ (peers q).orgs
  unfolding offer
  offer-orgs p q peers = elim (Bool-cases (q == p)) [
    | inl e ↦ rw e (ground (arith, ap (λ k. (peers k).orgs) ((==_iff q p).0 e)))
    | inr e ↦ rw e refl
  ]

  offer-queue_other :
      (p q : ℕ) (peers : ℕ → Peer) → (q == p) ≡ false → (offer p ev peers q).queue ≡ (peers q).queue
  unfolding offer
  offer-queue_other p q peers e = rw e refl

  offer-queue_self :
      (p : ℕ) (peers : ℕ → Peer) → (offer p ev peers p).queue ≡ enqueue ev (peers p).queue
  unfolding offer
  offer-queue_self p peers = ground (arith, ==_refl p)

  pub deliver-who :
      (ps : List ℕ) (q : ℕ) (peers : ℕ → Peer) → (deliver ev ps peers q).who ≡ (peers q).who
  unfolding deliver
  deliver-who [] q peers = refl
  deliver-who (p ∷ ps) q peers = deliver-who ps q (offer p ev peers) ∙ offer-who p q peers

  pub deliver-orgs :
      (ps : List ℕ) (q : ℕ) (peers : ℕ → Peer) → (deliver ev ps peers q).orgs ≡ (peers q).orgs
  unfolding deliver
  deliver-orgs [] q peers = refl
  deliver-orgs (p ∷ ps) q peers = deliver-orgs ps q (offer p ev peers) ∙ offer-orgs p q peers

  deliver-absent :
      (ps : List ℕ) (q : ℕ) (peers : ℕ → Peer)
      → count_where (λ x. x == q) ps ≡ 0
      → (deliver ev ps peers q).queue ≡ (peers q).queue
  unfolding deliver
  deliver-absent [] q peers h = refl
  deliver-absent (p ∷ ps) q peers h =
      deliver-absent ps q (offer p ev peers) (ground arith)
      ∙ offer-queue_other p q peers (ground arith)

  -- Each peer of a list without repetitions is offered the event once, and nobody else is.
  pub deliver-queue :
      (ps : List ℕ) (q : ℕ) (peers : ℕ → Peer)
      → count_where (λ x. x == q) ps ≤ 1
      → (deliver ev ps peers q).queue
        ≡ (if has_peer q ps then enqueue ev (peers q).queue else (peers q).queue)
  unfolding deliver
  deliver-queue [] q peers h = refl
  deliver-queue (p ∷ ps) q peers h = elim (Bool-cases (p == q)) [
    | inl e ↦ rw e (
        deliver-absent ps q (offer p ev peers) (ground arith)
        ∙ ap (λ k. (offer k ev peers q).queue) ((==_iff p q).0 e)
        ∙ offer-queue_self q peers)
    | inr e ↦ rw e (
        deliver-queue ps q (offer p ev peers) (ground arith)
        ∙ ap (λ l. if has_peer q ps then enqueue ev l else l)
            (offer-queue_other p q peers (ground arith)))
  ]
