-- ===== src/Hub/Membership.antt =====
-- Dashboards that subscribe, and sockets that close.
use db_backup_app.Base.{
  ℕ, ◌≤◌, ◌<◌, ◌≡◌, refl, sym, ap, subst, ◌∙◌, inl, inr, true, false, ◌&&◌, ◌||◌, Option, none, ◌∷◌,
  arith, ◌==◌, ==_refl, if◌then◌else◌, Text, count_where, Bool-cases, text_eq, text_eq_sound,
  text_eq_refl, branch,
}
use db_backup_app.Hub.{
  Peer, Hub, has_peer, has_org, set_at, set_text, leave, is_this, remove_peer, add_peer,
  remove_from,
}
use db_backup_app.Hub.Sets.{
  has_peer-remove_from, count-remove_from, has_peer-add_peer, count-add_peer,
}
use db_backup_app.Hub.View.{Valid, Simulates, view_of}
use db_backup_app.Hub.Entering.{field_at, field_kept}

removed :
    (p : ℕ) (h : Hub)
    → Valid h
    → (q : ℕ) (o : Text)
    → has_peer q (remove_from p (h.peers p).orgs h.org_peers o)
      ≡ (if q == p then false else has_peer q (h.org_peers o))
removed p h valid q o =
    has_peer-remove_from p q (h.peers p).orgs h.org_peers o ∙ elim (Bool-cases (q == p)) [
      | inl e ↦ rw e (elim (Bool-cases (has_peer q (h.org_peers o))) [
        | inl m ↦ rw (m, knows e m) refl
        | inr m ↦ rw m (ground arith)
      ])
      | inr e ↦ rw e refl
    ]
  where
    knows : (q == p) ≡ true → has_peer q (h.org_peers o) ≡ true → has_org o (h.peers p).orgs ≡ true
    knows e m =
        let same : q ≡ p = ground arith in
        subst (λ k. has_org o (h.peers k).orgs ≡ true) same (valid.known q o m).0

removed-Valid :
    (p : ℕ) (agents : ℕ → Option ℕ) (h : Hub)
    → Valid h
    → Valid
        (record h { org_peers = remove_from p (h.peers p).orgs h.org_peers; agent_peers = agents })
removed-Valid p agents h valid = record {
  known = λ q o m.
      valid.known q o (ground (arith, has_peer-remove_from p q (h.peers p).orgs h.org_peers o));
  once = λ q o. omega (arith, valid.once q o, count-remove_from p q (h.peers p).orgs h.org_peers o);
}

pub leave-Simulates :
    (p : ℕ) (h : Hub)
    → Valid h
    → Simulates (leave p h) (record (view_of h) {
      hears = λ q o. if q == p then false else has_peer q (h.org_peers o);
      current =
          if (h.peers p).who.is_agent && is_this p (h.agent_peers (h.peers p).who.agent)
          then set_at (h.peers p).who.agent none h.agent_peers
          else h.agent_peers;
    })
unfolding leave remove_peer
leave-Simulates p h valid =
    elim (Bool-cases
      ((h.peers p).who.is_agent && is_this p (h.agent_peers (h.peers p).who.agent))) [
        | inl e ↦ rw e (
          removed-Valid p (set_at (h.peers p).who.agent none h.agent_peers) h valid,
          record {
            next = refl;
            who = λ q. refl;
            hears = removed p h valid;
            queue = λ q. refl;
            current = λ a. refl;
          },
        )
        | inr e ↦ rw e (
          removed-Valid p h.agent_peers h valid,
          record {
            next = refl;
            who = λ q. refl;
            hears = removed p h valid;
            queue = λ q. refl;
            current = λ a. refl;
          },
        )
      ]

pub subscribed :
    (p : ℕ) (org : Text) (h : Hub)
    → Valid h
    → p < h.next
    → (h.peers p).who.is_agent ≡ false
    → Simulates
        (record h {
          org_peers = set_text org (add_peer p (h.org_peers org)) h.org_peers;
          peers = set_at p (record (h.peers p) { orgs = org ∷ (h.peers p).orgs }) h.peers;
        })
        (record (view_of h) {
          hears = λ q o. if p == q && text_eq o org then true else has_peer q (h.org_peers o);
        })
subscribed p org h valid entered_before dashboard = (
  record {
    known = λ q o m. knows q o (sym (added q o) ∙ m);
    once = λ q o.
        branch (λ l. count_where (λ x. x == q) l ≤ 1) (text_eq o org)
          (λ _. count-add_peer p q (h.org_peers org) (valid.once q org)) (λ _. valid.once q o);
  },
  record {
    next = refl;
    who = λ q. who_kept q;
    hears = added;
    queue = λ q. field_kept (λ x. x.queue) p q _ h.peers refl;
    current = λ a. refl;
  },
)
  where
    new : Peer
    new = record (h.peers p) { orgs = org ∷ (h.peers p).orgs }

    who_kept : (q : ℕ) → (set_at p new h.peers q).who ≡ (h.peers q).who
    who_kept q = field_kept (λ x. x.who) p q new h.peers refl

    added :
        (q : ℕ) (o : Text)
        → has_peer q (set_text org (add_peer p (h.org_peers org)) h.org_peers o)
          ≡ (if p == q && text_eq o org then true else has_peer q (h.org_peers o))
    added q o = elim (Bool-cases (text_eq o org)) [
      | inl e ↦ rw e (
          has_peer-add_peer p q (h.org_peers org)
          ∙ ground (arith, ap (λ k. has_peer q (h.org_peers k)) (text_eq_sound o org e)))
      | inr e ↦ rw e (ground arith)
    ]

    orgs_now :
        (q : ℕ) (o : Text)
        → has_org o (set_at p new h.peers q).orgs ≡ (
            if q == p
            then text_eq org o || has_org o (h.peers p).orgs
            else has_org o (h.peers q).orgs)
    orgs_now q o = field_at (λ x. has_org o x.orgs) p q new h.peers

    knows :
        (q : ℕ) (o : Text)
        → (if p == q && text_eq o org then true else has_peer q (h.org_peers o)) ≡ true
        → (has_org o (set_at p new h.peers q).orgs ≡ true)
          × ((set_at p new h.peers q).who.is_agent ≡ false)
          × (q < h.next)
    knows q o m = elim (Bool-cases (p == q && text_eq o org)) [
      | inl e ↦
          let same : q ≡ p = ground arith in
          (
            orgs_now q o
                ∙ rw same (
                    ground (
                      arith,
                      ==_refl p,
                      ap (λ k. text_eq org k) (text_eq_sound o org (ground arith)),
                      text_eq_refl org,
                    )),
            ap (λ w. w.is_agent) (who_kept q) ∙ ap (λ k. (h.peers k).who.is_agent) same ∙ dashboard,
            omega (arith, same, entered_before),
          )
      | inr e ↦
          let k = valid.known q o (sym (rw e refl) ∙ m) in
          (
            orgs_now q o
                ∙ branch (λ b. b ≡ true) (q == p)
                    (λ s.
                      let same : q ≡ p = ground arith in
                      ground (arith, subst (λ j. has_org o (h.peers j).orgs ≡ true) same k.0))
                    (λ _. k.0),
            ap (λ w. w.is_agent) (who_kept q) ∙ k.1,
            k.2,
          )
    ]
