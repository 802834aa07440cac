-- ===== src/Alerts/Coalescing.antt =====
-- One incident, many reports: what raising an alert again and again does to the table and to the
-- outgoing messages, and what resolving by key leaves.
use db_backup_app.Base.{
  ℕ, ◌+◌, ◌≤◌, ◌≡◌, refl, sym, subst, ◌∙◌, Bool, true, false, some, List, [], ◌∷◌, ◌++◌, arith,
  Text, Option, none, text_eq_refl, is_empty, ◌==◌, ==_refl, count_where, first_where,
  first_where-zero, first_where-none, Option-cases, any-zero, length-keep, ap,
  first_where-update_where, first_where-append, count_where-append, update_where, length,
  length-append, length-update_where, keep, All, All-map, count_where-update_where-zero, inl, inr,
}
use db_backup_app.Alerts.{
  Alert, AlertInput, AlertBook, AlertType, Outgoing, broadcast, notify, dispatch, no_faults, fires,
  bump, coalesce_firing, new_alert, violates, announce, insert_alert, raise_alert, resolve_alerts,
  among, resolvable, resolve_row,
}
use db_backup_app.Notifications.{WebhookSettings, dispatch_webhook}

-- The reports of one incident, each with the new identifier and the time of its call.
pub raise_all : AlertBook → List (AlertInput × ℕ × ℕ) → AlertBook
raise_all b [] = b
raise_all b ((i, id, now) ∷ rest) = raise_all (raise_alert no_faults b i id now).0 rest

abbrev pub IsAbout : ℕ → Text → AlertInput × ℕ × ℕ → Type 0
IsAbout org key (i, id, now) = (i.organization_id ≡ org) × (i.dedup_key ≡ key)

abbrev pub is_dispatch : Outgoing → Bool
is_dispatch (dispatch org a) = true
is_dispatch _ = false

-- A call of dispatchWebhook that comes to a POST.
abbrev pub is_post : (Text → Option Text) → List WebhookSettings → Outgoing → Bool
is_post scheme settings (dispatch org a) = elim (dispatch_webhook scheme settings org) [
  | none ↦ false
  | some url ↦ true
]
is_post scheme settings _ = false

abbrev pub posts_to : Option Text → ℕ
posts_to none = 0
posts_to (some url) = 1

abbrev pub is_notify : Outgoing → Bool
is_notify (notify org s t u) = true
is_notify _ = false

counts_one : (i : AlertInput) (id now : ℕ) → (new_alert i id now).occurrence_count ≡ 1
unfolding new_alert
counts_one i id now = refl

-- A new row is handed to the webhook dispatcher once, and by an email to NotifyAlert if the input has a
-- subject.
sent-announce :
    (sent : List Outgoing) (i : AlertInput) (a : Alert)
    → (count_where is_dispatch (sent ++ announce i a) ≡ count_where is_dispatch sent + 1)
      × (count_where is_notify (sent ++ announce i a) ≤ count_where is_notify sent + 1)
unfolding announce
sent-announce sent i a = (
  ground (arith, count_where-append is_dispatch sent (announce i a)),
  ground (arith, count_where-append is_notify sent (announce i a)),
)

posts-announce :
    (scheme : Text → Option Text) (settings : List WebhookSettings) (sent : List Outgoing)
    (i : AlertInput) (a : Alert)
    → count_where (is_post scheme settings) (sent ++ announce i a)
      ≡ count_where (is_post scheme settings) sent
        + posts_to (dispatch_webhook scheme settings i.organization_id)
unfolding announce
posts-announce scheme settings sent i a =
    elim (Option-cases (dispatch_webhook scheme settings i.organization_id)) [
      | inl e ↦
          rw e (ground (arith, e, count_where-append (is_post scheme settings) sent (announce i a)))
      | inr (url, e) ↦
          rw e (ground (arith, e, count_where-append (is_post scheme settings) sent (announce i a)))
    ]

new_alert-fires :
    (org : ℕ) (key : Text)
    → is_empty key ≡ false
    → (i : AlertInput) (id now : ℕ) → IsAbout org key (i, id, now)
    → fires org key (new_alert i id now) ≡ true
unfolding new_alert
new_alert-fires org key named i id now about =
    rw (about.0, about.1) (ground (arith, named, text_eq_refl key))

module _ (org : ℕ) (key : Text) (named : is_empty key ≡ false) where
  again :
      (b : AlertBook) (i : AlertInput) (id now : ℕ) (a : Alert)
      → IsAbout org key (i, id, now)
      → first_where (fires org key) b.rows ≡ some a
      → (raise_alert no_faults b i id now).0 ≡ (record {
        rows = update_where (λ r. r.id == a.id) (bump now i.message) b.rows;
        sent = b.sent ++ broadcast (bump now i.message a) ∷ [];
      })
  unfolding raise_alert coalesce_firing
  again b i id now a about found = rw (about.0, about.1) (ground arith)

  -- The firing row of the incident after `n` more reports, with nothing sent but broadcasts.
  record Coalesced (n : ℕ) (b : AlertBook) (a : Alert) (b' : AlertBook) : Type 0 where
    no_row : length b'.rows ≡ length b.rows
    quietly :
        (q : Outgoing → Bool)
        → ((a : Alert) → q (broadcast a) ≡ false)
        → count_where q b'.sent ≡ count_where q b.sent
    last : Alert
    fires_still : first_where (fires org key) b'.rows ≡ some last
    counted : last.occurrence_count ≡ a.occurrence_count + n

  again_once :
      (b : AlertBook) (i : AlertInput) (id now : ℕ) (a : Alert)
      → IsAbout org key (i, id, now)
      → first_where (fires org key) b.rows ≡ some a
      → Coalesced 1 b a (raise_alert no_faults b i id now).0
  unfolding bump
  again_once b i id now a about found = rw (again b i id now a about found) (record {
    no_row = length-update_where (λ r. r.id == a.id) (bump now i.message) b.rows;
    quietly = λ q silent. ground (
      arith,
      count_where-append q b.sent (broadcast (bump now i.message a) ∷ []),
      silent (bump now i.message a),
    );
    last = bump now i.message a;
    fires_still =
        first_where-update_where (fires org key) (λ r. r.id == a.id) (bump now i.message) b.rows a
          (λ r. refl) found (==_refl a.id);
    counted = omega arith;
  })

  again-All :
      (b : AlertBook) (is : List (AlertInput × ℕ × ℕ)) (a : Alert)
      → All (IsAbout org key) is
      → first_where (fires org key) b.rows ≡ some a
      → Coalesced (length is) b a (raise_all b is)
  unfolding raise_all
  again-All b [] a about found = record {
    no_row = refl;
    quietly = λ q silent. refl;
    last = a;
    fires_still = found;
    counted = omega arith;
  }
  again-All b ((i, id, now) ∷ rest) a about found =
      let one = again_once b i id now a about.0 found in
      let more =
        again-All (raise_alert no_faults b i id now).0 rest one.last about.1 one.fires_still in
      record {
        no_row = more.no_row ∙ one.no_row;
        quietly = λ q silent. more.quietly q silent ∙ one.quietly q silent;
        last = more.last;
        fires_still = more.fires_still;
        counted = omega (arith, more.counted, one.counted);
      }

  fresh :
      (b : AlertBook) (i : AlertInput) (id now : ℕ)
      → IsAbout org key (i, id, now)
      → count_where (fires org key) b.rows ≡ 0
      → (raise_alert no_faults b i id now).0 ≡ (record {
        rows = b.rows ++ new_alert i id now ∷ [];
        sent = b.sent ++ announce i (new_alert i id now);
      })
  unfolding raise_alert coalesce_firing insert_alert violates new_alert
  fresh b i id now about quiet =
      let org_eq : i.organization_id ≡ org = about.0 in
      let key_eq : i.dedup_key ≡ key = about.1 in
      ground (
        arith,
        subst (λ k. is_empty k ≡ false) (sym about.1) named,
        first_where-zero (fires i.organization_id i.dedup_key) b.rows (rw (about.0, about.1) quiet),
        any-zero (fires i.organization_id i.dedup_key) b.rows (rw (about.0, about.1) quiet),
      )

  raise_all-fresh :
      (b : AlertBook) (i : AlertInput) (id now : ℕ) (rest : List (AlertInput × ℕ × ℕ))
      → IsAbout org key (i, id, now)
      → count_where (fires org key) b.rows ≡ 0
      → raise_all b ((i, id, now) ∷ rest)
        ≡ raise_all
            (record {
              rows = b.rows ++ new_alert i id now ∷ [];
              sent = b.sent ++ announce i (new_alert i id now);
            })
            rest
  unfolding raise_all
  raise_all-fresh b i id now rest about quiet =
      ap (λ c. raise_all c rest) (fresh b i id now about quiet)

  -- From a table where no alert with the key fires, the reports of one incident make one row, which
  -- fires and counts all of them. The webhook dispatcher is called exactly once, so that there is one POST if
  -- the settings of the organization want one and none otherwise; NotifyAlert is called at most once.
  pub one_incident_one_row :
      (scheme : Text → Option Text) (settings : List WebhookSettings) (b : AlertBook)
      (i : AlertInput) (id now : ℕ) (rest : List (AlertInput × ℕ × ℕ))
      → IsAbout org key (i, id, now)
      → All (IsAbout org key) rest
      → count_where (fires org key) b.rows ≡ 0
      → let b' = raise_all b ((i, id, now) ∷ rest) in
        (length b'.rows ≡ length b.rows + 1)
        × (count_where is_dispatch b'.sent ≡ count_where is_dispatch b.sent + 1)
        × (count_where (is_post scheme settings) b'.sent
            ≡ count_where (is_post scheme settings) b.sent
              + posts_to (dispatch_webhook scheme settings org))
        × (count_where is_notify b'.sent ≤ count_where is_notify b.sent + 1)
        × (a : Alert) × (first_where (fires org key) b'.rows ≡ some a)
        × (a.occurrence_count ≡ length rest + 1)
  one_incident_one_row scheme settings b i id now rest about others quiet =
      let c = again-All b1 rest a others found in
      rw (raise_all-fresh b i id now rest about quiet) (
        omega (arith, c.no_row, length-append b.rows (a ∷ [])),
        omega (arith, c.quietly is_dispatch (λ _. refl), sent-announce b.sent i a),
        c.quietly (is_post scheme settings) (λ _. refl)
            ∙ subst
                (λ o.
                  count_where (is_post scheme settings) b1.sent
                  ≡ count_where (is_post scheme settings) b.sent
                    + posts_to (dispatch_webhook scheme settings o))
                about.0 (posts-announce scheme settings b.sent i a),
        omega (arith, c.quietly is_notify (λ _. refl), sent-announce b.sent i a),
        c.last,
        c.fires_still,
        omega (arith, c.counted, counts_one i id now),
      )
    where
      a : Alert
      a = new_alert i id now

      b1 : AlertBook
      b1 = record { rows = b.rows ++ a ∷ []; sent = b.sent ++ announce i a }

      found : first_where (fires org key) b1.rows ≡ some a
      found =
          first_where-append (fires org key) b.rows a quiet
            (new_alert-fires org key named i id now about)

  -- After raising, an alert with the key fires.
  pub raise_alert-fires :
      (b : AlertBook) (i : AlertInput) (id now : ℕ)
      → IsAbout org key (i, id, now)
      → (a : Alert) × (first_where (fires org key) (raise_alert no_faults b i id now).0.rows
          ≡ some a)
  unfolding raise_alert raise_all
  raise_alert-fires b i id now about = elim (Option-cases (first_where (fires org key) b.rows)) [
    | inl none_found ↦
        let one =
          one_incident_one_row (λ t. none) [] b i id now [] about tt
            (first_where-none (fires org key) b.rows none_found) in
        (one.4, one.5)
    | inr (a, found) ↦ let c = again_once b i id now a about found in (c.last, c.fires_still)
  ]

among-keep :
    (p : Alert → Bool) (rows : List Alert)
    → All (λ r. p r ≡ true → among (keep p rows) r ≡ true) rows
among-keep p [] = tt
among-keep p (a ∷ rows) =
    (ground (arith, ==_refl a.id), All-map _ _ rows (λ r e. ground arith) (among-keep p rows))

-- Resolving by a key that is not empty, with no failing statement, leaves no alert of that
-- organization, type and key firing, and counts those that did.
pub resolve_alerts-clears :
    (b : AlertBook) (org : ℕ) (type : AlertType) (key : Text) (now : ℕ)
    → is_empty key ≡ false
    → let (b', n) = resolve_alerts no_faults b org type key now in
      (count_where (resolvable org type key) b'.rows ≡ 0)
      × (n ≡ count_where (resolvable org type key) b.rows)
unfolding resolve_alerts
resolve_alerts-clears b org type key now named = ground (
  arith,
  named,
  length-keep (resolvable org type key) b.rows,
  count_where-update_where-zero (resolvable org type key)
      (among (keep (resolvable org type key) b.rows)) (resolve_row now) b.rows (λ r _. ground arith)
      (among-keep (resolvable org type key) b.rows),
)
