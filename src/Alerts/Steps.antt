-- ===== src/Alerts/Steps.antt =====
-- Every request keeps to the lifecycle of alerts.
use db_backup_app.Base.{
  ℕ, ◌≡◌, refl, ◌||◌, ◌&&◌, Bool, true, Option, some, none, List, arith, Text, ◌==◌, is_empty,
  length, branch, Bool-cases, Option-cases, inl, inr, keep, count_where, first_where, All-map,
  subst,
}
use db_backup_app.Alerts.{
  Alert, AlertInput, AlertBook, AlertType, AlertStatus, firing, acknowledged, resolved, Faults,
  is_firing, is_open, bump, coalesce_firing, new_alert, violates, insert_alert, raise_alert,
  resolve_alerts, transition_alert, is_kept, step, ack_row, Request, raises, resolves_key, acks,
  resolves, reads, reads_all, prunes, among, resolvable, resolve_row, ack, resolve, mark_read,
  mark_all_read, prune_alerts, fires, Reply,
}
use db_backup_app.Alerts.Lifecycle.{
  ◌⇢◌, stays, taken_up, put_right, closed, Moves, Follows, Follows-refl, Follows-append,
  Follows-update_where, Follows-keep, every, UniqueIds, among-found,
}

-- A row that is closed now.
firing-resolves : (s : AlertStatus) → is_open s ≡ true → s ⇢ resolved
firing-resolves firing h = put_right
firing-resolves acknowledged h = closed
firing-resolves resolved h = absurd (cc)

resolve_row-Moves : (now : ℕ) (a : Alert) → is_open a.status ≡ true → Moves a (resolve_row now a)
resolve_row-Moves now a h = record {
  same_id = refl;
  same_organization = refl;
  same_key = refl;
  forward = firing-resolves a.status h;
  counted = omega arith;
  sealed = λ e. absurd (open_resolved a.status e h);
}
  where
    open_resolved : (s : AlertStatus) → s ≡ resolved → is_open s ≡ true → ⊥
    open_resolved s e h = absurd (cc)

firing-taken_up : (s : AlertStatus) → is_firing s ≡ true → s ⇢ acknowledged
firing-taken_up firing h = taken_up
firing-taken_up acknowledged h = absurd (cc)
firing-taken_up resolved h = absurd (cc)

ack_row-Moves :
    (user now : ℕ) (a : Alert) → is_firing a.status ≡ true → Moves a (ack_row user now a)
ack_row-Moves user now a h = record {
  same_id = refl;
  same_organization = refl;
  same_key = refl;
  forward = firing-taken_up a.status h;
  counted = omega arith;
  sealed = λ _. refl;
}

bump-Moves : (now : ℕ) (message : Text) (a : Alert) → Moves a (bump now message a)
unfolding bump
bump-Moves now message a = record {
  same_id = refl;
  same_organization = refl;
  same_key = refl;
  forward = stays;
  counted = omega arith;
  sealed = λ _. refl;
}

read-Moves : (a : Alert) → Moves a (record a { read = true })
read-Moves a = record {
  same_id = refl;
  same_organization = refl;
  same_key = refl;
  forward = stays;
  counted = omega arith;
  sealed = λ _. refl;
}

abbrev Kept : AlertBook → Option (AlertBook × Alert) → Type 0
Kept b none = Unit
Kept b (some r) = Follows b.rows r.0.rows

coalesce_firing-Kept :
    (f : Faults) (b : AlertBook) (org : ℕ) (key message : Text) (now : ℕ)
    → Kept b (coalesce_firing f b org key message now)
unfolding coalesce_firing
coalesce_firing-Kept f b org key message now =
    branch (Kept b) (is_empty key) (λ _. tt)
      (λ _. elim (Option-cases (first_where (fires org key) b.rows)) [
        | inl e ↦ rw e tt
        | inr (a, e) ↦ rw e (
            branch (Kept b) f.update_fails (λ _. tt)
              (λ _.
                Follows-update_where (λ r. r.id == a.id) (bump now message) b.rows
                  (every _ b.rows (λ r _. bump-Moves now message r))))
      ])

abbrev Leaves : AlertBook → AlertBook → Type 0
Leaves b b' = Follows b.rows b'.rows

coalesced :
    (f : Faults) (b : AlertBook) (org : ℕ) (key message : Text) (now : ℕ) (r : AlertBook × Alert)
    → coalesce_firing f b org key message now ≡ some r
    → Leaves b r.0
coalesced f b org key message now r e =
    subst (Kept b) e (coalesce_firing-Kept f b org key message now)

new_alert-fresh :
    (i : AlertInput) (id now : ℕ)
    → ((new_alert i id now).status ≡ firing) × ((new_alert i id now).occurrence_count ≡ 1)
unfolding new_alert
new_alert-fresh i id now = (refl, refl)

insert_alert-Leaves :
    (f : Faults) (b : AlertBook) (i : AlertInput) (id now : ℕ)
    → Leaves b (insert_alert f b i id now).0
unfolding insert_alert
insert_alert-Leaves f b i id now =
    elim (Bool-cases (f.create_fails || violates (new_alert i id now) b.rows)) [
      | inr e ↦ rw e (
          Follows-append b.rows (new_alert i id now) (new_alert-fresh i id now).0
            (new_alert-fresh i id now).1)
      | inl e ↦
          rw e
            (elim (Option-cases (coalesce_firing f b i.organization_id i.dedup_key i.message now)) [
              | inl missed ↦ rw missed (Follows-refl b.rows)
              | inr (r, met) ↦ rw met (coalesced f b _ _ _ _ r met)
            ])
    ]

raise_alert-Leaves :
    (f : Faults) (b : AlertBook) (i : AlertInput) (id now : ℕ)
    → Leaves b (raise_alert f b i id now).0
unfolding raise_alert
raise_alert-Leaves f b i id now =
    elim (Option-cases (coalesce_firing f b i.organization_id i.dedup_key i.message now)) [
      | inl missed ↦ rw (missed, raise_alert) (insert_alert-Leaves f b i id now)
      | inr (r, met) ↦ rw (met, raise_alert) (coalesced f b _ _ _ _ r met)
    ]

resolve_alerts-Leaves :
    (f : Faults) (b : AlertBook) (org : ℕ) (type : AlertType) (key : Text) (now : ℕ)
    → UniqueIds b.rows
    → Leaves b (resolve_alerts f b org type key now).0
unfolding resolve_alerts
resolve_alerts-Leaves f b org type key now unique =
    branch (λ (r : AlertBook × ℕ). Leaves b r.0)
      (is_empty key || length found == 0 || f.update_fails) (λ _. Follows-refl b.rows)
      (λ _. Follows-update_where (among found) (resolve_row now) b.rows (
        All-map _ _ b.rows (λ r fits hit. resolve_row-Moves now r (is_open_of r (fits hit)))
          (among-found (resolvable org type key) b.rows unique)))
  where
    found : List Alert
    found = keep (resolvable org type key) b.rows

    is_open_of : (r : Alert) → resolvable org type key r ≡ true → is_open r.status ≡ true
    is_open_of r h = firing_open r.status (ground arith)
      where
        firing_open : (s : AlertStatus) → is_firing s ≡ true → is_open s ≡ true
        firing_open firing e = refl
        firing_open acknowledged e = absurd (cc)
        firing_open resolved e = absurd (cc)

transition_alert-Leaves :
    (f : Faults) (b : AlertBook) (id org : ℕ) (from : AlertStatus → Bool) (change : Alert → Alert)
    → ((a : Alert) → from a.status ≡ true → Moves a (change a))
    → Leaves b (transition_alert f b id org from change).0
unfolding transition_alert
transition_alert-Leaves f b id org from change h =
    branch P f.update_fails (λ _. Follows-refl b.rows)
      (λ _.
        branch P (count_where hit b.rows == 0) (λ _. Follows-refl b.rows)
          (λ _.
            Follows-update_where hit change b.rows (every _ b.rows (λ a fits. h a (ground arith)))))
  where
    P : AlertBook × Reply → Type 0
    P r = Leaves b r.0

    hit : Alert → Bool
    hit a = a.id == id && a.organization_id == org && from a.status

mark_read-Leaves : (f : Faults) (b : AlertBook) (id org : ℕ) → Leaves b (mark_read f b id org).0
unfolding mark_read
mark_read-Leaves f b id org =
    branch (λ (r : AlertBook × Reply). Leaves b r.0) f.update_fails (λ _. Follows-refl b.rows)
      (λ _.
        branch (λ (r : AlertBook × Reply). Leaves b r.0)
          (count_where (λ (a : Alert). a.id == id && a.organization_id == org) b.rows == 0)
          (λ _. Follows-refl b.rows)
          (λ _. Follows-update_where _ _ b.rows (every _ b.rows (λ a _. read-Moves a))))

mark_all_read-Leaves : (f : Faults) (b : AlertBook) (org : ℕ) → Leaves b (mark_all_read f b org).0
unfolding mark_all_read
mark_all_read-Leaves f b org =
    branch (λ (r : AlertBook × Reply). Leaves b r.0) f.update_fails (λ _. Follows-refl b.rows)
      (λ _. Follows-update_where _ _ b.rows (every _ b.rows (λ a _. read-Moves a)))

prune_alerts-Leaves :
    (f : Faults) (days : ℕ) (b : AlertBook) (now : ℕ) → Leaves b (prune_alerts f days b now)
unfolding prune_alerts is_kept
prune_alerts-Leaves f days b now =
    branch (Leaves b) (days == 0 || f.update_fails) (λ _. Follows-refl b.rows)
      (λ _. Follows-keep (is_kept days now) b.rows (λ r e. ground arith))

-- Whatever the request and whichever statements fail, on a table whose identifiers are unique: every
-- alert keeps its identity and key, never counts fewer occurrences, and is acknowledged only while it
-- fires and resolved only once, so that the time of its resolution stays; an alert that fires is never
-- deleted; and a new row comes last, fires, and counts one occurrence.
pub step-Follows :
    (b : AlertBook) (f : Faults) (now : ℕ) (r : Request)
    → UniqueIds b.rows
    → Follows b.rows (step b (f, now, r)).rows
unfolding step ack resolve
step-Follows b f now (raises i id) unique = raise_alert-Leaves f b i id now
step-Follows b f now (resolves_key org type key) unique =
    resolve_alerts-Leaves f b org type key now unique
step-Follows b f now (acks id org user) unique =
    transition_alert-Leaves f b id org is_firing (ack_row user now) (ack_row-Moves user now)
step-Follows b f now (resolves id org) unique =
    transition_alert-Leaves f b id org is_open (resolve_row now) (resolve_row-Moves now)
step-Follows b f now (reads id org) unique = mark_read-Leaves f b id org
step-Follows b f now (reads_all org) unique = mark_all_read-Leaves f b org
step-Follows b f now (prunes days) unique = prune_alerts-Leaves f days b now
