-- ===== src/Alerts.antt =====
-- server/internal/models/alert.go, server/internal/services/alerts.go (raise, coalesce, resolve) and
-- server/internal/handlers/alert.go (the lifecycle handlers): the alert table, and what each
-- operation sends out.
--
-- An identifier (a UUID) is a number; `now` is the call's `time.Now()`; a new row's identifier is
-- an argument. Where the source tests the error of a statement, an argument says if it fails; the
-- unique index idx_alerts_dedup_firing makes an insert fail too.
pub mod Coalescing
pub mod Lifecycle
pub mod Steps
use db_backup_app.Base.{
  ℕ, suc, ◌+◌, Bool, true, false, ◌&&◌, ◌||◌, Option, none, some, List, [], ◌∷◌, ◌++◌, map, length,
  ◌==◌, ltb, not, ◌*◌, if◌then◌else◌, Text, text_eq, is_empty, day, update_where, count_where,
  first_where, keep, any,
}

pub data AlertType : Type 0 where
  backup_failed backup_missed agent_offline storage_low restore_failed verify_failed : AlertType

-- `other` is any other string in a severity column.
pub data Severity : Type 0 where
  info warning critical other : Severity

pub data AlertStatus : Type 0 where
  firing acknowledged resolved : AlertStatus

unfoldable pub severity_rank : Severity → ℕ
severity_rank critical = 3
severity_rank warning = 2
severity_rank _ = 1

pub default_severity : AlertType → Severity
default_severity backup_failed = critical
default_severity backup_missed = critical
default_severity agent_offline = critical
default_severity restore_failed = critical
default_severity _ = warning

abbrev pub same_type : AlertType → AlertType → Bool
same_type backup_failed backup_failed = true
same_type backup_missed backup_missed = true
same_type agent_offline agent_offline = true
same_type storage_low storage_low = true
same_type restore_failed restore_failed = true
same_type verify_failed verify_failed = true
same_type _ _ = false

abbrev pub is_firing : AlertStatus → Bool
is_firing firing = true
is_firing _ = false

abbrev pub is_open : AlertStatus → Bool
is_open firing = true
is_open acknowledged = true
is_open resolved = false

pub record Alert : Type 0 where
  pub id : ℕ
  pub organization_id : ℕ
  pub type : AlertType
  pub severity : Severity
  pub status : AlertStatus
  pub title : Text
  pub message : Text
  pub read : Bool
  pub dedup_key : Option Text
  pub occurrence_count : ℕ
  pub acknowledged_by : Option ℕ
  pub acknowledged_at : Option ℕ
  pub resolved_at : Option ℕ
  pub last_occurred_at : Option ℕ
  pub backup_job_id : Option ℕ
  pub agent_id : Option ℕ
  pub created_at : ℕ

pub record AlertInput : Type 0 where
  pub organization_id : ℕ
  pub type : AlertType
  pub title : Text
  pub message : Text
  pub backup_job_id : Option ℕ
  pub agent_id : Option ℕ
  pub dedup_key : Text
  pub severity : Option Severity  -- none is the empty string
  pub email_subject : Text
  pub email_body : Text

-- A realtime event, a call of NotifyAlert, a call of dispatchWebhook.
pub data Outgoing : Type 0 where
  broadcast : Alert → Outgoing
  notify : ℕ → Severity → Text → Text → Outgoing
  dispatch : ℕ → Alert → Outgoing

-- The alert table and what was sent, oldest first.
pub record AlertBook : Type 0 where
  pub rows : List Alert
  pub sent : List Outgoing

-- Which statements fail for a reason of the database's own.
pub record Faults : Type 0 where
  pub create_fails : Bool
  pub update_fails : Bool

abbrev pub no_faults : Faults
no_faults = record { create_fails = false; update_fails = false }

abbrev pub has_key : Text → Option Text → Bool
has_key key none = false
has_key key (some k) = text_eq k key

-- WHERE organization_id = ? AND dedup_key = ? AND status = 'firing'
abbrev pub fires : ℕ → Text → Alert → Bool
fires org key a = a.organization_id == org && has_key key a.dedup_key && is_firing a.status

-- The row after one more occurrence.
pub bump : ℕ → Text → Alert → Alert
bump now message a = record a {
  occurrence_count = suc a.occurrence_count;
  last_occurred_at = some now;
  message = if is_empty message then a.message else message;
}

pub coalesce_firing : Faults → AlertBook → ℕ → Text → Text → ℕ → Option (AlertBook × Alert)
coalesce_firing f b org key message now =
    if is_empty key then none else elim (first_where (fires org key) b.rows) [
      | none ↦ none
      | some a ↦
          if f.update_fails
          then none
          else some (
            record b {
              rows = update_where (λ r. r.id == a.id) (bump now message) b.rows;
              sent = b.sent ++ broadcast (bump now message a) ∷ [];
            },
            bump now message a,
          )
    ]

-- The row that an input makes.
unfoldable pub new_alert : AlertInput → ℕ → ℕ → Alert
new_alert i id now = record {
  id = id;
  organization_id = i.organization_id;
  type = i.type;
  severity = elim i.severity [ none ↦ default_severity i.type | some s ↦ s ];
  status = firing;
  title = i.title;
  message = i.message;
  read = false;
  dedup_key = if is_empty i.dedup_key then none else some i.dedup_key;
  occurrence_count = 1;
  acknowledged_by = none;
  acknowledged_at = none;
  resolved_at = none;
  last_occurred_at = some now;
  backup_job_id = i.backup_job_id;
  agent_id = i.agent_id;
  created_at = now;
}

-- idx_alerts_dedup_firing: a firing row with this organization and key is there already.
pub violates : Alert → List Alert → Bool
violates a rows = elim a.dedup_key [
  | none ↦ false
  | some key ↦ is_firing a.status && any (fires a.organization_id key) rows
]

-- What goes out with a new row: both calls look at the settings first, to see if anything is sent.
pub announce : AlertInput → Alert → List Outgoing
announce i a =
    let hook = dispatch i.organization_id a ∷ [] in
    broadcast a
    ∷ (if is_empty i.email_subject
        then hook
        else notify i.organization_id a.severity i.email_subject i.email_body ∷ hook)

-- RaiseAlert from its insert on, on the table as it is by then.
pub insert_alert : Faults → AlertBook → AlertInput → ℕ → ℕ → AlertBook × Option Alert × Bool
insert_alert f b i id now =
    let a = new_alert i id now in
    if f.create_fails || violates a b.rows
    then (elim (coalesce_firing f b i.organization_id i.dedup_key i.message now) [
      | some (b', existing) ↦ (b', some existing, false)
      | none ↦ (b, none, false)
    ])
    else (record b { rows = b.rows ++ a ∷ []; sent = b.sent ++ announce i a }, some a, true)

-- The book afterwards, the alert, and whether its row is new.
pub raise_alert : Faults → AlertBook → AlertInput → ℕ → ℕ → AlertBook × Option Alert × Bool
raise_alert f b i id now = elim (coalesce_firing f b i.organization_id i.dedup_key i.message now) [
  | some (b', existing) ↦ (b', some existing, false)
  | none ↦ insert_alert f b i id now
]

-- WHERE organization_id = ? AND type = ? AND dedup_key = ? AND status = 'firing'
abbrev pub resolvable : ℕ → AlertType → Text → Alert → Bool
resolvable org type key a = same_type a.type type && fires org key a

abbrev pub resolve_row : ℕ → Alert → Alert
resolve_row now a = record a { status = resolved; resolved_at = some now }

-- WHERE id IN ?
abbrev pub among : List Alert → Alert → Bool
among found r = any (λ a. a.id == r.id) found

pub resolve_alerts : Faults → AlertBook → ℕ → AlertType → Text → ℕ → AlertBook × ℕ
resolve_alerts f b org type key now =
    let found = keep (resolvable org type key) b.rows in
    if is_empty key || length found == 0 || f.update_fails then (b, 0) else (
      record b {
        rows = update_where (among found) (resolve_row now) b.rows;
        sent = b.sent ++ map (λ a. broadcast (resolve_row now a)) found;
      },
      length found,
    )

-- What a lifecycle handler answers.
pub data Reply : Type 0 where
  done : ℕ → Reply
  server_error not_found conflict : Reply

-- Where id, organization and status fit: Ack and Resolve of the handler, through `transition`.
pub transition_alert :
    Faults → AlertBook → ℕ → ℕ → (AlertStatus → Bool) → (Alert → Alert) → AlertBook × Reply
transition_alert f b id org from change =
    let hit = λ (a : Alert). a.id == id && a.organization_id == org && from a.status in
    if f.update_fails
    then (b, server_error)
    else if count_where hit b.rows == 0
    then (b, conflict)
    else (
      record b {
        rows = update_where hit change b.rows;
        sent =
            b.sent
            ++ map broadcast (
                keep (λ a. a.id == id && a.organization_id == org)
                  (update_where hit change b.rows));
      },
      done (count_where hit b.rows),
    )

abbrev pub ack_row : ℕ → ℕ → Alert → Alert
ack_row user now a = record a {
  status = acknowledged;
  acknowledged_by = some user;
  acknowledged_at = some now;
}

pub ack : Faults → AlertBook → ℕ → ℕ → ℕ → ℕ → AlertBook × Reply
ack f b id org user now = transition_alert f b id org is_firing (ack_row user now)

pub resolve : Faults → AlertBook → ℕ → ℕ → ℕ → AlertBook × Reply
resolve f b id org now = transition_alert f b id org is_open (resolve_row now)

pub mark_read : Faults → AlertBook → ℕ → ℕ → AlertBook × Reply
mark_read f b id org =
    let hit = λ (a : Alert). a.id == id && a.organization_id == org in
    if f.update_fails
    then (b, server_error)
    else if count_where hit b.rows == 0
    then (b, not_found)
    else (record b { rows = update_where hit (λ a. record a { read = true }) b.rows }, done 1)

pub mark_all_read : Faults → AlertBook → ℕ → AlertBook × Reply
mark_all_read f b org =
    let hit = λ (a : Alert). a.organization_id == org && not a.read in
    if f.update_fails then (b, server_error) else (
      record b { rows = update_where hit (λ a. record a { read = true }) b.rows },
      done (count_where hit b.rows),
    )

pub is_kept : ℕ → ℕ → Alert → Bool
is_kept days now a = not (not (is_firing a.status) && ltb (a.created_at + days * day) now)

-- The monitor's enforceAlertRetention: closed alerts made before `cutoff` are deleted. `days` is
-- the configured retention; 0 keeps everything.
pub prune_alerts : Faults → ℕ → AlertBook → ℕ → AlertBook
prune_alerts f days b now =
    if days == 0 || f.update_fails then b else record b { rows = keep (is_kept days now) b.rows }

-- The requests that change the table.
pub data Request : Type 0 where
  raises : AlertInput → ℕ → Request
  resolves_key : ℕ → AlertType → Text → Request
  acks : ℕ → ℕ → ℕ → Request
  resolves : ℕ → ℕ → Request
  reads : ℕ → ℕ → Request
  reads_all : ℕ → Request
  prunes : ℕ → Request

pub step : AlertBook → Faults × ℕ × Request → AlertBook
step b (f, now, raises i id) = (raise_alert f b i id now).0
step b (f, now, resolves_key org type key) = (resolve_alerts f b org type key now).0
step b (f, now, acks id org user) = (ack f b id org user now).0
step b (f, now, resolves id org) = (resolve f b id org now).0
step b (f, now, reads id org) = (mark_read f b id org).0
step b (f, now, reads_all org) = (mark_all_read f b org).0
step b (f, now, prunes days) = prune_alerts f days b now
