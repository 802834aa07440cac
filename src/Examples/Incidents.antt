-- ===== src/Examples/Incidents.antt =====
-- Alerts and their emails.
use db_backup_app.Base.{
  ◌+◌, ◌-◌, ◌%◌, ◌≤◌, ◌≡◌, refl, true, ◌&&◌, some, List, [], ◌∷◌, arith, ◌==◌, ltb, text_eq, pos,
  lit, count_where, first_where, length, any,
}
use db_backup_app.Alerts.{
  Alert, AlertBook, critical, warning, acks, no_faults, step, fires, new_alert, resolve_row,
}
use db_backup_app.Alerts.Coalescing.{
  raise_all, is_dispatch, is_post, is_notify, one_incident_one_row,
}
use db_backup_app.Alerts.Lifecycle.{Follows}
use db_backup_app.Alerts.Steps.{step-Follows}
use db_backup_app.Examples.Data.{book, incident}
use db_backup_app.Notifications.{
  WebhookSettings, dispatch_webhook, Member, Settings, owner, viewer, notify_alert, leads,
  in_quiet_hours,
}
use db_backup_app.Notifications.Quiet.{in_quiet_hours-arc}
use db_backup_app.Notifications.Recipients.{goes_out, wants, notify_alert-wanted}

-- An alert that was resolved is acknowledged too late.
abbrev resolved_once : AlertBook
resolved_once = record { rows = resolve_row 6 (new_alert incident 30 5) ∷ []; sent = [] }

step-Follows_example :
    Follows resolved_once.rows (step resolved_once (no_faults, 7, acks 30 1 2)).rows
unfolding new_alert
step-Follows_example = step-Follows resolved_once no_faults 7 (acks 30 1 2) (λ id. ground arith)

abbrev repeated : AlertBook
repeated = raise_all book ((incident, 30, 5) ∷ (incident, 31, 6) ∷ [])

abbrev hooks : List WebhookSettings
hooks = record { organization_id = 1; webhook_enabled = true; webhook_url = lit "https://h" } ∷ []

one_incident_one_row_example :
    (length repeated.rows ≡ 1)
    × (count_where is_dispatch repeated.sent ≡ 1)
    × (count_where (is_post (λ url. some (lit "https")) hooks) repeated.sent ≡ 1)
    × (count_where is_notify repeated.sent ≤ 1)
    × (a : Alert) × (first_where (fires 1 (75 ∷ [])) repeated.rows ≡ some a)
    × (a.occurrence_count ≡ 2)
unfolding dispatch_webhook lit text_eq
one_incident_one_row_example =
    one_incident_one_row 1 (75 ∷ []) refl (λ url. some (lit "https")) hooks book incident 30 5
      ((incident, 31, 6) ∷ []) (refl, refl) ((refl, refl), tt) refl

-- From ten at night to six in the morning.
abbrev night : Settings
night = record { quiet_hours_start = pos 22; quiet_hours_end = pos 6; min_email_severity = warning }

in_quiet_hours-arc_example : in_quiet_hours night 3 ≡ ltb ((3 + 24 - 22) % 24) ((6 + 24 - 22) % 24)
in_quiet_hours-arc_example =
    in_quiet_hours-arc night 22 6 3 refl refl (omega arith) (omega arith) (omega arith)

-- Two members with one address between them, and a third who may only look.
abbrev members : List Member
members =
    record { organization_id = 1; user_id = 10; role = owner; email = 97 ∷ [] }
    ∷ record { organization_id = 1; user_id = 11; role = owner; email = 32 ∷ 97 ∷ [] }
    ∷ record { organization_id = 1; user_id = 12; role = viewer; email = 98 ∷ [] }
    ∷ []

notify_alert-wanted_example :
    (any (text_eq (97 ∷ [])) (notify_alert true (some night) [] members 1 critical 3) ≡ (
      goes_out true (some night) critical 3
      && any
          (λ m. (m.organization_id == 1 && leads m.role) && wants critical [] (97 ∷ []) m)
          members))
    × (count_where (text_eq (97 ∷ [])) (notify_alert true (some night) [] members 1 critical 3) ≤ 1)
notify_alert-wanted_example =
    notify_alert-wanted critical [] (97 ∷ []) true (some night) members 1 3
