-- ===== src/Notifications.antt =====
-- server/internal/services/alerts.go, NotifyAlert, inQuietHours and dispatchWebhook: who gets an alert's
-- email, and if it is posted to a webhook.
--
-- The settings row, the membership rows and the preference rows are arguments; `hour` is the hour of
-- the call in UTC, and the mailer's own work is left out.
pub mod Quiet
pub mod Recipients
use db_backup_app.Base.{
  ℕ, ◌<◌, Bool, true, false, ◌&&◌, ◌||◌, not, Option, none, some, List, [], ◌∷◌, ◌++◌, ◌==◌, ltb,
  leb, if◌then◌else◌, ℤ, pos, negsuc, ltb_ℤ, Text, text_eq, trim_space, is_empty, any, first_where,
  keep, lit,
}
use db_backup_app.Alerts.{Severity, critical, warning, severity_rank}

pub data Role : Type 0 where
  owner admin operator viewer : Role

-- A membership with its preloaded user.
pub record Member : Type 0 where
  pub organization_id : ℕ
  pub user_id : ℕ
  pub role : Role
  pub email : Text

pub record Prefs : Type 0 where
  pub user_id : ℕ
  pub email_enabled : Bool
  pub min_severity : Severity

pub record Settings : Type 0 where
  pub quiet_hours_start : ℤ
  pub quiet_hours_end : ℤ
  pub min_email_severity : Severity

-- What applies while the organization has no settings row.
abbrev pub default_settings : Settings
default_settings = record {
  quiet_hours_start = negsuc 0;
  quiet_hours_end = negsuc 0;
  min_email_severity = warning;
}

abbrev pub is_critical : Severity → Bool
is_critical critical = true
is_critical _ = false

abbrev same_ℤ : ℤ → ℤ → Bool
same_ℤ a b = not (ltb_ℤ a b) && not (ltb_ℤ b a)

abbrev leb_ℤ : ℤ → ℤ → Bool
leb_ℤ a b = not (ltb_ℤ b a)

pub in_quiet_hours : Settings → ℕ → Bool
in_quiet_hours s hour =
    if ltb_ℤ start (pos 0) || ltb_ℤ end (pos 0) || same_ℤ start end
    then false
    else if ltb_ℤ start end
    then leb_ℤ start (pos hour) && ltb_ℤ (pos hour) end
    else leb_ℤ start (pos hour) || ltb_ℤ (pos hour) end
  where
    open s use {quiet_hours_start as start, quiet_hours_end as end}

abbrev pub leads : Role → Bool
leads owner = true
leads admin = true
leads _ = false

-- A user without a preference row takes every email.
pub passes_prefs : Severity → List Prefs → ℕ → Bool
passes_prefs severity prefs user = elim (first_where (λ p. p.user_id == user) prefs) [
  | none ↦ true
  | some p ↦
      if not p.email_enabled
      then false
      else not (ltb (severity_rank severity) (severity_rank p.min_severity))
]

-- The loop over the members, with the addresses seen so far and those that the email goes to.
pub collect : Severity → List Prefs → List Text → List Text → List Member → List Text
collect severity prefs seen to [] = to
collect severity prefs seen to (m ∷ ms) =
    let email = trim_space m.email in
    let skip = collect severity prefs seen to ms in
    let take = collect severity prefs (email ∷ seen) (to ++ email ∷ []) ms in
    if is_empty email || any (text_eq email) seen
    then skip
    else if passes_prefs severity prefs m.user_id
    then take
    else skip

pub recipients : Severity → List Prefs → List Member → ℕ → List Text
recipients severity prefs members org =
    collect severity prefs [] [] (keep (λ m. m.organization_id == org && leads m.role) members)

-- The addresses that NotifyAlert hands to the mailer; empty where it returns before that.
pub notify_alert : Bool → Option Settings → List Prefs → List Member → ℕ → Severity → ℕ → List Text
notify_alert enabled settings prefs members org severity hour =
    if not enabled
    then []
    else if ltb (severity_rank severity) (severity_rank s.min_email_severity)
    then []
    else if in_quiet_hours s hour && not (is_critical severity)
    then []
    else recipients severity prefs members org
  where
    s : Settings
    s = elim settings [ none ↦ default_settings | some t ↦ t ]

-- The columns of the settings on webhooks.
pub record WebhookSettings : Type 0 where
  pub organization_id : ℕ
  pub webhook_enabled : Bool
  pub webhook_url : Text

abbrev pub is_http : Option Text → Bool
is_http none = false
is_http (some scheme) = text_eq scheme (lit "http") || text_eq scheme (lit "https")

-- dispatchWebhook up to its goroutine: the URL that the alert is posted to, if it is. `scheme` is the
-- scheme that url.Parse finds, none on an error; the payload is taken to have a JSON form.
unfoldable pub dispatch_webhook : (Text → Option Text) → List WebhookSettings → ℕ → Option Text
dispatch_webhook scheme settings org =
    elim (first_where (λ (s : WebhookSettings). s.organization_id == org) settings) [
      | none ↦ none
      | some s ↦
          if not s.webhook_enabled || is_empty s.webhook_url
          then none
          else if not (is_http (scheme s.webhook_url))
          then none
          else some s.webhook_url
    ]
