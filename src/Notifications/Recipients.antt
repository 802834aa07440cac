-- ===== src/Notifications/Recipients.antt =====
-- The addresses of an alert's email against the membership table.
use db_backup_app.Base.{
  ℕ, ◌≤◌, ◌≡◌, ◌≢◌, Option, none, some, leb, refl, ◌∙◌, Bool, true, ◌&&◌, ◌||◌, not, List, [], ◌∷◌,
  ◌++◌, arith, ◌==◌, Text, text_eq, text_eq_iff, trim_space, is_empty, any, any-append, any-keep,
  any-none, count_where, count_where-append,
}
use db_backup_app.Alerts.{Severity, critical, severity_rank}
use db_backup_app.Notifications.{
  Member, Prefs, passes_prefs, collect, recipients, leads, Settings, notify_alert, in_quiet_hours,
  default_settings, is_critical,
}

-- The member has this address, and takes the email.
abbrev pub wants : Severity → List Prefs → Text → Member → Bool
wants severity prefs e m =
    not (is_empty e) && text_eq e (trim_space m.email) && passes_prefs severity prefs m.user_id

-- The settings row, or what applies without one.
abbrev pub settings_of : Option Settings → Settings
settings_of none = default_settings
settings_of (some s) = s

-- The mailer is on, the severity is high enough, and nobody is to be left in peace.
abbrev pub goes_out : Bool → Option Settings → Severity → ℕ → Bool
goes_out enabled settings severity hour =
    let s = settings_of settings in
    enabled
    && leb (severity_rank s.min_email_severity) (severity_rank severity)
    && (is_critical severity || not (in_quiet_hours s hour))

-- The two lists hold the same addresses after a new one.
same_after :
    (seen to : List Text) (email : Text)
    → ((t : Text) → any (text_eq t) seen ≡ any (text_eq t) to)
    → (t : Text) → any (text_eq t) (email ∷ seen) ≡ any (text_eq t) (to ++ email ∷ [])
same_after seen to email same t = ground (arith, same t, any-append (text_eq t) to (email ∷ []))

module _ (severity : Severity) (prefs : List Prefs) (e : Text) where
  collect-any :
      (seen to : List Text) (ms : List Member)
      → ((t : Text) → any (text_eq t) seen ≡ any (text_eq t) to)
      → any (text_eq e) (collect severity prefs seen to ms)
        ≡ (any (text_eq e) to || any (wants severity prefs e) ms)
  unfolding collect
  collect-any seen to [] same = ground arith
  collect-any seen to (m ∷ ms) same =
      let email : Text = trim_space m.email in
      ground (
        arith,
        same email,
        text_eq_iff e email,
        collect-any seen to ms same,
        collect-any (email ∷ seen) (to ++ email ∷ []) ms (same_after seen to email same),
        any-append (text_eq e) to (email ∷ []),
      )

  collect-count :
      (seen to : List Text) (ms : List Member)
      → ((t : Text) → any (text_eq t) seen ≡ any (text_eq t) to)
      → count_where (text_eq e) to ≤ 1
      → count_where (text_eq e) (collect severity prefs seen to ms) ≤ 1
  unfolding collect
  collect-count seen to [] same h = h
  collect-count seen to (m ∷ ms) same h =
      let email : Text = trim_space m.email in
      ground (
        arith,
        same email,
        text_eq_iff e email,
        any-none (text_eq e) to,
        count_where-append (text_eq e) to (email ∷ []),
        collect-count seen to ms same h,
        collect-count (email ∷ seen) (to ++ email ∷ []) ms (same_after seen to email same),
      )

  recipients-wanted :
      (members : List Member) (org : ℕ)
      → (any (text_eq e) (recipients severity prefs members org)
          ≡ any
              (λ m. (m.organization_id == org && leads m.role) && wants severity prefs e m)
              members)
        × (count_where (text_eq e) (recipients severity prefs members org) ≤ 1)
  unfolding recipients
  recipients-wanted members org = (
    collect-any [] [] _ (λ t. refl) ∙ any-keep (wants severity prefs e) _ members,
    collect-count [] [] _ (λ t. refl) (omega arith),
  )

  -- NotifyAlert hands an address to the mailer exactly when the mailer is on, the severity is at least the
  -- least one of the organization's settings, it is not within quiet hours or the alert is critical, the
  -- address is not empty, and some owner or admin of the organization with that trimmed address takes it;
  -- and no address twice. Without a settings row there are no quiet hours, and the least severity is
  -- WARNING.
  pub notify_alert-wanted :
      (enabled : Bool) (settings : Option Settings) (members : List Member) (org hour : ℕ)
      → (any (text_eq e) (notify_alert enabled settings prefs members org severity hour) ≡ (
          goes_out enabled settings severity hour
          && any
              (λ m. (m.organization_id == org && leads m.role) && wants severity prefs e m)
              members))
        × (count_where (text_eq e) (notify_alert enabled settings prefs members org severity hour)
            ≤ 1)
  unfolding notify_alert
  notify_alert-wanted enabled settings members org hour =
      ground (arith, recipients-wanted members org)

-- While the mailer is on, a critical alert goes to its recipients at every hour and under all
-- settings; any other severity goes to nobody within the quiet hours.
pub notify_alert-quiet :
    (settings : Settings) (prefs : List Prefs) (members : List Member) (org hour : ℕ)
    → (notify_alert true (some settings) prefs members org critical hour
        ≡ recipients critical prefs members org)
      × ((severity : Severity)
          → severity ≢ critical
          → in_quiet_hours settings hour ≡ true
          → notify_alert true (some settings) prefs members org severity hour ≡ [])
unfolding notify_alert severity_rank
notify_alert-quiet settings prefs members org hour =
    (ground arith, λ severity other quiet. ground arith)
