-- ===== src/Policy/Validation.antt =====
-- server/internal/handlers/policy.go, validatePolicy: which policies are accepted.
--
-- `upper` is strings.ToUpper and `parses` the cron library's test. A field of the request that may be
-- left out is an Option.
use db_backup_app.Base.{
  ℕ, ◌≡◌, refl, ◌⊎◌, inl, inr, Bool, true, false, ◌&&◌, ◌||◌, not, Option, none, some, arith,
  if◌then◌else◌, ℤ, pos, ltb_ℤ, ◌≤ℤ◌, Text, lit, text_eq, is_empty, trim_space, branch,
  Option-cases, Bool-cases, subst, [], ◌∷◌,
}
use db_backup_app.Policy.{Policy, Mode, normal, compressed}

pub record PolicyRequest : Type 0 where
  pub name : Text
  pub strategy : Text
  pub cron_expr : Text
  pub timezone : Text
  pub enabled : Option Bool
  pub mode : Text
  pub encrypted : Option Bool
  pub retention_days : Option ℤ
  pub verification_enabled : Option Bool
  pub max_retries : Option ℤ
  pub retry_delay_seconds : Option ℤ
  pub sla_target_minutes : Option ℤ
  pub rpo_target_minutes : Option ℤ
  pub rto_target_minutes : Option ℤ

-- boolOr, intOr
abbrev pub or_else {ℓ} : {A : Type ℓ} → Option A → A → A
or_else none d = d
or_else (some a) d = a

-- *v < 0 || *v > high
abbrev pub is_outside : ℕ → ℤ → Bool
is_outside high v = ltb_ℤ v (pos 0) || ltb_ℤ (pos high) v

abbrev pub bad_target : Option ℤ → Bool
bad_target none = false
bad_target (some v) = is_outside 525600 v

pub data Checked : Type 0 where
  accepted : Policy → Checked
  bad_policy : Text → Checked

unfoldable pub read_mode : Text → Option Mode
read_mode m =
    if is_empty m || text_eq m (lit "NORMAL")
    then some normal
    else if text_eq m (lit "COMPRESSED")
    then some compressed
    else none

abbrev pub built : PolicyRequest → Mode → Policy
built req mode = record {
  name = trim_space req.name;
  strategy = lit "FULL";
  cron_expr = trim_space req.cron_expr;
  timezone = if is_empty (trim_space req.timezone) then lit "UTC" else trim_space req.timezone;
  enabled = or_else req.enabled true;
  mode = mode;
  encrypted = or_else req.encrypted false;
  retention_days = or_else req.retention_days (pos 30);
  verification_enabled = or_else req.verification_enabled true;
  max_retries = or_else req.max_retries (pos 0);
  retry_delay_seconds = or_else req.retry_delay_seconds (pos 300);
  sla_target_minutes = or_else req.sla_target_minutes (pos 0);
  rpo_target_minutes = or_else req.rpo_target_minutes (pos 0);
  rto_target_minutes = or_else req.rto_target_minutes (pos 0);
}

unfoldable pub validate_policy : (Text → Text) → (Text → Bool) → PolicyRequest → Checked
validate_policy upper parses req =
    let strategy = upper (trim_space req.strategy) in
    if is_empty (trim_space req.name)
    then bad_policy (lit "name is required")
    else if not (is_empty strategy || text_eq strategy (lit "FULL"))
    then bad_policy (lit "strategy must be FULL (incremental/differential are not implemented)")
    else elim (read_mode (upper (trim_space req.mode))) [
      | none ↦ bad_policy (lit "mode must be NORMAL or COMPRESSED")
      | some mode ↦
          if is_outside 3650 (or_else req.retention_days (pos 30))
          then bad_policy (lit "retention_days must be 0-3650")
          else if is_outside 10 (or_else req.max_retries (pos 0))
          then bad_policy (lit "max_retries must be 0-10")
          else if is_outside 86400 (or_else req.retry_delay_seconds (pos 300))
          then bad_policy (lit "retry_delay_seconds must be 0-86400")
          else if bad_target req.sla_target_minutes
              || bad_target req.rpo_target_minutes
              || bad_target req.rto_target_minutes
          then bad_policy (lit "SLA/RPO/RTO targets must be 0-525600 minutes")
          else if not (is_empty (trim_space req.cron_expr))
              && not (parses (trim_space req.cron_expr))
          then bad_policy (lit "invalid cron_expr")
          else accepted (built req mode)
    ]

abbrev pub Within : ℕ → ℤ → Type 0
Within high v = (pos 0 ≤ℤ v) × (v ≤ℤ pos high)

-- A policy that the scheduler and the monitor can carry out.
pub record Executable (parses : Text → Bool) (p : Policy) : Type 0 where
  pub named : is_empty p.name ≡ false
  pub full : p.strategy ≡ lit "FULL"
  pub known_mode : (p.mode ≡ normal) ⊎ (p.mode ≡ compressed)
  pub retention : Within 3650 p.retention_days
  pub retries : Within 10 p.max_retries
  pub delay : Within 86400 p.retry_delay_seconds
  pub sla : Within 525600 p.sla_target_minutes
  pub rpo : Within 525600 p.rpo_target_minutes
  pub rto : Within 525600 p.rto_target_minutes
  pub schedule : (is_empty p.cron_expr ≡ true) ⊎ (parses p.cron_expr ≡ true)
  pub zoned : is_empty p.timezone ≡ false

within : (high : ℕ) (v : ℤ) → is_outside high v ≡ false → Within high v
within high v h = (ground arith, ground arith)

or_else-Within : (v : Option ℤ) → bad_target v ≡ false → Within 525600 (or_else v (pos 0))
or_else-Within none h = (omega arith, omega arith)
or_else-Within (some v) h = within 525600 v h

mode_known :
    (m : Text) (mode : Mode) → read_mode m ≡ some mode → (mode ≡ normal) ⊎ (mode ≡ compressed)
unfolding read_mode
mode_known m mode =
    branch Known (is_empty m || text_eq m (lit "NORMAL")) (λ _ e. inl (cc))
      (λ _. branch Known (text_eq m (lit "COMPRESSED")) (λ _ e. inr (cc)) (λ _ e. absurd (cc)))
  where
    Known : Option Mode → Type 0
    Known o = o ≡ some mode → (mode ≡ normal) ⊎ (mode ≡ compressed)

zoned_text : (t : Text) → is_empty (if is_empty t then lit "UTC" else t) ≡ false
unfolding lit
zoned_text [] = refl
zoned_text (c ∷ t) = refl

-- Every policy that is accepted can be carried out: it is a full backup in a known mode, with all
-- its numbers in range, and a schedule that is empty or parses.
pub validate_policy-Executable :
    (upper : Text → Text) (parses : Text → Bool) (req : PolicyRequest) (p : Policy)
    → validate_policy upper parses req ≡ accepted p
    → Executable parses p
unfolding validate_policy
validate_policy-Executable upper parses req p =
    branch Fine (is_empty (trim_space req.name)) (λ _ e. absurd (cc))
      (λ named.
        branch Fine (not (is_empty strategy || text_eq strategy (lit "FULL"))) (λ _ e. absurd (cc))
          (λ _. elim (Option-cases (read_mode (upper (trim_space req.mode)))) [
            | inl bad ↦ rw bad (λ e. absurd (cc))
            | inr (mode, read) ↦ rw read (
                branch Fine (is_outside 3650 (or_else req.retention_days (pos 30)))
                  (λ _ e. absurd (cc))
                  (λ days.
                    branch Fine (is_outside 10 (or_else req.max_retries (pos 0)))
                      (λ _ e. absurd (cc))
                      (λ tries.
                        branch Fine (is_outside 86400 (or_else req.retry_delay_seconds (pos 300)))
                          (λ _ e. absurd (cc))
                          (λ wait.
                            branch Fine
                              (bad_target req.sla_target_minutes
                                || bad_target req.rpo_target_minutes
                                || bad_target req.rto_target_minutes)
                              (λ _ e. absurd (cc))
                              (λ targets.
                                branch Fine
                                  (not (is_empty (trim_space req.cron_expr))
                                    && not (parses (trim_space req.cron_expr)))
                                  (λ _ e. absurd (cc))
                                  (λ cron e. subst (Executable parses) (the_policy e) (record {
                                    named = named;
                                    full = refl;
                                    known_mode = mode_known _ mode read;
                                    retention = within 3650 _ days;
                                    retries = within 10 _ tries;
                                    delay = within 86400 _ wait;
                                    sla = or_else-Within req.sla_target_minutes (ground arith);
                                    rpo = or_else-Within req.rpo_target_minutes (ground arith);
                                    rto = or_else-Within req.rto_target_minutes (ground arith);
                                    schedule = schedule_fine (trim_space req.cron_expr) cron;
                                    zoned = zoned_text (trim_space req.timezone);
                                  })))))))
          ]))
  where
    strategy : Text
    strategy = upper (trim_space req.strategy)

    Fine : Checked → Type 0
    Fine c = c ≡ accepted p → Executable parses p

    the_policy : {q : Policy} → accepted q ≡ accepted p → q ≡ p
    the_policy e = cc

    schedule_fine :
        (cron : Text)
        → (not (is_empty cron) && not (parses cron)) ≡ false
        → (is_empty cron ≡ true) ⊎ (parses cron ≡ true)
    schedule_fine cron h = elim (Bool-cases (is_empty cron)) [
      | inl e ↦ inl e
      | inr e ↦ inr (ground arith)
    ]
