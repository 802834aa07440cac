-- ===== src/Policy.antt =====
-- server/internal/models/policy.go and backup_job.go: a job, its optional policy and schedule, and
-- the settings that apply; server/internal/handlers/policy.go: which policies are accepted.
pub mod Validation
use db_backup_app.Base.{
  ℕ, Bool, true, false, ◌||◌, ◌&&◌, not, Option, none, some, ◌==◌, if◌then◌else◌, ℤ, pos, ltb_ℤ,
  Text, lit, text_eq, is_empty, trim_space,
}

-- The mode column is a string; the code compares it with these two.
pub data Mode : Type 0 where
  normal compressed : Mode
  other_mode : Text → Mode

pub record Schedule : Type 0 where
  pub cron_expr : Text
  pub timezone : Text

pub record Policy : Type 0 where
  pub name : Text
  pub strategy : Text
  pub cron_expr : Text
  pub timezone : Text
  pub enabled : Bool
  pub mode : Mode
  pub encrypted : Bool
  pub retention_days : ℤ
  pub verification_enabled : Bool
  pub max_retries : ℤ
  pub retry_delay_seconds : ℤ
  pub sla_target_minutes : ℤ
  pub rpo_target_minutes : ℤ
  pub rto_target_minutes : ℤ

pub record Job : Type 0 where
  pub id : ℕ
  pub name : Text
  pub organization_id : ℕ
  pub agent_id : ℕ
  pub storage_target_id : ℕ
  pub source_type : Text
  pub enabled : Bool
  pub policy_id : Option ℕ
  pub policy : Option Policy
  pub schedule : Option Schedule
  pub mode : Mode
  pub encrypted : Bool
  pub retention_days : ℤ
  pub sla_target_minutes : ℤ
  pub rpo_target_minutes : ℤ
  pub rto_target_minutes : ℤ

pub record ResolvedPolicy : Type 0 where
  pub cron_expr : Text
  pub timezone : Text
  pub enabled : Bool
  pub mode : Mode
  pub encrypted : Bool
  pub retention_days : ℤ
  pub verification_enabled : Bool
  pub max_retries : ℤ
  pub retry_delay_seconds : ℤ
  pub sla_target_minutes : ℤ
  pub rpo_target_minutes : ℤ
  pub rto_target_minutes : ℤ
  pub from_policy : Bool
  pub policy_id : Option ℕ

abbrev pub or_utc : Text → Text
or_utc tz = if is_empty tz then lit "UTC" else tz

-- The schedule under a policy: its own cron, else the job's row.
unfoldable pub policy_schedule : Policy → Option Schedule → Schedule
policy_schedule p schedule =
    if not (is_empty p.cron_expr)
    then record { cron_expr = p.cron_expr; timezone = or_utc p.timezone }
    else elim schedule [
      | some s ↦ record { cron_expr = s.cron_expr; timezone = or_utc s.timezone }
      | none ↦ record { cron_expr = lit ""; timezone = or_utc (lit "") }
    ]

unfoldable pub inline_schedule : Option Schedule → Schedule
inline_schedule none = record { cron_expr = lit ""; timezone = lit "UTC" }
inline_schedule (some s) = record { cron_expr = s.cron_expr; timezone = or_utc s.timezone }

unfoldable pub from_policy : Job → Policy → ResolvedPolicy
from_policy job p =
    let s = policy_schedule p job.schedule in
    record {
      cron_expr = s.cron_expr;
      timezone = s.timezone;
      enabled = p.enabled;
      mode = p.mode;
      encrypted = p.encrypted;
      retention_days = p.retention_days;
      verification_enabled = p.verification_enabled;
      max_retries = p.max_retries;
      retry_delay_seconds = p.retry_delay_seconds;
      sla_target_minutes = p.sla_target_minutes;
      rpo_target_minutes = p.rpo_target_minutes;
      rto_target_minutes = p.rto_target_minutes;
      from_policy = true;
      policy_id = job.policy_id;
    }

unfoldable pub inline : Job → ResolvedPolicy
inline job =
    let s = inline_schedule job.schedule in
    record {
      cron_expr = s.cron_expr;
      timezone = s.timezone;
      enabled = job.enabled;
      mode = job.mode;
      encrypted = job.encrypted;
      retention_days = job.retention_days;
      verification_enabled = true;
      max_retries = pos 0;
      retry_delay_seconds = pos 300;
      sla_target_minutes = job.sla_target_minutes;
      rpo_target_minutes = job.rpo_target_minutes;
      rto_target_minutes = job.rto_target_minutes;
      from_policy = false;
      policy_id = none;
    }

-- EffectivePolicy: the policy counts only if it is loaded and the job refers to one.
unfoldable pub effective_policy : Job → ResolvedPolicy
effective_policy job = elim job.policy [
  | none ↦ inline job
  | some p ↦ elim job.policy_id [ none ↦ inline job | some id ↦ from_policy job p ]
]
