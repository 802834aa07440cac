-- ===== src/Examples/Access.antt =====
-- Agents at the door, and policies at the form.
use db_backup_app.Base.{◌≡◌, refl, true, none, some, [], ◌∷◌, text_eq, pos, trim_space}
use db_backup_app.Agents.{Agent, agent_auth, socket_auth, granted, lifecycle, revoked}
use db_backup_app.Agents.Credentials.{socket_auth-revoked}
use db_backup_app.Examples.Data.{agent}
use db_backup_app.Policy.Validation.{
  PolicyRequest, Executable, built, validate_policy, validate_policy-Executable, read_mode,
}
use db_backup_app.Policy.{normal}

abbrev dismissed : Agent
dismissed = record agent { revoked_at = some 150 }

socket_auth-revoked_example :
    (socket_auth text_eq (5 ∷ []) (some 3) (dismissed ∷ []) ≡ some 3)
    × (lifecycle dismissed 150 ≡ revoked)
    × ((b : Agent) → ¬ (agent_auth text_eq (5 ∷ []) (some 3) (dismissed ∷ []) ≡ granted b))
unfolding text_eq
socket_auth-revoked_example =
    socket_auth-revoked text_eq (5 ∷ []) 3 (dismissed ∷ []) dismissed 150 refl refl refl refl

abbrev plain_request : PolicyRequest
plain_request = record {
  name = 65 ∷ [];
  strategy = [];
  cron_expr = [];
  timezone = [];
  enabled = none;
  mode = [];
  encrypted = none;
  retention_days = none;
  verification_enabled = none;
  max_retries = some (pos 3);
  retry_delay_seconds = none;
  sla_target_minutes = none;
  rpo_target_minutes = none;
  rto_target_minutes = none;
}

validate_policy-Executable_example : Executable (λ t. true) (built plain_request normal)
unfolding validate_policy read_mode trim_space
validate_policy-Executable_example =
    validate_policy-Executable (λ t. t) (λ t. true) plain_request (built plain_request normal) refl
