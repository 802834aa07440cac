-- ===== src/Examples/Desk.antt =====
-- Enrollment, restores, gRPC events and login attempts.
use db_backup_app.Base.{
  ◌≤◌, ◌≡◌, ◌≢◌, refl, true, false, none, some, List, [], ◌∷◌, ◌==◌, pos, arith, text_eq,
  count_where, first_where,
}
use db_backup_app.Alerts.{no_faults}
use db_backup_app.Enrollment.{Token, Registry, EnrollRequest, enroll_commit, revoke, unauthorized}
use db_backup_app.Enrollment.Single.{enroll_commit-once, run, revokes}
use db_backup_app.Enrollment.Revoked.{Denied, revoke-denies}
use db_backup_app.Events.{Progress, handle_event, backup_started, report_progress}
use db_backup_app.Events.Unguarded.{handle_event-overwrites}
use db_backup_app.Examples.Data.{agent, env, run_of, server_with}
use db_backup_app.RateLimit.{is_recent}
use db_backup_app.RateLimit.Window
use db_backup_app.RateLimit.Window.{run-within_limit, Tick, attempt, reaps}
use db_backup_app.Restores.{
  Restore, Desk, CreateRequest, RestoreReport, create_wanted, wanted, new_restore, commit_restore,
  decide_restore, claim_restore, live, insert_restore, same_restore_status, can_restore_transition,
}
use db_backup_app.Restores.Lifecycle.{Moves, commit_restore-Moves}
use db_backup_app.Restores
use db_backup_app.Runs.{Run, running, completed, failed, can_transition}

abbrev token : Token
token = record {
  id = 9;
  organization_id = 1;
  agent_id = some 3;
  token_hash = 7 ∷ [];
  expires_at = 500;
  used_at = none;
  revoked_at = none;
  created_by = none;
}

abbrev registry : Registry
registry = record {
  tokens = token ∷ [];
  roster = record { agents = agent ∷ []; presence = [] };
  machines = [];
  disconnects = [];
  notices = [];
}

abbrev request : EnrollRequest
request = record {
  enrollment_token = 7 ∷ [];
  machine_name = 65 ∷ [];
  platform = [];
  architecture = [];
  agent_version = [];
  hostname = [];
  os = [];
  ip_address = [];
}

abbrev enrolled_once : Registry
enrolled_once = (enroll_commit (λ t. t) false request (8 ∷ []) (8 ∷ []) 100 token 3 registry).0

abbrev afterwards : Registry
afterwards = run (λ t. t) (λ t. 1) enrolled_once (revokes false (some 4) 1 150 ∷ [])

enroll_commit-once_example :
    enroll_commit (λ t. t) false request (6 ∷ []) (6 ∷ []) 200 token 3 afterwards
    ≡ (afterwards, unauthorized)
unfolding enroll_commit
enroll_commit-once_example =
    enroll_commit-once (λ t. t) (λ t. 1) false false request request (8 ∷ []) (8 ∷ []) (6 ∷ [])
      (6 ∷ []) 100 200 token 3 3 3 registry (revokes false (some 4) 1 150 ∷ []) refl

revoke-denies_example :
    Denied text_eq (5 ∷ []) 3 (revoke false (some 3) 1 300 registry).0.roster.agents
unfolding revoke
revoke-denies_example = revoke-denies text_eq (5 ∷ []) 3 1 300 registry refl

abbrev progress : Progress
progress = record {
  run_id = 8;
  bytes_read = pos 1;
  bytes_compressed = pos 1;
  bytes_uploaded = pos 1;
  status = some failed;
  checksum = [];
  storage_path = [];
  error = [];
}

handle_event-overwrites_example :
    ((q : Run) × (first_where
          (λ (q : Run). q.id == 8)
          (handle_event env true false no_faults agent 200 30
            (backup_started 8)
            (server_with (run_of 8 completed ∷ []))).runs
        ≡ some q)
      × (q.status ≡ running)
      × (q.agent_id ≡ 3))
    × ((q : Run) × (first_where
            (λ (q : Run). q.id == 8)
            (report_progress false progress 200 (server_with (run_of 8 completed ∷ []))).runs
          ≡ some q)
        × (q.status ≡ failed)
        × (q.agent_id ≡ 3))
    × (can_transition completed running ≢ true)
handle_event-overwrites_example =
    handle_event-overwrites env true no_faults agent 200 30 8
      (server_with (run_of 8 completed ∷ [])) (run_of 8 completed) progress failed refl refl refl

abbrev wanted_restore : CreateRequest
wanted_restore = record {
  backup_run_id = some 8;
  agent_id = some 3;
  destination_path = 47 ∷ [];
  target_database = 68 ∷ [];
  confirmed = true;
}

abbrev restore : Restore
restore = new_restore 60 1 wanted_restore 8 3 none

abbrev empty : Desk
empty = record { rows = []; notices = []; commands = [] }

abbrev queued : Desk
queued = record { rows = restore ∷ []; notices = []; commands = [] }

abbrev asked : Desk
asked = (create_wanted false wanted_restore 1 60 (wanted 8 3 none) empty).0

abbrev broken : RestoreReport
broken = record { status = Restores.failed; error_message = 88 ∷ [] }

commit_restore-Moves_example :
    Moves queued.rows
      (commit_restore 3 restore broken 200 (decide_restore restore broken) queued).0.rows
    × Moves queued.rows (claim_restore false 3 (some 60) 200 queued).0.rows
commit_restore-Moves_example = commit_restore-Moves 3 restore broken 200 false (some 60) queued

abbrev ticks : List Tick
ticks =
    attempt (7 ∷ []) 10
    ∷ attempt (7 ∷ []) 20
    ∷ attempt (8 ∷ []) 25
    ∷ attempt (7 ∷ []) 30
    ∷ reaps 200
    ∷ attempt (7 ∷ []) 250
    ∷ []

run-within_limit_example :
    count_where (is_recent 100 250) (Window.run (7 ∷ []) 2 100 ((λ key. []), []) ticks).1 ≤ 2
run-within_limit_example =
    run-within_limit (7 ∷ []) 2 100 ticks
      (omega arith, (omega arith, (omega arith, (omega arith, (omega arith, (omega arith, tt))))))
