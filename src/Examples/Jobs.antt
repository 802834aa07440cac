-- ===== src/Examples/Jobs.antt =====
-- Jobs that are created and edited.
use db_backup_app.Base.{
  ℕ, ◌≡◌, refl, true, false, none, some, [], ◌∷◌, pos, Text, lit, arith, Option,
}
use db_backup_app.Jobs.{Office, JobRequest, create}
use db_backup_app.Jobs.Promise.{Sound}
use db_backup_app.Jobs.Sound.{
  creates, updates, deletes, deletes_policy, deletes_connection, run, run-Sound,
}
use db_backup_app.Jobs.Tenants.{reowned, create-blind_to_owners}

-- Identifiers are written as one code point.
abbrev parse : Text → Option ℕ
parse [] = none
parse (c ∷ s) = some c

abbrev upper : Text → Text
upper s = s

abbrev request : JobRequest
request = record {
  agent_id = 9 ∷ [];
  storage_target_id = 5 ∷ [];
  name = lit "n";
  source_type = lit "FILESYSTEM";
  connection_id = [];
  source_path = lit "/srv";
  source_database = [];
  include_patterns = [];
  exclude_patterns = [];
  mode = [];
  encrypted = false;
  retention_days = pos 0;
  export_format = [];
  cron_expr = lit "* * * * *";
  timezone = [];
  policy_id = [];
  sla_target_minutes = pos 0;
  rpo_target_minutes = pos 0;
  rto_target_minutes = pos 0;
}

-- One connection, of organization 1 and agent 9, and no jobs.
abbrev new_office : Office
new_office = record {
  agents = record { id = 9; organization_id = 1 } ∷ [];
  storage_targets = record { id = 5; organization_id = 1 } ∷ [];
  jobs = [];
  connections = record { id = 7; organization_id = 1; agent_id = 9 } ∷ [];
  policies = [];
}

abbrev connected : JobRequest
connected = record request { source_type = lit "POSTGRES"; connection_id = 7 ∷ [] }

run-Sound_example : Sound (
    run parse upper refl
      (creates false false 4 1 (some request)
        ∷ creates false false 6 1 (some connected)
        ∷ updates false true 1 (some 6) (some connected)
        ∷ deletes false 1 (some 4)
        ∷ deletes_policy false 1 (some 5)
        ∷ deletes_connection false 1 (some 7)
        ∷ [])
      new_office)
run-Sound_example =
    run-Sound parse upper refl
      (creates false false 4 1 (some request)
        ∷ creates false false 6 1 (some connected)
        ∷ updates false true 1 (some 6) (some connected)
        ∷ deletes false 1 (some 4)
        ∷ deletes_policy false 1 (some 5)
        ∷ deletes_connection false 1 (some 7)
        ∷ [])
      new_office (record { keys = λ id. omega arith; rows = tt })

-- The agent and the target belong to another organization.
abbrev foreign : Office
foreign = reowned (λ k. 2) (λ k. 2) new_office

create-blind_to_owners_example : create parse upper false false 4 1 (some request) foreign ≡ (
  reowned (λ k. 2) (λ k. 2) (create parse upper false false 4 1 (some request) new_office).0,
  (create parse upper false false 4 1 (some request) new_office).1,
)
create-blind_to_owners_example =
    create-blind_to_owners (λ k. 2) (λ k. 2) parse upper false false 4 1 (some request) new_office
