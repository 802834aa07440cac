-- ===== src/Jobs/Promise.antt =====
-- What every saved job may rely on.
use db_backup_app.Base.{ℕ, ◌≤◌, ◌≡◌, true, some, List, ◌==◌, All, any, count_where}
use db_backup_app.Jobs.{JobRow, Connection, PolicyKey, Office, is_connection, is_policy}
use db_backup_app.Jobs.References.{fits_source}

-- The connection and the policy of a job are there and of its organization, and its export format is one
-- for its source.
pub record SoundRow (connections : List Connection) (policies : List PolicyKey) (r : JobRow)
    : Type 0 where
  pub connection :
      (id : ℕ)
      → r.connection_id ≡ some id
      → any (is_connection id r.job.organization_id) connections ≡ true
  pub policy :
      (id : ℕ)
      → r.job.policy_id ≡ some id
      → any (is_policy id r.job.organization_id) policies ≡ true
  pub format : fits_source r.job.source_type r.export_format ≡ true

pub record Sound (o : Office) : Type 0 where
  pub keys : (id : ℕ) → count_where (λ (r : JobRow). r.job.id == id) o.jobs ≤ 1
  pub rows : All (SoundRow o.connections o.policies) o.jobs
