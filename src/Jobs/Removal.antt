-- ===== src/Jobs/Removal.antt =====
-- server/internal/handlers/policy.go, Delete, and handlers/connections.go, Delete: what jobs refer to is
-- removed.
use db_backup_app.Base.{
  ℕ, Bool, false, ◌&&◌, not, Option, none, some, ◌==◌, if◌then◌else◌, any, keep, update_where,
}
use db_backup_app.Jobs.{
  JobRow, Office, JobReply, deleted, bad_request, not_found, conflict, server_error, is_policy,
  is_connection,
}

abbrev pub is_id : ℕ → Option ℕ → Bool
is_id id none = false
is_id id (some k) = k == id

abbrev pub uses_policy : ℕ → ℕ → JobRow → Bool
uses_policy id org r = is_id id r.job.policy_id && r.job.organization_id == org

abbrev pub uses_connection : ℕ → ℕ → JobRow → Bool
uses_connection id org r = is_id id r.connection_id && r.job.organization_id == org

abbrev pub detached : JobRow → JobRow
detached r = record r { job = record (r.job) { policy_id = none } }

-- The jobs of a policy are detached first; the code ignores if that fails.
unfoldable pub delete_policy : Bool → Bool → ℕ → Option ℕ → Office → Office × JobReply
delete_policy detach_fails fails org none o = (o, bad_request)
delete_policy detach_fails fails org (some id) o =
    let o' =
      if detach_fails
      then o
      else record o { jobs = update_where (uses_policy id org) detached o.jobs } in
    if fails
    then (o', server_error)
    else if any (is_policy id org) o.policies
    then (record o' { policies = keep (λ p. not (is_policy id org p)) o'.policies }, deleted)
    else (o', not_found)

-- A connection that a job uses stays, unless the count of these jobs fails: its error is ignored, and so
-- is that of the DELETE.
unfoldable pub delete_connection : Bool → Bool → ℕ → Option ℕ → Office → Office × JobReply
delete_connection count_fails fails org none o = (o, bad_request)
delete_connection count_fails fails org (some id) o =
    if not (any (is_connection id org) o.connections)
    then (o, not_found)
    else if not count_fails && any (uses_connection id org) o.jobs
    then (o, conflict)
    else if fails
    then (o, deleted)
    else (
      record o { connections = keep (λ c. not (is_connection id org c)) o.connections },
      deleted,
    )
