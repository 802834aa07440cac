-- ===== src/Jobs.antt =====
-- server/internal/handlers/backup_job.go: jobs are created, edited and deleted.
--
-- `parse` is uuid.Parse and `upper` strings.ToUpper. A job row has its schedule row with it; its policy
-- is not loaded. The statements of a handler may fail: `fails` is that of the job, `schedule_fails` that
-- of its schedule, whose errors the code ignores.
pub mod References
pub mod Removal
pub mod Promise
pub mod Removed
pub mod Created
pub mod Edited
pub mod Sound
pub mod Tenants
use db_backup_app.Base.{
  ℕ, Bool, true, false, ◌&&◌, ◌||◌, not, Option, none, some, List, [], ◌∷◌, ◌++◌, ◌==◌,
  if◌then◌else◌, ℤ, pos, eq_ℤ, Text, lit, text_eq, is_empty, trim_space, first_where, update_where,
  keep, any,
}
use db_backup_app.Policy.{Job, Mode, normal, compressed, other_mode, Schedule, or_utc}

-- The rest of the columns of models/backup_job.go.
pub record JobRow : Type 0 where
  pub job : Job
  pub connection_id : Option ℕ
  pub source_path : Text
  pub source_database : Text
  pub include_patterns : Text
  pub exclude_patterns : Text
  pub export_format : Text

-- What the handlers look at of a saved connection and of a policy.
pub record Connection : Type 0 where
  pub id : ℕ
  pub organization_id : ℕ
  pub agent_id : ℕ

pub record PolicyKey : Type 0 where
  pub id : ℕ
  pub organization_id : ℕ

-- What the foreign keys of a job's row look at of an agent and of a storage target.
pub record AgentKey : Type 0 where
  pub id : ℕ
  pub organization_id : ℕ

pub record TargetKey : Type 0 where
  pub id : ℕ
  pub organization_id : ℕ

pub record Office : Type 0 where
  pub agents : List AgentKey
  pub storage_targets : List TargetKey
  pub jobs : List JobRow
  pub connections : List Connection
  pub policies : List PolicyKey

pub record JobRequest : Type 0 where
  pub agent_id : Text
  pub storage_target_id : Text
  pub name : Text
  pub source_type : Text
  pub connection_id : Text
  pub source_path : Text
  pub source_database : Text
  pub include_patterns : Text
  pub exclude_patterns : Text
  pub mode : Text
  pub encrypted : Bool
  pub retention_days : ℤ
  pub export_format : Text
  pub cron_expr : Text
  pub timezone : Text
  pub policy_id : Text
  pub sla_target_minutes : ℤ
  pub rpo_target_minutes : ℤ
  pub rto_target_minutes : ℤ

pub data JobReply : Type 0 where
  created updated : JobRow → JobReply
  deleted bad_request not_found conflict server_error : JobReply

-- A reference of a request to another row.
pub data Reference : Type 0 where
  unset refused : Reference
  refers : ℕ → Reference

-- binding:"required"
abbrev pub is_complete : JobRequest → Bool
is_complete req = not (
    is_empty req.agent_id
    || is_empty req.storage_target_id
    || is_empty req.name
    || is_empty req.source_type)

abbrev pub is_mongo : Text → Bool
is_mongo s = text_eq s (lit "MONGODB")

unfoldable pub is_database_source : Text → Bool
is_database_source s =
    text_eq s (lit "POSTGRES")
    || is_mongo s
    || text_eq s (lit "SQL_SERVER")
    || text_eq s (lit "MSSQL_SERVER")

unfoldable pub is_format : Text → Bool
is_format f = text_eq f (lit "ARCHIVE") || text_eq f (lit "JSON") || text_eq f (lit "CSV")

-- None is an error.
unfoldable pub normalize_export_format : (Text → Text) → Text → Text → Option Text
normalize_export_format upper source raw =
    let given = upper (trim_space raw) in
    let format = if is_empty given then lit "ARCHIVE" else given in
    if is_mongo source
    then (if is_format format then some format else none)
    else if not (is_empty raw)
    then none
    else some format

-- models.BackupMode is a string.
unfoldable pub mode_of : Text → Mode
mode_of m =
    if text_eq m (lit "NORMAL")
    then normal
    else if text_eq m (lit "COMPRESSED")
    then compressed
    else other_mode m

abbrev pub is_connection : ℕ → ℕ → Connection → Bool
is_connection id org c = c.id == id && c.organization_id == org

abbrev pub is_policy : ℕ → ℕ → PolicyKey → Bool
is_policy id org p = p.id == id && p.organization_id == org

module _ (parse : Text → Option ℕ) where
  -- The policy that a request refers to, of the organization.
  unfoldable pub resolve_policy : ℕ → Text → List PolicyKey → Reference
  resolve_policy org text policies =
      if is_empty (trim_space text) then unset else elim (parse text) [
        | none ↦ refused
        | some id ↦ if any (is_policy id org) policies then refers id else refused
      ]

  -- The connection that a request refers to, of the organization; `allows` is what is asked of it.
  unfoldable pub resolve_connection : (Connection → Bool) → ℕ → Text → List Connection → Reference
  resolve_connection allows org text connections =
      if is_empty (trim_space text) then unset else elim (parse text) [
        | none ↦ refused
        | some id ↦ elim (first_where (is_connection id org) connections) [
          | none ↦ refused
          | some c ↦ if allows c then refers id else refused
        ]
      ]

abbrev pub schedule_of : JobRequest → Schedule
schedule_of req = record { cron_expr = req.cron_expr; timezone = or_utc req.timezone }

unfoldable pub new_job : ℕ → ℕ → ℕ → ℕ → Option ℕ → Option ℕ → Text → Bool → JobRequest → JobRow
new_job id org agent storage connection policy format schedule_fails req = record {
  job = record {
    id = id;
    name = req.name;
    organization_id = org;
    agent_id = agent;
    storage_target_id = storage;
    source_type = req.source_type;
    enabled = true;
    policy_id = policy;
    policy = none;
    schedule = if is_empty req.cron_expr || schedule_fails then none else some (schedule_of req);
    mode = if is_empty req.mode then normal else mode_of req.mode;
    encrypted = req.encrypted;
    retention_days = if eq_ℤ req.retention_days (pos 0) then pos 30 else req.retention_days;
    sla_target_minutes = req.sla_target_minutes;
    rpo_target_minutes = req.rpo_target_minutes;
    rto_target_minutes = req.rto_target_minutes;
  };
  connection_id = connection;
  source_path = req.source_path;
  source_database = req.source_database;
  include_patterns = req.include_patterns;
  exclude_patterns = req.exclude_patterns;
  export_format = format;
}

-- A database job without a connection needs the name of its database.
unfoldable pub lacks_source : Reference → JobRequest → Bool
lacks_source unset req =
    is_database_source req.source_type && is_empty (trim_space req.source_database)
lacks_source _ req = false

abbrev pub same_agent : JobRequest → ℕ → Connection → Bool
same_agent req agent c = not (is_database_source req.source_type) || c.agent_id == agent

abbrev pub referred : Reference → Option ℕ
referred (refers id) = some id
referred _ = none

abbrev pub is_refused : Reference → Bool
is_refused refused = true
is_refused _ = false

-- A reference that is unset leaves the column as it is.
abbrev pub or_kept : Reference → Option ℕ → Option ℕ
or_kept (refers id) kept = some id
or_kept _ kept = kept

abbrev pub is_job : ℕ → ℕ → JobRow → Bool
is_job id org r = r.job.id == id && r.job.organization_id == org

module _ (parse : Text → Option ℕ) (upper : Text → Text) (fails schedule_fails : Bool) where
  -- With the agent, the storage target and the export format. The identifier is a primary key, and the
  -- agent and the target are foreign keys (server/internal/db/migrations/000001_init.up.sql).
  unfoldable pub create_row : ℕ → ℕ → ℕ → ℕ → Text → JobRequest → Office → Office × JobReply
  create_row id org agent storage format req o =
      let connection =
        resolve_connection parse (same_agent req agent) org req.connection_id o.connections in
      let policy = resolve_policy parse org req.policy_id o.policies in
      let row =
        new_job id org agent storage (referred connection) (referred policy) format schedule_fails
          req in
      if is_refused connection || lacks_source connection req || is_refused policy
      then (o, bad_request)
      else if fails
          || any (λ r. r.job.id == id) o.jobs
          || not (any (λ a. a.id == agent) o.agents && any (λ t. t.id == storage) o.storage_targets)
      then (o, server_error)
      else (record o { jobs = o.jobs ++ row ∷ [] }, created row)

  unfoldable pub create : ℕ → ℕ → Option JobRequest → Office → Office × JobReply
  create id org none o = (o, bad_request)
  create id org (some req) o =
      if not (is_complete req) then (o, bad_request) else elim (parse req.agent_id) [
        | none ↦ (o, bad_request)
        | some agent ↦ elim (parse req.storage_target_id) [
          | none ↦ (o, bad_request)
          | some storage ↦ elim (normalize_export_format upper req.source_type req.export_format) [
            | none ↦ (o, bad_request)
            | some format ↦ create_row id org agent storage format req o
          ]
        ]
      ]

  -- The two UPDATEs, of the job and of its schedule; the agent and the target of the request are ignored.
  unfoldable pub edit_job : Reference → Reference → Text → JobRequest → JobRow → JobRow
  edit_job connection policy format req row =
      let columns = if fails then row else record row {
        job = record (row.job) {
          name = req.name;
          mode = mode_of req.mode;
          encrypted = req.encrypted;
          retention_days = req.retention_days;
          sla_target_minutes = req.sla_target_minutes;
          rpo_target_minutes = req.rpo_target_minutes;
          rto_target_minutes = req.rto_target_minutes;
          policy_id = or_kept policy row.job.policy_id;
        };
        connection_id = or_kept connection row.connection_id;
        source_path = req.source_path;
        source_database = req.source_database;
        include_patterns = req.include_patterns;
        exclude_patterns = req.exclude_patterns;
        export_format = format;
      } in
      if is_empty req.cron_expr || schedule_fails
      then columns
      else record columns { job = record (columns.job) { schedule = some (schedule_of req) } }

  unfoldable pub update_row : ℕ → Text → JobRequest → JobRow → Office → Office × JobReply
  update_row org format req row o =
      let connection = resolve_connection parse (λ c. true) org req.connection_id o.connections in
      let policy = resolve_policy parse org req.policy_id o.policies in
      if is_refused connection || is_refused policy then (o, bad_request) else (
        record o {
          jobs =
              update_where (λ r. r.job.id == row.job.id) (edit_job connection policy format req)
                o.jobs;
        },
        updated (edit_job connection policy format req row),
      )

  unfoldable pub update : ℕ → Option ℕ → Option JobRequest → Office → Office × JobReply
  update org none req o = (o, bad_request)
  update org (some id) req o = elim (first_where (is_job id org) o.jobs) [
    | none ↦ (o, not_found)
    | some row ↦ elim req [
      | none ↦ (o, bad_request)
      | some r ↦
          if not (is_complete r)
          then (o, bad_request)
          else elim (normalize_export_format upper row.job.source_type r.export_format) [
            | none ↦ (o, bad_request)
            | some format ↦ update_row org format r row o
          ]
    ]
  ]

unfoldable pub delete_job : Bool → ℕ → Option ℕ → Office → Office × JobReply
delete_job fails org none o = (o, bad_request)
delete_job fails org (some id) o =
    (if fails then o else record o { jobs = keep (λ r. not (is_job id org r)) o.jobs }, deleted)
