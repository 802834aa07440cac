-- ===== src/Lib.antt =====
-- A verification library for db-backup-app, a backup service: a server (server/, Go) that schedules
-- backup jobs, hands their runs to agents and watches over both, and the agents (agent/, Go).
--
-- The program's parts and their files here:
--   Alerts           server/internal/models/alert.go, services/alerts.go, handlers/alert.go: the alert
--                    table and what is sent out. raise_alert is RaiseAlert, coalesce_firing is
--                    coalesceFiring, resolve_alerts is ResolveAlerts; the handlers keep their names.
--   Notifications    NotifyAlert, inQuietHours and dispatchWebhook of services/alerts.go.
--   Agents           models/agent.go; agent_auth, grpc_auth and socket_auth are the authentication of
--                    middleware/agent_auth.go, grpcserver/server.go and realtime/hub.go.
--   Runs             models/backup_run.go: statuses, CanTransition, the row of a run. Its children hold
--                    the lifecycle as a relation and the ways a table of runs may change.
--   Store            the tables that the handlers of runs share, as one record.
--   Paths            filepath.Clean, the guard on a reported storage path, and the same guard on an
--                    archive entry in agent/internal/agent/restore.go.
--   Reports          UpdateStatus of handlers/backup_run.go, as `decide` up to the write and `commit`
--                    from there on.
--   Artifacts        RegisterArtifact and RegisterChunk of handlers/backup_run.go, with the unique indexes.
--   Verification     Verify of handlers/backup_run.go.
--   Cancel, Claims   Cancel of the same file; ClaimRun of handlers/agent_work.go and RunNow of
--                    handlers/backup_job.go.
--   Policy           EffectivePolicy of models/policy.go and validatePolicy of handlers/policy.go.
--   Jobs             Create, Update and Delete of handlers/backup_job.go; Removal has Delete of
--                    handlers/policy.go and of handlers/connections.go.
--   Scheduler        services/scheduler.go: tick, its retry pass (maybeFire) and fire.
--   Monitor          services/health_monitor.go: checkAgents and checkStaleRuns; Windows has
--                    checkMissedBackups, Retention has enforceRetention and Baselines updateSizeBaselines.
--   Enrollment       handlers/enrollment.go; enroll_commit is the transaction of Enroll.
--   Events           handleEvent for runs and ReportProgress of grpcserver/server.go.
--   Restores         models/restore.go and handlers/restore.go, split at their writes like Reports, and
--                    ClaimRestore of handlers/agent_work.go.
--   RateLimit        middleware/ratelimit.go.
--   Container        EncryptFile and DecryptFile of agent/internal/agent/crypto.go.
--   Hub              server/internal/realtime/hub.go: the event bus; its View is what the hub is for.
--   Runner           agent/internal/agent/runner.go: execute_backup is executeBackup; Config has the
--                    connections that the tools are given, Polling the poll loop and Restoring
--                    executeRestore. Completion and LateCancel run it against Reports.
--   Histories        the server as a whole, as a relation of steps that may come in any order.
--   Examples         concrete inputs.
--
-- The parts interact over the database: agents claim runs that the scheduler or a user made and
-- report on them; reports and monitor passes raise and resolve alerts; retention deletes runs. A table
-- is the list of its live rows, oldest insert first, and a statement is a function on it (Base/Rows).
-- A handler is a function from the state and its inputs (the time, new identifiers, what fails) to the
-- state and its reply. Between a handler's read and its write other requests may come in: the writes of
-- UpdateStatus and fire are functions of their own (commit, fire_insert), on the table as it is then.
-- Cancel's read and write are one step. An error that the source ignores is an input too (a Call, Faults,
-- PassFaults); what is shown under no such error says so.
--
-- Identifiers are natural numbers, instants and durations are nanoseconds, texts are lists of code
-- points, and a byte counter or a setting is an integer. The sum of sizes in Monitor/Baselines and
-- the counter of a nonce wrap around at 2^64, and the length in a frame at 2^32. Loops are
-- recursions on lists, except those over the frames of a file, which take one unit of fuel for each
-- byte and one more, and those over the digits of a number, whose fuel is what is left of the
-- buffer of 20 bytes; Container/RoundTrip and Runner/Config/Decimal show both to be enough.
--
-- Parameters stand for code of other parties: the cron library with the time zones (Cron), bcrypt
-- (`matches`), envelope encryption, the text of a UUID and the ORM's habit of writing updates back into
-- its struct (Env); for the agent, the outcomes of the database tools, the disk and the storage provider
-- (Tools, RestoreTools) and what the server answers to a report (Channel), which Completion instantiates
-- with update_status. The date arithmetic of retention takes a day for 24 hours.
--
-- Not modelled: the HTTP and gRPC layers, SMTP and webhook delivery, the database drivers and tools, the
-- WebSocket library, the agent's archive writer and installation, and the dashboard. BackupChunk rows
-- are left out of retention. Enrollment, gRPC events, restores, jobs and artifacts are not steps of
-- Histories.
mod Base
pub mod Paths
pub mod Alerts
pub mod Notifications
pub mod Agents
pub mod Enrollment
pub mod Runs
pub mod Store
pub mod Policy
pub mod Reports
pub mod Cancel
pub mod Claims
pub mod Scheduler
pub mod Monitor
pub mod Events
pub mod Container
pub mod RateLimit
pub mod Restores
pub mod Histories
mod Examples
pub mod Runner
pub mod Hub
pub mod Artifacts
pub mod Jobs
pub mod Verification
