-- ===== src/Runner/Restoring.antt =====
-- agent/internal/agent/runner.go, executeRestore: the agent carries out one restore.
--
-- The answers to its reports are ignored by the agent, so that its deeds are a list. `RestoreTools` is
-- what the machine, the storage provider and the database tools answer; each is given the path of the
-- archive that it is to read. Log lines and the removal of temporary files are left out.
pub mod Closing
use db_backup_app.Base.{
  ℕ, zero, suc, Bool, ◌||◌, Option, List, [], ◌∷◌, ◌++◌, if◌then◌else◌, Text, lit, text_eq,
  is_empty, trim_space,
}
use db_backup_app.Restores.{RestoreReport, RestoreStatus}
use db_backup_app.Restores
use db_backup_app.Runner.{Outcome, attempt, unless_error, with_error, is_mssql_source, format_of}
use db_backup_app.Runner.Config.{or_default}

pub record Restore : Type 0 where
  pub destination_path : Text
  pub target_database : Text
  pub storage_path : Text
  pub data_key : Text
  pub source_type : Text
  pub source_database : Text
  pub export_format : Text

pub record RestoreTools : Type 0 where
  pub upper : Text → Text
  pub lower : Text → Text
  pub quote : Text → Text
  pub storage_error : Option Text
  pub shutting_down : Bool
  pub is_local : Bool
  pub download : Outcome Text  -- the temporary file
  pub decode_key : Outcome Text
  pub decrypt : Text → Option Text
  pub postgres : Text → Option Text
  pub mssql : Text → Option Text
  pub mongo_archive : Text → Option Text
  pub mongo_export : Text → Text → Option Text  -- with the format
  pub files : Text → Option Text
  pub pushes : ℕ  -- the calls of the progress callback that are not too early

pub data Deed : Type 0 where
  tells : RestoreReport → Deed
  downloads : Text → Text → Deed  -- the object, and the file
  decrypts : Text → Text → Deed  -- the file, and the new one
  replays : Text → Option Text → Deed  -- the archive, and the error if it failed

abbrev pub told : RestoreStatus → Text → Deed
told status message = tells (record { status = status; error_message = message })

abbrev pub fails : Text → List Deed
fails message = told Restores.failed message ∷ []

-- The tool is run on the archive, and its outcome is reported.
unfoldable pub replay_with : Text → (Text → Option Text) → Text → List Deed
replay_with label tool path =
    replays path (tool path)
    ∷ unless_error (tool path) (λ e. fails (with_error label e)) (told Restores.completed [] ∷ [])

abbrev pub running_reports : ℕ → List Deed
running_reports zero = []
running_reports (suc n) = told Restores.running [] ∷ running_reports n

unfoldable pub replay_files : RestoreTools → Text → List Deed
replay_files t path =
    replays path (t.files path)
    ∷ (running_reports t.pushes
        ++ unless_error (t.files path) (λ e. fails (with_error (lit "restore failed") e))
            (told Restores.completed [] ∷ []))

unfoldable pub replay_mongo : RestoreTools → Restore → Text → List Deed
replay_mongo t rs path =
    let format = format_of t.upper rs.export_format in
    if is_empty (or_default rs.target_database rs.source_database)
    then fails (lit "MONGODB restore needs a target database")
    else if text_eq format (lit "ARCHIVE")
    then replay_with (lit "mongorestore failed") t.mongo_archive path
    else if text_eq format (lit "JSON") || text_eq format (lit "CSV")
    then replay_with (lit "mongo " ++ (t.lower format ++ lit " restore failed"))
        (t.mongo_export format) path
    else fails
        (with_error (lit " failed") (lit "unknown export_format " ++ t.quote rs.export_format))

unfoldable pub replay : RestoreTools → Restore → Text → List Deed
replay t rs path =
    if text_eq rs.source_type (lit "POSTGRES")
    then (if is_empty rs.target_database
        then fails (lit "POSTGRES restore needs a target database")
        else replay_with (lit "pg_restore failed") t.postgres path)
    else if is_mssql_source rs.source_type
    then (if is_empty rs.target_database
        then fails (lit "SQL Server restore needs a target database")
        else replay_with (lit "RESTORE DATABASE failed") t.mssql path)
    else if text_eq rs.source_type (lit "MONGODB")
    then replay_mongo t rs path
    else replay_files t path

-- With a data key the archive is decrypted first: from the path that the server gave.
unfoldable pub open_archive : RestoreTools → Restore → Text → List Deed
open_archive t rs src =
    if is_empty rs.data_key
    then replay t rs src
    else attempt t.decode_key (λ e. fails (with_error (lit "bad data key") e))
        (λ key.
          decrypts rs.storage_path (src ++ lit ".dec")
          ∷ unless_error (t.decrypt rs.storage_path)
              (λ e. fails (with_error (lit "decrypt failed") e)) (replay t rs (src ++ lit ".dec")))

-- An object of a remote store is downloaded first.
unfoldable pub fetch : RestoreTools → Restore → List Deed
fetch t rs =
    if t.is_local
    then open_archive t rs rs.storage_path
    else attempt t.download (λ e. fails (with_error (lit "download failed") e))
        (λ file. downloads rs.storage_path file ∷ open_archive t rs file)

unfoldable pub execute_restore : RestoreTools → Restore → List Deed
execute_restore t rs =
    unless_error t.storage_error (λ e. fails (with_error (lit "storage initialization failed") e))
      (if t.shutting_down then fails (lit "agent shutting down") else fetch t rs)
