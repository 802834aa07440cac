-- ===== src/Verification.antt =====
-- server/internal/handlers/backup_run.go, Verify: a user has the file of a completed run hashed again.
--
-- `fails` and `f` say which statements fail; neither error is asked for. `sums` is sha256File, none if the file cannot be read; the target is looked up among those that are there.
pub mod Outcome
use db_backup_app.Base.{
  ℕ, Bool, true, false, ◌&&◌, ◌||◌, not, Option, none, some, List, [], ◌∷◌, ◌++◌, ◌==◌,
  if◌then◌else◌, Text, lit, text_eq, is_empty, update_where, first_where,
}
use db_backup_app.Alerts.{AlertInput, Faults, raise_alert, verify_failed}
use db_backup_app.Runs.{Run, completed, same_status}
use db_backup_app.Store.{
  is_local, Server, Env, Artifact, ArtifactStatus, verified, verify_fail, StorageType, local,
  find_target,
}

pub data VerifyReply : Type 0 where
  matched : Text → VerifyReply
  mismatched : Text → Text → VerifyReply  -- expected, actual
  bad_request not_found bad_gateway : VerifyReply

-- Every artifact of the run gets the outcome, unless the statement fails.
unfoldable pub settle : Bool → ℕ → ArtifactStatus → ℕ → List Artifact → List Artifact
settle fails run status now artifacts =
    if fails
    then artifacts
    else update_where (λ a. a.backup_run_id == run)
        (λ a. record a { verification_status = status; verified_at = some now }) artifacts

abbrev pub verify_failed_key : Env → ℕ → Text
verify_failed_key env run = lit "verify-failed:run:" ++ env.uuid_text run

unfoldable pub verify_alert : Env → Run → Text → AlertInput
verify_alert env run sum = record {
  organization_id = run.organization_id;
  type = verify_failed;
  title = lit "Backup verification failed";
  message =
      lit "stored file hash mismatch for run "
      ++ env.uuid_text run.id
      ++ lit " (expected "
      ++ run.checksum
      ++ lit ", got "
      ++ sum
      ++ lit ")";
  backup_job_id = some run.backup_job_id;
  agent_id = some run.agent_id;
  dedup_key = verify_failed_key env run.id;
  severity = none;
  email_subject = lit "[VaultGuard] Backup verification failed";
  email_body =
      lit "Stored file for run "
      ++ env.uuid_text run.id
      ++ lit " does not match its recorded checksum.\nExpected: "
      ++ run.checksum
      ++ lit "\nActual:   "
      ++ sum
      ++ lit "\n\nTreat this recovery point as suspect until investigated.";
}

module _ (env : Env) (fails : Bool) (f : Faults) (alert now : ℕ) (sums : Text → Option Text) where
  -- With the hash of what is stored.
  unfoldable pub conclude : Run → Text → Server → Server × VerifyReply
  conclude run sum s =
      if text_eq sum (env.lower run.checksum)
      then (record s { artifacts = settle fails run.id verified now s.artifacts }, matched sum)
      else (
        record s {
          artifacts = settle fails run.id verify_fail now s.artifacts;
          book = (raise_alert f s.book (verify_alert env run sum) alert now).0;
        },
        mismatched run.checksum sum,
      )

  unfoldable pub verify_run : Run → Server → Server × VerifyReply
  verify_run run s =
      if not (same_status run.status completed) || is_empty run.checksum
      then (s, bad_request)
      else elim (find_target run.storage_target_id s.targets) [
        | none ↦ (s, not_found)
        | some target ↦
            if not (is_local target.type) then (s, bad_request) else elim (sums run.storage_path) [
              | none ↦ (s, bad_gateway)
              | some sum ↦ conclude run sum s
            ]
      ]

  unfoldable pub verify : ℕ → Option ℕ → Server → Server × VerifyReply
  verify org none s = (s, bad_request)
  verify org (some id) s =
      elim (first_where (λ (r : Run). r.id == id && r.organization_id == org) s.runs) [
        | none ↦ (s, not_found)
        | some run ↦ verify_run run s
      ]
