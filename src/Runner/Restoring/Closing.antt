-- ===== src/Runner/Restoring/Closing.antt =====
-- A restore is always closed, and which file is decrypted.
use db_backup_app.Base.{
  ◌≡◌, refl, ap, Bool, true, false, ◌||◌, Option, none, some, inl, inr, Option-cases, List, [], ◌∷◌,
  ◌++◌, arith, Text, lit, text_eq, is_empty, branch, any,
}
use db_backup_app.Restores.{RestoreReport, RestoreStatus, is_final}
use db_backup_app.Restores
use db_backup_app.Runner.{ok, unless_error, is_mssql_source, with_error, format_of}
use db_backup_app.Runner.Config.{or_default}
use db_backup_app.Runner.Endings.{on_attempt, on_error}
use db_backup_app.Runner.Restoring.{
  Restore, RestoreTools, Deed, tells, downloads, decrypts, replays, told, fails, replay_with,
  replay_files, replay_mongo, replay, open_archive, fetch, execute_restore, running_reports,
}

-- The last deed is to report an end: COMPLETED after an archive was replayed without an error, or FAILED.
abbrev is_replay : Deed → Bool
is_replay (replays path none) = true
is_replay _ = false

abbrev ends_well : RestoreStatus → Bool
ends_well Restores.completed = true
ends_well _ = false

pub record Closed (ds : List Deed) : Type 0 where
  pub before : List Deed
  pub report : RestoreReport
  pub splits : ds ≡ before ++ tells report ∷ []
  pub final : is_final report.status ≡ true
  pub replayed : ends_well report.status ≡ true → any is_replay before ≡ true

fails-Closed : (message : Text) → Closed (fails message)
fails-Closed message = record {
  before = [];
  report = record { status = Restores.failed; error_message = message };
  splits = refl;
  final = refl;
  replayed = λ h. absurd (cc);
}

then-Closed : (d : Deed) (ds : List Deed) → Closed ds → Closed (d ∷ ds)
then-Closed d ds c = record {
  before = d ∷ c.before;
  report = c.report;
  splits = ap (λ l. d ∷ l) c.splits;
  final = c.final;
  replayed = λ h. ground (arith, c.replayed h);
}

-- After a replay, a list of deeds and the report of its outcome.
replayed-Closed :
    (path : Text) (middle : List Deed)
    → Closed (replays path none ∷ (middle ++ told Restores.completed [] ∷ []))
replayed-Closed path middle = record {
  before = replays path none ∷ middle;
  report = record { status = Restores.completed; error_message = [] };
  splits = refl;
  final = refl;
  replayed = λ _. refl;
}

not_replayed-Closed :
    (path e : Text) (middle : List Deed) (message : Text)
    → Closed (replays path (some e) ∷ (middle ++ fails message))
not_replayed-Closed path e middle message = record {
  before = replays path (some e) ∷ middle;
  report = record { status = Restores.failed; error_message = message };
  splits = refl;
  final = refl;
  replayed = λ h. absurd (cc);
}

replay_with-Closed :
    (label : Text) (tool : Text → Option Text) (path : Text) → Closed (replay_with label tool path)
unfolding replay_with
replay_with-Closed label tool path = elim (Option-cases (tool path)) [
  | inl fine ↦ rw fine (replayed-Closed path [])
  | inr (e, failed) ↦ rw failed (not_replayed-Closed path e [] _)
]

replay_files-Closed : (t : RestoreTools) (path : Text) → Closed (replay_files t path)
unfolding replay_files
replay_files-Closed t path = elim (Option-cases (t.files path)) [
  | inl fine ↦ rw fine (replayed-Closed path (running_reports t.pushes))
  | inr (e, failed) ↦ rw failed (not_replayed-Closed path e (running_reports t.pushes) _)
]

replay_mongo-Closed :
    (t : RestoreTools) (rs : Restore) (path : Text) → Closed (replay_mongo t rs path)
unfolding replay_mongo
replay_mongo-Closed t rs path =
    branch Closed (is_empty (or_default rs.target_database rs.source_database))
      (λ _. fails-Closed _)
      (λ _.
        branch Closed (text_eq format (lit "ARCHIVE"))
          (λ _. replay_with-Closed _ t.mongo_archive path)
          (λ _.
            branch Closed (text_eq format (lit "JSON") || text_eq format (lit "CSV"))
              (λ _. replay_with-Closed _ (t.mongo_export format) path) (λ _. fails-Closed _)))
  where
    format : Text
    format = format_of t.upper rs.export_format

replay-Closed : (t : RestoreTools) (rs : Restore) (path : Text) → Closed (replay t rs path)
unfolding replay
replay-Closed t rs path =
    branch Closed (text_eq rs.source_type (lit "POSTGRES"))
      (λ _.
        branch Closed (is_empty rs.target_database) (λ _. fails-Closed _)
          (λ _. replay_with-Closed _ t.postgres path))
      (λ _.
        branch Closed (is_mssql_source rs.source_type)
          (λ _.
            branch Closed (is_empty rs.target_database) (λ _. fails-Closed _)
              (λ _. replay_with-Closed _ t.mssql path))
          (λ _.
            branch Closed (text_eq rs.source_type (lit "MONGODB"))
              (λ _. replay_mongo-Closed t rs path) (λ _. replay_files-Closed t path)))

open_archive-Closed :
    (t : RestoreTools) (rs : Restore) (src : Text) → Closed (open_archive t rs src)
unfolding open_archive
open_archive-Closed t rs src =
    branch Closed (is_empty rs.data_key) (λ _. replay-Closed t rs src)
      (λ _.
        on_attempt Closed t.decode_key (λ _ _. fails-Closed _)
          (λ key _. then-Closed _ _ (
            on_error Closed (t.decrypt rs.storage_path) (λ _. fails-Closed _)
              (replay-Closed t rs (src ++ lit ".dec")))))

-- Whatever the tools answer, the last deed of a restore is to report COMPLETED or FAILED, and COMPLETED
-- only after a tool replayed an archive without an error.
pub execute_restore-Closed : (t : RestoreTools) (rs : Restore) → Closed (execute_restore t rs)
unfolding execute_restore fetch
execute_restore-Closed t rs =
    on_error Closed t.storage_error (λ _. fails-Closed _)
      (branch Closed t.shutting_down (λ _. fails-Closed _)
        (λ _.
          branch Closed t.is_local (λ _. open_archive-Closed t rs rs.storage_path)
            (λ _.
              on_attempt Closed t.download (λ _ _. fails-Closed _)
                (λ file _. then-Closed _ _ (open_archive-Closed t rs file)))))

-- The restore of an encrypted backup of a remote store, with a data key that decodes, decrypts the path
-- of the object in the store, not the file that was downloaded from there.
pub execute_restore-decrypts_key :
    (t : RestoreTools) (rs : Restore) (file key : Text)
    → t.storage_error ≡ none
    → t.shutting_down ≡ false
    → t.is_local ≡ false
    → t.download ≡ ok file
    → is_empty rs.data_key ≡ false
    → t.decode_key ≡ ok key
    → (rest : List Deed) × (execute_restore t rs
        ≡ downloads rs.storage_path file ∷ decrypts rs.storage_path (file ++ lit ".dec") ∷ rest)
unfolding execute_restore fetch open_archive
execute_restore-decrypts_key t rs file key fine going remote got encrypted decodes = (
  unless_error (t.decrypt rs.storage_path) (λ e. fails (with_error (lit "decrypt failed") e))
      (replay t rs (file ++ lit ".dec")),
  simp (fine, going, remote, got, encrypted, decodes),
)
