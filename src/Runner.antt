-- ===== src/Runner.antt =====
-- agent/internal/agent/runner.go: the agent carries out one backup run and reports on it.
--
-- `Channel` is the process around a run: UpdateRunStatus over HTTP (none is an error, which is logged),
-- the cancel commands of the socket, and forgetting them. Other requests may change the world within a
-- call. `Tools` is what the machine, the database tools and the storage provider answer; `effects` is
-- what the agent does outside of the machine, in order. Log lines and temporary files are left out.
pub mod Config
pub mod Endings
pub mod Verified
pub mod Advance
pub mod Completion
pub mod LateCancel
pub mod Polling
pub mod Restoring
use db_backup_app.Base.{
  ℕ, Bool, true, false, ◌&&◌, ◌||◌, not, Option, none, some, List, [], ◌∷◌, ◌++◌, ◌==◌,
  if◌then◌else◌, eq_ℤ, ℤ, pos, negsuc, Text, lit, text_eq, is_empty, trim_space,
}
use db_backup_app.Paths.{join_all}
use db_backup_app.Reports.{Report}
use db_backup_app.Runner.Config.{itoa}
use db_backup_app.Runs.{RunStatus, running, uploading, verifying, completed, failed, cancelled}

pub data Outcome (A : Type 0) : Type 0 where
  ok : A → Outcome A
  error : Text → Outcome A

-- if err != nil { … return }
abbrev pub attempt : {A B : Type 0} → Outcome A → (Text → B) → (A → B) → B
attempt (ok a) fails goes_on = goes_on a
attempt (error e) fails goes_on = fails e

abbrev pub unless_error : {B : Type 0} → Option Text → (Text → B) → B → B
unless_error none fails rest = rest
unless_error (some e) fails rest = fails e

abbrev pub answered : {B : Type 0} → Option Bool → B → (Bool → B) → B
answered none fails goes_on = fails
answered (some cancel) fails goes_on = goes_on cancel

pub data Effect : Type 0 where
  reported : Report → Option Bool → Effect  -- with the answer
  stored deleted : Text → Effect
  registered : Text → ℤ → Text → Text → Effect  -- name, size, checksum, path

pub record Channel (S : Type 0) : Type 0 where
  pub update : Report → S → S × Option Bool
  pub socket : S → Bool
  pub forget : S → S

pub record Session (S : Type 0) : Type 0 where
  pub world : S
  pub effects : List Effect

pub record JobConfig : Type 0 where
  pub job_id : Text
  pub organization_id : Text
  pub name : Text
  pub source_type : Text
  pub source_database : Text
  pub encrypted : Bool
  pub export_format : Text

pub record Archive : Type 0 where
  pub bytes_read : ℤ
  pub bytes_compressed : ℤ
  pub checksum : Text

pub record ObjectInfo : Type 0 where
  pub size : ℤ
  pub checksum : Text
  pub location : Text

-- Sizes and checksums are those of the files that the tools write.
pub record Tools : Type 0 where
  pub run_id : Text
  pub version : Text
  pub upper : Text → Text
  pub lower : Text → Text
  pub quote : Text → Text
  pub storage_error : Option Text
  pub shutting_down : Bool
  pub pushes : List ℤ  -- the calls of the progress callback that are not too early
  pub filesystem : Outcome Archive
  pub postgres : Outcome ℤ
  pub mongo_archive : Outcome ℤ
  pub mongo_json : Outcome ℤ
  pub mongo_csv : Outcome ℤ
  pub mssql : Outcome ℤ
  pub checksum_file : Outcome Text
  pub payload_size : Outcome ℤ
  pub data_key : Outcome Text
  pub encrypt_file : Outcome Text
  pub open_error : Option Text
  pub stat_error : Option Text
  pub put : Outcome ObjectInfo
  pub head : Outcome ObjectInfo

abbrev pub empty_report : RunStatus → Report
empty_report status = record {
  status = status;
  bytes_read = pos 0;
  bytes_compressed = pos 0;
  bytes_uploaded = pos 0;
  error_message = [];
  storage_path = [];
  checksum = [];
  data_key = [];
}

-- fmt.Sprintf("%s: %v", msg, err)
abbrev pub with_error : Text → Text → Text
with_error msg e = msg ++ (lit ": " ++ e)

abbrev pub is_zero : ℤ → Bool
is_zero (pos n) = n == 0
is_zero (negsuc n) = false

abbrev pub is_mssql_source : Text → Bool
is_mssql_source s = text_eq s (lit "MSSQL_SERVER") || text_eq s (lit "SQL_SERVER")

unfoldable pub is_supported : Text → Bool
is_supported s =
    text_eq s (lit "FILESYSTEM")
    || text_eq s (lit "POSTGRES")
    || text_eq s (lit "MONGODB")
    || is_mssql_source s

-- A database dump: its size, then its checksum.
unfoldable pub dumped : Text → Outcome ℤ → Outcome Text → Outcome Archive
dumped label (error e) sum = error (with_error label e)
dumped label (ok size) (error e) = error (with_error (lit "checksum failed") e)
dumped label (ok size) (ok sum) =
    ok (record { bytes_read = size; bytes_compressed = size; checksum = sum })

-- The export format, ARCHIVE by default.
unfoldable pub format_of : (Text → Text) → Text → Text
format_of upper given =
    let format = upper (trim_space given) in if is_empty format then lit "ARCHIVE" else format

unfoldable pub produce_mongo : Tools → JobConfig → Outcome Archive
produce_mongo t job =
    let format = format_of t.upper job.export_format in
    if text_eq format (lit "ARCHIVE")
    then dumped (lit "mongodump failed") t.mongo_archive t.checksum_file
    else if text_eq format (lit "JSON")
    then dumped (lit "mongo json export failed") t.mongo_json t.checksum_file
    else if text_eq format (lit "CSV")
    then dumped (lit "mongo csv export failed") t.mongo_csv t.checksum_file
    else error (
        lit "unknown export_format "
        ++ (t.quote job.export_format ++ lit " (want ARCHIVE, JSON, or CSV)"))

unfoldable pub produce_database : Tools → JobConfig → Outcome Archive
produce_database t job =
    if is_empty job.source_database
    then error (
        (if is_mssql_source job.source_type then lit "MSSQL" else job.source_type)
        ++ lit " job has no source_database configured")
    else if text_eq job.source_type (lit "POSTGRES")
    then dumped (lit "pg_dump failed") t.postgres t.checksum_file
    else if text_eq job.source_type (lit "MONGODB")
    then produce_mongo t job
    else dumped (lit "BACKUP DATABASE failed") t.mssql t.checksum_file

unfoldable pub produce_files : Outcome Archive → Outcome Archive
produce_files (ok a) = ok a
produce_files (error e) = error (with_error (lit "backup failed") e)

-- What is uploaded: its checksum, the data key, and its name.
pub record Sealed : Type 0 where
  pub checksum : Text
  pub data_key : Text
  pub name : Text

unfoldable pub seal : Tools → JobConfig → Archive → Outcome Sealed
seal t job archive =
    let name = job.name ++ (lit "_" ++ t.run_id) in
    if job.encrypted
    then attempt t.data_key (λ e. error (with_error (lit "generate data key failed") e))
        (λ key.
          attempt t.encrypt_file (λ e. error (with_error (lit "encrypt failed") e))
            (λ sum. ok (record { checksum = sum; data_key = key; name = name ++ lit ".enc" })))
    else ok (record { checksum = archive.checksum; data_key = []; name = name })

-- agent/internal/storage/storage.go, BuildKey.
unfoldable pub build_key : Text → Text → Text → Text → Text
build_key org job run filename =
    join_all (lit "orgs" ∷ org ∷ lit "jobs" ∷ job ∷ lit "runs" ∷ run ∷ filename ∷ [])

abbrev pub key_of : Tools → JobConfig → Sealed → Text
key_of t job sealed = build_key job.organization_id job.job_id t.run_id sealed.name

-- The report of each step of the walk, with the final counters.
abbrev pub final_report : Archive → Sealed → ObjectInfo → RunStatus → Report
final_report archive sealed info status = record {
  status = status;
  bytes_read = archive.bytes_read;
  bytes_compressed = archive.bytes_compressed;
  bytes_uploaded = info.size;
  error_message = [];
  storage_path = info.location;
  checksum = sealed.checksum;
  data_key = sealed.data_key;
}

module _ {S : Type 0} (ch : Channel S) where
  abbrev pub act : Effect → Session S → Session S
  act e s = record s { effects = s.effects ++ e ∷ [] }

  unfoldable pub send : Report → Session S → Session S × Option Bool
  send r s =
      let answer = ch.update r s.world in
      (record { world = answer.0; effects = s.effects ++ reported r answer.1 ∷ [] }, answer.1)

  unfoldable pub fail_run : Text → Session S → Session S
  fail_run message s = (send (record (empty_report failed) { error_message = message }) s).0

  unfoldable pub cancel_run : Session S → Session S
  cancel_run s = (send (empty_report cancelled) (record s { world = ch.forget s.world })).0

  abbrev pub cancelled_by_user : Bool → Session S → Bool
  cancelled_by_user flag s = flag || ch.socket s.world

  abbrev pub flag_of : Option Bool → Bool
  flag_of none = false
  flag_of (some flag) = flag

  -- The progress callback; the flag is `cancelSeen`.
  unfoldable pub push_progress : List ℤ → Session S × Bool → Session S × Bool
  push_progress [] s = s
  push_progress (read ∷ rest) (s, seen) =
      let r = send (record (empty_report running) { bytes_read = read }) s in
      push_progress rest (r.0, seen || cancelled_by_user (flag_of r.1) r.0)

  unfoldable pub walk :
      Archive → Sealed → ObjectInfo → Text → List RunStatus → Session S → Session S
  walk archive sealed info key [] s = record s { world = ch.forget s.world }
  walk archive sealed info key (status ∷ rest) s =
      let r = send (final_report archive sealed info status) s in
      let onward = walk archive sealed info key rest r.0 in
      answered r.1 r.0 (λ cancel.
        if cancelled_by_user cancel r.0 then cancel_run (act (deleted key) r.0) else onward)

  -- HEAD, size and checksum before anything is trusted.
  unfoldable pub verify_stored :
      Tools → Archive → Sealed → ObjectInfo → Text → Session S → Session S
  verify_stored t archive sealed info key s =
      attempt t.head (λ e. fail_run (with_error (lit "verify failed: HEAD") e) s)
        (λ head.
          if not (eq_ℤ head.size info.size)
          then fail_run
              (lit "verify failed: size mismatch (wrote "
                ++ (itoa info.size ++ (lit ", stored " ++ (itoa head.size ++ lit ")"))))
              (act (deleted key) s)
          else if not (is_empty head.checksum)
              && not (text_eq head.checksum (t.lower sealed.checksum))
          then fail_run (lit "verify failed: checksum mismatch") (act (deleted key) s)
          else walk archive sealed info key (uploading ∷ verifying ∷ completed ∷ [])
              (act (registered sealed.name info.size sealed.checksum info.location) s))

  unfoldable pub deliver : Tools → JobConfig → Archive → Sealed → Session S → Session S
  deliver t job archive sealed s =
      unless_error t.open_error (λ e. fail_run (with_error (lit "open payload failed") e) s)
        (unless_error t.stat_error (λ e. fail_run (with_error (lit "stat payload failed") e) s)
          (attempt t.put (λ e. fail_run (with_error (lit "upload failed") e) s)
            (λ info.
              verify_stored t archive sealed info (key_of t job sealed)
                (act (stored (key_of t job sealed)) s))))

  -- From the finished payload on.
  unfoldable pub pack : Tools → JobConfig → Archive → Session S × Bool → Session S
  pack t job archive (s, seen) =
      attempt t.payload_size
        (λ e. fail_run (with_error (lit "backup produced an empty payload (no data)") e) s)
        (λ size.
          if is_zero size
          then fail_run (lit "backup produced an empty payload (no data)") s
          else if cancelled_by_user seen s
          then cancel_run s
          else attempt (seal t job archive) (λ e. fail_run e s)
              (λ sealed. deliver t job archive sealed s))

  unfoldable pub produce : Tools → JobConfig → Session S → (Session S × Bool) × Outcome Archive
  produce t job s =
      if text_eq job.source_type (lit "FILESYSTEM")
      then (push_progress t.pushes (s, false), produce_files t.filesystem)
      else ((s, false), produce_database t job)

  unfoldable pub execute_backup : Tools → JobConfig → Session S → Session S
  execute_backup t job s =
      if cancelled_by_user false s
      then cancel_run s
      else if not (is_supported job.source_type)
      then fail_run
          (lit "source type "
            ++ (job.source_type
                ++ (lit " is not supported by agent v"
                    ++ (t.version
                        ++ lit " (supported: FILESYSTEM, POSTGRES, MONGODB, MSSQL_SERVER)"))))
          s
      else unless_error t.storage_error
          (λ e. fail_run (with_error (lit "storage initialization failed") e) s)
          (if t.shutting_down
            then fail_run (lit "agent shutting down") s
            else attempt (produce t job s).1 (λ e. fail_run e (produce t job s).0.0)
                (λ archive. pack t job archive (produce t job s).0))
