-- ===== src/Examples/Agent.antt =====
-- The agent: runs, restores and polls on concrete answers.
use db_backup_app.Base.{
  ℕ, ◌≡◌, ◌≤◌, refl, true, false, none, some, List, [], ◌∷◌, ◌++◌, pos, negsuc, arith, count_where,
  Text, lit, All, text_eq, contains,
}
use db_backup_app.Examples.Data.{env, call, run_of, server_with}
use db_backup_app.Reports.{has_negative, escapes}
use db_backup_app.Runner.{
  is_supported, produce, produce_files, push_progress, send, deliver, verify_stored, Channel, Tools,
  JobConfig, Archive, Sealed, ObjectInfo, Session, ok, pack, walk, execute_backup, final_report,
  seal, empty_report, reported, deleted,
}
use db_backup_app.Runner.Advance.{Stands, server_channel}
use db_backup_app.Runner.Completion.{Complete, pack-Complete}
use db_backup_app.Runner.Config.{itoa, escape_user}
use db_backup_app.Runner.Config.Decimal.{value, IsDigit, itoa-value}
use db_backup_app.Runner.Config.Escape.{unescape, IsSafe, unescape-escape_user}
use db_backup_app.Runner.Endings.{Ended, execute_backup-Ended}
use db_backup_app.Runner.LateCancel.{walk-deletes_completed}
use db_backup_app.Runner.Polling
use db_backup_app.Runner.Polling.{Poll, Listed, listed}
use db_backup_app.Runner.Polling.Revocation.{is_work, run-bounded}
use db_backup_app.Runner.Restoring
use db_backup_app.Runner.Restoring.{RestoreTools, execute_restore, downloads, decrypts}
use db_backup_app.Runner.Restoring.Closing.{Closed, execute_restore-Closed}
use db_backup_app.Runner.Verified.{Trusted, execute_backup-Trusted}
use db_backup_app.Runs.{running, verifying, completed, cancelled, Run}
use db_backup_app.Store.{Server}

abbrev files : Archive
files = record { bytes_read = pos 90; bytes_compressed = pos 40; checksum = lit "aa" }

abbrev object : ObjectInfo
object = record { size = pos 56; checksum = lit "bb"; location = lit "orgs/1/x" }

abbrev encrypted_files : Sealed
encrypted_files = record { checksum = lit "bb"; data_key = lit "k"; name = lit "n_7.enc" }

abbrev encrypted_job : JobConfig
encrypted_job = record {
  job_id = lit "4";
  organization_id = lit "1";
  name = lit "n";
  source_type = lit "FILESYSTEM";
  source_database = [];
  encrypted = true;
  export_format = [];
}

-- A machine and a store on which nothing fails.
abbrev tools : Tools
tools = record {
  run_id = lit "7";
  version = lit "1";
  upper = λ s. s;
  lower = λ s. s;
  quote = λ s. s;
  storage_error = none;
  shutting_down = false;
  pushes = pos 10 ∷ [];
  filesystem = ok files;
  postgres = ok (pos 1);
  mongo_archive = ok (pos 1);
  mongo_json = ok (pos 1);
  mongo_csv = ok (pos 1);
  mssql = ok (pos 1);
  checksum_file = ok (lit "aa");
  payload_size = ok (pos 40);
  data_key = ok (lit "k");
  encrypt_file = ok (lit "bb");
  open_error = none;
  stat_error = none;
  put = ok object;
  head = ok object;
}

-- A session that begins with these runs on the server.
abbrev session : List Run → Session Server
session runs = record { world = server_with runs; effects = [] }

-- A run that somebody wants cancelled.
abbrev unwanted : Run
unwanted = record (run_of 7 verifying) { cancel_requested = true }

abbrev in_time : call.update_fails ≡ false
in_time = refl

abbrev wraps : (key : Text) → (w : Text) × (env.encrypt key ≡ some w)
wraps key = (key, refl)

abbrev counted : has_negative (final_report files encrypted_files object completed) ≡ false
counted = refl

pack-Complete_example :
    Complete env call 7 in_time wraps files encrypted_files object counted
      (pack
        (server_channel env call 7)
        tools
        encrypted_job
        files
        (session (run_of 7 running ∷ []), false)).world
unfolding seal escapes lit text_eq
pack-Complete_example =
    pack-Complete env call 7 in_time wraps tools encrypted_job files encrypted_files object
      (session (run_of 7 running ∷ [])) counted
      (record {
        size = pos 40;
        measured = refl;
        some_bytes = refl;
        packed = refl;
        opened = refl;
        statted = refl;
        put = refl;
        head = object;
        found = refl;
        same = refl;
        sums = refl;
      })
      (record {
        run = run_of 7 running;
        stands = record { found = refl; owner = refl; status_is = refl; wanted = refl };
        inside = refl;
      })

execute_backup-Ended_example :
    Ended
      (execute_backup
        (server_channel env call 7)
        tools
        encrypted_job
        (session (run_of 7 running ∷ []))).effects
execute_backup-Ended_example =
    execute_backup-Ended (server_channel env call 7) tools encrypted_job
      (session (run_of 7 running ∷ []))

-- A process around a run to which no report makes a difference.
abbrev deaf : Channel ℕ
deaf = record { update = λ r s. (s, some false); socket = λ s. false; forget = λ s. s }

execute_backup-Trusted_example :
    Trusted deaf tools encrypted_job (record { world = 0; effects = [] })
unfolding execute_backup is_supported text_eq lit produce produce_files push_progress send pack seal
    deliver verify_stored walk
execute_backup-Trusted_example =
    execute_backup-Trusted deaf tools encrypted_job (record { world = 0; effects = [] }) refl refl

walk-deletes_completed_example :
    let q =
      walk
        (server_channel env call 7)
        files
        encrypted_files
        object
        (lit "key")
        (completed ∷ [])
        (session (unwanted ∷ [])) in
    (q.effects
      ≡ (([] ++ reported (final_report files encrypted_files object completed) (some true) ∷ [])
          ++ deleted (lit "key") ∷ [])
        ++ reported (empty_report cancelled) none ∷ [])
    × ((next : Run) × Stands call 7 true completed q.world next
        × (next.storage_path ≡ lit "orgs/1/x"))
unfolding escapes
walk-deletes_completed_example =
    walk-deletes_completed env call 7 in_time wraps files encrypted_files object (lit "key")
      unwanted (session (unwanted ∷ [])) refl
      (record { found = refl; owner = refl; status_is = refl; wanted = refl }) refl refl

-- A poll with one run to claim, and one of an agent whose credential was revoked.
abbrev busy_poll : Poll
busy_poll = record {
  stopping = false;
  heartbeat = none;
  runs = listed (record { id = 7; stopping = false; claim = Polling.granted false } ∷ []);
  restores = listed [];
}

abbrev last_poll : Poll
last_poll = record busy_poll { heartbeat = some (lit "agent revoked") }

abbrev unchanged_text : Text → Text
unchanged_text s = s

run-bounded_example :
    (count_where is_work (Polling.poll_once unchanged_text busy_poll).deeds ≤ 1)
    × (count_where is_work (Polling.run unchanged_text (busy_poll ∷ busy_poll ∷ [])) ≤ 2)
    × (Polling.run unchanged_text ((busy_poll ∷ last_poll ∷ []) ++ busy_poll ∷ [])
        ≡ Polling.run unchanged_text ((busy_poll ∷ last_poll ∷ []) ++ []))
unfolding Polling.is_revoked_error contains lit
run-bounded_example =
    run-bounded unchanged_text busy_poll (busy_poll ∷ busy_poll ∷ []) (busy_poll ∷ last_poll ∷ [])
      (busy_poll ∷ []) [] refl

abbrev restore_tools : RestoreTools
restore_tools = record {
  upper = λ s. s;
  lower = λ s. s;
  quote = λ s. s;
  storage_error = none;
  shutting_down = false;
  is_local = false;
  download = ok (lit "/tmp/x");
  decode_key = ok (lit "k");
  decrypt = λ path. none;
  postgres = λ path. none;
  mssql = λ path. none;
  mongo_archive = λ path. none;
  mongo_export = λ format path. none;
  files = λ path. none;
  pushes = 1;
}

abbrev encrypted_restore : Restoring.Restore
encrypted_restore = record {
  destination_path = lit "/srv";
  target_database = [];
  storage_path = lit "orgs/1/x";
  data_key = lit "k";
  source_type = lit "FILESYSTEM";
  source_database = [];
  export_format = [];
}

execute_restore-Closed_example : Closed (execute_restore restore_tools encrypted_restore)
execute_restore-Closed_example = execute_restore-Closed restore_tools encrypted_restore

itoa-value_example :
    (value 0 (itoa (pos 27017)) ≡ 27017)
    × All IsDigit (itoa (pos 27017))
    × ((ds : Text) × (itoa (negsuc 0) ≡ lit "-" ++ ds) × (value 0 ds ≡ 1) × All IsDigit ds)
itoa-value_example = itoa-value 27017 0 (omega arith) (omega arith)

unescape-escape_user_example :
    (unescape (escape_user (lit "a@b:c%d/e")) ≡ lit "a@b:c%d/e")
    × All IsSafe (escape_user (lit "a@b:c%d/e"))
unescape-escape_user_example = unescape-escape_user (lit "a@b:c%d/e")
