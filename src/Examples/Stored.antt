-- ===== src/Examples/Stored.antt =====
-- Artifacts and chunks that are registered again, and a verification.
use db_backup_app.Base.{
  ◌≤◌, ◌≡◌, refl, Bool, true, false, some, List, [], ◌∷◌, pos, text_eq, Text, lit, arith,
  if◌then◌else◌, ◌==◌, ◌&&◌,
}
use db_backup_app.Alerts.{no_faults}
use db_backup_app.Artifacts.{
  Catalog, ChunkRequest, existing, conflict, record_chunk, insert_chunk, new_chunk,
}
use db_backup_app.Artifacts.Registered.{Unique, Keeps, run-Registered}
use db_backup_app.Artifacts.Steps.{Step, completes, registers_chunk, run}
use db_backup_app.Artifacts.Retries.{record_chunk-again}
use db_backup_app.Examples.Data.{env, artifact, run_of, server_with}
use db_backup_app.Runs.{Run, completed, verifying}
use db_backup_app.Store.{Server, local}
use db_backup_app.Verification.{verify}
use db_backup_app.Verification.Outcome.{Tells, verify-Tells}

-- One run with one artifact.
abbrev catalog : Catalog
catalog = record { runs = run_of 8 verifying ∷ []; artifacts = artifact ∷ []; chunks = [] }

abbrev chunk_request : Text → ChunkRequest
chunk_request checksum = record {
  index = pos 0;
  size = pos 9;
  checksum = checksum;
  storage_path = [];
  uploaded = false;
}

-- The run completes, and its artifact gets a chunk.
abbrev later : List Step
later = completes 8 40 ∷ registers_chunk false 51 3 (some 20) (some (chunk_request (lit "c"))) ∷ []

one_if-le : (b : Bool) → (if b then 1 else 0) ≤ 1
one_if-le true = omega arith
one_if-le false = omega arith

catalog-Unique : Unique catalog
catalog-Unique = record {
  names = λ of name. one_if-le ((8 == of) && text_eq [] name);
  indexes = λ of index. omega arith;
}

run-Registered_example : Unique (run later catalog) × Keeps catalog (run later catalog)
run-Registered_example = run-Registered later catalog catalog-Unique

record_chunk-again_example :
    let r = record_chunk false 50 20 (chunk_request (lit "c")) catalog in
    let d = run later r.0 in
    record_chunk false 60 20 (chunk_request (lit "d")) d ≡ (
      d,
      if text_eq (lit "c") (lit "d")
          then existing (new_chunk 50 20 (chunk_request (lit "c")))
          else conflict,
    )
unfolding record_chunk insert_chunk
record_chunk-again_example =
    record_chunk-again false false 50 60 20 (chunk_request (lit "c")) (chunk_request (lit "d"))
      (new_chunk 50 20 (chunk_request (lit "c"))) catalog later refl refl refl

-- A completed run on a local target, whose file has changed.
abbrev stored_run : Run
stored_run = record (run_of 8 completed) { checksum = lit "c"; storage_path = lit "/b/x" }

abbrev shelf : Server
shelf = record (server_with (stored_run ∷ [])) {
  targets = record { id = 5; type = local; path = lit "/b" } ∷ [];
}

verify-Tells_example :
    Tells env
      (λ path. some (lit "x"))
      stored_run
      shelf
      (verify env false no_faults 30 40 (λ path. some (lit "x")) 1 (some 8) shelf)
verify-Tells_example = verify-Tells env 30 40 (λ path. some (lit "x")) 1 8 stored_run shelf refl
