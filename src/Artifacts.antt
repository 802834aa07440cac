-- ===== src/Artifacts.antt =====
-- server/internal/handlers/backup_run.go, RegisterArtifact and RegisterChunk: an agent records what its
-- runs have stored.
--
-- Each handler looks for the row first and then inserts: insert_artifact and insert_chunk are what is
-- done from the insert on, on the table as it is by then, with its unique index.
pub mod Steps
pub mod Registered
pub mod Retries
use db_backup_app.Base.{
  ℕ, Bool, true, false, ◌&&◌, ◌||◌, not, Option, none, some, List, [], ◌∷◌, ◌++◌, ◌==◌,
  if◌then◌else◌, ℤ, pos, ltb_ℤ, eq_ℤ, Text, text_eq, is_empty, any, first_where,
}
use db_backup_app.Reports.{owned}
use db_backup_app.Runs.{Run}
use db_backup_app.Store.{Artifact, ArtifactStatus, unverified}

-- server/internal/models/backup_run.go, BackupChunk.
pub record Chunk : Type 0 where
  pub id : ℕ
  pub artifact_id : ℕ
  pub index : ℤ
  pub size : ℤ
  pub checksum : Text
  pub storage_path : Text
  pub uploaded : Bool

pub record Catalog : Type 0 where
  pub runs : List Run
  pub artifacts : List Artifact
  pub chunks : List Chunk

pub record ArtifactRequest : Type 0 where
  pub name : Text
  pub size : ℤ
  pub checksum : Text
  pub storage_path : Text

pub record ChunkRequest : Type 0 where
  pub index : ℤ
  pub size : ℤ
  pub checksum : Text
  pub storage_path : Text
  pub uploaded : Bool

pub data Registration (A : Type 0) : Type 0 where
  created existing : A → Registration A
  bad_request not_found forbidden conflict server_error : Registration A

-- The unique indexes of the two tables.
abbrev pub is_named : ℕ → Text → Artifact → Bool
is_named run name a = a.backup_run_id == run && text_eq a.name name

abbrev pub is_chunk : ℕ → ℤ → Chunk → Bool
is_chunk artifact index ch = ch.artifact_id == artifact && eq_ℤ ch.index index

unfoldable pub new_artifact : ℕ → Run → ArtifactRequest → Artifact
new_artifact id run req = record {
  id = id;
  backup_run_id = run.id;
  name = req.name;
  size = req.size;
  checksum = req.checksum;
  storage_path = req.storage_path;
  storage_target_id = run.storage_target_id;
  verified_at = none;
  verification_status = unverified;
}

-- An insert that fails answers with the row that is there, if there is one.
unfoldable pub insert_artifact : Bool → Artifact → Catalog → Catalog × Registration Artifact
insert_artifact fails a c =
    if fails || any (is_named a.backup_run_id a.name) c.artifacts
    then (
      c,
      elim (first_where (is_named a.backup_run_id a.name) c.artifacts) [
        | none ↦ server_error
        | some winner ↦ existing winner
      ],
    )
    else (record c { artifacts = c.artifacts ++ a ∷ [] }, created a)

unfoldable pub record_artifact :
    Bool → ℕ → Run → ArtifactRequest → Catalog → Catalog × Registration Artifact
record_artifact fails id run req c =
    if is_empty req.name || ltb_ℤ req.size (pos 0)
    then (c, bad_request)
    else elim (first_where (is_named run.id req.name) c.artifacts) [
      | none ↦ insert_artifact fails (new_artifact id run req) c
      | some a ↦ (c, existing a)
    ]

-- The run's identifier and the body are none if they do not parse.
unfoldable pub register_artifact :
    Bool → ℕ → ℕ → Option ℕ → Option ArtifactRequest → Catalog → Catalog × Registration Artifact
register_artifact fails id agent none req c = (c, bad_request)
register_artifact fails id agent (some run_id) req c =
    elim (first_where (owned run_id agent) c.runs) [
      | none ↦ (c, not_found)
      | some run ↦ elim req [ none ↦ (c, bad_request) | some r ↦ record_artifact fails id run r c ]
    ]

unfoldable pub new_chunk : ℕ → ℕ → ChunkRequest → Chunk
new_chunk id artifact req = record {
  id = id;
  artifact_id = artifact;
  index = req.index;
  size = req.size;
  checksum = req.checksum;
  storage_path = req.storage_path;
  uploaded = req.uploaded;
}

unfoldable pub insert_chunk : Bool → Chunk → Catalog → Catalog × Registration Chunk
insert_chunk fails ch c =
    if fails || any (is_chunk ch.artifact_id ch.index) c.chunks
    then (c, server_error)
    else (record c { chunks = c.chunks ++ ch ∷ [] }, created ch)

unfoldable pub record_chunk : Bool → ℕ → ℕ → ChunkRequest → Catalog → Catalog × Registration Chunk
record_chunk fails id artifact req c =
    if ltb_ℤ req.index (pos 0) || ltb_ℤ req.size (pos 0)
    then (c, bad_request)
    else elim (first_where (is_chunk artifact req.index) c.chunks) [
      | none ↦ insert_chunk fails (new_chunk id artifact req) c
      | some ch ↦ if text_eq ch.checksum req.checksum then (c, existing ch) else (c, conflict)
    ]

unfoldable pub register_chunk :
    Bool → ℕ → ℕ → Option ℕ → Option ChunkRequest → Catalog → Catalog × Registration Chunk
register_chunk fails id agent none req c = (c, bad_request)
register_chunk fails id agent (some artifact) req c =
    elim (first_where (λ (a : Artifact). a.id == artifact) c.artifacts) [
      | none ↦ (c, not_found)
      | some a ↦ elim (first_where (owned a.backup_run_id agent) c.runs) [
        | none ↦ (c, forbidden)
        | some run ↦ elim req [ none ↦ (c, bad_request) | some r ↦ record_chunk fails id a.id r c ]
      ]
    ]
