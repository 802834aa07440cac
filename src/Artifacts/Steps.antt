-- ===== src/Artifacts/Steps.antt =====
-- What may happen to the tables of artifacts and chunks.
use db_backup_app.Base.{
  ℕ, Bool, ◌||◌, Option, none, some, List, [], ◌∷◌, ◌==◌, pos, ltb_ℤ, text_eq, is_empty, branch,
  on_option, first_where,
}
use db_backup_app.Artifacts.{
  Catalog, Chunk, ArtifactRequest, ChunkRequest, Registration, is_named, is_chunk, new_artifact,
  new_chunk, insert_artifact, record_artifact, register_artifact, insert_chunk, record_chunk,
  register_chunk,
}
use db_backup_app.Reports.{verify_artifacts, owned}
use db_backup_app.Runs.{Run}
use db_backup_app.Store.{Artifact, ArtifactStatus}
use db_backup_app.Verification.{settle}

-- What may happen to the tables. An insert may come long after its look at the table; a report of
-- COMPLETED or a verification gives artifacts their outcome.
pub data Step : Type 0 where
  registers : Bool → ℕ → ℕ → Option ℕ → Option ArtifactRequest → Step
  registers_chunk : Bool → ℕ → ℕ → Option ℕ → Option ChunkRequest → Step
  inserts : Bool → Artifact → Step
  inserts_chunk : Bool → Chunk → Step
  completes : ℕ → ℕ → Step
  settles : Bool → ℕ → ArtifactStatus → ℕ → Step
  changes_runs : List Run → Step

abbrev pub step : Step → Catalog → Catalog
step (registers fails id agent run req) c = (register_artifact fails id agent run req c).0
step (registers_chunk fails id agent artifact req) c =
    (register_chunk fails id agent artifact req c).0
step (inserts fails a) c = (insert_artifact fails a c).0
step (inserts_chunk fails ch) c = (insert_chunk fails ch c).0
step (completes run now) c = record c { artifacts = verify_artifacts run now c.artifacts }
step (settles fails run status now) c = record c {
  artifacts = settle fails run status now c.artifacts;
}
step (changes_runs runs) c = record c { runs = runs }

unfoldable pub run : List Step → Catalog → Catalog
run [] c = c
run (s ∷ ss) c = run ss (step s c)

-- A handler leaves the tables as they are, or inserts.
pub on_artifact {κ} :
    (P : Catalog → Type κ) (fails : Bool) (id agent : ℕ) (run_id : Option ℕ)
    (req : Option ArtifactRequest) (c : Catalog)
    → P c
    → ((a : Artifact) → P (insert_artifact fails a c).0)
    → P (register_artifact fails id agent run_id req c).0
unfolding register_artifact record_artifact
on_artifact P fails id agent none req c same inserted = same
on_artifact P fails id agent (some run_id) none c same inserted =
    on_option (λ (r : Catalog × Registration Artifact). P r.0)
      (first_where (owned run_id agent) c.runs) (λ _. same) (λ _ _. same)
on_artifact P fails id agent (some run_id) (some req) c same inserted =
    on_option Q (first_where (owned run_id agent) c.runs) (λ _. same)
      (λ run _.
        branch Q (is_empty req.name || ltb_ℤ req.size (pos 0)) (λ _. same)
          (λ _.
            on_option Q (first_where (is_named run.id req.name) c.artifacts)
              (λ _. inserted (new_artifact id run req)) (λ _ _. same)))
  where
    Q : Catalog × Registration Artifact → Type κ
    Q r = P r.0

pub on_chunk {κ} :
    (P : Catalog → Type κ) (fails : Bool) (id agent : ℕ) (artifact : Option ℕ)
    (req : Option ChunkRequest) (c : Catalog)
    → P c
    → ((ch : Chunk) → P (insert_chunk fails ch c).0)
    → P (register_chunk fails id agent artifact req c).0
unfolding register_chunk record_chunk
on_chunk P fails id agent none req c same inserted = same
on_chunk P fails id agent (some artifact) none c same inserted =
    on_option Q (first_where (λ (a : Artifact). a.id == artifact) c.artifacts) (λ _. same)
      (λ a _.
        on_option Q (first_where (owned a.backup_run_id agent) c.runs) (λ _. same) (λ _ _. same))
  where
    Q : Catalog × Registration Chunk → Type κ
    Q r = P r.0
on_chunk P fails id agent (some artifact) (some req) c same inserted =
    on_option Q (first_where (λ (a : Artifact). a.id == artifact) c.artifacts) (λ _. same)
      (λ a _.
        on_option Q (first_where (owned a.backup_run_id agent) c.runs) (λ _. same)
          (λ _ _.
            branch Q (ltb_ℤ req.index (pos 0) || ltb_ℤ req.size (pos 0)) (λ _. same)
              (λ _.
                on_option Q (first_where (is_chunk a.id req.index) c.chunks)
                  (λ _. inserted (new_chunk id a.id req))
                  (λ ch _. branch Q (text_eq ch.checksum req.checksum) (λ _. same) (λ _. same)))))
  where
    Q : Catalog × Registration Chunk → Type κ
    Q r = P r.0
