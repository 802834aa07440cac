-- ===== src/Artifacts/Registered.antt =====
-- What is registered is registered once, and stays as it is.
use db_backup_app.Base.{
  ℕ, ◌≤◌, ◌≡◌, refl, sym, ◌∙◌, Bool, true, false, ◌&&◌, ◌||◌, none, some, List, [], ◌∷◌, ◌==◌,
  arith, if◌then◌else◌, eq_ℤ_sound, ℤ, Text, text_eq_iff, branch, any, any-none, count_where,
  count_where-append, count_where-update_where-le, update_where, first_where,
  first_where-append-some, first_where-update_where-if,
}
use db_backup_app.Artifacts.{
  Catalog, Chunk, Registration, is_named, is_chunk, insert_artifact, insert_chunk,
}
use db_backup_app.Reports.{verify_artifacts, is_unverified}
use db_backup_app.Store.{Artifact, ArtifactStatus, verified, unverified}
use db_backup_app.Verification.{settle}
use db_backup_app.Artifacts.Steps.{
  Step, registers, registers_chunk, inserts, inserts_chunk, completes, settles, changes_runs, step,
  run, on_artifact, on_chunk,
}

-- One artifact of a run with a name, and one chunk of an artifact with an index.
pub record Unique (c : Catalog) : Type 0 where
  pub names : (run : ℕ) (name : Text) → count_where (is_named run name) c.artifacts ≤ 1
  pub indexes : (artifact : ℕ) (index : ℤ) → count_where (is_chunk artifact index) c.chunks ≤ 1

insert_artifact-Unique :
    (fails : Bool) (a : Artifact) (c : Catalog) → Unique c → Unique (insert_artifact fails a c).0
unfolding insert_artifact
insert_artifact-Unique fails a c u =
    branch (λ (r : Catalog × Registration Artifact). Unique r.0)
      (fails || any (is_named a.backup_run_id a.name) c.artifacts) (λ _. u)
      (λ fresh. record {
        names = λ run name. ground (
          arith,
          u.names run name,
          text_eq_iff a.name name,
          any-none (is_named a.backup_run_id a.name) c.artifacts,
          count_where-append (is_named run name) c.artifacts (a ∷ []),
        );
        indexes = u.indexes;
      })

insert_chunk-Unique :
    (fails : Bool) (ch : Chunk) (c : Catalog) → Unique c → Unique (insert_chunk fails ch c).0
unfolding insert_chunk
insert_chunk-Unique fails ch c u =
    branch (λ (r : Catalog × Registration Chunk). Unique r.0)
      (fails || any (is_chunk ch.artifact_id ch.index) c.chunks) (λ _. u)
      (λ fresh. record {
        names = u.names;
        indexes = λ artifact index. ground (
          arith,
          u.indexes artifact index,
          eq_ℤ_sound ch.index index,
          any-none (is_chunk ch.artifact_id ch.index) c.chunks,
          count_where-append (is_chunk artifact index) c.chunks (ch ∷ []),
        );
      })

outcome-Unique :
    (q : Artifact → Bool) (f : Artifact → Artifact) (c : Catalog)
    → ((run : ℕ) (name : Text) (a : Artifact) → is_named run name (f a) ≡ is_named run name a)
    → Unique c
    → Unique (record c { artifacts = update_where q f c.artifacts })
outcome-Unique q f c h u = record {
  names = λ run name. omega (
    arith,
    u.names run name,
    count_where-update_where-le (is_named run name) q f c.artifacts
        (λ a _ k. sym (h run name a) ∙ k),
  );
  indexes = u.indexes;
}

abbrev marked : ArtifactStatus → ℕ → Artifact → Artifact
marked status now a = record a { verification_status = status; verified_at = some now }

step-Unique : (s : Step) (c : Catalog) → Unique c → Unique (step s c)
unfolding verify_artifacts settle
step-Unique (registers fails id agent run req) c u =
    on_artifact Unique fails id agent run req c u (λ a. insert_artifact-Unique fails a c u)
step-Unique (registers_chunk fails id agent artifact req) c u =
    on_chunk Unique fails id agent artifact req c u (λ ch. insert_chunk-Unique fails ch c u)
step-Unique (inserts fails a) c u = insert_artifact-Unique fails a c u
step-Unique (inserts_chunk fails ch) c u = insert_chunk-Unique fails ch c u
step-Unique (completes run now) c u =
    outcome-Unique (λ a. a.backup_run_id == run && is_unverified a.verification_status)
      (marked verified now) c (λ r n a. refl) u
step-Unique (settles true run status now) c u = u
step-Unique (settles false run status now) c u =
    outcome-Unique (λ a. a.backup_run_id == run) (marked status now) c (λ r n a. refl) u
step-Unique (changes_runs runs) c u = record { names = u.names; indexes = u.indexes }

-- Without what a verification writes.
abbrev pub core : Artifact → Artifact
core a = record a { verified_at = none; verification_status = unverified }

-- What is found in the first tables is found in the second ones.
pub record Keeps (c d : Catalog) : Type 0 where
  pub artifact :
      (run : ℕ) (name : Text) (a : Artifact)
      → first_where (is_named run name) c.artifacts ≡ some a
      → (b : Artifact) × (first_where (is_named run name) d.artifacts ≡ some b) × (core b ≡ core a)
  pub chunk :
      (artifact : ℕ) (index : ℤ) (ch : Chunk)
      → first_where (is_chunk artifact index) c.chunks ≡ some ch
      → first_where (is_chunk artifact index) d.chunks ≡ some ch

Keeps-refl : (c : Catalog) → Keeps c c
Keeps-refl c = record { artifact = λ run name a h. (a, h, refl); chunk = λ artifact index ch h. h }

Keeps-trans : (c d e : Catalog) → Keeps c d → Keeps d e → Keeps c e
Keeps-trans c d e k l = record {
  artifact = λ run name a h.
      let (b, found, same) = k.artifact run name a h in
      let (b', found', same') = l.artifact run name b found in (b', found', same' ∙ same);
  chunk = λ artifact index ch h. l.chunk artifact index ch (k.chunk artifact index ch h);
}

insert_artifact-Keeps :
    (fails : Bool) (a : Artifact) (c : Catalog) → Keeps c (insert_artifact fails a c).0
unfolding insert_artifact
insert_artifact-Keeps fails a c =
    branch (λ (r : Catalog × Registration Artifact). Keeps c r.0)
      (fails || any (is_named a.backup_run_id a.name) c.artifacts) (λ _. Keeps-refl c)
      (λ _. record {
        artifact = λ run name b h.
            (b, first_where-append-some (is_named run name) c.artifacts (a ∷ []) b h, refl);
        chunk = λ artifact index ch h. h;
      })

insert_chunk-Keeps : (fails : Bool) (ch : Chunk) (c : Catalog) → Keeps c (insert_chunk fails ch c).0
unfolding insert_chunk
insert_chunk-Keeps fails ch c =
    branch (λ (r : Catalog × Registration Chunk). Keeps c r.0)
      (fails || any (is_chunk ch.artifact_id ch.index) c.chunks) (λ _. Keeps-refl c)
      (λ _. record {
        artifact = λ run name b h. (b, h, refl);
        chunk = λ artifact index b h.
            first_where-append-some (is_chunk artifact index) c.chunks (ch ∷ []) b h;
      })

outcome-Keeps :
    (q : Artifact → Bool) (f : Artifact → Artifact) (c : Catalog)
    → ((run : ℕ) (name : Text) (a : Artifact) → is_named run name (f a) ≡ is_named run name a)
    → ((a : Artifact) → core (f a) ≡ core a)
    → Keeps c (record c { artifacts = update_where q f c.artifacts })
outcome-Keeps q f c h k = record {
  artifact = λ run name a e. (
    (if q a then f a else a),
    first_where-update_where-if (is_named run name) q f c.artifacts a (h run name) e,
    branch (λ b. core b ≡ core a) (q a) (λ _. k a) (λ _. refl),
  );
  chunk = λ artifact index ch e. e;
}

step-Keeps : (s : Step) (c : Catalog) → Keeps c (step s c)
unfolding verify_artifacts settle
step-Keeps (registers fails id agent run req) c =
    on_artifact (Keeps c) fails id agent run req c (Keeps-refl c)
      (λ a. insert_artifact-Keeps fails a c)
step-Keeps (registers_chunk fails id agent artifact req) c =
    on_chunk (Keeps c) fails id agent artifact req c (Keeps-refl c)
      (λ ch. insert_chunk-Keeps fails ch c)
step-Keeps (inserts fails a) c = insert_artifact-Keeps fails a c
step-Keeps (inserts_chunk fails ch) c = insert_chunk-Keeps fails ch c
step-Keeps (completes run now) c = outcome-Keeps _ _ c (λ r n a. refl) (λ a. refl)
step-Keeps (settles true run status now) c = Keeps-refl c
step-Keeps (settles false run status now) c = outcome-Keeps _ _ c (λ r n a. refl) (λ a. refl)
step-Keeps (changes_runs runs) c = record {
  artifact = λ run name a h. (a, h, refl);
  chunk = λ artifact index ch h. h;
}

pub run-Keeps : (ss : List Step) (c : Catalog) → Keeps c (run ss c)
unfolding run
run-Keeps [] c = Keeps-refl c
run-Keeps (s ∷ ss) c =
    Keeps-trans c (step s c) (run ss (step s c)) (step-Keeps s c) (run-Keeps ss (step s c))

run-Unique : (ss : List Step) (c : Catalog) → Unique c → Unique (run ss c)
unfolding run
run-Unique [] c u = u
run-Unique (s ∷ ss) c u = run-Unique ss (step s c) (step-Unique s c u)

-- From tables that have at most one artifact of a run with a name and at most one chunk of an artifact
-- with an index, registrations, also with inserts that come late, and outcomes of any kind lead to such
-- tables, and what was found by its run and name, or by its artifact and index, is found there again: the
-- same chunk, and the same artifact up to its outcome.
pub run-Registered :
    (ss : List Step) (c : Catalog) → Unique c → Unique (run ss c) × Keeps c (run ss c)
run-Registered ss c u = (run-Unique ss c u, run-Keeps ss c)
