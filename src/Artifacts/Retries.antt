-- ===== src/Artifacts/Retries.antt =====
-- A registration that is tried again.
use db_backup_app.Base.{
  ℕ, ◌≡◌, refl, sym, ap, subst, ◌∙◌, Bool, true, false, ◌||◌, Option, none, some, List, arith,
  if◌then◌else◌, pos, ltb_ℤ, eq_ℤ_refl, text_eq, text_eq_refl, text_eq_sound, is_empty, branch,
  on_option, Option-cases, inl, inr, any, any-none, first_where, first_where-append,
  first_where_sound,
}
use db_backup_app.Artifacts.{
  Catalog, Chunk, ArtifactRequest, ChunkRequest, Registration, created, existing, conflict,
  is_named, is_chunk, new_artifact, new_chunk, insert_artifact, record_artifact, register_artifact,
  insert_chunk, record_chunk,
}
use db_backup_app.Artifacts.Registered.{core, run-Keeps}
use db_backup_app.Artifacts.Steps.{Step, run}
use db_backup_app.Reports.{owned}
use db_backup_app.Runs.{Run}
use db_backup_app.Store.{Artifact}

-- The row that an answer comes with.
abbrev pub granted : {A : Type 0} → Registration A → Option A
granted (created a) = some a
granted (existing a) = some a
granted _ = none

insert_artifact-granted :
    (fails : Bool) (a b : Artifact) (c : Catalog)
    → let r = insert_artifact fails a c in
      granted r.1 ≡ some b → first_where (is_named a.backup_run_id a.name) r.0.artifacts ≡ some b
unfolding insert_artifact
insert_artifact-granted fails a b c =
    branch Found (fails || any (is_named a.backup_run_id a.name) c.artifacts)
      (λ _. elim (Option-cases (first_where (is_named a.backup_run_id a.name) c.artifacts)) [
        | inl e ↦ rw e (λ h. absurd (cc))
        | inr (w, e) ↦ rw e (λ h. h)
      ])
      (λ fresh h.
        first_where-append (is_named a.backup_run_id a.name) c.artifacts a
          (ground (arith, any-none (is_named a.backup_run_id a.name) c.artifacts))
          (ground (arith, text_eq_refl a.name))
        ∙ h)
  where
    Found : Catalog × Registration Artifact → Type 0
    Found r =
        granted r.1 ≡ some b → first_where (is_named a.backup_run_id a.name) r.0.artifacts ≡ some b

record_artifact-granted :
    (fails : Bool) (id : ℕ) (of : Run) (req : ArtifactRequest) (a : Artifact) (c : Catalog)
    → let r = record_artifact fails id of req c in
      granted r.1 ≡ some a → first_where (is_named of.id req.name) r.0.artifacts ≡ some a
unfolding record_artifact new_artifact
record_artifact-granted fails id of req a c =
    branch Found (is_empty req.name || ltb_ℤ req.size (pos 0)) (λ _ h. absurd (cc))
      (λ _.
        on_option Found (first_where (is_named of.id req.name) c.artifacts)
          (λ _. insert_artifact-granted fails (new_artifact id of req) a c)
          (λ b found h. found ∙ h))
  where
    Found : Catalog × Registration Artifact → Type 0
    Found r = granted r.1 ≡ some a → first_where (is_named of.id req.name) r.0.artifacts ≡ some a

record_artifact-fine :
    (fails : Bool) (id : ℕ) (of : Run) (req : ArtifactRequest) (a : Artifact) (c : Catalog)
    → granted (record_artifact fails id of req c).1 ≡ some a
    → (is_empty req.name || ltb_ℤ req.size (pos 0)) ≡ false
unfolding record_artifact
record_artifact-fine fails id of req a c =
    branch (λ (r : Catalog × Registration Artifact). granted r.1 ≡ some a → refused ≡ false) refused
      (λ _ h. absurd (cc)) (λ fine _. fine)
  where
    refused : Bool
    refused = is_empty req.name || ltb_ℤ req.size (pos 0)

record_artifact-again :
    (fails : Bool) (id : ℕ) (of : Run) (req : ArtifactRequest) (a : Artifact) (c : Catalog)
    → (is_empty req.name || ltb_ℤ req.size (pos 0)) ≡ false
    → first_where (is_named of.id req.name) c.artifacts ≡ some a
    → record_artifact fails id of req c ≡ (c, existing a)
unfolding record_artifact
record_artifact-again fails id of req a c fine found = rw (fine, found) refl

owned-id :
    (id agent : ℕ) (runs : List Run) (of : Run)
    → first_where (owned id agent) runs ≡ some of
    → of.id ≡ id
owned-id id agent runs of h = ground (arith, first_where_sound (owned id agent) runs h)

recorded :
    (fails : Bool) (id agent run_id : ℕ) (of : Run) (req : ArtifactRequest) (c : Catalog)
    → first_where (owned run_id agent) c.runs ≡ some of
    → register_artifact fails id agent (some run_id) (some req) c
      ≡ record_artifact fails id of req c
unfolding register_artifact
recorded fails id agent run_id of req c mine = rw (mine, register_artifact) refl

-- Once the registration of an artifact is answered with a row, then after whatever registrations and
-- outcomes, while the run is still the agent's, the same request changes nothing and is answered with the
-- same artifact, up to its outcome.
pub register_artifact-again :
    (fails fails' : Bool) (id id' agent run_id : ℕ) (of of' : Run) (req : ArtifactRequest)
    (a : Artifact) (c : Catalog) (ss : List Step)
    → let r = register_artifact fails id agent (some run_id) (some req) c in
      let d = run ss r.0 in
      first_where (owned run_id agent) c.runs ≡ some of
      → first_where (owned run_id agent) d.runs ≡ some of'
      → granted r.1 ≡ some a
      → (b : Artifact) × (register_artifact fails' id' agent (some run_id) (some req) d
          ≡ (d, existing b))
        × (core b ≡ core a)
register_artifact-again fails fails' id id' agent run_id of of' req a c ss mine later got =
    let r = register_artifact fails id agent (some run_id) (some req) c in
    let d = run ss r.0 in
    let first = recorded fails id agent run_id of req c mine in
    let got_there = subst (λ x. granted x.1 ≡ some a) first got in
    let (b, found, same) = (run-Keeps ss r.0).artifact of.id req.name a (
      subst (λ x. first_where (is_named of.id req.name) x.0.artifacts ≡ some a) (sym first)
        (record_artifact-granted fails id of req a c got_there)) in
    (
      b,
      recorded fails' id' agent run_id of' req d later
          ∙ record_artifact-again fails' id' of' req b d
              (record_artifact-fine fails id of req a c got_there)
              (subst (λ i. first_where (is_named i req.name) d.artifacts ≡ some b)
                (owned-id run_id agent c.runs of mine
                  ∙ sym (owned-id run_id agent d.runs of' later))
                found),
      same,
    )

insert_chunk-granted :
    (fails : Bool) (a b : Chunk) (c : Catalog)
    → let r = insert_chunk fails a c in
      granted r.1 ≡ some b
      → (first_where (is_chunk a.artifact_id a.index) r.0.chunks ≡ some b)
        × (b.checksum ≡ a.checksum)
unfolding insert_chunk
insert_chunk-granted fails a b c =
    branch
      (λ (r : Catalog × Registration Chunk).
        granted r.1 ≡ some b
        → (first_where (is_chunk a.artifact_id a.index) r.0.chunks ≡ some b)
          × (b.checksum ≡ a.checksum))
      (fails || any (is_chunk a.artifact_id a.index) c.chunks) (λ _ h. absurd (cc))
      (λ fresh h. (
        first_where-append (is_chunk a.artifact_id a.index) c.chunks a
              (ground (arith, any-none (is_chunk a.artifact_id a.index) c.chunks))
              (ground (arith, eq_ℤ_refl a.index))
            ∙ h,
        cc,
      ))

-- Once a chunk is there, its index is answered with it, or, with another checksum, with a conflict.
record_chunk-there :
    (fails : Bool) (id artifact : ℕ) (req : ChunkRequest) (ch : Chunk) (c : Catalog)
    → (ltb_ℤ req.index (pos 0) || ltb_ℤ req.size (pos 0)) ≡ false
    → first_where (is_chunk artifact req.index) c.chunks ≡ some ch
    → record_chunk fails id artifact req c
      ≡ (c, if text_eq ch.checksum req.checksum then existing ch else conflict)
unfolding record_chunk
record_chunk-there fails id artifact req ch c fine found =
    rw (fine, found)
      (branch (λ r. r ≡ (c, if text_eq ch.checksum req.checksum then existing ch else conflict))
        (text_eq ch.checksum req.checksum) (λ e. rw e refl) (λ e. rw e refl))

record_chunk-granted :
    (fails : Bool) (id artifact : ℕ) (req : ChunkRequest) (ch : Chunk) (c : Catalog)
    → let r = record_chunk fails id artifact req c in
      granted r.1 ≡ some ch
      → (first_where (is_chunk artifact req.index) r.0.chunks ≡ some ch)
        × (text_eq ch.checksum req.checksum ≡ true)
unfolding record_chunk new_chunk
record_chunk-granted fails id artifact req ch c =
    branch Found (ltb_ℤ req.index (pos 0) || ltb_ℤ req.size (pos 0)) (λ _ h. absurd (cc))
      (λ _.
        on_option Found (first_where (is_chunk artifact req.index) c.chunks)
          (λ _ h.
            let (found, same) = insert_chunk-granted fails (new_chunk id artifact req) ch c h in
            (found, rw same (text_eq_refl req.checksum)))
          (λ b found.
            branch Found (text_eq b.checksum req.checksum)
              (λ same h. (
                found ∙ h,
                subst
                    (λ (o : Option Chunk).
                      elim o [ none ↦ true | some x ↦ text_eq x.checksum req.checksum ] ≡ true)
                    h same,
              ))
              (λ _ h. absurd (cc))))
  where
    Found : Catalog × Registration Chunk → Type 0
    Found r =
        granted r.1 ≡ some ch
        → (first_where (is_chunk artifact req.index) r.0.chunks ≡ some ch)
          × (text_eq ch.checksum req.checksum ≡ true)

record_chunk-fine :
    (fails : Bool) (id artifact : ℕ) (req : ChunkRequest) (ch : Chunk) (c : Catalog)
    → granted (record_chunk fails id artifact req c).1 ≡ some ch
    → (ltb_ℤ req.index (pos 0) || ltb_ℤ req.size (pos 0)) ≡ false
unfolding record_chunk
record_chunk-fine fails id artifact req ch c =
    branch (λ (r : Catalog × Registration Chunk). granted r.1 ≡ some ch → refused ≡ false) refused
      (λ _ h. absurd (cc)) (λ fine _. fine)
  where
    refused : Bool
    refused = ltb_ℤ req.index (pos 0) || ltb_ℤ req.size (pos 0)

-- Once the registration of a chunk, past the checks of its artifact and its run, is answered with a row,
-- then after whatever registrations and outcomes, a request with the same index and a size that is not
-- negative changes nothing: it is answered with that very chunk if it has the checksum of the first
-- request, and with a conflict if it has another one.
pub record_chunk-again :
    (fails fails' : Bool) (id id' artifact : ℕ) (req req' : ChunkRequest) (ch : Chunk) (c : Catalog)
    (ss : List Step)
    → let r = record_chunk fails id artifact req c in
      let d = run ss r.0 in
      granted r.1 ≡ some ch
      → req'.index ≡ req.index
      → ltb_ℤ req'.size (pos 0) ≡ false
      → record_chunk fails' id' artifact req' d
        ≡ (d, if text_eq req.checksum req'.checksum then existing ch else conflict)
record_chunk-again fails fails' id id' artifact req req' ch c ss got same_place fine =
    let r = record_chunk fails id artifact req c in
    let d = run ss r.0 in
    let (found, same) = record_chunk-granted fails id artifact req ch c got in
    record_chunk-there fails' id' artifact req' ch d
      (ground (
        arith,
        record_chunk-fine fails id artifact req ch c got,
        ap (λ i. ltb_ℤ i (pos 0)) same_place,
      ))
      (subst (λ i. first_where (is_chunk artifact i) d.chunks ≡ some ch) (sym same_place)
        ((run-Keeps ss r.0).chunk artifact req.index ch found))
    ∙ ap (λ s. (d, if text_eq s req'.checksum then existing ch else conflict))
        (text_eq_sound ch.checksum req.checksum same)
