-- ===== src/Verification/Outcome.antt =====
-- What a verification leaves behind.
use db_backup_app.Base.{
  ℕ, ◌≡◌, refl, sym, subst, true, false, ◌&&◌, ◌||◌, not, Option, none, some, List, [], ◌∷◌, ◌==◌,
  arith, Text, lit, text_eq, is_empty, update_where, first_where, branch, on_option, All, keep,
}
use db_backup_app.Alerts.{Alert, fires, no_faults}
use db_backup_app.Alerts.Coalescing.{raise_alert-fires}
use db_backup_app.Runs.{Run, same_status, completed}
use db_backup_app.Store.{
  is_local, Server, Env, Artifact, ArtifactStatus, verified, verify_fail, find_target,
}
use db_backup_app.Verification.{
  VerifyReply, matched, mismatched, not_found, settle, verify_failed_key, verify_alert, conclude,
  verify_run, verify,
}

-- The artifacts of the run have this outcome, and those of other runs are as they were.
pub record Marks (run : ℕ) (status : ArtifactStatus) (before now : List Artifact) : Type 0 where
  pub own : All (λ a. (a.backup_run_id == run) ≡ true → a.verification_status ≡ status) now
  pub others :
      keep (λ a. not (a.backup_run_id == run)) now ≡ keep (λ a. not (a.backup_run_id == run)) before

settle-own :
    (run : ℕ) (status : ArtifactStatus) (now : ℕ) (rows : List Artifact)
    → All
        (λ a. (a.backup_run_id == run) ≡ true → a.verification_status ≡ status)
        (update_where
          (λ a. a.backup_run_id == run)
          (λ a. record a { verification_status = status; verified_at = some now })
          rows)
settle-own run status now [] = tt
settle-own run status now (a ∷ rows) = (
  branch (λ (x : Artifact). (x.backup_run_id == run) ≡ true → x.verification_status ≡ status)
      (a.backup_run_id == run) (λ _ _. refl) (λ e h. absurd (cc)),
  settle-own run status now rows,
)

settle-others :
    (run : ℕ) (status : ArtifactStatus) (now : ℕ) (rows : List Artifact)
    → keep
        (λ a. not (a.backup_run_id == run))
        (update_where
          (λ a. a.backup_run_id == run)
          (λ a. record a { verification_status = status; verified_at = some now })
          rows)
      ≡ keep (λ a. not (a.backup_run_id == run)) rows
settle-others run status now [] = refl
settle-others run status now (a ∷ rows) = ground (arith, settle-others run status now rows)

settle-Marks :
    (run : ℕ) (status : ArtifactStatus) (now : ℕ) (rows : List Artifact)
    → Marks run status rows (settle false run status now rows)
unfolding settle
settle-Marks run status now rows = record {
  own = settle-own run status now rows;
  others = settle-others run status now rows;
}

verify_failed_key-named : (env : Env) (run : ℕ) → is_empty (verify_failed_key env run) ≡ false
unfolding lit
verify_failed_key-named env run = refl

verify_alert-about :
    (env : Env) (run : Run) (sum : Text)
    → ((verify_alert env run sum).organization_id ≡ run.organization_id)
      × ((verify_alert env run sum).dedup_key ≡ verify_failed_key env run.id)
unfolding verify_alert
verify_alert-about env run sum = (refl, refl)

-- What the answer about a run says of the server before and after.
abbrev pub Tells : Env → (Text → Option Text) → Run → Server → Server × VerifyReply → Type 0
Tells env sums run s (t, matched sum) =
    (sums run.storage_path ≡ some sum)
    × (text_eq sum (env.lower run.checksum) ≡ true)
    × Marks run.id verified s.artifacts t.artifacts
    × (t.runs ≡ s.runs)
    × (t.book ≡ s.book)
Tells env sums run s (t, mismatched expected sum) =
    (sums run.storage_path ≡ some sum)
    × (text_eq sum (env.lower run.checksum) ≡ false)
    × Marks run.id verify_fail s.artifacts t.artifacts
    × (t.runs ≡ s.runs)
    × ((a : Alert) × (first_where (fires run.organization_id (verify_failed_key env run.id))
            t.book.rows
          ≡ some a))
Tells env sums run s (t, _) = t ≡ s

module _ (env : Env) (alert now : ℕ) (sums : Text → Option Text) where
  conclude-Tells :
      (run : Run) (sum : Text) (s : Server)
      → sums run.storage_path ≡ some sum
      → Tells env sums run s (conclude env false no_faults alert now sums run sum s)
  unfolding conclude
  conclude-Tells run sum s hashed =
      branch (Tells env sums run s) (text_eq sum (env.lower run.checksum))
        (λ same. (hashed, same, settle-Marks run.id verified now s.artifacts, refl, refl))
        (λ differ. (
          hashed,
          differ,
          settle-Marks run.id verify_fail now s.artifacts,
          refl,
          raise_alert-fires run.organization_id (verify_failed_key env run.id)
              (verify_failed_key-named env run.id) s.book (verify_alert env run sum) alert now
              (verify_alert-about env run sum),
        ))

  verify_run-Tells :
      (run : Run) (s : Server)
      → Tells env sums run s (verify_run env false no_faults alert now sums run s)
  unfolding verify_run
  verify_run-Tells run s =
      branch Told (not (same_status run.status completed) || is_empty run.checksum) (λ _. refl)
        (λ _.
          on_option Told (find_target run.storage_target_id s.targets) (λ _. refl)
            (λ target _.
              branch Told (not (is_local target.type)) (λ _. refl)
                (λ _.
                  on_option Told (sums run.storage_path) (λ _. refl)
                    (λ sum hashed. conclude-Tells run sum s hashed))))
    where
      Told : Server × VerifyReply → Type 0
      Told = Tells env sums run s

  -- Verifying a run of the organization by its identifier, where the UPDATE and the statements of the
  -- alert do not fail, is answered as matched only if what is stored hashes to the recorded checksum, and as mismatched only if it does
  -- not: then all of the run's artifacts, and no others, have that outcome, the runs are as they were, and
  -- after a mismatch an alert with the run's key fires. Any other answer has changed nothing.
  pub verify-Tells :
      (org id : ℕ) (run : Run) (s : Server)
      → first_where (λ (r : Run). r.id == id && r.organization_id == org) s.runs ≡ some run
      → Tells env sums run s (verify env false no_faults alert now sums org (some id) s)
  unfolding verify
  verify-Tells org id run s found =
      subst
        (λ o. Tells env sums run s (elim o [
          | none ↦ (s, not_found)
          | some r ↦ verify_run env false no_faults alert now sums r s
        ]))
        (sym found) (verify_run-Tells run s)
