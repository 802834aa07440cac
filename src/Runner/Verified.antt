-- ===== src/Runner/Verified.antt =====
-- A run is reported COMPLETED only after its object was stored and found again as it was written.
use db_backup_app.Base.{
  eq_ℤ, ◌≡◌, refl, ◌∙◌, Bool, true, false, ◌&&◌, ◌||◌, not, List, [], ◌∷◌, arith, Text, ℤ, branch,
  is_empty, text_eq, any, any-append, lit,
}
use db_backup_app.Runner.{
  Channel, Session, Effect, reported, deleted, stored, Tools, JobConfig, Archive, Sealed,
  ObjectInfo, Outcome, ok, send, fail_run, cancel_run, verify_stored, deliver, pack, produce,
  execute_backup, push_progress, act, cancelled_by_user, seal, key_of, is_zero, is_supported,
}
use db_backup_app.Runner.Endings.{on_attempt, on_error}
use db_backup_app.Runs.{RunStatus, completed}

abbrev pub says_completed : RunStatus → Bool
says_completed completed = true
says_completed _ = false

-- A COMPLETED report.
abbrev pub is_completion : Effect → Bool
is_completion (reported r a) = says_completed r.status
is_completion _ = false

module _ {S : Type 0} (ch : Channel S) (t : Tools) (job : JobConfig) where
  -- The payload was made and sealed, the provider stored it, and HEAD found an object of the same size,
  -- with the same checksum if it has one.
  abbrev pub Trusted : Session S → Type 0
  Trusted s =
      (archive : Archive) × (sealed : Sealed) × (info : ObjectInfo) × (head : ObjectInfo)
      × ((produce ch t job s).1 ≡ ok archive)
      × (seal t job archive ≡ ok sealed)
      × (t.put ≡ ok info)
      × (t.head ≡ ok head)
      × (eq_ℤ head.size info.size ≡ true)
      × ((is_empty head.checksum || text_eq head.checksum (t.lower sealed.checksum)) ≡ true)

  abbrev Silent : Session S → Type 0
  Silent s = any is_completion s.effects ≡ false

  module _ (s : Session S) where
    -- From `s` on.
    abbrev Sure : Session S → Type 0
    Sure q = any is_completion q.effects ≡ true → Trusted s

    fail_run-Sure : (message : Text) (q : Session S) → Silent q → Sure (fail_run ch message q)
    unfolding fail_run send
    fail_run-Sure message q h = rw (any-append is_completion q.effects) (λ e. absurd (ground arith))

    cancel_run-Sure : (q : Session S) → Silent q → Sure (cancel_run ch q)
    unfolding cancel_run send
    cancel_run-Sure q h = rw (any-append is_completion q.effects) (λ e. absurd (ground arith))

    act-Silent :
        (e : Effect) (q : Session S) → is_completion e ≡ false → Silent q → Silent (act ch e q)
    act-Silent e q k h = any-append is_completion q.effects (e ∷ []) ∙ ground arith

    verify_stored-Sure :
        (archive : Archive) (sealed : Sealed) (info : ObjectInfo) (key : Text) (q : Session S)
        → (produce ch t job s).1 ≡ ok archive
        → seal t job archive ≡ ok sealed
        → t.put ≡ ok info
        → Silent q
        → Sure (verify_stored ch t archive sealed info key q)
    unfolding verify_stored
    verify_stored-Sure archive sealed info key q made packed put h =
        on_attempt Sure t.head (λ _ _. fail_run-Sure _ _ h)
          (λ head found.
            branch Sure (not (eq_ℤ head.size info.size))
              (λ _. fail_run-Sure _ _ (act-Silent (deleted key) q refl h))
              (λ size.
                branch Sure
                  (not (is_empty head.checksum)
                    && not (text_eq head.checksum (t.lower sealed.checksum)))
                  (λ _. fail_run-Sure _ _ (act-Silent (deleted key) q refl h))
                  (λ sum _. (
                    archive,
                    sealed,
                    info,
                    head,
                    made,
                    packed,
                    put,
                    found,
                    ground arith,
                    ground arith,
                  ))))

    deliver-Sure :
        (archive : Archive) (sealed : Sealed) (q : Session S)
        → (produce ch t job s).1 ≡ ok archive
        → seal t job archive ≡ ok sealed
        → Silent q
        → Sure (deliver ch t job archive sealed q)
    unfolding deliver
    deliver-Sure archive sealed q made packed h =
        on_error Sure t.open_error (λ _. fail_run-Sure _ _ h)
          (on_error Sure t.stat_error (λ _. fail_run-Sure _ _ h)
            (on_attempt Sure t.put (λ _ _. fail_run-Sure _ _ h)
              (λ info put.
                verify_stored-Sure archive sealed info _ _ made packed put
                  (act-Silent (stored (key_of t job sealed)) q refl h))))

    pack-Sure :
        (archive : Archive) (q : Session S) (seen : Bool)
        → (produce ch t job s).1 ≡ ok archive
        → Silent q
        → Sure (pack ch t job archive (q, seen))
    unfolding pack
    pack-Sure archive q seen made h =
        on_attempt Sure t.payload_size (λ _ _. fail_run-Sure _ _ h)
          (λ size _.
            branch Sure (is_zero size) (λ _. fail_run-Sure _ _ h)
              (λ _.
                branch Sure (cancelled_by_user ch seen q) (λ _. cancel_run-Sure _ h)
                  (λ _.
                    on_attempt Sure (seal t job archive) (λ _ _. fail_run-Sure _ _ h)
                      (λ sealed packed. deliver-Sure archive sealed q made packed h))))

  push_progress-Silent :
      (reads : List ℤ) (q : Session S) (seen : Bool)
      → Silent q
      → Silent (push_progress ch reads (q, seen)).0
  unfolding push_progress send
  push_progress-Silent [] q seen h = h
  push_progress-Silent (read ∷ reads) q seen h =
      push_progress-Silent reads _ _ (any-append is_completion q.effects (_ ∷ []) ∙ ground arith)

  produce-Silent : (q : Session S) → Silent q → Silent (produce ch t job q).0.0
  unfolding produce
  produce-Silent q h =
      branch (λ (p : (Session S × Bool) × Outcome Archive). Silent p.0.0)
        (text_eq job.source_type (lit "FILESYSTEM")) (λ _. push_progress-Silent t.pushes q false h)
        (λ _. h)

  -- If an execution that starts without a COMPLETED report makes one, the payload was made, sealed and
  -- stored, and HEAD found an object of the same size, with the same checksum if it has one.
  pub execute_backup-Trusted :
      (s : Session S)
      → any is_completion s.effects ≡ false
      → any is_completion (execute_backup ch t job s).effects ≡ true
      → Trusted s
  unfolding execute_backup
  execute_backup-Trusted s h =
      branch (Sure s) (cancelled_by_user ch false s) (λ _. cancel_run-Sure s _ h)
        (λ _.
          branch (Sure s) (not (is_supported job.source_type)) (λ _. fail_run-Sure s _ _ h)
            (λ _.
              on_error (Sure s) t.storage_error (λ _. fail_run-Sure s _ _ h)
                (branch (Sure s) t.shutting_down (λ _. fail_run-Sure s _ _ h)
                  (λ _.
                    on_attempt (Sure s) (produce ch t job s).1
                      (λ _ _. fail_run-Sure s _ _ (produce-Silent s h))
                      (λ archive made.
                        pack-Sure s archive (produce ch t job s).0.0 (produce ch t job s).0.1 made
                          (produce-Silent s h))))))
