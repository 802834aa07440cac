-- ===== src/Runner/Endings.antt =====
-- The last thing that the agent does with a run is to report how it ended.
use db_backup_app.Base.{
  eq_ℤ, ◌≡◌, refl, sym, subst, if◌then◌else◌, ◌⊎◌, inl, inr, Bool, true, false, ◌&&◌, not, Option,
  none, some, List, [], ◌∷◌, ◌++◌, Text, branch, is_empty, text_eq,
}
use db_backup_app.Reports.{Report}
use db_backup_app.Runner.{
  Channel, Session, Effect, reported, Tools, JobConfig, Archive, Sealed, ObjectInfo, Outcome, ok,
  error, attempt, unless_error, answered, send, fail_run, cancel_run, walk, verify_stored, deliver,
  pack, produce, execute_backup, final_report, cancelled_by_user, seal, is_zero, is_supported,
}
use db_backup_app.Runs.{RunStatus, uploading, verifying, completed, failed, cancelled}

abbrev pub is_ended : RunStatus → Bool
is_ended completed = true
is_ended failed = true
is_ended cancelled = true
is_ended _ = false

-- The last effect is a report, of an end or one that was answered with an error.
abbrev pub Ended : List Effect → Type 0
Ended effects =
    (before : List Effect) × (r : Report) × (a : Option Bool) × (effects
      ≡ before ++ reported r a ∷ [])
    × ((is_ended r.status ≡ true) ⊎ (a ≡ none))

abbrev last : RunStatus → List RunStatus → RunStatus
last status [] = status
last status (next ∷ rest) = last next rest

-- On an outcome, as `branch` is on a test.
pub on_attempt {κ} :
    {A B : Type 0} (P : B → Type κ) (o : Outcome A) {fails : Text → B} {goes_on : A → B}
    → ((e : Text) → o ≡ error e → P (fails e))
    → ((a : A) → o ≡ ok a → P (goes_on a))
    → P (attempt o fails goes_on)
on_attempt P (ok a) f g = g a refl
on_attempt P (error e) f g = f e refl

-- The branch that is taken.
pub at_ok {κ} :
    {A B : Type 0} (P : B → Type κ) (o : Outcome A) (a : A) (fails : Text → B) (goes_on : A → B)
    → o ≡ ok a
    → P (goes_on a)
    → P (attempt o fails goes_on)
at_ok P o a fails goes_on e h = subst (λ x. P (attempt x fails goes_on)) (sym e) h

pub no_error {κ} :
    {B : Type 0} (P : B → Type κ) (o : Option Text) (fails : Text → B) (rest : B)
    → o ≡ none
    → P rest
    → P (unless_error o fails rest)
no_error P o fails rest e h = subst (λ x. P (unless_error x fails rest)) (sym e) h

pub not_taken {κ} :
    {B : Type 0} (P : B → Type κ) (b : Bool) (x y : B) → b ≡ false → P y → P (if b then x else y)
not_taken P b x y e h = subst (λ c. P (if c then x else y)) (sym e) h

pub on_error {κ} :
    {B : Type 0} (P : B → Type κ) (o : Option Text) {fails : Text → B} {rest : B}
    → ((e : Text) → P (fails e))
    → P rest
    → P (unless_error o fails rest)
on_error P none f g = g
on_error P (some e) f g = f e

pub on_answer {κ} :
    {B : Type 0} (P : B → Type κ) (o : Option Bool) {fails : B} {goes_on : Bool → B}
    → (o ≡ none → P fails)
    → ((cancel : Bool) → o ≡ some cancel → P (goes_on cancel))
    → P (answered o fails goes_on)
on_answer P none f g = f refl
on_answer P (some cancel) f g = g cancel refl

module _ {S : Type 0} (ch : Channel S) where
  abbrev Ends : Session S → Type 0
  Ends s = Ended s.effects

  fail_run-Ended : (message : Text) (s : Session S) → Ends (fail_run ch message s)
  unfolding fail_run send
  fail_run-Ended message s = (s.effects, _, _, refl, inl refl)

  cancel_run-Ended : (s : Session S) → Ends (cancel_run ch s)
  unfolding cancel_run send
  cancel_run-Ended s = (s.effects, _, _, refl, inl refl)

  walk-Ended :
      (archive : Archive) (sealed : Sealed) (info : ObjectInfo) (key : Text) (status : RunStatus)
      (rest : List RunStatus) (s : Session S)
      → is_ended (last status rest) ≡ true
      → Ends (walk ch archive sealed info key (status ∷ rest) s)
  unfolding walk send
  walk-Ended archive sealed info key status [] s h =
      on_answer Ends (ch.update (final_report archive sealed info status) s.world).1
        (λ e. (s.effects, _, _, refl, inr e))
        (λ flag _.
          branch Ends
            (cancelled_by_user ch flag (send ch (final_report archive sealed info status) s).0)
            (λ _. cancel_run-Ended _) (λ _. (s.effects, _, _, refl, inl h)))
  walk-Ended archive sealed info key status (next ∷ rest) s h =
      on_answer Ends (ch.update (final_report archive sealed info status) s.world).1
        (λ e. (s.effects, _, _, refl, inr e))
        (λ flag _.
          branch Ends
            (cancelled_by_user ch flag (send ch (final_report archive sealed info status) s).0)
            (λ _. cancel_run-Ended _) (λ _. walk-Ended archive sealed info key next rest _ h))

  verify_stored-Ended :
      (t : Tools) (archive : Archive) (sealed : Sealed) (info : ObjectInfo) (key : Text)
      (s : Session S)
      → Ends (verify_stored ch t archive sealed info key s)
  unfolding verify_stored
  verify_stored-Ended t archive sealed info key s =
      on_attempt Ends t.head (λ _ _. fail_run-Ended _ _)
        (λ head _.
          branch Ends (not (eq_ℤ head.size info.size)) (λ _. fail_run-Ended _ _)
            (λ _.
              branch Ends
                (not (is_empty head.checksum)
                  && not (text_eq head.checksum (t.lower sealed.checksum)))
                (λ _. fail_run-Ended _ _)
                (λ _.
                  walk-Ended archive sealed info key uploading (verifying ∷ completed ∷ []) _
                    refl)))

  deliver-Ended :
      (t : Tools) (job : JobConfig) (archive : Archive) (sealed : Sealed) (s : Session S)
      → Ends (deliver ch t job archive sealed s)
  unfolding deliver
  deliver-Ended t job archive sealed s =
      on_error Ends t.open_error (λ _. fail_run-Ended _ _)
        (on_error Ends t.stat_error (λ _. fail_run-Ended _ _)
          (on_attempt Ends t.put (λ _ _. fail_run-Ended _ _)
            (λ info _. verify_stored-Ended t archive sealed info _ _)))

  pack-Ended :
      (t : Tools) (job : JobConfig) (archive : Archive) (s : Session S) (seen : Bool)
      → Ends (pack ch t job archive (s, seen))
  unfolding pack
  pack-Ended t job archive s seen =
      on_attempt Ends t.payload_size (λ _ _. fail_run-Ended _ _)
        (λ size _.
          branch Ends (is_zero size) (λ _. fail_run-Ended _ _)
            (λ _.
              branch Ends (cancelled_by_user ch seen s) (λ _. cancel_run-Ended _)
                (λ _.
                  on_attempt Ends (seal t job archive) (λ _ _. fail_run-Ended _ _)
                    (λ sealed _. deliver-Ended t job archive sealed s))))

  -- Whatever the tools and the server answer, the last effect of an execution is a report, and it is
  -- that of an end, COMPLETED, FAILED or CANCELLED, unless that very report was answered with an error.
  pub execute_backup-Ended :
      (t : Tools) (job : JobConfig) (s : Session S) → Ended (execute_backup ch t job s).effects
  unfolding execute_backup
  execute_backup-Ended t job s =
      branch Ends (cancelled_by_user ch false s) (λ _. cancel_run-Ended _)
        (λ _.
          branch Ends (not (is_supported job.source_type)) (λ _. fail_run-Ended _ _)
            (λ _.
              on_error Ends t.storage_error (λ _. fail_run-Ended _ _)
                (branch Ends t.shutting_down (λ _. fail_run-Ended _ _)
                  (λ _.
                    on_attempt Ends (produce ch t job s).1 (λ _ _. fail_run-Ended _ _)
                      (λ archive _. pack-Ended t job archive _ _)))))
