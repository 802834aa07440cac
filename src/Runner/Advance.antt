-- ===== src/Runner/Advance.antt =====
-- A report along an edge of the lifecycle is taken by a server that gets no other requests.
use db_backup_app.Base.{
  ℕ, ◌≡◌, refl, sym, ap, subst, ◌∙◌, inl, inr, Bool, true, false, Option, none, some, List, [], ◌∷◌,
  ◌++◌, ◌==◌, if◌then◌else◌, arith, Text, is_empty, first_where, first_where_sound,
  first_where-update_where, first_where-count, count_where, update_where, Bool-cases, &&_true,
}
use mathlib.Core.Option
use db_backup_app.Reports.{
  Report, Call, Reply, updated, updated_unless, update_status, decide, commit, transition,
  has_negative, owned, escapes, guarded, apply_report, report_event, after_status, after_completed,
  cancel_flag,
}
use db_backup_app.Runner.{Channel}
use db_backup_app.Runs.{Run, RunStatus, completed, failed, same_status, can_transition}
use db_backup_app.Store.{Server, Env, find_target}

-- UpdateRunStatus: the flag of the answer, or an error.
abbrev pub flag_in : Reply → Option Bool
flag_in updated = some false
flag_in (updated_unless flag) = some flag
flag_in _ = none

-- A server that gets no other requests meanwhile; the agent has no socket.
abbrev pub server_channel : Env → Call → ℕ → Channel Server
server_channel env c id = record {
  update = λ r s. let a = update_status env c (some id) (some r) s in (a.0, flag_in a.1);
  socket = λ s. false;
  forget = λ s. s;
}

abbrev pub target_path : Run → Server → Option Text
target_path run s = Option.map (λ t. t.path) (find_target run.storage_target_id s.targets)

-- The run with the identifier: there, of the agent, in this status, with this cancel_requested flag.
pub record Stands (c : Call) (id : ℕ) (flag : Bool) (status : RunStatus) (s : Server) (run : Run)
    : Type 0 where
  pub found : first_where (λ (r : Run). r.id == id) s.runs ≡ some run
  pub owner : run.agent_id ≡ c.agent
  pub status_is : run.status ≡ status
  pub wanted : run.cancel_requested ≡ flag

first_where-narrow :
    {A : Type 0} (p q : A → Bool) (rs : List A) (a : A)
    → ((r : A) → q r ≡ true → p r ≡ true)
    → first_where p rs ≡ some a
    → q a ≡ true
    → first_where q rs ≡ some a
first_where-narrow p q [] a h e k = absurd (cc)
first_where-narrow p q (r ∷ rs) a h e k = ground (arith, h r, first_where-narrow p q rs a h)

same_status_refl_of : (s t : RunStatus) → s ≡ t → same_status t t ≡ true → same_status s t ≡ true
same_status_refl_of s t e h = rw e h

-- What a report that was taken leaves.
abbrev pub Advanced : Call → ℕ → Bool → Server → Run → Report → Server × Reply → Type 0
Advanced c id flag s run p a =
    (a.1 ≡ updated_unless flag)
    × (a.0.targets ≡ s.targets)
    × ((next : Run) × Stands c id flag p.status a.0 next
        × (next.storage_target_id ≡ run.storage_target_id)
        × (next.checksum ≡ p.checksum)
        × (next.storage_path ≡ p.storage_path))

module _ (env : Env) (c : Call) (id : ℕ) (fine : c.update_fails ≡ false)
    (wraps : (key : Text) → (w : Text) × (env.encrypt key ≡ some w)) where
  decide-transition :
      (dir : Option Text) (run : Run) (p : Report)
      → can_transition run.status p.status ≡ true
      → escapes p.storage_path dir ≡ false
      → (w : Option Text) × (decide env dir run p ≡ transition w)
  unfolding decide
  decide-transition dir run p h k = elim (Bool-cases (is_empty p.data_key)) [
    | inl e ↦ (none, rw (h, k, e) refl)
    | inr e ↦ let (w, wrapped) = wraps p.data_key in (some w, rw (h, k, e, wrapped) refl)
  ]

  after_status-runs :
      (run : Run) (p : Report) (status : RunStatus) (s : Server)
      → same_status status failed ≡ false
      → ((after_status env c run p status s).runs ≡ s.runs)
        × ((after_status env c run p status s).targets ≡ s.targets)
  unfolding after_completed same_status
  after_status-runs run p completed s h = (refl, refl)
  after_status-runs run p failed s h = absurd (cc)
  after_status-runs run p _ s h = (refl, refl)

  abbrev written : Run → Report → Option Text → Server → Server
  written run p w s = record s {
    runs = update_where (guarded run) (apply_report run p w c.now) s.runs;
    events = s.events ++ report_event run p ∷ [];
  }

  commit-written :
      (run : Run) (p : Report) (w : Option Text) (s : Server)
      → (count_where (guarded run) s.runs == 0) ≡ false
      → commit env c run p (transition w) s ≡ (
        after_status env c run p p.status (written run p w s),
        updated_unless
            (if c.reread_fails then false else cancel_flag run.id (written run p w s).runs),
      )
  unfolding commit
  commit-written run p w s there = rw (fine, there) refl

  pub update_status-commit :
      (run : Run) (p : Report) (s : Server)
      → has_negative p ≡ false
      → first_where (owned id c.agent) s.runs ≡ some run
      → update_status env c (some id) (some p) s
        ≡ commit env c run p (decide env (target_path run s) run p) s
  unfolding update_status
  update_status-commit run p s positive mine = rw (positive, mine) refl

  -- The row after the write.
  moved :
      (run : Run) (p : Report) (w : Option Text) (s : Server)
      → first_where (λ (r : Run). r.id == id) s.runs ≡ some run
      → guarded run run ≡ true
      → first_where (λ (r : Run). r.id == id) (written run p w s).runs
        ≡ some (apply_report run p w c.now run)
  unfolding apply_report
  moved run p w s found self =
      first_where-update_where (λ (r : Run). r.id == id) (guarded run) (apply_report run p w c.now)
        s.runs run (λ r. refl) found self

  pub Stands-owned :
      (flag : Bool) (status : RunStatus) (s : Server) (run : Run)
      → Stands c id flag status s run
      → first_where (owned id c.agent) s.runs ≡ some run
  Stands-owned flag status s run st =
      first_where-narrow (λ (r : Run). r.id == id) (owned id c.agent) s.runs run
        (λ r h. (&&_true (r.id == id) (r.agent_id == c.agent) h).0) st.found
        (ground (arith, st.owner, first_where_sound (λ (r : Run). r.id == id) s.runs st.found))

  -- A report along an edge of the lifecycle, other than of a failure, is taken; the flag is seen unless
  -- its re-read fails.
  pub advance :
      (flag : Bool) (s : Server) (run : Run) (status : RunStatus) (p : Report)
      → (if c.reread_fails then false else flag) ≡ flag
      → Stands c id flag status s run
      → same_status status status ≡ true
      → can_transition status p.status ≡ true
      → same_status p.status failed ≡ false
      → has_negative p ≡ false
      → escapes p.storage_path (target_path run s) ≡ false
      → Advanced c id flag s run p (update_status env c (some id) (some p) s)
  unfolding apply_report
  advance flag s run status p seen st self edge alive positive inside =
      subst (Advanced c id flag s run p)
        (sym (
          update_status-commit run p s positive mine
          ∙ ap (λ d. commit env c run p d s) decided.1
          ∙ commit-written run p decided.0 s there))
        (
          ap updated_unless (ap (λ b. if c.reread_fails then false else b) raised ∙ seen),
          (after_status-runs run p p.status _ alive).1,
          (
            apply_report run p decided.0 c.now run,
            record {
              found =
                  ap (first_where (λ (r : Run). r.id == id))
                    (after_status-runs run p p.status _ alive).0
                  ∙ row;
              owner = st.owner;
              status_is = refl;
              wanted = st.wanted;
            },
            refl,
            refl,
            refl,
          ),
        )
    where
      same_id : run.id ≡ id
      same_id = ground (arith, first_where_sound (λ (r : Run). r.id == id) s.runs st.found)

      mine : first_where (owned id c.agent) s.runs ≡ some run
      mine = Stands-owned flag status s run st

      guards : guarded run run ≡ true
      guards = ground (arith, subst (λ x. same_status x x ≡ true) (sym st.status_is) self)

      there : (count_where (guarded run) s.runs == 0) ≡ false
      there = ground (
        arith,
        first_where-count (guarded run) (guarded run) s.runs run (λ r h. h)
            (first_where-narrow (λ (r : Run). r.id == id) (guarded run) s.runs run
              (λ r h. subst (λ i. (r.id == i) ≡ true) same_id (&&_true (r.id == run.id) _ h).0)
              st.found guards),
      )

      decided : (w : Option Text) × (decide env (target_path run s) run p ≡ transition w)
      decided =
          decide-transition (target_path run s) run p
            (subst (λ x. can_transition x p.status ≡ true) (sym st.status_is) edge) inside

      row :
          first_where (λ (r : Run). r.id == id) (written run p decided.0 s).runs
          ≡ some (apply_report run p decided.0 c.now run)
      row = moved run p decided.0 s st.found guards

      raised : cancel_flag run.id (written run p decided.0 s).runs ≡ flag
      raised =
          subst (λ i. cancel_flag i (written run p decided.0 s).runs ≡ flag) (sym same_id)
            (rw (row, cancel_flag) st.wanted)
