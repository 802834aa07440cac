-- ===== src/Runner/Completion.antt =====
-- The agent against the server: a payload that is stored and verified makes a completed run.
use db_backup_app.Base.{
  eq_ℤ, ℕ, ◌≡◌, refl, sym, ap, subst, true, false, ◌&&◌, ◌||◌, not, none, some, List, [], ◌∷◌,
  arith, branch, Text, ℤ, is_empty, text_eq,
}
use mathlib.Core.Option
use db_backup_app.Reports.{Call, updated_unless, update_status, has_negative, escapes}
use db_backup_app.Runner.{
  Channel, Session, Tools, JobConfig, Archive, Sealed, ObjectInfo, ok, send, walk, verify_stored,
  deliver, pack, final_report, seal, key_of, is_zero,
}
use db_backup_app.Runner.Endings.{at_ok, no_error, not_taken}
use db_backup_app.Runs.{
  Run, RunStatus, running, uploading, verifying, completed, failed, same_status, can_transition,
}
use db_backup_app.Store.{Server, Env, StorageTarget, find_target}
use db_backup_app.Runner.Advance.{flag_in, server_channel, target_path, Stands, advance}

-- The machine and the storage provider do their part.
pub record Succeeds (t : Tools) (job : JobConfig) (archive : Archive) (sealed : Sealed)
    (info : ObjectInfo) : Type 0 where
  pub size : ℤ
  pub measured : t.payload_size ≡ ok size
  pub some_bytes : is_zero size ≡ false
  pub packed : seal t job archive ≡ ok sealed
  pub opened : t.open_error ≡ none
  pub statted : t.stat_error ≡ none
  pub put : t.put ≡ ok info
  pub head : ObjectInfo
  pub found : t.head ≡ ok head
  pub same : eq_ℤ head.size info.size ≡ true
  pub sums : (is_empty head.checksum || text_eq head.checksum (t.lower sealed.checksum)) ≡ true

module _ (env : Env) (c : Call) (id : ℕ) (fine : c.update_fails ≡ false)
    (wraps : (key : Text) → (w : Text) × (env.encrypt key ≡ some w)) where
  -- The walk, step by step: each report is taken, and at the end the run is completed.
  module _ (archive : Archive) (sealed : Sealed) (info : ObjectInfo)
      (positive : has_negative (final_report archive sealed info completed) ≡ false) where
    abbrev pub ch : Channel Server
    ch = server_channel env c id

    -- The run as the walk needs it, in the status that it has reached.
    pub record Ready (status : RunStatus) (s : Server) : Type 0 where
      pub run : Run
      pub stands : Stands c id false status s run
      pub inside : escapes info.location (target_path run s) ≡ false

    stepped :
        (status next : RunStatus) (s : Server)
        → Ready status s
        → same_status status status ≡ true
        → can_transition status next ≡ true
        → same_status next failed ≡ false
        → let a = update_status env c (some id) (some (final_report archive sealed info next)) s in
          (a.1 ≡ updated_unless false)
          × (flag_in a.1 ≡ some false)
          × Ready next a.0
          × ((run : Run) × Stands c id false next a.0 run
              × (run.checksum ≡ sealed.checksum)
              × (run.storage_path ≡ info.location))
    stepped status next s r self edge alive =
        let g =
          advance env c id fine wraps false s r.run status (final_report archive sealed info next)
            (branch (λ b. b ≡ false) c.reread_fails (λ _. refl) (λ _. refl)) r.stands self edge
            alive positive r.inside in
        (
          g.0,
          ap flag_in g.0,
          record {
            run = g.2.0;
            stands = g.2.1;
            inside =
                subst (λ o. escapes info.location o ≡ false)
                  (ap
                    (λ (i : ℕ × List StorageTarget). Option.map (λ t. t.path) (find_target i.0 i.1))
                    (sym (λ i. (g.2.2 i, g.1 i))))
                  r.inside;
          },
          (g.2.0, g.2.1, g.2.3, g.2.4),
        )

    -- The row of the run is completed, with the checksum and the path of what was stored.
    abbrev pub Complete : Server → Type 0
    Complete s =
        (run : Run) × Stands c id false completed s run
        × (run.checksum ≡ sealed.checksum)
        × (run.storage_path ≡ info.location)

    walk-Complete :
        (key : Text) (s : Session Server)
        → Ready running s.world
        → Complete
            (walk ch archive sealed info key (uploading ∷ verifying ∷ completed ∷ []) s).world
    unfolding walk send same_status can_transition
    walk-Complete key s r =
        let a = stepped running uploading s.world r refl refl refl in
        let b = stepped uploading verifying _ a.2 refl refl refl in
        let d = stepped verifying completed _ b.2 refl refl refl in rw (a.1, b.1, d.1) d.3

    verify_stored-Complete :
        (t : Tools) (job : JobConfig) (key : Text) (s : Session Server)
        → Succeeds t job archive sealed info
        → Ready running s.world
        → Complete (verify_stored ch t archive sealed info key s).world
    unfolding verify_stored
    verify_stored-Complete t job key s good r = at_ok Goal t.head good.head _ _ good.found (
        not_taken Goal (not (eq_ℤ good.head.size info.size)) _ _ (ap not good.same) (
          not_taken Goal
            (not (is_empty good.head.checksum)
              && not (text_eq good.head.checksum (t.lower sealed.checksum)))
            _ _ (ground (arith, good.sums)) (walk-Complete key _ r)))
      where
        Goal : Session Server → Type 0
        Goal q = Complete q.world

  -- A finished payload that is sealed, stored and verified, of a run that is RUNNING, of this agent, and
  -- that nobody wants cancelled, makes it a COMPLETED run with the checksum and the path of what was
  -- stored, if the server gets no other requests meanwhile, its statements succeed, it can wrap data keys,
  -- the sizes are not negative, and the path lies within the storage target.
  pub pack-Complete :
      (t : Tools) (job : JobConfig) (archive : Archive) (sealed : Sealed) (info : ObjectInfo)
      (s : Session Server)
      → (positive : has_negative (final_report archive sealed info completed) ≡ false)
      → Succeeds t job archive sealed info
      → Ready archive sealed info positive running s.world
      → Complete archive sealed info positive
          (pack (server_channel env c id) t job archive (s, false)).world
  unfolding pack deliver
  pack-Complete t job archive sealed info s positive good r =
      at_ok Goal t.payload_size good.size _ _ good.measured (
        not_taken Goal (is_zero good.size) _ _ good.some_bytes (
          at_ok Goal (seal t job archive) sealed _ _ good.packed (
            no_error Goal t.open_error _ _ good.opened (
              no_error Goal t.stat_error _ _ good.statted (
                at_ok Goal t.put info _ _ good.put (
                  verify_stored-Complete archive sealed info positive t job (key_of t job sealed) _
                    good r))))))
    where
      Goal : Session Server → Type 0
      Goal q = Complete archive sealed info positive q.world
