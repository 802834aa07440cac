-- ===== src/Runner/LateCancel.antt =====
-- A cancellation that is requested while the agent verifies its upload.
use db_backup_app.Base.{
  ℕ, ◌≡◌, refl, ap, ◌∙◌, Bool, true, false, Option, none, some, [], ◌∷◌, ◌++◌, Text,
}
use db_backup_app.Reports.{
  Call, update_status, decide, commit, answer, bad_request, has_negative, escapes,
}
use db_backup_app.Runner.{
  Session, reported, deleted, Archive, Sealed, ObjectInfo, send, walk, cancel_run, final_report,
  empty_report,
}
use db_backup_app.Runner.Advance.{
  Stands, Stands-owned, advance, server_channel, target_path, update_status-commit,
}
use db_backup_app.Runs.{Run, verifying, completed, cancelled, can_transition, same_status}
use db_backup_app.Store.{Server, Env}

module _ (env : Env) (c : Call) (id : ℕ) (fine : c.update_fails ≡ false)
    (wraps : (key : Text) → (w : Text) × (env.encrypt key ≡ some w)) where
  refuses :
      (dir : Option Text) (run : Run)
      → run.status ≡ completed
      → decide env dir run (empty_report cancelled) ≡ answer bad_request
  unfolding decide can_transition same_status
  refuses dir run e = rw e refl

  completed_stays :
      (flag : Bool) (s : Server) (run : Run)
      → Stands c id flag completed s run
      → update_status env c (some id) (some (empty_report cancelled)) s ≡ (s, bad_request)
  unfolding commit
  completed_stays flag s run st =
      update_status-commit env c id fine wraps run (empty_report cancelled) s refl
        (Stands-owned env c id fine wraps flag completed s run st)
      ∙ ap (λ d. commit env c run (empty_report cancelled) d s)
          (refuses (target_path run s) run st.status_is)

  -- If a cancellation of the run was requested while it was VERIFYING, and neither the UPDATE of the run
  -- nor the re-read of its flag fails, the COMPLETED report is taken and
  -- the run stays COMPLETED, with the path of the object, but the agent deletes that object, and its
  -- CANCELLED report is refused.
  pub walk-deletes_completed :
      (archive : Archive) (sealed : Sealed) (info : ObjectInfo) (key : Text) (run : Run)
      (s : Session Server)
      → c.reread_fails ≡ false
      → Stands c id true verifying s.world run
      → has_negative (final_report archive sealed info completed) ≡ false
      → escapes info.location (target_path run s.world) ≡ false
      → let q = walk (server_channel env c id) archive sealed info key (completed ∷ []) s in
        (q.effects
          ≡ ((s.effects ++ reported (final_report archive sealed info completed) (some true) ∷ [])
              ++ deleted key ∷ [])
            ++ reported (empty_report cancelled) none ∷ [])
        × ((next : Run) × Stands c id true completed q.world next
            × (next.storage_path ≡ info.location))
  unfolding walk send cancel_run can_transition same_status
  walk-deletes_completed archive sealed info key run s reread st positive inside =
      let g =
        advance env c id fine wraps true s.world run verifying
          (final_report archive sealed info completed) (rw reread refl) st refl refl refl positive
          inside in
      let k = completed_stays true _ g.2.0 g.2.1 in rw (g.0, k) (refl, (g.2.0, g.2.1, g.2.4))
