-- ===== src/Restores/Lifecycle.antt =====
-- The lifecycle of a restore as a relation, and what a report or a claim does to the table.
use db_backup_app.Base.{
  ℕ, ◌≡◌, refl, sym, subst, ◌⊎◌, inl, inr, Bool, true, ◌&&◌, Option, none, some, List, [], ◌∷◌,
  arith, ◌==◌, branch, Option-cases, update_where, first_where, count_where, text_eq_sound, &&_true,
}
use db_backup_app.Restores.{
  Restore, RestoreStatus, pending, running, completed, failed, other, same_restore_status,
  can_restore_transition, Desk, Reply, RestoreReport, Decision, answer, transition, decide_restore,
  commit_restore, restore_row, unchanged, claim_restore, restore_claimable,
}

infix 40 ◌↝◌
pub data ◌↝◌ : RestoreStatus → RestoreStatus → Type 0 where
  begins : pending ↝ running
  gives_up : pending ↝ failed
  succeeds : running ↝ completed
  breaks : running ↝ failed

edge : (s t : RestoreStatus) → can_restore_transition s t ≡ true → s ↝ t
unfolding can_restore_transition same_restore_status
edge pending running h = begins
edge pending failed h = gives_up
edge running completed h = succeeds
edge running failed h = breaks
edge _ _ h = absurd (cc)

same_restore_status_sound : (s t : RestoreStatus) → same_restore_status s t ≡ true → s ≡ t
unfolding same_restore_status
same_restore_status_sound pending pending h = refl
same_restore_status_sound running running h = refl
same_restore_status_sound completed completed h = refl
same_restore_status_sound failed failed h = refl
same_restore_status_sound (other s) (other t) h = cc (text_eq_sound s t h)
same_restore_status_sound _ _ h = absurd (cc)

-- Every row keeps its identity and its agent, and its status stays or takes one edge.
abbrev pub Moves : List Restore → List Restore → Type 0
Moves [] qs = qs ≡ []
Moves (r ∷ rs) [] = ⊥
Moves (r ∷ rs) (q ∷ qs) =
    (q.id ≡ r.id)
    × (q.agent_id ≡ r.agent_id)
    × ((q.status ≡ r.status) ⊎ (r.status ↝ q.status))
    × Moves rs qs

Moves-refl : (rs : List Restore) → Moves rs rs
Moves-refl [] = refl
Moves-refl (r ∷ rs) = (refl, refl, inl refl, Moves-refl rs)

Moves-update_where :
    (hit : Restore → Bool) (change : Restore → Restore) (rs : List Restore)
    → ((r : Restore)
        → hit r ≡ true
        → ((change r).id ≡ r.id)
          × ((change r).agent_id ≡ r.agent_id)
          × (r.status ↝ (change r).status))
    → Moves rs (update_where hit change rs)
Moves-update_where hit change [] k = refl
Moves-update_where hit change (r ∷ rs) k =
    branch (λ q. Moves (r ∷ rs) (q ∷ update_where hit change rs)) (hit r)
      (λ h. ((k r h).0, (k r h).1, inr (k r h).2, Moves-update_where hit change rs k))
      (λ _. (refl, refl, inl refl, Moves-update_where hit change rs k))

decide_restore-edge :
    (read : Restore) (p : RestoreReport)
    → decide_restore read p ≡ transition
    → can_restore_transition read.status p.status ≡ true
unfolding decide_restore
decide_restore-edge read p h = ground arith

decided :
    (agent : ℕ) (read : Restore) (p : RestoreReport) (now : ℕ) (d : Desk) (v : Decision)
    → (v ≡ transition → can_restore_transition read.status p.status ≡ true)
    → Moves d.rows (commit_restore agent read p now v d).0.rows
unfolding commit_restore restore_row
decided agent read p now d (answer r) k = Moves-refl d.rows
decided agent read p now d transition k =
    Moves-update_where (unchanged read agent) (restore_row read p now) d.rows (λ row h. (
      refl,
      refl,
      subst (λ s. s ↝ p.status)
          (sym (same_restore_status_sound row.status read.status (&&_true _ _ h).1))
          (edge read.status p.status (k refl)),
    ))

claimable_pending :
    (id agent : ℕ) (r : Restore) → restore_claimable id agent r ≡ true → r.status ≡ pending
claimable_pending id agent r h = same_restore_status_sound r.status pending (&&_true _ _ h).1

-- A report on a restore, decided on an earlier state of it, moves the restores of the table as it is
-- by then by at most one edge of the lifecycle each, whatever happened in between; so does a claim.
pub commit_restore-Moves :
    (agent : ℕ) (read : Restore) (p : RestoreReport) (now : ℕ) (fails : Bool) (id : Option ℕ)
    (d : Desk)
    → Moves d.rows (commit_restore agent read p now (decide_restore read p) d).0.rows
      × Moves d.rows (claim_restore fails agent id now d).0.rows
unfolding claim_restore
commit_restore-Moves agent read p now fails id d =
    (decided agent read p now d (decide_restore read p) (decide_restore-edge read p), claims id)
  where
    Kept : Desk × Reply → Type 0
    Kept r = Moves d.rows r.0.rows

    started : Restore → Restore
    started r = record r { status = running; started_at = some now }

    moved : (i : ℕ) → Moves d.rows (update_where (restore_claimable i agent) started d.rows)
    moved i =
        Moves-update_where (restore_claimable i agent) started d.rows (λ r h.
          (refl, refl, subst (λ s. s ↝ running) (sym (claimable_pending i agent r h)) begins))

    claims : (id : Option ℕ) → Kept (claim_restore fails agent id now d)
    claims none = Moves-refl d.rows
    claims (some i) =
        branch Kept fails (λ _. Moves-refl d.rows)
          (λ _.
            branch Kept (count_where (restore_claimable i agent) d.rows == 0)
              (λ _.
                elim (Option-cases (first_where (λ r. r.id == i && r.agent_id == agent) d.rows)) [
                  | inl e ↦ rw e (Moves-refl d.rows)
                  | inr (r, e) ↦ rw e (Moves-refl d.rows)
                ])
              (λ _.
                elim (Option-cases (
                  first_where (λ r. r.id == i)
                    (update_where (restore_claimable i agent) started d.rows))) [
                      | inl e ↦ rw e (moved i)
                      | inr (r, e) ↦ rw e (moved i)
                    ]))
