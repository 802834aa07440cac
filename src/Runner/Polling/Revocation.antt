-- ===== src/Runner/Polling/Revocation.antt =====
-- One piece of work for each poll, and none once the credential is known to be revoked.
use db_backup_app.Base.{
  ℕ, suc, ◌≤◌, ◌≡◌, refl, ap, subst, Bool, true, false, ◌&&◌, not, List, [], ◌∷◌, ◌++◌, arith, Text,
  length, any, count_where, count_where-append, branch, Bool-cases, inl, inr,
}
use db_backup_app.Runner.Polling.{
  Claimed, taken, refused, granted, Listed, Answer, listed, failed, Poll, Deed, backs_up, drops,
  restores, Polled, claim_run, claim_restore, claim_runs, claim_restores, poll_backups,
  poll_restores, poll_once, run, is_refused, is_revoked_error,
}

-- A run that is executed, or dropped as cancelled, or a restore that is executed.
abbrev pub is_work : Deed → Bool
is_work (backs_up id) = true
is_work (drops id) = true
is_work (restores id) = true
is_work _ = false

abbrev pub one_if : Bool → ℕ
one_if true = 1
one_if false = 0

module _ (lower : Text → Text) where
  -- A poll knows that it worked: then it did at most one piece of work, and otherwise none.
  abbrev Counted : Polled → Type 0
  Counted p = count_where is_work p.deeds ≤ one_if p.worked

  claim_run-Counted :
      (id : ℕ) (c : Claimed) (rest : Polled) → Counted rest → Counted (claim_run lower id c rest)
  unfolding claim_run
  claim_run-Counted id taken rest h = h
  claim_run-Counted id (refused e) rest h =
      branch Counted (is_revoked_error lower e) (λ _. omega arith) (λ _. h)
  claim_run-Counted id (granted true) rest h = omega arith
  claim_run-Counted id (granted false) rest h = omega arith

  claim_runs-Counted : (ls : List Listed) → Counted (claim_runs lower ls)
  unfolding claim_runs
  claim_runs-Counted [] = omega arith
  claim_runs-Counted (l ∷ ls) =
      branch Counted l.stopping (λ _. omega arith)
        (λ _. claim_run-Counted l.id l.claim (claim_runs lower ls) (claim_runs-Counted ls))

  claim_restore-Counted :
      (id : ℕ) (c : Claimed) (rest : Polled)
      → Counted rest
      → Counted (claim_restore lower id c rest)
  unfolding claim_restore
  claim_restore-Counted id taken rest h = h
  claim_restore-Counted id (refused e) rest h =
      branch Counted (is_revoked_error lower e) (λ _. omega arith) (λ _. h)
  claim_restore-Counted id (granted cancel) rest h = omega arith

  claim_restores-Counted : (ls : List Listed) → Counted (claim_restores lower ls)
  unfolding claim_restores
  claim_restores-Counted [] = omega arith
  claim_restores-Counted (l ∷ ls) =
      branch Counted l.stopping (λ _. omega arith)
        (λ _.
          claim_restore-Counted l.id l.claim (claim_restores lower ls) (claim_restores-Counted ls))

  poll_backups-Counted : (a : Answer) → Counted (poll_backups lower a)
  unfolding poll_backups
  poll_backups-Counted (failed e) = omega arith
  poll_backups-Counted (listed ls) = claim_runs-Counted ls

  poll_restores-Counted : (a : Answer) → Counted (poll_restores lower a)
  unfolding poll_restores
  poll_restores-Counted (failed e) = omega arith
  poll_restores-Counted (listed ls) = claim_restores-Counted ls

  one_if-le : (b : Bool) → one_if b ≤ 1
  one_if-le true = omega arith
  one_if-le false = omega arith

  poll_once-works : (p : Poll) → count_where is_work (poll_once lower p).deeds ≤ 1
  unfolding poll_once
  poll_once-works p =
      branch One p.stopping (λ _. omega arith)
        (λ _.
          branch One (is_refused lower p.heartbeat) (λ _. omega arith)
            (λ _.
              branch One b.worked
                (λ _. omega (arith, poll_backups-Counted p.runs, one_if-le b.worked))
                (λ idle_here. omega (
                  arith,
                  count_where-append is_work b.deeds r.deeds,
                  subst (λ w. count_where is_work b.deeds ≤ one_if w) idle_here
                      (poll_backups-Counted p.runs),
                  poll_restores-Counted p.restores,
                  one_if-le r.worked,
                ))))
    where
      One : Polled → Type 0
      One q = count_where is_work q.deeds ≤ 1

      b : Polled
      b = poll_backups lower p.runs

      r : Polled
      r = poll_restores lower p.restores

  run-works : (ps : List Poll) → count_where is_work (run lower ps) ≤ length ps
  unfolding run
  run-works [] = omega arith
  run-works (p ∷ ps) =
      branch (λ rest. count_where is_work ((poll_once lower p).deeds ++ rest) ≤ suc (length ps))
        (poll_once lower p).revoked
        (λ _.
          omega (arith, poll_once-works p, count_where-append is_work (poll_once lower p).deeds []))
        (λ _. omega (
          arith,
          poll_once-works p,
          run-works ps,
          count_where-append is_work (poll_once lower p).deeds (run lower ps),
        ))

  -- The heartbeat of a poll is refused because the credential is revoked.
  abbrev pub meets_revocation : Poll → Bool
  meets_revocation p = not p.stopping && is_refused lower p.heartbeat

  poll_once-revoked : (p : Poll) → meets_revocation p ≡ true → (poll_once lower p).revoked ≡ true
  unfolding poll_once
  poll_once-revoked p h = ground arith

  run-stops :
      (ps qs qs' : List Poll)
      → any meets_revocation ps ≡ true
      → run lower (ps ++ qs) ≡ run lower (ps ++ qs')
  unfolding run
  run-stops [] qs qs' h = absurd (cc)
  run-stops (p ∷ ps) qs qs' h =
      ap (λ rest. (poll_once lower p).deeds ++ rest)
        (elim (Bool-cases (poll_once lower p).revoked) [
          | inl e ↦ rw e refl
          | inr e ↦ rw e (run-stops ps qs qs' (ground (arith, poll_once-revoked p)))
        ])

  -- A poll does at most one piece of work, and the loop at most one for each poll, whatever is answered;
  -- and once a heartbeat was refused because the credential is revoked, whatever later polls would be
  -- answered makes no difference: the loop has stopped.
  pub run-bounded :
      (p : Poll) (ps rs qs qs' : List Poll)
      → any meets_revocation rs ≡ true
      → (count_where is_work (poll_once lower p).deeds ≤ 1)
        × (count_where is_work (run lower ps) ≤ length ps)
        × (run lower (rs ++ qs) ≡ run lower (rs ++ qs'))
  run-bounded p ps rs qs qs' h = (poll_once-works p, run-works ps, run-stops rs qs qs' h)
