-- ===== src/Enrollment/Single.antt =====
-- A token enrolls once, and a refused enrollment leaves no trace.
use db_backup_app.Base.{
  ℕ, ◌≤◌, ◌≡◌, refl, Bool, ◌&&◌, ◌||◌, Option, none, some, List, [], ◌∷◌, arith, ◌==◌, Text, branch,
  Option-cases, inl, inr, count_where, first_where, update_where, count_where-update_where-le,
  is_some,
}
use db_backup_app.Agents.{Agent}
use db_backup_app.Enrollment.{
  Token, Registry, Reply, enrolled, unauthorized, EnrollRequest, is_usable, use_token, enroll_write,
  enroll_commit, heartbeat, revoke, revoke_token,
}

-- What may happen to the tokens after an enrollment; enrollments may have read theirs long before.
pub data Request : Type 0 where
  enrolls : Bool → EnrollRequest → Text → Text → ℕ → Token → ℕ → Request
  revokes_token : Bool → Option ℕ → ℕ → ℕ → Request
  revokes : Bool → Option ℕ → ℕ → ℕ → Request
  beats : Agent → Text → ℕ → Request

module _ (lower : Text → Text) (bytes : Text → ℕ) where
  pub step : Registry → Request → Registry
  step r (enrolls fails req credential hash now tok agent) =
      (enroll_commit lower fails req credential hash now tok agent r).0
  step r (revokes_token fails id org now) = (revoke_token fails id org now r).0
  step r (revokes fails id org now) = (revoke fails id org now r).0
  step r (beats a version now) = heartbeat bytes a version now r

  pub run : Registry → List Request → Registry
  run r [] = r
  run r (q ∷ qs) = run (step r q) qs

  abbrev usable : ℕ → Registry → ℕ
  usable id r = count_where (is_usable id) r.tokens

  write-usable :
      (req : EnrollRequest) (hash : Text) (now id : ℕ) (tok : Token) (a : Agent) (r : Registry)
      → usable id (enroll_write lower req hash now tok a r) ≤ usable id r
  unfolding enroll_write
  write-usable req hash now id tok a r =
      count_where-update_where-le (is_usable id) (is_usable tok.id) (use_token now) r.tokens
        (λ t _ u. absurd (ground arith))

  commit-usable :
      (fails : Bool) (req : EnrollRequest) (credential hash : Text) (now id : ℕ) (tok : Token)
      (agent : ℕ) (r : Registry)
      → usable id (enroll_commit lower fails req credential hash now tok agent r).0 ≤ usable id r
  unfolding enroll_commit
  commit-usable fails req credential hash now id tok agent r =
      branch Fewer (fails || count_where (is_usable tok.id) r.tokens == 0) (λ _. omega arith)
        (λ _.
          elim (Option-cases (
            first_where (λ a. a.id == agent && a.organization_id == tok.organization_id)
              r.roster.agents)) [
                | inl e ↦ rw e (omega arith)
                | inr (a, e) ↦ rw e (
                    branch Fewer (is_some a.revoked_at) (λ _. omega arith)
                      (λ _. write-usable req hash now id tok a r))
              ])
    where
      Fewer : Registry × Reply → Type 0
      Fewer s = usable id s.0 ≤ usable id r

  revoke_token-usable :
      (fails : Bool) (i : Option ℕ) (org now id : ℕ) (r : Registry)
      → usable id (revoke_token fails i org now r).0 ≤ usable id r
  unfolding revoke_token
  revoke_token-usable fails none org now id r = omega arith
  revoke_token-usable fails (some i) org now id r =
      branch Fewer fails (λ _. omega arith)
        (λ _.
          branch Fewer (count_where hit r.tokens == 0) (λ _. omega arith)
            (λ _.
              count_where-update_where-le (is_usable id) hit
                (λ t. record t { revoked_at = some now }) r.tokens
                (λ t _ u. absurd (ground arith))))
    where
      hit : Token → Bool
      hit t = is_usable i t && t.organization_id == org

      Fewer : Registry × Reply → Type 0
      Fewer s = usable id s.0 ≤ usable id r

  revoke-usable :
      (fails : Bool) (i : Option ℕ) (org now id : ℕ) (r : Registry)
      → usable id (revoke fails i org now r).0 ≡ usable id r
  unfolding revoke
  revoke-usable fails none org now id r = refl
  revoke-usable fails (some i) org now id r =
      elim (Option-cases
        (first_where (λ a. a.id == i && a.organization_id == org) r.roster.agents)) [
          | inl e ↦ rw (e, revoke) refl
          | inr (a, e) ↦ rw (e, revoke) refl
        ]

  -- No request makes a token usable.
  step-usable : (r : Registry) (q : Request) (id : ℕ) → usable id (step r q) ≤ usable id r
  unfolding step heartbeat
  step-usable r (enrolls fails req credential hash now tok agent) id =
      commit-usable fails req credential hash now id tok agent r
  step-usable r (revokes_token fails i org now) id = revoke_token-usable fails i org now id r
  step-usable r (revokes fails i org now) id = omega (arith, revoke-usable fails i org now id r)
  step-usable r (beats a version now) id = omega arith

  run-usable : (r : Registry) (qs : List Request) (id : ℕ) → usable id (run r qs) ≤ usable id r
  unfolding run
  run-usable r [] id = omega arith
  run-usable r (q ∷ qs) id = omega (arith, step-usable r q id, run-usable (step r q) qs id)

  write-spends :
      (req : EnrollRequest) (hash : Text) (now : ℕ) (tok : Token) (a : Agent) (r : Registry)
      → usable tok.id (enroll_write lower req hash now tok a r) ≡ 0
  unfolding enroll_write
  write-spends req hash now tok a r = spend r.tokens
    where
      spend :
          (ts : List Token)
          → count_where (is_usable tok.id) (update_where (is_usable tok.id) (use_token now) ts) ≡ 0
      spend [] = refl
      spend (t ∷ ts) = ground (arith, spend ts)

  commit-spends :
      (fails : Bool) (req : EnrollRequest) (credential hash : Text) (now : ℕ) (tok : Token)
      (agent who : ℕ) (r : Registry)
      → (enroll_commit lower fails req credential hash now tok agent r).1 ≡ enrolled who credential
      → usable tok.id (enroll_commit lower fails req credential hash now tok agent r).0 ≡ 0
  unfolding enroll_commit
  commit-spends fails req credential hash now tok agent who r =
      branch Spent (fails || count_where (is_usable tok.id) r.tokens == 0) (λ _ e. absurd (cc))
        (λ _.
          elim (Option-cases (
            first_where (λ a. a.id == agent && a.organization_id == tok.organization_id)
              r.roster.agents)) [
                | inl e ↦ rw e (λ h. absurd (cc))
                | inr (a, e) ↦ rw e (
                    branch Spent (is_some a.revoked_at) (λ _ h. absurd (cc))
                      (λ _ h. write-spends req hash now tok a r))
              ])
    where
      Spent : Registry × Reply → Type 0
      Spent s = s.1 ≡ enrolled who credential → usable tok.id s.0 ≡ 0

  refused :
      (fails : Bool) (req : EnrollRequest) (credential hash : Text) (now : ℕ) (tok : Token)
      (agent : ℕ) (u : Registry)
      → usable tok.id u ≡ 0
      → enroll_commit lower fails req credential hash now tok agent u ≡ (u, unauthorized)
  unfolding enroll_commit
  refused fails req credential hash now tok agent u zero = ground arith

  -- Once a token has enrolled an agent, it enrolls nobody again, also for a request that read the
  -- token before: after any later enrollments, revocations and heartbeats, such a request is refused
  -- and changes nothing.
  pub enroll_commit-once :
      (fails fails' : Bool) (req req' : EnrollRequest) (credential hash credential' hash' : Text)
      (now now' : ℕ) (tok : Token) (agent agent' who : ℕ) (r : Registry) (later : List Request)
      → let s = enroll_commit lower fails req credential hash now tok agent r in
        s.1 ≡ enrolled who credential
        → enroll_commit lower fails' req' credential' hash' now' tok agent' (run s.0 later)
          ≡ (run s.0 later, unauthorized)
  enroll_commit-once fails fails' req req' credential hash credential' hash' now now' tok agent
        agent' who r later granted =
      refused fails' req' credential' hash' now' tok agent' (run _ later) (
        omega (
          arith,
          run-usable (enroll_commit lower fails req credential hash now tok agent r).0 later tok.id,
          commit-spends fails req credential hash now tok agent who r granted,
        ))
