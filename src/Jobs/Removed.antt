-- ===== src/Jobs/Removed.antt =====
-- The removal of a policy or of a connection leaves no job that refers to it.
use db_backup_app.Base.{
  ℕ, ◌≤◌, ◌≡◌, refl, subst, Bool, false, ◌&&◌, not, Option, none, some, List, [], ◌∷◌, ◌==◌, arith,
  branch, All, any, any-false, any-kept, keep, update_where, count_where,
  count_where-update_where-le,
}
use db_backup_app.Jobs.{JobRow, Connection, PolicyKey, Office, JobReply, is_connection, is_policy}
use db_backup_app.Jobs.Promise.{SoundRow, Sound}
use db_backup_app.Jobs.Removal.{
  is_id, uses_policy, uses_connection, detached, delete_policy, delete_connection,
}

-- A row of the table, with a new list of connections or of policies.
kept_connection :
    (connections : List Connection) (policies : List PolicyKey) (id org : ℕ) (r : JobRow)
    → uses_connection id org r ≡ false
    → SoundRow connections policies r
    → SoundRow (keep (λ c. not (is_connection id org c)) connections) policies r
kept_connection connections policies id org r unused s = record {
  connection = λ k h.
      any-kept (is_connection k r.job.organization_id) (λ c. not (is_connection id org c))
        connections
        (λ c fits.
          ground (
            arith,
            fits,
            subst (λ o. (is_id id o && r.job.organization_id == org) ≡ false) h unused,
          ))
        (s.connection k h);
  policy = s.policy;
  format = s.format;
}

kept_policy :
    (connections : List Connection) (policies : List PolicyKey) (id org : ℕ) (r : JobRow)
    → uses_policy id org r ≡ false
    → SoundRow connections policies r
    → SoundRow connections (keep (λ p. not (is_policy id org p)) policies) r
kept_policy connections policies id org r unused s = record {
  connection = s.connection;
  policy = λ k h.
      any-kept (is_policy k r.job.organization_id) (λ p. not (is_policy id org p)) policies
        (λ p fits.
          ground (
            arith,
            fits,
            subst (λ o. (is_id id o && r.job.organization_id == org) ≡ false) h unused,
          ))
        (s.policy k h);
  format = s.format;
}

detached-Sound :
    (connections : List Connection) (policies : List PolicyKey) (r : JobRow)
    → SoundRow connections policies r
    → SoundRow connections policies (detached r)
detached-Sound connections policies r s = record {
  connection = s.connection;
  policy = λ k h. absurd (cc);
  format = s.format;
}

connections-rows :
    (connections : List Connection) (policies : List PolicyKey) (id org : ℕ) (rows : List JobRow)
    → All (λ r. uses_connection id org r ≡ false) rows
    → All (SoundRow connections policies) rows
    → All (SoundRow (keep (λ c. not (is_connection id org c)) connections) policies) rows
connections-rows connections policies id org [] unused s = tt
connections-rows connections policies id org (r ∷ rows) unused s = (
  kept_connection connections policies id org r unused.0 s.0,
  connections-rows connections policies id org rows unused.1 s.1,
)

-- After the detaching no job uses the policy.
detached_rows :
    (connections : List Connection) (policies : List PolicyKey) (id org : ℕ) (rows : List JobRow)
    → All (SoundRow connections policies) rows
    → All
        (λ r. (uses_policy id org r ≡ false) × SoundRow connections policies r)
        (update_where (uses_policy id org) detached rows)
detached_rows connections policies id org [] s = tt
detached_rows connections policies id org (r ∷ rows) s = (
  branch (λ q. (uses_policy id org q ≡ false) × SoundRow connections policies q)
      (uses_policy id org r) (λ _. (refl, detached-Sound connections policies r s.0))
      (λ unused. (unused, s.0)),
  detached_rows connections policies id org rows s.1,
)

policies-rows :
    (connections : List Connection) (policies : List PolicyKey) (id org : ℕ) (rows : List JobRow)
    → All (λ r. (uses_policy id org r ≡ false) × SoundRow connections policies r) rows
    → All (SoundRow connections policies) rows
      × All (SoundRow connections (keep (λ p. not (is_policy id org p)) policies)) rows
policies-rows connections policies id org [] s = (tt, tt)
policies-rows connections policies id org (r ∷ rows) s =
    let rest = policies-rows connections policies id org rows s.1 in
    ((s.0.1, rest.0), (kept_policy connections policies id org r s.0.0 s.0.1, rest.1))

pub delete_connection-Sound :
    (fails : Bool) (org : ℕ) (id : Option ℕ) (o : Office)
    → Sound o
    → Sound (delete_connection false fails org id o).0
unfolding delete_connection
delete_connection-Sound fails org none o s = s
delete_connection-Sound fails org (some id) o s =
    branch P (not (any (is_connection id org) o.connections)) (λ _. s)
      (λ _.
        branch P (any (uses_connection id org) o.jobs) (λ _. s)
          (λ unused.
            branch P fails (λ _. s)
              (λ _. record {
                keys = s.keys;
                rows =
                    connections-rows o.connections o.policies id org o.jobs
                      (any-false (uses_connection id org) o.jobs unused) s.rows;
              })))
  where
    P : Office × JobReply → Type 0
    P r = Sound r.0

pub delete_policy-Sound :
    (fails : Bool) (org : ℕ) (id : Option ℕ) (o : Office)
    → Sound o
    → Sound (delete_policy false fails org id o).0
unfolding delete_policy
delete_policy-Sound fails org none o s = s
delete_policy-Sound fails org (some id) o s =
    branch P fails (λ _. record { keys = keys; rows = rows.0 })
      (λ _.
        branch P (any (is_policy id org) o.policies) (λ _. record { keys = keys; rows = rows.1 })
          (λ _. record { keys = keys; rows = rows.0 }))
  where
    P : Office × JobReply → Type 0
    P r = Sound r.0

    jobs : List JobRow
    jobs = update_where (uses_policy id org) detached o.jobs

    rows :
        All (SoundRow o.connections o.policies) jobs
        × All (SoundRow o.connections (keep (λ p. not (is_policy id org p)) o.policies)) jobs
    rows =
        policies-rows o.connections o.policies id org jobs
          (detached_rows o.connections o.policies id org o.jobs s.rows)

    keys : (k : ℕ) → count_where (λ (r : JobRow). r.job.id == k) jobs ≤ 1
    keys k = omega (
      arith,
      s.keys k,
      count_where-update_where-le (λ (r : JobRow). r.job.id == k) (uses_policy id org) detached
          o.jobs (λ r _ h. h),
    )
