-- ===== src/Monitor/Silent.antt =====
-- An agent that has fallen silent is taken for offline.
use db_backup_app.Base.{
  ℕ, ◌*◌, ◌≤◌, ◌≡◌, refl, Bool, true, false, ◌&&◌, ◌||◌, not, List, [], ◌∷◌, arith, ◌==◌,
  if◌then◌else◌, branch, count_where, count_where-update_where-le, All, keep, minute, inl, inr,
  update_where, Bool-cases, subst,
}
use db_backup_app.Agents.{Agent, offline, is_online, seen_within}
use db_backup_app.Store.{Server, Env}
use db_backup_app.Monitor.{
  PassFaults, MonitorSettings, load_thresholds, mark_offline, mark_silent, pair_up, was_seen,
  check_agents, is_recent,
}

-- Whatever an organization has saved, its agents are given one minute at least and an hour at most,
-- and a missed backup is reported after 1 to 24 intervals.
pub load_thresholds-bounds :
    (org : ℕ) (settings : List MonitorSettings)
    → let t = load_thresholds org settings in
      (minute ≤ t.offline_after)
      × (t.offline_after ≤ 60 * minute)
      × (1 ≤ t.missed_mult)
      × (t.missed_mult ≤ 24)
unfolding load_thresholds
load_thresholds-bounds org settings = (ground arith, ground arith, ground arith, ground arith)

abbrev pub is_up : ℕ → Agent → Bool
is_up i b = b.id == i && is_online b.status

-- The column of the agent's rows, unless the statement fails.
abbrev set_offline : PassFaults → Agent → List Agent → List Agent
set_offline f a rows =
    if f.update_fails
    then rows
    else update_where (λ b. b.id == a.id) (λ b. record b { status = offline }) rows

mark_offline-agents :
    (env : Env) (f : PassFaults) (now id : ℕ) (a : Agent) (s : Server)
    → (mark_offline env f now id a s).roster.agents ≡ set_offline f a s.roster.agents
unfolding mark_offline
mark_offline-agents env f now id a s =
    branch (λ (t : Server). t.roster.agents ≡ set_offline f a s.roster.agents)
      (not f.count_fails && is_recent env a.id now s.book) (λ _. refl) (λ _. refl)

-- Seen lately enough, or not online anyway.
abbrev pub spares : List MonitorSettings → ℕ → Agent → Bool
spares settings now a =
    seen_within (load_thresholds a.organization_id settings).offline_after now a.last_seen_at
    || not (is_online a.status)

-- The pass takes nobody for online.
mark_silent-le :
    (env : Env) (settings : List MonitorSettings) (f : Agent → PassFaults) (now i : ℕ)
    (l : List (Agent × ℕ)) (s : Server)
    → count_where (is_up i) (mark_silent env settings f now l s).roster.agents
      ≤ count_where (is_up i) s.roster.agents
unfolding mark_silent
mark_silent-le env settings f now i [] s = omega arith
mark_silent-le env settings f now i ((a, id) ∷ rest) s =
    omega (arith, one, mark_silent-le env settings f now i rest t)
  where
    t : Server
    t = if spares settings now a then s else mark_offline env (f a) now id a s

    one : count_where (is_up i) t.roster.agents ≤ count_where (is_up i) s.roster.agents
    one =
        branch
          (λ (u : Server).
            count_where (is_up i) u.roster.agents ≤ count_where (is_up i) s.roster.agents)
          (spares settings now a) (λ _. omega arith)
          (λ _. rw (mark_offline-agents env (f a) now id a s) (
            branch (λ rows. count_where (is_up i) rows ≤ count_where (is_up i) s.roster.agents)
              (f a).update_fails (λ _. omega arith)
              (λ _.
                count_where-update_where-le (is_up i) (λ b. b.id == a.id)
                  (λ b. record b { status = offline }) s.roster.agents (λ r _ p. ground arith))))

mark_offline-zero :
    (env : Env) (f : PassFaults) (now id : ℕ) (a : Agent) (s : Server)
    → f.update_fails ≡ false
    → count_where (is_up a.id) (mark_offline env f now id a s).roster.agents ≡ 0
mark_offline-zero env f now id a s fine =
    rw (mark_offline-agents env f now id a s, fine) (zero s.roster.agents)
  where
    zero :
        (rows : List Agent)
        → count_where
            (is_up a.id)
            (update_where (λ b. b.id == a.id) (λ b. record b { status = offline }) rows)
          ≡ 0
    zero [] = refl
    zero (r ∷ rows) = ground (arith, zero rows)

abbrev Caught : Server → List MonitorSettings → (Agent → PassFaults) → ℕ → Agent × ℕ → Type 0
Caught t settings f now (a, id) =
    spares settings now a ≡ false
    → (f a).update_fails ≡ false
    → count_where (is_up a.id) t.roster.agents ≡ 0

mark_silent-Caught :
    (env : Env) (settings : List MonitorSettings) (f : Agent → PassFaults) (now : ℕ)
    (l : List (Agent × ℕ)) (s : Server)
    → All (Caught (mark_silent env settings f now l s) settings f now) l
unfolding mark_silent
mark_silent-Caught env settings f now [] s = tt
mark_silent-Caught env settings f now ((a, id) ∷ rest) s = (
  λ silent fine. omega (arith, mark_silent-le env settings f now a.id rest _, caught silent fine),
  mark_silent-Caught env settings f now rest _,
)
  where
    caught :
        spares settings now a ≡ false
        → (f a).update_fails ≡ false
        → count_where
            (is_up a.id)
            (if spares settings now a then s else mark_offline env (f a) now id a s).roster.agents
          ≡ 0
    caught silent fine = rw silent (mark_offline-zero env (f a) now id a s fine)

-- What holds of all rows that were read holds of the rows of the table that fit.
All-read :
    (P : Agent → Type 0) (q : Agent → Bool) (rows : List Agent) (ids : ℕ → ℕ)
    → All (λ p. P p.0) (pair_up (keep q rows) ids)
    → All (λ a. q a ≡ true → P a) rows
All-read P q [] ids h = tt
All-read P q (a ∷ rows) ids h = elim (Bool-cases (q a)) [
  | inl fits ↦
      let k : All (λ p. P p.0) (pair_up (a ∷ keep q rows) ids) =
        subst (λ b. All (λ p. P p.0) (pair_up (if b then a ∷ keep q rows else keep q rows) ids))
          fits h in
      (λ _. k.0, All-read P q rows _ k.1)
  | inr not_it ↦
      let k : All (λ p. P p.0) (pair_up (keep q rows) ids) =
        subst (λ b. All (λ p. P p.0) (pair_up (if b then a ∷ keep q rows else keep q rows) ids))
          not_it h in
      (λ e. absurd (cc), All-read P q rows ids k)
]

-- After a check of the agents whose reads succeed, of every agent that was online, not revoked, and last
-- seen longer ago than its organization allows, no row is online, unless the UPDATE of its row failed;
-- whatever else fails.
pub check_agents-silent :
    (env : Env) (settings : List MonitorSettings) (f : Agent → PassFaults) (now : ℕ) (ids : ℕ → ℕ)
    (s : Server)
    → All
        (λ a.
          was_seen a ≡ true
          → spares settings now a ≡ false
          → (f a).update_fails ≡ false
          → count_where (is_up a.id) (check_agents env settings f now ids s).roster.agents ≡ 0)
        s.roster.agents
unfolding check_agents
check_agents-silent env settings f now ids s =
    All-read _ was_seen s.roster.agents ids (mark_silent-Caught env settings f now _ _)
