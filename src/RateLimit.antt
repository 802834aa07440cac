-- ===== src/RateLimit.antt =====
-- server/internal/middleware/ratelimit.go: the sliding-window limiter of login attempts.
--
-- The limiter's map gives for each key the times of the attempts that it let through, in the order in
-- which they came; a key that is not in the map has none. The lock makes each call one step.
pub mod Window
use db_backup_app.Base.{
  ℕ, ◌+◌, Bool, true, false, List, [], ◌∷◌, ◌++◌, ltb, leb, if◌then◌else◌, keep, length, Text,
  text_eq,
}

abbrev pub Attempts : Type 0
Attempts = Text → List ℕ

-- ts.After(now - window)
abbrev pub is_recent : ℕ → ℕ → ℕ → Bool
is_recent window now t = ltb now (t + window)

-- rl.attempts[key] = times
abbrev pub set_times : Text → List ℕ → Attempts → Attempts
set_times key times attempts k = if text_eq key k then times else attempts k

-- Allow
unfoldable pub allow : ℕ → ℕ → Text → ℕ → Attempts → Attempts × Bool
allow limit window key now attempts =
    let kept = keep (is_recent window now) (attempts key) in
    if leb limit (length kept)
    then (set_times key kept attempts, false)
    else (set_times key (kept ++ now ∷ []) attempts, true)

-- One round of reap; a key whose times are all gone is deleted.
unfoldable pub reap : ℕ → ℕ → Attempts → Attempts
reap window now attempts key = keep (is_recent window now) (attempts key)
