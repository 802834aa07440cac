-- ===== src/RateLimit/Window.antt =====
-- Never more attempts of a key than the limit in one window.
use db_backup_app.Base.{
  ℕ, ◌≤◌, ◌≡◌, refl, sym, subst, ◌∙◌, false, ◌&&◌, List, [], ◌∷◌, ◌++◌, arith, if◌then◌else◌, keep,
  length-keep, count_where, count_where-append, Text, text_eq, text_eq_refl, text_eq_sound,
  Bool-cases, inl, inr,
}
use db_backup_app.RateLimit.{Attempts, allow, reap, is_recent}

-- An attempt under a key, or a round of the reaper, each at its time.
pub data Tick : Type 0 where
  attempt : Text → ℕ → Tick
  reaps : ℕ → Tick

abbrev pub time_of : Tick → ℕ
time_of (attempt key t) = t
time_of (reaps t) = t

-- The limiter's map, and all attempts under the key `k` that were let through so far.
pub step : Text → ℕ → ℕ → Attempts × List ℕ → Tick → Attempts × List ℕ
step k limit window (attempts, passed) (attempt key now) =
    let r = allow limit window key now attempts in
    (r.0, if r.1 && text_eq key k then passed ++ now ∷ [] else passed)
step k limit window (attempts, passed) (reaps now) = (reap window now attempts, passed)

pub run : Text → ℕ → ℕ → Attempts × List ℕ → List Tick → Attempts × List ℕ
run k limit window s [] = s
run k limit window s (t ∷ ts) = run k limit window (step k limit window s t) ts

-- The clock does not go back.
abbrev pub Ordered : ℕ → List Tick → Type 0
Ordered last [] = Unit
Ordered last (t ∷ ts) = (last ≤ time_of t) × Ordered (time_of t) ts

abbrev pub end_of : ℕ → List Tick → ℕ
end_of last [] = last
end_of last (t ∷ ts) = end_of (time_of t) ts

module _ (k : Text) (limit window : ℕ) where
  -- From `last` on, the times held for the key and its attempts let through agree on what is recent,
  -- and there are no more of them than allowed.
  record Fits (last : ℕ) (s : Attempts × List ℕ) : Type 0 where
    agree :
        (now : ℕ)
        → last ≤ now
        → count_where (is_recent window now) (s.0 k) ≡ count_where (is_recent window now) s.1
    few : count_where (is_recent window last) s.1 ≤ limit

  keep-later :
      (now later : ℕ) (ts : List ℕ)
      → now ≤ later
      → count_where (is_recent window later) (keep (is_recent window now) ts)
        ≡ count_where (is_recent window later) ts
  keep-later now later [] h = refl
  keep-later now later (t ∷ ts) h = ground (arith, keep-later now later ts h)

  fewer-later :
      (now later : ℕ) (ts : List ℕ)
      → now ≤ later
      → count_where (is_recent window later) ts ≤ count_where (is_recent window now) ts
  fewer-later now later [] h = omega arith
  fewer-later now later (t ∷ ts) h = ground (arith, fewer-later now later ts h)

  Fits-later : (last now : ℕ) (s : Attempts × List ℕ) → last ≤ now → Fits last s → Fits now s
  Fits-later last now s h f = record {
    agree = λ later le. f.agree later (omega (arith, h, le));
    few = omega (arith, f.few, fewer-later last now s.1 h);
  }

  own-Fits :
      (last now : ℕ) (attempts : Attempts) (passed : List ℕ)
      → last ≤ now
      → Fits last (attempts, passed)
      → Fits now (step k limit window (attempts, passed) (attempt k now))
  unfolding step allow
  own-Fits last now attempts passed h f = record {
    agree = λ later le. ground (
      arith,
      text_eq_refl k,
      keep-later now later (attempts k) le,
      f.agree later (omega (arith, h, le)),
      count_where-append (is_recent window later) (keep (is_recent window now) (attempts k))
          (now ∷ []),
      count_where-append (is_recent window later) passed (now ∷ []),
    );
    few = ground (
      arith,
      text_eq_refl k,
      f.agree now h,
      f.few,
      fewer-later last now passed h,
      length-keep (is_recent window now) (attempts k),
      count_where-append (is_recent window now) passed (now ∷ []),
    );
  }

  -- Keys do not interact.
  other-same :
      (now : ℕ) (key : Text) (attempts : Attempts) (passed : List ℕ)
      → text_eq key k ≡ false
      → let s = step k limit window (attempts, passed) (attempt key now) in
        (s.0 k ≡ attempts k) × (s.1 ≡ passed)
  unfolding step allow
  other-same now key attempts passed e = (ground arith, ground arith)

  step-Fits :
      (last : ℕ) (s : Attempts × List ℕ) (t : Tick)
      → last ≤ time_of t
      → Fits last s
      → Fits (time_of t) (step k limit window s t)
  unfolding step reap
  step-Fits last (attempts, passed) (reaps now) h f = record {
    agree = λ later le. keep-later now later (attempts k) le ∙ f.agree later (omega (arith, h, le));
    few = omega (arith, f.few, fewer-later last now passed h);
  }
  step-Fits last (attempts, passed) (attempt key now) h f = elim (Bool-cases (text_eq key k)) [
    | inl same ↦
        subst (λ q. Fits now (step k limit window (attempts, passed) (attempt q now)))
          (sym (text_eq_sound key k same)) (own-Fits last now attempts passed h f)
    | inr other ↦
        let e = other-same now key attempts passed other in
        let g = Fits-later last now (attempts, passed) h f in
        record { agree = λ later le. rw e.0 (rw e.1 (g.agree later le)); few = rw e.1 (g.few) }
  ]

  run-Fits :
      (last : ℕ) (s : Attempts × List ℕ) (ts : List Tick)
      → Ordered last ts
      → Fits last s
      → Fits (end_of last ts) (run k limit window s ts)
  unfolding run
  run-Fits last s [] o f = f
  run-Fits last s (t ∷ ts) o f =
      run-Fits (time_of t) (step k limit window s t) ts o.1 (step-Fits last s t o.0 f)

  -- From an empty limiter, whatever attempts under any keys and rounds of the reaper came, in the order
  -- of their times: the attempts of a key let through within the window that ends at the last of all of
  -- them are no more than the limit.
  pub run-within_limit :
      (ts : List Tick)
      → Ordered 0 ts
      → count_where (is_recent window (end_of 0 ts)) (run k limit window ((λ key. []), []) ts).1
        ≤ limit
  run-within_limit ts o =
      (run-Fits 0 ((λ key. []), []) ts o (record { agree = λ now h. refl; few = omega arith })).few
