-- ===== src/Monitor/Baselines/Average.antt =====
-- While the sum does not overflow, the baseline is an average: it lies between the sizes.
use db_backup_app.Base.{
  ℕ, zero, suc, ◌+◌, ◌*◌, ◌%◌, ◌^◌, ◌≤◌, ◌<◌, ◌≡◌, refl, ap, false, some, List, [], ◌∷◌, arith, ltb,
  ℤ, pos, pos_part, ◌≤ℤ◌, length, take, All, branch, on_option, first_where, first_where-append,
  first_where-update_where, first_where_sound, first_where-none, ==_refl, map,
}
use native.Mathlib.Nat.{le-div_iff_mul-le, div-le_of_le-mul, mul_comm, mul-le-mul_left}
use db_backup_app.Monitor.Baselines.{
  Baseline, sizes_of, sum_from, divided, average, is_of, update_baseline,
}
use db_backup_app.Runs.{Run}

-- Between two sizes.
abbrev pub Within : ℕ → ℕ → ℤ → Type 0
Within low high s = (low ≤ pos_part s) × (pos_part s ≤ high)

mul_suc : (a n : ℕ) → a * suc n ≡ a * n + a
mul_suc a n = omega arith

sum_from-bounds :
    (low high acc : ℕ) (sizes : List ℤ)
    → All (Within low high) sizes
    → acc + high * length sizes < 2 ^ 63
    → (acc + low * length sizes ≤ sum_from acc sizes)
      × (sum_from acc sizes ≤ acc + high * length sizes)
unfolding sum_from
sum_from-bounds low high acc [] all small = (omega arith, omega arith)
sum_from-bounds low high acc (s ∷ sizes) all small =
    let more = mul_suc high (length sizes) in
    let fewer = mul_suc low (length sizes) in
    let exact : (acc + pos_part s) % 2 ^ 64 ≡ acc + pos_part s =
      omega (arith, all.0.1, small, more) in
    let ih =
      sum_from-bounds low high (acc + pos_part s) sizes all.1
        (omega (arith, all.0.1, small, more)) in
    rw exact (omega (arith, ih.0, all.0.0, fewer), omega (arith, ih.1, all.0.1, more))

length-map : (rs : List Run) → length (map (λ r. r.bytes_uploaded) rs) ≡ length rs
length-map [] = refl
length-map (r ∷ rs) = ap suc (length-map rs)

length-take : (n : ℕ) (rs : List Run) → length (take n rs) ≤ n
length-take zero rs = omega arith
length-take (suc n) [] = omega arith
length-take (suc n) (r ∷ rs) = omega (arith, length-take n rs)

sizes_of-few : (job : ℕ) (runs : List Run) → length (sizes_of job runs) ≤ 10
unfolding sizes_of
sizes_of-few job runs = omega (arith, length-map _, length-take 10 _)

average-Within :
    (low high : ℕ) (sizes : List ℤ)
    → All (Within low high) sizes
    → 1 ≤ length sizes
    → high * length sizes < 2 ^ 63
    → (pos low ≤ℤ average sizes) × (average sizes ≤ℤ pos high)
unfolding divided
average-Within low high sizes all some_size small =
    let bounds = sum_from-bounds low high 0 sizes all (omega (arith, small)) in
    branch (λ a. (pos low ≤ℤ a) × (a ≤ℤ pos high)) (ltb (sum_from 0 sizes) (2 ^ 63))
      (λ _. (
        omega (
          arith,
          (le-div_iff_mul-le {k = length sizes} {x = low} {y = sum_from 0 sizes} some_size).1
              (omega (arith, bounds.0)),
        ),
        omega (
          arith,
          div-le_of_le-mul (length sizes) {m = sum_from 0 sizes} {n = high}
              (omega (arith, bounds.1, mul_comm high (length sizes))),
        ),
      ))
      (λ wrapped. absurd (ground (arith, bounds.1)))

-- If a job has at least three samples, all of them between two sizes, and ten times the larger one is an
-- int64, then after an update whose statement does not fail its baseline lies between the two sizes as
-- well, counts ten samples at most, and bears the time of the update.
pub update_baseline-Within :
    (low high now job : ℕ) (runs : List Run) (baselines : List Baseline)
    → 3 ≤ length (sizes_of job runs)
    → All (Within low high) (sizes_of job runs)
    → high * 10 < 2 ^ 63
    → (b : Baseline) × (first_where (is_of job) (update_baseline false now runs job baselines)
        ≡ some b)
      × (pos low ≤ℤ b.avg_bytes)
      × (b.avg_bytes ≤ℤ pos high)
      × (b.sample_count ≤ 10)
      × (b.last_updated_at ≡ now)
unfolding update_baseline
update_baseline-Within low high now job runs baselines enough all small =
    branch Good (ltb (length sizes) 3) (λ few. absurd (ground (arith, enough)))
      (λ _.
        on_option Good (first_where (is_of job) baselines)
          (λ none_there. (
            _,
            first_where-append (is_of job) baselines _
                (first_where-none (is_of job) baselines none_there) (==_refl job),
            bounds.0,
            bounds.1,
            sizes_of-few job runs,
            refl,
          ))
          (λ old there. (
            _,
            first_where-update_where (is_of job) (is_of job) _ baselines old (λ b. refl) there
                (first_where_sound (is_of job) baselines there),
            bounds.0,
            bounds.1,
            sizes_of-few job runs,
            refl,
          )))
  where
    sizes : List ℤ
    sizes = sizes_of job runs

    bounds : (pos low ≤ℤ average sizes) × (average sizes ≤ℤ pos high)
    bounds =
        average-Within low high sizes all (omega (arith, enough))
          (omega (arith, small, mul-le-mul_left high (sizes_of-few job runs)))

    Good : List Baseline → Type 0
    Good bs =
        (b : Baseline) × (first_where (is_of job) bs ≡ some b)
        × (pos low ≤ℤ b.avg_bytes)
        × (b.avg_bytes ≤ℤ pos high)
        × (b.sample_count ≤ 10)
        × (b.last_updated_at ≡ now)
