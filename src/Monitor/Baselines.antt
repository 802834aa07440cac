-- ===== src/Monitor/Baselines.antt =====
-- server/internal/services/health_monitor.go, updateSizeBaselines: the average size of a job's last backups.
--
-- The sum of the sizes is an int64, which wraps around: it is kept as its remainder modulo 2^64. Runs that
-- completed at the same time are taken in the order of the table; PostgreSQL puts those without a time first.
pub mod Average
use db_backup_app.Base.{
  ℕ, suc, ◌+◌, ◌-◌, ◌/◌, ◌%◌, ◌^◌, Bool, true, false, ◌&&◌, Option, none, some, List, [], ◌∷◌, ◌++◌,
  ◌==◌, ltb, if◌then◌else◌, ℤ, pos, negsuc, ltb_ℤ, pos_part, map, keep, length, take, first_where,
  update_where,
}
use db_backup_app.Runs.{Run, completed, same_status}

-- server/internal/models/backup_job.go, BackupSizeBaseline.
pub record Baseline : Type 0 where
  pub backup_job_id : ℕ
  pub avg_bytes : ℤ
  pub sample_count : ℕ
  pub last_updated_at : ℕ

unfoldable pub is_sample : ℕ → Run → Bool
is_sample job r =
    r.backup_job_id == job && same_status r.status completed && ltb_ℤ (pos 0) r.bytes_uploaded

-- ORDER BY completed_at DESC
abbrev pub comes_first : Option ℕ → Option ℕ → Bool
comes_first none none = false
comes_first none (some b) = true
comes_first (some a) none = false
comes_first (some a) (some b) = ltb b a

-- In front of the first row that does not come before it.
unfoldable pub insert_newest : Run → List Run → List Run
insert_newest r [] = r ∷ []
insert_newest r (q ∷ qs) =
    let rest = insert_newest r qs in
    if comes_first q.completed_at r.completed_at then q ∷ rest else r ∷ q ∷ qs

unfoldable pub newest_first : List Run → List Run
newest_first [] = []
newest_first (r ∷ rs) = insert_newest r (newest_first rs)

unfoldable pub sizes_of : ℕ → List Run → List ℤ
sizes_of job runs = map (λ r. r.bytes_uploaded) (take 10 (newest_first (keep (is_sample job) runs)))

-- The sum of sizes that are not negative.
unfoldable pub sum_from : ℕ → List ℤ → ℕ
sum_from acc [] = acc
sum_from acc (s ∷ ss) = sum_from ((acc + pos_part s) % 2 ^ 64) ss

-- The int64 with this remainder, divided by a positive number: Go rounds towards 0.
unfoldable pub divided : ℕ → ℕ → ℤ
divided sum n =
    if ltb sum (2 ^ 63)
    then pos (sum / n)
    else let q = (2 ^ 64 - sum) / n in if q == 0 then pos 0 else negsuc (q - 1)

abbrev pub average : List ℤ → ℤ
average sizes = divided (sum_from 0 sizes) (length sizes)

abbrev pub is_of : ℕ → Baseline → Bool
is_of job b = b.backup_job_id == job

unfoldable pub update_baseline : Bool → ℕ → List Run → ℕ → List Baseline → List Baseline
update_baseline fails now runs job baselines =
    let sizes = sizes_of job runs in
    if ltb (length sizes) 3
    then baselines
    else if fails
    then baselines
    else elim (first_where (is_of job) baselines) [
      | none ↦
          baselines
          ++ record {
            backup_job_id = job;
            avg_bytes = average sizes;
            sample_count = length sizes;
            last_updated_at = now;
          }
            ∷ []
      | some b ↦
          update_where (is_of job)
            (λ b. record b {
              avg_bytes = average sizes;
              sample_count = length sizes;
              last_updated_at = now;
            })
            baselines
    ]

-- One pass over the jobs, each with the fault of its statement.
unfoldable pub update_size_baselines :
    ℕ → List Run → List (ℕ × Bool) → List Baseline → List Baseline
update_size_baselines now runs [] baselines = baselines
update_size_baselines now runs ((job, fails) ∷ jobs) baselines =
    update_size_baselines now runs jobs (update_baseline fails now runs job baselines)
