-- ===== src/Examples/Sizes.antt =====
-- The average size of a job's backups.
use db_backup_app.Base.{ℕ, ◌≤◌, ◌≤ℤ◌, ◌≡◌, false, some, [], ◌∷◌, pos, arith, first_where}
use db_backup_app.Examples.Data.{run_of}
use db_backup_app.Monitor.Baselines.{
  Baseline, is_of, update_baseline, sizes_of, newest_first, insert_newest, is_sample,
}
use db_backup_app.Monitor.Baselines.Average.{update_baseline-Within}
use db_backup_app.Runs.{Run, completed, same_status}

abbrev uploaded_of : ℕ → ℕ → Run
uploaded_of id size = record (run_of id completed) {
  bytes_uploaded = pos size;
  completed_at = some id;
}

update_baseline-Within_example :
    (b : Baseline) × (first_where (is_of 4) (
        update_baseline false 90 (uploaded_of 7 10 ∷ uploaded_of 8 20 ∷ uploaded_of 9 60 ∷ []) 4 [])
      ≡ some b)
    × (pos 10 ≤ℤ b.avg_bytes)
    × (b.avg_bytes ≤ℤ pos 60)
    × (b.sample_count ≤ 10)
    × (b.last_updated_at ≡ 90)
unfolding sizes_of newest_first insert_newest is_sample same_status
update_baseline-Within_example =
    update_baseline-Within 10 60 90 4 (uploaded_of 7 10 ∷ uploaded_of 8 20 ∷ uploaded_of 9 60 ∷ [])
      [] (omega arith)
      ((omega arith, omega arith), ((omega arith, omega arith), ((omega arith, omega arith), tt)))
      (omega arith)
