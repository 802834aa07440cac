-- ===== src/Jobs/Sound.antt =====
-- What every saved job may rely on, whatever requests came.
use db_backup_app.Base.{
  ℕ, ◌≡◌, Bool, true, false, not, Option, none, some, List, [], ◌∷◌, ◌==◌, arith, Text, All-keep,
  count_where-keep-le,
}
use db_backup_app.Jobs.{JobRow, Office, JobRequest, create, update, delete_job, is_job}
use db_backup_app.Jobs.Promise.{SoundRow, Sound}
use db_backup_app.Jobs.Removal.{delete_policy, delete_connection}
use db_backup_app.Jobs.Removed.{delete_policy-Sound, delete_connection-Sound}
use db_backup_app.Jobs.Created.{create-Sound}
use db_backup_app.Jobs.Edited.{update-Sound}

-- Requests, with the database errors that they meet; the UPDATE that detaches a policy and the count of
-- a connection's jobs meet none.
pub data Request : Type 0 where
  creates : Bool → Bool → ℕ → ℕ → Option JobRequest → Request
  updates : Bool → Bool → ℕ → Option ℕ → Option JobRequest → Request
  deletes : Bool → ℕ → Option ℕ → Request
  deletes_policy : Bool → ℕ → Option ℕ → Request
  deletes_connection : Bool → ℕ → Option ℕ → Request

module _ (parse : Text → Option ℕ) (upper : Text → Text) (empty : upper [] ≡ []) where
  abbrev pub answer : Request → Office → Office
  answer (creates fails schedule_fails id org req) o =
      (create parse upper fails schedule_fails id org req o).0
  answer (updates fails schedule_fails org id req) o =
      (update parse upper fails schedule_fails org id req o).0
  answer (deletes fails org id) o = (delete_job fails org id o).0
  answer (deletes_policy fails org id) o = (delete_policy false fails org id o).0
  answer (deletes_connection fails org id) o = (delete_connection false fails org id o).0

  answer-Sound : (r : Request) (o : Office) → Sound o → Sound (answer r o)
  unfolding delete_job
  answer-Sound (creates fails schedule_fails id org req) o s =
      create-Sound parse upper empty fails schedule_fails id org req o s
  answer-Sound (updates fails schedule_fails org id req) o s =
      update-Sound parse upper empty fails schedule_fails org id req o s
  answer-Sound (deletes_policy fails org id) o s = delete_policy-Sound fails org id o s
  answer-Sound (deletes_connection fails org id) o s = delete_connection-Sound fails org id o s
  answer-Sound (deletes fails org none) o s = s
  answer-Sound (deletes true org (some id)) o s = s
  answer-Sound (deletes false org (some id)) o s = record {
    keys = λ k. omega (
      arith,
      s.keys k,
      count_where-keep-le (λ (r : JobRow). r.job.id == k) (λ r. not (is_job id org r)) o.jobs,
    );
    rows = All-keep (SoundRow o.connections o.policies) (λ r. not (is_job id org r)) o.jobs s.rows;
  }

  pub run : List Request → Office → Office
  run [] o = o
  run (r ∷ rs) o = run rs (answer r o)

  -- With an `upper` that leaves the empty text empty: from a sound table of jobs, whatever requests to
  -- create, edit and delete jobs, and to delete policies and connections, came, one after the other, of any
  -- organizations and with any database errors but those of the UPDATE that detaches a policy and of the
  -- count of a connection's jobs, lead to a sound one: no two jobs share their identifier, the connection and the policy of each job are there and
  -- of the job's own organization, and its export format is one for its source.
  pub run-Sound : (rs : List Request) (o : Office) → Sound o → Sound (run rs o)
  unfolding run
  run-Sound [] o s = s
  run-Sound (r ∷ rs) o s = run-Sound rs (answer r o) (answer-Sound r o s)
