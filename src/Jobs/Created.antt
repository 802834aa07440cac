-- ===== src/Jobs/Created.antt =====
-- A job that is created has what every job may rely on.
use db_backup_app.Base.{
  ℕ, ◌≡◌, Bool, true, ◌||◌, not, Option, none, some, [], ◌∷◌, ◌==◌, ◌&&◌, arith, Text, branch,
  on_option, All-append, any, any-none, count_where-append,
}
use db_backup_app.Jobs.{
  JobRow, Office, JobRequest, JobReply, Reference, referred, normalize_export_format,
  resolve_policy, resolve_connection, new_job, create_row, create, is_complete, same_agent,
  is_refused, lacks_source,
}
use db_backup_app.Jobs.References.{
  fits_source, resolve_policy-Owned, resolve_connection-Owned, normalize_export_format-fits,
}
use db_backup_app.Jobs.Promise.{SoundRow, Sound}

module _ (parse : Text → Option ℕ) (upper : Text → Text) (empty : upper [] ≡ []) where
  create_row-Sound :
      (fails schedule_fails : Bool) (id org agent storage : ℕ) (format : Text) (req : JobRequest)
      (o : Office)
      → fits_source req.source_type format ≡ true
      → Sound o
      → Sound (create_row parse upper fails schedule_fails id org agent storage format req o).0
  unfolding create_row new_job
  create_row-Sound fails schedule_fails id org agent storage format req o fits s =
      branch P (is_refused connection || lacks_source connection req || is_refused policy) (λ _. s)
        (λ _.
          branch P
            (fails
              || any (λ r. r.job.id == id) o.jobs
              || not (
                  any (λ a. a.id == agent) o.agents
                  && any (λ t. t.id == storage) o.storage_targets))
            (λ _. s)
            (λ fresh. record {
              keys = λ k. ground (
                arith,
                s.keys k,
                any-none (λ (r : JobRow). r.job.id == id) o.jobs,
                count_where-append (λ (r : JobRow). r.job.id == k) o.jobs (row ∷ []),
              );
              rows = All-append (SoundRow o.connections o.policies) o.jobs (row ∷ []) s.rows (
                record {
                  connection = λ k h.
                      resolve_connection-Owned parse (same_agent req agent) org req.connection_id
                        o.connections k h;
                  policy = λ k h. resolve_policy-Owned parse org req.policy_id o.policies k h;
                  format = fits;
                },
                tt,
              );
            }))
    where
      P : Office × JobReply → Type 0
      P r = Sound r.0

      connection : Reference
      connection =
          resolve_connection parse (same_agent req agent) org req.connection_id o.connections

      policy : Reference
      policy = resolve_policy parse org req.policy_id o.policies

      row : JobRow
      row =
          new_job id org agent storage (referred connection) (referred policy) format schedule_fails
            req

  pub create-Sound :
      (fails schedule_fails : Bool) (id org : ℕ) (req : Option JobRequest) (o : Office)
      → Sound o
      → Sound (create parse upper fails schedule_fails id org req o).0
  unfolding create
  create-Sound fails schedule_fails id org none o s = s
  create-Sound fails schedule_fails id org (some req) o s =
      branch P (not (is_complete req)) (λ _. s)
        (λ _.
          on_option P (parse req.agent_id) (λ _. s)
            (λ agent _.
              on_option P (parse req.storage_target_id) (λ _. s)
                (λ storage _.
                  on_option P (normalize_export_format upper req.source_type req.export_format)
                    (λ _. s)
                    (λ format given.
                      create_row-Sound fails schedule_fails id org agent storage format req o
                        (normalize_export_format-fits upper empty req.source_type req.export_format
                          format given)
                        s))))
    where
      P : Office × JobReply → Type 0
      P r = Sound r.0
