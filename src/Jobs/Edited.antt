-- ===== src/Jobs/Edited.antt =====
-- An edit of a job keeps what every job may rely on.
use db_backup_app.Base.{
  ℕ, ◌≡◌, refl, sym, subst, Bool, true, false, ◌||◌, not, Option, none, some, List, [], ◌==◌, arith,
  if◌then◌else◌, Text, is_empty, branch, on_option, &&_true, All-update_one, any,
  count_where-update_where-le, first_where, first_where_sound, first_where-All,
}
use db_backup_app.Jobs.{
  JobRow, Connection, PolicyKey, Office, JobRequest, JobReply, Reference, referred,
  normalize_export_format, is_connection, is_policy, resolve_policy, resolve_connection, edit_job,
  update_row, update, is_job, is_complete, is_refused, schedule_of,
}
use db_backup_app.Jobs.References.{
  fits_source, resolve_policy-Owned, resolve_connection-Owned, or_kept-Owned,
  normalize_export_format-fits,
}
use db_backup_app.Jobs.Promise.{SoundRow, Sound}

module _ (parse : Text → Option ℕ) (upper : Text → Text) (empty : upper [] ≡ []) where
  -- What an edit may not change.
  abbrev pub Kept : JobRow → JobRow → Type 0
  Kept r e =
      (e.job.id ≡ r.job.id)
      × (e.job.organization_id ≡ r.job.organization_id)
      × (e.job.agent_id ≡ r.job.agent_id)
      × (e.job.storage_target_id ≡ r.job.storage_target_id)
      × (e.job.source_type ≡ r.job.source_type)
      × (e.job.enabled ≡ r.job.enabled)

  edit_job-Kept :
      (fails schedule_fails : Bool) (connection policy : Reference) (format : Text)
      (req : JobRequest) (r : JobRow)
      → Kept r (edit_job parse upper fails schedule_fails connection policy format req r)
  unfolding edit_job
  edit_job-Kept true schedule_fails connection policy format req r =
      branch (Kept r) (is_empty req.cron_expr || schedule_fails)
        (λ _. (refl, refl, refl, refl, refl, refl)) (λ _. (refl, refl, refl, refl, refl, refl))
  edit_job-Kept false schedule_fails connection policy format req r =
      branch (Kept r) (is_empty req.cron_expr || schedule_fails)
        (λ _. (refl, refl, refl, refl, refl, refl)) (λ _. (refl, refl, refl, refl, refl, refl))

  module _ (connections : List Connection) (policies : List PolicyKey) where
    -- A change of the schedule alone.
    rescheduled :
        (row : JobRow) (req : JobRequest) (schedule_fails : Bool)
        → SoundRow connections policies row
        → SoundRow connections policies (
            if is_empty req.cron_expr || schedule_fails
            then row
            else record row { job = record (row.job) { schedule = some (schedule_of req) } })
    rescheduled row req schedule_fails s =
        branch (SoundRow connections policies) (is_empty req.cron_expr || schedule_fails) (λ _. s)
          (λ _. record { connection = s.connection; policy = s.policy; format = s.format })

    edit_job-Sound :
        (fails schedule_fails : Bool) (connection policy : Reference) (format : Text)
        (req : JobRequest) (r : JobRow)
        → ((id : ℕ)
            → referred connection ≡ some id
            → any (is_connection id r.job.organization_id) connections ≡ true)
        → ((id : ℕ)
            → referred policy ≡ some id
            → any (is_policy id r.job.organization_id) policies ≡ true)
        → fits_source r.job.source_type format ≡ true
        → SoundRow connections policies r
        → SoundRow connections policies
            (edit_job parse upper fails schedule_fails connection policy format req r)
    unfolding edit_job
    edit_job-Sound true schedule_fails connection policy format req r new_connection new_policy fits
          s =
        rescheduled r req schedule_fails s
    edit_job-Sound false schedule_fails connection policy format req r new_connection new_policy
          fits s =
        rescheduled _ req schedule_fails (record {
          connection =
              or_kept-Owned (λ id. any (is_connection id r.job.organization_id) connections ≡ true)
                connection r.connection_id new_connection s.connection;
          policy =
              or_kept-Owned (λ id. any (is_policy id r.job.organization_id) policies ≡ true) policy
                r.job.policy_id new_policy s.policy;
          format = fits;
        })

  update_row-Sound :
      (fails schedule_fails : Bool) (org id : ℕ) (format : Text) (req : JobRequest) (row : JobRow)
      (o : Office)
      → first_where (is_job id org) o.jobs ≡ some row
      → fits_source row.job.source_type format ≡ true
      → Sound o
      → Sound (update_row parse upper fails schedule_fails org format req row o).0
  unfolding update_row
  update_row-Sound fails schedule_fails org id format req row o found fits s =
      branch P (is_refused connection || is_refused policy) (λ _. s)
        (λ _. record {
          keys = λ k. omega (
            arith,
            s.keys k,
            count_where-update_where-le (λ (r : JobRow). r.job.id == k)
                (λ r. r.job.id == row.job.id)
                (edit_job parse upper fails schedule_fails connection policy format req) o.jobs
                (λ r _ h.
                  subst (λ i. (i == k) ≡ true)
                    (edit_job-Kept fails schedule_fails connection policy format req r).0 h),
          );
          rows =
              All-update_one (SoundRow o.connections o.policies) (λ r. r.job.id == row.job.id)
                (is_job id org)
                (edit_job parse upper fails schedule_fails connection policy format req) o.jobs row
                (λ r h. ground (arith, mine, (&&_true (r.job.id == id) _ h).0)) (s.keys row.job.id)
                found
                (edit_job-Sound o.connections o.policies fails schedule_fails connection policy
                  format req row
                  (λ k h.
                    subst (λ i. any (is_connection k i) o.connections ≡ true) (sym ours)
                      (resolve_connection-Owned parse (λ c. true) org req.connection_id
                        o.connections k h))
                  (λ k h.
                    subst (λ i. any (is_policy k i) o.policies ≡ true) (sym ours)
                      (resolve_policy-Owned parse org req.policy_id o.policies k h))
                  fits
                  (first_where-All (SoundRow o.connections o.policies) (is_job id org) o.jobs row
                    s.rows found))
                s.rows;
        })
    where
      P : Office × JobReply → Type 0
      P r = Sound r.0

      connection : Reference
      connection = resolve_connection parse (λ c. true) org req.connection_id o.connections

      policy : Reference
      policy = resolve_policy parse org req.policy_id o.policies

      mine : row.job.id ≡ id
      mine = ground (arith, first_where_sound (is_job id org) o.jobs found)

      ours : row.job.organization_id ≡ org
      ours = ground (arith, first_where_sound (is_job id org) o.jobs found)

  pub update-Sound :
      (fails schedule_fails : Bool) (org : ℕ) (id : Option ℕ) (req : Option JobRequest) (o : Office)
      → Sound o
      → Sound (update parse upper fails schedule_fails org id req o).0
  unfolding update
  update-Sound fails schedule_fails org none req o s = s
  update-Sound fails schedule_fails org (some id) none o s =
      on_option (λ (r : Office × JobReply). Sound r.0) (first_where (is_job id org) o.jobs) (λ _. s)
        (λ _ _. s)
  update-Sound fails schedule_fails org (some id) (some req) o s =
      on_option P (first_where (is_job id org) o.jobs) (λ _. s)
        (λ row found.
          branch P (not (is_complete req)) (λ _. s)
            (λ _.
              on_option P (normalize_export_format upper row.job.source_type req.export_format)
                (λ _. s)
                (λ format given.
                  update_row-Sound fails schedule_fails org id format req row o found
                    (normalize_export_format-fits upper empty row.job.source_type req.export_format
                      format given)
                    s)))
    where
      P : Office × JobReply → Type 0
      P r = Sound r.0
