-- ===== src/Store/Claims.antt =====
-- internal/store/sqlite.go: how a worker claims a job, and what it may do while it holds the claim.
use umodel_sre_rca.Common.{
  ℕ, String, Bool, true, false, ◌||◌, ◌&&◌, ◌+◌, Option, none, some, ◌==◌, leb, ltb, eqb,
  if◌then◌else◌, exists_where, find_where, first_by, Error, Result, ok, err, incident_inactive,
  job_lease_lost, failure,
}
use umodel_sre_rca.Domain.{IncidentState, JobStatus, Incident, Job}
use umodel_sre_rca.Store.Tables.{
  Db, Tx, ◌>>=◌, ◌>>◌, pure, raise, is_active, is_queued, is_running, is_open, update_incidents,
  update_jobs, one_row,
}
use umodel_sre_rca.Store.Intake.{text_lt}

-- 5 * time.Minute
abbrev pub job_lease_duration : ℕ
job_lease_duration = 300

-- ORDER BY jobs.run_after, jobs.id
abbrev pub sooner : Job → Job → Bool
sooner j k = ltb j.run_after k.run_after || (eqb j.run_after k.run_after && text_lt j.id k.id)

-- (status = 'QUEUED' AND run_after <= now) OR (status = 'RUNNING' AND lease_until <= now)
abbrev pub is_due : ℕ → Job → Bool
is_due now j =
    (is_queued j.status && leb j.run_after now) || (is_running j.status && leb j.lease_until now)

abbrev pub is_claimable : ℕ → Db → Job → Bool
is_claimable now db j = is_open db j.incident_id && is_due now j

abbrev pub claimed_by : String → ℕ → Job → Job
claimed_by worker_id now j = record j {
  status = JobStatus.running;
  worker_id = worker_id;
  attempt = j.attempt + 1;
  lease_until = now + job_lease_duration;
}

-- The UPDATE below the SELECT; the caller sees the row as the SELECT read it.
abbrev pub claim_found : String → ℕ → Option Job → Tx (Option Job)
claim_found worker_id now none = pure none
claim_found worker_id now (some job) = do
  changed ←
      update_jobs (λ db j. j.id == job.id && (is_due now j && is_open db j.incident_id))
        (claimed_by worker_id now)
  if eqb changed 1 then pure (some (claimed_by worker_id now job)) else pure none

-- `none` is the result `false`. The worker's identity is the host's, the claim's time the caller's.
unfoldable pub claim_next : String → ℕ → Tx (Option Job)
claim_next worker_id now db =
    claim_found worker_id now (first_by sooner (is_claimable now db) db.jobs) db

-- The job row still carries this claim, and its incident is active.
abbrev pub holds_claim : Job → Db → Job → Bool
holds_claim job db j =
    j.id == job.id
    && (j.incident_id == job.incident_id
        && (is_running j.status
            && (j.worker_id == job.worker_id
                && (eqb j.lease_until job.lease_until && is_open db j.incident_id))))

unfoldable pub check_active_claim : Job → Tx (Unit {0})
check_active_claim job db =
    if exists_where (holds_claim job db) db.jobs then ok (tt, db) else err job_lease_lost

-- state IN ('RECEIVED','AWAITING_AUDIT_EVENT')
abbrev pub is_waiting : IncidentState → Bool
is_waiting IncidentState.received = true
is_waiting IncidentState.awaiting_audit_event = true
is_waiting _ = false

-- EXISTS (SELECT 1 FROM jobs WHERE …): this subquery does not look at the incident's state.
abbrev pub is_leased : Job → Db → Bool
is_leased job db =
    exists_where
      (λ j.
        j.id == job.id
        && (j.incident_id == job.incident_id
            && (is_running j.status
                && (j.worker_id == job.worker_id && eqb j.lease_until job.lease_until))))
      db.jobs

unfoldable pub mark_investigating_for_claim : Job → ℕ → Tx (Unit {0})
unfolding check_active_claim
mark_investigating_for_claim job at = do
  changed ←
      update_incidents (λ db i. i.id == job.incident_id && (is_waiting i.state && is_leased job db))
        (λ i. record i { state = IncidentState.investigating; updated_at = at })
  if eqb changed 1 then pure tt else (check_active_claim job >> raise incident_inactive)

unfoldable pub set_feishu_message_id : String → String → ℕ → Tx (Unit {0})
set_feishu_message_id incident_id message_id at =
    if message_id == "" then raise (failure "Feishu message id is required") else do
      changed ←
          update_incidents (λ _ i. i.id == incident_id && i.feishu_message_id == "")
            (λ i. record i { feishu_message_id = message_id; updated_at = at })
      one_row Error.no_rows changed

-- UPDATE jobs SET lease_until = lease_until WHERE …: takes the write lock on the claim.
abbrev pub fence : Job → Tx (Unit {0})
fence job = do changed ← update_jobs (holds_claim job) (λ j. j); one_row job_lease_lost changed

unfoldable pub set_feishu_message_id_for_claim : Job → String → ℕ → Tx (Unit {0})
set_feishu_message_id_for_claim job message_id at =
    if message_id == "" then raise (failure "Feishu message id is required") else do
      fence job
      changed ←
          update_incidents
            (λ _ i. i.id == job.incident_id && (i.feishu_message_id == "" && is_active i.state))
            (λ i. record i { feishu_message_id = message_id; updated_at = at })
      one_row incident_inactive changed

abbrev pub active_incident : Option Incident → Tx Incident
active_incident none = raise incident_inactive
active_incident (some i) = pure i

-- `update` is the callback that calls Feishu while the transaction is open.
unfoldable pub update_active_claim_card : Job → (Incident → Result (Unit {0})) → Tx (Unit {0})
update_active_claim_card job update = do
  incident ← λ db.
      active_incident (find_where (λ i. i.id == job.incident_id && is_active i.state) db.incidents)
        db
  fence job
  changed ← update_incidents (λ _ i. i.id == job.incident_id && is_active i.state) (λ i. i)
  one_row incident_inactive changed
  λ db. elim (update incident) [ ok _ ↦ ok (tt, db) | err e ↦ err e ]
