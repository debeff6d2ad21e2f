-- ===== src/Store/Settlement.antt =====
-- internal/store/sqlite.go: how work on an incident ends, or is put off. `marshal` stands for
-- json.Marshal of a result; a fresh identifier is an argument.
use umodel_sre_rca.Common.{
  ℕ, String, Bool, ◌||◌, ◌&&◌, not, ◌+◌, ◌*◌, Option, none, some, ◌==◌, leb, ltb, eqb,
  if◌then◌else◌, incident_inactive, job_lease_lost, failure,
}
use umodel_sre_rca.Domain.{IncidentState, JobStatus, Job, RcaResult, new_job, state_text}
use umodel_sre_rca.Store.Tables.{
  Tx, ◌>>=◌, ◌>>◌, pure, raise, is_active, is_running, is_live, is_open, update_incidents,
  update_jobs, insert_job, insert_snapshot, one_row,
}
use umodel_sre_rca.Store.Intake.{settle_job, cancel_jobs_for_incident}
use umodel_sre_rca.Store.Claims.{holds_claim}

-- UPDATE incidents SET state = s, updated_at = at WHERE id = ? AND state IN (active)
abbrev pub close_incident : IncidentState → String → ℕ → Tx (Unit {0})
close_incident s incident_id at = do
  changed ←
      update_incidents (λ _ i. i.id == incident_id && is_active i.state)
        (λ i. record i { state = s; updated_at = at })
  one_row incident_inactive changed

-- state IN ('RECEIVED','INVESTIGATING','AWAIT_AUDIT_EVENT','AWAITING_AUDIT_EVENT')
abbrev pub is_schedulable : IncidentState → Bool
is_schedulable s = is_active s || state_text s == "AWAIT_AUDIT_EVENT"

abbrev pub await_audit_event : String → ℕ → Tx (Unit {0})
await_audit_event incident_id retry_at = do
  changed ←
      update_incidents (λ _ i. i.id == incident_id && is_schedulable i.state)
        (λ i. record i { state = IncidentState.awaiting_audit_event; updated_at = retry_at })
  one_row incident_inactive changed

-- UPDATE jobs SET status = 'COMPLETED', worker_id = '', lease_until = 0 WHERE the claim is held.
abbrev pub finish_claim : Job → String → Tx (Unit {0})
finish_claim job incident_id = do
  changed ←
      update_jobs (holds_claim (record job { incident_id = incident_id }))
        (settle_job JobStatus.completed)
  one_row job_lease_lost changed

-- UPDATE jobs SET status = 'CANCELLED', … WHERE incident_id = ? AND id <> ? AND live
abbrev pub cancel_other_jobs : String → String → Tx (Unit {0})
cancel_other_jobs incident_id job_id = do
  _ ←
      update_jobs
        (λ _ j. j.incident_id == incident_id && (not (j.id == job_id) && is_live j.status))
        (settle_job JobStatus.cancelled)
  pure tt

unfoldable pub fail : String → ℕ → Tx (Unit {0})
unfolding cancel_jobs_for_incident
fail incident_id at = do
  close_incident IncidentState.failed incident_id at
  cancel_jobs_for_incident incident_id

-- `id` is the random identifier of the next job.
unfoldable pub schedule_audit_retry : String → String → ℕ → Tx (Unit {0})
unfolding new_job
schedule_audit_retry id incident_id retry_at = do
  await_audit_event incident_id retry_at
  insert_job (new_job id incident_id retry_at)

-- CompleteJob does not compare the incident's identifier.
unfoldable pub complete_job : Job → Tx (Unit {0})
complete_job job = do
  changed ←
      update_jobs
        (λ db j.
          j.id == job.id
          && (j.worker_id == job.worker_id
              && (eqb j.lease_until job.lease_until
                  && (is_running j.status && is_open db j.incident_id))))
        (settle_job JobStatus.completed)
  one_row job_lease_lost changed

unfoldable pub complete_job_and_schedule_audit_retry : String → Job → String → ℕ → Tx (Unit {0})
unfolding new_job
complete_job_and_schedule_audit_retry id job incident_id retry_at = do
  finish_claim job incident_id
  await_audit_event incident_id retry_at
  insert_job (new_job id incident_id retry_at)

-- time.Duration(job.Attempt) * 5 * time.Second, at most 30 seconds
abbrev pub retry_delay : ℕ → ℕ
retry_delay attempt = let delay = attempt * 5 in if ltb 30 delay then 30 else delay

-- WHERE id = ? AND incident_id = ? AND worker_id = ? AND lease_until = ? AND status = 'RUNNING'
abbrev pub is_claim : Job → Job → Bool
is_claim job j =
    j.id == job.id
    && (j.incident_id == job.incident_id
        && (j.worker_id == job.worker_id
            && (eqb j.lease_until job.lease_until && is_running j.status)))

-- The branch of a job that has used up its attempts.
unfoldable pub fail_job : Job → ℕ → Tx Bool
fail_job job at = do
  changed ← update_jobs (λ _ j. is_claim job j) (settle_job JobStatus.failed)
  one_row job_lease_lost changed
  close_incident IncidentState.failed job.incident_id at
  cancel_other_jobs job.incident_id job.id
  pure Bool.true

unfoldable pub requeue_job : Job → ℕ → Tx Bool
requeue_job job at = do
  changed ←
      update_jobs (λ db j. is_claim job j && is_open db j.incident_id)
        (λ j. record (settle_job JobStatus.queued j) { run_after = at + retry_delay job.attempt })
  one_row job_lease_lost changed
  pure Bool.false

-- The result says whether the incident has failed for good.
unfoldable pub retry_or_fail_job : Job → ℕ → ℕ → Tx Bool
unfolding fail_job requeue_job
retry_or_fail_job job at max_attempts =
    if ltb max_attempts 1
    then raise (failure "max attempts must be positive")
    else (if leb max_attempts job.attempt then fail_job job at else requeue_job job at)

module _ (marshal : RcaResult → Option String) where
  abbrev pub with_json : {A : Type 0} → RcaResult → (String → Tx A) → Tx A
  with_json result k db = elim (marshal result) [
    | none ↦ raise (failure "marshal RCA result") db
    | some raw ↦ k raw db
  ]

  abbrev pub save_snapshot : String → String → String → ℕ → Tx (Unit {0})
  save_snapshot id incident_id raw at =
      insert_snapshot
        (record { id = id; incident_id = incident_id; evidence_json = raw; created_at = at })

  -- `id` is the random identifier of the snapshot.
  unfoldable pub complete : String → String → RcaResult → ℕ → Tx (Unit {0})
  unfolding cancel_jobs_for_incident
  complete id incident_id result at = with_json result λ raw. do
    close_incident IncidentState.completed incident_id at
    save_snapshot id incident_id raw at
    cancel_jobs_for_incident incident_id

  unfoldable pub complete_job_and_incident : String → Job → String → RcaResult → ℕ → Tx (Unit {0})
  complete_job_and_incident id job incident_id result at = with_json result λ raw. do
    finish_claim job incident_id
    close_incident IncidentState.completed incident_id at
    save_snapshot id incident_id raw at
    cancel_other_jobs incident_id job.id
