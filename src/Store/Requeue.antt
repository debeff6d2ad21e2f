-- ===== src/Store/Requeue.antt =====
-- RetryOrFailJob with attempts left, for a worker that holds its claim.
use umodel_sre_rca.Common.{
  ◌&&◌, ◌+◌, arith, eq_refl, false, find_where, leb, ltb, refl, some, true, update_where, ℕ, ◌≡◌,
}
use umodel_sre_rca.Store.Tables.{Db, is_open, job_has_id, update_jobs}
use umodel_sre_rca.Store.Holds.{Holds, is_open-own, one_row_of}
use umodel_sre_rca.Domain.{Incident, Job, JobStatus}
use umodel_sre_rca.Store.Runs.{Yields}
use umodel_sre_rca.Store.Settlement.{is_claim, requeue_job, retry_delay, retry_or_fail_job}
use umodel_sre_rca.Worker.Run.{max_attempts}
use umodel_sre_rca.Store.Intake.{settle_job}
use umodel_sre_rca.Store.Progress.{updated_row}

module _ (job : Job) (i : Incident) (db : Db) (h : Holds job i db) (at : ℕ) where
  abbrev pub requeued : Job
  requeued = record (settle_job JobStatus.queued job) { run_after = at + retry_delay job.attempt }

  abbrev pub after_requeue : Db
  after_requeue = record db {
    jobs =
        update_where (λ j. is_claim job j && is_open db j.incident_id)
          (λ j. record (settle_job JobStatus.queued j) { run_after = at + retry_delay job.attempt })
          db.jobs;
  }

  is_own_claim : (is_claim job job && is_open db job.incident_id) ≡ true
  is_own_claim =
      rw
        (
          eq_refl job.id,
          eq_refl job.incident_id,
          h.running,
          eq_refl job.worker_id,
          is_open-own job i db h,
        )
        (ground arith)

  pub requeue-Yields :
      (max_attempts : ℕ)
      → ltb max_attempts 1 ≡ false
      → leb max_attempts job.attempt ≡ false
      → Yields (retry_or_fail_job job at max_attempts) db false after_requeue
  unfolding retry_or_fail_job requeue_job update_jobs
  requeue-Yields max_attempts some_allowed left =
      let one =
        one_row_of job i db h (λ j. is_claim job j && is_open db j.incident_id)
          (λ k e. ground (arith, e)) is_own_claim in
      rw (some_allowed, left, one) refl

  pub requeued_row : find_where (job_has_id job.id) after_requeue.jobs ≡ some requeued
  requeued_row = updated_row (job_has_id job.id) _ _ db.jobs job (λ _. refl) h.row is_own_claim
