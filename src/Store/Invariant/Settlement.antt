-- ===== src/Store/Invariant/Settlement.antt =====
-- The operations that settle work and store evidence take only the steps of `Store.Keeps`.
use umodel_sre_rca.Common.{
  ℕ, String, true, false, List, [], ◌∷◌, Option, ◌==◌, arith, refl, inl, inr, Bool-cases,
  Option-cases, leb, ltb,
}
use umodel_sre_rca.Domain.{IncidentState, JobStatus, Job, Evidence, RcaResult}
use umodel_sre_rca.Store.Tables.{Document, Tx}
use umodel_sre_rca.Store.Settlement.{
  fail, schedule_audit_retry, complete_job, complete_job_and_schedule_audit_retry, fail_job,
  requeue_job, retry_or_fail_job, with_json, complete, complete_job_and_incident,
}
use umodel_sre_rca.Store.Records.{replace_evidence, store_item, store_evidence}
use umodel_sre_rca.Store.Keeps.{
  Step-refl, Keeps, ok-db, Keeps-pure, Keeps-raise, Keeps->>=, Keeps-if, Keeps-one_row,
  Keeps-update_jobs,
}
use umodel_sre_rca.Store.Keeps.Inserts.{Keeps-insert_job, Keeps-insert_snapshot}
use umodel_sre_rca.Store.Keeps.Statements.{
  settle_job-Move, requeue-Move, counted, and_then, Keeps-close_incident, to_completed, to_failed,
  Keeps-await, Keeps-cancel, Keeps-cancel_other, Keeps-finish_claim,
}

pub Keeps-fail : (id : String) (at : ℕ) → Keeps (fail id at)
unfolding fail
Keeps-fail id at =
    and_then _ _ (Keeps-close_incident IncidentState.failed id at to_failed) (Keeps-cancel id)

pub Keeps-schedule : (id incident : String) (at : ℕ) → Keeps (schedule_audit_retry id incident at)
unfolding schedule_audit_retry
Keeps-schedule id incident at = and_then _ _ (Keeps-await incident at) (Keeps-insert_job _)

pub Keeps-complete_job : (job : Job) → Keeps (complete_job job)
unfolding complete_job
Keeps-complete_job job =
    counted _ _
      (Keeps-update_jobs _ _ λ db j e. settle_job-Move JobStatus.completed refl j (ground arith))

pub Keeps-complete_and_schedule :
    (id : String) (job : Job) (incident : String) (at : ℕ)
    → Keeps (complete_job_and_schedule_audit_retry id job incident at)
unfolding complete_job_and_schedule_audit_retry
Keeps-complete_and_schedule id job incident at =
    and_then _ _ (Keeps-finish_claim job incident)
      (and_then _ _ (Keeps-await incident at) (Keeps-insert_job _))

Keeps-fail_job : (job : Job) (at : ℕ) → Keeps (fail_job job at)
unfolding fail_job
Keeps-fail_job job at =
    Keeps->>= _ _
      (Keeps-update_jobs _ _ λ db j e. settle_job-Move JobStatus.failed refl j (ground arith))
      λ n. and_then _ _ (Keeps-one_row _ n) (
        and_then _ _ (Keeps-close_incident IncidentState.failed job.incident_id at to_failed)
          (and_then _ _ (Keeps-cancel_other job.incident_id job.id) (Keeps-pure true)))

Keeps-requeue_job : (job : Job) (at : ℕ) → Keeps (requeue_job job at)
unfolding requeue_job
Keeps-requeue_job job at =
    Keeps->>= _ _ (Keeps-update_jobs _ _ λ db j e. requeue-Move _ j (ground arith))
      λ n. and_then _ _ (Keeps-one_row _ n) (Keeps-pure false)

pub Keeps-retry_or_fail : (job : Job) (at max : ℕ) → Keeps (retry_or_fail_job job at max)
unfolding retry_or_fail_job
Keeps-retry_or_fail job at max =
    Keeps-if (ltb max 1) _ _ (Keeps-raise _)
      (Keeps-if (leb max job.attempt) _ _ (Keeps-fail_job job at) (Keeps-requeue_job job at))

module _ (marshal : RcaResult → Option String) where
  Keeps-with_json :
      {A : Type 0} (result : RcaResult) (k : String → Tx A)
      → ((raw : String) → Keeps (k raw))
      → Keeps (with_json marshal result k)
  Keeps-with_json result k h = record {
    at = λ db a db' e. elim (Option-cases (marshal result)) [
      | inl n ↦ absurd (ground arith)
      | inr (raw, s) ↦ (h raw).at db a db' (rw (s, with_json) at e)
    ];
  }

  pub Keeps-complete :
      (id incident : String) (result : RcaResult) (at : ℕ)
      → Keeps (complete marshal id incident result at)
  unfolding complete
  Keeps-complete id incident result at = Keeps-with_json result _ λ raw.
      and_then _ _ (Keeps-close_incident IncidentState.completed incident at to_completed)
        (and_then _ _ (Keeps-insert_snapshot _) (Keeps-cancel incident))

  pub Keeps-complete_job_and_incident :
      (id : String) (job : Job) (incident : String) (result : RcaResult) (at : ℕ)
      → Keeps (complete_job_and_incident marshal id job incident result at)
  unfolding complete_job_and_incident
  Keeps-complete_job_and_incident id job incident result at = Keeps-with_json result _ λ raw.
      and_then _ _ (Keeps-finish_claim job incident) (
        and_then _ _ (Keeps-close_incident IncidentState.completed incident at to_completed)
          (and_then _ _ (Keeps-insert_snapshot _) (Keeps-cancel_other incident job.id)))

Keeps-replace : (d : Document) → Keeps (replace_evidence d)
unfolding replace_evidence
Keeps-replace d = record {
  at = λ db a db' e. rw (ok-db e) (record {
    valid = λ v. record {
      one_incident = v.one_incident;
      one_active = v.one_active;
      one_job = v.one_job;
      idle_jobs = v.idle_jobs;
    };
    incidents = (Step-refl db).incidents;
    jobs = (Step-refl db).jobs;
    snapshots = (Step-refl db).snapshots;
  });
}

module _ (encode : Evidence → Option String) where
  Keeps-store_item :
      (incident : String) (at : ℕ) (item : Evidence) → Keeps (store_item encode incident at item)
  unfolding store_item
  Keeps-store_item incident at item = record {
    at = λ db a db' e. elim (Bool-cases (item.id == "")) [
      | inl t ↦ absurd (ground arith)
      | inr f ↦ elim (Option-cases (encode item)) [
        | inl n ↦ absurd (ground arith)
        | inr (raw, s) ↦ (Keeps-replace _).at db a db' (rw (f, s, store_item) at e)
      ]
    ];
  }

  pub Keeps-store_evidence :
      (incident : String) (items : List Evidence) (at : ℕ)
      → Keeps (store_evidence encode incident items at)
  unfolding store_evidence
  Keeps-store_evidence incident [] at = Keeps-pure tt
  Keeps-store_evidence incident (item ∷ items) at =
      and_then _ _ (Keeps-store_item incident at item) (Keeps-store_evidence incident items at)
