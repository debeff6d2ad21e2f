-- ===== src/Store/Holds.antt =====
-- A worker that holds its claim on a job whose incident is active: the operations of RunOne succeed.
use umodel_sre_rca.Common.{
  Bool, String, ℕ, true, some, ◌==◌, ◌&&◌, ◌≡◌, arith, eq_refl, exists_where, exists_where-Within,
  exists_where-find, find_where, find_where-Within, find_where-holds, find_where_unique,
  count_where, count_where-le, count_where-Within, Within,
}
use umodel_sre_rca.Domain.{Incident, Job}
use umodel_sre_rca.Store.Tables.{Db, has_id, job_has_id, is_active, is_open, is_running}
use umodel_sre_rca.Store.Claims.{holds_claim}
use umodel_sre_rca.Store.Keeps.{IsValid}
use umodel_sre_rca.Store.Leases.{Claims}

-- The incident of a job that may be claimed.
pub claimed_incident :
    (w : String) (now : ℕ) (db : Db) (j : Job)
    → IsValid db
    → Claims w now db j
    → (i : Incident) × (find_where (has_id j.incident_id) db.incidents ≡ some i)
      × (is_active i.state ≡ true)
      × Within i db.incidents
claimed_incident w now db j v x =
    let open_row : is_open db j.incident_id ≡ true = ground (arith, x.claimable) in
    let (i, f) =
      exists_where-find (λ i. i.id == j.incident_id && is_active i.state) db.incidents open_row in
    let here = find_where-Within (λ i. i.id == j.incident_id && is_active i.state) db.incidents f in
    let holds = find_where-holds (λ i. i.id == j.incident_id && is_active i.state) db.incidents f in
    (
      i,
      find_where_unique (has_id j.incident_id) i db.incidents (v.one_incident j.incident_id) here
          (ground arith),
      ground arith,
      here,
    )

-- The job's row is the claim, and its incident is active.
pub record Holds (job : Job) (i : Incident) (db : Db) : Type 0 where
  pub valid : IsValid db
  pub stored : find_where (has_id job.incident_id) db.incidents ≡ some i
  pub active : is_active i.state ≡ true
  pub row : find_where (job_has_id job.id) db.jobs ≡ some job
  pub running : is_running job.status ≡ true

module _ (job : Job) (i : Incident) (db : Db) (h : Holds job i db) where
  pub own_id : (i.id == job.incident_id) ≡ true
  own_id = find_where-holds (has_id job.incident_id) db.incidents h.stored

  pub is_open-own : is_open db job.incident_id ≡ true
  is_open-own =
      exists_where-Within (λ k. k.id == job.incident_id && is_active k.state) i db.incidents
        (find_where-Within (has_id job.incident_id) db.incidents h.stored)
        (ground (arith, own_id, h.active))

  pub own_claim : holds_claim job db job ≡ true
  own_claim =
      rw (eq_refl job.id, eq_refl job.incident_id, h.running, eq_refl job.worker_id, is_open-own)
        (ground arith)

  pub claim_held : exists_where (holds_claim job db) db.jobs ≡ true
  claim_held =
      exists_where-Within (holds_claim job db) job db.jobs
        (find_where-Within (job_has_id job.id) db.jobs h.row) own_claim

  -- A condition on the job's row that includes its identifier fits that row alone.
  pub one_row_of :
      (q : Job → Bool)
      → ((k : Job) → q k ≡ true → job_has_id job.id k ≡ true)
      → q job ≡ true
      → count_where q db.jobs ≡ 1
  one_row_of q within own = omega (
    arith,
    h.valid.one_job job.id,
    count_where-le (job_has_id job.id) q within db.jobs,
    count_where-Within q job db.jobs (find_where-Within (job_has_id job.id) db.jobs h.row) own,
  )

  pub one_incident_of :
      (q : Incident → Bool)
      → ((k : Incident) → q k ≡ true → has_id job.incident_id k ≡ true)
      → q i ≡ true
      → count_where q db.incidents ≡ 1
  one_incident_of q within own = omega (
    arith,
    h.valid.one_incident job.incident_id,
    count_where-le (has_id job.incident_id) q within db.incidents,
    count_where-Within q i db.incidents
        (find_where-Within (has_id job.incident_id) db.incidents h.stored) own,
  )
