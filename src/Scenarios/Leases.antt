-- ===== src/Scenarios/Leases.antt =====
-- Claims on a database with one incident and one job.
use umodel_sre_rca.Common.{
  String, Bool, false, List, [], ◌∷◌, Option, none, some, ◌≡◌, ◌≢◌, ◌≤◌, refl, arith, inl, inr, ◌⊎◌,
  ok, find_where, count_where, update_where, first_by, exists_where, subst, Bool-cases, eq_iff,
  ◌==◌, true, All,
}
use umodel_sre_rca.Domain.{IncidentState, JobStatus, Incident, Job}
use umodel_sre_rca.Store.Tables.{Db, empty_db, is_live, has_id, job_has_id, update_jobs, has_key}
use umodel_sre_rca.Store.Claims.{claim_next, claimed_by, is_claimable}
use umodel_sre_rca.Store.Keeps.{IsValid}
use umodel_sre_rca.Store.Moves.{IncidentMove}
use umodel_sre_rca.Store.Invariant.{
  Op, claims, recovers, marks, apply_all, apply_all-IsValid, incident_history, job_history,
}
use umodel_sre_rca.Store.Leases.{Claims, claim_next-cases}
use umodel_sre_rca.Store.Leases.Fencing.{claim_exclusive, claimed}
use umodel_sre_rca.Store.Claims.{mark_investigating_for_claim}
use umodel_sre_rca.Store.Tables.{update_incidents}
use umodel_sre_rca.Store.Leases.Superseded.{Refused}
use umodel_sre_rca.Store.Leases.Stale.{reclaim-Refused}

abbrev pub cpu_incident : Incident
cpu_incident = record {
  id = "i1";
  key = "w:r:e";
  workspace = "w";
  rule_id = "r";
  resource_id = "e";
  state = IncidentState.received;
  feishu_message_id = "";
  alert_at = 100;
  created_at = 101;
  updated_at = 101;
}

abbrev pub cpu_job : Job
cpu_job = record {
  id = "j1";
  incident_id = "i1";
  status = JobStatus.queued;
  worker_id = "";
  attempt = 0;
  run_after = 100;
  lease_until = 0;
}

-- As CreateOrGetIncident and Enqueue leave it.
abbrev pub queued_db : Db
queued_db = record {
  incidents = cpu_incident ∷ [];
  jobs = cpu_job ∷ [];
  evidence_snapshots = [];
  evidence_records = [];
}

abbrev pub first_claim : Job
first_claim = claimed_by "a" 200 cpu_job

abbrev pub claimed_db : Db
claimed_db = record queued_db { jobs = first_claim ∷ [] }

abbrev pub second_claim : Job
second_claim = claimed_by "b" 500 first_claim

abbrev pub reclaimed_db : Db
reclaimed_db = record queued_db { jobs = second_claim ∷ [] }

pub one_row_once : {A : Type 0} (q : A → Bool) (x : A) → count_where q (x ∷ []) ≤ 1
unfolding count_where
one_row_once q x = ground arith

pub queued_db-IsValid : IsValid queued_db
queued_db-IsValid = record {
  one_incident = λ id. one_row_once (has_id id) cpu_incident;
  one_active = λ key. one_row_once (has_key key) cpu_incident;
  one_job = λ id. one_row_once _ cpu_job;
  idle_jobs = ((λ _. (refl, refl)), tt);
}

pub claimed_db-IsValid : IsValid claimed_db
claimed_db-IsValid = record {
  one_incident = λ id. one_row_once (has_id id) cpu_incident;
  one_active = λ key. one_row_once (has_key key) cpu_incident;
  one_job = λ id. one_row_once _ first_claim;
  idle_jobs = ((λ e. cc), tt);
}

claim_runs : claim_next "a" 200 queued_db ≡ ok (some first_claim, claimed_db)
unfolding claim_next first_by exists_where update_jobs count_where update_where find_where
claim_runs = refl

reclaim_runs : claim_next "b" 500 claimed_db ≡ ok (some second_claim, reclaimed_db)
unfolding claim_next first_by exists_where update_jobs count_where update_where find_where
reclaim_runs = refl

claim_next-cases_example :
    ((exists_where (is_claimable 200 queued_db) queued_db.jobs ≡ false)
      × (claim_next "a" 200 queued_db ≡ ok (none, queued_db)))
    ⊎ ((j : Job) × Claims "a" 200 queued_db j)
claim_next-cases_example = claim_next-cases "a" 200 queued_db queued_db-IsValid

abbrev later_job : Job
later_job = record cpu_job { id = "j2" }

abbrev two_jobs : Db
two_jobs = record queued_db { jobs = cpu_job ∷ later_job ∷ [] }

abbrev one_claimed : Db
one_claimed = record queued_db { jobs = first_claim ∷ later_job ∷ [] }

abbrev both_claimed : Db
both_claimed = record queued_db { jobs = first_claim ∷ claimed_by "b" 210 later_job ∷ [] }

two_jobs-IsValid : IsValid two_jobs
unfolding count_where
two_jobs-IsValid = record {
  one_incident = λ id. one_row_once (has_id id) cpu_incident;
  one_active = λ key. one_row_once (has_key key) cpu_incident;
  one_job = λ id. two_rows_once id;
  idle_jobs = ((λ _. (refl, refl)), ((λ _. (refl, refl)), tt));
}
  where
    two_rows_once : (id : String) → count_where (job_has_id id) two_jobs.jobs ≤ 1
    two_rows_once id = elim (Bool-cases ("j1" == id)) [
      | inl t ↦
          subst (λ z. count_where (job_has_id z) two_jobs.jobs ≤ 1) ((eq_iff "j1" id).0 t)
            (omega arith)
      | inr f ↦ rw f (ground arith)
    ]

abbrev pub no_json : {A : Type 0} → A → Option String
no_json a = some "{}"

claim_exclusive_example :
    All
      (λ d. d.id ≢ "j1")
      (claimed
        (("b", 210) ∷ ("a", 220) ∷ [])
        (apply_all no_json no_json (marks first_claim 205 ∷ []) one_claimed))
unfolding apply_all mark_investigating_for_claim update_incidents claim_next first_by exists_where
    update_jobs count_where update_where find_where
claim_exclusive_example =
    claim_exclusive no_json no_json "a" 200 two_jobs one_claimed first_claim
      (marks first_claim 205 ∷ []) (("b", 210) ∷ ("a", 220) ∷ []) two_jobs-IsValid refl refl refl
      refl (omega arith, (omega arith, tt))

reclaim-Refused_example :
    Refused first_claim
      (apply_all no_json no_json (marks second_claim 510 ∷ claims "c" 520 ∷ []) reclaimed_db)
unfolding apply_all mark_investigating_for_claim update_incidents claim_next first_by exists_where
    update_jobs count_where update_where find_where
reclaim-Refused_example =
    reclaim-Refused no_json no_json "b" 500 claimed_db reclaimed_db first_claim second_claim
      (marks second_claim 510 ∷ claims "c" 520 ∷ []) claimed_db-IsValid refl refl refl refl refl
      refl

abbrev history : List Op
history = claims "a" 200 ∷ marks first_claim 200 ∷ recovers "w:r:e" 300 ∷ claims "b" 900 ∷ []

apply_all-IsValid_example : IsValid (apply_all no_json no_json history empty_db)
apply_all-IsValid_example = apply_all-IsValid no_json no_json history

incident_history_example :
    (k : Incident) × (find_where
        (has_id "i1")
        (apply_all no_json no_json history queued_db).incidents
      ≡ some k)
    × IncidentMove cpu_incident k
unfolding find_where
incident_history_example = incident_history no_json no_json history queued_db "i1" refl

abbrev recovered_db : Db
recovered_db = record queued_db {
  incidents = record cpu_incident { state = IncidentState.recovered } ∷ [];
  jobs = record cpu_job { status = JobStatus.cancelled } ∷ [];
}

job_history_example :
    (k : Job) × (find_where (job_has_id "j1") (apply_all no_json no_json history recovered_db).jobs
      ≡ some k)
    × (k.incident_id ≡ "i1")
    × (0 ≤ k.attempt)
    × ((is_live JobStatus.cancelled ≡ true) ⊎ (k ≡ record cpu_job { status = JobStatus.cancelled }))
unfolding find_where
job_history_example = job_history no_json no_json history recovered_db "j1" refl
