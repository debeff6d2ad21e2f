-- ===== src/Scenarios/Worker.antt =====
-- Polls of a worker on a database with one incident and one job.
use umodel_sre_rca.Worker.Starts.{gets_card}
use umodel_sre_rca.Worker.Breaks.{no_answer}
use umodel_sre_rca.Common.{
  inr, ◌+◌, inl, ok, err, failure, ◌∷◌, [], none, some, refl, ◌≡◌, exists_where, find_where, arith,
  subst,
}
use umodel_sre_rca.Domain.{IncidentState, Incident, empty_result, JobStatus}
use umodel_sre_rca.Store.Tables.{Db, has_id, job_has_id}
use umodel_sre_rca.Store.Invariant.{recovers}
use umodel_sre_rca.Schedule.{World}
use umodel_sre_rca.Worker.Env.{Env}
use umodel_sre_rca.Worker.Run.{run_one, collect_evidence}
use umodel_sre_rca.Worker.Retries.{polls}
use umodel_sre_rca.Scenarios.Leases.{cpu_incident, cpu_job, no_json, queued_db, queued_db-IsValid}
use umodel_sre_rca.Store.Leases.{Claims, claim_next-cases}
use umodel_sre_rca.Schedule.Quiet.{still}
use umodel_sre_rca.Store.Intake.{settle_job}
use umodel_sre_rca.Store.Claims.{claimed_by}
use umodel_sre_rca.Store.Settlement.{retry_delay}
use umodel_sre_rca.Worker.Strands.{first_failure-strands}

-- A worker whose evidence service answers and whose model does not.
abbrev pub cpu_env : Env
cpu_env = record {
  worker_id = "a";
  now = 200;
  later = 205;
  job_id = "j2";
  snapshot_id = "s1";
  create_incident_card = λ i. ok "om_1";
  update_incident_card = λ m i r. ok tt;
  context = λ id. ok [];
  metrics = λ id. ok [];
  logs = λ id. ok [];
  changes = λ id. ok [];
  investigate = λ id cs. err (failure "no answer");
  codecs = record { marshal = no_json; encode = no_json };
}

abbrev pub later_env : Env
later_env = record cpu_env { now = 900; later = 905 }

-- A model that answers.
abbrev able_later : Env
able_later = record later_env { now = 1900; investigate = λ id cs. ok empty_result }

abbrev busy_incident : Incident
busy_incident = record cpu_incident {
  state = IncidentState.investigating;
  feishu_message_id = "om_1";
}

-- The alert recovers while the worker is at work, and a later call fails.
abbrev pub disturbed : World
disturbed = record {
  db = queued_db;
  turns =
      record { meanwhile = []; fault = none }
      ∷ record { meanwhile = recovers "w:r:e" 201 ∷ []; fault = none }
      ∷ record { meanwhile = []; fault = some "database is locked" }
      ∷ [];
}

cpu_job-Claims : Claims "a" 200 queued_db cpu_job
unfolding exists_where
cpu_job-Claims = elim (claim_next-cases "a" 200 queued_db queued_db-IsValid) [
  | inl (no_job, _) ↦ absurd (cc)
  | inr (j, c) ↦ elim c.is_row [
    | inl e ↦ subst (λ k. Claims "a" 200 queued_db k) e c
    | inr w ↦ absurd w
  ]
]

first_failure-strands_example :
    (db' : Db) × (run_one cpu_env (still queued_db) ≡ (err (failure "no answer"), still db'))
    × (find_where (has_id "i1") db'.incidents ≡ some (record busy_incident { updated_at = 200 }))
    × (find_where (job_has_id "j1") db'.jobs
        ≡ some (record (settle_job JobStatus.queued (claimed_by "a" 200 cpu_job)) {
          run_after = 205 + retry_delay 1;
        }))
    × ((polls (later_env ∷ able_later ∷ []) db').incidents ≡ db'.incidents)
unfolding collect_evidence find_where
first_failure-strands_example =
    first_failure-strands cpu_env queued_db cpu_job cpu_incident
      (record cpu_incident { feishu_message_id = "om_1"; updated_at = 200 }) (failure "no answer")
      (later_env ∷ able_later ∷ []) queued_db-IsValid cpu_job-Claims refl refl
      (gets_card "om_1" refl refl refl) (omega arith) (λ m i r. refl)
      (no_answer
        (record { form = "incident context"; evidence = [] }
          ∷ record { form = "metrics query"; evidence = [] }
          ∷ record { form = "logs query"; evidence = [] }
          ∷ record { form = "changes query"; evidence = [] }
          ∷ [])
        [] (failure "no answer") refl tt refl)
      (inl refl, tt)
