-- ===== src/Worker/Begins.antt =====
-- The first calls of RunOne: ClaimNext and IncidentByID.
use umodel_sre_rca.Common.{ok, err, ◌==◌, find_where, some, ◌≡◌, none, if◌then◌else◌}
use umodel_sre_rca.Store.Tables.{Db, has_id}
use umodel_sre_rca.Worker.Env.{Env}
use umodel_sre_rca.Schedule.{give}
use umodel_sre_rca.Domain.{Incident, Job}
use umodel_sre_rca.Store.Runs.{Yields}
use umodel_sre_rca.Store.Claims.{claim_next}
use umodel_sre_rca.Store.Intake.{incident_by_id}
use umodel_sre_rca.Worker.Run.{investigate, run_one, create_card, persistence_failure, work_on}
use umodel_sre_rca.Schedule.Quiet.{still, repo_then}

module _ (env : Env) where
  pub claims-none :
      (db : Db)
      → Yields (claim_next env.worker_id env.now) db none db
      → run_one env (still db) ≡ (ok tt, still db)
  unfolding run_one
  claims-none db h =
      repo_then env.codecs (claim_next env.worker_id env.now) (λ e. give (err e)) (work_on env) db
        none db h

  pub claims-some :
      (db db' : Db) (job : Job)
      → Yields (claim_next env.worker_id env.now) db (some job) db'
      → run_one env (still db) ≡ work_on env (some job) (still db')
  unfolding run_one
  claims-some db db' job h =
      repo_then env.codecs (claim_next env.worker_id env.now) (λ e. give (err e)) (work_on env) db
        (some job) db' h

  pub reads_incident :
      (db : Db) (job : Job) (i : Incident)
      → find_where (has_id job.incident_id) db.incidents ≡ some i
      → work_on env (some job) (still db)
        ≡ (if i.feishu_message_id == "" then create_card env job i else investigate env job i)
            (still db)
  unfolding incident_by_id
  reads_incident db job i h =
      repo_then env.codecs (incident_by_id job.incident_id) (persistence_failure env job)
        (λ k. if k.feishu_message_id == "" then create_card env job k else investigate env job k) db
        i db (rw h)
