-- ===== src/Scenarios/Recovery.antt =====
-- A recovery that is delivered twice.
use umodel_sre_rca.Common.{
  refl, [], ◌∷◌, some, true, false, first_by, count_where, update_where, better,
}
use umodel_sre_rca.Domain.{Incident, IncidentState, JobStatus}
use umodel_sre_rca.Store.Tables.{Db, update_incidents, update_jobs}
use umodel_sre_rca.Store.Runs.{Yields}
use umodel_sre_rca.Store.Intake.{recover, recover_incident, cancel_jobs_for_incident}
use umodel_sre_rca.Store.Recovery.{recover_twice}
use umodel_sre_rca.Scenarios.Leases.{cpu_incident, cpu_job, queued_db}

abbrev cpu_recovered : Incident
cpu_recovered = record cpu_incident { state = IncidentState.recovered; updated_at = 300 }

abbrev quiet_db : Db
quiet_db = record queued_db {
  incidents = cpu_recovered ∷ [];
  jobs = record cpu_job { status = JobStatus.cancelled } ∷ [];
}

recover_runs : Yields (recover "w:r:e" 300) queued_db (some cpu_recovered, true) quiet_db
unfolding recover recover_incident cancel_jobs_for_incident update_incidents update_jobs first_by
    better count_where update_where
recover_runs = refl

recover_twice_example : Yields (recover "w:r:e" 300) quiet_db (some cpu_recovered, false) quiet_db
recover_twice_example = recover_twice "w:r:e" 300 queued_db quiet_db cpu_recovered recover_runs
