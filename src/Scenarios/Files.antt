-- ===== src/Scenarios/Files.antt =====
-- A file of the version before jobs had the column lease_until.
use umodel_sre_rca.Store.Migration.{DbFile, carry_out, exec_all, migrate, open_file}
use umodel_sre_rca.Store.Upgrades.{IsFile, open_file-IsValid}
use umodel_sre_rca.Store.Keeps.{IsValid}
use umodel_sre_rca.Domain.{Job}
use umodel_sre_rca.Common.{[], false, none, ok, refl, some, true, update_where, ◌∷◌, ◌≡◌}
use umodel_sre_rca.Scenarios.Leases.{cpu_incident, cpu_job, one_row_once, queued_db}
use umodel_sre_rca.Store.Tables.{has_id, has_key}
use umodel_sre_rca.Store.Opened.{migrated_jobs, no_faults}

-- What the record says of a lease is not in the file.
abbrev old_job : Job
old_job = record cpu_job { lease_until = 7 }

abbrev old_file : DbFile
old_file = record {
  incidents = some (cpu_incident ∷ []);
  active_key = true;
  jobs = some (record { has_lease_until = false; rows = old_job ∷ [] });
  claimable = true;
  evidence_snapshots = some [];
  evidence_records = none;
}

abbrev opened_file : DbFile
opened_file = record old_file {
  jobs = some (record { has_lease_until = true; rows = cpu_job ∷ [] });
  evidence_records = some [];
}

old_file-IsFile : IsFile old_file
old_file-IsFile = record {
  one_incident = λ id. one_row_once (has_id id) cpu_incident;
  one_active = λ _ key. one_row_once (has_key key) cpu_incident;
  one_job = λ id. one_row_once _ old_job;
  idle_jobs = ((λ _. (refl, λ e. absurd (cc))), tt);
}

open_file-IsValid_example :
    IsValid queued_db
    × (queued_db ≡ record {
      incidents = cpu_incident ∷ [];
      jobs = (migrated_jobs (record { has_lease_until = false; rows = old_job ∷ [] })).rows;
      evidence_snapshots = [];
      evidence_records = [];
    })
    × (open_file no_faults (ok tt) opened_file ≡ (ok queued_db, opened_file))
unfolding open_file migrate exec_all carry_out update_where
open_file-IsValid_example =
    open_file-IsValid no_faults (ok tt) old_file opened_file queued_db old_file-IsFile refl
