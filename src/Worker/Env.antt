-- ===== src/Worker/Env.antt =====
-- internal/worker/worker.go: the fields of the worker and the interfaces that it calls.
use umodel_sre_rca.Common.{Result, List, String, ℕ}
use umodel_sre_rca.Schedule.{Codecs}
use umodel_sre_rca.Domain.{Evidence, Incident, RcaResult}
use umodel_sre_rca.Analysis.{EvidenceCollection}

-- The fields of `Worker` and its interfaces Cards, Evidence and Investigator; the two readings of
-- the clock in one RunOne; the identifiers drawn at random; encoding/json.
pub record Env : Type 0 where
  pub worker_id : String
  pub now : ℕ
  pub later : ℕ
  pub job_id : String
  pub snapshot_id : String
  pub create_incident_card : Incident → Result String
  pub update_incident_card : String → Incident → RcaResult → Result (Unit {0})
  pub context : String → Result (List Evidence)
  pub metrics : String → Result (List Evidence)
  pub logs : String → Result (List Evidence)
  pub changes : String → Result (List Evidence)
  pub investigate : String → List EvidenceCollection → Result RcaResult
  pub codecs : Codecs
  pub open codecs use *
