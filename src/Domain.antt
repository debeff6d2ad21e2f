-- ===== src/Domain.antt =====
-- internal/domain/incident.go: incidents, jobs, evidence and results. Times are whole seconds since
-- the Unix epoch, which is what the tables hold. The identifier that `newID` draws at random is an
-- argument of each function that makes a record.
use umodel_sre_rca.Common.{ℕ, String, Bool, List, [], false}
use umodel_sre_rca.Common.Int.{ℤ, pos}
use Prim.Native.String.{◌++◌}

pub data IncidentState : Type 0 where
  received investigating awaiting_audit_event completed failed recovered : IncidentState

pub data JobStatus : Type 0 where
  queued running completed cancelled failed : JobStatus

-- The constants as the tables hold them.
abbrev pub state_text : IncidentState → String
state_text IncidentState.received = "RECEIVED"
state_text IncidentState.investigating = "INVESTIGATING"
state_text IncidentState.awaiting_audit_event = "AWAITING_AUDIT_EVENT"
state_text IncidentState.completed = "COMPLETED"
state_text IncidentState.failed = "FAILED"
state_text IncidentState.recovered = "RECOVERED"

pub record Alert : Type 0 where
  pub workspace : String
  pub rule_id : String
  pub resource_id : String
  pub state : String
  pub event_at : ℕ

pub record Incident : Type 0 where
  pub id : String
  pub key : String
  pub workspace : String
  pub rule_id : String
  pub resource_id : String
  pub state : IncidentState
  pub feishu_message_id : String
  pub alert_at : ℕ
  pub created_at : ℕ
  pub updated_at : ℕ

pub record Job : Type 0 where
  pub id : String
  pub incident_id : String
  pub status : JobStatus
  pub worker_id : String
  pub attempt : ℕ
  pub run_after : ℕ
  pub lease_until : ℕ

pub record Evidence : Type 0 where
  pub id : String
  pub type : String
  pub observed_at : ℤ
  pub source : String
  pub query_ref : String
  pub summary : String
  pub raw_ref : String

-- `confidence` counts units of 2^-1074: every finite float64 is a whole number of them.
pub record RcaResult : Type 0 where
  pub summary : String
  pub confidence : ℤ
  pub root_cause : String
  pub evidence_ids : List String
  pub next_actions : List String
  pub pending_audit : Bool

-- domain.RCAResult{}
abbrev pub empty_result : RcaResult
empty_result = record {
  summary = "";
  confidence = pos 0;
  root_cause = "";
  evidence_ids = [];
  next_actions = [];
  pending_audit = false;
}

-- fmt.Sprintf("%s:%s:%s", workspace, ruleID, resourceID)
unfoldable pub incident_key : String → String → String → String
incident_key workspace rule_id resource_id = workspace ++ ":" ++ rule_id ++ ":" ++ resource_id

unfoldable pub new_incident : String → ℕ → String → String → String → ℕ → Incident
unfolding incident_key
new_incident id now workspace rule_id resource_id alert_at = record {
  id = id;
  key = incident_key workspace rule_id resource_id;
  workspace = workspace;
  rule_id = rule_id;
  resource_id = resource_id;
  state = IncidentState.received;
  feishu_message_id = "";
  alert_at = alert_at;
  created_at = now;
  updated_at = now;
}

-- The zero `LeaseUntil` of a fresh job is never stored: its INSERT leaves the column's default 0.
unfoldable pub new_job : String → String → ℕ → Job
new_job id incident_id run_after = record {
  id = id;
  incident_id = incident_id;
  status = JobStatus.queued;
  worker_id = "";
  attempt = 0;
  run_after = run_after;
  lease_until = 0;
}
