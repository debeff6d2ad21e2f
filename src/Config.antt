-- ===== src/Config.antt =====
-- internal/config/config.go behind the YAML decoder, and internal/runtime/incident_source.go.
pub mod Bindings
use umodel_sre_rca.Common.{
  Result, ok, err, ◌==◌, ◌>>=◌, ◌>>◌, ◌-◌, Bool, List, Option, String, [], exists_where, failure,
  false, if◌then◌else◌, leb, none, refuse_if, some, ◌||◌, ℕ, ◌∷◌,
}
use Prim.Native.String.{◌++◌}
use umodel_sre_rca.Common.Int.{ℤ, pos, ltb_ℤ, negsuc}
use umodel_sre_rca.Analysis.{is_blank}
use umodel_sre_rca.Domain.{Incident}
use umodel_sre_rca.Evidence.{IncidentContext, is_empty_map}
use umodel_sre_rca.Store.Intake.{incident_by_id}

-- The fields that the file gives; Load looks at some, the commands at the others.
pub record Config : Type 0 where
  pub listen_addr : String
  pub callback_token : String
  pub callback_capture_dir : String
  pub state_db : String
  pub evidence_bindings_path : String
  pub incident_bindings_path : String
  pub workspace : String
  pub region : String
  pub ecs_ram_role_name : String
  pub sls_project : String
  pub sls_logstore : String
  pub app_id : String
  pub app_secret : String
  pub chat_id : String
  pub enabled : Bool
  pub max_turns : ℤ
  pub timeout_seconds : ℤ
  pub poll_seconds : ℤ

abbrev pub check_worker : Config → Result (Unit {0})
check_worker c =
    refuse_if
      (c.workspace == ""
        || (c.region == ""
            || (c.sls_project == ""
                || (c.sls_logstore == ""
                    || (c.evidence_bindings_path == "" || c.incident_bindings_path == "")))))
      (failure "worker.enabled requires aliyun and bindings settings")
    >> refuse_if (ltb_ℤ c.poll_seconds (pos 1))
        (failure "worker.enabled requires worker.poll_seconds greater than zero")

abbrev pub with_defaults : Config → Config
with_defaults c = record c {
  listen_addr = if c.listen_addr == "" then "127.0.0.1:8080" else c.listen_addr;
  timeout_seconds = if ltb_ℤ c.timeout_seconds (pos 1) then pos 300 else c.timeout_seconds;
}

-- `Load` on the decoded file.
unfoldable pub load : Config → Result Config
load c = do
  refuse_if (c.state_db == "" || ltb_ℤ c.max_turns (pos 1))
      (failure "state_db and worker.max_turns are required")
  (if c.enabled then check_worker c else ok tt)
  ok (with_defaults c)

pub record IncidentBinding : Type 0 where
  pub workspace : String
  pub rule_id : String
  pub resource_id : String
  pub selectors : List (String × String)

abbrev pub key_of : String → String → String → String
key_of workspace rule_id resource_id = workspace ++ "\0" ++ rule_id ++ "\0" ++ resource_id

unfoldable pub incident_binding_key : IncidentBinding → String
incident_binding_key b = key_of b.workspace b.rule_id b.resource_id

unfoldable pub has_blank_selector : List (String × String) → Bool
has_blank_selector [] = false
has_blank_selector ((name, value) ∷ rest) =
    (is_blank name || is_blank value) || has_blank_selector rest

abbrev pub has_incident_key : String → IncidentBinding → Bool
has_incident_key key b = incident_binding_key b == key

-- The loop; `seen` holds the bindings that have passed.
unfoldable pub check_bindings : List IncidentBinding → List IncidentBinding → Result (Unit {0})
unfolding has_blank_selector
check_bindings seen [] = ok tt
check_bindings seen (b ∷ bs) =
    refuse_if (is_blank b.workspace || (is_blank b.rule_id || is_blank b.resource_id))
      (failure "incident binding workspace, rule_id, and resource_id are required")
    >> (refuse_if (exists_where (has_incident_key (incident_binding_key b)) seen)
          (failure "duplicate incident binding")
        >> (refuse_if (is_empty_map b.selectors) (failure "incident binding selectors are required")
            >> (refuse_if (has_blank_selector b.selectors)
                  (failure "incident binding contains empty selector")
                >> check_bindings (b ∷ seen) bs)))

unfoldable pub validate_incident_bindings : List IncidentBinding → Result (Unit {0})
unfolding check_bindings
validate_incident_bindings [] = err (failure "at least one incident binding is required")
validate_incident_bindings (b ∷ bs) = check_bindings [] (b ∷ bs)

-- s.bindings[key]: a later binding of the same key would replace an earlier one.
unfoldable pub find_binding : List IncidentBinding → String → Option IncidentBinding
unfolding incident_binding_key
find_binding [] key = none
find_binding (b ∷ bs) key =
    let later = find_binding bs key in
    elim later [ some k ↦ some k | none ↦ if has_incident_key key b then some b else none ]

-- The window is 30 minutes long and ends with the alert.
abbrev pub window_start : ℕ → ℤ
window_start alert_at =
    if leb 1800 alert_at then pos (alert_at - 1800) else negsuc (1799 - alert_at)

abbrev pub context_of : Option IncidentBinding → Incident → Result IncidentContext
context_of none incident = err (failure "no incident binding")
context_of (some b) incident = ok record {
  selectors = b.selectors;
  window = record { start = window_start incident.alert_at; end = pos incident.alert_at };
}

-- `ResolveIncident`; `incident_by_id` is the repository's answer.
unfoldable pub resolve_incident :
    List IncidentBinding → (String → Result Incident) → String → Result IncidentContext
unfolding find_binding
resolve_incident bindings incident_by_id id = do
  refuse_if (id == "") (failure "incident id is required")
  incident ← incident_by_id id
  context_of
      (find_binding bindings (key_of incident.workspace incident.rule_id incident.resource_id))
      incident

-- LoadIncidentBindings on the decoded file, or the error of reading it.
unfoldable pub load_incident_bindings :
    Result (List IncidentBinding) → Result (List IncidentBinding)
load_incident_bindings file = do bindings ← file; validate_incident_bindings bindings; ok bindings

-- NewIncidentSource; `none` is a nil repository.
unfoldable pub new_incident_source :
    Option (String → Result Incident)
    → List IncidentBinding
    → Result (String → Result IncidentContext)
new_incident_source none bindings = err (failure "incident repository is required")
new_incident_source (some incident_by_id) bindings =
    validate_incident_bindings bindings >> ok (resolve_incident bindings incident_by_id)
