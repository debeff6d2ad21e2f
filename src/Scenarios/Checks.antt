-- ===== src/Scenarios/Checks.antt =====
-- Results, buffers, bindings and plans at concrete values.
use umodel_sre_rca.Common.{
  ok, ◌≡◌, refl, List, [], ◌∷◌, some, true, false, ◌⊎◌, All, ◌==◌, inl, exists_where, ℕ, ◌≤◌,
}
use umodel_sre_rca.Common.Int.{pos, ℤ}
use umodel_sre_rca.Domain.{RcaResult, empty_result}
use umodel_sre_rca.Analysis.{
  validate_result, is_safe_incident_id, check_actions, check_evidence_ids, contains, contains_han,
  is_blank, is_space, one_unit,
}
use umodel_sre_rca.Analysis.Buffer.{new_bounded_buffer, write_all, write_all-take}
use umodel_sre_rca.Evidence.{
  Binding, bindings_for, load_registry, check_mapping, is_allowed_template, register_all,
  validate_binding,
}
use umodel_sre_rca.Evidence.Allowed.{IsAllowed, bindings_for-All}
use umodel_sre_rca.Config.{
  IncidentBinding, resolve_incident, check_bindings, has_blank_selector, validate_incident_bindings,
  window_start,
}
use umodel_sre_rca.Config.Bindings.{resolve_incident-finds}
use umodel_sre_rca.Modelsync.{
  Endpoint, Relation, build_plan, add_relation, endpoint_element, is_safe_relation_type,
  relation_element,
}
use umodel_sre_rca.Modelsync.Accepted.{Written, build_plan-Written}
use umodel_sre_rca.Command.{is_safe_reference}
use umodel_sre_rca.Command.Forms.{is_safe_reference-is_safe_incident_id}
use umodel_sre_rca.Scenarios.Leases.{cpu_incident}
use umodel_sre_rca.Modelsync.Writer.{is_workspace}

abbrev cpu_result : RcaResult
cpu_result = record empty_result {
  summary = "网络中断";
  root_cause = "安全组变更";
  evidence_ids = "e1" ∷ [];
}

accepts_runs : validate_result cpu_result (some ("e1" ∷ [])) ≡ ok tt
unfolding validate_result is_blank is_space contains_han check_actions check_evidence_ids contains
    one_unit
accepts_runs = refl

abbrev chunks : List (List ℕ)
chunks = (1 ∷ 2 ∷ []) ∷ (3 ∷ 4 ∷ []) ∷ []

write_all-take_example :
    ((write_all chunks (new_bounded_buffer 3)).buffer ≡ 1 ∷ 2 ∷ 3 ∷ [])
    × ((write_all chunks (new_bounded_buffer 3)).total ≡ 4)
    × ((4 ≤ 3) ⊎ ((write_all chunks (new_bounded_buffer 3)).truncated ≡ true))
write_all-take_example = write_all-take 3 chunks

abbrev probe_binding : Binding
probe_binding = record {
  id = "b1";
  evidence_class = "metrics";
  target = "t";
  provider = "aliyun.cloudmonitor";
  query_template = "ecs_normal_state_window_v1";
  selector_mapping = ("instance_id", "instance_id") ∷ [];
  console_link_template = "";
  query_url = "";
  has_credentials = false;
  shell_command = "";
}

bindings_for-All_example :
    All
      (λ (b : Binding). ((b.evidence_class == "metrics") ≡ true) × IsAllowed b)
      (bindings_for "metrics" (probe_binding ∷ []))
unfolding load_registry register_all validate_binding is_allowed_template contains check_mapping
    exists_where
bindings_for-All_example = bindings_for-All "metrics" (probe_binding ∷ []) (probe_binding ∷ []) refl

abbrev cpu_binding : IncidentBinding
cpu_binding = record {
  workspace = "w";
  rule_id = "r";
  resource_id = "e";
  selectors = ("instance_id", "i-1") ∷ [];
}

resolve_incident-finds_example :
    resolve_incident (cpu_binding ∷ []) (λ id. ok cpu_incident) "i1"
    ≡ ok (record {
      selectors = cpu_binding.selectors;
      window = record { start = window_start 100; end = pos 100 };
    })
unfolding validate_incident_bindings check_bindings is_blank is_space has_blank_selector
    exists_where
resolve_incident-finds_example =
    resolve_incident-finds (cpu_binding ∷ []) cpu_binding (λ id. ok cpu_incident) "i1" cpu_incident
      refl (inl refl) refl refl refl refl refl

abbrev pub shop : Endpoint
shop = record {
  endpoint_id = "shop";
  service_name = "shop";
  service_url = "";
  environment = "";
  instance_id = "";
  ecs_entity_id = "00ff";
  region_id = "";
  account_id = "";
}

abbrev pub runs_on : Relation
runs_on = record { type = "runs_on"; destination_domain = ""; destination_entity_type = "" }

build_plan-Written_example :
    (t : ℤ) × (some (pos 100) ≡ some t)
    × Written
        (λ id. "d1")
        "ws"
        shop
        runs_on
        t
        (record {
          elements =
              endpoint_element (λ id. "d1") shop (pos 100)
              ∷ relation_element (λ id. "d1") shop "runs_on" (pos 100)
              ∷ [];
        })
unfolding build_plan add_relation is_blank is_space is_safe_relation_type is_workspace
build_plan-Written_example =
    build_plan-Written (λ id. "d1") "ws" shop refl refl runs_on (some (pos 100)) _ refl

is_safe_reference-is_safe_incident_id_example :
    is_safe_reference "inc-1" ≡ is_safe_incident_id "inc-1"
is_safe_reference-is_safe_incident_id_example = is_safe_reference-is_safe_incident_id "inc-1"
