-- ===== src/Scenarios/Commands.antt =====
-- A worker that starts, and the evidence service that it is given.
use umodel_sre_rca.Common.{
  if◌then◌else◌, ok, err, ◌∷◌, [], none, some, refl, ◌≡◌, inl, true, Error, exists_where,
}
use umodel_sre_rca.Common.Int.{pos}
use umodel_sre_rca.Config.{
  Config, load, load_incident_bindings, new_incident_source, validate_incident_bindings,
  check_bindings, has_blank_selector, incident_binding_key,
}
use umodel_sre_rca.Launch.{
  Parts, start_worker, new_evidence_service, configured, validate_worker_config, provider_names,
}
use umodel_sre_rca.Launch.Reviewed.{new_evidence_service-IsDispatched, IsDispatched}
use umodel_sre_rca.Provider.Resolve.{Provider, resolve}
use umodel_sre_rca.Scenarios.Cloud.{provider, cpu_binding, half_hour, selectors, sdk}
use umodel_sre_rca.Scenarios.Leases.{cpu_incident}
use umodel_sre_rca.Evidence.{
  load_registry, register_all, validate_binding, check_mapping, is_allowed_template,
}
use umodel_sre_rca.Analysis.{is_blank, contains, is_blank, is_space}
use umodel_sre_rca.Feishu.{new_client, trim_slashes}
use umodel_sre_rca.Provider.Client.{call}
use umodel_sre_rca.Provider.Sdk.{Constructors, new_aliyun_sdk_client}

abbrev pub config : Config
config = record {
  listen_addr = "";
  callback_token = "t";
  callback_capture_dir = "";
  state_db = "/s.db";
  evidence_bindings_path = "/e";
  incident_bindings_path = "/i";
  workspace = "w";
  region = "cn-hangzhou";
  ecs_ram_role_name = "r";
  sls_project = "p";
  sls_logstore = "l";
  app_id = "a";
  app_secret = "s";
  chat_id = "c";
  enabled = true;
  max_turns = pos 3;
  timeout_seconds = pos 0;
  poll_seconds = pos 5;
}

abbrev pub constructors : Constructors
constructors = record {
  new_credential = λ role. ok tt;
  new_cms = λ c. ok sdk.cms;
  new_action_trail = λ c. ok sdk.action_trail;
  new_sls = λ c. ok sdk.get_logs;
  parse_int = sdk.parse_int;
}

abbrev pub parts : Parts
parts = record {
  bindings_file = ok (cpu_binding ∷ []);
  incident_bindings_file = ok (
      record {
        workspace = "w";
        rule_id = "r";
        resource_id = "e";
        selectors = ("instance_id", "i-1") ∷ [];
      }
      ∷ []);
  incident_by_id = λ id. ok cpu_incident;
  open_evidence = λ id. err Error.no_rows;
  constructors = constructors;
  libraries = provider;
}

new_evidence_service-IsDispatched_example :
    (p : Provider) × ((if contains provider_names "aliyun.cloudmonitor"
        then some (resolve (configured config (call sdk) provider))
        else none)
      ≡ some (resolve p))
    × IsDispatched p cpu_binding selectors half_hour
unfolding new_aliyun_sdk_client call start_worker load validate_worker_config new_evidence_service
    load_registry register_all validate_binding check_mapping is_allowed_template contains
    exists_where load_incident_bindings new_incident_source validate_incident_bindings
    check_bindings has_blank_selector is_blank is_space incident_binding_key new_client trim_slashes
new_evidence_service-IsDispatched_example =
    new_evidence_service-IsDispatched config parts cpu_binding selectors half_hour refl (inl refl)
