-- ===== src/Scenarios/Opened.antt =====
-- `sre-evidence evidence open e1` on a database with stored evidence.
use umodel_sre_rca.Config.{
  Config, check_bindings, has_blank_selector, incident_binding_key, load, resolve_incident,
  load_incident_bindings, new_incident_source, validate_incident_bindings,
}
use umodel_sre_rca.Evidence.{
  Service, check_mapping, is_allowed_template, load_registry, register_all, validate_binding,
}
use umodel_sre_rca.Provider.Resolve
use umodel_sre_rca.Store.Tables
use umodel_sre_rca.Command.{run, Surroundings, is_safe_reference}
use umodel_sre_rca.Common.{
  [], ap, arith, exists_where, if◌then◌else◌, none, ok, refl, some, sym, ◌∷◌, ◌≡◌,
}
use umodel_sre_rca.Scenarios.Commands.{config, parts}
use umodel_sre_rca.Launch.{configured, new_evidence_service, provider_names}
use umodel_sre_rca.Analysis.{contains, is_blank, is_safe_char, is_space}
use umodel_sre_rca.Scenarios.Cloud.{cpu_binding, provider, sdk}
use umodel_sre_rca.Scenarios.Stored.{cpu_load, disk_load, from_json, store_runs, stored_db, to_json}
use umodel_sre_rca.Store.Tables.{empty_db}
use umodel_sre_rca.Store.Records.{open_evidence}
use umodel_sre_rca.Common.Int.{pos}
use umodel_sre_rca.Command.Prints.{store-run_open}
use umodel_sre_rca.Provider.Client.{call}
use umodel_sre_rca.Provider.Sdk.{new_aliyun_sdk_client}

abbrev pub surroundings : Surroundings
surroundings = record {
  read_config = λ path. ok config;
  open_state_db = λ path. ok tt;
  parts = record parts {
    open_evidence = λ id. (Tables.run (open_evidence from_json id) stored_db).0;
  };
  error_text = λ e. "error";
  encode = λ items. ok "{}\n";
  write = λ text. (text, none);
}

abbrev pub loaded_config : Config
loaded_config = record config { listen_addr = "127.0.0.1:8080"; timeout_seconds = pos 300 }

abbrev pub service : Service
service = record {
  registry = cpu_binding ∷ [];
  resolve_incident =
      resolve_incident
        (record {
          workspace = "w";
          rule_id = "r";
          resource_id = "e";
          selectors = ("instance_id", "i-1") ∷ [];
        }
          ∷ [])
        parts.incident_by_id;
  providers = λ name.
      if contains provider_names name
      then some (Resolve.resolve (configured loaded_config (call sdk) provider))
      else none;
  open_evidence = some surroundings.parts.open_evidence;
}

store-run_open_example :
    run surroundings ("evidence" ∷ "open" ∷ "e1" ∷ []) none
    ≡ record { status = 0; stdout = "{}\n"; stderr = "" }
unfolding load new_aliyun_sdk_client new_evidence_service load_registry register_all
    validate_binding check_mapping is_allowed_template contains exists_where load_incident_bindings
    new_incident_source validate_incident_bindings check_bindings has_blank_selector is_blank
    is_space incident_binding_key is_safe_reference is_safe_char
store-run_open_example =
    store-run_open surroundings loaded_config service cpu_load "{}\n" refl refl refl refl refl
      to_json from_json "i1" 95 [] (disk_load ∷ []) empty_db stored_db store_runs (refl, tt)
      (λ raw e. let same : "98%" ≡ raw = ground arith in ap from_json (sym same)) (λ id. refl) refl
