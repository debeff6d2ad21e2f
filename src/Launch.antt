-- ===== src/Launch.antt =====
-- cmd/sre-worker, cmd/sre-gateway and internal/runtime/evidence.go: what the commands check of the
-- configuration, and how they put the components together. Reading files, opening the database and
-- the constructors of the SDK are parameters.
pub mod Composed
pub mod Reviewed
pub mod Serving
pub mod Guarded
use umodel_sre_rca.Common.{
  Result, ok, err, ◌==◌, ◌>>=◌, ◌>>◌, Bool, List, Option, [], failure, false, if◌then◌else◌, none,
  not, refuse_if, some, true, ◌||◌, ◌∷◌, ◌&&◌,
}
use Prim.Native.String.{String, ◌++◌}
use umodel_sre_rca.Common.Int.{ℤ}
use umodel_sre_rca.Domain.{Evidence, Incident}
use umodel_sre_rca.Config.{
  Config, IncidentBinding, load, load_incident_bindings, new_incident_source,
}
use umodel_sre_rca.Evidence.{Binding, Service, load_registry}
use umodel_sre_rca.Provider.Requests.{AliyunRequest, Formats}
use umodel_sre_rca.Provider.Resolve
use umodel_sre_rca.Provider.Resolve.{Provider}
use umodel_sre_rca.Provider.Client.{call}
use umodel_sre_rca.Provider.Sdk.{Constructors, new_aliyun_sdk_client}
use umodel_sre_rca.Feishu.{Client, Services, new_client}
use umodel_sre_rca.Worker.Loop.{call_timeout, poll_interval}
use umodel_sre_rca.Analysis.{contains}

-- The two files after decoding, the repository's reads, the constructors of the SDK's clients, and
-- a provider of the library calls: its `config` and `cloud` are replaced.
pub record Parts : Type 0 where
  pub bindings_file : Result (List Binding)
  pub incident_bindings_file : Result (List IncidentBinding)
  pub incident_by_id : String → Result Incident
  pub open_evidence : String → Result Evidence
  pub constructors : Constructors
  pub libraries : Provider

-- The map of the providers: five names for one provider.
abbrev pub provider_names : List String
provider_names =
    "aliyun.umodel" ∷ "aliyun.synthetic_probe" ∷ "aliyun.cloudmonitor" ∷ "aliyun.sls"
    ∷ "aliyun.actiontrail" ∷ []

abbrev pub configured : Config → (AliyunRequest → Result String) → Provider → Provider
configured c cloud libraries = record libraries {
  config = record {
    workspace = c.workspace;
    region = c.region;
    sls_project = c.sls_project;
    sls_logstore = c.sls_logstore;
  };
  cloud = cloud;
}

unfoldable pub new_evidence_service : Config → Parts → Result Service
unfolding new_aliyun_sdk_client call
new_evidence_service c parts = do
  sdk ← new_aliyun_sdk_client parts.constructors c.region c.ecs_ram_role_name
  bindings ← parts.bindings_file
  registry ← load_registry bindings
  incident_bindings ← load_incident_bindings parts.incident_bindings_file
  incidents ← new_incident_source (some parts.incident_by_id) incident_bindings
  ok (record {
    registry = registry;
    resolve_incident = incidents;
    providers = λ name.
        if contains provider_names name
        then some (Resolve.resolve (configured c (call sdk) parts.libraries))
        else none;
    open_evidence = some parts.open_evidence;
  })

unfoldable pub validate_worker_config : Config → Result (Unit {0})
validate_worker_config c =
    refuse_if (c.app_id == "" || (c.app_secret == "" || c.chat_id == ""))
      (failure "worker.enabled requires feishu app_id, app_secret, and chat_id")

abbrev pub feishu_base_url : String
feishu_base_url = "https://open.feishu.cn/open-apis"

-- What `run` of sre-worker has before its loop: the arguments of worker.New and runLoop.
pub record Started : Type 0 where
  pub cards : Client
  pub evidence : Service
  pub worker_id : String
  pub max_turns : ℤ
  pub poll_seconds : ℤ
  pub timeout_seconds : ℤ

-- `run` of sre-worker up to its loop, on the decoded file.
unfoldable pub start_worker :
    Config → Result (Unit {0}) → Parts → Result String → Services → Result Started
unfolding new_evidence_service validate_worker_config
start_worker file open_database parts hostname http = do
  c ← load file
  refuse_if (not c.enabled) (failure "worker.enabled must be true to run sre-worker")
  validate_worker_config c
  open_database
  evidence ← new_evidence_service c parts
  host ← hostname
  ok (record {
    cards = new_client feishu_base_url c.app_id c.app_secret c.chat_id http;
    evidence = evidence;
    worker_id = "sre-worker-" ++ host;
    max_turns = c.max_turns;
    poll_seconds = c.poll_seconds;
    timeout_seconds = c.timeout_seconds;
  })

abbrev pub same_truth : Bool → Bool → Bool
same_truth true b = b
same_truth false b = not b

unfoldable pub validate_gateway_config : Config → Result (Unit {0})
validate_gateway_config c = do
  refuse_if (c.callback_token == "") (failure "callback_token is required")
  refuse_if (not (same_truth (c.app_id == "") (c.app_secret == "")))
      (failure "feishu app_id and app_secret must be configured together")

unfoldable pub new_gateway_notifier : Config → Services → Option Client
new_gateway_notifier c http =
    if c.app_id == ""
    then none
    else some (new_client feishu_base_url c.app_id c.app_secret c.chat_id http)
