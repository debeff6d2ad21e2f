-- ===== src/Modelsync/Sync.antt =====
-- internal/modelsync/config.go, the calls of writer.go, and cmd/sre-sync/main.go. The YAML decoder, the
-- flags' parser and the SDK's clients are parameters.
use umodel_sre_rca.Common.{
  Result, ok, err, ◌==◌, ◌>>=◌, ◌>>◌, ◌+◌, ◌-◌, Bool, List, [], failure, false, if◌then◌else◌, leb,
  not, refuse_if, some, true, ℕ, ◌∷◌,
}
use Prim.Native.String.{String, ◌++◌}
use umodel_sre_rca.Provider.Sdk.{
  ClientConfig, CredentialConfig, client_config, new_ecs_ram_role_credential,
}
use umodel_sre_rca.Modelsync.Logs.{LogGroup, new_entity_store_log_group}
use umodel_sre_rca.Common.Int.{ℤ, pos, negsuc}
use umodel_sre_rca.Text.{trim_space}
use umodel_sre_rca.Modelsync.{Endpoint, Plan, Relation, build_plan}
use umodel_sre_rca.Modelsync.Writer.{EntityStoreWrite, build_entity_store_writes, is_workspace}
use umodel_sre_rca.Provider.Client.{OpenApiRequest, Params, entity_store_params}
use umodel_sre_rca.Provider.Requests.{Value as BodyValue}

pub record SyncConfig : Type 0 where
  pub workspace : String
  pub region : String
  pub ecs_ram_role_name : String
  pub relation : Relation
  pub endpoints : List Endpoint

abbrev pub trimmed : SyncConfig → SyncConfig
trimmed c = record c {
  workspace = trim_space c.workspace;
  region = trim_space c.region;
  ecs_ram_role_name = trim_space c.ecs_ram_role_name;
}

abbrev pub has_no_endpoint : List Endpoint → Bool
has_no_endpoint [] = true
has_no_endpoint (e ∷ es) = false

-- What the SDK does: the log protocol's PutLogs of a group to a project and a logstore, and a call of
-- the entity store. `now` is time.Now(), which is never the zero time; `decimal` is fmt.Sprint of an
-- int64. A credential and the client of the entity store may fail to be made.
pub record Cms : Type 0 where
  pub now : ℤ
  pub entity_id : String → String
  pub decimal : ℤ → String
  pub new_credential : CredentialConfig → Result (Unit {0})
  pub new_inspector : ClientConfig → Result (Unit {0})
  pub put_logs : String → String → LogGroup → Result (Unit {0})
  pub call_api : Params → OpenApiRequest → Result String

module _ (cms : Cms) where
  unfoldable pub check_endpoints : Relation → List Endpoint → Result (Unit {0})
  check_endpoints relation [] = ok tt
  check_endpoints relation (e ∷ es) =
      build_plan cms.entity_id e relation (some cms.now) >>= λ _. check_endpoints relation es

  -- LoadConfig on the decoded file.
  unfoldable pub load_config : SyncConfig → Result SyncConfig
  load_config file = do
    let c = trimmed file
    refuse_if (not (is_workspace c.workspace)) (failure "workspace is required and must be safe")
    refuse_if (c.region == "") (failure "region is required")
    refuse_if (c.ecs_ram_role_name == "") (failure "ecs_ram_role_name is required")
    refuse_if (has_no_endpoint c.endpoints) (failure "at least one endpoint is required")
    check_endpoints c.relation c.endpoints
    ok c

  -- NewCMSWriter. The client of the log protocol is made without an error.
  unfoldable pub new_cms_writer : String → String → Result (Unit {0})
  unfolding new_ecs_ram_role_credential
  new_cms_writer region role = do
    refuse_if (region == "") (failure "aliyun region is required")
    new_ecs_ram_role_credential cms.new_credential role
    cms.new_inspector (client_config ("cms." ++ region ++ ".aliyuncs.com") region role)

  -- PutLogs of one batch.
  unfoldable pub put_one : String → EntityStoreWrite → Result (Unit {0})
  unfolding new_entity_store_log_group
  put_one workspace w =
      cms.put_logs workspace w.logstore (new_entity_store_log_group cms.decimal cms.now w.group)

  -- The loop of Upsert: the batches that have been put, and the error that ends it.
  unfoldable pub put_all :
      String → List EntityStoreWrite → List EntityStoreWrite × Result (Unit {0})
  unfolding put_one
  put_all workspace [] = ([], ok tt)
  put_all workspace (w ∷ ws) =
      let rest = put_all workspace ws in
      elim (put_one workspace w) [ err e ↦ ([], err e) | ok _ ↦ (w ∷ rest.0, rest.1) ]

  unfoldable pub upsert : String → Plan → List EntityStoreWrite × Result (Unit {0})
  upsert workspace plan = elim (build_entity_store_writes workspace plan) [
    | err e ↦ ([], err e)
    | ok writes ↦ put_all workspace writes
  ]

  abbrev pub minus : ℤ → ℕ → ℤ
  minus (pos n) k = if leb k n then pos (n - k) else negsuc (k - 1 - n)
  minus (negsuc n) k = negsuc (n + k)

  -- 48 hours back
  unfoldable pub build_get_entity_store_data_request_with_query :
      String → String → Result (Params × OpenApiRequest)
  build_get_entity_store_data_request_with_query workspace query =
      refuse_if (not (is_workspace workspace)) (failure "unsafe workspace name")
      >> ok (
        entity_store_params workspace,
        record {
          query = [];
          body =
              ("from", BodyValue.int64 (minus cms.now 172800))
              ∷ ("to", BodyValue.int64 cms.now)
              ∷ ("query", BodyValue.text query)
              ∷ [];
        },
      )
