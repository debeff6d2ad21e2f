-- ===== src/Provider/Client.antt =====
-- internal/provider/client.go: the requests that the client lets through, and the calls of the SDK
-- that it makes of them. The SDK, encoding/json and strconv.ParseInt are parameters.
use umodel_sre_rca.Common.{
  Result, ok, err, ◌==◌, ◌>>=◌, ◌>>◌, List, Option, String, [], failure, if◌then◌else◌, none, not,
  refuse_if, some, ◌||◌, ◌∷◌,
}
use Prim.Native.String.{◌++◌}
use umodel_sre_rca.Common.Int.{ℤ, ltb_ℤ}
use umodel_sre_rca.Evidence.{look_up, is_allowed_template}
use umodel_sre_rca.Modelsync.Writer.{is_workspace}
use umodel_sre_rca.Provider.Requests.{AliyunRequest, Value}

abbrev pub allowed_actions : List (String × List String)
allowed_actions =
    ("cms", "GetEntityStoreData" ∷ "DescribeMetricList" ∷ [])
    ∷ ("sls", "GetLogs" ∷ [])
    ∷ ("actiontrail", "LookupEvents" ∷ [])
    ∷ []

-- openapi.Params; every call is an HTTPS POST with an access key, answered in JSON.
pub record Params : Type 0 where
  pub action : String
  pub version : String
  pub protocol : String
  pub pathname : String
  pub method : String
  pub auth_type : String
  pub style : String
  pub req_body_type : String
  pub body_type : String

-- openapi.OpenApiRequest
pub record OpenApiRequest : Type 0 where
  pub query : List (String × String)
  pub body : List (String × Value)

pub record GetLogsRequest : Type 0 where
  pub from : ℤ
  pub to : ℤ
  pub query : String
  pub line : ℤ

-- The three clients of the SDK, with the responses as json.Marshal writes them, and ParseInt(s, 10, 64).
pub record Sdk : Type 0 where
  pub cms : Params → OpenApiRequest → Result String
  pub action_trail : Params → OpenApiRequest → Result String
  pub get_logs : String → String → GetLogsRequest → Result String
  pub parse_int : String → Option ℤ

abbrev pub entity_store_params : String → Params
entity_store_params workspace = record {
  action = "GetEntityStoreData";
  version = "2024-03-30";
  protocol = "HTTPS";
  pathname = "/workspace/" ++ workspace ++ "/entitiesAndRelations";
  method = "POST";
  auth_type = "AK";
  style = "ROA";
  req_body_type = "json";
  body_type = "json";
}

abbrev pub rpc_params : String → String → Params
rpc_params action version = record {
  action = action;
  version = version;
  protocol = "HTTPS";
  pathname = "/";
  method = "POST";
  auth_type = "AK";
  style = "RPC";
  req_body_type = "formData";
  body_type = "json";
}

abbrev pub parsed : Option ℤ → String → Result ℤ
parsed none text = err (failure text)
parsed (some n) text = ok n

-- m[key] of a body; `none` is the nil of a missing key.
unfoldable pub entry : List (String × Value) → String → Option Value
entry [] key = none
entry ((k, v) ∷ entries) key = if k == key then some v else entry entries key

-- The type assertions on a value of a body.
abbrev pub as_int32 : Option Value → String → Result ℤ
as_int32 (some (Value.int32 n)) text = ok n
as_int32 _ text = err (failure text)

abbrev pub as_int64 : Option Value → String → Result ℤ
as_int64 (some (Value.int64 n)) text = ok n
as_int64 _ text = err (failure text)

abbrev pub as_text : Option Value → String → Result String
as_text (some (Value.text t)) text = ok t
as_text _ text = err (failure text)

module _ (sdk : Sdk) where
  unfoldable pub build_entity_store_data_request :
      List (String × String) → Result (Params × OpenApiRequest)
  unfolding look_up
  build_entity_store_data_request values = do
    let workspace = look_up values "Workspace"
    refuse_if (not (is_workspace workspace)) (failure "safe EntityStore workspace is required")
    from ← parsed (sdk.parse_int (look_up values "From")) "valid EntityStore from time is required"
    to ← parsed (sdk.parse_int (look_up values "To")) "valid EntityStore to time is required"
    refuse_if (not (ltb_ℤ from to)) (failure "EntityStore to time must be after from time")
    let query = look_up values "Query"
    refuse_if (query == "") (failure "EntityStore query is required")
    ok (
      entity_store_params workspace,
      record {
        query = [];
        body =
            ("from", Value.int64 from) ∷ ("to", Value.int64 to) ∷ ("query", Value.text query) ∷ [];
      },
    )

  unfoldable pub call_entity_store_data : List (String × String) → Result String
  unfolding build_entity_store_data_request
  call_entity_store_data values = do
    built ← build_entity_store_data_request values
    sdk.cms built.0 built.1

  unfoldable pub call_rpc :
      (Params → OpenApiRequest → Result String)
      → String
      → String
      → List (String × String)
      → Result String
  call_rpc send action version values =
      send (rpc_params action version) (record { query = values; body = [] })

  unfoldable pub call_sls : AliyunRequest → Result String
  unfolding look_up entry
  call_sls request = do
    refuse_if (not (request.operation == "GetLogs")) (failure "unsupported SLS operation")
    let project = look_up request.query "project"
    let logstore = look_up request.query "logstore"
    refuse_if (project == "" || logstore == "") (failure "SLS project and logstore are required")
    from ← as_int32 (entry request.body "from") "SLS from time is required"
    to ← as_int32 (entry request.body "to") "SLS to time is required"
    query ← as_text (entry request.body "query") "SLS query is required"
    line ← as_int64 (entry request.body "line") "SLS line limit is required"
    sdk.get_logs project logstore (record { from = from; to = to; query = query; line = line })

  abbrev pub dispatch : AliyunRequest → Result String
  unfolding call_entity_store_data call_rpc call_sls
  dispatch request =
      if request.service == "cms"
      then (if request.operation == "GetEntityStoreData"
          then call_entity_store_data request.query
          else call_rpc sdk.cms request.operation "2019-01-01" request.query)
      else if request.service == "actiontrail"
      then call_rpc sdk.action_trail request.operation "2020-07-06" request.query
      else if request.service == "sls"
      then call_sls request
      else err (failure "unsupported cloud service")

  unfoldable pub call : AliyunRequest → Result String
  unfolding dispatch is_allowed_template
  call request =
      refuse_if (not (is_allowed_template allowed_actions request.service request.operation))
        (failure "not allowlisted")
      >> dispatch request
