-- ===== src/Provider/Requests.antt =====
-- internal/provider/request_builders.go, and the selector and window checks of aliyun.go. Formatting
-- of numbers and times and MD5 are parameters; a map is the list of its entries, each key once.
use umodel_sre_rca.Common.{
  Result, ok, err, ◌==◌, ◌>>=◌, ◌>>◌, ◌-◌, ◌%◌, ◌^◌, ◌&&◌, Bool, List, String, [], failure,
  if◌then◌else◌, leb, length, ltb, not, refuse_if, ◌||◌, ℕ, ◌∷◌,
}
use Prim.Native.String.{◌++◌}
use umodel_sre_rca.Common.Int.{ℤ, pos, negsuc, ltb_ℤ}
use umodel_sre_rca.Analysis.{codes, all_of, is_safe_char}
use umodel_sre_rca.Evidence.{Selectors, Window, look_up}

-- What `any` holds in a request's body.
pub data Value : Type 0 where
  int32 int64 : ℤ → Value
  text : String → Value

pub record AliyunRequest : Type 0 where
  pub service : String
  pub operation : String
  pub query : List (String × String)
  pub body : List (String × Value)

pub record AliyunConfig : Type 0 where
  pub workspace : String
  pub region : String
  pub sls_project : String
  pub sls_logstore : String

-- fmt.Sprint of an int64, Format(time.RFC3339) of a time in UTC, and hex(md5(text)).
pub record Formats : Type 0 where
  pub sprint : ℤ → String
  pub rfc3339 : ℤ → String
  pub md5_hex : String → String

-- `^[A-Za-z0-9._:-]{1,256}$`
unfoldable pub is_safe_selector : String → Bool
is_safe_selector value =
    all_of is_safe_char (codes value)
    && (leb 1 (length (codes value)) && leb (length (codes value)) 256)

unfoldable pub validate_selector_value : String → Result (Unit {0})
unfolding is_safe_selector
validate_selector_value value =
    refuse_if (not (is_safe_selector value))
      (failure "selector value contains unsupported characters")

unfoldable pub required_selector : Selectors → String → Result String
unfolding validate_selector_value look_up
required_selector selectors name =
    let value = look_up selectors name in
    refuse_if (value == "") (failure "missing selector")
    >> (validate_selector_value value >> ok value)

-- time.Time{}, at the start of the year 1
abbrev pub is_zero_time : ℤ → Bool
is_zero_time t = not (ltb_ℤ t (negsuc 62135596799) || ltb_ℤ (negsuc 62135596799) t)

unfoldable pub validate_window : Window → Result (Unit {0})
validate_window window =
    refuse_if
      (is_zero_time window.start
        || (is_zero_time window.end || not (ltb_ℤ window.start window.end)))
      (failure "invalid evidence window")

-- int32(n): the low 32 bits, read with their sign.
abbrev pub low_bits : ℤ → ℕ
low_bits (pos n) = n % 2 ^ 32
low_bits (negsuc n) = 2 ^ 32 - 1 - n % 2 ^ 32

abbrev pub signed : ℕ → ℤ
signed bits = if ltb bits (2 ^ 31) then pos bits else negsuc (2 ^ 32 - 1 - bits)

unfoldable pub to_int32 : ℤ → ℤ
to_int32 n = signed (low_bits n)

unfoldable pub context_query : String → String
context_query endpoint_id =
    ".entity with(domain='sre', type='sre.service_endpoint') | where endpoint_id = '" ++ endpoint_id
    ++ "' | limit 0, 1"

unfoldable pub topology_query : String → String
topology_query entity_id =
    ".topo | graph-call getNeighborNodes('sequence_out', 1, [(:\"sre@sre.service_endpoint\" {__entity_id__: '"
    ++ entity_id ++ "'})]) | where relationType = 'runs_on'"

unfoldable pub instance_dimensions : String → String
instance_dimensions instance_id = "[{\"instanceId\":\"" ++ instance_id ++ "\"}]"

unfoldable pub probe_dimensions : String → String
probe_dimensions probe_task_id = "[{\"taskId\":\"" ++ probe_task_id ++ "\"}]"

abbrev pub instance_metrics : String → List (String × String)
unfolding instance_dimensions
instance_metrics instance_id =
    ("Namespace", "acs_ecs_dashboard")
    ∷ ("MetricName", "cpu_total")
    ∷ ("Period", "60")
    ∷ ("Dimensions", instance_dimensions instance_id)
    ∷ []

abbrev pub probe_metrics : String → List (String × String)
unfolding probe_dimensions
probe_metrics probe_task_id = ("Dimensions", probe_dimensions probe_task_id) ∷ []

abbrev pub metrics_region : AliyunConfig → Selectors → String
metrics_region config selectors =
    let selected = look_up selectors "region_id" in
    if selected == "" then config.region else selected

unfoldable pub logs_query : String → String → String → String
logs_query endpoint_id log_kind instance_id =
    "endpoint_id:\"" ++ endpoint_id ++ "\" AND log_kind:\"" ++ log_kind ++ "\" AND instance_id:\""
    ++ instance_id ++ "\""

abbrev pub get_logs : AliyunConfig → String → Window → AliyunRequest
unfolding to_int32
get_logs config query window = record {
  service = "sls";
  operation = "GetLogs";
  query = ("project", config.sls_project) ∷ ("logstore", config.sls_logstore) ∷ [];
  body =
      ("from", Value.int32 (to_int32 window.start))
      ∷ ("to", Value.int32 (to_int32 window.end))
      ∷ ("query", Value.text query)
      ∷ ("line", Value.int64 (pos 100))
      ∷ [];
}

unfoldable pub build_nginx_logs_request :
    AliyunConfig → String → Selectors → Window → Result AliyunRequest
unfolding required_selector logs_query
build_nginx_logs_request config log_kind selectors window = do
  endpoint_id ← required_selector selectors "endpoint_id"
  instance_id ← required_selector selectors "instance_id"
  refuse_if (config.sls_project == "" || config.sls_logstore == "")
      (failure "SLS project and logstore are required for Nginx logs")
  ok (get_logs config (logs_query endpoint_id log_kind instance_id) window)

module _ (f : Formats) where
  -- internal/umodelid/endpoint.go
  unfoldable pub endpoint_entity_id : String → String
  endpoint_entity_id endpoint_id = f.md5_hex ("sre:sre.service_endpoint:" ++ endpoint_id)

  abbrev pub build_entity_store_request : String → String → Window → AliyunRequest
  build_entity_store_request workspace query window = record {
    service = "cms";
    operation = "GetEntityStoreData";
    query =
        ("Workspace", workspace)
        ∷ ("From", f.sprint window.start)
        ∷ ("To", f.sprint window.end)
        ∷ ("Query", query)
        ∷ [];
    body = [];
  }

  unfoldable pub build_entity_store_context_request :
      AliyunConfig → String → Window → Result AliyunRequest
  unfolding context_query
  build_entity_store_context_request config endpoint_id window =
      refuse_if (config.workspace == "") (failure "aliyun workspace is required for UModel context")
      >> ok (build_entity_store_request config.workspace (context_query endpoint_id) window)

  unfoldable pub build_entity_store_topology_request :
      AliyunConfig → String → Window → Result AliyunRequest
  unfolding topology_query endpoint_entity_id
  build_entity_store_topology_request config endpoint_id window =
      refuse_if (config.workspace == "")
        (failure "aliyun workspace is required for UModel topology context")
      >> ok (
          build_entity_store_request config.workspace
            (topology_query (endpoint_entity_id endpoint_id)) window)

  abbrev pub metric_list : Window → String → List (String × String) → AliyunRequest
  metric_list window region_id target = record {
    service = "cms";
    operation = "DescribeMetricList";
    query =
        ("StartTime", f.rfc3339 window.start)
        ∷ ("EndTime", f.rfc3339 window.end)
        ∷ ("RegionId", region_id)
        ∷ target;
    body = [];
  }

  unfoldable pub build_metrics_request : AliyunConfig → Selectors → Window → Result AliyunRequest
  unfolding validate_selector_value look_up
  build_metrics_request config selectors window =
      let region_id = metrics_region config selectors in
      let instance_id = look_up selectors "instance_id" in
      let probe_task_id = look_up selectors "probe_task_id" in
      validate_selector_value region_id
      >> (if not (instance_id == "")
          then validate_selector_value instance_id
            >> ok (metric_list window region_id (instance_metrics instance_id))
          else if not (probe_task_id == "")
          then validate_selector_value probe_task_id
            >> ok (metric_list window region_id (probe_metrics probe_task_id))
          else err (failure "metrics binding requires instance_id or probe_task_id"))

  unfoldable pub build_action_trail_request : String → Window → AliyunRequest
  build_action_trail_request security_group_id window = record {
    service = "actiontrail";
    operation = "LookupEvents";
    query =
        ("ResourceName", security_group_id)
        ∷ ("EventRW", "Write")
        ∷ ("StartTime", f.rfc3339 window.start)
        ∷ ("EndTime", f.rfc3339 window.end)
        ∷ ("MaxResults", "50")
        ∷ [];
    body = [];
  }
