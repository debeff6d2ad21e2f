-- ===== src/Provider/Resolve.antt =====
-- internal/provider/aliyun.go: Resolve, and the evidence that it makes of an answer.
use umodel_sre_rca.Text.{trim_space}
use umodel_sre_rca.Common.{
  Result, ok, err, ◌==◌, ◌>>=◌, ◌>>◌, List, Option, String, [], failure, if◌then◌else◌, none, some,
  ◌||◌, ◌∷◌, ℕ,
}
use Prim.Native.Nat.{zero, suc}
use Prim.Native.String.{String, ◌++◌}
use umodel_sre_rca.Common.Int.{ℤ}
use umodel_sre_rca.Domain.{Evidence}
use umodel_sre_rca.Evidence.{Binding, Selectors, Window}
use umodel_sre_rca.Provider.Requests.{
  AliyunConfig, AliyunRequest, Formats, required_selector, validate_selector_value, validate_window,
  build_action_trail_request, build_entity_store_context_request,
  build_entity_store_topology_request, build_metrics_request, build_nginx_logs_request,
}
use umodel_sre_rca.Provider.Summary.{Readings, summarize_ecs_cpu, summarize_nginx_access}

-- xs[:n]
unfoldable pub take : ℕ → List ℕ → List ℕ
take zero xs = []
take (suc n) [] = []
take (suc n) (x ∷ xs) = x ∷ take n xs

pub record TrailEvent : Type 0 where
  pub event_id : String
  pub event_name : String
  pub event_time : String
  pub request_id : String
  pub user_name : String

pub record TrailResponse : Type 0 where
  pub request_id : String
  pub events : List TrailEvent

-- The fields of `AliyunProvider`, whose `cloud` is the interface AliyunAPI, and the library's
-- SHA-256, hex.EncodeToString, json.Unmarshal of an ActionTrail response and time.Parse(RFC3339).
pub record Provider : Type 0 where
  pub config : AliyunConfig
  pub cloud : AliyunRequest → Result String
  pub formats : Formats
  pub readings : Readings
  pub sha256 : String → List ℕ
  pub hex : List ℕ → String
  pub decode_trail : String → Option TrailResponse
  pub parse_time : String → Option ℤ

unfoldable pub validate_selectors : Selectors → Result (Unit {0})
unfolding validate_selector_value
validate_selectors [] = ok tt
validate_selectors ((name, value) ∷ rest) = validate_selector_value value >> validate_selectors rest

abbrev pub log_kind : String → Result String
log_kind template =
    if template == "nginx_access_by_window_v1"
    then ok "access"
    else if template == "nginx_error_by_window_v1"
    then ok "error"
    else err (failure "unsupported Nginx log template")

abbrev pub decoded : {A : Type 0} → Option A → String → Result A
decoded none text = err (failure text)
decoded (some a) text = ok a

module _ (p : Provider) where
  unfoldable pub new_evidence : String → String → ℤ → String → String → String → String → Evidence
  unfolding take
  new_evidence seed evidence_type observed_at source query_ref summary raw =
      let hash = p.sha256 (seed ++ ":" ++ query_ref ++ ":" ++ raw) in
      record {
        id = p.hex (take 12 hash);
        type = evidence_type;
        observed_at = observed_at;
        source = source;
        query_ref = query_ref;
        summary = trim_space summary;
        raw_ref = "sha256:" ++ p.hex hash;
      }

  unfoldable pub resolve_topology_context : Binding → Selectors → Window → Result (List Evidence)
  unfolding new_evidence
  resolve_topology_context b selectors window = do
    endpoint_id ← required_selector selectors "endpoint_id"
    request ← build_entity_store_topology_request p.formats p.config endpoint_id window
    raw ← p.cloud request
    ok (
        new_evidence b.id "context" window.end "cms:GetEntityStoreData"
          "cms:GetEntityStoreData:topology" "UModel endpoint topology resolved" raw
        ∷ [])

  unfoldable pub resolve_context : Binding → Selectors → Window → Result (List Evidence)
  unfolding new_evidence
  resolve_context b selectors window = do
    endpoint_id ← required_selector selectors "endpoint_id"
    request ← build_entity_store_context_request p.formats p.config endpoint_id window
    raw ← p.cloud request
    ok (
        new_evidence b.id "context" window.end "cms:GetEntityStoreData" "cms:GetEntityStoreData"
          "UModel endpoint context resolved" raw
        ∷ [])

  unfoldable pub resolve_metrics : Binding → Selectors → Window → Result (List Evidence)
  unfolding new_evidence
  resolve_metrics b selectors window = do
    request ← build_metrics_request p.formats p.config selectors window
    raw ← p.cloud request
    ok (
        new_evidence b.id "metric" window.end "cms:DescribeMetricList" "cms:DescribeMetricList"
          (summarize_ecs_cpu p.readings raw) raw
        ∷ [])

  unfoldable pub resolve_logs : Binding → Selectors → Window → Result (List Evidence)
  unfolding new_evidence
  resolve_logs b selectors window = do
    kind ← log_kind b.query_template
    request ← build_nginx_logs_request p.config kind selectors window
    raw ← p.cloud request
    ok (
        new_evidence b.id "log" window.end "sls:GetLogs" "sls:GetLogs"
          (summarize_nginx_access p.readings raw) raw
        ∷ [])

  unfoldable pub change_items :
      Binding → String → String → String → List TrailEvent → Result (List Evidence)
  unfolding new_evidence
  change_items b security_group_id response_id raw [] = ok []
  change_items b security_group_id response_id raw (e ∷ es) = do
    observed_at ← decoded (p.parse_time e.event_time) "decode ActionTrail event time"
    rest ← change_items b security_group_id response_id raw es
    ok (
        new_evidence (b.id ++ ":" ++ e.event_id) "change" observed_at "actiontrail:LookupEvents"
          ("actiontrail:" ++ response_id ++ ":" ++ e.request_id)
          ("ActionTrail " ++ e.event_name ++ " on " ++ security_group_id ++ " by " ++ e.user_name)
          raw
        ∷ rest)

  unfoldable pub resolve_changes : Binding → Selectors → Window → Result (List Evidence)
  unfolding change_items
  resolve_changes b selectors window = do
    security_group_id ← required_selector selectors "security_group_id"
    raw ← p.cloud (build_action_trail_request p.formats security_group_id window)
    response ← decoded (p.decode_trail raw) "decode ActionTrail response"
    change_items b security_group_id response.request_id raw response.events

  -- The switch on the template.
  unfoldable pub resolve_template : Binding → Selectors → Window → Result (List Evidence)
  unfolding resolve_topology_context resolve_context resolve_metrics resolve_logs resolve_changes
  resolve_template b selectors window =
      let t = b.query_template in
      if t == "endpoint_context_v1"
      then resolve_context b selectors window
      else if t == "endpoint_topology_v1"
      then resolve_topology_context b selectors window
      else if t == "availability_window_v1" || t == "ecs_normal_state_window_v1"
      then resolve_metrics b selectors window
      else if t == "nginx_access_by_window_v1" || t == "nginx_error_by_window_v1"
      then resolve_logs b selectors window
      else if t == "security_group_change_window_v1"
      then resolve_changes b selectors window
      else err (failure "template is not implemented")

  unfoldable pub resolve : Binding → Selectors → Window → Result (List Evidence)
  unfolding resolve_template validate_selectors
  resolve b selectors window = do
    validate_window window
    validate_selectors selectors
    resolve_template b selectors window
