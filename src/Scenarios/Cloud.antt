-- ===== src/Scenarios/Cloud.antt =====
-- A query of the metrics of one instance, and the cards of one incident.
use umodel_sre_rca.Common.{
  ◌==◌, if◌then◌else◌, ok, ◌∷◌, [], none, some, refl, ◌≡◌, String, Option, false, eqb,
}
use umodel_sre_rca.Common.Int.{ℤ, pos, negsuc}
use umodel_sre_rca.Provider.Requests.{
  get_logs, build_nginx_logs_request, is_safe_selector, context_query, logs_query,
  instance_dimensions, probe_dimensions,
}
use umodel_sre_rca.Provider.Client.{Sdk, call}
use umodel_sre_rca.Provider.Resolve.{Provider, resolve}
use umodel_sre_rca.Provider.Queries.{queries-literals, literals}
use umodel_sre_rca.Provider.LogRequests.{IsLogBody, build_nginx_logs_request-IsLogBody}
use umodel_sre_rca.Provider.Numbers.{IsExtreme, maximum-minimum-IsExtreme, more}
use umodel_sre_rca.Provider.Summary.{Float, lt_float, maximum, minimum}
use umodel_sre_rca.Provider.Served.{resolve-sent, sent}
use umodel_sre_rca.Modelsync.Writer.{is_workspace}
use umodel_sre_rca.Evidence.{Binding, Selectors, Window, look_up}
use umodel_sre_rca.Analysis.{codes, is_safe_char}

abbrev pub selectors : Selectors
selectors = ("endpoint_id", "blog") ∷ ("instance_id", "i-1") ∷ ("region_id", "cn-hangzhou") ∷ []

abbrev pub half_hour : Window
half_hour = record { start = pos 1000; end = pos 2800 }

abbrev pub cpu_binding : Binding
cpu_binding = record {
  id = "cpu";
  evidence_class = "metrics";
  target = "ecs";
  provider = "aliyun.cloudmonitor";
  query_template = "ecs_normal_state_window_v1";
  selector_mapping = ("instance_id", "instance_id") ∷ [];
  console_link_template = "";
  query_url = "";
  has_credentials = false;
  shell_command = "";
}

-- Two times and their digits.
abbrev print_time : ℤ → String
print_time (pos n) = if eqb n 1000 then "1000" else "2800"
print_time (negsuc n) = "-1"

abbrev read_time : String → Option ℤ
read_time s = if s == "1000" then some (pos 1000) else if s == "2800" then some (pos 2800) else none

abbrev pub sdk : Sdk
sdk = record {
  cms = λ params request. ok "{}";
  action_trail = λ params request. ok "{}";
  get_logs = λ project logstore request. ok "{}";
  parse_int = read_time;
}

abbrev pub provider : Provider
provider = record {
  config = record {
    workspace = "w";
    region = "cn-hangzhou";
    sls_project = "p";
    sls_logstore = "l";
  };
  cloud = λ r. ok "{}";
  formats = record { sprint = print_time; rfc3339 = print_time; md5_hex = λ s. s };
  readings = record {
    cpu_body = λ s. none;
    json_string = λ s. none;
    data_points = λ s. none;
    nginx_body = λ s. none;
    parse_float = λ s. none;
    add = λ x y. x;
    divide = λ x n. x;
    two_digits = λ x. "0.00";
    decimal = λ n. "0";
  };
  sha256 = λ s. [];
  hex = λ bytes. "00";
  decode_trail = λ s. none;
  parse_time = read_time;
}

queries-literals_example :
    (literals b'\'' (context_query "blog")
      ≡ codes ".entity with(domain="
        ∷ codes "sre"
        ∷ codes ", type="
        ∷ codes "sre.service_endpoint"
        ∷ codes ") | where endpoint_id = "
        ∷ codes "blog"
        ∷ codes " | limit 0, 1"
        ∷ [])
    × (literals b'"' (logs_query "blog" "access" "i-1")
        ≡ codes "endpoint_id:"
          ∷ codes "blog"
          ∷ codes " AND log_kind:"
          ∷ codes "access"
          ∷ codes " AND instance_id:"
          ∷ codes "i-1"
          ∷ []
          ∷ [])
    × (literals b'"' (instance_dimensions "i-1")
        ≡ codes "[{" ∷ codes "instanceId" ∷ codes ":" ∷ codes "i-1" ∷ codes "}]" ∷ [])
    × (literals b'"' (probe_dimensions "blog")
        ≡ codes "[{" ∷ codes "taskId" ∷ codes ":" ∷ codes "blog" ∷ codes "}]" ∷ [])
unfolding is_safe_selector is_safe_char
queries-literals_example = queries-literals "blog" "access" "i-1" refl refl refl

build_nginx_logs_request-IsLogBody_example : IsLogBody "access" selectors half_hour (
    get_logs provider.config "endpoint_id:\"blog\" AND log_kind:\"access\" AND instance_id:\"i-1\""
      half_hour)
unfolding build_nginx_logs_request is_safe_selector is_safe_char look_up
build_nginx_logs_request-IsLogBody_example =
    build_nginx_logs_request-IsLogBody provider.config "access" selectors half_hour refl refl

resolve-sent_example :
    resolve (record provider { cloud = call sdk }) cpu_binding selectors half_hour
    ≡ resolve
        (record provider { cloud = sent sdk provider.config half_hour })
        cpu_binding
        selectors
        half_hour
unfolding is_workspace
resolve-sent_example = resolve-sent provider sdk cpu_binding selectors half_hour refl refl refl

maximum-minimum-IsExtreme_example :
    IsExtreme lt_float
      (maximum (Float.finite (pos 3)) (Float.finite (negsuc 4) ∷ Float.infinity ∷ []))
      (Float.finite (pos 3) ∷ Float.finite (negsuc 4) ∷ Float.infinity ∷ [])
    × IsExtreme more
        (minimum (Float.finite (pos 3)) (Float.finite (negsuc 4) ∷ Float.infinity ∷ []))
        (Float.finite (pos 3) ∷ Float.finite (negsuc 4) ∷ Float.infinity ∷ [])
maximum-minimum-IsExtreme_example =
    maximum-minimum-IsExtreme (Float.finite (pos 3)) (Float.finite (negsuc 4) ∷ Float.infinity ∷ [])
      (tt, (tt, (tt, tt)))
