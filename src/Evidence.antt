-- ===== src/Evidence.antt =====
-- internal/evidence/registry.go and service.go: the reviewed bindings and the queries by them. A Go
-- map is the list of its entries, each key once; an error's text leaves out what it quotes, so the
-- order in which a map is walked cannot be seen.
pub mod Allowed
pub mod TextOrder
pub mod Unordered
pub mod Reordered
use umodel_sre_rca.Common.{
  Result, ok, err, ◌==◌, ◌++◌, ◌>>=◌, ◌>>◌, Bool, List, Option, String, [], eqb, exists_where,
  failure, false, if◌then◌else◌, none, not, refuse_if, some, true, ◌||◌, ℕ, ◌∷◌,
}
use umodel_sre_rca.Domain.{Evidence}
use umodel_sre_rca.Store.Intake.{text_lt}
use umodel_sre_rca.Analysis.{contains, codes}
use umodel_sre_rca.Common.Int.{ℤ}

pub data EvidenceClass : Type 0 where
  context_class metrics_class logs_class changes_class : EvidenceClass

abbrev pub class_text : EvidenceClass → String
class_text EvidenceClass.context_class = "context"
class_text EvidenceClass.metrics_class = "metrics"
class_text EvidenceClass.logs_class = "logs"
class_text EvidenceClass.changes_class = "changes"

-- Of the credentials, only whether there are any counts.
pub record Binding : Type 0 where
  pub id : String
  pub evidence_class : String
  pub target : String
  pub provider : String
  pub query_template : String
  pub selector_mapping : List (String × String)
  pub console_link_template : String
  pub query_url : String
  pub has_credentials : Bool
  pub shell_command : String

abbrev pub Selectors : Type 0
Selectors = List (String × String)

-- In whole seconds since the epoch.
pub record Window : Type 0 where
  pub start : ℤ
  pub end : ℤ

pub record IncidentContext : Type 0 where
  pub selectors : Selectors
  pub window : Window

-- m[key] of a map of strings.
unfoldable pub look_up : List (String × String) → String → String
look_up [] key = ""
look_up ((k, v) ∷ entries) key = if k == key then v else look_up entries key

abbrev pub allowed_selectors : List String
allowed_selectors =
    "endpoint_id" ∷ "probe_task_id" ∷ "instance_id" ∷ "account_id" ∷ "region_id"
    ∷ "security_group_id" ∷ "resource_id" ∷ "host" ∷ []

abbrev pub allowed_templates : List (String × List String)
allowed_templates =
    ("aliyun.umodel", "endpoint_context_v1" ∷ "endpoint_topology_v1" ∷ [])
    ∷ ("aliyun.synthetic_probe", "availability_window_v1" ∷ [])
    ∷ ("aliyun.cloudmonitor", "ecs_normal_state_window_v1" ∷ [])
    ∷ ("aliyun.sls", "nginx_access_by_window_v1" ∷ "nginx_error_by_window_v1" ∷ [])
    ∷ ("aliyun.actiontrail", "security_group_change_window_v1" ∷ [])
    ∷ []

-- allowedTemplates[provider][template]
unfoldable pub is_allowed_template : List (String × List String) → String → String → Bool
is_allowed_template [] provider template = false
is_allowed_template ((p, templates) ∷ rest) provider template =
    if p == provider
    then contains templates template
    else is_allowed_template rest provider template

abbrev pub is_known_class : String → Bool
is_known_class class =
    class == "context" || (class == "metrics" || (class == "logs" || class == "changes"))

unfoldable pub check_mapping : List (String × String) → Result (Unit {0})
check_mapping [] = ok tt
check_mapping ((selector, field) ∷ rest) =
    refuse_if (not (contains allowed_selectors selector) || not (contains allowed_selectors field))
      (failure "selector is not allowlisted")
    >> check_mapping rest

-- strings.ContainsAny(s, "\n\r")
abbrev pub has_line_break : List ℕ → Bool
has_line_break [] = false
has_line_break (c ∷ cs) = (eqb c 10 || eqb c 13) || has_line_break cs

abbrev pub is_empty_map : List (String × String) → Bool
is_empty_map [] = true
is_empty_map (e ∷ es) = false

unfoldable pub validate_binding : Binding → Result (Unit {0})
unfolding check_mapping is_allowed_template
validate_binding b = do
  refuse_if (not (b.query_url == "")) (failure "query_url is not supported")
  refuse_if b.has_credentials (failure "credentials are not supported")
  refuse_if (not (b.shell_command == "")) (failure "shell_command is not supported")
  refuse_if (b.id == "" || (b.target == "" || (b.provider == "" || b.query_template == "")))
      (failure "binding id, target, provider, and query_template are required")
  refuse_if (not (is_known_class b.evidence_class)) (failure "unsupported evidence_class")
  refuse_if (not (is_allowed_template allowed_templates b.provider b.query_template))
      (failure "provider/template is not allowlisted")
  refuse_if (is_empty_map b.selector_mapping) (failure "selector_mapping is required")
  check_mapping b.selector_mapping
  refuse_if (has_line_break (codes b.console_link_template))
      (failure "console_link_template must be one line")

abbrev pub has_binding : String → List Binding → Bool
has_binding id bindings = exists_where (λ (b : Binding). b.id == id) bindings

-- The loop of LoadRegistry; the bindings registered so far are the first argument.
unfoldable pub register_all : List Binding → List Binding → Result (List Binding)
unfolding validate_binding
register_all registry [] = ok registry
register_all registry (b ∷ bs) =
    validate_binding b
    >> (refuse_if (has_binding b.id registry) (failure "duplicate binding id")
        >> register_all (registry ++ b ∷ []) bs)

abbrev pub at_least_one : List Binding → Result (List Binding)
at_least_one [] = err (failure "at least one binding is required")
at_least_one (b ∷ bs) = ok (b ∷ bs)

-- LoadRegistry on the bindings of the file.
unfoldable pub load_registry : List Binding → Result (List Binding)
unfolding register_all
load_registry bindings = register_all [] bindings >>= at_least_one

-- Insertion sort stands for sort.Slice: identifiers are distinct, so there is one sorted order.
unfoldable pub insert_by_id : Binding → List Binding → List Binding
insert_by_id b [] = b ∷ []
insert_by_id b (k ∷ ks) =
    let rest = insert_by_id b ks in if text_lt k.id b.id then k ∷ rest else b ∷ k ∷ ks

unfoldable pub bindings_for : String → List Binding → List Binding
unfolding insert_by_id
bindings_for class [] = []
bindings_for class (b ∷ bs) =
    let rest = bindings_for class bs in
    if b.evidence_class == class then insert_by_id b rest else rest

unfoldable pub resolve_selectors : List (String × String) → Selectors → Result Selectors
unfolding look_up
resolve_selectors [] incident_selectors = ok []
resolve_selectors ((selector, field) ∷ mapping) incident_selectors =
    let value = look_up incident_selectors field in
    refuse_if (value == "") (failure "missing selector")
    >> (resolve_selectors mapping incident_selectors >>= λ rest. ok ((selector, value) ∷ rest))

-- A provider: what it answers to a binding, the selectors and the window.
abbrev pub Provider : Type 0
Provider = Binding → Selectors → Window → Result (List Evidence)

-- The fields of `Service`.
pub record Service : Type 0 where
  pub registry : List Binding
  pub resolve_incident : String → Result IncidentContext
  pub providers : String → Option Provider
  pub open_evidence : Option (String → Result Evidence)

module _ (s : Service) where
  abbrev pub ask : Option Provider → Binding → Selectors → Window → Result (List Evidence)
  ask none b selectors window = err (failure "provider is not configured")
  ask (some provider) b selectors window = provider b selectors window

  unfoldable pub resolve_all : List Binding → IncidentContext → Result (List Evidence)
  unfolding resolve_selectors
  resolve_all [] data' = ok []
  resolve_all (b ∷ bs) data' = do
    selectors ← resolve_selectors b.selector_mapping data'.selectors
    items ← ask (s.providers b.provider) b selectors data'.window
    rest ← resolve_all bs data'
    ok (items ++ rest)

  unfoldable pub resolve : EvidenceClass → String → Result (List Evidence)
  unfolding resolve_all bindings_for
  resolve class incident_id = do
    refuse_if (incident_id == "") (failure "incident id is required")
    data' ← s.resolve_incident incident_id
    resolve_all (bindings_for (class_text class) s.registry) data'

  abbrev pub look : Option (String → Result Evidence) → String → Result Evidence
  look none id = err (failure "evidence lookup is not configured")
  look (some open') id = open' id

  unfoldable pub open_by_id : String → Result Evidence
  open_by_id id =
      refuse_if (id == "") (failure "evidence id is required") >> look s.open_evidence id
