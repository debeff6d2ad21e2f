-- ===== src/Modelsync.antt =====
-- internal/modelsync: plans of upserts into the entity store, and the writer's checks. A Go map is
-- the list of its entries, each key once.
pub mod Writer
pub mod Logs
pub mod Accepted
pub mod Sync
pub mod Inspect
pub mod Run
use Prim.Native.String.{◌++◌}
use umodel_sre_rca.Common.{
  Result, ok, err, ◌==◌, ◌>>=◌, ◌>>◌, ◌&&◌, Bool, List, Option, String, [], eqb, failure, false,
  if◌then◌else◌, leb, length, none, not, refuse_if, some, true, ◌||◌, ℕ, ◌∷◌,
}
use umodel_sre_rca.Common.Int.{ℤ, pos}
use umodel_sre_rca.Analysis.{is_blank, codes, between}

pub record Endpoint : Type 0 where
  pub endpoint_id : String
  pub service_name : String
  pub service_url : String
  pub environment : String
  pub instance_id : String
  pub ecs_entity_id : String
  pub region_id : String
  pub account_id : String

pub record Relation : Type 0 where
  pub type : String
  pub destination_domain : String
  pub destination_entity_type : String

-- The values that plans hold: strings and numbers of seconds.
pub data Value : Type 0 where
  text : String → Value
  seconds : ℤ → Value

abbrev pub Element : Type 0
Element = List (String × Value)

pub record Plan : Type 0 where
  pub elements : List Element

abbrev pub is_relation_char : ℕ → Bool
is_relation_char c = between b'a' b'z' c || eqb c b'_'

abbrev pub is_safe_tail : List ℕ → Bool
is_safe_tail [] = true
is_safe_tail (c ∷ cs) = (is_relation_char c || between b'0' b'9' c) && is_safe_tail cs

abbrev pub is_safe_type : List ℕ → Bool
is_safe_type [] = false
is_safe_type (c ∷ cs) = leb (length cs) 63 && (is_relation_char c && is_safe_tail cs)

-- Lower-case letters and underscores, and digits behind the first character; 64 at most. What
-- passes is ASCII, so its bytes are its characters.
unfoldable pub is_safe_relation_type : String → Bool
is_safe_relation_type value = is_safe_type (codes value)

abbrev pub or_default : String → String → String
or_default value fallback = if value == "" then fallback else value

abbrev pub keep_alive_seconds : ℕ
keep_alive_seconds = 172800

-- `entity_id` is umodelid.EndpointEntityID, the MD5 digest in hexadecimal.
module _ (entity_id : String → String) where
  unfoldable pub endpoint_element : Endpoint → ℤ → Element
  endpoint_element e at =
      ("__domain__", text "sre")
      ∷ ("__entity_type__", text "sre.service_endpoint")
      ∷ ("__entity_id__", text (entity_id e.endpoint_id))
      ∷ ("__method__", text "Update")
      ∷ ("__last_observed_time__", seconds at)
      ∷ ("__keep_alive_seconds__", seconds (pos keep_alive_seconds))
      ∷ ("endpoint_id", text e.endpoint_id)
      ∷ ("service_name", text e.service_name)
      ∷ ("service_url", text e.service_url)
      ∷ ("environment", text e.environment)
      ∷ ("instance_id", text e.instance_id)
      ∷ ("ecs_entity_id", text e.ecs_entity_id)
      ∷ ("region_id", text e.region_id)
      ∷ ("account_id", text e.account_id)
      ∷ []

  abbrev pub relation_ends : Endpoint → String → Element → Element
  relation_ends e type rest =
      ("__src_domain__", text "sre")
      ∷ ("__src_entity_type__", text "sre.service_endpoint")
      ∷ ("__src_entity_id__", text (entity_id e.endpoint_id))
      ∷ ("__dest_domain__", text "acs")
      ∷ ("__dest_entity_type__", text "acs.ecs.instance")
      ∷ ("__dest_entity_id__", text e.ecs_entity_id)
      ∷ ("__relation_type__", text type)
      ∷ rest

  unfoldable pub relation_element : Endpoint → String → ℤ → Element
  relation_element e type at = relation_ends e type (
      ("__method__", text "Update")
      ∷ ("__last_observed_time__", seconds at)
      ∷ ("__keep_alive_seconds__", seconds (pos keep_alive_seconds))
      ∷ [])

  unfoldable pub expire_element : Endpoint → String → ℤ → Element
  expire_element e type at =
      relation_ends e type
        (("__method__", text "Expire") ∷ ("__last_observed_time__", seconds at) ∷ [])

  -- The zero time is `none`.
  abbrev pub observed : Option ℤ → Result ℤ
  observed none = err (failure "observed time is required")
  observed (some at) = ok at

  unfoldable pub add_relation : Endpoint → Relation → ℤ → Result Plan
  unfolding endpoint_element relation_element is_safe_relation_type
  add_relation e r at =
      refuse_if (not (is_safe_relation_type r.type)) (failure "unsafe relation type")
      >> (refuse_if
            (not (or_default r.destination_domain "acs" == "acs")
              || not
                  (or_default r.destination_entity_type "acs.ecs.instance" == "acs.ecs.instance"))
            (failure "relation destination must be acs:acs.ecs.instance")
          >> ok (record { elements = endpoint_element e at ∷ relation_element e r.type at ∷ [] }))

  unfoldable pub build_plan : Endpoint → Relation → Option ℤ → Result Plan
  unfolding add_relation endpoint_element
  build_plan e r observed_at = do
    refuse_if (is_blank e.endpoint_id) (failure "endpoint_id is required")
    refuse_if (is_blank e.service_name) (failure "service_name is required")
    refuse_if (is_blank e.ecs_entity_id) (failure "ecs_entity_id is required")
    at ← observed observed_at
    (if is_blank r.type
        then ok (record { elements = endpoint_element e at ∷ [] })
        else add_relation e r at)

  unfoldable pub build_relation_expiration_plan : Endpoint → String → Option ℤ → Result Plan
  unfolding expire_element is_safe_relation_type
  build_relation_expiration_plan e type observed_at = do
    refuse_if (is_blank e.endpoint_id) (failure "endpoint_id is required")
    refuse_if (is_blank e.ecs_entity_id) (failure "ecs_entity_id is required")
    at ← observed observed_at
    refuse_if (not (is_safe_relation_type type)) (failure "unsafe relation type")
    ok (record { elements = expire_element e type at ∷ [] })

abbrev pub entity_log_store : String → String
entity_log_store workspace = workspace ++ "__entity"

abbrev pub topo_log_store : String → String
topo_log_store workspace = workspace ++ "__topo"
