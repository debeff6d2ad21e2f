-- ===== src/Modelsync/Writer.antt =====
-- internal/modelsync/writer.go and writes.go: the batches that a plan is written in, and the checks
-- on them.
use umodel_sre_rca.Common.{
  Result, ok, ◌==◌, ◌>>=◌, ◌>>◌, ◌++◌, ◌&&◌, Bool, List, Option, String, [], eqb, failure, false,
  if◌then◌else◌, leb, length, none, not, refuse_if, some, true, ◌||◌, ℕ, ◌∷◌,
}
use umodel_sre_rca.Analysis.{codes, between}
use umodel_sre_rca.Modelsync.{Element, Value, Plan, entity_log_store, topo_log_store}

unfoldable pub field : Element → String → Option Value
field [] name = none
field ((k, v) ∷ entries) name = if k == name then some v else field entries name

abbrev pub is_present : Option Value → Bool
is_present none = false
is_present (some v) = true

abbrev pub is_relation_element : Element → Bool
is_relation_element element = is_present (field element "__src_domain__")

-- `!ok || fmt.Sprint(value) == ""`; a number is never printed as the empty text.
abbrev pub is_missing : Option Value → Bool
is_missing none = true
is_missing (some (Value.text s)) = s == ""
is_missing (some (Value.seconds n)) = false

unfoldable pub require_fields : List String → Element → Result (Unit {0})
unfolding field
require_fields [] element = ok tt
require_fields (name ∷ names) element =
    refuse_if (is_missing (field element name)) (failure "missing required EntityStore field")
    >> require_fields names element

unfoldable pub validate_entity_element : Element → Result (Unit {0})
unfolding require_fields
validate_entity_element =
    require_fields
      ("__domain__" ∷ "__entity_type__" ∷ "__entity_id__" ∷ "__last_observed_time__" ∷ [])

unfoldable pub validate_relation_element : Element → Result (Unit {0})
unfolding require_fields
validate_relation_element = require_fields (
    "__src_domain__" ∷ "__src_entity_type__" ∷ "__src_entity_id__" ∷ "__dest_domain__"
    ∷ "__dest_entity_type__" ∷ "__dest_entity_id__" ∷ "__relation_type__" ∷ [])

-- The entities and the relations of a plan, each in order.
unfoldable pub split_elements : List Element → List Element × List Element
unfolding field
split_elements [] = ([], [])
split_elements (element ∷ rest) =
    let parts = split_elements rest in
    if is_relation_element element
    then (parts.0, element ∷ parts.1)
    else (element ∷ parts.0, parts.1)

-- The checks of `buildEntityStoreLogGroup` and `buildEntityStoreRelationLogGroup`, element by
-- element.
unfoldable pub check_entities : List Element → Result (Unit {0})
unfolding validate_entity_element field
check_entities [] = ok tt
check_entities (element ∷ rest) =
    refuse_if (is_relation_element element)
      (failure "EntityStore entity writer only accepts entities")
    >> (validate_entity_element element >> check_entities rest)

unfoldable pub check_relations : List Element → Result (Unit {0})
unfolding validate_relation_element field
check_relations [] = ok tt
check_relations (element ∷ rest) =
    refuse_if (not (is_relation_element element))
      (failure "EntityStore relation writer only accepts relations")
    >> (validate_relation_element element >> check_relations rest)

-- One batch: the logstore and the elements in it. Logs has the log group that they are sent as.
pub record EntityStoreWrite : Type 0 where
  pub logstore : String
  pub group : List Element

abbrev pub is_workspace_start : ℕ → Bool
is_workspace_start c = between b'a' b'z' c || (between b'A' b'Z' c || between b'0' b'9' c)

abbrev pub is_workspace_tail : List ℕ → Bool
is_workspace_tail [] = true
is_workspace_tail (c ∷ cs) =
    (is_workspace_start c || (eqb c b'_' || eqb c b'-')) && is_workspace_tail cs

abbrev pub is_workspace_name : List ℕ → Bool
is_workspace_name [] = false
is_workspace_name (c ∷ cs) = is_workspace_start c && (is_workspace_tail cs && leb (length cs) 127)

-- ^[a-zA-Z0-9][a-zA-Z0-9_-]{0,127}$
unfoldable pub is_workspace : String → Bool
is_workspace name = is_workspace_name (codes name)

abbrev pub entity_writes : String → List Element → Result (List EntityStoreWrite)
entity_writes workspace [] = ok []
entity_writes workspace (e ∷ es) =
    check_entities (e ∷ es)
    >> ok (record { logstore = entity_log_store workspace; group = e ∷ es } ∷ [])

abbrev pub relation_writes : String → List Element → Result (List EntityStoreWrite)
relation_writes workspace [] = ok []
relation_writes workspace (e ∷ es) =
    check_relations (e ∷ es)
    >> ok (record { logstore = topo_log_store workspace; group = e ∷ es } ∷ [])

-- The time of writing is `time.Now()`, which is never zero.
unfoldable pub build_entity_store_writes : String → Plan → Result (List EntityStoreWrite)
unfolding is_workspace check_entities check_relations split_elements
build_entity_store_writes workspace plan = do
  refuse_if (not (is_workspace workspace)) (failure "unsafe workspace name")
  let parts = split_elements plan.elements
  entities ← entity_writes workspace parts.0
  relations ← relation_writes workspace parts.1
  ok (entities ++ relations)
