-- ===== src/Modelsync/Inspect.antt =====
-- internal/modelsync/writer.go: the inspections, which only read.
use umodel_sre_rca.Common.{
  Result, err, ◌==◌, ◌>>=◌, ◌>>◌, ◌&&◌, Bool, List, Option, [], eqb, failure, false, length, none,
  not, refuse_if, some, ◌||◌, ℕ, ◌∷◌,
}
use Prim.Native.String.{String, ◌++◌}
use umodel_sre_rca.Common.Int.{ℤ}
use umodel_sre_rca.Analysis.{codes, between, all_of}
use umodel_sre_rca.Modelsync.{Element, Endpoint, Relation, Value, build_plan}
use umodel_sre_rca.Modelsync.Writer.{field}
use umodel_sre_rca.Modelsync.Sync.{Cms, build_get_entity_store_data_request_with_query}
use umodel_sre_rca.Provider.Client.{OpenApiRequest, Params}

abbrev pub is_hex : ℕ → Bool
is_hex c = between b'a' b'f' c || (between b'A' b'F' c || between b'0' b'9' c)

-- ^[a-fA-F0-9]{32}$
unfoldable pub is_entity_id : String → Bool
is_entity_id id = eqb (length (codes id)) 32 && all_of is_hex (codes id)

abbrev pub is_sre_alone : List String → Bool
is_sre_alone (d ∷ []) = d == "sre"
is_sre_alone ds = false

-- fmt.Sprint of a field; `decimal` prints a number.
abbrev pub sprint : (ℤ → String) → Option Value → String
sprint decimal none = "<nil>"
sprint decimal (some (Value.text s)) = s
sprint decimal (some (Value.seconds n)) = decimal n

module _ (cms : Cms) (decimal : ℤ → String) where
  unfoldable pub build_get_entity_store_data_request :
      String → String → String → Result (Params × OpenApiRequest)
  build_get_entity_store_data_request workspace domain entity_type =
      refuse_if (not (domain == "sre") || not (entity_type == "sre.service_endpoint"))
        (failure "unsupported EntityStore inspection target")
      >> build_get_entity_store_data_request_with_query cms workspace
          (".entity with(domain='" ++ domain ++ "', type='" ++ entity_type ++ "') | limit 0, 10")

  unfoldable pub inspect_schema : String → List String → Result String
  inspect_schema workspace domains = do
    refuse_if (not (is_sre_alone domains)) (failure "only the sre domain can be inspected")
    built ← build_get_entity_store_data_request workspace "sre" "sre.service_endpoint"
    cms.call_api built.0 built.1

  abbrev pub printed : Element → String → String
  printed element name = sprint decimal (field element name)

  unfoldable pub relation_query : Element → String
  relation_query r =
      ".topo | graph-call getNeighborNodes('sequence_out', 1, [(:\""
      ++ printed r "__src_domain__"
      ++ "@"
      ++ printed r "__src_entity_type__"
      ++ "\" {__entity_id__: '"
      ++ printed r "__src_entity_id__"
      ++ "'})]) | where relationType = '"
      ++ printed r "__relation_type__"
      ++ "' | extend dest_id = json_extract_scalar(destNode, '$.properties.__entity_id__') | where dest_id = '"
      ++ printed r "__dest_entity_id__"
      ++ "'"

  -- A plan with a relation has two elements, the relation second.
  abbrev pub relation_request : String → List Element → Result (Params × OpenApiRequest)
  relation_request workspace (e ∷ r ∷ []) =
      refuse_if
        (not (is_entity_id (printed r "__src_entity_id__"))
          || not (is_entity_id (printed r "__dest_entity_id__")))
        (failure "relation inspection requires 128-bit hexadecimal entity IDs")
      >> build_get_entity_store_data_request_with_query cms workspace (relation_query r)
  relation_request workspace elements =
      err (failure "relation inspection requires a configured relation")

  unfoldable pub build_get_entity_store_relation_request :
      String → Endpoint → Relation → Result (Params × OpenApiRequest)
  build_get_entity_store_relation_request workspace endpoint relation = do
    plan ← build_plan cms.entity_id endpoint relation (some cms.now)
    relation_request workspace plan.elements

  unfoldable pub inspect_relation : String → Endpoint → Relation → Result String
  inspect_relation workspace endpoint relation = do
    built ← build_get_entity_store_relation_request workspace endpoint relation
    cms.call_api built.0 built.1
