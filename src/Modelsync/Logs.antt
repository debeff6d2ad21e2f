-- ===== src/Modelsync/Logs.antt =====
-- internal/modelsync/writer.go: the groups of the log protocol that a batch is sent as.
use umodel_sre_rca.Common.{◌%◌, ◌-◌, List, String, [], if◌then◌else◌, ℕ, ◌∷◌}
use umodel_sre_rca.Modelsync.{Element, Value}
use umodel_sre_rca.Provider.Client.{entry}
use umodel_sre_rca.Json.{fields}
use umodel_sre_rca.Common.Int.{negsuc, pos, ℤ}
use umodel_sre_rca.Store.Intake.{text_lt}

-- An element's fields in the order of their names. Insertion sort stands for sort.Strings: the keys
-- of a map are distinct.
unfoldable pub insert_field : String × Value → Element → Element
insert_field (k, v) [] = (k, v) ∷ []
insert_field (k, v) ((name, value) ∷ fields) =
    let rest = insert_field (k, v) fields in
    if text_lt name k then (name, value) ∷ rest else (k, v) ∷ (name, value) ∷ fields

unfoldable pub sort_fields : Element → Element
unfolding insert_field
sort_fields [] = []
sort_fields (entry ∷ fields) = insert_field entry (sort_fields fields)

-- uint32(t.Unix())
abbrev pub to_uint32 : ℤ → ℕ
to_uint32 (pos n) = n % 4294967296
to_uint32 (negsuc n) = 4294967295 - n % 4294967296

pub record Log : Type 0 where
  pub time : ℕ
  pub contents : List (String × String)

pub record LogGroup : Type 0 where
  pub topic : String
  pub source : String
  pub logs : List Log

-- `decimal` is fmt.Sprint of an int64. A value here is never nil.
module _ (decimal : ℤ → String) (observed_at : ℤ) where
  abbrev pub sprint : Value → String
  sprint (Value.text s) = s
  sprint (Value.seconds n) = decimal n

  unfoldable pub contents_of : Element → List (String × String)
  contents_of [] = []
  contents_of ((k, v) ∷ fields) = (k, sprint v) ∷ contents_of fields

  unfoldable pub build_entity_store_log : Element → Log
  unfolding contents_of sort_fields
  build_entity_store_log element = record {
    time = to_uint32 observed_at;
    contents = contents_of (sort_fields element);
  }

  unfoldable pub build_logs : List Element → List Log
  unfolding build_entity_store_log
  build_logs [] = []
  build_logs (element ∷ elements) = build_entity_store_log element ∷ build_logs elements

  unfoldable pub new_entity_store_log_group : List Element → LogGroup
  unfolding build_logs
  new_entity_store_log_group elements = record {
    topic = "umodel-entity-store";
    source = "sre-sync";
    logs = build_logs elements;
  }
