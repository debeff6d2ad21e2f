-- ===== src/Json.antt =====
-- encoding/json's values, as far as the program builds them or walks over them. An object is the
-- list of its fields, each key once; a number is kept as it is written (json.Number).
use umodel_sre_rca.Common.{String, Bool, List, [], ◌∷◌}

mutual
  pub data Json : Type 0 where
    null : Json
    number : String → Json
    truth : Bool → Json
    text : String → Json
    array : Items → Json
    object : Fields → Json

  pub data Items : Type 0 where
    no_items : Items
    item : Json → Items → Items

  pub data Fields : Type 0 where
    no_fields : Fields
    field : String → Json → Fields → Fields

abbrev pub items : List Json → Items
items [] = Items.no_items
items (v ∷ vs) = Items.item v (items vs)

abbrev pub fields : List (String × Json) → Fields
fields [] = Fields.no_fields
fields ((k, v) ∷ rest) = Fields.field k v (fields rest)
