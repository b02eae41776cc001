-- ===== src/Caddy/Json.antt =====
-- `serde_json::Value`, as far as the configuration uses it; a number is its text. The fields of an
-- object stand in the order of its map.
use cadder.Base.{String, Bool, Option, none, some, List, [], ◌∷◌}

mutual
  pub data Value : Type 0 where
    null : Value
    bool : Bool → Value
    number : String → Value
    string : String → Value
    array : Items → Value
    object : Fields → Value

  pub data Items : Type 0 where
    nil : Items
    cons : Value → Items → Items

  pub data Fields : Type 0 where
    end : Fields
    field : String → Value → Fields → Fields

abbrev pub as_str : Value → Option String
as_str (string s) = some s
as_str _ = none

-- `json!([..])` and the list of an array.
abbrev pub from_list : List Value → Items
from_list [] = nil
from_list (v ∷ vs) = cons v (from_list vs)

abbrev pub to_list : Items → List Value
to_list nil = []
to_list (cons v vs) = v ∷ to_list vs
