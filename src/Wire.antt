-- ===== src/Wire.antt =====
-- The Struct and Value of function calls on the wire: internal/aistudio/tools.go, with the raw
-- accessors of decoder.go. A raw message is its JSON value. A number on the wire is its literal; a
-- float64 is its bit pattern, and how encoding/json prints and reads one is an argument.
pub mod Encode
pub mod Decode
pub mod Ordered
pub mod RoundTrip
pub mod Fuel
pub mod Depth
mod Tests
use aistudio2api.Prelude.{ℕ, Bool, Text, List, ◌∷◌, []}

-- What an object on the wire holds is never looked at.
mutual
  pub data Json : Type 0 where
    null object : Json
    number text : Text → Json
    bool : Bool → Json
    array : Jsons → Json

  pub data Jsons : Type 0 where
    no_jsons : Jsons
    json : Json → Jsons → Jsons

-- A value as json.Unmarshal gives it into an `any`. A map is the list of its entries.
mutual
  pub data Value : Type 0 where
    null : Value
    number : ℕ → Value
    text : Text → Value
    bool : Bool → Value
    object : Fields → Value
    list : Values → Value

  pub data Values : Type 0 where
    no_values : Values
    value : Value → Values → Values

  pub data Fields : Type 0 where
    no_fields : Fields
    field : Text → Value → Fields → Fields

abbrev pub jsons : List Json → Jsons
jsons [] = no_jsons
jsons (j ∷ js) = json j (jsons js)
