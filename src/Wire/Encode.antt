-- ===== src/Wire/Encode.antt =====
-- `encodeWireValue` and `encodeWireStruct`.
use aistudio2api.Prelude.{ℕ, Bool, Text, codes, List, ◌∷◌, [], str_lt, sort_stable}
use aistudio2api.Wire.{
  Json, Jsons, no_jsons, json, jsons, Value, Values, Fields, no_values, value, no_fields, field,
}

abbrev pub by_key : Text × Json → Text × Json → Bool
by_key left right = str_lt left.0 right.0

-- The entries in the order of their keys.
unfoldable pub entries : List (Text × Json) → Jsons
entries [] = no_jsons
entries ((key, v) ∷ rest) = json (Json.array (jsons (Json.text key ∷ v ∷ []))) (entries rest)

unfoldable pub wire_struct : List (Text × Json) → Json
unfolding entries sort_stable
wire_struct [] = Json.array no_jsons
wire_struct (e ∷ es) = Json.array (jsons (Json.array (entries (sort_stable by_key (e ∷ es))) ∷ []))

module _ (format : ℕ → Text) where
  unfoldable mutual
    unfolding wire_struct

    pub encode_wire_value : Value → Json
    encode_wire_value Value.null = Json.array (jsons (Json.number (codes "0") ∷ []))
    encode_wire_value (Value.number x) =
        Json.array (jsons (Json.null ∷ Json.number (format x) ∷ []))
    encode_wire_value (Value.text s) = Json.array (jsons (Json.null ∷ Json.null ∷ Json.text s ∷ []))
    encode_wire_value (Value.bool b) =
        Json.array (jsons (Json.null ∷ Json.null ∷ Json.null ∷ Json.bool b ∷ []))
    encode_wire_value (Value.object fields) = Json.array (
        jsons
          (Json.null ∷ Json.null ∷ Json.null ∷ Json.null ∷ wire_struct (encode_fields fields) ∷ []))
    encode_wire_value (Value.list values) = Json.array (
        jsons (
          Json.null
          ∷ Json.null
          ∷ Json.null
          ∷ Json.null
          ∷ Json.null
          ∷ Json.array (jsons (Json.array (encode_values values) ∷ []))
          ∷ []))

    pub encode_values : Values → Jsons
    encode_values no_values = no_jsons
    encode_values (value v vs) = json (encode_wire_value v) (encode_values vs)

    pub encode_fields : Fields → List (Text × Json)
    encode_fields no_fields = []
    encode_fields (field key v fs) = (key, encode_wire_value v) ∷ encode_fields fs

  unfoldable pub encode_wire_struct : Fields → Json
  encode_wire_struct fields = wire_struct (encode_fields fields)
