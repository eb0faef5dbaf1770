-- ===== src/Wire/Decode.antt =====
-- `decodeWireValue`, `decodeWireStructObject` and `decodeWireList`. The path in an error is left out.
use aistudio2api.Prelude.{
  ℕ, zero, suc, ◌+◌, ◌*◌, ◌-◌, ◌^◌, Bool, true, false, not, ◌&&◌, ◌||◌, if◌then◌else◌, ◌==◌, leb,
  Option, none, some, Text, codes, str_eq, str_lt, is_empty, ◌∷◌, [],
}
use aistudio2api.Wire.{
  Json, Jsons, no_jsons, json, Value, Values, Fields, no_values, value, no_fields, field,
}

pub data WireError : Type 0 where
  expected_array expected_string expected_integer expected_boolean : WireError
  bad_entry multiple_oneof missing_oneof bad_null bad_number too_deep : WireError

pub data Result (A : Type 0) : Type 0 where
  ok : A → Result A
  err : WireError → Result A

infixl 5 ◌>>=◌
abbrev pub ◌>>=◌ : {A B : Type 0} → Result A → (A → Result B) → Result B
ok a >>= f = f a
err e >>= f = err e

-- json.Decoder leaves the nil slice at null.
unfoldable pub raw_array : Json → Result Jsons
raw_array (Json.array js) = ok js
raw_array Json.null = ok no_jsons
raw_array _ = err expected_array

unfoldable pub raw_string : Json → Result Text
raw_string (Json.text s) = ok s
raw_string Json.null = ok []
raw_string _ = err expected_string

unfoldable pub digits : ℕ → Text → Option ℕ
digits n [] = some n
digits n (c ∷ cs) = if leb 48 c && leb c 57 then digits (n * 10 + (c - 48)) cs else none

-- strconv.ParseInt, as the sign and the size of the number; `none` out of the range of int64.
unfoldable pub parse_int : Text → Option (Bool × ℕ)
unfolding digits
parse_int [] = none
parse_int (c ∷ cs) =
    let minus = c == 45 in
    let body = if minus || c == 43 then cs else c ∷ cs in
    if is_empty body then none else (elim (digits 0 body) [
      | none ↦ none
      | some n ↦ if leb n (if minus then 2 ^ 63 else 2 ^ 63 - 1) then some (minus, n) else none
    ])

-- What a JSON number without fraction and exponent may begin with; `parse_int` reads the rest.
unfoldable pub is_integer_start : Text → Bool
is_integer_start [] = false
is_integer_start (c ∷ cs) = (leb 49 c && leb c 57) || (c == 48 && is_empty cs)

unfoldable pub is_number_text : Text → Bool
unfolding is_integer_start
is_number_text [] = false
is_number_text (c ∷ cs) = if c == 45 then is_integer_start cs else is_integer_start (c ∷ cs)

abbrev pub integer : Text → Result (Bool × ℕ)
integer s = elim (parse_int s) [ none ↦ err expected_integer | some n ↦ ok n ]

-- json.Number of null is the empty text, which is no integer; a text that reads as a JSON number is one.
unfoldable pub raw_int64 : Json → Result (Bool × ℕ)
unfolding parse_int is_number_text
raw_int64 (Json.number s) = integer s
raw_int64 (Json.text s) = if is_number_text s then integer s else err expected_integer
raw_int64 _ = err expected_integer

unfoldable pub raw_bool : Json → Result Bool
raw_bool (Json.bool b) = ok b
raw_bool Json.null = ok false
raw_bool (Json.number s) =
    if str_eq s (codes "1")
    then ok true
    else if str_eq s (codes "0")
    then ok false
    else err expected_boolean
raw_bool _ = err expected_boolean

-- rawAt; the nil message behind the end counts as null.
unfoldable pub raw_at : Jsons → ℕ → Json
raw_at no_jsons i = Json.null
raw_at (json j js) zero = j
raw_at (json j js) (suc i) = raw_at js i

abbrev pub is_json_null : Json → Bool
is_json_null Json.null = true
is_json_null _ = false

unfoldable pub count : Jsons → ℕ
count no_jsons = 0
count (json j js) = suc (count js)

-- The loop for the one field that is set, from an index on, with `left` rounds to go.
unfoldable pub variant_from : Jsons → ℕ → ℕ → Option ℕ → Result (Option ℕ)
variant_from fields index zero variant = ok variant
variant_from fields index (suc left) variant =
    if is_json_null (raw_at fields index)
    then variant_from fields (suc index) left variant
    else (elim variant [
      | some first ↦ err multiple_oneof
      | none ↦ variant_from fields (suc index) left (some index)
    ])

-- object[key] = value, the entries being in the order of the keys.
unfoldable pub set_field : Text → Value → Fields → Fields
set_field key v no_fields = field key v no_fields
set_field key v (field k w fs) =
    if str_eq k key
    then field key v fs
    else if str_lt key k
    then field key v (field k w fs)
    else field k w (set_field key v fs)

-- json.Unmarshal into a float64.
unfoldable pub number_value : (Text → Option ℕ) → Json → Result Value
number_value parse (Json.number s) = elim (parse s) [
  | none ↦ err bad_number
  | some x ↦ ok (Value.number x)
]
number_value parse _ = err bad_number

unfoldable pub null_value : Json → Result Value
null_value raw = elim (raw_int64 raw) [
  | err e ↦ err bad_null
  | ok (minus, n) ↦ if n == 0 then ok Value.null else err bad_null
]

module _ (decode : Json → Result Value) where
  unfoldable pub decode_entry : Fields → Json → Result Fields
  unfolding raw_array raw_string raw_at count set_field
  decode_entry object raw = raw_array raw >>= λ entry.
      if not (count entry == 2)
      then err bad_entry
      else raw_string (raw_at entry 0) >>= λ key.
          decode (raw_at entry 1) >>= λ v. ok (set_field key v object)

  unfoldable pub decode_entries : Fields → Jsons → Result Fields
  unfolding decode_entry
  decode_entries object no_jsons = ok object
  decode_entries object (json raw rest) =
      decode_entry object raw >>= λ next. decode_entries next rest

  unfoldable pub decode_wire_struct_object : Json → Result Fields
  unfolding decode_entries raw_array raw_at
  decode_wire_struct_object raw = raw_array raw >>= λ fields.
      if is_json_null (raw_at fields 0)
      then ok no_fields
      else raw_array (raw_at fields 0) >>= λ entries. decode_entries no_fields entries

  unfoldable pub decode_items : Jsons → Result Values
  decode_items no_jsons = ok no_values
  decode_items (json raw rest) = decode raw >>= λ v. decode_items rest >>= λ vs. ok (value v vs)

  unfoldable pub decode_wire_list : Json → Result Values
  unfolding decode_items raw_array raw_at
  decode_wire_list raw = raw_array raw >>= λ fields.
      if is_json_null (raw_at fields 0)
      then ok no_values
      else raw_array (raw_at fields 0) >>= λ items. decode_items items

  module _ (parse : Text → Option ℕ) where
    unfoldable pub decode_variant : Jsons → ℕ → Result Value
    unfolding number_value null_value raw_at raw_int64 raw_bool raw_string decode_wire_struct_object
        decode_wire_list
    decode_variant fields i =
        if i == 0
        then null_value (raw_at fields 0)
        else if i == 1
        then number_value parse (raw_at fields 1)
        else if i == 2
        then (raw_string (raw_at fields 2) >>= λ s. ok (Value.text s))
        else if i == 3
        then (raw_bool (raw_at fields 3) >>= λ b. ok (Value.bool b))
        else if i == 4
        then (decode_wire_struct_object (raw_at fields 4) >>= λ fs. ok (Value.object fs))
        else (decode_wire_list (raw_at fields 5) >>= λ vs. ok (Value.list vs))

-- The recursion runs on fuel, which bounds the depth.
unfoldable pub decode_wire_value : (Text → Option ℕ) → ℕ → Json → Result Value
unfolding decode_variant variant_from raw_array
decode_wire_value parse zero raw = err too_deep
decode_wire_value parse (suc fuel) raw = raw_array raw >>= λ fields.
    variant_from fields 0 6 none >>= λ variant. elim variant [
      | none ↦ err missing_oneof
      | some i ↦ decode_variant (decode_wire_value parse fuel) parse fields i
    ]
