-- ===== src/Wire/Tests.antt =====
-- The theorems on the wire at concrete inputs.
use aistudio2api.Prelude.{
  ℕ, zero, suc, ◌≡◌, ◌≢◌, refl, ap, arith, true, Option, some, ◌∷◌, [], length, Text, codes, str_lt,
}
use aistudio2api.Wire.{Json, jsons, Value, no_values, value, no_fields, field}
use aistudio2api.Wire.Encode.{encode_wire_value}
use aistudio2api.Wire.Decode.{decode_wire_value, ok, err, too_deep}
use aistudio2api.Wire.Ordered.{IsOrdered, depth}
use aistudio2api.Wire.RoundTrip.{decode_wire_value-encode_wire_value}
use aistudio2api.Wire.Fuel.{depth_of}
use aistudio2api.Wire.Depth.{decode_wire_value_enough}

-- Numbers are printed as so many ones here.
print_bits : ℕ → Text
print_bits zero = []
print_bits (suc n) = 49 ∷ print_bits n

read_bits : Text → Option ℕ
read_bits s = some (length s)

length-print_bits : (n : ℕ) → length (print_bits n) ≡ n
unfolding print_bits
length-print_bits zero = refl
length-print_bits (suc n) = omega (arith, length-print_bits n)

reads : (n : ℕ) → read_bits (print_bits n) ≡ some n
unfolding read_bits
reads n = ap some (length-print_bits n)

abbrev nested : Value
nested = Value.object (
    field (codes "a") (Value.list (value (Value.number 3) (value Value.null no_values)))
      (field (codes "b") (Value.bool true) no_fields))

decode_wire_value-encode_wire_value_example :
    decode_wire_value read_bits 3 (encode_wire_value print_bits nested) ≡ ok nested
unfolding IsOrdered depth str_lt
decode_wire_value-encode_wire_value_example =
    decode_wire_value-encode_wire_value print_bits read_bits reads nested
      ((refl, tt), ((tt, (tt, tt)), (tt, (tt, tt)))) 3 (omega arith)

abbrev message : Json
message = Json.array (jsons (Json.null ∷ Json.number (codes "7") ∷ []))

decode_wire_value_enough_example :
    (decode_wire_value read_bits 3 message ≡ decode_wire_value read_bits 9 message)
    × (decode_wire_value read_bits 3 message ≢ err too_deep)
unfolding depth_of
decode_wire_value_enough_example =
    decode_wire_value_enough read_bits 3 9 message (omega arith) (omega arith)
