-- ===== src/Wire/RoundTrip.antt =====
-- What was encoded decodes to the same value.
use aistudio2api.Prelude.{
  ℕ, zero, suc, ◌≤◌, ◌≡◌, refl, sym, ap, ◌∙◌, Bool, Option, some, Text, [], sort_stable, arith,
}
use aistudio2api.Wire.{Value, Values, Fields, no_values, value, no_fields, field}
use aistudio2api.Wire.Encode.{
  by_key, entries, wire_struct, encode_wire_value, encode_values, encode_fields, encode_wire_struct,
}
use aistudio2api.Wire.Decode.{
  ok, raw_array, raw_string, raw_at, raw_int64, parse_int, digits, raw_bool, variant_from,
  decode_entries, decode_wire_struct_object, decode_items, decode_variant, decode_wire_value,
  number_value, null_value,
}
use aistudio2api.Wire.Ordered.{
  IsOrdered, AllOrdered, AreOrdered, depth, depth_values, depth_fields, AllAbove, AllAbove-append,
  append_fields, append_fields_assoc, append_none, decode_entry-pair, list_field, none-AllAbove,
  set_field-Above, some_struct, sort_stable-encode_fields, struct_array, struct_field,
}

module _ (format : ℕ → Text) (parse : Text → Option ℕ)
    (reads : (x : ℕ) → parse (format x) ≡ some x) where
  abbrev Decodes : Value → Type 0
  Decodes v =
      IsOrdered v
      → (f : ℕ) → depth v ≤ f
      → decode_wire_value parse f (encode_wire_value format v) ≡ ok v

  abbrev DecodesItems : Values → Type 0
  DecodesItems vs =
      AllOrdered vs
      → (f : ℕ) → depth_values vs ≤ f
      → decode_items (decode_wire_value parse f) (encode_values format vs) ≡ ok vs

  abbrev DecodesFields : Fields → Type 0
  DecodesFields fs =
      AreOrdered fs
      → (f : ℕ) → depth_fields fs ≤ f
      → (acc : Fields) → AllAbove acc fs
      → decode_entries (decode_wire_value parse f) acc (entries (encode_fields format fs))
        ≡ ok (append_fields acc fs)

  number-Decodes :
      (x f : ℕ)
      → 1 ≤ f
      → decode_wire_value parse f (encode_wire_value format (Value.number x)) ≡ ok (Value.number x)
  unfolding decode_wire_value encode_wire_value raw_array raw_at variant_from decode_variant
      number_value
  number-Decodes x zero h = absurd (omega arith)
  number-Decodes x (suc f) h = rw (reads x) refl

  field-Decodes :
      (k : Text) (v : Value) (fs : Fields)
      → Decodes v
      → DecodesFields fs
      → DecodesFields (field k v fs)
  unfolding AllAbove entries encode_wire_value IsOrdered depth decode_entries
  field-Decodes k v fs ih ihs o f d acc h =
      let first =
        decode_entry-pair (decode_wire_value parse f) acc k v (encode_wire_value format v)
          (ih o.1.0 f (omega arith)) in
      let next =
        ihs o.1.1 f (omega arith) (append_fields acc (field k v no_fields))
          (AllAbove-append acc k v fs o.0 h.1) in
      rw (first, set_field-Above k v acc h.0) (next ∙ ap ok (append_fields_assoc acc k v fs))

  null-Decodes :
      (f : ℕ)
      → 1 ≤ f
      → decode_wire_value parse f (encode_wire_value format Value.null) ≡ ok Value.null
  unfolding decode_wire_value encode_wire_value raw_array raw_at variant_from decode_variant
      null_value raw_int64 parse_int digits
  null-Decodes zero h = absurd (omega arith)
  null-Decodes (suc f) h = refl

  text-Decodes :
      (s : Text) (f : ℕ)
      → 1 ≤ f
      → decode_wire_value parse f (encode_wire_value format (Value.text s)) ≡ ok (Value.text s)
  unfolding decode_wire_value encode_wire_value raw_array raw_at variant_from decode_variant
      raw_string
  text-Decodes s zero h = absurd (omega arith)
  text-Decodes s (suc f) h = refl

  bool-Decodes :
      (b : Bool) (f : ℕ)
      → 1 ≤ f
      → decode_wire_value parse f (encode_wire_value format (Value.bool b)) ≡ ok (Value.bool b)
  unfolding decode_wire_value encode_wire_value raw_array raw_at variant_from decode_variant
      raw_bool
  bool-Decodes b zero h = absurd (omega arith)
  bool-Decodes b (suc f) h = refl

  list-Decodes : (vs : Values) → DecodesItems vs → Decodes (Value.list vs)
  unfolding encode_wire_value IsOrdered depth
  list-Decodes vs ih o zero d = absurd (omega arith)
  list-Decodes vs ih o (suc f) d =
      list_field parse f (encode_values format vs) ∙ rw (ih o f (omega arith)) refl

  empty_struct :
      (f : ℕ)
      → decode_wire_struct_object (decode_wire_value parse f) (wire_struct []) ≡ ok no_fields
  unfolding decode_wire_struct_object wire_struct raw_array raw_at
  empty_struct f = refl

  struct-Decodes :
      (fs : Fields)
      → DecodesFields fs
      → AreOrdered fs
      → (f : ℕ) → depth_fields fs ≤ f
      → decode_wire_struct_object (decode_wire_value parse f) (encode_wire_struct format fs) ≡ ok fs
  unfolding encode_wire_struct wire_struct encode_wire_value AllAbove append_fields
  struct-Decodes no_fields ih o f d = empty_struct f
  struct-Decodes (field k v fs) ih o f d =
      some_struct (decode_wire_value parse f)
        (entries (sort_stable by_key (encode_fields format (field k v fs))))
      ∙ ap (λ es. decode_entries (decode_wire_value parse f) no_fields (entries es))
          (sort_stable-encode_fields format (field k v fs) o)
      ∙ ih o f d no_fields (none-AllAbove (field k v fs))

  object-Decodes : (fs : Fields) → DecodesFields fs → Decodes (Value.object fs)
  unfolding encode_wire_value IsOrdered depth encode_wire_struct
  object-Decodes fs ih o zero d = absurd (omega arith)
  object-Decodes fs ih o (suc f) d =
      let (js, e) = struct_array (encode_fields format fs) in
      let inner = struct-Decodes fs ih o f (omega arith) in
      rw (e, struct_field parse f js, ← e, inner) refl

  value-Decodes : (v : Value) → Decodes v
  unfolding IsOrdered depth encode_wire_value decode_items entries decode_entries append_fields
  value-Decodes v = elim v as Decodes DecodesItems DecodesFields [
    | Value.null ↦ λ o f d. null-Decodes f d
    | Value.number x ↦ λ o f d. number-Decodes x f d
    | Value.text s ↦ λ o f d. text-Decodes s f d
    | Value.bool b ↦ λ o f d. bool-Decodes b f d
    | Value.object (fs → ih) ↦ object-Decodes fs ih
    | Value.list (vs → ih) ↦ list-Decodes vs ih
    | no_values ↦ λ o f d. refl
    | value (w → ih) (vs → ihs) ↦ λ o f d. rw (ih o.0 f (omega arith), ihs o.1 f (omega arith)) refl
    | no_fields ↦ λ o f d acc a. ap ok (sym (append_none acc))
    | field k (w → ih) (fs → ihs) ↦ field-Decodes k w fs ih ihs
  ]

  -- A value whose maps list each key once, in order, is decoded from its encoding just as it was, with
  -- fuel for its depth, where encoding/json reads the numbers that it prints.
  pub decode_wire_value-encode_wire_value :
      (v : Value)
      → IsOrdered v
      → (f : ℕ) → depth v ≤ f
      → decode_wire_value parse f (encode_wire_value format v) ≡ ok v
  decode_wire_value-encode_wire_value v = value-Decodes v
