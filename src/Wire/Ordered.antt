-- ===== src/Wire/Ordered.antt =====
-- Values whose maps are in the order of their keys, and what decoding keeps of that order.
use aistudio2api.Prelude.{
  ℕ, suc, ◌≡◌, refl, ap, ◌∙◌, true, max, Option, Text, str_lt, str_eq_iff, str_lt_asym, List, ◌∷◌,
  [], sort_stable, insert_sorted, arith,
}
use aistudio2api.Wire.{
  Json, Jsons, no_jsons, jsons, Value, Values, Fields, no_values, value, no_fields, field,
}
use aistudio2api.Wire.Encode.{by_key, wire_struct, encode_wire_value, encode_fields}
use aistudio2api.Wire.Decode.{
  Result, ok, ◌>>=◌, raw_array, raw_string, raw_at, count, variant_from, set_field, decode_entry,
  decode_entries, decode_wire_struct_object, decode_items, decode_wire_list, decode_variant,
  decode_wire_value,
}

-- Every key of the entries is greater.
abbrev pub Below : Text → Fields → Type 0
Below key no_fields = Unit
Below key (field k v fs) = (str_lt key k ≡ true) × Below key fs

-- The maps in a value list their entries in the order of their keys, each key once.
unfoldable mutual
  pub IsOrdered : Value → Type 0
  IsOrdered Value.null = Unit
  IsOrdered (Value.number x) = Unit
  IsOrdered (Value.text s) = Unit
  IsOrdered (Value.bool b) = Unit
  IsOrdered (Value.object fields) = AreOrdered fields
  IsOrdered (Value.list values) = AllOrdered values

  pub AllOrdered : Values → Type 0
  AllOrdered no_values = Unit
  AllOrdered (value v vs) = IsOrdered v × AllOrdered vs

  pub AreOrdered : Fields → Type 0
  AreOrdered no_fields = Unit
  AreOrdered (field k v fs) = Below k fs × (IsOrdered v × AreOrdered fs)

unfoldable mutual
  pub depth : Value → ℕ
  depth Value.null = 1
  depth (Value.number x) = 1
  depth (Value.text s) = 1
  depth (Value.bool b) = 1
  depth (Value.object fields) = suc (depth_fields fields)
  depth (Value.list values) = suc (depth_values values)

  pub depth_values : Values → ℕ
  depth_values no_values = 0
  depth_values (value v vs) = max (depth v) (depth_values vs)

  pub depth_fields : Fields → ℕ
  depth_fields no_fields = 0
  depth_fields (field k v fs) = max (depth v) (depth_fields fs)

unfoldable pub append_fields : Fields → Fields → Fields
append_fields no_fields gs = gs
append_fields (field k v fs) gs = field k v (append_fields fs gs)

-- Every key of the entries is smaller.
abbrev Above : Text → Fields → Type 0
Above key no_fields = Unit
Above key (field k v fs) = (str_lt k key ≡ true) × Above key fs

pub set_field-Above :
    (key : Text) (v : Value) (fs : Fields)
    → Above key fs
    → set_field key v fs ≡ append_fields fs (field key v no_fields)
unfolding set_field append_fields
set_field-Above key v no_fields h = refl
set_field-Above key v (field k w fs) h =
    ground (arith, set_field-Above key v fs h.1, str_lt_asym k key h.0, str_eq_iff k key, h.0)

insert_sorted-Below :
    (format : ℕ → Text) (k : Text) (j : Json) (fs : Fields)
    → Below k fs
    → insert_sorted by_key (k, j) (encode_fields format fs) ≡ (k, j) ∷ encode_fields format fs
unfolding insert_sorted encode_wire_value
insert_sorted-Below format k j no_fields h = refl
insert_sorted-Below format k j (field l v fs) h = rw (str_lt_asym k l h.0) refl

pub sort_stable-encode_fields :
    (format : ℕ → Text) (fs : Fields)
    → AreOrdered fs
    → sort_stable by_key (encode_fields format fs) ≡ encode_fields format fs
unfolding sort_stable encode_wire_value IsOrdered
sort_stable-encode_fields format no_fields h = refl
sort_stable-encode_fields format (field k v fs) h =
    ap (insert_sorted by_key (k, encode_wire_value format v))
      (sort_stable-encode_fields format fs h.1.1)
    ∙ insert_sorted-Below format k (encode_wire_value format v) fs h.0

-- Every key of the first is smaller than every key of the second.
unfoldable pub AllAbove : Fields → Fields → Type 0
AllAbove acc no_fields = Unit
AllAbove acc (field k v fs) = Above k acc × AllAbove acc fs

Above-append :
    (k l : Text) (v : Value) (acc : Fields)
    → Above k acc
    → str_lt l k ≡ true
    → Above k (append_fields acc (field l v no_fields))
unfolding append_fields
Above-append k l v no_fields h e = (e, tt)
Above-append k l v (field m w acc) h e = (h.0, Above-append k l v acc h.1 e)

pub AllAbove-append :
    (acc : Fields) (k : Text) (v : Value) (fs : Fields)
    → Below k fs
    → AllAbove acc fs
    → AllAbove (append_fields acc (field k v no_fields)) fs
unfolding AllAbove
AllAbove-append acc k v no_fields b h = tt
AllAbove-append acc k v (field l w fs) b h =
    (Above-append l k v acc h.0 b.0, AllAbove-append acc k v fs b.1 h.1)

pub append_fields_assoc :
    (acc : Fields) (k : Text) (v : Value) (fs : Fields)
    → append_fields (append_fields acc (field k v no_fields)) fs ≡ append_fields acc (field k v fs)
unfolding append_fields
append_fields_assoc no_fields k v fs = refl
append_fields_assoc (field l w acc) k v fs = ap (field l w) (append_fields_assoc acc k v fs)

pub append_none : (acc : Fields) → append_fields acc no_fields ≡ acc
unfolding append_fields
append_none no_fields = refl
append_none (field l w acc) = ap (field l w) (append_none acc)

pub none-AllAbove : (fs : Fields) → AllAbove no_fields fs
unfolding AllAbove
none-AllAbove no_fields = tt
none-AllAbove (field k v fs) = (tt, none-AllAbove fs)

pub struct_array : (es : List (Text × Json)) → (js : Jsons) × (wire_struct es ≡ Json.array js)
unfolding wire_struct
struct_array [] = (no_jsons, refl)
struct_array (e ∷ es) = (_, refl)

pub decode_entry-pair :
    (decode : Json → Result Value) (acc : Fields) (k : Text) (v : Value) (j : Json)
    → decode j ≡ ok v
    → decode_entry decode acc (Json.array (jsons (Json.text k ∷ j ∷ []))) ≡ ok (set_field k v acc)
unfolding decode_entry raw_array raw_string raw_at count
decode_entry-pair decode acc k v j h = rw h refl

-- The two nested shapes.
pub struct_field :
    (parse : Text → Option ℕ) (f : ℕ) (js : Jsons)
    → decode_wire_value parse
        (suc f)
        (Json.array (jsons (Json.null ∷ Json.null ∷ Json.null ∷ Json.null ∷ Json.array js ∷ [])))
      ≡ (decode_wire_struct_object (decode_wire_value parse f) (Json.array js) >>= λ fs.
          ok (Value.object fs))
unfolding decode_wire_value raw_array raw_at variant_from decode_variant
struct_field parse f js = refl

pub list_field :
    (parse : Text → Option ℕ) (f : ℕ) (js : Jsons)
    → decode_wire_value parse (suc f) (
        Json.array (
          jsons (
            Json.null
            ∷ Json.null
            ∷ Json.null
            ∷ Json.null
            ∷ Json.null
            ∷ Json.array (jsons (Json.array js ∷ []))
            ∷ [])))
      ≡ (decode_items (decode_wire_value parse f) js >>= λ vs. ok (Value.list vs))
unfolding decode_wire_value raw_array raw_at variant_from decode_variant decode_wire_list
list_field parse f js = refl

pub some_struct :
    (decode : Json → Result Value) (js : Jsons)
    → decode_wire_struct_object decode (Json.array (jsons (Json.array js ∷ [])))
      ≡ decode_entries decode no_fields js
unfolding decode_wire_struct_object raw_array raw_at
some_struct decode js = refl
