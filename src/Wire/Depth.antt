-- ===== src/Wire/Depth.antt =====
-- The decoder ends: fuel for the depth of the message is enough, whatever the message.
use aistudio2api.Prelude.{
  ℕ, zero, suc, ◌≤◌, ◌<◌, ◌≡◌, ◌≢◌, refl, sym, ◌∙◌, not, ◌==◌, Option, none, some, Text, arith,
}
use aistudio2api.Wire.{Json, Jsons, no_jsons, json, Value, Values, Fields, value}
use aistudio2api.Wire.Decode.{
  WireError, too_deep, expected_array, Result, ok, err, ◌>>=◌, raw_array, raw_string, raw_at,
  raw_bool, count, variant_from, set_field, decode_entry, decode_entries, decode_wire_struct_object,
  decode_items, decode_wire_list, decode_variant, decode_wire_value, is_json_null, null_value,
  number_value,
}
use aistudio2api.Wire.Fuel.{
  depth_of, depth_of_all, Agree, Agree-bind, Agree-if, Agree-refl, null_value-fine,
  number_value-fine, raw_array-fine, raw_array_le, raw_at-depth, raw_bool-fine, raw_string-fine,
  variant_from-fine,
}

module _ (n : ℕ) (d e : Json → Result Value)
    (agree : (j : Json) → depth_of j ≤ n → Agree (d j) (e j)) where
  ok-Agree : {A : Type 0} (a : A) → Agree (ok a) (ok a)
  unfolding Agree
  ok-Agree a = (refl, λ h. absurd (cc h))

  items-Agree : (js : Jsons) → depth_of_all js ≤ n → Agree (decode_items d js) (decode_items e js)
  unfolding decode_items depth_of
  items-Agree no_jsons h = ok-Agree Values.no_values
  items-Agree (json j js) h = Agree-bind (d j) (e j) _ _ (agree j (omega arith)) (λ v m.
      Agree-bind (decode_items d js) (decode_items e js) _ _ (items-Agree js (omega arith))
        (λ vs k. ok-Agree (value v vs)))

  entry-Agree :
      (fs : Fields) (raw : Json)
      → depth_of raw ≤ n
      → Agree (decode_entry d fs raw) (decode_entry e fs raw)
  unfolding decode_entry
  entry-Agree fs raw h =
      Agree-bind (raw_array raw) (raw_array raw) _ _
        (Agree-refl (raw_array raw) (raw_array-fine raw))
        (λ entry k.
          Agree-if (not (count entry == 2)) _ _ _ _
            (Agree-refl (err WireError.bad_entry) (λ x. absurd (cc x)))
            (Agree-bind (raw_string (raw_at entry 0)) (raw_string (raw_at entry 0)) _ _
              (Agree-refl _ (raw_string-fine (raw_at entry 0)))
              (λ key m.
                Agree-bind (d (raw_at entry 1)) (e (raw_at entry 1)) _ _
                  (agree (raw_at entry 1) (raw_at-depth entry 1 n (raw_array_le raw entry n k h)))
                  (λ v o. ok-Agree (set_field key v fs)))))

  entries-Agree :
      (fs : Fields) (js : Jsons)
      → depth_of_all js ≤ n
      → Agree (decode_entries d fs js) (decode_entries e fs js)
  unfolding decode_entries depth_of
  entries-Agree fs no_jsons h = ok-Agree fs
  entries-Agree fs (json j js) h =
      Agree-bind (decode_entry d fs j) (decode_entry e fs j) _ _ (entry-Agree fs j (omega arith))
        (λ next k. entries-Agree next js (omega arith))

  struct-Agree :
      (raw : Json)
      → depth_of raw ≤ n
      → Agree (decode_wire_struct_object d raw) (decode_wire_struct_object e raw)
  unfolding decode_wire_struct_object
  struct-Agree raw h =
      Agree-bind (raw_array raw) (raw_array raw) _ _ (Agree-refl _ (raw_array-fine raw))
        (λ fields k. Agree-if (is_json_null (raw_at fields 0)) _ _ _ _ (ok-Agree Fields.no_fields) (
          Agree-bind (raw_array (raw_at fields 0)) (raw_array (raw_at fields 0)) _ _
            (Agree-refl _ (raw_array-fine (raw_at fields 0)))
            (λ entries m. entries-Agree Fields.no_fields entries (
              raw_array_le (raw_at fields 0) entries n m
                (raw_at-depth fields 0 n (raw_array_le raw fields n k h))))))

  list-Agree :
      (raw : Json) → depth_of raw ≤ n → Agree (decode_wire_list d raw) (decode_wire_list e raw)
  unfolding decode_wire_list
  list-Agree raw h =
      Agree-bind (raw_array raw) (raw_array raw) _ _ (Agree-refl _ (raw_array-fine raw))
        (λ fields k. Agree-if (is_json_null (raw_at fields 0)) _ _ _ _ (ok-Agree Values.no_values) (
          Agree-bind (raw_array (raw_at fields 0)) (raw_array (raw_at fields 0)) _ _
            (Agree-refl _ (raw_array-fine (raw_at fields 0)))
            (λ items m. items-Agree items (
              raw_array_le (raw_at fields 0) items n m
                (raw_at-depth fields 0 n (raw_array_le raw fields n k h))))))

  variant-Agree :
      (parse : Text → Option ℕ) (fields : Jsons) (i : ℕ)
      → depth_of_all fields ≤ n
      → Agree (decode_variant d parse fields i) (decode_variant e parse fields i)
  unfolding decode_variant
  variant-Agree parse fields i h =
      Agree-if (i == 0) _ _ _ _
        (Agree-refl (null_value (raw_at fields 0)) (null_value-fine (raw_at fields 0)))
        (Agree-if (i == 1) _ _ _ _
          (Agree-refl (number_value parse (raw_at fields 1))
            (number_value-fine parse (raw_at fields 1)))
          (Agree-if (i == 2) _ _ _ _
            (Agree-bind (raw_string (raw_at fields 2)) (raw_string (raw_at fields 2)) _ _
              (Agree-refl _ (raw_string-fine (raw_at fields 2))) (λ s k. ok-Agree (Value.text s)))
            (Agree-if (i == 3) _ _ _ _
              (Agree-bind (raw_bool (raw_at fields 3)) (raw_bool (raw_at fields 3)) _ _
                (Agree-refl _ (raw_bool-fine (raw_at fields 3))) (λ b k. ok-Agree (Value.bool b)))
              (Agree-if (i == 4) _ _ _ _
                (Agree-bind (decode_wire_struct_object d (raw_at fields 4))
                  (decode_wire_struct_object e (raw_at fields 4)) _ _
                  (struct-Agree (raw_at fields 4) (raw_at-depth fields 4 n h))
                  (λ fs k. ok-Agree (Value.object fs)))
                (Agree-bind (decode_wire_list d (raw_at fields 5))
                  (decode_wire_list e (raw_at fields 5)) _ _
                  (list-Agree (raw_at fields 5) (raw_at-depth fields 5 n h))
                  (λ vs k. ok-Agree (Value.list vs)))))))

chosen : (Json → Result Value) → (Text → Option ℕ) → Jsons → Option ℕ → Result Value
chosen decode parse js none = err WireError.missing_oneof
chosen decode parse js (some i) = decode_variant decode parse js i

array-chosen :
    (parse : Text → Option ℕ) (f : ℕ) (js : Jsons)
    → decode_wire_value parse (suc f) (Json.array js)
      ≡ (variant_from js 0 6 none >>= chosen (decode_wire_value parse f) parse js)
unfolding decode_wire_value raw_array chosen
array-chosen parse f js = go (variant_from js 0 6 none) refl
  where
    go :
        (r : Result (Option ℕ))
        → variant_from js 0 6 none ≡ r
        → decode_wire_value parse (suc f) (Json.array js)
          ≡ (variant_from js 0 6 none >>= chosen (decode_wire_value parse f) parse js)
    go (err x) e = ground arith
    go (ok none) e = ground arith
    go (ok (some i)) e = ground arith

chosen-Agree :
    (n : ℕ) (d e : Json → Result Value) (parse : Text → Option ℕ) (js : Jsons) (v : Option ℕ)
    → ((j : Json) → depth_of j ≤ n → Agree (d j) (e j))
    → depth_of_all js ≤ n
    → Agree (chosen d parse js v) (chosen e parse js v)
unfolding chosen
chosen-Agree n d e parse js none agree h =
    Agree-refl (err WireError.missing_oneof) (λ x. absurd (cc x))
chosen-Agree n d e parse js (some i) agree h = variant-Agree n d e agree parse js i h

not_array-Agree :
    (parse : Text → Option ℕ) (f g : ℕ) (x : WireError) (raw : Json)
    → ◌≢◌ {A = WireError} x too_deep
    → decode_wire_value parse f raw ≡ err x
    → decode_wire_value parse g raw ≡ err x
    → Agree (decode_wire_value parse f raw) (decode_wire_value parse g raw)
unfolding Agree
not_array-Agree parse f g x raw n a b = (a ∙ sym b, λ k. n (ground (arith, a, k)))

fuel-Agree :
    (parse : Text → Option ℕ) (f g : ℕ) (raw : Json)
    → depth_of raw < f
    → depth_of raw < g
    → Agree (decode_wire_value parse f raw) (decode_wire_value parse g raw)
unfolding decode_wire_value depth_of raw_array variant_from raw_at
fuel-Agree parse zero g raw h k = absurd (omega arith)
fuel-Agree parse (suc f) zero raw h k = absurd (omega arith)
fuel-Agree parse (suc f) (suc g) (Json.array js) h k =
    rw (array-chosen parse f js, array-chosen parse g js)
      (Agree-bind (variant_from js 0 6 none) (variant_from js 0 6 none) _ _
        (Agree-refl _ (variant_from-fine js 0 6 none))
        (λ v m.
          chosen-Agree (depth_of_all js) (decode_wire_value parse f) (decode_wire_value parse g)
            parse js v (λ j d. fuel-Agree parse f g j (omega arith) (omega arith)) (omega arith)))
fuel-Agree parse (suc f) (suc g) Json.null h k =
    not_array-Agree parse (suc f) (suc g) WireError.missing_oneof Json.null (λ x. absurd (cc x))
      refl refl
fuel-Agree parse (suc f) (suc g) Json.object h k =
    not_array-Agree parse (suc f) (suc g) expected_array Json.object (λ x. absurd (cc x)) refl refl
fuel-Agree parse (suc f) (suc g) (Json.number s) h k =
    not_array-Agree parse (suc f) (suc g) expected_array (Json.number s) (λ x. absurd (cc x)) refl
      refl
fuel-Agree parse (suc f) (suc g) (Json.text s) h k =
    not_array-Agree parse (suc f) (suc g) expected_array (Json.text s) (λ x. absurd (cc x)) refl
      refl
fuel-Agree parse (suc f) (suc g) (Json.bool b) h k =
    not_array-Agree parse (suc f) (suc g) expected_array (Json.bool b) (λ x. absurd (cc x)) refl
      refl

-- With fuel above the depth of a message its decoding ends with a value or an error of the wire, never
-- for want of fuel, and more fuel changes nothing.
pub decode_wire_value_enough :
    (parse : Text → Option ℕ) (f g : ℕ) (raw : Json)
    → depth_of raw < f
    → depth_of raw < g
    → (decode_wire_value parse f raw ≡ decode_wire_value parse g raw)
      × (decode_wire_value parse f raw ≢ err too_deep)
unfolding Agree
decode_wire_value_enough parse f g raw h k = fuel-Agree parse f g raw h k
