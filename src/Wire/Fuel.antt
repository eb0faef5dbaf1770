-- ===== src/Wire/Fuel.antt =====
-- Two runs of the decoder that agree, and the depth of messages.
use aistudio2api.Prelude.{
  ℕ, zero, suc, ◌≤◌, ◌≡◌, ◌≢◌, refl, subst, Bool, true, false, if◌then◌else◌, max, Option, some,
  Text, arith,
}
use aistudio2api.Wire.{Json, Jsons, no_jsons, json}
use aistudio2api.Wire.Decode.{
  too_deep, Result, ok, err, ◌>>=◌, raw_array, raw_string, raw_at, raw_int64, raw_bool,
  variant_from, null_value, number_value,
}

unfoldable mutual
  pub depth_of : Json → ℕ
  depth_of (Json.array js) = suc (depth_of_all js)
  depth_of Json.null = 1
  depth_of Json.object = 1
  depth_of (Json.number s) = 1
  depth_of (Json.text s) = 1
  depth_of (Json.bool b) = 1

  pub depth_of_all : Jsons → ℕ
  depth_of_all no_jsons = 1
  depth_of_all (json j js) = max (depth_of j) (depth_of_all js)

-- Both ways give the same, which is not the lack of fuel.
unfoldable pub Agree : {A : Type 0} → Result A → Result A → Type 0
Agree r s = (r ≡ s) × (r ≢ err too_deep)

pub Agree-refl : {A : Type 0} (r : Result A) → r ≢ err too_deep → Agree r r
unfolding Agree
Agree-refl r n = (refl, n)

pub Agree-bind :
    {A B : Type 0} (r s : Result A) (k l : A → Result B)
    → Agree r s
    → ((a : A) → r ≡ ok a → Agree (k a) (l a))
    → Agree (r >>= k) (s >>= l)
unfolding Agree
Agree-bind (ok a) s k l (e, n) h =
    let (same, fine) = h a refl in (subst (λ t. k a ≡ (t >>= l)) e same, fine)
Agree-bind {A} {B} (err x) s k l (e, n) h =
    (subst (λ (t : Result A). ◌≡◌ {A = Result B} (err x) (t >>= l)) e refl, λ d. n (cc d))

pub raw_array-fine : (j : Json) → raw_array j ≢ err too_deep
unfolding raw_array
raw_array-fine (Json.array js) h = absurd (ground arith)
raw_array-fine Json.null h = absurd (ground arith)
raw_array-fine Json.object h = absurd (ground arith)
raw_array-fine (Json.number s) h = absurd (ground arith)
raw_array-fine (Json.text s) h = absurd (ground arith)
raw_array-fine (Json.bool b) h = absurd (ground arith)

raw_array-depth :
    (j : Json) (js : Jsons) (n : ℕ)
    → raw_array j ≡ ok js
    → depth_of j ≤ suc n
    → 1 ≤ n
    → depth_of_all js ≤ n
unfolding raw_array depth_of
raw_array-depth (Json.array ks) js n h d o = ground arith
raw_array-depth Json.null js n h d o = ground arith
raw_array-depth Json.object js n h d o = absurd (ground arith)
raw_array-depth (Json.number s) js n h d o = absurd (ground arith)
raw_array-depth (Json.text s) js n h d o = absurd (ground arith)
raw_array-depth (Json.bool b) js n h d o = absurd (ground arith)

pub raw_at-depth : (js : Jsons) (i n : ℕ) → depth_of_all js ≤ n → depth_of (raw_at js i) ≤ n
unfolding raw_at depth_of
raw_at-depth no_jsons i n h = h
raw_at-depth (json j js) zero n h = omega arith
raw_at-depth (json j js) (suc i) n h = raw_at-depth js i n (omega arith)

depth_of_pos : (j : Json) → 1 ≤ depth_of j
unfolding depth_of
depth_of_pos (Json.array js) = omega arith
depth_of_pos _ = omega arith

pub raw_array_le :
    (j : Json) (js : Jsons) (n : ℕ) → raw_array j ≡ ok js → depth_of j ≤ n → depth_of_all js ≤ n
raw_array_le j js zero h d = absurd (let p = depth_of_pos j in omega (arith, p, d))
raw_array_le j js (suc zero) h d = small j h d
  where
    small : (k : Json) → raw_array k ≡ ok js → depth_of k ≤ 1 → depth_of_all js ≤ 1
    small k h d = raw_array-depth k js 1 h (omega (arith, d)) (omega arith)
raw_array_le j js (suc (suc n)) h d =
    raw_array-depth j js (suc (suc n)) h (omega (arith, d)) (omega arith)

pub raw_string-fine : (j : Json) → raw_string j ≢ err too_deep
unfolding raw_string
raw_string-fine (Json.text s) h = absurd (ground arith)
raw_string-fine Json.null h = absurd (ground arith)
raw_string-fine Json.object h = absurd (ground arith)
raw_string-fine (Json.number s) h = absurd (ground arith)
raw_string-fine (Json.array s) h = absurd (ground arith)
raw_string-fine (Json.bool b) h = absurd (ground arith)

pub raw_bool-fine : (j : Json) → raw_bool j ≢ err too_deep
unfolding raw_bool
raw_bool-fine (Json.text s) h = absurd (ground arith)
raw_bool-fine Json.null h = absurd (ground arith)
raw_bool-fine Json.object h = absurd (ground arith)
raw_bool-fine (Json.number s) h = absurd (ground arith)
raw_bool-fine (Json.array s) h = absurd (ground arith)
raw_bool-fine (Json.bool b) h = absurd (ground arith)

pub variant_from-fine :
    (js : Jsons) (i left : ℕ) (v : Option ℕ) → variant_from js i left v ≢ err too_deep
unfolding variant_from
variant_from-fine js i zero v h = absurd (ground arith)
variant_from-fine js i (suc left) v h = absurd (
    ground (arith, variant_from-fine js (suc i) left v, variant_from-fine js (suc i) left (some i)))

pub null_value-fine : (j : Json) → null_value j ≢ err too_deep
unfolding null_value
null_value-fine j h = go (raw_int64 j) refl
  where
    go : (r : Result (Bool × ℕ)) → raw_int64 j ≡ r → ⊥
    go (err x) e = absurd (ground arith)
    go (ok (minus, n)) e = absurd (ground arith)

pub number_value-fine : (parse : Text → Option ℕ) (j : Json) → number_value parse j ≢ err too_deep
unfolding number_value
number_value-fine parse (Json.number s) h = absurd (ground arith)
number_value-fine parse (Json.text s) h = absurd (ground arith)
number_value-fine parse Json.null h = absurd (ground arith)
number_value-fine parse Json.object h = absurd (ground arith)
number_value-fine parse (Json.array s) h = absurd (ground arith)
number_value-fine parse (Json.bool b) h = absurd (ground arith)

pub Agree-if :
    {A : Type 0} (b : Bool) (x x' y y' : Result A)
    → Agree x x'
    → Agree y y'
    → Agree (if b then x else y) (if b then x' else y')
Agree-if true x x' y y' a b = a
Agree-if false x x' y y' a b = b
