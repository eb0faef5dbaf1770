-- ===== src/Api/Responses/Chains.antt =====
-- Storing a response: which chains the new one and the others have afterwards.
use aistudio2api.Prelude.{
  ℕ, zero, suc, ◌≤◌, ◌≡◌, inl, inr, refl, sym, ap, subst, ◌∙◌, Bool, true, false, ◌||◌, leb,
  Bool-cases, none, some, List, ◌∷◌, [], ◌++◌, length, Text, str_eq, str_eq_iff, is_empty, Assoc,
  lookup, insert, lookup-insert, arith,
}
use aistudio2api.Api.Responses.{ResponseState, found, History, chain, load, evict_oldest, evict_to}
use aistudio2api.Api.Responses.Rounds.{chain_step, chain_from, chain-zero, chain_of_none}
use aistudio2api.Api.Responses.Eviction.{
  load-evict_oldest, lookup-evicted, lookup-evict_oldest-none,
}

unfoldable pub contains : Text → List Text → Bool
contains k [] = false
contains k (j ∷ js) = str_eq j k || contains k js

-- The names in the order are distinct and nonempty.
abbrev pub Distinct : List Text → Type 0
Distinct [] = Unit
Distinct (j ∷ js) = (is_empty j ≡ false) × (contains j js ≡ false) × Distinct js

pub contains-append :
    (k : Text) (js ks : List Text) → contains k (js ++ ks) ≡ (contains k js || contains k ks)
unfolding contains
contains-append k [] ks = refl
contains-append k (j ∷ js) ks = ground (arith, contains-append k js ks)

pub append-Distinct :
    (k : Text) (js : List Text)
    → is_empty k ≡ false
    → contains k js ≡ false
    → Distinct js
    → Distinct (js ++ k ∷ [])
unfolding contains
append-Distinct k [] named new h = (named, refl, tt)
append-Distinct k (j ∷ js) named new (j_named, j_new, h) = (
  j_named,
  ground (arith, contains-append j js (k ∷ []), str_eq_iff j k, str_eq_iff k j),
  append-Distinct k js named (ground arith) h,
)

pub contains_last : (k : Text) (js : List Text) → contains k (js ++ k ∷ []) ≡ true
unfolding contains
contains_last k [] = ground (arith, str_eq_iff k k)
contains_last k (j ∷ js) = ground (arith, contains_last k js)

module _ {C : Type 0} where
  pub length-evict_to_le :
      (n : ℕ) (m : Assoc (ResponseState C)) (order : List Text)
      → length (evict_to n m order).order ≤ n
  unfolding evict_to
  length-evict_to_le n m [] = omega arith
  length-evict_to_le n m (id ∷ order) =
      ground (arith, length-evict_to_le n (evict_oldest id order m).states order)

  pub contains-evict_to :
      (n : ℕ) (m : Assoc (ResponseState C)) (order : List Text) (k : Text)
      → contains k (evict_to n m order).order ≡ true
      → contains k order ≡ true
  unfolding evict_to contains
  contains-evict_to n m [] k h = h
  contains-evict_to n m (id ∷ order) k h =
      ground (arith, contains-evict_to n (evict_oldest id order m).states order k)

  pub evict_to-Distinct :
      (n : ℕ) (m : Assoc (ResponseState C)) (order : List Text)
      → Distinct order
      → Distinct (evict_to n m order).order
  unfolding evict_to
  evict_to-Distinct n m [] h = tt
  evict_to-Distinct n m (id ∷ order) h = elim (Bool-cases (leb (length (id ∷ order)) n)) [
    | inl fits ↦ rw fits h
    | inr full ↦ rw full (evict_to-Distinct n (evict_oldest id order m).states order h.2)
  ]

  pub evict_to_full :
      (n : ℕ) (m : Assoc (ResponseState C)) (id : Text) (order : List Text)
      → leb (length (id ∷ order)) n ≡ false
      → evict_to n m (id ∷ order) ≡ evict_to n (evict_oldest id order m).states order
  unfolding evict_to
  evict_to_full n m id order full = rw full refl

  pub evict_to_fits :
      (n : ℕ) (m : Assoc (ResponseState C)) (id : Text) (order : List Text)
      → leb (length (id ∷ order)) n ≡ true
      → evict_to n m (id ∷ order) ≡ record { states = m; order = id ∷ order }
  unfolding evict_to
  evict_to_fits n m id order fits = rw fits refl

  -- Whatever stays in the order is loaded as before.
  pub load-evict_to :
      (f n : ℕ) (m : Assoc (ResponseState C)) (order : List Text) (k : Text) (history : History C)
      → Distinct order
      → contains k (evict_to n m order).order ≡ true
      → load f (record { states = m; order = order }) k ≡ found history
      → load f (evict_to n m order) k ≡ found history
  unfolding evict_oldest
  load-evict_to f n m [] k history d stays h = unfold evict_to in h
  load-evict_to f n m (id ∷ order) k history (named, other, d) stays h =
      elim (Bool-cases (leb (length (id ∷ order)) n)) [
        | inl fits ↦ ap (λ s. load f s k) (evict_to_fits n m id order fits) ∙ h
        | inr full ↦
            (let same = evict_to_full n m id order full in
              let stays' : contains k (evict_to n (evict_oldest id order m).states order).order
                  ≡ true =
                subst (λ s. contains k s.order ≡ true) same stays in
              let apart : str_eq id k ≡ false = ground (
                arith,
                str_eq_iff id k,
                other,
                contains-evict_to n (evict_oldest id order m).states order k stays',
              ) in
              ap (λ s. load f s k) same
              ∙ load-evict_to f n (evict_oldest id order m).states order k history d stays' (
                  load-evict_oldest f id k order (record { states = m; order = id ∷ order }) history
                    named apart h))
      ]

  pub chain-insert :
      (f : ℕ) (m : Assoc (ResponseState C)) (id : Text) (state : ResponseState C) (k : Text)
      (ss : List (ResponseState C))
      → lookup id m ≡ none
      → chain f m k ≡ found ss
      → chain f (insert id state m) k ≡ found ss
  chain-insert zero m id state k ss new h =
      let (no_name, is) = chain-zero m k ss h in
      chain_of_none zero (insert id state m) k no_name ∙ ap found (sym is)
  chain-insert (suc f) m id state k ss new h = elim (Bool-cases (is_empty k)) [
    | inl no_name ↦
        chain_of_none (suc f) (insert id state m) k no_name
        ∙ sym (chain_of_none (suc f) m k no_name)
        ∙ h
    | inr named ↦
        (let (s, older, there, so, is) = chain_step f m k ss h named in
          let still : lookup k (insert id state m) ≡ some s =
            ground (arith, lookup-insert id k state m, str_eq_iff id k, new, there) in
          chain_from f (insert id state m) k s older named still
            (chain-insert f m id state s.parent_id older new so)
          ∙ ap found (sym is))
  ]

  -- The newest in the order always stays.
  pub newest-evict_to :
      (n : ℕ) (m : Assoc (ResponseState C)) (order : List Text) (k : Text)
      → contains k (evict_to (suc n) m (order ++ k ∷ [])).order ≡ true
  newest-evict_to n m [] k =
      ap (λ s. contains k s.order) (evict_to_fits (suc n) m k [] (ground arith))
      ∙ contains_last k []
  newest-evict_to n m (id ∷ order) k =
      elim (Bool-cases (leb (length (id ∷ (order ++ k ∷ []))) (suc n))) [
        | inl fits ↦
            ap (λ s. contains k s.order) (evict_to_fits (suc n) m id (order ++ k ∷ []) fits)
            ∙ contains_last k (id ∷ order)
        | inr full ↦
            ap (λ s. contains k s.order) (evict_to_full (suc n) m id (order ++ k ∷ []) full)
            ∙ newest-evict_to n (evict_oldest id (order ++ k ∷ []) m).states order k
      ]

  abbrev pub Absent : List Text → Assoc (ResponseState C) → Type 0
  Absent order m = (k : Text) → contains k order ≡ false → lookup k m ≡ none

  pub evict_oldest-Absent :
      (id : Text) (order : List Text) (m : Assoc (ResponseState C))
      → Absent (id ∷ order) m
      → Absent order (evict_oldest id order m).states
  unfolding contains
  evict_oldest-Absent id order m h k gone = elim (Bool-cases (str_eq id k)) [
    | inl evicted ↦ lookup-evicted id k order m evicted
    | inr other ↦ lookup-evict_oldest-none id k order m (h k (ground arith))
  ]

  pub evict_to-Absent :
      (n : ℕ) (m : Assoc (ResponseState C)) (order : List Text)
      → Absent order m
      → Absent (evict_to n m order).order (evict_to n m order).states
  evict_to-Absent n m [] h = unfold evict_to in h
  evict_to-Absent n m (id ∷ order) h = elim (Bool-cases (leb (length (id ∷ order)) n)) [
    | inl fits ↦ rw (evict_to_fits n m id order fits) h
    | inr full ↦ rw (evict_to_full n m id order full) (
        evict_to-Absent n (evict_oldest id order m).states order (evict_oldest-Absent id order m h))
  ]
