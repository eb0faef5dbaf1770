-- ===== src/Api/Responses/Ending.antt =====
-- That Load ends: a stored response goes on from an older one, so its chain is no longer than the order.
use aistudio2api.Prelude.{
  ℕ, zero, suc, ◌<◌, ◌≡◌, ◌≢◌, ◌⊎◌, inl, inr, refl, true, false, if◌then◌else◌, Bool-cases,
  Option-cases, none, some, List, ◌∷◌, [], ◌++◌, length, Text, str_eq, str_eq_iff, is_empty, Assoc,
  lookup, arith,
}
use aistudio2api.Api.Responses.{ResponseState, Loaded, found, missing, endless, link, chain}
use aistudio2api.Api.Responses.Rounds.{chain_of_none}
use aistudio2api.Api.Responses.Chains.{contains, Absent}

unfoldable pub position : Text → List Text → ℕ
position k [] = 0
position k (j ∷ js) = if str_eq j k then 0 else suc (position k js)

pub position-contains :
    (k : Text) (js : List Text) → contains k js ≡ true → position k js < length js
unfolding position contains
position-contains k [] h = ground arith
position-contains k (j ∷ js) h = ground (arith, position-contains k js)

pub contains-position :
    (k : Text) (js : List Text) → position k js < length js → contains k js ≡ true
unfolding position contains
contains-position k [] h = ground arith
contains-position k (j ∷ js) h = ground (arith, contains-position k js)

pub position_kept :
    (k id : Text) (js : List Text)
    → contains k js ≡ true
    → position k (js ++ id ∷ []) ≡ position k js
unfolding position contains
position_kept k id [] h = ground arith
position_kept k id (j ∷ js) h = ground (arith, position_kept k id js)

pub position_last :
    (id : Text) (js : List Text) → contains id js ≡ false → position id (js ++ id ∷ []) ≡ length js
unfolding position contains
position_last id [] h = ground (arith, str_eq_iff id id)
position_last id (j ∷ js) h = ground (arith, position_last id js)

module _ {C : Type 0} where
  -- What the parent of a stored response `k` may be: none, one that is gone, or one before it in the order.
  abbrev pub Older : Text → Text → List Text → Assoc (ResponseState C) → Type 0
  Older p k order m =
      (is_empty p ≡ true) ⊎ ((lookup p m ≡ none) ⊎ (position p order < position k order))

  abbrev pub IsOrdered : List Text → Assoc (ResponseState C) → Type 0
  IsOrdered order m =
      (k : Text) (s : ResponseState C) → lookup k m ≡ some s → Older s.parent_id k order m

  pub link-ends :
      (s : ResponseState C) (l : Loaded (List (ResponseState C))) → l ≢ endless → link s l ≢ endless
  link-ends s (found ss) h e = ground arith
  link-ends s missing h e = ground arith
  link-ends s endless h e = h refl

  pub chain_ends_step :
      (f : ℕ) (m : Assoc (ResponseState C)) (k : Text)
      → ((s : ResponseState C) → lookup k m ≡ some s → chain f m s.parent_id ≢ endless)
      → chain (suc f) m k ≢ endless
  unfolding chain
  chain_ends_step f m k h e = elim (Bool-cases (is_empty k)) [
    | inl no_name ↦ ground arith
    | inr named ↦ elim (Option-cases (lookup k m)) [
      | inl gone ↦ ground arith
      | inr (s, there) ↦
          link-ends s (chain f m s.parent_id) (h s there) (ground (arith, e, named, there))
    ]
  ]

  pub chain_ends :
      (f : ℕ) (order : List Text) (m : Assoc (ResponseState C)) (k : Text)
      → IsOrdered order m
      → position k order < f
      → chain (suc f) m k ≢ endless
  chain_ends zero order m k ordered short = ground arith
  chain_ends (suc f) order m k ordered short = chain_ends_step (suc f) m k (λ s there.
      elim (ordered k s there) [
        | inl no_name ↦ λ e. ground (arith, e, chain_of_none (suc f) m s.parent_id no_name)
        | inr (inl gone) ↦
            chain_ends_step f m s.parent_id
              (λ x found_there. absurd (ground (arith, gone, found_there)))
        | inr (inr older) ↦ chain_ends f order m s.parent_id ordered (ground arith)
      ])

  pub present :
      (k : Text) (order : List Text) (m : Assoc (ResponseState C)) (s : ResponseState C)
      → Absent order m
      → lookup k m ≡ some s
      → contains k order ≡ true
  present k order m s absent there = ground (arith, absent k)
