-- ===== src/Api/Responses/Tests.antt =====
-- The theorems on stored responses at two responses, one after the other.
use aistudio2api.Prelude.{
  ◌≡◌, ◌≢◌, refl, true, false, none, some, ℕ, suc, List, ◌∷◌, [], ◌++◌, Text, codes, is_empty,
  str_eq, lookup, arith,
}
use aistudio2api.Api.Responses.{
  ResponseState, ResponseStateStore, found, endless, new_response_state_store, store, load,
}
use aistudio2api.Api.Responses.Chains.{contains}
use aistudio2api.Api.Responses.Storing.{
  IsStored, store-IsStored, new_response_state_store-IsStored, load-store_kept, load-store_new,
}
use aistudio2api.Api.Responses.Ordered.{Unnamed}
use aistudio2api.Api.Responses.Reached.{Reached, unused, stored, load-ends, load-store_orphan}

abbrev first_state : ResponseState ℕ
first_state = record { parent_id = []; contents = 1 ∷ []; inline_instructions = [] }

abbrev second_state : ResponseState ℕ
second_state = record {
  parent_id = codes "r1";
  contents = 2 ∷ [];
  inline_instructions = codes "i" ∷ [];
}

abbrev first_store : ResponseStateStore ℕ
first_store = store new_response_state_store (codes "r1") first_state

new_in_empty : contains (codes "r1") (new_response_state_store {C = ℕ}).order ≡ false
unfolding contains new_response_state_store
new_in_empty = refl

new_in_first : contains (codes "r2") first_store.order ≡ false
unfolding contains store new_response_state_store str_eq
new_in_first = refl

first_store-IsStored : IsStored first_store
first_store-IsStored =
    store-IsStored new_response_state_store (codes "r1") first_state
      new_response_state_store-IsStored refl new_in_empty

loads_first : load 1 first_store (codes "r1") ≡ found (1 ∷ [], [])
unfolding load lookup store new_response_state_store aistudio2api.Prelude.insert str_eq
loads_first = refl

load-store_new_example :
    load 2 (store first_store (codes "r2") second_state) (codes "r2")
    ≡ found (1 ∷ 2 ∷ [], codes "i" ∷ [])
load-store_new_example =
    load-store_new 1 first_store (codes "r2") second_state (1 ∷ [], []) first_store-IsStored refl
      new_in_first loads_first

keeps_first : contains (codes "r1") (store first_store (codes "r2") second_state).order ≡ true
unfolding contains store new_response_state_store str_eq
keeps_first = refl

load-store_kept_example :
    load 1 (store first_store (codes "r2") second_state) (codes "r1") ≡ found (1 ∷ [], [])
load-store_kept_example =
    load-store_kept 1 first_store (codes "r2") (codes "r1") second_state (1 ∷ [], [])
      first_store-IsStored refl new_in_first keeps_first loads_first

empty-Unnamed : Unnamed {C = ℕ} (codes "r1") new_response_state_store
empty-Unnamed = (
  new_in_empty,
  λ k t there. unfold new_response_state_store lookup in absurd (ground (arith, there)),
)

first_store-Reached : Reached first_store
unfolding str_eq
first_store-Reached = stored (codes "r1") first_state unused refl empty-Unnamed no_parent
  where
    no_parent : str_eq (codes "r1") [] ≡ false
    no_parent = refl

load-ends_example : load 257 first_store (codes "r1") ≢ endless
load-ends_example = load-ends first_store (codes "r1") first_store-Reached

abbrev gone_state : ResponseState ℕ
gone_state = record { parent_id = codes "r0"; contents = 2 ∷ []; inline_instructions = [] }

parent_named : is_empty gone_state.parent_id ≡ false
parent_named = refl

parent_apart : str_eq (codes "r2") gone_state.parent_id ≡ false
unfolding str_eq
parent_apart = refl

parent_gone : contains gone_state.parent_id first_store.order ≡ false
unfolding contains store new_response_state_store str_eq
parent_gone = refl

load-store_orphan_example :
    load 3 (store first_store (codes "r2") gone_state) (codes "r2") ≢ found (2 ∷ [], [])
load-store_orphan_example =
    load-store_orphan 3 first_store (codes "r2") gone_state (2 ∷ [], []) first_store-IsStored refl
      new_in_first parent_named parent_apart parent_gone
