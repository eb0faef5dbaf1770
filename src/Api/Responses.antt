-- ===== src/Api/Responses.antt =====
-- The stored responses that a client goes on from: responseStateStore of internal/api/responses.go.
-- What a message of the history is like does not matter here, and is the parameter `C`.
pub mod Rounds
pub mod Eviction
pub mod Chains
pub mod Storing
pub mod Ending
pub mod Ordered
pub mod Reached
mod Tests
use aistudio2api.Prelude.{
  ℕ, zero, suc, Bool, if◌then◌else◌, leb, Option, none, some, List, ◌∷◌, [], ◌++◌, length, Text,
  codes, str_eq, is_empty, Assoc, lookup, lookup_or, insert, erase,
}

pub record ResponseState (C : Type 0) : Type 0 where
  pub parent_id : Text
  pub contents : List C
  pub inline_instructions : List Text

pub record ResponseStateStore (C : Type 0) : Type 0 where
  pub states : Assoc (ResponseState C)
  pub order : List Text

abbrev pub response_state_capacity : ℕ
response_state_capacity = 256

-- What a load gives. `endless` is no value of Go: the rounds allowed were not enough.
pub data Loaded (A : Type 0) : Type 0 where
  found : A → Loaded A
  missing endless : Loaded A

abbrev pub History : Type 0 → Type 0
History C = List C × List Text

module _ {C : Type 0} where
  unfoldable pub new_response_state_store : ResponseStateStore C
  new_response_state_store = record { states = []; order = [] }

  abbrev pub link :
      ResponseState C → Loaded (List (ResponseState C)) → Loaded (List (ResponseState C))
  link s (found chain) = found (s ∷ chain)
  link s missing = missing
  link s endless = endless

  -- The first loop of Load, in a bounded number of rounds.
  unfoldable pub chain : ℕ → Assoc (ResponseState C) → Text → Loaded (List (ResponseState C))
  chain zero states id = if is_empty id then found [] else endless
  chain (suc rounds) states id = if is_empty id then found [] else (elim (lookup id states) [
    | none ↦ missing
    | some s ↦ link s (chain rounds states s.parent_id)
  ])

  -- The second loop, from the far end of the chain.
  unfoldable pub gather : List (ResponseState C) → History C
  gather [] = ([], [])
  gather (s ∷ older) =
      let (contents, instructions) = gather older in
      (contents ++ s.contents, instructions ++ s.inline_instructions)

  abbrev pub gather_found : Loaded (List (ResponseState C)) → Loaded (History C)
  gather_found (found states) = found (gather states)
  gather_found missing = missing
  gather_found endless = endless

  unfoldable pub load : ℕ → ResponseStateStore C → Text → Loaded (History C)
  unfolding chain gather
  load rounds store id = gather_found (chain rounds store.states id)

  abbrev pub no_state : ResponseState C
  no_state = record { parent_id = []; contents = []; inline_instructions = [] }

  abbrev pub adopt : Text → ResponseState C → ResponseState C → ResponseState C
  adopt id parent child =
      if str_eq child.parent_id id
      then record {
        parent_id = parent.parent_id;
        contents = parent.contents ++ child.contents;
        inline_instructions = parent.inline_instructions ++ child.inline_instructions;
      }
      else child

  unfoldable pub adopt_all :
      Text → ResponseState C → Assoc (ResponseState C) → Assoc (ResponseState C)
  adopt_all id parent [] = []
  adopt_all id parent ((k, s) ∷ states) = (k, adopt id parent s) ∷ adopt_all id parent states

  -- evictOldest, for the head and the tail of the order.
  unfoldable pub evict_oldest : Text → List Text → Assoc (ResponseState C) → ResponseStateStore C
  unfolding adopt_all
  evict_oldest id order states = record {
    states = erase id (adopt_all id (lookup_or no_state id states) states);
    order = order;
  }

  -- The loop at the end of Store, for a given capacity.
  unfoldable pub evict_to : ℕ → Assoc (ResponseState C) → List Text → ResponseStateStore C
  unfolding evict_oldest
  evict_to capacity states [] = record { states = states; order = [] }
  evict_to capacity states (id ∷ order) =
      let later = evict_to capacity (evict_oldest id order states).states order in
      if leb (length (id ∷ order)) capacity
      then record { states = states; order = id ∷ order }
      else later

  unfoldable pub store : ResponseStateStore C → Text → ResponseState C → ResponseStateStore C
  unfolding evict_to
  store s id state =
      evict_to response_state_capacity (insert id state s.states) (s.order ++ id ∷ [])
