-- ===== src/Api/Responses/Reached.antt =====
-- The store of responses as the server fills it: handleResponses and streamResponses store under names that are new.
use aistudio2api.Prelude.{
  ℕ, suc, ◌≤◌, ◌≡◌, ◌≢◌, inl, inr, refl, ap, subst, ◌∙◌, false, Bool-cases, Option-cases, none,
  some, List, ◌∷◌, [], ◌++◌, length, Text, str_eq, str_eq_iff, is_empty, Assoc, lookup, lookup_or,
  leb, insert, lookup-insert, arith,
}
use aistudio2api.Api.Responses.{
  no_state, adopt, ResponseState, ResponseStateStore, Loaded, found, missing, endless, History,
  response_state_capacity, gather_found, chain, load, evict_oldest, evict_to, store,
  new_response_state_store,
}
use aistudio2api.Api.Responses.Rounds.{load_found, chain_parent}
use aistudio2api.Api.Responses.Eviction.{lookup-evict_oldest, lookup-evict_oldest-none}
use aistudio2api.Api.Responses.Chains.{contains, evict_to_full, evict_to_fits}
use aistudio2api.Api.Responses.Storing.{IsStored, store-IsStored, new_response_state_store-IsStored}
use aistudio2api.Api.Responses.Ending.{
  position-contains, present, IsOrdered, chain_ends, chain_ends_step,
}
use aistudio2api.Api.Responses.Ordered.{Unnamed, store-IsOrdered, length-store_le}

-- The stores that come of the empty one by storing under new names.
pub data Reached {C : Type 0} : ResponseStateStore C → Type 0 where
  unused : Reached new_response_state_store
  stored :
      {s : ResponseStateStore C} (id : Text) (state : ResponseState C)
      → Reached s
      → is_empty id ≡ false
      → Unnamed id s
      → str_eq id state.parent_id ≡ false
      → Reached (store s id state)

module _ {C : Type 0} where
  abbrev pub IsKept : ResponseStateStore C → Type 0
  IsKept s = IsStored s × IsOrdered s.order s.states × (length s.order ≤ response_state_capacity)

  none-IsOrdered :
      IsOrdered (new_response_state_store {C = C}).order (new_response_state_store {C = C}).states
  unfolding new_response_state_store lookup
  none-IsOrdered k t there = absurd (ground (arith, there))

  -- Every store that is reached names each response once, holds what it names, has every response after the one it goes on from, and keeps at most 256.
  pub Reached-IsKept : (s : ResponseStateStore C) → Reached s → IsKept s
  Reached-IsKept s unused = (
    new_response_state_store-IsStored,
    none-IsOrdered,
    unfold new_response_state_store in omega arith,
  )
  Reached-IsKept s (stored {s = before} id state reached named unnamed apart) =
      let (held, ordered, small) = Reached-IsKept before reached in
      (
        store-IsStored before id state held named unnamed.0,
        store-IsOrdered before id state held.1 unnamed apart ordered,
        length-store_le before id state,
      )

  gather_found-ends : (l : Loaded (List (ResponseState C))) → l ≢ endless → gather_found l ≢ endless
  gather_found-ends (found ss) h e = ground arith
  gather_found-ends missing h e = ground arith
  gather_found-ends endless h e = h refl

  -- In every store that comes of the empty one by storing under new names, Load ends, whatever it is
  -- asked for: one round for each response that may be kept, and one more, are enough.
  pub load-ends :
      (s : ResponseStateStore C) (id : Text)
      → Reached s
      → load (suc response_state_capacity) s id ≢ endless
  unfolding load
  load-ends s id reached =
      let (held, ordered, small) = Reached-IsKept s reached in
      gather_found-ends (chain (suc response_state_capacity) s.states id)
        (elim (Option-cases (lookup id s.states)) [
          | inl gone ↦
              chain_ends_step response_state_capacity s.states id
                (λ t there. absurd (ground (arith, gone, there)))
          | inr (t, there) ↦
              (let first =
                  position-contains id s.order (present id s.order s.states t held.1 there) in
                chain_ends response_state_capacity s.order s.states id ordered
                  (omega (arith, first, small)))
        ])

  -- A response `id` in the map whose parent is not there.
  abbrev Orphan : Text → ResponseState C → Assoc (ResponseState C) → Type 0
  Orphan id state m = (lookup id m ≡ some state) × (lookup state.parent_id m ≡ none)

  evict_oldest-Orphan :
      (j id : Text) (state : ResponseState C) (order : List Text) (m : Assoc (ResponseState C))
      → str_eq j id ≡ false
      → str_eq j state.parent_id ≡ false
      → Orphan id state m
      → Orphan id state (evict_oldest j order m).states
  evict_oldest-Orphan j id state order m other apart (there, gone) =
      let kept : adopt j (lookup_or no_state j m) state ≡ state =
        let wrong : str_eq state.parent_id j ≡ false =
          ground (arith, str_eq_iff state.parent_id j, str_eq_iff j state.parent_id) in
        rw wrong refl in
      (
        lookup-evict_oldest j id order m state other there ∙ ap some kept,
        lookup-evict_oldest-none j state.parent_id order m gone,
      )

  evict_to-Orphan :
      (n : ℕ) (m : Assoc (ResponseState C)) (order : List Text) (id : Text)
      (state : ResponseState C)
      → contains id order ≡ false
      → contains state.parent_id order ≡ false
      → Orphan id state m
      → Orphan id state (evict_to (suc n) m (order ++ id ∷ [])).states
  evict_to-Orphan n m [] id state new gone h = rw (evict_to_fits (suc n) m id [] (ground arith)) h
  evict_to-Orphan n m (j ∷ order) id state new gone h =
      elim (Bool-cases (leb (length (j ∷ (order ++ id ∷ []))) (suc n))) [
        | inl fits ↦ rw (evict_to_fits (suc n) m j (order ++ id ∷ []) fits) h
        | inr full ↦ rw (evict_to_full (suc n) m j (order ++ id ∷ []) full) (
            evict_to-Orphan n (evict_oldest j (order ++ id ∷ []) m).states order id state
              (unfold contains in ground arith) (unfold contains in ground arith)
              (evict_oldest-Orphan j id state (order ++ id ∷ []) m (unfold contains in ground arith)
                (unfold contains in ground arith) h))
      ]

  -- In a store that names each response once and holds what it names, a response is stored under a new
  -- name that is not empty, with a parent that is named but no longer kept. Then no number of rounds
  -- loads it, though it is the newest.
  pub load-store_orphan :
      (f : ℕ) (s : ResponseStateStore C) (id : Text) (state : ResponseState C) (history : History C)
      → IsStored s
      → is_empty id ≡ false
      → contains id s.order ≡ false
      → is_empty state.parent_id ≡ false
      → str_eq id state.parent_id ≡ false
      → contains state.parent_id s.order ≡ false
      → load f (store s id state) id ≢ found history
  unfolding store
  load-store_orphan f s id state history (distinct, absent) named new parent_named apart gone h =
      let orphan : Orphan id state (insert id state s.states) = (
        ground (arith, lookup-insert id id state s.states, str_eq_iff id id),
        ground
            (arith, lookup-insert id state.parent_id state s.states, absent state.parent_id gone),
      ) in
      let (there, still_gone) =
        evict_to-Orphan 255 (insert id state s.states) s.order id state new gone orphan in
      let (ss, so, is) = load_found f (store s id state) id history h in
      let (t, older, found_there, older_so, older_is) =
        chain_parent f (store s id state).states id ss so named in
      let same : t ≡ state = ground (arith, there, found_there) in
      let from_parent =
        subst (λ x. chain f (store s id state).states x.parent_id ≡ found older) same older_so in
      let (p, rest, p_there, p_so, p_is) =
        chain_parent f (store s id state).states state.parent_id older from_parent parent_named in
      absurd (ground (arith, still_gone, p_there))
