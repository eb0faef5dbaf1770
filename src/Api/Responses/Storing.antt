-- ===== src/Api/Responses/Storing.antt =====
-- What a stored response loads, and that loading it ends: the store as its callers fill it.
use aistudio2api.Prelude.{
  ℕ, suc, ◌≡◌, refl, ap, ◌∙◌, true, false, some, ◌∷◌, [], ◌++◌, Text, str_eq_iff, is_empty, lookup,
  insert, lookup-insert, arith,
}
use aistudio2api.Api.Responses.{
  ResponseState, ResponseStateStore, found, History, response_state_capacity, gather, load, store,
  new_response_state_store,
}
use aistudio2api.Api.Responses.Rounds.{chain_from, load_found, load-chain}
use aistudio2api.Api.Responses.Chains.{
  contains, Distinct, append-Distinct, Absent, contains-append, load-evict_to, chain-insert,
  newest-evict_to, evict_to-Absent, evict_to-Distinct,
}

module _ {C : Type 0} where
  -- A store holds what its order names, each response once.
  abbrev pub IsStored : ResponseStateStore C → Type 0
  IsStored s = Distinct s.order × Absent s.order s.states

  insert-Absent :
      (id : Text) (state : ResponseState C) (s : ResponseStateStore C)
      → Absent s.order s.states
      → Absent (s.order ++ id ∷ []) (insert id state s.states)
  unfolding contains
  insert-Absent id state s h k gone =
      ground (arith, lookup-insert id k state s.states, contains-append k s.order (id ∷ []), h k)

  pub new_response_state_store-IsStored : IsStored (new_response_state_store {C = C})
  unfolding new_response_state_store
  new_response_state_store-IsStored = (tt, λ k gone. unfold lookup in refl)

  pub store-IsStored :
      (s : ResponseStateStore C) (id : Text) (state : ResponseState C)
      → IsStored s
      → is_empty id ≡ false
      → contains id s.order ≡ false
      → IsStored (store s id state)
  unfolding store
  store-IsStored s id state (distinct, absent) named new = (
    evict_to-Distinct response_state_capacity (insert id state s.states) (s.order ++ id ∷ [])
        (append-Distinct id s.order named new distinct),
    evict_to-Absent response_state_capacity (insert id state s.states) (s.order ++ id ∷ [])
        (insert-Absent id state s absent),
  )

  -- In a store that names each response once and holds what it names, a response is stored under a
  -- name that is not empty and not in the store. Then any response that is still kept loads the
  -- history that it loaded before.
  pub load-store_kept :
      (f : ℕ) (s : ResponseStateStore C) (id k : Text) (state : ResponseState C)
      (history : History C)
      → IsStored s
      → is_empty id ≡ false
      → contains id s.order ≡ false
      → contains k (store s id state).order ≡ true
      → load f s k ≡ found history
      → load f (store s id state) k ≡ found history
  unfolding store
  load-store_kept f s id k state history (distinct, absent) named new stays h =
      let (ss, so, is) = load_found f s k history h in
      let inserted = chain-insert f s.states id state k ss (absent id new) so in
      load-evict_to f response_state_capacity (insert id state s.states) (s.order ++ id ∷ []) k
        history (append-Distinct id s.order named new distinct) stays
        (load-chain f (record { states = insert id state s.states; order = s.order ++ id ∷ [] }) k
            ss inserted
          ∙ ap found is)

  -- In a store that names each response once and holds what it names, a response is stored under a
  -- name that is not empty and not in the store, and its parent loads a history (the empty one for no
  -- parent). Then it loads, with one round more, that history and then its own, also if the store
  -- evicts to make room, even the parent.
  pub load-store_new :
      (f : ℕ) (s : ResponseStateStore C) (id : Text) (state : ResponseState C) (history : History C)
      → IsStored s
      → is_empty id ≡ false
      → contains id s.order ≡ false
      → load f s state.parent_id ≡ found history
      → load (suc f) (store s id state) id
        ≡ found (history.0 ++ state.contents, history.1 ++ state.inline_instructions)
  unfolding store
  load-store_new f s id state history (distinct, absent) named new h =
      let (ss, so, is) = load_found f s state.parent_id history h in
      let inserted = chain-insert f s.states id state state.parent_id ss (absent id new) so in
      let there : lookup id (insert id state s.states) ≡ some state =
        ground (arith, lookup-insert id id state s.states, str_eq_iff id id) in
      let full = chain_from f (insert id state s.states) id state ss named there inserted in
      load-evict_to (suc f) response_state_capacity (insert id state s.states) (s.order ++ id ∷ [])
        id (history.0 ++ state.contents, history.1 ++ state.inline_instructions)
        (append-Distinct id s.order named new distinct)
        (newest-evict_to 255 (insert id state s.states) s.order id)
        (load-chain (suc f)
            (record { states = insert id state s.states; order = s.order ++ id ∷ [] }) id
            (state ∷ ss) full
          ∙ ap found (
              unfold gather in
              ap (λ x. (x.0 ++ state.contents, x.1 ++ state.inline_instructions)) is))
