-- ===== src/Api/Responses/Ordered.antt =====
-- Every store keeps a response after the one it goes on from.
use aistudio2api.Prelude.{
  ℕ, ◌≤◌, ◌≡◌, ◌⊎◌, inl, inr, refl, sym, ap, subst, ◌∙◌, true, false, leb, Bool-cases, Option-cases,
  none, some, List, ◌∷◌, [], ◌++◌, length, Text, str_eq, str_eq_iff, is_empty, Assoc, lookup,
  lookup_or, insert, lookup-insert, arith,
}
use aistudio2api.Api.Responses.{
  ResponseState, ResponseStateStore, response_state_capacity, no_state, adopt, evict_oldest,
  evict_to, store,
}
use aistudio2api.Api.Responses.Eviction.{
  lookup-evict_oldest, lookup-evicted, lookup-evict_oldest-none,
}
use aistudio2api.Api.Responses.Chains.{
  contains, Absent, evict_to_full, evict_to_fits, length-evict_to_le,
}
use aistudio2api.Api.Responses.Ending.{
  position, position-contains, contains-position, position_kept, position_last, Older, IsOrdered,
  present,
}

module _ {C : Type 0} where
  evicted-Older :
      (id k p : Text) (order : List Text) (m : Assoc (ResponseState C))
      → str_eq id k ≡ false
      → str_eq p id ≡ false
      → Older p k (id ∷ order) m
      → Older p k order (evict_oldest id order m).states
  unfolding position
  evicted-Older id k p order m other apart (inl no_name) = inl no_name
  evicted-Older id k p order m other apart (inr (inl gone)) =
      inr (inl (lookup-evict_oldest-none id p order m gone))
  evicted-Older id k p order m other apart (inr (inr older)) =
      inr (inr (ground (arith, str_eq_iff p id, str_eq_iff id p)))

  parent_of_evicted :
      (id : Text) (order : List Text) (m : Assoc (ResponseState C))
      → IsOrdered (id ∷ order) m
      → (is_empty (lookup_or no_state id m).parent_id ≡ true)
        ⊎ (lookup (lookup_or no_state id m).parent_id m ≡ none)
  unfolding position
  parent_of_evicted id order m ordered = elim (Option-cases (lookup id m)) [
    | inl gone ↦ inl (rw (gone, lookup_or) refl)
    | inr (p, there) ↦ elim (ordered id p there) [
      | inl no_name ↦ inl (rw (there, lookup_or) no_name)
      | inr (inl gone) ↦ inr (rw (there, lookup_or) gone)
      | inr (inr older) ↦ absurd (ground (arith, str_eq_iff id id, older))
    ]
  ]

  evict_oldest-IsOrdered :
      (id : Text) (order : List Text) (m : Assoc (ResponseState C))
      → IsOrdered (id ∷ order) m
      → IsOrdered order (evict_oldest id order m).states
  evict_oldest-IsOrdered id order m ordered k s' there' = elim (Bool-cases (str_eq id k)) [
    | inl evicted ↦ absurd (ground (arith, lookup-evicted id k order m evicted, there'))
    | inr other ↦ elim (Option-cases (lookup k m)) [
      | inl gone ↦ absurd (ground (arith, lookup-evict_oldest-none id k order m gone, there'))
      | inr (s, there) ↦
          (let is : adopt id (lookup_or no_state id m) s ≡ s' =
              ground (arith, lookup-evict_oldest id k order m s other there, there') in
            elim (Bool-cases (str_eq s.parent_id id)) [
              | inl child ↦
                  (let at : (lookup_or no_state id m).parent_id ≡ s'.parent_id =
                      let joined : (lookup_or no_state id m).parent_id
                          ≡ (adopt id (lookup_or no_state id m) s).parent_id =
                        rw child refl in
                      joined ∙ ap (λ x. x.parent_id) is in
                    elim (parent_of_evicted id order m ordered) [
                      | inl no_name ↦ inl (subst (λ x. is_empty x ≡ true) at no_name)
                      | inr gone ↦ inr (
                          inl (
                            lookup-evict_oldest-none id s'.parent_id order m
                              (subst (λ x. lookup x m ≡ none) at gone)))
                    ])
              | inr apart ↦
                  (let kept : s ≡ s' =
                      let same : adopt id (lookup_or no_state id m) s ≡ s = rw apart refl in
                      sym same ∙ is in
                    subst (λ x. Older x.parent_id k order (evict_oldest id order m).states) kept
                      (evicted-Older id k s.parent_id order m other apart (ordered k s there)))
            ])
    ]
  ]

  evict_to-IsOrdered :
      (n : ℕ) (m : Assoc (ResponseState C)) (order : List Text)
      → IsOrdered order m
      → IsOrdered (evict_to n m order).order (evict_to n m order).states
  evict_to-IsOrdered n m [] h = unfold evict_to in h
  evict_to-IsOrdered n m (id ∷ order) h = elim (Bool-cases (leb (length (id ∷ order)) n)) [
    | inl fits ↦ rw (evict_to_fits n m id order fits) h
    | inr full ↦ rw (evict_to_full n m id order full) (
        evict_to-IsOrdered n (evict_oldest id order m).states order
          (evict_oldest-IsOrdered id order m h))
  ]

  -- A name that no stored response has or goes on from.
  abbrev pub Unnamed : Text → ResponseStateStore C → Type 0
  Unnamed id s =
      (contains id s.order ≡ false)
      × ((k : Text) (t : ResponseState C)
          → lookup k s.states ≡ some t
          → str_eq id t.parent_id ≡ false)

  new-Older :
      (id p : Text) (state : ResponseState C) (s : ResponseStateStore C)
      → Absent s.order s.states
      → contains id s.order ≡ false
      → str_eq id p ≡ false
      → Older p id (s.order ++ id ∷ []) (insert id state s.states)
  new-Older id p state s absent new apart = elim (Option-cases (lookup p s.states)) [
    | inl gone ↦ inr (inl (ground (arith, lookup-insert id p state s.states, apart, gone)))
    | inr (t, there) ↦
        (let held = present p s.order s.states t absent there in
          inr (
            inr (
              ground (
                arith,
                position_kept p id s.order held,
                position_last id s.order new,
                position-contains p s.order held,
              ))))
  ]

  append-Older :
      (id k p : Text) (state : ResponseState C) (s : ResponseStateStore C)
      → contains k s.order ≡ true
      → str_eq id p ≡ false
      → Older p k s.order s.states
      → Older p k (s.order ++ id ∷ []) (insert id state s.states)
  append-Older id k p state s held apart (inl no_name) = inl no_name
  append-Older id k p state s held apart (inr (inl gone)) =
      inr (inl (ground (arith, lookup-insert id p state s.states, apart, gone)))
  append-Older id k p state s held apart (inr (inr older)) =
      let p_held =
        contains-position p s.order (ground (arith, position-contains k s.order held, older)) in
      inr (inr (ground (arith, position_kept p id s.order p_held, position_kept k id s.order held)))

  insert-IsOrdered :
      (id : Text) (state : ResponseState C) (s : ResponseStateStore C)
      → Absent s.order s.states
      → Unnamed id s
      → str_eq id state.parent_id ≡ false
      → IsOrdered s.order s.states
      → IsOrdered (s.order ++ id ∷ []) (insert id state s.states)
  insert-IsOrdered id state s absent (new, unnamed) apart ordered k t there =
      elim (Bool-cases (str_eq id k)) [
        | inl same ↦
            (let is : state ≡ t = ground (arith, lookup-insert id k state s.states, same, there) in
              let named_k : id ≡ k = ground (arith, str_eq_iff id k, same) in
              let for_id = new-Older id state.parent_id state s absent new apart in
              subst (λ x. Older x.parent_id k (s.order ++ id ∷ []) (insert id state s.states)) is
                (subst
                  (λ x. Older state.parent_id x (s.order ++ id ∷ []) (insert id state s.states))
                  named_k for_id))
        | inr other ↦
            (let old : lookup k s.states ≡ some t =
                ground (arith, lookup-insert id k state s.states, other, there) in
              append-Older id k t.parent_id state s (present k s.order s.states t absent old)
                (unnamed k t old) (ordered k t old))
      ]

  pub store-IsOrdered :
      (s : ResponseStateStore C) (id : Text) (state : ResponseState C)
      → Absent s.order s.states
      → Unnamed id s
      → str_eq id state.parent_id ≡ false
      → IsOrdered s.order s.states
      → IsOrdered (store s id state).order (store s id state).states
  unfolding store
  store-IsOrdered s id state absent unnamed apart h =
      evict_to-IsOrdered response_state_capacity (insert id state s.states) (s.order ++ id ∷ [])
        (insert-IsOrdered id state s absent unnamed apart h)

  pub length-store_le :
      (s : ResponseStateStore C) (id : Text) (state : ResponseState C)
      → length (store s id state).order ≤ response_state_capacity
  unfolding store
  length-store_le s id state =
      length-evict_to_le response_state_capacity (insert id state s.states) (s.order ++ id ∷ [])
