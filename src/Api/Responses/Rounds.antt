-- ===== src/Api/Responses/Rounds.antt =====
-- The rounds of Load: how the chain of a response is made up.
use aistudio2api.Prelude.{
  ℕ, zero, suc, ◌≡◌, ◌≢◌, inl, inr, refl, sym, ap, subst, ◌∙◌, true, false, Bool-cases,
  Option-cases, some, List, ◌∷◌, [], Text, is_empty, Assoc, lookup, arith,
}
use aistudio2api.Api.Responses.{
  ResponseState, ResponseStateStore, Loaded, found, missing, endless, History, link, chain, gather,
  load,
}

module _ {C : Type 0} where
  pub link-found :
      (s : ResponseState C) (l : Loaded (List (ResponseState C))) (ss : List (ResponseState C))
      → link s l ≡ found ss
      → (older : List (ResponseState C)) × (l ≡ found older) × (ss ≡ s ∷ older)
  link-found s (found older) ss h = (older, refl, ground arith)
  link-found s missing ss h = absurd (ground arith)
  link-found s endless ss h = absurd (ground arith)

  -- A chain that is found starts at the response asked for, and goes on at its parent.
  pub chain_step :
      (g : ℕ) (m : Assoc (ResponseState C)) (id : Text) (ss : List (ResponseState C))
      → chain (suc g) m id ≡ found ss
      → is_empty id ≡ false
      → (s : ResponseState C) × (older : List (ResponseState C)) × (lookup id m ≡ some s)
        × (chain g m s.parent_id ≡ found older)
        × (ss ≡ s ∷ older)
  unfolding chain
  chain_step g m id ss h named = elim (Option-cases (lookup id m)) [
    | inl gone ↦ absurd (ground arith)
    | inr (s, there) ↦
        (let (older, so, is) =
            link-found s (chain g m s.parent_id) ss (ground (arith, h, named, there)) in
          (s, older, there, so, is))
  ]

  pub chain_from :
      (g : ℕ) (m : Assoc (ResponseState C)) (id : Text) (s : ResponseState C)
      (older : List (ResponseState C))
      → is_empty id ≡ false
      → lookup id m ≡ some s
      → chain g m s.parent_id ≡ found older
      → chain (suc g) m id ≡ found (s ∷ older)
  unfolding chain
  chain_from g m id s older named there h = rw (named, there, h) refl

  pub chain-zero :
      (m : Assoc (ResponseState C)) (id : Text) (ss : List (ResponseState C))
      → chain zero m id ≡ found ss
      → (is_empty id ≡ true) × (ss ≡ [])
  unfolding chain
  chain-zero m id ss h = elim (Bool-cases (is_empty id)) [
    | inl no_name ↦ (no_name, ground arith)
    | inr named ↦ absurd (ground arith)
  ]

  pub chain_of_none :
      (f : ℕ) (m : Assoc (ResponseState C)) (id : Text)
      → is_empty id ≡ true
      → chain f m id ≡ found []
  unfolding chain
  chain_of_none zero m id h = rw h refl
  chain_of_none (suc f) m id h = rw h refl

  -- One more round does no harm.
  pub chain-suc :
      (f : ℕ) (m : Assoc (ResponseState C)) (id : Text) (ss : List (ResponseState C))
      → chain f m id ≡ found ss
      → chain (suc f) m id ≡ found ss
  chain-suc zero m id ss h =
      let (no_name, is) = chain-zero m id ss h in chain_of_none 1 m id no_name ∙ ap found (sym is)
  chain-suc (suc f) m id ss h = elim (Bool-cases (is_empty id)) [
    | inl no_name ↦
        chain_of_none (suc (suc f)) m id no_name ∙ sym (chain_of_none (suc f) m id no_name) ∙ h
    | inr named ↦
        (let (s, older, there, so, is) = chain_step f m id ss h named in
          chain_from (suc f) m id s older named there (chain-suc f m s.parent_id older so)
          ∙ ap found (sym is))
  ]

  pub chain_parent :
      (f : ℕ) (m : Assoc (ResponseState C)) (id : Text) (ss : List (ResponseState C))
      → chain f m id ≡ found ss
      → is_empty id ≡ false
      → (s : ResponseState C) × (older : List (ResponseState C)) × (lookup id m ≡ some s)
        × (chain f m s.parent_id ≡ found older)
        × (ss ≡ s ∷ older)
  chain_parent zero m id ss h named = absurd (ground (arith, chain-zero m id ss h))
  chain_parent (suc f) m id ss h named =
      let (s, older, there, so, is) = chain_step f m id ss h named in
      (s, older, there, chain-suc f m s.parent_id older so, is)

  -- A response that goes on from itself is never found.
  pub chain_own :
      (f : ℕ) (m : Assoc (ResponseState C)) (id : Text) (s : ResponseState C)
      (ss : List (ResponseState C))
      → is_empty id ≡ false
      → lookup id m ≡ some s
      → s.parent_id ≡ id
      → chain f m id ≢ found ss
  chain_own zero m id s ss named there own h = ground (arith, chain-zero m id ss h)
  chain_own (suc f) m id s ss named there own h =
      let (s', older, there', so, is) = chain_step f m id ss h named in
      let same : s' ≡ s = ground (arith, there, there') in
      let back : s'.parent_id ≡ id = rw same own in
      chain_own f m id s older named there own (subst (λ x. chain f m x ≡ found older) back so)

  pub load_found :
      (f : ℕ) (s : ResponseStateStore C) (k : Text) (history : History C)
      → load f s k ≡ found history
      → (ss : List (ResponseState C)) × (chain f s.states k ≡ found ss) × (gather ss ≡ history)
  unfolding load
  load_found f s k history h = of_chain (chain f s.states k) refl
    where
      of_chain :
          (l : Loaded (List (ResponseState C)))
          → chain f s.states k ≡ l
          → (ss : List (ResponseState C)) × (chain f s.states k ≡ found ss) × (gather ss ≡ history)
      of_chain (found ss) e = (ss, e, ground (arith, e, h))
      of_chain missing e = absurd (ground (arith, e, h))
      of_chain endless e = absurd (ground (arith, e, h))

  pub load-chain :
      (f : ℕ) (s : ResponseStateStore C) (k : Text) (ss : List (ResponseState C))
      → chain f s.states k ≡ found ss
      → load f s k ≡ found (gather ss)
  unfolding load
  load-chain f s k ss h = rw h refl
