-- ===== src/Api/Responses/Eviction.antt =====
-- One eviction from the stored responses: what the chains of the others become.
use aistudio2api.Prelude.{
  ℕ, zero, suc, ◌≡◌, inl, inr, refl, sym, ap, subst, ◌∙◌, true, false, Bool-cases, none, some, List,
  ◌∷◌, [], ◌++◌, append_assoc, Text, str_eq, str_eq_iff, is_empty, Assoc, lookup, lookup_or,
  lookup-erase, arith,
}
use aistudio2api.Api.Responses.{
  ResponseState, ResponseStateStore, Loaded, found, History, chain, gather, load, no_state, adopt,
  adopt_all, evict_oldest,
}
use aistudio2api.Api.Responses.Rounds.{
  chain_step, chain_from, chain-zero, chain_of_none, chain_parent, chain_own, load_found,
  load-chain,
}

module _ {C : Type 0} where
  pub lookup-adopt_all :
      (id k : Text) (parent : ResponseState C) (m : Assoc (ResponseState C))
      → lookup k (adopt_all id parent m)
        ≡ (elim (lookup k m) [ none ↦ none | some s ↦ some (adopt id parent s) ])
  unfolding lookup adopt_all
  lookup-adopt_all id k parent [] = refl
  lookup-adopt_all id k parent ((j, s) ∷ m) = elim (Bool-cases (str_eq j k)) [
    | inl same ↦ rw same refl
    | inr other ↦ rw other (lookup-adopt_all id k parent m)
  ]

  pub lookup-evict_oldest :
      (id k : Text) (order : List Text) (m : Assoc (ResponseState C)) (s : ResponseState C)
      → str_eq id k ≡ false
      → lookup k m ≡ some s
      → lookup k (evict_oldest id order m).states ≡ some (adopt id (lookup_or no_state id m) s)
  unfolding evict_oldest
  lookup-evict_oldest id k order m s other there =
      let erased = lookup-erase id k (adopt_all id (lookup_or no_state id m) m) in
      erased ∙ rw (other, lookup-adopt_all id k (lookup_or no_state id m) m, there) refl

  pub lookup-evicted :
      (id k : Text) (order : List Text) (m : Assoc (ResponseState C))
      → str_eq id k ≡ true
      → lookup k (evict_oldest id order m).states ≡ none
  unfolding evict_oldest
  lookup-evicted id k order m same =
      lookup-erase id k (adopt_all id (lookup_or no_state id m) m) ∙ rw same refl

  pub lookup-evict_oldest-none :
      (id k : Text) (order : List Text) (m : Assoc (ResponseState C))
      → lookup k m ≡ none
      → lookup k (evict_oldest id order m).states ≡ none
  unfolding evict_oldest
  lookup-evict_oldest-none id k order m gone = ground (
    arith,
    lookup-erase id k (adopt_all id (lookup_or no_state id m) m),
    lookup-adopt_all id k (lookup_or no_state id m) m,
  )

  abbrev merged : ResponseState C → ResponseState C → ResponseState C
  merged parent child = record {
    parent_id = parent.parent_id;
    contents = parent.contents ++ child.contents;
    inline_instructions = parent.inline_instructions ++ child.inline_instructions;
  }

  gather-merged :
      (p s : ResponseState C) (older' older : List (ResponseState C))
      → gather older' ≡ gather older
      → gather (merged p s ∷ older') ≡ gather (s ∷ p ∷ older)
  unfolding gather
  gather-merged p s older' older h =
      rw
        (
          h,
          append_assoc (gather older).0 p.contents s.contents,
          append_assoc (gather older).1 p.inline_instructions s.inline_instructions,
        )
        refl

  abbrev Same : List (ResponseState C) → Loaded (List (ResponseState C)) → Type 0
  Same ss l = (ss' : List (ResponseState C)) × (l ≡ found ss') × (gather ss' ≡ gather ss)

  step-Same :
      (f : ℕ) (k : Text) (m : Assoc (ResponseState C)) (s : ResponseState C)
      (older ss : List (ResponseState C))
      → is_empty k ≡ false
      → lookup k m ≡ some s
      → gather (s ∷ older) ≡ gather ss
      → chain f m s.parent_id ≡ found older
      → Same ss (chain (suc f) m k)
  step-Same f k m s older ss k_named there same so =
      (s ∷ older, chain_from f m k s older k_named there so, same)

  child-Same :
      (f : ℕ) (id k : Text) (order : List Text) (m : Assoc (ResponseState C))
      (p s : ResponseState C) (older ss : List (ResponseState C))
      → is_empty k ≡ false
      → str_eq id k ≡ false
      → lookup id m ≡ some p
      → lookup k m ≡ some s
      → str_eq s.parent_id id ≡ true
      → ss ≡ s ∷ p ∷ older
      → Same older (chain f (evict_oldest id order m).states p.parent_id)
      → Same ss (chain (suc f) (evict_oldest id order m).states k)
  child-Same f id k order m p s older ss k_named other pthere there child is (older', so', same) =
      let evicted : lookup_or no_state id m ≡ p = rw (pthere, lookup_or) refl in
      let joined : adopt id p s ≡ merged p s = rw child refl in
      step-Same f k (evict_oldest id order m).states (merged p s) older' ss k_named
        (lookup-evict_oldest id k order m s other there
          ∙ ap some (ap (λ x. adopt id x s) evicted ∙ joined))
        (gather-merged p s older' older same ∙ ap gather (sym is)) so'

  apart-Same :
      (f : ℕ) (id k : Text) (order : List Text) (m : Assoc (ResponseState C)) (s : ResponseState C)
      (older ss : List (ResponseState C))
      → is_empty k ≡ false
      → str_eq id k ≡ false
      → lookup k m ≡ some s
      → str_eq s.parent_id id ≡ false
      → ss ≡ s ∷ older
      → Same older (chain f (evict_oldest id order m).states s.parent_id)
      → Same ss (chain (suc f) (evict_oldest id order m).states k)
  unfolding gather
  apart-Same f id k order m s older ss k_named other there apart is (older', so', same) =
      let kept : adopt id (lookup_or no_state id m) s ≡ s = rw apart refl in
      step-Same f k (evict_oldest id order m).states s older' ss k_named
        (lookup-evict_oldest id k order m s other there ∙ ap some kept) (rw (is, same) refl) so'

  -- The chain of a response that stays gathers the same history after the eviction.
  pub chain-evict_oldest :
      (f : ℕ) (id k : Text) (order : List Text) (m : Assoc (ResponseState C))
      (ss : List (ResponseState C))
      → is_empty id ≡ false
      → str_eq id k ≡ false
      → chain f m k ≡ found ss
      → Same ss (chain f (evict_oldest id order m).states k)
  chain-evict_oldest zero id k order m ss named other h =
      let (no_name, is) = chain-zero m k ss h in
      ([], chain_of_none zero (evict_oldest id order m).states k no_name, rw is refl)
  chain-evict_oldest (suc f) id k order m ss named other h = elim (Bool-cases (is_empty k)) [
    | inl no_name ↦
        (let is : ss ≡ [] = ground (arith, h, chain_of_none (suc f) m k no_name) in
          ([], chain_of_none (suc f) (evict_oldest id order m).states k no_name, rw is refl))
    | inr k_named ↦
        (let (s, older, there, so, is) = chain_step f m k ss h k_named in
          elim (Bool-cases (str_eq s.parent_id id)) [
            | inl child ↦
                (let at : s.parent_id ≡ id = ground (arith, str_eq_iff s.parent_id id, child) in
                  let from_id : chain f m id ≡ found older =
                    subst (λ x. chain f m x ≡ found older) at so in
                  let (p, older2, pthere, pso, pis) = chain_parent f m id older from_id named in
                  elim (Bool-cases (str_eq id p.parent_id)) [
                    | inl own ↦ absurd (
                        chain_own f m id p older named pthere
                          (ground (arith, str_eq_iff id p.parent_id, own)) from_id)
                    | inr on ↦
                        child-Same f id k order m p s older2 ss k_named other pthere there child
                          (is ∙ ap (◌∷◌ s) pis)
                          (chain-evict_oldest f id p.parent_id order m older2 named on pso)
                  ])
            | inr apart ↦ apart-Same f id k order m s older ss k_named other there apart is (
                chain-evict_oldest f id s.parent_id order m older named
                  (ground (arith, str_eq_iff s.parent_id id, str_eq_iff id s.parent_id, apart)) so)
          ])
  ]

  pub load-evict_oldest :
      (f : ℕ) (id k : Text) (order : List Text) (s : ResponseStateStore C) (history : History C)
      → is_empty id ≡ false
      → str_eq id k ≡ false
      → load f s k ≡ found history
      → load f (evict_oldest id order s.states) k ≡ found history
  load-evict_oldest f id k order s history named other h =
      let (ss, so, is) = load_found f s k history h in
      let (ss', so', same) = chain-evict_oldest f id k order s.states ss named other so in
      load-chain f (evict_oldest id order s.states) k ss' so' ∙ ap found (same ∙ is)
