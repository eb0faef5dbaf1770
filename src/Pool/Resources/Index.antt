-- ===== src/Pool/Resources/Index.antt =====
-- The index of owners as a map: what claiming and dropping entries does to it.
use aistudio2api.Prelude.{
  ◌≡◌, ◌≢◌, ◌⊎◌, inl, inr, refl, sym, ◌∙◌, Bool, true, false, not, ◌&&◌, none, some, Option-cases,
  Bool-cases, List, ◌∷◌, [], any, Text, str_eq, str_eq_iff, Assoc, lookup, insert, erase,
  lookup-insert, lookup-erase, arith,
}
use aistudio2api.Pool.Types.{ResourceBinding}
use aistudio2api.Pool.Resources.{keys, owned_by, foreign_owner, drop_owned, claim, index_differs}

abbrev pub is_key : Text → List Text → Bool
is_key k = any (λ j. str_eq j k)

pub foreign_owner-none :
    (owners : Assoc Text) (id k owner : Text) (ks : List Text)
    → foreign_owner owners id ks ≡ none
    → lookup k owners ≡ some owner
    → owner ≢ id
    → is_key k ks ≡ false
unfolding foreign_owner
foreign_owner-none owners id k owner [] h e n = refl
foreign_owner-none owners id k owner (j ∷ ks) h e n = elim (Bool-cases (str_eq j k)) [
  | inl same ↦
      let at : j ≡ k = (str_eq_iff j k).0 same in
      let found : lookup j owners ≡ some owner = rw at e in
      absurd (ground (arith, str_eq_iff owner id, found))
  | inr other ↦ ground (arith, str_eq_iff j k, foreign_owner-none owners id k owner ks)
]

pub claim_other :
    (id k : Text) (ks : List Text) (m : Assoc Text)
    → is_key k ks ≡ false
    → lookup k (claim id ks m) ≡ lookup k m
unfolding claim
claim_other id k [] m h = refl
claim_other id k (j ∷ ks) m h =
    ground (arith, claim_other id k ks (insert j id m), lookup-insert j k id m)

pub claim_key :
    (id k : Text) (ks : List Text) (m : Assoc Text)
    → is_key k ks ≡ true
    → lookup k (claim id ks m) ≡ some id
unfolding claim
claim_key id k [] m h = cc
claim_key id k (j ∷ ks) m h = ground (
  arith,
  claim_key id k ks (insert j id m),
  claim_other id k ks (insert j id m),
  lookup-insert j k id m,
)

pub drop_owned_other :
    (id k : Text) (owners : Assoc Text) (ks : List Text) (m : Assoc Text)
    → owned_by id owners k ≡ false
    → lookup k (drop_owned id owners ks m) ≡ lookup k m
unfolding drop_owned
drop_owned_other id k owners [] m h = refl
drop_owned_other id k owners (j ∷ ks) m h = elim (Bool-cases (str_eq j k)) [
  | inl same ↦
      let at : j ≡ k = (str_eq_iff j k).0 same in
      let free : owned_by id owners j ≡ false = rw at h in
      rw (free, drop_owned_other id k owners ks m h) refl
  | inr other ↦ ground (
    arith,
    drop_owned_other id k owners ks m h,
    drop_owned_other id k owners ks (erase j m) h,
    lookup-erase j k m,
  )
]

pub drop_owned_gone :
    (id k : Text) (owners : Assoc Text) (ks : List Text) (m : Assoc Text)
    → owned_by id owners k ≡ true
    → (lookup k m ≡ none) ⊎ (is_key k ks ≡ true)
    → lookup k (drop_owned id owners ks m) ≡ none
unfolding drop_owned
drop_owned_gone id k owners [] m h (inl e) = e
drop_owned_gone id k owners [] m h (inr e) = cc
drop_owned_gone id k owners (j ∷ ks) m h e = elim (Bool-cases (str_eq j k)) [
  | inl same ↦
      let at : j ≡ k = (str_eq_iff j k).0 same in
      let mine : owned_by id owners j ≡ true = rw at h in
      rw mine
        (drop_owned_gone id k owners ks (erase j m) h (inl (ground (arith, lookup-erase j k m))))
  | inr other ↦ ground (
    arith,
    drop_owned_gone id k owners ks m h,
    drop_owned_gone id k owners ks (erase j m) h,
    lookup-erase j k m,
  )
]

pub lookup-key :
    {V : Type 0} (k : Text) (v : V) (m : Assoc V) → lookup k m ≡ some v → is_key k (keys m) ≡ true
unfolding lookup
lookup-key k v [] h = cc
lookup-key k v ((j, w) ∷ m) h = ground (arith, lookup-key k v m)

pub key-lookup :
    {V : Type 0} (k : Text) (m : Assoc V)
    → is_key k (keys m) ≡ true
    → (v : V) × (lookup k m ≡ some v)
unfolding lookup
key-lookup k [] h = cc
key-lookup k ((j, w) ∷ m) h = elim (Bool-cases (str_eq j k)) [
  | inl same ↦ (w, rw same)
  | inr other ↦ rw other (key-lookup k m (rw other at h))
]

pub any-false :
    (f : Text → Bool) (k : Text) (ks : List Text)
    → any f ks ≡ false
    → is_key k ks ≡ true
    → f k ≡ false
any-false f k [] h e = cc
any-false f k (j ∷ ks) h e = elim (Bool-cases (str_eq j k)) [
  | inl same ↦ let at : j ≡ k = (str_eq_iff j k).0 same in rw (← at) (ground arith)
  | inr other ↦ any-false f k ks (ground arith) (rw other at e)
]

pub owned-lookup :
    (id : Text) (owners : Assoc Text) (k : Text)
    → owned_by id owners k ≡ true
    → lookup k owners ≡ some id
owned-lookup id owners k h = elim (Option-cases (lookup k owners)) [
  | inl e ↦ absurd (ground arith)
  | inr (owner, e) ↦ ground (arith, str_eq_iff owner id)
]

pub owned_some :
    (id : Text) (m : Assoc Text) (k : Text) → lookup k m ≡ some id → owned_by id m k ≡ true
owned_some id m k e = ground (arith, str_eq_iff id id)

pub owned_none :
    (id : Text) (m : Assoc Text) (k : Text) → lookup k m ≡ none → owned_by id m k ≡ false
owned_none id m k e = ground arith

pub owned_cong :
    (id : Text) (m n : Assoc Text) (k : Text)
    → lookup k m ≡ lookup k n
    → owned_by id m k ≡ owned_by id n k
owned_cong id m n k e = ground arith

pub owned_claimed :
    (id k : Text) (owners : Assoc Text) (ks : List Text)
    → owned_by id (claim id ks (drop_owned id owners (keys owners) owners)) k ≡ is_key k ks
owned_claimed id k owners ks = elim (Bool-cases (is_key k ks)) [
  | inl mine ↦ owned_some id (claim id ks kept) k (claim_key id k ks kept mine) ∙ sym mine
  | inr free ↦ elim (Bool-cases (owned_by id owners k)) [
    | inl dropped ↦
        owned_none id (claim id ks kept) k (
          claim_other id k ks kept free
          ∙ drop_owned_gone id k owners (keys owners) owners dropped
              (inr (lookup-key k id owners (owned-lookup id owners k dropped))))
        ∙ sym free
    | inr other ↦
        owned_cong id (claim id ks kept) owners k
          (claim_other id k ks kept free ∙ drop_owned_other id k owners (keys owners) owners other)
        ∙ other
        ∙ sym free
  ]
]
  where
    kept : Assoc Text
    kept = drop_owned id owners (keys owners) owners

pub owned_alike :
    (id k : Text) (owners : Assoc Text) (resources : Assoc ResourceBinding)
    → index_differs owners id resources ≡ false
    → owned_by id owners k ≡ is_key k (keys resources)
unfolding index_differs
owned_alike id k owners resources h = elim (Bool-cases (is_key k (keys resources))) [
  | inl mine ↦ rw mine (
      ground
        (arith, any-false (λ j. not (owned_by id owners j)) k (keys resources) (ground arith) mine))
  | inr free ↦ elim (Bool-cases (owned_by id owners k)) [
    | inr other ↦ rw (free, other) refl
    | inl owned ↦
        let listed : is_key k (keys owners) ≡ true =
          lookup-key k id owners (owned-lookup id owners k owned) in
        elim (Option-cases (lookup k resources)) [
          | inr (b, e) ↦ absurd (cc (lookup-key k b resources e, free))
          | inl none' ↦ absurd (
              ground (
                arith,
                any-false
                    (λ j.
                      owned_by id owners j
                      && (elim (lookup j resources) [ none ↦ true | some b ↦ false ]))
                    k (keys owners) (ground arith) listed,
              ))
        ]
  ]
]
