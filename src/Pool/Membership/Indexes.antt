-- ===== src/Pool/Membership/Indexes.antt =====
-- The two indexes of a pool agree with its accounts, also when one joins.
use aistudio2api.Prelude.{
  ℕ, zero, suc, ◌≡◌, inl, inr, refl, sym, ap, subst, ◌∙◌, true, false, Bool-cases, Option-cases,
  Option, none, some, List, ◌∷◌, [], ◌++◌, length, get_elem?, Text, str_eq, str_eq_iff, is_empty,
  trim_space, Assoc, lookup, lookup-insert, has_key, lookup-has_key, arith,
}
use aistudio2api.Pool.Types.{RuntimeState, Account, Pool, Result, ok, err}
use aistudio2api.Pool.Resources.{keys}
use aistudio2api.Pool.Resources.Index.{is_key, claim_other, claim_key}
use aistudio2api.Pool.Membership.{first_owner, with_file, joined, add}

-- The account registered under an id.
abbrev pub IsAccount : Pool → Text → Account → Type 0
IsAccount p id a =
    (address : ℕ) × (lookup id p.by_id ≡ some address) × (get_elem? p.store address ≡ some a)

-- An id leads to an account with that id, and a resource to the account that has it.
pub record IsIndexed (p : Pool) : Type 0 where
  pub named :
      (id : Text) (address : ℕ)
      → lookup id p.by_id ≡ some address
      → (a : Account) × (get_elem? p.store address ≡ some a) × (a.id ≡ id)
  pub listed :
      (k id : Text)
      → lookup k p.resources ≡ some id
      → (a : Account) × IsAccount p id a × (is_key k (keys a.runtime.resources) ≡ true)
  pub held :
      (k id : Text) (a : Account)
      → IsAccount p id a
      → is_key k (keys a.runtime.resources) ≡ true
      → lookup k p.resources ≡ some id

get_elem?-append :
    (xs : List Account) (a b : Account) (i : ℕ)
    → get_elem? xs i ≡ some b
    → get_elem? (xs ++ a ∷ []) i ≡ some b
get_elem?-append [] a b i h = absurd (cc h)
get_elem?-append (x ∷ xs) a b zero h = h
get_elem?-append (x ∷ xs) a b (suc i) h = get_elem?-append xs a b i h

get_elem?-last : (xs : List Account) (a : Account) → get_elem? (xs ++ a ∷ []) (length xs) ≡ some a
get_elem?-last [] a = refl
get_elem?-last (x ∷ xs) a = get_elem?-last xs a

first_owner-none :
    (owners : Assoc Text) (k : Text) (ks : List Text)
    → first_owner owners ks ≡ none
    → is_key k ks ≡ true
    → lookup k owners ≡ none
unfolding first_owner
first_owner-none owners k [] h e = absurd (cc e)
first_owner-none owners k (j ∷ ks) h e = elim (Bool-cases (str_eq j k)) [
  | inl same ↦ let at : j ≡ k = (str_eq_iff j k).0 same in rw (← at) (ground (arith))
  | inr other ↦ first_owner-none owners k ks (ground (arith)) (ground (arith))
]

joined-IsIndexed :
    (p : Pool) (a : Account)
    → IsIndexed p
    → has_key a.id p.by_id ≡ false
    → first_owner p.resources (keys a.runtime.resources) ≡ none
    → IsIndexed (joined p a)
joined-IsIndexed p a v new free = record {
  named = λ id address h. elim (Bool-cases (str_eq a.id id)) [
    | inl same ↦
        let at : address ≡ length p.store =
          ground (arith, lookup-insert a.id id (length p.store) p.by_id) in
        (a, rw at (get_elem?-last p.store a), (str_eq_iff a.id id).0 same)
    | inr other ↦
        let (b, e, n) =
          v.named id address (ground (arith, lookup-insert a.id id (length p.store) p.by_id)) in
        (b, get_elem?-append p.store a b address e, n)
  ];
  listed = λ k id h. elim (Bool-cases (is_key k (keys a.runtime.resources))) [
    | inl mine ↦
        let same : id ≡ a.id =
          ground (arith, claim_key a.id k (keys a.runtime.resources) p.resources mine) in
        (
          a,
          (
            length p.store,
            rw same (
                ground
                  (arith, lookup-insert a.id a.id (length p.store) p.by_id, str_eq_iff a.id a.id)),
            get_elem?-last p.store a,
          ),
          mine,
        )
    | inr alien ↦
        let (b, (address, e, f), has) =
          v.listed k id
            (ground (arith, claim_other a.id k (keys a.runtime.resources) p.resources alien)) in
        (
          b,
          (
            address,
            ground
                (arith, lookup-insert a.id id (length p.store) p.by_id, str_eq_iff a.id id, absent),
            get_elem?-append p.store a b address f,
          ),
          has,
        )
  ];
  held = λ k id b c has.
      let (address, e, f) = c in
      elim (Bool-cases (str_eq a.id id)) [
        | inl same ↦
            let at : address ≡ length p.store =
              ground (arith, lookup-insert a.id id (length p.store) p.by_id) in
            let own : b ≡ a = ground (arith, get_elem?-last p.store a) in
            let mine : is_key k (keys a.runtime.resources) ≡ true =
              subst (λ (x : Account). is_key k (keys x.runtime.resources) ≡ true) own has in
            claim_key a.id k (keys a.runtime.resources) p.resources mine
            ∙ ap some ((str_eq_iff a.id id).0 same)
        | inr other ↦
            let there : lookup id p.by_id ≡ some address =
              ground (arith, lookup-insert a.id id (length p.store) p.by_id) in
            let (d, g, n) = v.named id address there in
            let own : d ≡ b = ground (arith, get_elem?-append p.store a d address g) in
            let theirs : is_key k (keys d.runtime.resources) ≡ true =
              subst (λ (x : Account). is_key k (keys x.runtime.resources) ≡ true) (sym own) has in
            let indexed = v.held k id d (address, there, g) theirs in
            elim (Bool-cases (is_key k (keys a.runtime.resources))) [
              | inl mine ↦ absurd (
                  ground (
                    arith,
                    indexed,
                    first_owner-none p.resources k (keys a.runtime.resources) free mine,
                  ))
              | inr alien ↦
                  claim_other a.id k (keys a.runtime.resources) p.resources alien ∙ indexed
            ]
      ];
}
  where
    absent : lookup a.id p.by_id ≡ none
    absent = lookup-has_key a.id p.by_id new

with_file-id : (a : Account) (file : Option RuntimeState) → (with_file a file).id ≡ a.id
with_file-id a none = refl
with_file-id a (some r) = refl

pub add-IsIndexed :
    (p : Pool) (account : Account) (file : Result (Option RuntimeState)) (q : Pool)
    → add p account file ≡ ok q
    → IsIndexed p
    → IsIndexed q
unfolding add
add-IsIndexed p account (err e) q h v = absurd (ground (arith, h))
add-IsIndexed p account (ok file) q h v =
    let a = with_file account file in
    elim (Bool-cases (is_empty (trim_space account.id))) [
      | inl blank ↦ absurd (ground (arith, h, blank))
      | inr named ↦ elim (Bool-cases (has_key account.id p.by_id)) [
        | inl there ↦ absurd (ground (arith, h, named, there))
        | inr new ↦ elim (Option-cases (first_owner p.resources (keys a.runtime.resources))) [
          | inr (owner, bound) ↦ absurd (ground (arith, h, named, new, bound))
          | inl free ↦
              let same : joined p a ≡ q = ground (arith, h, named, new, free) in
              subst IsIndexed same
                (joined-IsIndexed p a v (rw (with_file-id account file) new) free)
        ]
      ]
    ]
