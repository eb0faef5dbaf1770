-- ===== src/Pool/Candidates/Order.antt =====
-- Which accounts `selectionIndicesLocked` offers, and in which order.
use mathlib.Core.List.Perm
use aistudio2api.Prelude.{
  ℕ, zero, suc, ◌+◌, ◌≤◌, ◌≡◌, ◌↔◌, inl, inr, refl, sym, subst, Bool, true, false, not, Option,
  none, some, List, ◌∷◌, [], ◌++◌, get_elem?, keep, All, Perm, Text, codes, str_eq, str_lt,
  str_eq_refl, str_eq_iff, str_lt_asym, str_lt_of_lt_of_le, str_le_trans, is_empty, lookup_or,
  IsSorted, IsUpward, perm-sort_stable, perm-rotate, sort_stable-IsSorted, rotate-find_index, arith,
  Bool-cases, IsIn,
}
use aistudio2api.Pool.Types.{Account, Selection, Pool, ok}
use aistudio2api.Pool.Cooldown.{selection_access_scope}
use aistudio2api.Pool.Candidates.{
  id_at, is_allowed, allowed_indices, round_robin, sorted_indices, free_indices, pinned_account,
  selection_indices, index_of, pointer_id,
}

-- Both strategies offer each allowed account once: no account is left out and none is tried twice.
pub perm-free_indices :
    (p : Pool) (s : Selection)
    → Perm (free_indices p s) (allowed_indices p s.allowed_account_ids 0 p.accounts)
unfolding free_indices sorted_indices
perm-free_indices p s = elim (Bool-cases (str_eq p.routing_strategy round_robin)) [
  | inl h ↦ rw (h, free_indices) (Perm.trans (perm-rotate _ _) (perm-sort_stable _ _))
  | inr h ↦ rw (h, free_indices) (perm-sort_stable _ _)
]

by_id : Pool → ℕ → ℕ → Bool
by_id p left right = str_lt (id_at p left) (id_at p right)

sorted_indices-IsSorted :
    (p : Pool) (s : Selection)
    → IsSorted (λ left right. str_lt (id_at p left) (id_at p right)) (sorted_indices p s)
unfolding sorted_indices
sorted_indices-IsSorted p s =
    sort_stable-IsSorted (λ left right. str_lt (id_at p left) (id_at p right))
      (λ x y. str_lt_asym (id_at p x) (id_at p y))
      (λ x y z. str_le_trans (id_at p x) (id_at p y) (id_at p z))
      (allowed_indices p s.allowed_account_ids 0 p.accounts)

All-upward :
    (p : Pool) (last : Text) (x : ℕ) (xs : List ℕ)
    → All (λ y. str_lt (id_at p y) (id_at p x) ≡ false) xs
    → str_lt last (id_at p x) ≡ true
    → All (λ y. str_lt last (id_at p y) ≡ true) xs
All-upward p last x [] h k = tt
All-upward p last x (y ∷ ys) h k =
    (str_lt_of_lt_of_le last (id_at p x) (id_at p y) k h.0, All-upward p last x ys h.1 k)

IsSorted-IsUpward :
    (p : Pool) (last : Text) (xs : List ℕ)
    → IsSorted (λ left right. str_lt (id_at p left) (id_at p right)) xs
    → IsUpward (λ index. str_lt last (id_at p index)) xs
IsSorted-IsUpward p last [] h = tt
IsSorted-IsUpward p last (x ∷ xs) h = (All-upward p last x xs h.0, IsSorted-IsUpward p last xs h.1)

-- Round robin: first the accounts whose ids come after the one picked last in this scope, in the
-- order of their ids, then those up to it, in that order.
pub free_indices-round_robin :
    (p : Pool) (s : Selection)
    → p.routing_strategy ≡ round_robin
    → let last = lookup_or (codes "") (selection_access_scope s) p.last_picked in
      (free_indices p s
        ≡ keep (λ index. str_lt last (id_at p index)) (sorted_indices p s)
          ++ keep (λ index. not (str_lt last (id_at p index))) (sorted_indices p s))
      × IsSorted (λ left right. str_lt (id_at p left) (id_at p right)) (sorted_indices p s)
unfolding free_indices
free_indices-round_robin p s h = (
  rw (subst (λ t. str_eq t round_robin ≡ true) (sym h) (str_eq_refl round_robin)) (
      rotate-find_index _ (sorted_indices p s)
        (IsSorted-IsUpward p _ (sorted_indices p s) (sorted_indices-IsSorted p s))),
  sorted_indices-IsSorted p s,
)

-- The account of a pointer that the selection allows.
abbrev pub Allowed : Pool → Option (List Text) → Option (Option ℕ) → Type 0
Allowed p allowed pointer =
    (address : ℕ) × (a : Account) × (pointer ≡ some (some address))
    × (get_elem? p.store address ≡ some a)
    × (is_allowed allowed a.id ≡ true)

Allowed-from :
    (p : Pool) (allowed : Option (List Text)) (i n : ℕ) (pointers : List (Option ℕ))
    → IsIn n (allowed_indices p allowed i pointers)
    → (j : ℕ) × (n ≡ i + j) × Allowed p allowed (get_elem? pointers j)
unfolding allowed_indices
Allowed-from p allowed i n [] m = absurd m
Allowed-from p allowed i n (none ∷ ps) m =
    let (j, e, w) = Allowed-from p allowed (suc i) n ps m in (suc j, omega arith, w)
Allowed-from p allowed i n (some address ∷ ps) m =
    at (λ k. Allowed-from p allowed (suc i) n ps k) (get_elem? p.store address) refl
  where
    Found : Type 0
    Found = (j : ℕ) × (n ≡ i + j) × Allowed p allowed (get_elem? (some address ∷ ps) j)

    Rest : Type 0
    Rest =
        IsIn n (allowed_indices p allowed (suc i) ps)
        → (j : ℕ) × (n ≡ suc i + j) × Allowed p allowed (get_elem? ps j)

    later : Rest → IsIn n (allowed_indices p allowed (suc i) ps) → Found
    later rec k = let (j, e, w) = rec k in (suc j, omega arith, w)

    first :
        (a : Account)
        → get_elem? p.store address ≡ some a
        → is_allowed allowed a.id ≡ true
        → n ≡ i
        → Found
    first a e h q = (0, omega arith, (address, a, refl, e, h))

    on : (a : Account) → get_elem? p.store address ≡ some a → Rest → Found
    on a e rec = elim (Bool-cases (is_allowed allowed a.id)) [
      | inl h ↦ elim (rw (e, allowed_indices, h) at m) [
        | inl q ↦ first a e h q
        | inr k ↦ later rec k
      ]
      | inr h ↦ later rec (rw (e, allowed_indices, h) at m)
    ]

    at : Rest → (o : Option Account) → get_elem? p.store address ≡ o → Found
    at rec none e = later rec (rw (e, allowed_indices) at m)
    at rec (some a) e = on a e rec

Allowed-IsIn :
    (p : Pool) (allowed : Option (List Text)) (i j : ℕ) (pointers : List (Option ℕ))
    → Allowed p allowed (get_elem? pointers j)
    → IsIn (i + j) (allowed_indices p allowed i pointers)
unfolding allowed_indices
Allowed-IsIn p allowed i j [] (address, a, e, _, _) = absurd (ground arith)
Allowed-IsIn p allowed i zero (none ∷ ps) (address, a, e, _, _) = absurd (ground arith)
Allowed-IsIn p allowed i zero (some x ∷ ps) (address, a, e, f, h) =
    let here : x ≡ address = ground arith in
    let found : get_elem? p.store x ≡ some a = rw here f in
    rw (found, allowed_indices, h) (inl (omega arith))
Allowed-IsIn p allowed i (suc j) (none ∷ ps) w = moved (Allowed-IsIn p allowed (suc i) j ps w)
  where
    moved :
        IsIn (suc i + j) (allowed_indices p allowed (suc i) ps)
        → IsIn (i + suc j) (allowed_indices p allowed (suc i) ps)
    moved k = let e : suc i + j ≡ i + suc j = omega arith in rw e at k
Allowed-IsIn p allowed i (suc j) (some x ∷ ps) w =
    at (moved (Allowed-IsIn p allowed (suc i) j ps w)) (get_elem? p.store x) refl
  where
    Rest : Type 0
    Rest = IsIn (i + suc j) (allowed_indices p allowed (suc i) ps)

    moved : IsIn (suc i + j) (allowed_indices p allowed (suc i) ps) → Rest
    moved k = let e : suc i + j ≡ i + suc j = omega arith in rw e at k

    at :
        Rest
        → (o : Option Account) → get_elem? p.store x ≡ o
        → IsIn (i + suc j) (allowed_indices p allowed i (some x ∷ ps))
    at k none e = rw (e, allowed_indices) k
    at k (some a) e = elim (Bool-cases (is_allowed allowed a.id)) [
      | inl h ↦ rw (e, allowed_indices, h) (inr k)
      | inr h ↦ rw (e, allowed_indices, h) k
    ]

-- An index is offered exactly if the pool has an account there whose id the selection allows.
pub allowed_indices_iff :
    (p : Pool) (allowed : Option (List Text)) (n : ℕ)
    → IsIn n (allowed_indices p allowed 0 p.accounts) ↔ Allowed p allowed (get_elem? p.accounts n)
allowed_indices_iff p allowed n = (
  λ m.
      let (j, e, w) = Allowed-from p allowed 0 n p.accounts m in
      let same : n ≡ j = omega arith in rw same w,
  λ w. let e : 0 + n ≡ n = omega arith in rw e at (Allowed-IsIn p allowed 0 n p.accounts w),
)

index_of_le :
    (p : Pool) (id : Text) (i n : ℕ) (pointers : List (Option ℕ))
    → index_of p id i pointers ≡ some n
    → i ≤ n
unfolding index_of
index_of_le p id i n [] h = ground arith
index_of_le p id i n (none ∷ ps) h = omega (arith, index_of_le p id (suc i) n ps h)
index_of_le p id i n (some x ∷ ps) h = ground (arith, index_of_le p id (suc i) n ps)

index_of_id :
    (p : Pool) (id : Text) (i j n : ℕ) (pointers : List (Option ℕ))
    → n ≡ i + j
    → index_of p id i pointers ≡ some n
    → pointer_id p (get_elem? pointers j) ≡ id
unfolding index_of
index_of_id p id i j n [] e h = ground arith
index_of_id p id i zero n (none ∷ ps) e h = absurd (omega (arith, index_of_le p id (suc i) n ps h))
index_of_id p id i zero n (some x ∷ ps) e h =
    ground (arith, index_of_le p id (suc i) n ps, str_eq_iff (pointer_id p (some (some x))) id)
index_of_id p id i (suc j) n (none ∷ ps) e h = index_of_id p id (suc i) j n ps (omega arith) h
index_of_id p id i (suc j) n (some x ∷ ps) e h = ground (arith, index_of_id p id (suc i) j n ps)

-- A selection that names an account, or a resource that an account owns, is offered that account
-- alone, and only if the pool has it and the selection allows it.
pub selection_indices_pinned :
    (p : Pool) (s : Selection) (indices : List ℕ) (owner : Text)
    → selection_indices p s ≡ ok indices
    → pinned_account p s ≡ ok owner
    → is_empty owner ≡ false
    → (n : ℕ) × (indices ≡ n ∷ [])
      × (id_at p n ≡ owner)
      × (is_allowed s.allowed_account_ids owner ≡ true)
unfolding selection_indices id_at
selection_indices_pinned p s indices owner h e k = go (index_of p owner 0 p.accounts) refl
  where
    Found : Type 0
    Found =
        (n : ℕ) × (indices ≡ n ∷ [])
        × (id_at p n ≡ owner)
        × (is_allowed s.allowed_account_ids owner ≡ true)

    go : (o : Option ℕ) → index_of p owner 0 p.accounts ≡ o → Found
    go none m = absurd (ground arith)
    go (some n) m =
        (n, ground arith, index_of_id p owner 0 n n p.accounts (omega arith) m, ground arith)
