-- ===== src/Api/Signatures/Fifo.antt =====
-- The store holds the latest signatures, as many as its capacity at most, and gives them back.
use aistudio2api.Prelude.{
  ℕ, ◌≤◌, ◌<◌, ◌≡◌, inl, inr, refl, ap, ◌∙◌, Bool, false, ◌||◌, leb, Bool-cases, some, List, ◌∷◌,
  [], ◌++◌, any, length, Text, is_empty, str_eq, str_eq_iff, str_eq_refl, Assoc, lookup, insert,
  erase, lookup-insert, lookup-erase, arith,
}
use aistudio2api.Api.Signatures.{
  FunctionCall, ThoughtSignatureStore, thought_signature_capacity, new_thought_signature_store,
  thought_signature_key, is_key_of, put, remember_calls, evict, remember, restore_part,
}

abbrev pub is_listed : Text → List Text → Bool
is_listed k = any (λ j. str_eq j k)

abbrev pub IsDistinct : List Text → Type 0
IsDistinct [] = Unit
IsDistinct (k ∷ ks) = (is_listed k ks ≡ false) × IsDistinct ks

-- The order lists each key of the map once, and nothing else.
pub record IsOrdered (store : ThoughtSignatureStore) : Type 0 where
  pub distinct : IsDistinct store.order
  pub listed : (k : Text) → is_listed k store.order ≡ is_key_of store k

is_listed-append :
    (k j : Text) (ks : List Text) → is_listed k (ks ++ j ∷ []) ≡ (is_listed k ks || str_eq j k)
is_listed-append k j [] = ground arith
is_listed-append k j (i ∷ ks) = ground (arith, is_listed-append k j ks)

append-IsDistinct :
    (j : Text) (ks : List Text) → is_listed j ks ≡ false → IsDistinct ks → IsDistinct (ks ++ j ∷ [])
append-IsDistinct j [] h d = (refl, tt)
append-IsDistinct j (k ∷ ks) h d = (
  ground (arith, is_listed-append k j ks, str_eq_iff j k, str_eq_iff k j, d.0),
  append-IsDistinct j ks (ground arith) d.1,
)

put-IsOrdered :
    (s : ThoughtSignatureStore) (key signature : Text)
    → IsOrdered s
    → IsOrdered (put s key signature)
unfolding put
put-IsOrdered s key signature v = elim (Bool-cases (is_key_of s key)) [
  | inl old ↦ record {
    distinct = ground (arith, v.distinct);
    listed = λ k.
        ground (arith, v.listed k, lookup-insert key k signature s.signatures, str_eq_iff key k);
  }
  | inr new ↦ record {
    distinct = ground (arith, append-IsDistinct key s.order (v.listed key ∙ new) v.distinct);
    listed = λ k. ground (
      arith,
      v.listed k,
      lookup-insert key k signature s.signatures,
      is_listed-append k key s.order,
    );
  }
]

remember_calls-IsOrdered :
    (canonical : Text → Text) (s : ThoughtSignatureStore) (calls : List FunctionCall)
    → IsOrdered s
    → IsOrdered (remember_calls canonical s calls)
unfolding remember_calls
remember_calls-IsOrdered canonical s [] v = v
remember_calls-IsOrdered canonical s (call ∷ calls) v =
    elim (Bool-cases (is_empty call.id || is_empty call.thought_signature)) [
      | inl skip ↦ rw (skip, remember_calls) (remember_calls-IsOrdered canonical s calls v)
      | inr keep ↦
          rw (keep, remember_calls)
            (remember_calls-IsOrdered canonical
              (put s (thought_signature_key canonical call) call.thought_signature) calls
              (put-IsOrdered s (thought_signature_key canonical call) call.thought_signature v))
    ]

evict-IsOrdered :
    (cap : ℕ) (m : Assoc Text) (ks : List Text)
    → IsOrdered (record { signatures = m; order = ks })
    → IsOrdered (evict cap m ks) × (length (evict cap m ks).order ≤ cap)
unfolding evict
evict-IsOrdered cap m [] v = (v, omega arith)
evict-IsOrdered cap m (k ∷ ks) v = elim (Bool-cases (leb (length (k ∷ ks)) cap)) [
  | inl fits ↦ rw fits (v, ground arith)
  | inr over ↦ rw over (
      evict-IsOrdered cap (erase k m) ks (record {
        distinct = v.distinct.1;
        listed = λ j. ground (arith, v.listed j, lookup-erase k j m, str_eq_iff k j, v.distinct.0);
      }))
]

-- What any sequence of calls of Remember leaves of a new store.
pub remembered :
    (Text → Text) → ThoughtSignatureStore → List (List FunctionCall) → ThoughtSignatureStore
remembered canonical s [] = s
remembered canonical s (calls ∷ rest) = remembered canonical (remember canonical s calls) rest

remember-IsOrdered :
    (canonical : Text → Text) (s : ThoughtSignatureStore) (calls : List FunctionCall)
    → IsOrdered s
    → IsOrdered (remember canonical s calls)
      × (length (remember canonical s calls).order ≤ thought_signature_capacity)
unfolding remember
remember-IsOrdered canonical s calls v =
    let kept = remember_calls-IsOrdered canonical s calls v in
    evict-IsOrdered thought_signature_capacity (remember_calls canonical s calls).signatures
      (remember_calls canonical s calls).order kept

remembered-IsOrdered :
    (canonical : Text → Text) (s : ThoughtSignatureStore) (batches : List (List FunctionCall))
    → IsOrdered s
    → length s.order ≤ thought_signature_capacity
    → IsOrdered (remembered canonical s batches)
      × (length (remembered canonical s batches).order ≤ thought_signature_capacity)
unfolding remembered
remembered-IsOrdered canonical s [] v b = (v, b)
remembered-IsOrdered canonical s (calls ∷ rest) v b =
    let (w, c) = remember-IsOrdered canonical s calls v in
    remembered-IsOrdered canonical (remember canonical s calls) rest w c

-- However many calls are remembered, the order lists each stored key once and nothing else, and
-- there are at most 4096 of them.
pub remembered-new_thought_signature_store :
    (canonical : Text → Text) (batches : List (List FunctionCall))
    → IsOrdered (remembered canonical new_thought_signature_store batches)
      × (length (remembered canonical new_thought_signature_store batches).order
          ≤ thought_signature_capacity)
unfolding new_thought_signature_store
remembered-new_thought_signature_store canonical batches =
    remembered-IsOrdered canonical new_thought_signature_store batches
      (record { distinct = tt; listed = λ k. unfold lookup in refl }) (omega arith)

-- A new key goes to the end, so that evicting to a positive capacity spares it.
evict_last :
    (cap : ℕ) (m : Assoc Text) (ks : List Text) (key : Text)
    → 0 < cap
    → is_listed key ks ≡ false
    → lookup key (evict cap m (ks ++ key ∷ [])).signatures ≡ lookup key m
unfolding evict
evict_last cap m [] key h n = elim (Bool-cases (leb 1 cap)) [
  | inl fits ↦ rw fits refl
  | inr over ↦ absurd (ground (arith))
]
evict_last cap m (k ∷ ks) key h n = elim (Bool-cases (leb (length (k ∷ ks ++ key ∷ [])) cap)) [
  | inl fits ↦ rw fits refl
  | inr over ↦
      rw over
        (evict_last cap (erase k m) ks key h (ground arith) ∙ ground (arith, lookup-erase k key m))
]

evict_fits :
    (cap : ℕ) (m : Assoc Text) (ks : List Text)
    → length ks ≤ cap
    → evict cap m ks ≡ record { signatures = m; order = ks }
unfolding evict
evict_fits cap m [] h = refl
evict_fits cap m (k ∷ ks) h = ground arith

put_survives :
    (cap : ℕ) (s : ThoughtSignatureStore) (key signature : Text)
    → 0 < cap
    → IsOrdered s
    → length s.order ≤ cap
    → lookup key (evict cap (put s key signature).signatures (put s key signature).order).signatures
      ≡ some signature
unfolding put
put_survives cap s key signature h v b = elim (Bool-cases (is_key_of s key)) [
  | inl old ↦
      rw (old, evict_fits cap (insert key signature s.signatures) s.order b)
        (ground (arith, lookup-insert key key signature s.signatures, str_eq_refl key))
  | inr new ↦ rw new (
      evict_last cap (insert key signature s.signatures) s.order key h (v.listed key ∙ new)
      ∙ ground (arith, lookup-insert key key signature s.signatures, str_eq_refl key))
]

remember_one :
    (canonical : Text → Text) (s : ThoughtSignatureStore) (call : FunctionCall)
    → is_empty call.id ≡ false
    → is_empty call.thought_signature ≡ false
    → remember_calls canonical s (call ∷ [])
      ≡ put s (thought_signature_key canonical call) call.thought_signature
unfolding remember_calls
remember_one canonical s call i g = ground arith

remembers :
    (canonical : Text → Text) (s : ThoughtSignatureStore) (call : FunctionCall)
    → IsOrdered s
    → length s.order ≤ thought_signature_capacity
    → is_empty call.id ≡ false
    → is_empty call.thought_signature ≡ false
    → lookup (thought_signature_key canonical call) (remember canonical s (call ∷ [])).signatures
      ≡ some call.thought_signature
unfolding remember
remembers canonical s call v b i g =
    ap
      (λ (t : ThoughtSignatureStore).
        lookup (thought_signature_key canonical call)
          (evict thought_signature_capacity t.signatures t.order).signatures)
      (remember_one canonical s call i g)
    ∙ put_survives thought_signature_capacity s (thought_signature_key canonical call)
        call.thought_signature (omega arith) v b

-- A call whose signature was just remembered gets it back when a client returns the call without it,
-- whatever was remembered before: the store may be full.
pub restore_part-remember :
    (canonical : Text → Text) (s : ThoughtSignatureStore) (call : FunctionCall)
    → IsOrdered s
    → length s.order ≤ thought_signature_capacity
    → is_empty call.id ≡ false
    → is_empty call.thought_signature ≡ false
    → restore_part canonical (remember canonical s (call ∷ [])) (record {
      function_call = some (record call { thought_signature = [] });
      thought_signature = [];
    })
      ≡ record { function_call = some call; thought_signature = [] }
unfolding restore_part thought_signature_key
restore_part-remember canonical s call v b i g = ground (arith, remembers canonical s call v b i g)
