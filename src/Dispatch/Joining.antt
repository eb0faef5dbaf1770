-- ===== src/Dispatch/Joining.antt =====
-- Joining a queue, and what signalling a head does to the queues.
use aistudio2api.Prelude.{
  ℕ, suc, ◌≡◌, ◌≢◌, inl, inr, refl, sym, ap, ◌∙◌, true, if◌then◌else◌, Option, none, some,
  Bool-cases, List, ◌∷◌, [], ◌++◌, All, Text, str_eq, Assoc, lookup, lookup_or, insert, erase,
  lookup-insert, arith,
}
use aistudio2api.Dispatch.{Dispatch, is_woken, signal, queue, signal_head, join, signal_all}

-- No queue that is kept is empty.
abbrev pub IsFilled : Assoc (List ℕ) → Type 0
IsFilled queues = All (λ (e : Text × List ℕ). e.1 ≢ []) queues

pub insert-IsFilled :
    (key : Text) (w : ℕ) (ws : List ℕ) (m : Assoc (List ℕ))
    → IsFilled m
    → IsFilled (insert key (w ∷ ws) m)
unfolding insert
insert-IsFilled key w ws [] h = (λ e. cc, tt)
insert-IsFilled key w ws ((k, v) ∷ m) h = elim (Bool-cases (str_eq k key)) [
  | inl same ↦ rw same (λ e. cc, h.1)
  | inr other ↦ rw other (h.0, insert-IsFilled key w ws m h.1)
]

pub erase-IsFilled : (key : Text) (m : Assoc (List ℕ)) → IsFilled m → IsFilled (erase key m)
unfolding erase
erase-IsFilled key [] h = tt
erase-IsFilled key ((k, v) ∷ m) h = elim (Bool-cases (str_eq k key)) [
  | inl same ↦ rw same (erase-IsFilled key m h.1)
  | inr other ↦ rw other (h.0, erase-IsFilled key m h.1)
]

pub signal-queues : (w : ℕ) (d : Dispatch) → (signal w d).queues ≡ d.queues
unfolding signal
signal-queues w d = ground arith

pub signal-woken : (w : ℕ) (d : Dispatch) → is_woken (signal w d) w ≡ true
unfolding signal
signal-woken w d = ground arith

pub signal-keeps : (w v : ℕ) (d : Dispatch) → is_woken d v ≡ true → is_woken (signal w d) v ≡ true
unfolding signal
signal-keeps w v d h = ground arith

abbrev pub first : List ℕ → Option ℕ
first [] = none
first (w ∷ ws) = some w

-- The loop of wakeHeads signals the head of every queue and changes no queue.
abbrev pub Woke : Assoc (List ℕ) → Dispatch → Dispatch → Type 0
Woke queues d e =
    (e.queues ≡ d.queues)
    × ((w : ℕ) → is_woken d w ≡ true → is_woken e w ≡ true)
    × ((key : Text) (w : ℕ) → first (lookup_or [] key queues) ≡ some w → is_woken e w ≡ true)

pub wakes :
    (queues : Assoc (List ℕ)) (d : Dispatch)
    → IsFilled queues
    → (e : Dispatch) × (signal_all queues d ≡ some e) × Woke queues d e
unfolding signal_all signal_head lookup
wakes [] d h = (d, refl, (refl, λ w k. k, λ key w k. cc))
wakes ((key, []) ∷ queues) d h = absurd (h.0 refl)
wakes ((key, w ∷ ws) ∷ queues) d h =
    let (e, run, (same, kept, heads)) = wakes queues (signal w d) h.1 in
    (
      e,
      run,
      (
        same ∙ signal-queues w d,
        λ v k. kept v (signal-keeps w v d k),
        λ other v k. ground (arith, kept w (signal-woken w d), heads other v),
      ),
    )

pub snoc_cons : (xs : List ℕ) (w : ℕ) → (v : ℕ) × (vs : List ℕ) × (xs ++ w ∷ [] ≡ v ∷ vs)
snoc_cons [] w = (w, [], refl)
snoc_cons (x ∷ xs) w = (x, xs ++ w ∷ [], refl)

abbrev pub head : Dispatch → Text → Option ℕ
head d key = first (queue d key)

-- Whoever heads a queue that he did not head before has a signal.
abbrev pub NewHeadsWoken : Dispatch → Dispatch → Type 0
NewHeadsWoken d e =
    (key : Text) (w : ℕ) → head e key ≡ some w → head d key ≢ some w → is_woken e w ≡ true

pub head-signal : (v : ℕ) (d : Dispatch) (key : Text) → head (signal v d) key ≡ head d key
head-signal v d key = ap (λ queues. first (lookup_or [] key queues)) (signal-queues v d)

-- One queue is written, and its head signalled.
pub written :
    (d b : Dispatch) (key : Text) (v : ℕ) (vs : List ℕ)
    → b.queues ≡ insert key (v ∷ vs) d.queues
    → NewHeadsWoken d (signal v b)
written d b key v vs e other w h n = elim (Bool-cases (str_eq key other)) [
  | inl same ↦
      let now : head b other ≡ some v = ground (arith, lookup-insert key other (v ∷ vs) d.queues) in
      let it : v ≡ w = ground (arith, head-signal v b other) in rw (← it) (signal-woken v b)
  | inr differ ↦
      let old : head b other ≡ head d other =
        ground (arith, lookup-insert key other (v ∷ vs) d.queues) in
      absurd (n (sym old ∙ sym (head-signal v b other) ∙ h))
]

abbrev pub with_waiter : Dispatch → Text → Dispatch
with_waiter d key = record d {
  queues = insert key (queue d key ++ d.next ∷ []) d.queues;
  next = suc d.next;
}

-- Joining never panics, keeps every queue filled and in order with the newcomer last, and wakes a
-- head that is new.
pub join_lem :
    (d : Dispatch) (key : Text)
    → IsFilled d.queues
    → (e : Dispatch) × (join d key ≡ some (e, record { pointer = d.next; key = key }))
      × IsFilled e.queues
      × ((other : Text)
          → queue e other
            ≡ (if str_eq key other then queue d key ++ d.next ∷ [] else queue d other))
      × NewHeadsWoken d e
unfolding join signal_head
join_lem d key h = go (snoc_cons (queue d key) d.next)
  where
    go :
        ((v : ℕ) × (vs : List ℕ) × (queue d key ++ d.next ∷ [] ≡ v ∷ vs))
        → (e : Dispatch) × (join d key ≡ some (e, record { pointer = d.next; key = key }))
          × IsFilled e.queues
          × ((other : Text)
              → queue e other
                ≡ (if str_eq key other then queue d key ++ d.next ∷ [] else queue d other))
          × NewHeadsWoken d e
    go (v, vs, e) = (
      signal v (with_waiter d key),
      ground arith,
      rw (signal-queues v (with_waiter d key), e) (insert-IsFilled key v vs d.queues h),
      λ other. ground (
        arith,
        signal-queues v (with_waiter d key),
        lookup-insert key other (queue d key ++ d.next ∷ []) d.queues,
      ),
      written d (with_waiter d key) key v vs (ap (λ ws. insert key ws d.queues) e),
    )
