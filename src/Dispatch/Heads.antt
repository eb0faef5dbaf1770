-- ===== src/Dispatch/Heads.antt =====
-- Leaving a queue, and waking the heads of all queues.
use aistudio2api.Prelude.{
  ℕ, ◌≡◌, inl, inr, refl, true, false, if◌then◌else◌, ◌==◌, ltb, some, Bool-cases, List, ◌∷◌, [],
  length, find_index, Text, str_eq, str_eq_iff, insert, erase, lookup-insert, lookup-erase, arith,
}
use aistudio2api.Dispatch.{
  Waiter, Dispatch, is_woken, signal, queue, signal_head, delete_at, leave, wake_heads,
}
use aistudio2api.Dispatch.Joining.{
  IsFilled, NewHeadsWoken, erase-IsFilled, first, head, insert-IsFilled, signal-queues, wakes,
  written,
}

-- The queue without the first entry of a waiter.
abbrev pub without : ℕ → List ℕ → List ℕ
without w [] = []
without w (v ∷ vs) = if v == w then vs else v ∷ without w vs

delete-without : (w : ℕ) (ws : List ℕ) → delete_at (find_index (λ v. v == w) ws) ws ≡ without w ws
delete-without w [] = refl
delete-without w (v ∷ vs) = ground (arith, delete-without w vs)

without_absent :
    (w : ℕ) (ws : List ℕ)
    → ltb (find_index (λ v. v == w) ws) (length ws) ≡ false
    → without w ws ≡ ws
without_absent w [] h = refl
without_absent w (v ∷ vs) h = ground (arith, without_absent w vs)

first_kept :
    (w x : ℕ) (ws xs : List ℕ)
    → (find_index (λ v. v == w) ws == 0) ≡ false
    → without w ws ≡ x ∷ xs
    → first ws ≡ some x
first_kept w x [] xs h e = ground arith
first_kept w x (v ∷ vs) xs h e = ground arith

-- What leaving promises of the state after it.
abbrev pub Left : Dispatch → Waiter → Dispatch → Type 0
Left d w e =
    IsFilled e.queues
    × ((other : Text)
        → queue e other
          ≡ (if str_eq w.key other then without w.pointer (queue d w.key) else queue d other))
    × NewHeadsWoken d e

erased :
    (d : Dispatch) (w : Waiter)
    → IsFilled d.queues
    → without w.pointer (queue d w.key) ≡ []
    → Left d w (record d { queues = erase w.key d.queues })
erased d w h e = (
  erase-IsFilled w.key d.queues h,
  λ other. ground (arith, lookup-erase w.key other d.queues),
  λ other x k n. ground (arith, lookup-erase w.key other d.queues),
)

kept_queue :
    (d : Dispatch) (w : Waiter) (x : ℕ) (xs : List ℕ)
    → IsFilled d.queues
    → without w.pointer (queue d w.key) ≡ x ∷ xs
    → first (queue d w.key) ≡ some x
    → Left d w (record d { queues = insert w.key (x ∷ xs) d.queues })
kept_queue d w x xs h e f = (
  insert-IsFilled w.key x xs d.queues h,
  λ other. ground (arith, lookup-insert w.key other (x ∷ xs) d.queues),
  λ other y k n.
      ground (arith, str_eq_iff w.key other, lookup-insert w.key other (x ∷ xs) d.queues),
)

signalled :
    (d : Dispatch) (w : Waiter) (x : ℕ) (xs : List ℕ)
    → IsFilled d.queues
    → without w.pointer (queue d w.key) ≡ x ∷ xs
    → Left d w (signal x (record d { queues = insert w.key (x ∷ xs) d.queues }))
signalled d w x xs h e =
    let b : Dispatch = record d { queues = insert w.key (x ∷ xs) d.queues } in
    (
      rw (signal-queues x b) (insert-IsFilled w.key x xs d.queues h),
      λ other. ground (arith, signal-queues x b, lookup-insert w.key other (x ∷ xs) d.queues),
      written d b w.key x xs refl,
    )

-- Leaving never panics either. It takes just the waiter out of its queue, keeps every queue filled
-- and in order, and wakes a head that is new.
pub leave_lem :
    (d : Dispatch) (w : Waiter)
    → IsFilled d.queues
    → (e : Dispatch) × (leave d w ≡ some e) × Left d w e
unfolding leave signal_head
leave_lem d w h = elim (Bool-cases (ltb index (length (queue d w.key)))) [
  | inr absent ↦ (
    d,
    ground arith,
    (
      h,
      λ other.
          ground (arith, str_eq_iff w.key other, without_absent w.pointer (queue d w.key) absent),
      λ other x k n. absurd (n k),
    ),
  )
  | inl there ↦ go there (without w.pointer (queue d w.key)) refl
]
  where
    index : ℕ
    index = find_index (λ v. v == w.pointer) (queue d w.key)

    go :
        ltb index (length (queue d w.key)) ≡ true
        → (rest : List ℕ) → without w.pointer (queue d w.key) ≡ rest
        → (e : Dispatch) × (leave d w ≡ some e) × Left d w e
    go there [] e = (
      record d { queues = erase w.key d.queues },
      ground (arith, delete-without w.pointer (queue d w.key)),
      erased d w h e,
    )
    go there (x ∷ xs) e = elim (Bool-cases (index == 0)) [
      | inl front ↦ (
        signal x (record d { queues = insert w.key (x ∷ xs) d.queues }),
        ground (arith, delete-without w.pointer (queue d w.key)),
        signalled d w x xs h e,
      )
      | inr behind ↦ (
        record d { queues = insert w.key (x ∷ xs) d.queues },
        ground (arith, delete-without w.pointer (queue d w.key)),
        kept_queue d w x xs h e (first_kept w.pointer x (queue d w.key) xs behind e),
      )
    ]

-- Waking the heads never panics on filled queues; every head has a signal then, and the queues stay
-- as they were.
pub wake_heads_lem :
    (d : Dispatch)
    → IsFilled d.queues
    → (e : Dispatch) × (wake_heads d ≡ some e)
      × (e.queues ≡ d.queues)
      × ((key : Text) (w : ℕ) → head d key ≡ some w → is_woken e w ≡ true)
unfolding wake_heads
wake_heads_lem d h = let (e, run, (same, _, heads)) = wakes d.queues d h in (e, run, same, heads)
