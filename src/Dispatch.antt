-- ===== src/Dispatch.antt =====
-- The queues of requests that wait for an account slot: internal/app/dispatch.go. A waiter is known
-- by a number, for its pointer; `woken` lists those whose channel of capacity one holds a signal.
pub mod Joining
pub mod Heads
pub mod Runs
use aistudio2api.Prelude.{
  ℕ, suc, ◌≡◌, Bool, true, false, ◌||◌, if◌then◌else◌, ◌==◌, ltb, Option, none, some, List, ◌∷◌, [],
  ◌++◌, any, length, take, drop, find_index, Text, Assoc, lookup_or, insert, erase,
}

pub record Waiter : Type 0 where
  pub pointer : ℕ
  pub key : Text

pub record Dispatch : Type 0 where
  pub queues : Assoc (List ℕ)
  pub woken : List ℕ
  pub next : ℕ

unfoldable pub new_dispatch_queue : Dispatch
new_dispatch_queue = record { queues = []; woken = []; next = 0 }

-- A second signal finds the channel full and is dropped.
abbrev pub is_woken : Dispatch → ℕ → Bool
is_woken d w = any (λ v. v == w) d.woken

pub signal : ℕ → Dispatch → Dispatch
signal w d = if is_woken d w then d else record d { woken = w ∷ d.woken }

abbrev pub queue : Dispatch → Text → List ℕ
queue d key = lookup_or [] key d.queues

-- waiters[0].signal(); the empty slice has no element 0.
pub signal_head : List ℕ → Dispatch → Option Dispatch
signal_head [] d = none
signal_head (w ∷ ws) d = some (signal w d)

pub join : Dispatch → Text → Option (Dispatch × Waiter)
join d key =
    let w = d.next in
    let waiters = queue d key ++ w ∷ [] in
    elim (signal_head waiters (record d { queues = insert key waiters d.queues; next = suc w })) [
      | none ↦ none
      | some e ↦ some (e, record { pointer = w; key = key })
    ]

-- slices.Delete(waiters, index, index+1)
abbrev pub delete_at : ℕ → List ℕ → List ℕ
delete_at index ws = take index ws ++ drop (suc index) ws

left_queue : Dispatch → Text → ℕ → List ℕ → Option Dispatch
left_queue d key index [] = some (record d { queues = erase key d.queues })
left_queue d key index (w ∷ ws) =
    let e = record d { queues = insert key (w ∷ ws) d.queues } in
    if index == 0 then signal_head (w ∷ ws) e else some e

pub leave : Dispatch → Waiter → Option Dispatch
unfolding left_queue
leave d w =
    let waiters = queue d w.key in
    let index = find_index (λ v. v == w.pointer) waiters in
    if ltb index (length waiters)
    then left_queue d w.key index (delete_at index waiters)
    else some d

-- The loop over the queues; `none` is the panic of waiters[0].
pub signal_all : Assoc (List ℕ) → Dispatch → Option Dispatch
signal_all [] d = some d
signal_all ((key, ws) ∷ queues) d = elim (signal_head ws d) [
  | none ↦ none
  | some e ↦ signal_all queues e
]

pub wake_heads : Dispatch → Option Dispatch
unfolding signal_all
wake_heads d = signal_all d.queues d
