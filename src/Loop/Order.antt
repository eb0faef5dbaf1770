-- ===== src/Loop/Order.antt =====
-- Jobs run in the order in which they were accepted.
use aistudio2api.Prelude.{
  ℕ, ◌≡◌, inl, inr, refl, sym, ap, subst, ◌∙◌, Bool, true, false, Bool-cases, not, if◌then◌else◌,
  ◌==◌, keep, List, ◌∷◌, [], ◌++◌, append_assoc,
}
use aistudio2api.Loop.{
  Loop, new_event_loop, run, run_from, post, schedule, timer_fires, close, Op, runs, closes, posts,
  fires, schedules, step, steps,
}

-- An open loop has taken the accepted jobs but those that still wait. A closed one has no job, no
-- timer, and took a first part of them.
pub record InOrder (l : Loop) : Type 0 where
  pub waiting : l.closed ≡ false → l.taken ++ l.queue ≡ l.accepted
  pub dropped : l.closed ≡ true → (l.queue ≡ []) × (l.timers ≡ [])
  pub prefix_of : (rest : List ℕ) × (l.taken ++ rest ≡ l.accepted)

run_from-InOrder :
    (l : Loop) (jobs : List ℕ)
    → l.closed ≡ false
    → l.queue ≡ jobs
    → InOrder l
    → InOrder (run_from jobs l)
unfolding run_from
run_from-InOrder l [] c e v = v
run_from-InOrder l (job ∷ jobs) c e v =
    let kept : (l.taken ++ job ∷ []) ++ jobs ≡ l.accepted =
      append_assoc l.taken (job ∷ []) jobs ∙ ap (◌++◌ l.taken) (sym e) ∙ v.waiting c in
    record { waiting = λ h. kept; dropped = λ h. absurd (cc (c, h)); prefix_of = (jobs, kept) }

post_open :
    (l : Loop) (job : ℕ)
    → l.closed ≡ false
    → (post l job).0 ≡ record l { queue = l.queue ++ job ∷ []; accepted = l.accepted ++ job ∷ [] }
unfolding post
post_open l job h =
    ap (λ (r : Loop × Bool). r.0)
      (ap
        (λ b.
          if b
          then (l, false)
          else (record l { queue = l.queue ++ job ∷ []; accepted = l.accepted ++ job ∷ [] }, true))
        h)

post_closed : (l : Loop) (job : ℕ) → l.closed ≡ true → (post l job).0 ≡ l
unfolding post
post_closed l job h =
    ap (λ (r : Loop × Bool). r.0)
      (ap
        (λ b.
          if b
          then (l, false)
          else (record l { queue = l.queue ++ job ∷ []; accepted = l.accepted ++ job ∷ [] }, true))
        h)

append-InOrder :
    (l : Loop) (job : ℕ)
    → l.closed ≡ false
    → InOrder l
    → InOrder record l { queue = l.queue ++ job ∷ []; accepted = l.accepted ++ job ∷ [] }
append-InOrder l job h v =
    let kept : l.taken ++ (l.queue ++ job ∷ []) ≡ l.accepted ++ job ∷ [] =
      sym (append_assoc l.taken l.queue (job ∷ [])) ∙ ap (λ xs. xs ++ job ∷ []) (v.waiting h) in
    record { waiting = λ c. kept; dropped = λ c. absurd (cc (c, h)); prefix_of = (_, kept) }

post-InOrder : (l : Loop) (job : ℕ) → InOrder l → InOrder (post l job).0
post-InOrder l job v = elim (Bool-cases l.closed) [
  | inl h ↦ subst InOrder (sym (post_closed l job h)) v
  | inr h ↦ subst InOrder (sym (post_open l job h)) (append-InOrder l job h v)
]

-- The timers do not matter to an open loop.
timers-InOrder :
    (l : Loop) (ts : List ℕ)
    → (l.closed ≡ true → ts ≡ [])
    → InOrder l
    → InOrder record l { timers = ts }
timers-InOrder l ts e v = record {
  waiting = v.waiting;
  dropped = λ c. ((v.dropped c).0, e c);
  prefix_of = v.prefix_of;
}

closed-InOrder :
    (l : Loop)
    → InOrder l
    → l.closed ≡ false
    → InOrder record l { closed = true; timers = []; queue = [] }
closed-InOrder l v h = record {
  waiting = λ c. absurd (cc c);
  dropped = λ c. (refl, refl);
  prefix_of = v.prefix_of;
}

run-InOrder : (l : Loop) → InOrder l → InOrder (run l)
unfolding run
run-InOrder l v = elim (Bool-cases l.closed) [
  | inl h ↦ subst InOrder (sym (ap (λ b. if b then l else run_from l.queue l) h)) (v)
  | inr h ↦
      subst InOrder (sym (ap (λ b. if b then l else run_from l.queue l) h))
        (run_from-InOrder l l.queue h refl v)
]

close-InOrder : (l : Loop) → InOrder l → InOrder (close l)
unfolding close
close-InOrder l v = elim (Bool-cases l.closed) [
  | inl h ↦
      subst InOrder
        (sym (ap (λ b. if b then l else record l { closed = true; timers = []; queue = [] }) h)) (v)
  | inr h ↦
      subst InOrder
        (sym (ap (λ b. if b then l else record l { closed = true; timers = []; queue = [] }) h))
        (closed-InOrder l v h)
]

schedule-InOrder :
    (l : Loop) (delayed : Bool) (timer job : ℕ) → InOrder l → InOrder (schedule l delayed timer job)
unfolding schedule
schedule-InOrder l false timer job v = post-InOrder l job v
schedule-InOrder l true timer job v = elim (Bool-cases l.closed) [
  | inl h ↦
      subst InOrder (sym (ap (λ b. if b then l else record l { timers = timer ∷ l.timers }) h)) (v)
  | inr h ↦
      subst InOrder (sym (ap (λ b. if b then l else record l { timers = timer ∷ l.timers }) h))
        (timers-InOrder l (timer ∷ l.timers) (λ c. absurd (cc (c, h))) v)
]

step-InOrder : (l : Loop) (o : Op) → InOrder l → InOrder (step l o)
unfolding step timer_fires
step-InOrder l runs v = run-InOrder l v
step-InOrder l (posts job) v = post-InOrder l job v
step-InOrder l (schedules delayed timer job) v = schedule-InOrder l delayed timer job v
step-InOrder l (fires timer) v =
    timers-InOrder l (keep (λ t. not (t == timer)) l.timers)
      (λ c. ap (keep (λ t. not (t == timer))) (v.dropped c).1) v
step-InOrder l closes v = close-InOrder l v

steps-InOrder : (l : Loop) (os : List Op) → InOrder l → InOrder (steps l os)
unfolding steps
steps-InOrder l [] v = v
steps-InOrder l (o ∷ os) v = steps-InOrder (step l o) os (step-InOrder l o v)

new-InOrder : InOrder new_event_loop
unfolding new_event_loop
new-InOrder = record { waiting = λ c. refl; dropped = λ c. absurd (cc c); prefix_of = ([], refl) }

-- After any sequence of operations on a new loop: the jobs taken so far are a first part of the jobs
-- accepted, in the same order; while the loop is open the rest of them is the queue, so that none is
-- lost; once it is closed no job waits and no timer is armed.
pub steps-new_event_loop-InOrder : (os : List Op) → InOrder (steps new_event_loop os)
steps-new_event_loop-InOrder os = steps-InOrder new_event_loop os new-InOrder
