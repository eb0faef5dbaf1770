-- ===== src/Pool/Acquire/Rounds.antt =====
-- What holds of the world before a call of `AcquireFor` or `TryAcquireFor` and is kept by what happens
-- in its rounds holds after it.
use aistudio2api.Prelude.{
  ◌≡◌, refl, Bool, true, false, not, if_cases, Option, none, some, List, ◌∷◌, [], is_empty,
}
use aistudio2api.Pool.Types.{Selection, Pool, Lease, Error}
use aistudio2api.Pool.Leases.{Acquired, leased, nothing, failed, try_acquire, validate_selection}
use aistudio2api.Pool.Leases.World.{World}
use aistudio2api.Pool.Acquire.{
  Turn, Settled, kept, again, gave_up, settle, Answer, granted, none_now, error, accounts_not_ready,
  canceled, unsettled, resume, proceed, unless_invalid, wants_refresh, try_turn, turn, try_rounds,
  rounds, try_acquire_for, acquire_for,
}

-- `I` is what is kept while no lease is held, `G` what is to hold of a lease that is returned.
abbrev pub Settles : (I : World → Type 0) (G : World → Lease → Type 0) → Settled → Type 0
Settles I G (kept w l) = G w l
Settles I G (again w) = I w
Settles I G (gave_up w e) = I w

abbrev pub Holds : (I : World → Type 0) (G : World → Lease → Type 0) → Answer → Type 0
Holds I G (granted w l) = G w l
Holds I G (none_now w waitable) = I w
Holds I G (error w e) = I w
Holds I G (accounts_not_ready w) = I w
Holds I G (canceled w) = I w
Holds I G (unsettled w) = I w

abbrev pub All : (T : Turn → Type 0) → List Turn → Type 0
All T [] = Unit
All T (t ∷ ts) = T t × All T ts

module _ (I : World → Type 0) (G : World → Lease → Type 0) where
  resume-Holds :
      (next : World → Answer) (x : Settled)
      → Settles I G x
      → ((v : World) → I v → Holds I G (next v))
      → Holds I G (resume next x)
  resume-Holds next (kept w fresh) h k = h
  resume-Holds next (again w) h k = k w h
  resume-Holds next (gave_up w e) h k = h

  proceed-Holds :
      (next : World → Answer) (x : World × Option Error)
      → I x.0
      → ((v : World) → I v → Holds I G (next v))
      → Holds I G (proceed next x)
  proceed-Holds next (w, none) h k = k w h
  proceed-Holds next (w, some e) h k = h

  unless_invalid-Holds :
      (w : World) (o : Option Error) (x : Answer)
      → I w
      → Holds I G x
      → Holds I G (unless_invalid w o x)
  unless_invalid-Holds w none x h k = k
  unless_invalid-Holds w (some e) x h k = h

  module _ (T : Turn → Type 0) (s : Selection)
      (settles : (t : Turn) (w : World) (q : Pool) (l : Lease)
        → T t
        → I w
        → try_acquire w.pool s t.os t.now ≡ leased q l
        → Settles I G (settle s t (record w { pool = q }) l))
      (refresh_keeps : (t : Turn) (w : World) → T t → I w → I (t.refresh_selection w).0)
      (wait_keeps : (t : Turn) (w : World) → T t → I w → I (t.wait w)) where
    module _ (refreshed : Bool) (w : World) (t : Turn) (next : Bool → World → Answer) (f : T t)
        (h : I w) (k : (r : Bool) (v : World) → I v → Holds I G (next r v)) where
      try_turn-Holds :
          (x : Acquired)
          → try_acquire w.pool s t.os t.now ≡ x
          → Holds I G (try_turn s refreshed w t next x)
      unfolding try_turn
      try_turn-Holds (failed e) g = h
      try_turn-Holds (nothing earliest waitable) g =
          if_cases (Holds I G) (wants_refresh refreshed earliest waitable)
            (λ y.
              proceed-Holds (next true) (t.refresh_selection w) (refresh_keeps t w f h) (k true))
            (λ n. h)
      try_turn-Holds (leased q l) g =
          resume-Holds (next refreshed) _ (settles t w q l f h g) (k refreshed)

      turn-Holds :
          (x : Acquired)
          → try_acquire w.pool s t.os t.now ≡ x
          → Holds I G (turn s refreshed w t next x)
      unfolding turn
      turn-Holds (failed e) g = h
      turn-Holds (nothing earliest waitable) g =
          let waited = wait_keeps t w f h in
          if_cases (Holds I G) (wants_refresh refreshed earliest waitable)
            (λ y.
              proceed-Holds (next true) (t.refresh_selection w) (refresh_keeps t w f h) (k true))
            (λ n.
              if_cases (Holds I G) (not waitable) (λ y. h)
                (λ m.
                  if_cases (Holds I G) t.is_done (λ y. waited)
                    (λ o. k refreshed (t.wait w) waited)))
      turn-Holds (leased q l) g =
          resume-Holds (next refreshed) _ (settles t w q l f h g) (k refreshed)

    try_rounds-Holds :
        (refreshed : Bool) (w : World) (ts : List Turn)
        → All T ts
        → I w
        → Holds I G (try_rounds s refreshed w ts)
    unfolding try_rounds
    try_rounds-Holds refreshed w [] f h = h
    try_rounds-Holds refreshed w (t ∷ ts) f h =
        unless_invalid-Holds w (validate_selection w.pool s) _ h (
          try_turn-Holds refreshed w t (λ r v. try_rounds s r v ts) f.0 h
            (λ r v g. try_rounds-Holds r v ts f.1 g) (try_acquire w.pool s t.os t.now) refl)

    rounds-Holds :
        (refreshed : Bool) (w : World) (ts : List Turn)
        → All T ts
        → I w
        → Holds I G (rounds s refreshed w ts)
    unfolding rounds
    rounds-Holds refreshed w [] f h = h
    rounds-Holds refreshed w (t ∷ ts) f h =
        unless_invalid-Holds w (validate_selection w.pool s) _ h (
          turn-Holds refreshed w t (λ r v. rounds s r v ts) f.0 h
            (λ r v g. rounds-Holds r v ts f.1 g) (try_acquire w.pool s t.os t.now) refl)

    pub acquire_for-Holds :
        (refresh_resource : World → World × Option Error) (w : World) (ts : List Turn)
        → ((v : World) → I v → I (refresh_resource v).0)
        → All T ts
        → I w
        → Holds I G (acquire_for refresh_resource s w ts)
          × Holds I G (try_acquire_for refresh_resource s w ts)
    unfolding acquire_for try_acquire_for
    acquire_for-Holds refresh_resource w ts r f h = (
      if_cases (Holds I G) (is_empty s.resource_id) (λ y. rounds-Holds false w ts f h)
          (λ n. proceed-Holds _ (refresh_resource w) (r w h) (λ v g. rounds-Holds false v ts f g)),
      if_cases (Holds I G) (is_empty s.resource_id) (λ y. try_rounds-Holds false w ts f h)
          (λ n.
            proceed-Holds _ (refresh_resource w) (r w h) (λ v g. try_rounds-Holds false v ts f g)),
    )
