-- ===== src/App/Lifecycle/Parts.antt =====
-- The parts of Start and of the goroutines keep the invariant.
use aistudio2api.Prelude.{
  ℕ, suc, ◌<◌, ◌≡◌, refl, sym, subst, ◌∙◌, true, false, none, some, List, ◌∷◌, [], ◌++◌, arith,
}
use aistudio2api.App.Lifecycle.{Service, is_running, is_launching, launches, start}
use aistudio2api.App.Lifecycle.World.{
  Task, launch, end_launch, end_run, end_workers, World, has, Picks,
}
use aistudio2api.App.Lifecycle.Invariant.{
  distinct, below, has-below, below_mono, Owns, Held, Serves, IsSound, owned, none-Held, one-Held,
  idle,
}

module _ {E : Type 0} where
  -- The goroutine goes on where a part leaves what it relies on.
  pub still-Held :
      (ts : List (Task E)) (w u : World E)
      → u.service.state ≡ w.service.state
      → u.service.transition_done ≡ w.service.transition_done
      → u.service.data_context ≡ w.service.data_context
      → u.service.data_cancel ≡ w.service.data_cancel
      → u.closed ≡ w.closed
      → u.next ≡ w.next
      → ((d : ℕ) → has d w.pending ≡ false → has d u.pending ≡ false)
      → Held ts w
      → Held ts u
  still-Held [] w u st td ctx cancel closed next pending h = ground arith
  still-Held (launch done context attached ∷ []) w u st td ctx cancel closed next pending h =
      ground (arith, pending context)
  still-Held (end_launch done ∷ []) w u st td ctx cancel closed next pending (a, b, c, d, e, f) =
      (td ∙ a, ground arith, ground arith, ground arith, ground arith, λ x hx. ground (arith, f x))
  still-Held (end_run done ∷ []) w u st td ctx cancel closed next pending h = ground arith
  still-Held (end_workers done refresh_err ∷ []) w u st td ctx cancel closed next pending h =
      ground arith
  still-Held (t ∷ t' ∷ ts) w u st td ctx cancel closed next pending h = h

  pub still-IsSound :
      (w u : World E)
      → u.tasks ≡ w.tasks
      → u.service.state ≡ w.service.state
      → u.service.transition_done ≡ w.service.transition_done
      → u.service.data_context ≡ w.service.data_context
      → u.service.data_cancel ≡ w.service.data_cancel
      → u.closed ≡ w.closed
      → u.next ≡ w.next
      → ((d : ℕ) → has d w.pending ≡ false → has d u.pending ≡ false)
      → (is_running w.service.state ≡ true
          → (d : ℕ) → has d w.pending ≡ false
          → w.service.data_context ≡ some d
          → has d w.cancelled ≡ false
          → has d u.cancelled ≡ false)
      → below w.next u.cancelled ≡ true
      → below w.next u.pending ≡ true
      → IsSound w
      → IsSound u
  still-IsSound w u same st td ctx cancel closed next pending cancelled cb pb v = record {
    held =
        subst (λ ts. Held ts u) (sym same)
          (still-Held w.tasks w u st td ctx cancel closed next pending v.held);
    serves = λ run.
        (let was : is_running w.service.state ≡ true = ground arith in
          let (d, c1, c2, c3, c4, c5) = v.serves was in
          (d, ctx ∙ c1, cancel ∙ c2, ground arith, cancelled was d c5 c1 c4, pending d c5));
    closed_below = ground (arith, v.closed_below);
    cancelled_below = ground arith;
    pending_below = ground arith;
    once = ground (arith, v.once);
  }

  pub started-IsSound :
      (w : World E) (s : Service E)
      → start w.next (suc w.next) w.service ≡ launches s
      → IsSound w
      → IsSound (record w {
        service = s;
        tasks = launch w.next (suc w.next) true ∷ w.tasks;
        next = suc (suc w.next);
      })
  unfolding start
  started-IsSound w s h v =
      let free : w.service.transition_done ≡ none = ground (arith, h) in
      let none_left = idle w.tasks w v.held free in
      record {
        held =
            one-Held (launch w.next (suc w.next) true) [] w.tasks
              (record w {
                service = s;
                tasks = launch w.next (suc w.next) true ∷ w.tasks;
                next = suc (suc w.next);
              })
              refl none_left
              (ground (
                arith,
                h,
                has-below w.next w.next w.closed v.closed_below (omega arith),
                has-below w.next (suc w.next) w.pending v.pending_below (omega arith),
              ));
        serves = λ run. absurd (ground (arith, h, run));
        closed_below = below_mono w.next (suc (suc w.next)) w.closed v.closed_below (omega arith);
        cancelled_below =
            below_mono w.next (suc (suc w.next)) w.cancelled v.cancelled_below (omega arith);
        pending_below =
            below_mono w.next (suc (suc w.next)) w.pending v.pending_below (omega arith);
        once = v.once;
      }

  -- A goroutine goes on to its next part, under the same channel.
  pub moved-IsSound :
      (w u : World E) (t t' : Task E) (before after : List (Task E))
      → Picks w t before after
      → u.tasks ≡ before ++ t' ∷ after
      → (Owns t w → Owns t' u)
      → (Owns t w → is_running u.service.state ≡ false)
      → u.closed ≡ w.closed
      → u.next ≡ w.next
      → (Owns t w → below w.next u.cancelled ≡ true)
      → u.pending ≡ w.pending
      → IsSound w
      → IsSound u
  moved-IsSound w u t t' before after at to owns idle_now closed next cb pending v =
      let (own, b, a) = owned t before after w at v.held in
      record {
        held = subst (λ ts. Held ts u) (sym to) (one-Held t' before after u b a (owns own));
        serves = λ run. absurd (ground (arith, idle_now own, run));
        closed_below = ground (arith, v.closed_below);
        cancelled_below = ground (arith, cb own);
        pending_below = ground (arith, v.pending_below);
        once = ground (arith, v.once);
      }

  -- The goroutine ends its transition: it closes the channel, the first time.
  pub ended-IsSound :
      (w u : World E) (t : Task E) (done : ℕ) (before after : List (Task E))
      → Picks w t before after
      → u.tasks ≡ before ++ after
      → (Owns t w → (has done w.closed ≡ false) × (done < w.next))
      → (Owns t w → (u.service.transition_done ≡ none) × (is_launching u.service.state ≡ false))
      → (Owns t w → is_running u.service.state ≡ true → Serves u)
      → (Owns t w → u.closed ≡ done ∷ w.closed)
      → u.next ≡ w.next
      → u.cancelled ≡ w.cancelled
      → u.pending ≡ w.pending
      → IsSound w
      → IsSound u
  unfolding distinct below
  ended-IsSound w u t done before after at to mine over serves closed next cancelled pending v =
      let (own, b, a) = owned t before after w at v.held in
      record {
        held = subst (λ ts. Held ts u) (sym to) (none-Held before after u b a (over own));
        serves = serves own;
        closed_below = ground (arith, v.closed_below, mine own, closed own);
        cancelled_below = ground (arith, v.cancelled_below);
        pending_below = ground (arith, v.pending_below);
        once = ground (arith, v.once, mine own, closed own);
      }
