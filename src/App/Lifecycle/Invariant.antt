-- ===== src/App/Lifecycle/Invariant.antt =====
-- The invariant of the lifecycle: which goroutine ends the transition, and which context serves.
use aistudio2api.Prelude.{
  ℕ, ◌≤◌, ◌<◌, ◌≡◌, refl, sym, subst, Bool, true, false, not, ◌&&◌, ◌||◌, ◌==◌, ltb, none, some,
  List, ◌∷◌, [], ◌++◌, arith,
}
use aistudio2api.App.Lifecycle.{
  service_stopped, is_running, is_launching, is_set, new_tracked_service,
}
use aistudio2api.App.Lifecycle.World.{
  Task, launch, end_launch, end_run, end_workers, World, has, new_world, Picks,
}

unfoldable pub distinct : List ℕ → Bool
distinct [] = true
distinct (n ∷ ns) = not (has n ns) && distinct ns

unfoldable pub below : ℕ → List ℕ → Bool
below n [] = true
below n (m ∷ ms) = ltb m n && below n ms

pub has-below : (n k : ℕ) (ms : List ℕ) → below n ms ≡ true → n ≤ k → has k ms ≡ false
unfolding below has
has-below n k [] h le = refl
has-below n k (m ∷ ms) h le = ground (arith, has-below n k ms)

pub below_mono : (n k : ℕ) (ms : List ℕ) → below n ms ≡ true → n ≤ k → below k ms ≡ true
unfolding below
below_mono n k [] h le = refl
below_mono n k (m ∷ ms) h le = ground (arith, below_mono n k ms)

pub has-split :
    (n m : ℕ) (before after : List ℕ)
    → has n (before ++ m ∷ after) ≡ ((m == n) || has n (before ++ after))
unfolding has
has-split n m [] after = refl
has-split n m (k ∷ before) after = ground (arith, has-split n m before after)

pub below-split :
    (n m : ℕ) (before after : List ℕ)
    → below n (before ++ m ∷ after) ≡ (ltb m n && below n (before ++ after))
unfolding below
below-split n m [] after = refl
below-split n m (k ∷ before) after = ground (arith, below-split n m before after)

module _ {E : Type 0} where
  -- What the goroutine of a transition relies on while it runs.
  abbrev pub Owns : Task E → World E → Type 0
  Owns (launch done context attached) w =
      (w.service.transition_done ≡ some done)
      × (has done w.closed ≡ false)
      × (is_running w.service.state ≡ false)
      × (done < w.next)
      × (context < w.next)
      × (w.service.data_context ≡ some context)
      × (w.service.data_cancel ≡ some context)
      × (is_launching w.service.state ≡ true → has context w.pending ≡ false)
  Owns (end_launch done) w =
      (w.service.transition_done ≡ some done)
      × (has done w.closed ≡ false)
      × (is_running w.service.state ≡ false)
      × (done < w.next)
      × (is_set w.service.data_cancel ≡ true)
      × ((d : ℕ) → w.service.data_cancel ≡ some d → d < w.next)
  Owns (end_run done) w =
      (w.service.transition_done ≡ some done)
      × (has done w.closed ≡ false)
      × (w.service.state ≡ service_stopped)
      × (done < w.next)
  Owns (end_workers done refresh_err) w =
      (w.service.transition_done ≡ some done)
      × (has done w.closed ≡ false)
      × (w.service.state ≡ service_stopped)
      × (done < w.next)

  abbrev pub Held : List (Task E) → World E → Type 0
  Held [] w = (w.service.transition_done ≡ none) × (is_launching w.service.state ≡ false)
  Held (t ∷ []) w = Owns t w
  Held (t ∷ u ∷ ts) w = true ≡ false

  -- The data context of a running service is there, and no call cancels it.
  abbrev pub Serves : World E → Type 0
  Serves w =
      (d : ℕ) × (w.service.data_context ≡ some d)
      × (w.service.data_cancel ≡ some d)
      × (d < w.next)
      × (has d w.cancelled ≡ false)
      × (has d w.pending ≡ false)

  pub record IsSound (w : World E) : Type 0 where
    pub held : Held w.tasks w
    pub serves : is_running w.service.state ≡ true → Serves w
    pub closed_below : below w.next w.closed ≡ true
    pub cancelled_below : below w.next w.cancelled ≡ true
    pub pending_below : below w.next w.pending ≡ true
    pub once : distinct w.closed ≡ true

  alone :
      (t : Task E) (before after : List (Task E)) (w : World E)
      → Held (before ++ t ∷ after) w
      → Owns t w × (before ≡ []) × (after ≡ [])
  alone t [] [] w h = (h, refl, refl)
  alone t [] (u ∷ after) w h = absurd (ground arith)
  alone t (b ∷ []) after w h = absurd (ground arith)
  alone t (b ∷ c ∷ before) after w h = absurd (ground arith)

  pub owned :
      (t : Task E) (before after : List (Task E)) (w : World E)
      → Picks w t before after
      → Held w.tasks w
      → Owns t w × (before ≡ []) × (after ≡ [])
  owned t before after w at h = alone t before after w (subst (λ ts. Held ts w) at h)

  pub none-Held :
      (before after : List (Task E)) (w : World E)
      → before ≡ []
      → after ≡ []
      → (w.service.transition_done ≡ none) × (is_launching w.service.state ≡ false)
      → Held (before ++ after) w
  none-Held before after w b a h =
      subst (λ x. Held (x ++ after) w) (sym b) (subst (λ y. Held y w) (sym a) h)

  pub one-Held :
      (t : Task E) (before after : List (Task E)) (w : World E)
      → before ≡ []
      → after ≡ []
      → Owns t w
      → Held (before ++ t ∷ after) w
  one-Held t before after w b a h =
      subst (λ x. Held (x ++ t ∷ after) w) (sym b) (subst (λ y. Held (t ∷ y) w) (sym a) h)

  -- A call of Start or of Stop that makes a new goroutine finds none.
  pub idle :
      (ts : List (Task E)) (w : World E) → Held ts w → w.service.transition_done ≡ none → ts ≡ []
  idle [] w h e = refl
  idle (launch done context attached ∷ []) w h e = absurd (ground arith)
  idle (end_launch done ∷ []) w h e = absurd (ground arith)
  idle (end_run done ∷ []) w h e = absurd (ground arith)
  idle (end_workers done refresh_err ∷ []) w h e = absurd (ground arith)
  idle (t ∷ u ∷ ts) w h e = absurd (ground arith)

  pub new_world-IsSound : IsSound (new_world {E = E})
  unfolding new_world new_tracked_service below distinct
  new_world-IsSound = ground arith
