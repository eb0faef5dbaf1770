-- ===== src/Api/AdminAuth/Sweep.antt =====
-- The loop of a login over the sessions: it keeps just the live ones and knows one of them.
use aistudio2api.Prelude.{
  ℕ, ◌≤◌, ◌≡◌, ◌⊎◌, inl, inr, refl, ap, ◌∙◌, true, false, if◌then◌else◌, ltb, Bool-cases, Option,
  none, some, ◌∷◌, [], length, Text, is_empty, str_eq, str_eq_iff, str_eq_refl, Assoc, lookup,
  erase, lookup-erase, has_key, IsKeyed, lookup-has_key, erase-IsKeyed, length-erase,
  length-erase_le, arith,
}
use aistudio2api.Api.AdminAuth.{AdminSession, AdminAuth, remove_session, sweep}

abbrev pub Oldest : ℕ → Assoc AdminSession → Text → ℕ → Type 0
Oldest now sessions oldest n =
    ((is_empty oldest ≡ true) × (length sessions ≤ n))
    ⊎ ((o : AdminSession) × (is_empty oldest ≡ false)
        × (lookup oldest sessions ≡ some o)
        × (ltb now o.expires ≡ true))

-- What holds when `rest` is still to be looked at.
pub record IsReady (now : ℕ) (auth : AdminAuth) (rest : Assoc AdminSession) (oldest : Text)
    : Type 0 where
  pub keyed : IsKeyed auth.sessions
  pub to_do : IsKeyed rest
  pub held :
      (k : Text) (s : AdminSession) → lookup k rest ≡ some s → lookup k auth.sessions ≡ some s
  pub named : (k : Text) (s : AdminSession) → lookup k rest ≡ some s → is_empty k ≡ false
  pub known : Oldest now auth.sessions oldest (length rest)

module _ (now : ℕ) (auth : AdminAuth) (token : Text) (s : AdminSession) (rest : Assoc AdminSession)
    (oldest : Text) (v : IsReady now auth ((token, s) ∷ rest) oldest) where
  first_held : lookup token auth.sessions ≡ some s
  unfolding lookup
  first_held = v.held token s (ground (arith, str_eq_refl token))

  first_named : is_empty token ≡ false
  unfolding lookup
  first_named = v.named token s (ground (arith, str_eq_refl token))

  later :
      (k : Text) (t : AdminSession)
      → lookup k rest ≡ some t
      → (str_eq token k ≡ false) × (lookup k ((token, s) ∷ rest) ≡ some t)
  unfolding lookup
  later k t h = ground (arith, str_eq_iff token k, lookup-has_key k rest, v.to_do.0)

  remove-stored :
      remove_session auth token
      ≡ record auth { sessions = erase token auth.sessions; cancelled = s.context ∷ auth.cancelled }
  unfolding remove_session
  remove-stored = rw (first_held, remove_session) refl

  expired-IsReady :
      ltb now s.expires ≡ false
      → IsReady now
          (record auth {
            sessions = erase token auth.sessions;
            cancelled = s.context ∷ auth.cancelled;
          })
          rest
          oldest
  expired-IsReady h = record {
    keyed = erase-IsKeyed token auth.sessions v.keyed;
    to_do = v.to_do.1;
    held = λ k t e.
        let (apart, there) = later k t e in
        lookup-erase token k auth.sessions ∙ ground (arith, v.held k t there);
    named = λ k t e. v.named k t (later k t e).1;
    known = elim v.known [
      | inl (e, n) ↦
          let less = length-erase token s auth.sessions first_held in
          inl (e, omega (arith, less, n))
      | inr (o, e, there, live) ↦ inr (
        o,
        e,
        lookup-erase token oldest auth.sessions
            ∙ ground (arith, str_eq_iff token oldest, first_held),
        live,
      )
    ];
  }

  taken-IsReady : ltb now s.expires ≡ true → IsReady now auth rest token
  taken-IsReady h = record {
    keyed = v.keyed;
    to_do = v.to_do.1;
    held = λ k t e. v.held k t (later k t e).1;
    named = λ k t e. v.named k t (later k t e).1;
    known = inr (s, first_named, first_held, h);
  }

  passed-IsReady : is_empty oldest ≡ false → IsReady now auth rest oldest
  passed-IsReady h = record {
    keyed = v.keyed;
    to_do = v.to_do.1;
    held = λ k t e. v.held k t (later k t e).1;
    named = λ k t e. v.named k t (later k t e).1;
    known = elim v.known [ inl (e, n) ↦ absurd (cc (e, h)) | inr w ↦ inr w ];
  }

abbrev pub live_at : ℕ → Option AdminSession → Option AdminSession
live_at now none = none
live_at now (some s) = if ltb now s.expires then some s else none

-- What the loop leaves.
pub record Swept (now : ℕ) (auth : AdminAuth) (rest : Assoc AdminSession) (after : AdminAuth)
    (oldest : Text) : Type 0 where
  pub keyed : IsKeyed after.sessions
  pub kept :
      (k : Text)
      → lookup k after.sessions
        ≡ (if has_key k rest then live_at now (lookup k auth.sessions) else lookup k auth.sessions)
  pub fewer : length after.sessions ≤ length auth.sessions
  pub known : Oldest now after.sessions oldest 0

abbrev Sweeps : ℕ → AdminAuth → Assoc AdminSession → Text → Option (AdminAuth × Text) → Type 0
Sweeps now auth rest oldest result =
    (after : AdminAuth) × (last : Text) × (result ≡ some (after, last))
    × Swept now auth rest after last

module _ (now : ℕ) (auth : AdminAuth) (token : Text) (s : AdminSession) (rest : Assoc AdminSession)
    (oldest : Text) (v : IsReady now auth ((token, s) ∷ rest) oldest) where
  expired-Swept :
      (after : AdminAuth) (last : Text)
      → ltb now s.expires ≡ false
      → Swept now
          (record auth {
            sessions = erase token auth.sessions;
            cancelled = s.context ∷ auth.cancelled;
          })
          rest
          after
          last
      → Swept now auth ((token, s) ∷ rest) after last
  expired-Swept after last h w = record {
    keyed = w.keyed;
    kept = λ k.
        w.kept k
        ∙ ground (
          arith,
          lookup-erase token k auth.sessions,
          first_held now auth token s rest oldest v,
          str_eq_iff token k,
        );
    fewer =
        let less = length-erase_le token auth.sessions in let n = w.fewer in omega (arith, less, n);
    known = w.known;
  }

  live-Swept :
      (after : AdminAuth) (last : Text)
      → ltb now s.expires ≡ true
      → Swept now auth rest after last
      → Swept now auth ((token, s) ∷ rest) after last
  live-Swept after last h w = record {
    keyed = w.keyed;
    kept = λ k.
        w.kept k
        ∙ ground (arith, first_held now auth token s rest oldest v, str_eq_iff token k, v.to_do.0);
    fewer = w.fewer;
    known = w.known;
  }

  sweep_expired :
      ltb now s.expires ≡ false
      → sweep now auth ((token, s) ∷ rest) oldest
        ≡ sweep now
            (record auth {
              sessions = erase token auth.sessions;
              cancelled = s.context ∷ auth.cancelled;
            })
            rest
            oldest
  unfolding sweep
  sweep_expired h =
      rw h (ap (λ a. sweep now a rest oldest) (remove-stored now auth token s rest oldest v))

  sweep_first :
      ltb now s.expires ≡ true
      → is_empty oldest ≡ true
      → sweep now auth ((token, s) ∷ rest) oldest ≡ sweep now auth rest token
  unfolding sweep
  sweep_first h e = rw (h, e) refl

  sweep_next :
      (o : AdminSession)
      → ltb now s.expires ≡ true
      → is_empty oldest ≡ false
      → lookup oldest auth.sessions ≡ some o
      → sweep now auth ((token, s) ∷ rest) oldest ≡ (
          if ltb s.expires o.expires then sweep now auth rest token else sweep now auth rest oldest)
  unfolding sweep
  sweep_next o h e there = rw (h, e, there) refl

pub sweep-Swept :
    (now : ℕ) (auth : AdminAuth) (rest : Assoc AdminSession) (oldest : Text)
    → IsReady now auth rest oldest
    → Sweeps now auth rest oldest (sweep now auth rest oldest)
sweep-Swept now auth [] oldest v =
    unfold sweep in
    (
      auth,
      oldest,
      refl,
      record { keyed = v.keyed; kept = λ k. refl; fewer = omega arith; known = v.known },
    )
sweep-Swept now auth ((token, s) ∷ rest) oldest v = elim (Bool-cases (ltb now s.expires)) [
  | inr dead ↦
      let (after, last, e, w) =
        sweep-Swept now
          (record auth {
            sessions = erase token auth.sessions;
            cancelled = s.context ∷ auth.cancelled;
          })
          rest oldest (expired-IsReady now auth token s rest oldest v dead) in
      (
        after,
        last,
        sweep_expired now auth token s rest oldest v dead ∙ e,
        expired-Swept now auth token s rest oldest v after last dead w,
      )
  | inl live ↦ elim v.known [
    | inl (empty, n) ↦
        widen token live (sweep_first now auth token s rest oldest v live empty)
          (sweep-Swept now auth rest token (taken-IsReady now auth token s rest oldest v live))
    | inr (o, named, there, alive) ↦ elim (Bool-cases (ltb s.expires o.expires)) [
      | inl sooner ↦
          widen token live
            (sweep_next now auth token s rest oldest v o live named there ∙ rw sooner refl)
            (sweep-Swept now auth rest token (taken-IsReady now auth token s rest oldest v live))
      | inr after_it ↦
          widen oldest live
            (sweep_next now auth token s rest oldest v o live named there ∙ rw after_it refl)
            (sweep-Swept now auth rest oldest (passed-IsReady now auth token s rest oldest v named))
    ]
  ]
]
  where
    widen :
        (last : Text)
        → ltb now s.expires ≡ true
        → sweep now auth ((token, s) ∷ rest) oldest ≡ sweep now auth rest last
        → Sweeps now auth rest last (sweep now auth rest last)
        → Sweeps now auth ((token, s) ∷ rest) oldest (sweep now auth ((token, s) ∷ rest) oldest)
    widen last live same (after, final, e, w) =
        (after, final, same ∙ e, live-Swept now auth token s rest oldest v after final live w)
