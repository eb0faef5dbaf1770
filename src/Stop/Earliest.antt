-- ===== src/Stop/Earliest.antt =====
-- A write passes on the text before the earliest stop sequence, or without one all the text but what
-- it holds back.
use aistudio2api.Prelude.{
  ℕ, ◌-◌, ◌≤◌, ◌≡◌, ◌⊎◌, inl, inr, refl, sym, ap, ◌∙◌, ◌&&◌, ◌||◌, ◌==◌, ltb, Bool-cases, Option,
  none, some, List, ◌∷◌, [], ◌++◌, length, take, take-append-drop, append-nil, IsIn, Text,
  str_eq_iff, arith,
}
use aistudio2api.Stop.{
  StopSequenceMatcher, index, Match, better, best, before_suffix, has_suffix, hold_back, write,
}

-- Of the sequences in question, the match is one that occurs first; without one, none occurs.
abbrev pub IsBest : Text → (Text → Type 0) → Match → Type 0
IsBest c P none = (t : Text) → P t → index c t ≡ none
IsBest c P (some (i, s)) =
    P s × (index c s ≡ some i) × ((t : Text) (j : ℕ) → P t → index c t ≡ some j → i ≤ j)

IsBest-swap :
    (c : Text) (P Q : Text → Type 0) (f : Match)
    → ((t : Text) → P t → Q t)
    → ((t : Text) → Q t → P t)
    → IsBest c P f
    → IsBest c Q f
IsBest-swap c P Q none to from h = λ t q. h t (from t q)
IsBest-swap c P Q (some (i, s)) to from (p, e, first) =
    (to s p, e, λ t j q k. first t j (from t q) k)

better_from :
    (c s : Text) (P : Text → Type 0) (f : Match) (o : Option ℕ)
    → index c s ≡ o
    → IsBest c P f
    → IsBest c (λ t. (t ≡ s) ⊎ P t) (better c f s)
unfolding better
better_from c s P none none k h = rw (k, better) (λ t m. elim m [ inl e ↦ rw e k | inr p ↦ h t p ])
better_from c s P (some (j, u)) none k (p, e, first) =
    rw (k, better)
      (
        inr p,
        e,
        λ t l m x. elim m [
          | inl same ↦ absurd (cc (x, k, ap (index c) same))
          | inr q ↦ first t l q x
        ],
      )
better_from c s P none (some i) k h =
    rw (k, better)
      (
        inl refl,
        k,
        λ t l m x. elim m [
          | inl same ↦ ground (arith, ap (index c) same)
          | inr q ↦ absurd (cc (h t q, x))
        ],
      )
better_from c s P (some (j, u)) (some i) k (p, e, first) =
    elim (Bool-cases (ltb i j || ((i == j) && ltb (length s) (length u)))) [
      | inl hit ↦
          rw (k, better, hit)
            (
              inl refl,
              k,
              λ t l m x. elim m [
                | inl same ↦ ground (arith, ap (index c) same)
                | inr q ↦ ground (arith, first t l q x)
              ],
            )
      | inr miss ↦
          rw (k, better, miss)
            (
              inr p,
              e,
              λ t l m x. elim m [
                | inl same ↦ ground (arith, ap (index c) same)
                | inr q ↦ first t l q x
              ],
            )
    ]

best-IsBest :
    (c : Text) (P : Text → Type 0) (f : Match) (ss : List Text)
    → IsBest c P f
    → IsBest c (λ t. IsIn t ss ⊎ P t) (best c f ss)
unfolding best
best-IsBest c P f [] h =
    IsBest-swap c P _ f (λ t p. inr p) (λ t m. elim m [ inl x ↦ absurd x | inr p ↦ p ]) h
best-IsBest c P f (s ∷ ss) h =
    IsBest-swap c (λ t. IsIn t ss ⊎ ((t ≡ s) ⊎ P t)) (λ t. IsIn t (s ∷ ss) ⊎ P t)
      (best c (better c f s) ss)
      (λ t m. elim m [ inl x ↦ inl (inr x) | inr (inl e) ↦ inl (inl e) | inr (inr p) ↦ inr p ])
      (λ t m. elim m [ inl (inl e) ↦ inr (inl e) | inl (inr x) ↦ inl x | inr p ↦ inr (inr p) ])
      (best-IsBest c (λ t. (t ≡ s) ⊎ P t) (better c f s) ss
        (better_from c s P f (index c s) refl h))

hold_back-append : (t : Text) (ps : List Text) → (hold_back t ps).0 ++ (hold_back t ps).1 ≡ t
unfolding hold_back
hold_back-append t [] = append-nil t
hold_back-append t (p ∷ ps) = elim (Bool-cases (has_suffix t p)) [
  | inl hit ↦
      rw (hit, hold_back)
        (ap (λ x. before_suffix t p ++ x) (sym ((str_eq_iff _ _).0 hit))
          ∙ take-append-drop (length t - length p) t)
  | inr miss ↦ rw (miss, hold_back) (hold_back-append t ps)
]

-- What one write owes to its caller, whatever the matcher holds.
abbrev pub Written : StopSequenceMatcher → Text → StopSequenceMatcher × Text × Text → Type 0
Written m text (after, out, matched) =
    ((matched ≡ [])
      × (out ++ after.pending ≡ m.pending ++ text)
      × ((s : Text) → IsIn s m.sequences → index (m.pending ++ text) s ≡ none))
    ⊎ ((i : ℕ) × IsIn matched m.sequences
        × (index (m.pending ++ text) matched ≡ some i)
        × (out ≡ take i (m.pending ++ text))
        × (after.pending ≡ [])
        × ((s : Text) (j : ℕ) → IsIn s m.sequences → index (m.pending ++ text) s ≡ some j → i ≤ j))

-- A write either passes on the text before the first place where a stop sequence begins, in what was
-- held back and the new text together, names a sequence that begins there, and holds nothing back; or
-- no sequence occurs in it, and what it passes on and what it holds back are that text.
pub write-Written : (m : StopSequenceMatcher) (text : Text) → Written m text (write m text)
unfolding write
write-Written m text = go (best (m.pending ++ text) none m.sequences) refl
  where
    found :
        IsBest
          (m.pending ++ text)
          (λ t. IsIn t m.sequences ⊎ ⊥)
          (best (m.pending ++ text) none m.sequences)
    found = best-IsBest (m.pending ++ text) (λ t. ⊥) none m.sequences (λ t x. absurd x)

    go : (f : Match) → best (m.pending ++ text) none m.sequences ≡ f → Written m text (write m text)
    go none k =
        let free = rw k at found in
        rw (k, write)
          (inl (refl, hold_back-append (m.pending ++ text) m.prefixes, λ s x. free s (inl x)))
    go (some (i, s)) k =
        let (among, e, first) = rw k at found in
        rw (k, write)
          (inr (
            i,
            (elim among [ inl x ↦ x | inr x ↦ absurd x ]),
            e,
            refl,
            refl,
            λ t j x. first t j (inl x),
          ))
