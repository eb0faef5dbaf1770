-- ===== src/Prelude/Sorting.antt =====
-- A stable insertion sort over a Boolean test, rotations of a list, and their laws.
use mathlib.Core.Path.{◌≡◌, refl, sym, subst}
use mathlib.Core.Logic.{inl, inr}
use mathlib.Core.Bool.{Bool, true, false, not}
use mathlib.Core.List.{List, [], ◌∷◌, ◌++◌, Perm, perm_append_comm}
use mathlib.Core.List.Perm
use Prim.Native.Nat.{ℕ}
use native.Mathlib.Omega.{arith}
use aistudio2api.Prelude.Tests.{if◌then◌else◌, Bool-cases}
use aistudio2api.Prelude.Lists.{take, drop, keep, find_index, All, take-append-drop}

-- sort.SliceStable; also sort.Slice where no two elements compare alike.
module _ {ℓ} {A : Type ℓ} (less : A → A → Bool) where
  unfoldable pub insert_sorted : A → List A → List A
  insert_sorted x [] = x ∷ []
  insert_sorted x (y ∷ ys) = if less y x then y ∷ insert_sorted x ys else x ∷ y ∷ ys

  unfoldable pub sort_stable : List A → List A
  unfolding insert_sorted
  sort_stable [] = []
  sort_stable (x ∷ xs) = insert_sorted x (sort_stable xs)

  -- No later element is less than an earlier one.
  abbrev pub IsSorted : List A → Type 0
  IsSorted [] = Unit
  IsSorted (x ∷ xs) = All (λ y. less y x ≡ false) xs × IsSorted xs

  perm-insert_sorted : (x : A) (xs : List A) → Perm (insert_sorted x xs) (x ∷ xs)
  unfolding insert_sorted
  perm-insert_sorted x [] = Perm.refl _
  perm-insert_sorted x (y ∷ ys) = elim (Bool-cases (less y x)) [
    | inl h ↦ rw h (Perm.trans (Perm.cons y (perm-insert_sorted x ys)) (Perm.swap x y ys))
    | inr h ↦ rw h (Perm.refl _)
  ]

  pub perm-sort_stable : (xs : List A) → Perm (sort_stable xs) xs
  unfolding sort_stable
  perm-sort_stable [] = Perm.refl _
  perm-sort_stable (x ∷ xs) =
      Perm.trans (perm-insert_sorted x (sort_stable xs)) (Perm.cons x (perm-sort_stable xs))

-- append(xs[start:], xs[:start]...)
unfoldable pub rotate {ℓ} : {A : Type ℓ} → ℕ → List A → List A
rotate start xs = drop start xs ++ take start xs

pub perm-rotate {ℓ} : {A : Type ℓ} (start : ℕ) (xs : List A) → Perm (rotate start xs) xs
unfolding rotate
perm-rotate start xs =
    Perm.trans (perm_append_comm (drop start xs) (take start xs))
      (subst (λ ys. Perm ys xs) (sym (take-append-drop start xs)) (Perm.refl xs))

module _ {ℓ} {A : Type ℓ} (less : A → A → Bool)
    (asymmetric : (x y : A) → less x y ≡ true → less y x ≡ false)
    (transitive : (x y z : A) → less y x ≡ false → less z y ≡ false → less z x ≡ false) where
  All-insert_sorted :
      (x y : A) (ys : List A)
      → less x y ≡ false
      → All (λ z. less z y ≡ false) ys
      → All (λ z. less z y ≡ false) (insert_sorted less x ys)
  unfolding insert_sorted
  All-insert_sorted x y [] h hs = (h, tt)
  All-insert_sorted x y (w ∷ ys) h hs = ground (arith, All-insert_sorted x y ys h hs.1)

  All-later :
      (x y : A) (ys : List A)
      → less y x ≡ false
      → All (λ z. less z y ≡ false) ys
      → All (λ z. less z x ≡ false) ys
  All-later x y [] h hs = tt
  All-later x y (w ∷ ys) h hs = (transitive x y w h hs.0, All-later x y ys h hs.1)

  insert_sorted-IsSorted :
      (x : A) (xs : List A) → IsSorted less xs → IsSorted less (insert_sorted less x xs)
  unfolding insert_sorted
  insert_sorted-IsSorted x [] h = (tt, tt)
  insert_sorted-IsSorted x (y ∷ ys) h = ground (
    arith,
    insert_sorted-IsSorted x ys h.1,
    All-insert_sorted x y ys,
    All-later x y ys,
    asymmetric y x,
  )

  pub sort_stable-IsSorted : (xs : List A) → IsSorted less (sort_stable less xs)
  unfolding sort_stable
  sort_stable-IsSorted [] = tt
  sort_stable-IsSorted (x ∷ xs) = insert_sorted-IsSorted x _ (sort_stable-IsSorted xs)

-- A test that, once it passes, passes for all later elements.
abbrev pub IsUpward {ℓ} : {A : Type ℓ} → (A → Bool) → List A → Type 0
IsUpward p [] = Unit
IsUpward p (x ∷ xs) = (p x ≡ true → All (λ y. p y ≡ true) xs) × IsUpward p xs

keep-All {ℓ} :
    {A : Type ℓ} (p : A → Bool) (xs : List A)
    → All (λ y. p y ≡ true) xs
    → (keep p xs ≡ xs) × (keep (λ y. not (p y)) xs ≡ [])
keep-All p [] h = (refl, refl)
keep-All p (x ∷ xs) h = ground (arith, keep-All p xs h.1)

drop-find_index {ℓ} :
    {A : Type ℓ} (p : A → Bool) (xs : List A)
    → IsUpward p xs
    → drop (find_index p xs) xs ≡ keep p xs
drop-find_index p [] h = refl
drop-find_index p (x ∷ xs) h = ground (arith, drop-find_index p xs h.1, keep-All p xs)

take-find_index {ℓ} :
    {A : Type ℓ} (p : A → Bool) (xs : List A)
    → IsUpward p xs
    → take (find_index p xs) xs ≡ keep (λ y. not (p y)) xs
take-find_index p [] h = refl
take-find_index p (x ∷ xs) h = ground (arith, take-find_index p xs h.1, keep-All p xs)

-- Rotated to its first element that passes, such a list is what passes, then what does not.
pub rotate-find_index {ℓ} :
    {A : Type ℓ} (p : A → Bool) (xs : List A)
    → IsUpward p xs
    → rotate (find_index p xs) xs ≡ keep p xs ++ keep (λ y. not (p y)) xs
unfolding rotate
rotate-find_index p xs h = rw (drop-find_index p xs h, take-find_index p xs h)
