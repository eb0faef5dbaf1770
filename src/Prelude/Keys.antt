-- ===== src/Prelude/Keys.antt =====
-- The keys of a map: that they are distinct, and how many there are.
use Prim.Native.Nat.{suc, ◌≤◌, ◌<◌}
use mathlib.Core.Bool.{Bool, false, ◌||◌}
use mathlib.Core.Logic.{inl, inr}
use mathlib.Core.List.{[], ◌∷◌}
use mathlib.Core.Option.{none, some}
use mathlib.Core.Path.{◌≡◌, refl}
use native.Mathlib.Omega.{arith}
use aistudio2api.Prelude.Tests.{if◌then◌else◌, Bool-cases}
use aistudio2api.Prelude.Lists.{length, any}
use aistudio2api.Prelude.Strings.{Text, str_eq, str_eq_iff}
use aistudio2api.Prelude.Maps.{Assoc, lookup, insert, erase}

module _ {ℓ} {V : Type ℓ} where
  abbrev pub has_key : Text → Assoc V → Bool
  has_key k m = any (λ (e : Text × V). str_eq e.0 k) m

  abbrev pub IsKeyed : Assoc V → Type 0
  IsKeyed [] = Unit
  IsKeyed ((k, v) ∷ m) = (has_key k m ≡ false) × IsKeyed m

  pub lookup-has_key : (k : Text) (m : Assoc V) → has_key k m ≡ false → lookup k m ≡ none
  unfolding lookup
  lookup-has_key k [] h = refl
  lookup-has_key k ((j, v) ∷ m) h = ground (arith, lookup-has_key k m)

  pub has_key-erase :
      (k j : Text) (m : Assoc V)
      → has_key j (erase k m) ≡ (if str_eq k j then false else has_key j m)
  unfolding erase
  has_key-erase k j [] = ground arith
  has_key-erase k j ((i, v) ∷ m) =
      ground (arith, has_key-erase k j m, str_eq_iff i k, str_eq_iff i j, str_eq_iff k j)

  pub has_key-insert :
      (k j : Text) (v : V) (m : Assoc V) → has_key j (insert k v m) ≡ (str_eq k j || has_key j m)
  unfolding insert
  has_key-insert k j v [] = ground arith
  has_key-insert k j v ((i, w) ∷ m) =
      ground (arith, has_key-insert k j v m, str_eq_iff i k, str_eq_iff i j, str_eq_iff k j)

  pub erase-IsKeyed : (k : Text) (m : Assoc V) → IsKeyed m → IsKeyed (erase k m)
  unfolding erase
  erase-IsKeyed k [] h = tt
  erase-IsKeyed k ((j, v) ∷ m) h = elim (Bool-cases (str_eq j k)) [
    | inl same ↦ ground (arith, erase-IsKeyed k m h.1)
    | inr other ↦ ground (arith, erase-IsKeyed k m h.1, has_key-erase k j m, h.0)
  ]

  pub insert-IsKeyed : (k : Text) (v : V) (m : Assoc V) → IsKeyed m → IsKeyed (insert k v m)
  unfolding insert
  insert-IsKeyed k v [] h = (refl, tt)
  insert-IsKeyed k v ((j, w) ∷ m) h = elim (Bool-cases (str_eq j k)) [
    | inl same ↦ ground (arith, h.0, h.1, str_eq_iff j k)
    | inr other ↦ ground (
      arith,
      h.0,
      insert-IsKeyed k v m h.1,
      has_key-insert k j v m,
      str_eq_iff k j,
      str_eq_iff j k,
    )
  ]

  pub length-erase_le : (k : Text) (m : Assoc V) → length (erase k m) ≤ length m
  unfolding erase
  length-erase_le k [] = omega arith
  length-erase_le k ((j, v) ∷ m) = ground (arith, length-erase_le k m)

  pub length-erase :
      (k : Text) (v : V) (m : Assoc V) → lookup k m ≡ some v → length (erase k m) < length m
  unfolding erase lookup
  length-erase k v [] h = cc
  length-erase k v ((j, w) ∷ m) h = ground (arith, length-erase_le k m, length-erase k v m)

  pub length-insert : (k : Text) (v : V) (m : Assoc V) → length (insert k v m) ≤ suc (length m)
  unfolding insert
  length-insert k v [] = omega arith
  length-insert k v ((j, w) ∷ m) = ground (arith, length-insert k v m)
