-- ===== src/Upload/Reading.antt =====
-- What a read gives of what there is to read, for any cutting into reads.
use aistudio2api.Prelude.{
  ℕ, zero, suc, ◌+◌, ◌-◌, ◌≤◌, ◌<◌, ◌≡◌, ◌⊎◌, inl, inr, refl, sym, ap, ◌∙◌, min, true, false, ◌&&◌,
  ◌||◌, if◌then◌else◌, Bool-cases, ltb, Option, none, some, List, ◌∷◌, [], ◌++◌, length, take, drop,
  take-append-drop, arith,
}
use aistudio2api.Upload.{
  Bytes, ReadErr, too_large, Source, is_nil, asked, later, read, Reader, plain,
  bounded_upload_reader, read_bounded,
}

-- What is still to be read, and the error that comes then.
abbrev pub content : Reader → Bytes
content (plain s) = s.rest
content (bounded_upload_reader s remaining limit) = take remaining s.rest

abbrev pub final : Reader → ReadErr
final (plain s) = s.ending
final (bounded_upload_reader s remaining limit) =
    if ltb remaining (length s.rest) then too_large limit else s.ending

-- How many reads at most give nothing new.
abbrev pub idle_reads : Reader → ℕ
idle_reads (plain s) = length s.grains + (if is_nil s.rest then 0 else 1)
idle_reads (bounded_upload_reader s remaining limit) =
    length s.grains + (if is_nil s.rest then 0 else 1) + (if ltb 0 remaining then 1 else 0)

pub length-take_le : (n : ℕ) (bs : Bytes) → length (take n bs) ≤ n
length-take_le zero bs = omega arith
length-take_le (suc n) [] = omega arith
length-take_le (suc n) (b ∷ bs) = omega (arith, length-take_le n bs)

pub length-drop : (n : ℕ) (bs : Bytes) → length (take n bs) + length (drop n bs) ≡ length bs
length-drop zero bs = omega arith
length-drop (suc n) [] = refl
length-drop (suc n) (b ∷ bs) = omega (arith, length-drop n bs)

pub take_short : (n : ℕ) (bs : Bytes) → length (take n bs) < n → drop n bs ≡ []
take_short zero bs h = ground arith
take_short (suc n) [] h = refl
take_short (suc n) (b ∷ bs) h = take_short n bs (omega (arith, h))

take_nil : (k : ℕ) → take {A = ℕ} k [] ≡ []
take_nil zero = refl
take_nil (suc k) = refl

take-drop :
    (n m : ℕ) (bs : Bytes)
    → n ≤ m
    → take m bs ≡ take n bs ++ take (m - length (take n bs)) (drop n bs)
take-drop zero m bs h = ground arith
take-drop (suc n) zero bs h = absurd (omega arith)
take-drop (suc n) (suc m) [] h = sym (take_nil (suc m - 0))
take-drop (suc n) (suc m) (b ∷ bs) h =
    let one : m - length (take n bs) ≡ suc m - suc (length (take n bs)) = omega arith in
    ap (◌∷◌ b) (take-drop n m bs (omega (arith, h)) ∙ ap (λ x. take n bs ++ take x (drop n bs)) one)

pub is_nil_iff :
    (bs : Bytes)
    → ((is_nil bs ≡ true) × (length bs ≡ 0) × (bs ≡ [])) ⊎ ((is_nil bs ≡ false) × (0 < length bs))
is_nil_iff [] = inl (refl, refl, refl)
is_nil_iff (b ∷ bs) = inr (refl, omega arith)

asked_lem :
    (n : ℕ) (gs : List ℕ)
    → (asked n gs ≤ n)
      × (((asked n gs ≡ n) × (length (later gs) ≡ length gs))
          ⊎ (length gs ≡ suc (length (later gs))))
asked_lem n [] = (omega arith, inl (refl, refl))
asked_lem n (g ∷ gs) = (ground arith, inr refl)

-- One read of `n` bytes, n > 0: it gives the next bytes of the content, or all there are and the error.
abbrev pub Reads : ℕ → Reader → Bytes → Option ReadErr → Reader → Type 0
Reads n r bytes err r' =
    (length bytes ≤ n)
    × (content r ≡ bytes ++ content r')
    × ((err ≡ none) ⊎ ((err ≡ some (final r)) × (content r' ≡ [])))
    × ((err ≡ none) ⊎ (0 < length bytes) → (final r' ≡ final r) × (idle_reads r' ≤ idle_reads r))
    × (err ≡ none → (length bytes ≡ n) ⊎ (idle_reads r' < idle_reads r))

module _ (n : ℕ) (s : Source) where
  abbrev a : ℕ
  a = asked n s.grains

  pub read_plain_lem : 0 < n → Reads n (plain s) (read n s).0 (read n s).1 (plain (read n s).2)
  unfolding read
  read_plain_lem h =
      let t1 = length-take_le a s.rest in
      let t2 = length-drop a s.rest in
      let t3 = take_short a s.rest in
      let (g1, g2) = asked_lem n s.grains in
      let z1 = is_nil_iff s.rest in
      let z2 = is_nil_iff (drop a s.rest) in
      (
        ground (arith, t1, g1),
        sym (take-append-drop a s.rest),
        ground (arith, z1, z2, t2),
        λ more. (refl, ground (arith, g2, z1, z2, t2)),
        λ quiet. ground (arith, t1, t2, t3, g1, g2, z1, z2, quiet),
      )

module _ (n m limit : ℕ) (s : Source) where
  abbrev ask : ℕ
  ask = asked (min n (suc m)) s.grains

  pub read_within_lem :
      0 < n
      → Reads n
          (bounded_upload_reader s (suc m) limit)
          (read_bounded n s (suc m) limit).0
          (read_bounded n s (suc m) limit).1
          (read_bounded n s (suc m) limit).2
  unfolding read read_bounded
  read_within_lem h =
      let t1 = length-take_le ask s.rest in
      let t2 = length-drop ask s.rest in
      let t3 = take_short ask s.rest in
      let (g1, g2) = asked_lem (min n (suc m)) s.grains in
      let z1 = is_nil_iff s.rest in
      let z2 = is_nil_iff (drop ask s.rest) in
      let parts = take-drop ask (suc m) s.rest (ground (arith, g1)) in
      let nothing : ((is_nil s.rest || (s.joined && is_nil (drop ask s.rest))) ≡ true
          → drop ask s.rest ≡ []) =
        λ over. elim z2 [
          | inl no_more ↦ no_more.2
          | inr more ↦ absurd (ground (arith, over, z1, more, t2))
        ] in
      (
        ground (arith, t1, g1),
        parts,
        elim (Bool-cases (is_nil s.rest || (s.joined && is_nil (drop ask s.rest)))) [
          | inl over ↦ inr (
            ground (arith, over, t1, t2, g1, z1),
            rw (nothing over) (take_nil (suc m - length (take ask s.rest))),
          )
          | inr on ↦ inl (rw on refl)
        ],
        λ more. (ground (arith, t1, t2, g1), ground (arith, t1, t2, g1, g2, z1, z2)),
        λ quiet. ground (arith, t1, t2, t3, g1, g2, z1, z2, quiet),
      )

module _ (n limit : ℕ) (s : Source) where
  abbrev probe : ℕ
  probe = asked 1 s.grains

  pub read_past_lem :
      0 < n
      → Reads n
          (bounded_upload_reader s 0 limit)
          (read_bounded n s 0 limit).0
          (read_bounded n s 0 limit).1
          (read_bounded n s 0 limit).2
  unfolding read read_bounded
  read_past_lem h =
      let t1 = length-take_le probe s.rest in
      let t2 = length-drop probe s.rest in
      let t3 = take_short probe s.rest in
      let (g1, g2) = asked_lem 1 s.grains in
      let z1 = is_nil_iff s.rest in
      let z2 = is_nil_iff (drop probe s.rest) in
      let z3 = is_nil_iff (take probe s.rest) in
      (
        ground (arith, g1),
        refl,
        ground (arith, t2, t3, g2, z1, z2, z3),
        λ more. (
          ground (arith, more, t1, t2, g1, z1, z3),
          ground (arith, more, t1, t2, t3, g1, g2, z1, z2, z3),
        ),
        λ quiet. ground (arith, t1, t2, t3, g1, g2, z1, z2, z3, quiet),
      )
