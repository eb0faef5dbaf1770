-- ===== src/Upload/Whole.antt =====
-- A filled buffer, and the chunks of a whole upload.
use aistudio2api.Prelude.{
  ℕ, zero, suc, ◌-◌, ◌≤◌, ◌<◌, ◌≡◌, ◌⊎◌, inl, inr, refl, sym, ap, subst, ◌∙◌, if◌then◌else◌,
  Bool-cases, leb, Option, none, some, [], ◌++◌, append_assoc, length, length-append, arith,
}
use aistudio2api.Upload.{
  Bytes, ReadErr, Read, Reader, plain, bounded_upload_reader, read_from, read_full,
}
use aistudio2api.Upload.Reading.{
  content, final, idle_reads, Reads, read_plain_lem, read_within_lem, read_past_lem,
}

read_from_lem :
    (n : ℕ) (r : Reader) → 0 < n → Reads n r (read_from n r).0 (read_from n r).1 (read_from n r).2
unfolding read_from
read_from_lem n (plain s) h = read_plain_lem n s h
read_from_lem n (bounded_upload_reader s zero limit) h = read_past_lem n limit s h
read_from_lem n (bounded_upload_reader s (suc m) limit) h = read_within_lem n m limit s h

-- A ReadFull of `n` bytes: these and no error, or all there are and the error.
abbrev pub Filled : ℕ → Reader → Bytes → Option ReadErr → Reader → Type 0
Filled n r bytes err r' =
    (content r ≡ bytes ++ content r')
    × (((err ≡ none) × (length bytes ≡ n) × (final r' ≡ final r) × (idle_reads r' ≤ idle_reads r))
        ⊎ ((err ≡ some (final r)) × (length bytes < n) × (content r' ≡ [])))

read_more :
    (reads n : ℕ) (r : Reader)
    → (read_from (suc n) r).1 ≡ none
    → let (bytes, err, r') = read_from (suc n) r in
      let (more, more_err, r'') = read_full reads (suc n - length bytes) r' in
      read_full (suc reads) (suc n) r ≡ (bytes ++ more, more_err, r'')
unfolding read_full
read_more reads n r quiet = rw (quiet, read_full) refl

read_over :
    (reads n : ℕ) (r : Reader) (e : ReadErr)
    → (read_from (suc n) r).1 ≡ some e
    → let (bytes, err, r') = read_from (suc n) r in
      read_full (suc reads) (suc n) r
      ≡ (bytes, (if leb (suc n) (length bytes) then none else some e), r')
unfolding read_full
read_over reads n r e over = rw (over, read_full) refl

Full : ℕ → Reader → Read Reader → Type 0
Full n r (bytes, err, r') = Filled n r bytes err r'

pub read_full_lem :
    (reads n : ℕ) (r : Reader)
    → (n ≡ 0) ⊎ (idle_reads r < reads)
    → Filled n r (read_full reads n r).0 (read_full reads n r).1 (read_full reads n r).2
unfolding Full
read_full_lem zero zero r enough = unfold read_full in (refl, inl (refl, refl, refl, omega arith))
read_full_lem (suc reads) zero r enough =
    unfold read_full in (refl, inl (refl, refl, refl, omega arith))
read_full_lem zero (suc n) r enough = absurd (ground arith)
read_full_lem (suc reads) (suc n) r enough =
    let (short, parts, ends, same, less) = read_from_lem (suc n) r (omega arith) in
    let (bytes, err, r') = read_from (suc n) r in
    elim ends [
      | inl quiet ↦
          (let (kept, idle) = same (inl quiet) in
            let (parts', more) =
              read_full_lem reads (suc n - length bytes) r' (ground (arith, less quiet, enough)) in
            let (rest, rest_err, r'') = read_full reads (suc n - length bytes) r' in
            subst (λ x. Full (suc n) r x) (sym (read_more reads n r quiet))
              (
                parts ∙ ap (λ x. bytes ++ x) parts' ∙ sym (append_assoc bytes rest (content r'')),
                elim more [
                  | inl (e, l, f, i) ↦ inl (
                    e,
                    ground (arith, l, short, length-append bytes rest),
                    f ∙ kept,
                    ground (arith, i, idle),
                  )
                  | inr (e, l, f) ↦
                      inr (e ∙ ap some kept, ground (arith, l, short, length-append bytes rest), f)
                ],
              ))
      | inr (over, nothing) ↦
          subst (λ x. Full (suc n) r x) (sym (read_over reads n r (final r) over))
            (
              parts,
              elim (Bool-cases (leb (suc n) (length bytes))) [
                | inl full ↦
                    (let (kept, idle) = same (inr (ground (arith, full))) in
                      inl (rw full refl, ground (arith, full, short), kept, idle))
                | inr not_full ↦ inr (rw not_full refl, ground (arith, not_full), nothing)
              ],
            )
    ]
