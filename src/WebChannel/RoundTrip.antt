-- ===== src/WebChannel/RoundTrip.antt =====
-- What the server writes as frames is read as these frames.
use aistudio2api.Prelude.{
  ℕ, zero, suc, ◌+◌, ◌≡◌, inl, inr, refl, ap, ◌∙◌, Bool, true, Bool-cases, ltb, Option, some, List,
  none, Option-cases, ◌∷◌, [], ◌++◌, append_assoc, map, length, All, Text, arith,
}
use aistudio2api.WebChannel.{
  valid, Runes, newline, rune_len, units_read, units_failed, truncates_pair, prepend,
  read_utf16_units, read_line, FramesEnd, emit_failed, Emit, read_web_channel_frames, utf16_length,
  Header, HasNoNewline, write_frame, write_frames,
}

read_units_one :
    (v n : ℕ) (source : Runes)
    → rune_len v ≡ 1
    → read_utf16_units (valid v ∷ source) (suc n) ≡ prepend v (read_utf16_units source n)
unfolding read_utf16_units
read_units_one v zero source h = rw h refl
read_units_one v (suc n) source h = rw h refl

read_units_two :
    (v n : ℕ) (source : Runes)
    → rune_len v ≡ 2
    → read_utf16_units (valid v ∷ source) (suc (suc n)) ≡ prepend v (read_utf16_units source n)
unfolding read_utf16_units
read_units_two v n source h = rw h refl

read_units-append :
    (frame : Text) (source : Runes)
    → read_utf16_units (map valid frame ++ source) (utf16_length frame) ≡ units_read frame source
unfolding utf16_length
read_units-append [] source = unfold read_utf16_units in refl
read_units-append (v ∷ frame) source =
    let rest = read_units-append frame source in
    elim (Bool-cases (ltb v 65536)) [
      | inl one ↦
          (let len : rune_len v ≡ 1 = unfold rune_len in rw one refl in
            let size : rune_len v + utf16_length frame ≡ suc (utf16_length frame) =
              omega (arith, len) in
            ap (read_utf16_units (valid v ∷ (map valid frame ++ source))) size
            ∙ read_units_one v (utf16_length frame) (map valid frame ++ source) len
            ∙ ap (prepend v) rest)
      | inr two ↦
          (let len : rune_len v ≡ 2 = unfold rune_len in rw two refl in
            let size : rune_len v + utf16_length frame ≡ suc (suc (utf16_length frame)) =
              omega (arith, len) in
            ap (read_utf16_units (valid v ∷ (map valid frame ++ source))) size
            ∙ read_units_two v (utf16_length frame) (map valid frame ++ source) len
            ∙ ap (prepend v) rest)
    ]

-- A length that ends inside a pair of surrogates is told, whatever follows.
pub read_utf16_units-truncated :
    (frame : Text) (v : ℕ) (source : Runes)
    → rune_len v ≡ 2
    → read_utf16_units (map valid (frame ++ v ∷ []) ++ source) (suc (utf16_length frame))
      ≡ units_failed truncates_pair
unfolding utf16_length
read_utf16_units-truncated [] v source h = unfold read_utf16_units in rw h refl
read_utf16_units-truncated (w ∷ frame) v source h =
    let rest = read_utf16_units-truncated frame v source h in
    elim (Bool-cases (ltb w 65536)) [
      | inl one ↦
          (let len : rune_len w ≡ 1 = unfold rune_len in rw one refl in
            let size : suc (rune_len w + utf16_length frame) ≡ suc (suc (utf16_length frame)) =
              omega (arith, len) in
            ap (read_utf16_units (valid w ∷ (map valid (frame ++ v ∷ []) ++ source))) size
            ∙ read_units_one w (suc (utf16_length frame)) (map valid (frame ++ v ∷ []) ++ source)
                len
            ∙ ap (prepend w) rest)
      | inr two ↦
          (let len : rune_len w ≡ 2 = unfold rune_len in rw two refl in
            let size : suc (rune_len w + utf16_length frame)
                ≡ suc (suc (suc (utf16_length frame))) =
              omega (arith, len) in
            ap (read_utf16_units (valid w ∷ (map valid (frame ++ v ∷ []) ++ source))) size
            ∙ read_units_two w (suc (utf16_length frame)) (map valid (frame ++ v ∷ []) ++ source)
                len
            ∙ ap (prepend w) rest)
    ]

read_line-append :
    (line : Text) (source : Runes)
    → HasNoNewline line
    → read_line (map valid line ++ valid newline ∷ source) ≡ some (map valid line, source)
unfolding read_line
read_line-append [] source h = refl
read_line-append (v ∷ line) source (h, hs) = rw (h, read_line-append line source hs) refl

module _ {S E : Type 0} where
  -- The frames given to emit one after another, up to the first that it fails on.
  unfoldable pub emit_all : Emit S E → List Text → S → S × Option E
  emit_all emit [] s = (s, none)
  emit_all emit (frame ∷ frames) s =
      let (s', err) = emit frame s in
      elim err [ none ↦ emit_all emit frames s' | some e ↦ (s', some e) ]

  -- What follows the frames that were emitted, unless emit failed.
  abbrev pub unless_failed : S × Option E → (S → S × FramesEnd E) → S × FramesEnd E
  unless_failed (s, none) next = next s
  unless_failed (s, some e) next = (s, emit_failed e)

module _ {S E : Type 0} (atoi : Runes → Option ℕ) (json_valid : Text → Bool) (emit : Emit S E)
    (header : Header) where
  read_frame :
      (rounds : ℕ) (frame : Text) (source : Runes) (s : S)
      → ((n : ℕ) → (atoi (map valid (header n)) ≡ some n) × HasNoNewline (header n))
      → json_valid frame ≡ true
      → read_web_channel_frames atoi json_valid emit
          (suc rounds)
          (write_frame header frame ++ source)
          s
        ≡ unless_failed (emit frame s) (read_web_channel_frames atoi json_valid emit rounds source)
  unfolding read_web_channel_frames
  read_frame rounds frame source s written ok =
      let (number, plain) = written (utf16_length frame) in
      let line = read_line-append (header (utf16_length frame)) (map valid frame ++ source) plain in
      let units = read_units-append frame source in
      ap (λ x. read_web_channel_frames atoi json_valid emit (suc rounds) x s)
        (append_assoc (map valid (header (utf16_length frame))) (valid newline ∷ map valid frame)
          source)
      ∙ elim (Option-cases (emit frame s).1) [
        | inl quiet ↦ rw (line, number, units, ok, quiet, read_web_channel_frames) refl
        | inr (e, told) ↦ rw (line, number, units, ok, told, read_web_channel_frames) refl
      ]

  -- Where the length that the server writes is read back as that number and holds no end of line: of
  -- JSON texts written as frames, each after its length in UTF-16 code units, each is given to emit as
  -- it was written, in order; where emit fails on one, the reading ends there with that error, and
  -- otherwise it goes on with what follows them.
  pub read_web_channel_frames-write_frames :
      (rounds : ℕ) (frames : List Text) (source : Runes) (s : S)
      → ((n : ℕ) → (atoi (map valid (header n)) ≡ some n) × HasNoNewline (header n))
      → All (λ f. json_valid f ≡ true) frames
      → read_web_channel_frames atoi json_valid emit
          (rounds + length frames)
          (write_frames header frames ++ source)
          s
        ≡ unless_failed
            (emit_all emit frames s)
            (read_web_channel_frames atoi json_valid emit rounds source)
  unfolding write_frames emit_all
  read_web_channel_frames-write_frames rounds [] source s written ok =
      ap (λ n. read_web_channel_frames atoi json_valid emit n source s) (omega arith)
  read_web_channel_frames-write_frames rounds (frame ∷ frames) source s written (ok, oks) =
      let more : rounds + length (frame ∷ frames) ≡ suc (rounds + length frames) = omega arith in
      ap
        (λ n.
          read_web_channel_frames atoi json_valid emit n
            (write_frames header (frame ∷ frames) ++ source) s)
        more
      ∙ ap (λ x. read_web_channel_frames atoi json_valid emit (suc (rounds + length frames)) x s)
          (append_assoc (write_frame header frame) (write_frames header frames) source)
      ∙ read_frame (rounds + length frames) frame (write_frames header frames ++ source) s written
          ok
      ∙ elim (Option-cases (emit frame s).1) [
        | inl quiet ↦
            rw (quiet, emit_all)
              (read_web_channel_frames-write_frames rounds frames source (emit frame s).0 written
                oks)
        | inr (e, told) ↦ rw (told, emit_all) refl
      ]
