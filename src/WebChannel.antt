-- ===== src/WebChannel.antt =====
-- The frames of a WebChannel response: readWebChannelFrames and readUTF16Units of
-- internal/aistudio/webchannel.go. The source is a list of runes, as bufio.Reader decodes its UTF-8, a
-- byte that is none being `invalid`. What strconv.Atoi makes of a trimmed line and what json.Valid says
-- of a frame are parameters, and so is emit.
pub mod RoundTrip
mod Tests
use aistudio2api.Prelude.{
  ℕ, zero, suc, ◌+◌, ◌≤◌, ◌<◌, ◌≡◌, inl, inr, refl, sym, ap, subst, ◌∙◌, Bool, true, false,
  if◌then◌else◌, Bool-cases, ◌==◌, ltb, Option, none, some, List, ◌∷◌, [], ◌++◌, append_assoc, map,
  length, length-append, All, Text, trim_space, arith,
}

pub data Rune : Type 0 where
  valid : ℕ → Rune
  invalid : Rune

abbrev pub Runes : Type 0
Runes = List Rune

abbrev pub newline : ℕ
newline = 10

-- utf16.RuneLen
unfoldable pub rune_len : ℕ → ℕ
rune_len v = if ltb v 65536 then 1 else 2

pub data FrameErr : Type 0 where
  unexpected_eof invalid_utf8 truncates_pair : FrameErr

pub data Units : Type 0 where
  units_read : Text → Runes → Units
  units_failed : FrameErr → Units

abbrev pub prepend : ℕ → Units → Units
prepend v (units_read frame rest) = units_read (v ∷ frame) rest
prepend v (units_failed e) = units_failed e

-- readUTF16Units
unfoldable pub read_utf16_units : Runes → ℕ → Units
unfolding rune_len
read_utf16_units source zero = units_read [] source
read_utf16_units [] (suc n) = units_failed unexpected_eof
read_utf16_units (invalid ∷ source) (suc n) = units_failed invalid_utf8
read_utf16_units (valid v ∷ source) (suc zero) =
    if rune_len v == 1
    then prepend v (read_utf16_units source zero)
    else units_failed truncates_pair
read_utf16_units (valid v ∷ source) (suc (suc n)) =
    let one = read_utf16_units source (suc n) in
    let two = read_utf16_units source n in prepend v (if rune_len v == 1 then one else two)

-- ReadString('\\n'), the end of line left out: nothing at the end of the source.
unfoldable pub read_line : Runes → Option (Runes × Runes)
read_line [] = none
read_line (invalid ∷ source) = elim (read_line source) [
  | none ↦ none
  | some (line, rest) ↦ some (invalid ∷ line, rest)
]
read_line (valid v ∷ source) =
    if v == newline
    then some ([], source)
    else (elim (read_line source) [ none ↦ none | some (line, rest) ↦ some (valid v ∷ line, rest) ])

pub data FramesEnd (E : Type 0) : Type 0 where
  source_ended invalid_length not_json unfinished : FramesEnd E
  frame_failed : FrameErr → FramesEnd E
  emit_failed : E → FramesEnd E

-- The callback that takes a frame: what it does to the caller's state, and its error.
abbrev pub Emit : Type 0 → Type 0 → Type 0
Emit S E = Text → S → S × Option E

module _ {S E : Type 0} (atoi : Runes → Option ℕ) (json_valid : Text → Bool) (emit : Emit S E) where
  -- readWebChannelFrames, in a bounded number of rounds: what emit makes of the caller's state, and how
  -- it ends.
  unfoldable pub read_web_channel_frames : ℕ → Runes → S → S × FramesEnd E
  unfolding read_utf16_units read_line
  read_web_channel_frames zero source s = (s, unfinished)
  read_web_channel_frames (suc rounds) source s = elim (read_line source) [
    | none ↦ (s, source_ended)
    | some (line, rest) ↦ (elim (atoi line) [
      | none ↦ (s, invalid_length)
      | some units ↦ (elim (read_utf16_units rest units) [
        | units_failed e ↦ (s, frame_failed e)
        | units_read frame later ↦ (elim (json_valid frame) [
          | false ↦ (s, not_json)
          | true ↦
              (let (s', err) = emit frame s in
                elim err [
                  | none ↦ read_web_channel_frames rounds later s'
                  | some e ↦ (s', emit_failed e)
                ])
        ])
      ])
    ])
  ]

-- How many UTF-16 code units a text is, the length that the server writes.
unfoldable pub utf16_length : Text → ℕ
unfolding rune_len
utf16_length [] = 0
utf16_length (v ∷ s) = rune_len v + utf16_length s

abbrev pub Header : Type 0
Header = ℕ → Text

abbrev pub HasNoNewline : Text → Type 0
HasNoNewline s = All (λ v. (v == newline) ≡ false) s

-- A frame as the server writes it: its length, the end of the line, and the frame.
abbrev pub write_frame : Header → Text → Runes
write_frame header frame =
    map valid (header (utf16_length frame)) ++ valid newline ∷ map valid frame

unfoldable pub write_frames : Header → List Text → Runes
write_frames header [] = []
write_frames header (frame ∷ frames) = write_frame header frame ++ write_frames header frames
