-- ===== src/WebChannel/Tests.antt =====
-- The theorem on the frames of a WebChannel at two frames, one with a pair of surrogates, and a caller
-- whose emit may fail.
use aistudio2api.Prelude.{
  ℕ, if◌then◌else◌, ltb, length, List, ◌+◌, ◌-◌, arith, ◌≡◌, refl, true, Bool, map, Option, some,
  none, ◌∷◌, [], ◌++◌, Text,
}
use aistudio2api.WebChannel.{
  Emit, emit_failed, valid, invalid, Runes, write_frames, read_web_channel_frames, HasNoNewline,
}
use aistudio2api.WebChannel.RoundTrip.{
  emit_all, unless_failed, read_web_channel_frames-write_frames,
}

-- A length in the sample is the one rune of that number, counted on from 100.
abbrev header : ℕ → Text
header n = (100 + n) ∷ []

abbrev atoi : Runes → Option ℕ
atoi [] = none
atoi (invalid ∷ line) = none
atoi (valid v ∷ []) = some (v - 100)
atoi (valid v ∷ w ∷ line) = none

abbrev accepts_all : Text → Bool
accepts_all frame = true

reads_header : (n : ℕ) → (atoi (map valid (header n)) ≡ some n) × HasNoNewline (header n)
reads_header n = (ground arith, (ground arith, tt))

-- A caller that keeps the frames, and fails on the third.
abbrev keep : Emit (List Text) ℕ
keep frame kept = (frame ∷ kept, (if ltb (length kept) 2 then none else some 7))

abbrev two_frames : List Text
two_frames = (65 ∷ 128512 ∷ []) ∷ (66 ∷ []) ∷ []

stops_at_error :
    (read_web_channel_frames atoi accepts_all keep 9
      (write_frames header (two_frames ++ two_frames))
      []).1
    ≡ emit_failed 7
unfolding read_web_channel_frames write_frames aistudio2api.WebChannel.utf16_length
stops_at_error = refl

read_web_channel_frames-write_frames_example :
    read_web_channel_frames atoi accepts_all keep 3 (write_frames header two_frames ++ []) []
    ≡ unless_failed
        (emit_all keep two_frames [])
        (read_web_channel_frames atoi accepts_all keep 1 [])
read_web_channel_frames-write_frames_example =
    read_web_channel_frames-write_frames atoi accepts_all keep header 1 two_frames [] []
      reads_header (refl, (refl, tt))
