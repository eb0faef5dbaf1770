-- ===== src/Stop.antt =====
-- Stop sequences in a stream of text: internal/aistudio/stop.go. Text is a list of runes. Go compares
-- lengths in bytes: among sequences at one index, and among suffixes of one text, this is the same
-- order.
pub mod Earliest
use aistudio2api.Prelude.{
  ℕ, suc, ◌-◌, ◌≡◌, Bool, true, false, not, ◌&&◌, ◌||◌, if◌then◌else◌, ◌==◌, ltb, Option, none,
  some, List, ◌∷◌, [], ◌++◌, any, length, take, drop, Text, str_eq, is_empty, has_prefix,
  sort_stable,
}

pub record StopSequenceMatcher : Type 0 where
  pub sequences : List Text
  pub prefixes : List Text
  pub pending : Text

-- append, unless the text is there already.
pub append_new : List Text → Text → List Text
append_new seen text = if any (λ s. str_eq s text) seen then seen else seen ++ text ∷ []

-- sequence[:index] for the indices that `range` gives, but 0.
pub add_prefixes : List Text → Text → Text → List Text
unfolding append_new
add_prefixes seen start [] = seen
add_prefixes seen start (c ∷ cs) =
    let more = if is_empty start then seen else append_new seen start in
    add_prefixes more (start ++ c ∷ []) cs

pub add_sequences : StopSequenceMatcher → List Text → StopSequenceMatcher
unfolding append_new add_prefixes
add_sequences m [] = m
add_sequences m (s ∷ ss) =
    let with_s = record m {
      sequences = append_new m.sequences s;
      prefixes = add_prefixes m.prefixes [] s;
    } in
    let skipped = add_sequences m ss in
    let added = add_sequences with_s ss in if is_empty s then skipped else added

abbrev no_matcher : StopSequenceMatcher
no_matcher = record { sequences = []; prefixes = []; pending = [] }

sorted_matcher : StopSequenceMatcher → List Text → Option StopSequenceMatcher
sorted_matcher m [] = none
sorted_matcher m (s ∷ ss) = some (record m {
  prefixes = sort_stable (λ left right. ltb (length right) (length left)) m.prefixes;
})

unfoldable pub new_stop_sequence_matcher : List Text → Option StopSequenceMatcher
unfolding sorted_matcher add_sequences sort_stable
new_stop_sequence_matcher sequences =
    let m = add_sequences no_matcher sequences in sorted_matcher m m.sequences

-- strings.Index; `none` is -1.
pub index : Text → Text → Option ℕ
index [] s = if is_empty s then some 0 else none
index (c ∷ cs) s =
    let later = index cs s in
    if has_prefix (c ∷ cs) s then some 0 else (elim later [ none ↦ none | some i ↦ some (suc i) ])

abbrev pub Match : Type 0
Match = Option (ℕ × Text)

-- One round of the first loop of `write`.
pub better : Text → Match → Text → Match
better combined found s = elim (index combined s) [
  | none ↦ found
  | some i ↦ elim found [
    | none ↦ some (i, s)
    | some (j, matched) ↦
        if ltb i j || ((i == j) && ltb (length s) (length matched))
        then some (i, s)
        else some (j, matched)
  ]
]

pub best : Text → Match → List Text → Match
best combined found [] = found
best combined found (s ∷ ss) = best combined (better combined found s) ss

abbrev pub before_suffix : Text → Text → Text
before_suffix text suffix = take (length text - length suffix) text

-- strings.HasSuffix
abbrev pub has_suffix : Text → Text → Bool
has_suffix text suffix = str_eq (drop (length text - length suffix) text) suffix

-- The second loop: the text without the suffix that is held back, and that suffix.
pub hold_back : Text → List Text → Text × Text
hold_back text [] = (text, [])
hold_back text (p ∷ ps) =
    let later = hold_back text ps in if has_suffix text p then (before_suffix text p, p) else later

-- The text to pass on and the sequence matched, which is empty for none.
pub write : StopSequenceMatcher → Text → StopSequenceMatcher × Text × Text
write m text =
    let combined = m.pending ++ text in
    elim (best combined none m.sequences) [
      | some (i, matched) ↦ (record m { pending = [] }, take i combined, matched)
      | none ↦
          let (out, held) = hold_back combined m.prefixes in (record m { pending = held }, out, [])
    ]

unfoldable pub flush : StopSequenceMatcher → StopSequenceMatcher × Text
flush m = (record m { pending = [] }, m.pending)
