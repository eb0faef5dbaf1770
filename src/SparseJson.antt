-- ===== src/SparseJson.antt =====
-- The reader that turns the upstream's sparse JSON arrays into JSON: internal/aistudio/decoder.go.
pub mod Stream
use aistudio2api.Prelude.{
  ℕ, ◌-◌, ◌≡◌, Bool, true, false, not, ◌||◌, ◌&&◌, if◌then◌else◌, ◌==◌, leb, List, ◌∷◌, [], ◌++◌,
  length, take, drop, is_empty,
}

pub record SparseJsonReader : Type 0 where
  pub pending : List ℕ
  pub in_string : Bool
  pub escaped : Bool
  pub previous_token : ℕ

unfoldable pub new_sparse_json_reader : SparseJsonReader
new_sparse_json_reader = record {
  pending = [];
  in_string = false;
  escaped = false;
  previous_token = 0;
}

-- unicode.IsSpace on one byte.
pub is_space : ℕ → Bool
is_space c = (leb 9 c && leb c 13) || (c == 32) || (c == 133) || (c == 160)

-- null
abbrev null : List ℕ
null = 110 ∷ 117 ∷ 108 ∷ 108 ∷ []

string_byte : SparseJsonReader → ℕ → SparseJsonReader
string_byte r c =
    if r.escaped
    then record r { escaped = false }
    else if c == 92
    then record r { escaped = true }
    else if c == 34
    then record r { in_string = false }
    else r

array_byte : SparseJsonReader → ℕ → SparseJsonReader × List ℕ
unfolding is_space
array_byte r c =
    if c == 34
    then (record r { in_string = true; previous_token = c }, c ∷ [])
    else if (c == 44) && ((r.previous_token == 91) || (r.previous_token == 44))
    then (record r { previous_token = c }, null ++ c ∷ [])
    else if (c == 93) && (r.previous_token == 44)
    then (record r { previous_token = c }, null ++ c ∷ [])
    else if not (is_space c)
    then (record r { previous_token = c }, c ∷ [])
    else (r, c ∷ [])

-- The bytes 34, 44, 91, 92 and 93 are the quote, the comma, the brackets and the backslash.
unfoldable pub normalize : SparseJsonReader → ℕ → SparseJsonReader × List ℕ
unfolding string_byte array_byte
normalize r c = if r.in_string then (string_byte r c, c ∷ []) else array_byte r c

-- What `Read` returns: the bytes, whether it is the error of the exhausted source, and the rest.
pub record Chunk : Type 0 where
  pub bytes : List ℕ
  pub eof : Bool
  pub reader : SparseJsonReader
  pub source : List ℕ

-- The loop of `Read` with `room` bytes left of the destination. `idle` tells of a source whether
-- nothing of it is buffered, and `written` whether bytes were copied before.
pub read : (List ℕ → Bool) → SparseJsonReader → List ℕ → ℕ → Bool → Chunk
unfolding normalize
read idle r [] room written =
    let copied = take room r.pending in
    record {
      bytes = copied;
      eof = not written && is_empty copied && not (room == 0);
      reader = record r { pending = drop room r.pending };
      source = [];
    }
read idle r (c ∷ cs) room written =
    let copied = take room r.pending in
    let left = room - length r.pending in
    let some_written = written || not (is_empty copied) in
    let (s, out) = normalize r c in
    let chunk = read idle (record s { pending = out }) cs left some_written in
    if left == 0
    then record {
      bytes = copied;
      eof = false;
      reader = record r { pending = drop room r.pending };
      source = c ∷ cs;
    }
    else if some_written && idle (c ∷ cs)
    then record { bytes = copied; eof = false; reader = record r { pending = [] }; source = c ∷ cs }
    else record chunk { bytes = copied ++ chunk.bytes }
