-- ===== src/Upload.antt =====
-- The upload of a file of unknown size to Drive: boundedUploadReader and uploadDriveResumable of
-- internal/aistudio/upload.go. Bytes are numbers. The answers of the server are a parameter, with what
-- encoding/json reads as the file's id.
pub mod Reading
pub mod Whole
pub mod Chunks
pub mod Files
mod Tests
use aistudio2api.Prelude.{
  ℕ, zero, suc, ◌+◌, ◌-◌, min, Bool, true, false, ◌&&◌, ◌||◌, if◌then◌else◌, ltb, leb, ◌==◌, Option,
  none, some, List, ◌∷◌, [], ◌++◌, length, take, drop, not, Text, is_empty, trim_space,
}

abbrev pub Bytes : Type 0
Bytes = List ℕ

-- `unexpected_eof` is io.ErrUnexpectedEOF of the body itself, as of a request that is cut short.
pub data ReadErr : Type 0 where
  end_of_file unexpected_eof : ReadErr
  failed : ℕ → ReadErr
  too_large : ℕ → ReadErr

-- The body of a request, an io.Reader: the bytes that are left; how many each of the next reads gives
-- at most (after these, a read gives all that it can); the error at the end, and whether the read that
-- gives the last byte gives it too.
pub record Source : Type 0 where
  pub rest : Bytes
  pub grains : List ℕ
  pub ending : ReadErr
  pub joined : Bool

abbrev pub is_nil : Bytes → Bool
is_nil [] = true
is_nil (b ∷ bs) = false

abbrev pub asked : ℕ → List ℕ → ℕ
asked n [] = n
asked n (g ∷ gs) = min n g

abbrev pub later : List ℕ → List ℕ
later [] = []
later (g ∷ gs) = gs

abbrev pub Read : Type 0 → Type 0
Read R = Bytes × Option ReadErr × R

unfoldable pub read : ℕ → Source → Read Source
read n s = (
  take (asked n s.grains) s.rest,
  (if is_nil s.rest || (s.joined && is_nil (drop (asked n s.grains) s.rest))
      then some s.ending
      else none),
  record s { rest = drop (asked n s.grains) s.rest; grains = later s.grains },
)

-- The reader that is uploaded: the body, or a boundedUploadReader with what remains and the limit.
pub data Reader : Type 0 where
  plain : Source → Reader
  bounded_upload_reader : Source → (remaining limit : ℕ) → Reader

unfoldable pub read_bounded : ℕ → Source → ℕ → ℕ → Read Reader
unfolding read
read_bounded n s zero limit =
    let (bytes, err, s') = read 1 s in
    ([], (if is_nil bytes then err else some (too_large limit)), bounded_upload_reader s' 0 limit)
read_bounded n s (suc m) limit =
    let (bytes, err, s') = read (min n (suc m)) s in
    (bytes, err, bounded_upload_reader s' (suc m - length bytes) limit)

unfoldable pub read_from : ℕ → Reader → Read Reader
unfolding read read_bounded
read_from n (plain s) = (let (bytes, err, s') = read n s in (bytes, err, plain s'))
read_from n (bounded_upload_reader s remaining limit) = read_bounded n s remaining limit

-- io.ReadFull, in a bounded number of reads: no error where all `n` bytes came. That some came before
-- the end is no case of its own here, as the caller treats both alike.
unfoldable pub read_full : ℕ → ℕ → Reader → Read Reader
unfolding read_from
read_full reads zero r = ([], none, r)
read_full zero (suc n) r = ([], none, r)
read_full (suc reads) (suc n) r =
    let (bytes, err, r') = read_from (suc n) r in
    let (more, more_err, r'') = read_full reads (suc n - length bytes) r' in
    elim err [
      | none ↦ (bytes ++ more, more_err, r'')
      | some e ↦ (bytes, (if leb (suc n) (length bytes) then none else some e), r')
    ]

-- A chunk as sendDriveUploadChunk sends it; no `total` is sent as `*`.
pub record Chunk : Type 0 where
  pub bytes : Bytes
  pub offset : ℕ
  pub total : Option ℕ

-- The position of the last byte, as the Content-Range names it.
abbrev pub last_position : Chunk → ℕ
last_position c = c.offset + length c.bytes - 1

-- The response to a chunk: whether its body could be read, its status, and the id in the JSON of the body.
pub record Answer : Type 0 where
  pub is_read : Bool
  pub status_code : ℕ
  pub id : Option Text

-- What client.Do gives for a chunk, nothing for an error.
abbrev pub Server : Type 0
Server = Chunk → Option Answer

pub data Outcome : Type 0 where
  uploaded : Text → Outcome
  empty_file refused unfinished : Outcome
  read_failed : ReadErr → Outcome

-- putDriveUploadChunk: whether it returns no error.
unfoldable pub put_drive_upload_chunk : Server → Chunk → Bool
put_drive_upload_chunk server chunk = elim (server chunk) [
  | none ↦ false
  | some answer ↦ answer.is_read && answer.status_code == 308
]

unfoldable pub parse_drive_upload_response : Answer → Outcome
parse_drive_upload_response answer =
    if not answer.is_read
    then refused
    else if ltb answer.status_code 200 || leb 300 answer.status_code
    then refused
    else (elim answer.id [
      | none ↦ refused
      | some id ↦ if is_empty (trim_space id) then refused else uploaded id
    ])

-- The last chunk is sent.
unfoldable pub send_last : Server → Chunk → Outcome
unfolding parse_drive_upload_response
send_last server chunk = elim (server chunk) [
  | none ↦ refused
  | some answer ↦ parse_drive_upload_response answer
]

abbrev pub drive_upload_chunk_size : ℕ
drive_upload_chunk_size = 8388608

-- The loop of uploadDriveResumable, in a bounded number of rounds and with `reads` reads for each
-- ReadFull: the chunks that were sent and how it ended. `chunk_size` is how long a chunk is that is not
-- the last. An error io.ErrUnexpectedEOF of the body is an end of the file here.
unfoldable pub upload_chunks :
    (chunk_size reads : ℕ) → Server → ℕ → Bytes → ℕ → Reader → List Chunk × Outcome
unfolding read_full put_drive_upload_chunk send_last
upload_chunks chunk_size reads server zero buffer offset r = ([], unfinished)
upload_chunks chunk_size reads server (suc rounds) buffer offset r =
    let (bytes, err, r') = read_full reads (suc chunk_size - length buffer) r in
    let filled = buffer ++ bytes in
    let chunk : Chunk = record { bytes = take chunk_size filled; offset = offset; total = none } in
    let rest =
      upload_chunks chunk_size reads server rounds (drop chunk_size filled) (offset + chunk_size)
        r' in
    let last : Chunk = record {
      bytes = filled;
      offset = offset;
      total = some (offset + length filled);
    } in
    elim err [
      | none ↦
          (if put_drive_upload_chunk server chunk
            then (chunk ∷ rest.0, rest.1)
            else (chunk ∷ [], refused))
      | some end_of_file ↦
          (if is_nil filled then ([], empty_file) else (last ∷ [], send_last server last))
      | some unexpected_eof ↦
          (if is_nil filled then ([], empty_file) else (last ∷ [], send_last server last))
      | some (failed e) ↦ ([], read_failed (failed e))
      | some (too_large limit) ↦ ([], read_failed (too_large limit))
    ]

-- The reader that the loop reads from, for the MaxSize of the request.
abbrev pub upload_reader : ℕ → Source → Reader
upload_reader max_size s =
    if ltb 0 max_size then bounded_upload_reader s max_size max_size else plain s

-- The body of a request sent whole: uploadDriveResumable from its session on.
unfoldable pub upload_drive_resumable :
    (chunk_size reads rounds : ℕ) → Server → ℕ → Source → List Chunk × Outcome
unfolding upload_chunks
upload_drive_resumable chunk_size reads rounds server max_size s =
    upload_chunks chunk_size reads server rounds [] 0 (upload_reader max_size s)
