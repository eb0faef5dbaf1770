-- ===== src/Upload/Tests.antt =====
-- The theorems on the upload of a file at five bytes in chunks of two, with short reads.
use aistudio2api.Prelude.{
  ℕ, ◌≡◌, ◌⊎◌, ◌≤◌, refl, true, Bool, Option, none, some, length, ◌∷◌, [], arith, Text, codes,
}
use aistudio2api.Upload.{
  Source, end_of_file, unexpected_eof, read_failed, too_large, Server, put_drive_upload_chunk,
  send_last, uploaded, upload_drive_resumable,
}
use aistudio2api.Upload.Chunks.{joined, Chained, HasEnded}
use aistudio2api.Upload.Files.{
  Answers, upload_drive_resumable-whole, upload_drive_resumable-outcome,
}

abbrev body : Source
body = record {
  rest = 10 ∷ 20 ∷ 30 ∷ 40 ∷ 50 ∷ [];
  grains = 1 ∷ 0 ∷ 2 ∷ [];
  ending = end_of_file;
  joined = true;
}

abbrev limit : ℕ
limit = 5

-- A server that takes all: 308 before the last chunk, and the file's id after it.
abbrev server : Server
server chunk = elim chunk.total [
  | none ↦ some (record { is_read = true; status_code = 308; id = none })
  | some n ↦ some (record { is_read = true; status_code = 200; id = some (codes "f") })
]

completes : (upload_drive_resumable 2 6 6 server limit body).1 ≡ uploaded (codes "f")
unfolding upload_drive_resumable aistudio2api.Prelude.trim_space
completes = refl

upload_drive_resumable-whole_example :
    (joined (upload_drive_resumable 2 6 6 server limit body).0 ≡ body.rest)
    × Chained 2 5 0 (upload_drive_resumable 2 6 6 server limit body).0
    × HasEnded body.ending
    × ((limit ≡ 0) ⊎ (length body.rest ≤ limit))
upload_drive_resumable-whole_example =
    upload_drive_resumable-whole 2 6 6 limit server body (codes "f") (omega arith) (omega arith)
      completes

-- A body that is cut short is uploaded as far as it came.
cut_short :
    (upload_drive_resumable 2 6 6 server limit (record body { ending = unexpected_eof })).1
    ≡ uploaded (codes "f")
unfolding upload_drive_resumable aistudio2api.Prelude.trim_space
cut_short = refl

answers : Answers server (uploaded (codes "f"))
unfolding put_drive_upload_chunk send_last aistudio2api.Prelude.trim_space
answers = ((λ x h. rw h refl), (λ x n h. rw h refl))

upload_drive_resumable-outcome_example :
    (upload_drive_resumable 2 6 6 server 4 body).1 ≡ read_failed (too_large 4)
upload_drive_resumable-outcome_example =
    upload_drive_resumable-outcome 2 6 6 4 server body (uploaded (codes "f")) (omega arith)
      (omega arith) (omega arith) answers
