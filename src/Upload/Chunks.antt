-- ===== src/Upload/Chunks.antt =====
-- The chunks that are sent, one round of the loop at a time.
use aistudio2api.Prelude.{
  ℕ, Text, ◌⊎◌, zero, suc, ◌+◌, ◌-◌, ◌≤◌, ◌<◌, ◌≡◌, inl, inr, refl, sym, ap, subst, ◌∙◌, true,
  false, if◌then◌else◌, if_cases, none, some, List, ◌∷◌, [], ◌++◌, append-nil, append_assoc, length,
  length-append, take, drop, take-append-drop, arith,
}
use aistudio2api.Upload.{
  Bytes, ReadErr, end_of_file, unexpected_eof, failed, too_large, is_nil, Reader, read_full, Chunk,
  Server, put_drive_upload_chunk, send_last, Outcome, uploaded, empty_file, refused, read_failed,
  upload_chunks,
}
use aistudio2api.Upload.Reading.{
  length-take_le, take_short, content, final, idle_reads, is_nil_iff, length-drop,
}
use aistudio2api.Upload.Whole.{read_full_lem}

unfoldable pub joined : List Chunk → Bytes
joined [] = []
joined (chunk ∷ chunks) = chunk.bytes ++ joined chunks

-- The chunks follow each other from `offset` on: each but the last has the chunk size and no total, and
-- the last one, which is not empty, ends at the total.
abbrev pub Chained : ℕ → ℕ → ℕ → List Chunk → Type 0
Chained chunk_size total offset [] = true ≡ false
Chained chunk_size total offset (last ∷ []) =
    (last.offset ≡ offset)
    × (last.total ≡ some total)
    × (offset + length last.bytes ≡ total)
    × (0 < length last.bytes)
    × (length last.bytes ≤ chunk_size)
Chained chunk_size total offset (chunk ∷ next ∷ chunks) =
    (chunk.offset ≡ offset)
    × (chunk.total ≡ none)
    × (length chunk.bytes ≡ chunk_size)
    × Chained chunk_size total (offset + chunk_size) (next ∷ chunks)

cons-Chained :
    (c total offset : ℕ) (chunk : Chunk) (chunks : List Chunk)
    → chunk.offset ≡ offset
    → chunk.total ≡ none
    → length chunk.bytes ≡ c
    → Chained c total (offset + c) chunks
    → Chained c total offset (chunk ∷ chunks)
cons-Chained c total offset chunk [] o t l h = absurd (ground arith)
cons-Chained c total offset chunk (next ∷ chunks) o t l h = (o, t, l, h)

-- The error at the end of a body that the upload takes for its end.
abbrev pub HasEnded : ReadErr → Type 0
HasEnded e = (e ≡ end_of_file) ⊎ (e ≡ unexpected_eof)

module _ (c reads : ℕ) (server : Server) where
  abbrev pub filled : Bytes → Reader → Bytes
  filled buffer r = buffer ++ (read_full reads (suc c - length buffer) r).0

  abbrev pub after : Bytes → Reader → Reader
  after buffer r = (read_full reads (suc c - length buffer) r).2

  abbrev pub middle : Bytes → ℕ → Reader → Chunk
  middle buffer offset r = record {
    bytes = take c (filled buffer r);
    offset = offset;
    total = none;
  }

  abbrev pub last : Bytes → ℕ → Reader → Chunk
  last buffer offset r = record {
    bytes = filled buffer r;
    offset = offset;
    total = some (offset + length (filled buffer r));
  }

  -- What is sent when the file has ended.
  abbrev pub whole : Bytes → ℕ → Reader → List Chunk × Outcome
  whole buffer offset r =
      if is_nil (filled buffer r)
      then ([], empty_file)
      else (last buffer offset r ∷ [], send_last server (last buffer offset r))

  abbrev pub upload : ℕ → Bytes → ℕ → Reader → List Chunk × Outcome
  upload rounds buffer offset r = upload_chunks c reads server rounds buffer offset r

  pub upload-middle :
      (rounds : ℕ) (buffer : Bytes) (offset : ℕ) (r : Reader)
      → (read_full reads (suc c - length buffer) r).1 ≡ none
      → let rest = upload rounds (drop c (filled buffer r)) (offset + c) (after buffer r) in
        upload (suc rounds) buffer offset r ≡ (
          if put_drive_upload_chunk server (middle buffer offset r)
          then (middle buffer offset r ∷ rest.0, rest.1)
          else (middle buffer offset r ∷ [], refused))
  unfolding upload_chunks
  upload-middle rounds buffer offset r more = rw (more, upload_chunks) refl

  pub upload-last :
      (rounds : ℕ) (buffer : Bytes) (offset : ℕ) (r : Reader) (e : ReadErr)
      → (read_full reads (suc c - length buffer) r).1 ≡ some e
      → upload (suc rounds) buffer offset r ≡ (elim e [
        | end_of_file ↦ whole buffer offset r
        | unexpected_eof ↦ whole buffer offset r
        | failed x ↦ ([], read_failed (failed x))
        | too_large limit ↦ ([], read_failed (too_large limit))
      ])
  unfolding upload_chunks
  upload-last rounds buffer offset r e over = rw (over, upload_chunks) refl

  -- What a completed upload has sent, from a buffer and a position on.
  unfoldable pub WholeUpload : ℕ → ℕ → Bytes → ReadErr → List Chunk × Outcome → Type 0
  WholeUpload total offset all e (sent, outcome) =
      (id : Text)
      → outcome ≡ uploaded id
      → (joined sent ≡ all) × HasEnded e × Chained c total offset sent

  whole-Whole :
      (total : ℕ) (buffer : Bytes) (offset : ℕ) (r : Reader) (all : Bytes) (e : ReadErr)
      → all ≡ filled buffer r
      → total ≡ offset + length all
      → length (filled buffer r) ≤ c
      → HasEnded e
      → WholeUpload total offset all e (whole buffer offset r)
  unfolding WholeUpload joined
  whole-Whole total buffer offset r all e is t small ended =
      let sized = ap length is in
      let z = is_nil_iff (filled buffer r) in
      if_cases (λ x. WholeUpload total offset all e x) (is_nil (filled buffer r))
        (λ yes. λ id h. absurd (ground (arith, h)))
        (λ no. λ id h. (
          append-nil (filled buffer r) ∙ sym is,
          ended,
          (
            refl,
            ap some (omega (arith, t, sized)),
            omega (arith, t, sized),
            ground (arith, z, no),
            small,
          ),
        ))

  last-Whole :
      (total : ℕ) (buffer : Bytes) (offset : ℕ) (r : Reader) (all : Bytes) (e : ReadErr)
      → all ≡ filled buffer r
      → total ≡ offset + length all
      → length (filled buffer r) ≤ c
      → WholeUpload total offset all e (elim e [
        | end_of_file ↦ whole buffer offset r
        | unexpected_eof ↦ whole buffer offset r
        | failed x ↦ ([], read_failed (failed x))
        | too_large limit ↦ ([], read_failed (too_large limit))
      ])
  unfolding WholeUpload joined
  last-Whole total buffer offset r all end_of_file is t small =
      whole-Whole total buffer offset r all end_of_file is t small (inl refl)
  last-Whole total buffer offset r all unexpected_eof is t small =
      whole-Whole total buffer offset r all unexpected_eof is t small (inr refl)
  last-Whole total buffer offset r all (failed x) is t small = λ id h. absurd (ground (arith, h))
  last-Whole total buffer offset r all (too_large limit) is t small =
      λ id h. absurd (ground (arith, h))

  pub upload-Whole :
      (rounds total : ℕ) (buffer : Bytes) (offset : ℕ) (r : Reader)
      → 0 < c
      → length buffer ≤ c
      → idle_reads r < reads
      → total ≡ offset + length (buffer ++ content r)
      → WholeUpload total offset (buffer ++ content r) (final r) (upload rounds buffer offset r)
  unfolding WholeUpload joined
  upload-Whole zero total buffer offset r pos small enough is =
      unfold upload_chunks in λ id h. absurd (ground (arith, h))
  upload-Whole (suc rounds) total buffer offset r pos small enough is =
      let (parts, how) = read_full_lem reads (suc c - length buffer) r (inr enough) in
      let bytes = (read_full reads (suc c - length buffer) r).0 in
      let all = filled buffer r in
      let next = after buffer r in
      let l1 = length-append buffer (content r) in
      let l2 = length-append bytes (content next) in
      let l3 = length-append buffer bytes in
      let l4 = length-append (drop c all) (content next) in
      let t1 = length-take_le c all in
      let t2 = length-drop c all in
      let t3 = take_short c all in
      let l5 = ap length parts in
      elim how [
        | inl (e, l, f, i) ↦
            (let cut : (length (take c all) ≡ c) × (length (drop c all) ≡ 1) =
                ground (arith, l, l3, t1, t2, t3, small) in
              let rest =
                upload-Whole rounds total (drop c all) (offset + c) next pos
                  (ground (arith, cut, pos)) (ground (arith, i, enough))
                  (omega (arith, is, l1, l2, l3, l4, l5, l, cut.1, small)) in
              subst (λ x. WholeUpload total offset (buffer ++ content r) (final r) x)
                (sym (upload-middle rounds buffer offset r e))
                (if_cases (λ x. WholeUpload total offset (buffer ++ content r) (final r) x)
                  (put_drive_upload_chunk server (middle buffer offset r))
                  (λ yes. λ id h.
                    (let (j, over, chain) = rest id h in
                      (
                        ap (λ x. take c all ++ x) j
                            ∙ sym (append_assoc (take c all) (drop c all) (content next))
                            ∙ ap (λ x. x ++ content next) (take-append-drop c all)
                            ∙ append_assoc buffer bytes (content next)
                            ∙ ap (λ x. buffer ++ x) (sym parts),
                        subst HasEnded f over,
                        cons-Chained c total offset (middle buffer offset r)
                            (upload rounds (drop c all) (offset + c) next).0 refl refl cut.0 chain,
                      )))
                  (λ no. λ id h. absurd (ground (arith, h)))))
        | inr (e, l, nothing) ↦
            subst (λ x. WholeUpload total offset (buffer ++ content r) (final r) x)
              (sym (upload-last rounds buffer offset r (final r) e))
              (let all_read : buffer ++ content r ≡ all =
                  ap (λ x. buffer ++ x) (parts ∙ ap (λ x. bytes ++ x) nothing ∙ append-nil bytes) in
                last-Whole total buffer offset r (buffer ++ content r) (final r) all_read is
                  (omega (arith, l, l3, small)))
      ]
