-- ===== src/Upload/Files.antt =====
-- What an upload sends of a file, and how it ends.
use aistudio2api.Prelude.{
  Text, none, some, ℕ, zero, suc, ◌+◌, ◌-◌, ◌≤◌, ◌<◌, ◌≡◌, ◌⊎◌, inl, inr, refl, sym, ap, subst, ◌∙◌,
  true, ◌&&◌, if◌then◌else◌, Bool-cases, if_cases, ltb, List, ◌∷◌, [], ◌++◌, append-nil, length,
  length-append, take, drop, arith,
}
use aistudio2api.Upload.{
  Bytes, ReadErr, end_of_file, unexpected_eof, failed, too_large, Source, is_nil, Reader, read_full,
  Chunk, Server, put_drive_upload_chunk, send_last, Outcome, uploaded, empty_file, read_failed,
  upload_chunks, upload_reader,
}
use aistudio2api.Upload.Reading.{
  length-take_le, take_short, content, final, idle_reads, is_nil_iff, length-drop,
}
use aistudio2api.Upload.Whole.{read_full_lem}
use aistudio2api.Upload.{upload_drive_resumable}
use aistudio2api.Upload.Chunks.{
  HasEnded, whole, joined, Chained, WholeUpload, upload-Whole, filled, after, middle, last,
  upload-middle, upload-last,
}

-- How an upload ends, by what the last chunk's answer makes of it, what there is to read and the error
-- at its end.
abbrev pub outcome_of : Outcome → ReadErr → Bytes → Outcome
outcome_of sent end_of_file all = if is_nil all then empty_file else sent
outcome_of sent unexpected_eof all = if is_nil all then empty_file else sent
outcome_of sent (failed x) all = read_failed (failed x)
outcome_of sent (too_large limit) all = read_failed (too_large limit)

-- The server takes every chunk but the last, and `sent` is what comes of any last one.
abbrev pub Answers : Server → Outcome → Type 0
Answers server sent =
    ((x : Chunk) → x.total ≡ none → put_drive_upload_chunk server x ≡ true)
    × ((x : Chunk) (n : ℕ) → x.total ≡ some n → send_last server x ≡ sent)

outcome_of_some :
    (sent : Outcome) (e : ReadErr) (xs ys : Bytes)
    → 0 < length xs
    → 0 < length ys
    → outcome_of sent e xs ≡ outcome_of sent e ys
outcome_of_some sent end_of_file xs ys hx hy = ground (arith, is_nil_iff xs, is_nil_iff ys)
outcome_of_some sent unexpected_eof xs ys hx hy = ground (arith, is_nil_iff xs, is_nil_iff ys)
outcome_of_some sent (failed x) xs ys hx hy = refl
outcome_of_some sent (too_large limit) xs ys hx hy = refl

module _ (c reads : ℕ) (server : Server) where
  outcome_whole :
      (sent : Outcome) (buffer : Bytes) (offset : ℕ) (r : Reader)
      → Answers server sent
      → (whole c reads server buffer offset r).1
        ≡ (if is_nil (filled c reads server buffer r) then empty_file else sent)
  outcome_whole sent buffer offset r answers =
      let all = filled c reads server buffer r in
      if_cases (λ (x : List Chunk × Outcome). x.1 ≡ (if is_nil all then empty_file else sent))
        (is_nil all) (λ nothing. ground arith)
        (λ bytes. ground (
          arith,
          answers.1 (last c reads server buffer offset r) (offset + length all) refl,
          bytes,
        ))

  outcome_last :
      (sent : Outcome) (buffer : Bytes) (offset : ℕ) (r : Reader) (e : ReadErr)
      → Answers server sent
      → (elim e as (λ x. List Chunk × Outcome) [
        | end_of_file ↦ whole c reads server buffer offset r
        | unexpected_eof ↦ whole c reads server buffer offset r
        | failed x ↦ ([], read_failed (failed x))
        | too_large limit ↦ ([], read_failed (too_large limit))
      ]).1
        ≡ outcome_of sent e (filled c reads server buffer r)
  outcome_last sent buffer offset r end_of_file answers = outcome_whole sent buffer offset r answers
  outcome_last sent buffer offset r unexpected_eof answers =
      outcome_whole sent buffer offset r answers
  outcome_last sent buffer offset r (failed x) answers = refl
  outcome_last sent buffer offset r (too_large limit) answers = refl

  upload_lem :
      (sent : Outcome) (rounds : ℕ) (buffer : Bytes) (offset : ℕ) (r : Reader)
      → Answers server sent
      → 0 < c
      → length buffer ≤ c
      → idle_reads r < reads
      → length (buffer ++ content r) < rounds
      → (upload_chunks c reads server rounds buffer offset r).1
        ≡ outcome_of sent (final r) (buffer ++ content r)
  upload_lem sent zero buffer offset r answers pos small enough more = absurd (ground arith)
  upload_lem sent (suc rounds) buffer offset r answers pos small enough more =
      let (parts, how) = read_full_lem reads (suc c - length buffer) r (inr enough) in
      let bytes = (read_full reads (suc c - length buffer) r).0 in
      let all = filled c reads server buffer r in
      let next = after c reads server buffer r in
      let l1 = length-append buffer (content r) in
      let l2 = length-append bytes (content next) in
      let l3 = length-append buffer bytes in
      let l4 = length-append (drop c all) (content next) in
      let t1 = length-take_le c all in
      let t2 = length-drop c all in
      let t3 = take_short c all in
      let l5 = ap length parts in
      elim how [
        | inl (e, l, f, i) ↦
            (let cut : (length (take c all) ≡ c) × (length (drop c all) ≡ 1) =
                ground (arith, l, l3, t1, t2, t3, small) in
              let rest =
                upload_lem sent rounds (drop c all) (offset + c) next answers pos
                  (ground (arith, cut, pos)) (ground (arith, i, enough))
                  (omega (arith, more, l1, l2, l3, l4, l5, l, cut.1, small, pos)) in
              ap (λ x. x.1) (upload-middle c reads server rounds buffer offset r e)
              ∙ (rw (answers.0 (middle c reads server buffer offset r) refl) rest)
              ∙ ap (λ x. outcome_of sent x (drop c all ++ content next)) f
              ∙ outcome_of_some sent (final r) (drop c all ++ content next) (buffer ++ content r)
                  (omega (arith, l4, cut.1)) (omega (arith, l1, l2, l3, l5, l, small)))
        | inr (e, l, nothing) ↦
            (let all_read : buffer ++ content r ≡ all =
                ap (λ x. buffer ++ x) (parts ∙ ap (λ x. bytes ++ x) nothing ∙ append-nil bytes) in
              ap (λ x. x.1) (upload-last c reads server rounds buffer offset r (final r) e)
              ∙ outcome_last sent buffer offset r (final r) answers
              ∙ ap (outcome_of sent (final r)) (sym all_read))
      ]

take_all : (n : ℕ) (bs : Bytes) → length bs ≤ n → take n bs ≡ bs
take_all zero [] h = refl
take_all zero (b ∷ bs) h = absurd (omega (arith, h))
take_all (suc n) [] h = refl
take_all (suc n) (b ∷ bs) h = ap (◌∷◌ b) (take_all n bs (omega (arith, h)))

module _ (max_size : ℕ) (s : Source) where
  idle_reads-upload_reader : idle_reads (upload_reader max_size s) ≤ length s.grains + 2
  idle_reads-upload_reader =
      if_cases (λ r. idle_reads r ≤ length s.grains + 2) (ltb 0 max_size) (λ bound. ground arith)
        (λ free. ground arith)

  abbrev Fits : Reader → Type 0
  Fits r =
      ((max_size ≡ 0) ⊎ (length s.rest ≤ max_size)) × (content r ≡ s.rest) × (final r ≡ s.ending)

  abbrev Exceeds : Reader → Type 0
  Exceeds r =
      (0 < max_size)
      × (max_size < length s.rest)
      × (final r ≡ too_large max_size)
      × (length (content r) ≤ max_size)

  -- The reader of an upload: what there is to read of it, and the error at its end.
  upload_reader-cases : Fits (upload_reader max_size s) ⊎ Exceeds (upload_reader max_size s)
  upload_reader-cases =
      if_cases (λ r. Fits r ⊎ Exceeds r) (ltb 0 max_size)
        (λ bound. elim (Bool-cases (ltb max_size (length s.rest))) [
          | inl over ↦
              inr (ground arith, ground arith, ground arith, length-take_le max_size s.rest)
          | inr within ↦
              inl (inr (ground arith), take_all max_size s.rest (ground arith), ground arith)
        ])
        (λ free. inl (inl (ground arith), refl, refl))

module _ (c reads rounds max_size : ℕ) (server : Server) (s : Source) where
  -- For chunks of at least one byte and enough reads for each filling of the buffer, whatever the
  -- server answers and however the body is cut into reads: where the upload is completed, the chunks
  -- sent are all that the body gave before its end, one after the other, all but the last of the
  -- chunk's size and only the last with the total; the body ended with io.EOF or with
  -- io.ErrUnexpectedEOF, within the maximal size if there is one.
  pub upload_drive_resumable-whole :
      (id : Text)
      → 0 < c
      → length s.grains + 2 < reads
      → (upload_drive_resumable c reads rounds server max_size s).1 ≡ uploaded id
      → (joined (upload_drive_resumable c reads rounds server max_size s).0 ≡ s.rest)
        × Chained c (length s.rest) 0 (upload_drive_resumable c reads rounds server max_size s).0
        × HasEnded s.ending
        × ((max_size ≡ 0) ⊎ (length s.rest ≤ max_size))
  unfolding upload_drive_resumable WholeUpload
  upload_drive_resumable-whole id pos enough done =
      let r = upload_reader max_size s in
      let (j, over, chain) =
        upload-Whole c reads server rounds (length (content r)) [] 0 r pos (omega arith)
          (omega (arith, idle_reads-upload_reader max_size s, enough)) (omega arith) id done in
      elim (upload_reader-cases max_size s) [
        | inl (bound, all, end) ↦ (
          j ∙ all,
          subst (λ n. Chained c n 0 (upload_drive_resumable c reads rounds server max_size s).0)
              (ap length all) chain,
          subst HasEnded end over,
          bound,
        )
        | inr (some_max, too_long, end, kept) ↦ absurd (ground (arith, end, over))
      ]

  -- For chunks of at least one byte, enough reads and rounds, and a server that takes every chunk but
  -- the last and answers any last one alike, how the upload ends: a file over the maximal size is too
  -- large; otherwise an error of the body is told unless it is io.ErrUnexpectedEOF, which counts as
  -- the end, an empty file is refused, and any other ends as the last chunk's answer says.
  pub upload_drive_resumable-outcome :
      (sent : Outcome)
      → 0 < c
      → length s.grains + 2 < reads
      → length s.rest < rounds
      → Answers server sent
      → (upload_drive_resumable c reads rounds server max_size s).1 ≡ (
          if ltb 0 max_size && ltb max_size (length s.rest)
          then read_failed (too_large max_size)
          else outcome_of sent s.ending s.rest)
  unfolding upload_drive_resumable
  upload_drive_resumable-outcome sent pos enough more answers =
      let r = upload_reader max_size s in
      let idle = idle_reads-upload_reader max_size s in
      elim (upload_reader-cases max_size s) [
        | inl (bound, all, end) ↦
            upload_lem c reads server sent rounds [] 0 r answers pos (omega arith)
              (omega (arith, idle, enough)) (omega (arith, ap length all, more))
            ∙ ap (λ x. outcome_of sent x (content r)) end
            ∙ ap (outcome_of sent s.ending) all
            ∙ ground (arith, bound)
        | inr (some_max, too_long, end, kept) ↦
            upload_lem c reads server sent rounds [] 0 r answers pos (omega arith)
              (omega (arith, idle, enough)) (omega (arith, kept, too_long, more))
            ∙ ap (λ x. outcome_of sent x (content r)) end
            ∙ ground (arith, some_max, too_long)
      ]
