-- ===== src/SparseJson/Stream.antt =====
-- The reader's output is one stream, however it is read, and a second reader leaves it as it is.
use aistudio2api.Prelude.{
  ℕ, zero, suc, min, ◌-◌, ◌≤◌, ◌≡◌, refl, sym, ap, subst, ◌∙◌, Bool, true, false, not, ◌||◌, ◌&&◌,
  ◌==◌, List, ◌∷◌, [], ◌++◌, append_assoc, length, length-append, take, drop, is_empty,
  take-append-drop, if_cases, arith,
}
use aistudio2api.SparseJson.{
  SparseJsonReader, is_space, string_byte, array_byte, normalize, Chunk, read,
}

-- All that a reader makes of a source, one byte after the other.
unfoldable pub normalized : SparseJsonReader → List ℕ → List ℕ
normalized r [] = []
normalized r (c ∷ cs) = let (s, out) = normalize r c in out ++ normalized s cs

feed : SparseJsonReader → List ℕ → SparseJsonReader × List ℕ
feed r [] = (r, [])
feed r (c ∷ cs) = let (s, out) = normalize r c in let (t, rest) = feed s cs in (t, out ++ rest)

feed_lem :
    (r : SparseJsonReader) (xs ys : List ℕ)
    → normalized r (xs ++ ys) ≡ (feed r xs).1 ++ normalized (feed r xs).0 ys
unfolding normalized feed
feed_lem r [] ys = refl
feed_lem r (x ∷ xs) ys =
    ap (◌++◌ (normalize r x).1) (feed_lem (normalize r x).0 xs ys)
    ∙ sym (append_assoc (normalize r x).1 (feed (normalize r x).0 xs).1 _)

-- What a byte became stays as it is, and leads to the same state.
refed : (r : SparseJsonReader) (c : ℕ) → feed r (normalize r c).1 ≡ normalize r c
unfolding feed normalize array_byte string_byte is_space
refed r c = ground arith

pub normalized-normalized :
    (r : SparseJsonReader) (cs : List ℕ) → normalized r (normalized r cs) ≡ normalized r cs
unfolding normalized
normalized-normalized r [] = refl
normalized-normalized r (c ∷ cs) =
    feed_lem r (normalize r c).1 (normalized (normalize r c).0 cs)
    ∙ ap
        (λ (p : SparseJsonReader × List ℕ). p.1 ++ normalized p.0 (normalized (normalize r c).0 cs))
        (refed r c)
    ∙ ap (◌++◌ (normalize r c).1) (normalized-normalized (normalize r c).0 cs)

normalize_pending :
    (r : SparseJsonReader) (p : List ℕ) (c : ℕ)
    → normalize (record r { pending = p }) c
      ≡ (record (normalize r c).0 { pending = p }, (normalize r c).1)
unfolding normalize array_byte string_byte is_space
normalize_pending r p c = ground arith

normalized_pending :
    (r : SparseJsonReader) (p cs : List ℕ)
    → normalized (record r { pending = p }) cs ≡ normalized r cs
unfolding normalized
normalized_pending r p [] = refl
normalized_pending r p (c ∷ cs) =
    ap (λ (n : SparseJsonReader × List ℕ). n.1 ++ normalized n.0 cs) (normalize_pending r p c)
    ∙ ap (◌++◌ (normalize r c).1) (normalized_pending (normalize r c).0 p cs)

-- What is still to come of a reader and the rest of its source.
pub stream : SparseJsonReader → List ℕ → List ℕ
unfolding normalized
stream r source = r.pending ++ normalized r source

drop_all : (n : ℕ) (xs : List ℕ) → length xs ≤ n → (take n xs ≡ xs) × (drop n xs ≡ [])
drop_all zero [] h = (refl, refl)
drop_all zero (x ∷ xs) h = absurd (omega (arith, h))
drop_all (suc n) [] h = (refl, refl)
drop_all (suc n) (x ∷ xs) h = let (e, f) = drop_all n xs (omega arith) in (ap (◌∷◌ x) e, f)

length-take : (n : ℕ) (xs : List ℕ) → length (take n xs) ≡ min n (length xs)
length-take zero xs = ground arith
length-take (suc n) [] = ground arith
length-take (suc n) (x ∷ xs) = let ih = length-take n xs in ground (arith, ih)

fed_stream :
    (r : SparseJsonReader) (c : ℕ) (cs : List ℕ)
    → stream (record (normalize r c).0 { pending = (normalize r c).1 }) cs ≡ normalized r (c ∷ cs)
unfolding stream normalized
fed_stream r c cs =
    ap (◌++◌ (normalize r c).1) (normalized_pending (normalize r c).0 (normalize r c).1 cs)

put_back :
    (r : SparseJsonReader) (n : ℕ) (cs : List ℕ)
    → take n r.pending ++ stream (record r { pending = drop n r.pending }) cs ≡ stream r cs
unfolding stream
put_back r n cs =
    ap (λ x. take n r.pending ++ (drop n r.pending ++ x))
      (normalized_pending r (drop n r.pending) cs)
    ∙ sym (append_assoc (take n r.pending) (drop n r.pending) (normalized r cs))
    ∙ ap (λ x. x ++ normalized r cs) (take-append-drop n r.pending)

emptied :
    (r : SparseJsonReader) (n : ℕ) (cs : List ℕ)
    → length r.pending ≤ n
    → take n r.pending ++ stream (record r { pending = [] }) cs ≡ stream r cs
emptied r n cs h =
    let e = (drop_all n r.pending h).1 in
    subst (λ d. take n r.pending ++ stream (record r { pending = d }) cs ≡ stream r cs) e
      (put_back r n cs)

-- What one call of `Read` owes to its caller.
pub record IsRead (r : SparseJsonReader) (source : List ℕ) (room : ℕ) (written : Bool)
    (chunk : Chunk) : Type 0 where
  pub whole : chunk.bytes ++ stream chunk.reader chunk.source ≡ stream r source
  pub bound : length chunk.bytes ≤ room
  pub exhausted : chunk.eof ≡ true → (written ≡ false) × (stream r source ≡ [])

take_bound : (n : ℕ) (xs : List ℕ) → length (take n xs) ≤ n
take_bound n xs = let h = length-take n xs in omega (arith, h)

none_left : (xs : List ℕ) (n : ℕ) → is_empty (take n xs) ≡ true → (n == 0) ≡ false → xs ≡ []
none_left [] n h k = refl
none_left (x ∷ xs) zero h k = absurd (cc k)
none_left (x ∷ xs) (suc n) h k = absurd (cc h)

end-IsRead :
    (idle : List ℕ → Bool) (r : SparseJsonReader) (room : ℕ) (written : Bool)
    → IsRead r [] room written (read idle r [] room written)
unfolding read stream normalized
end-IsRead idle r room written = record {
  whole = put_back r room [];
  bound = take_bound room r.pending;
  exhausted = λ h.
      let w : written ≡ false = ground arith in
      let e : is_empty (take room r.pending) ≡ true = ground arith in
      let n : (room == 0) ≡ false = ground arith in
      (w, ap (λ p. p ++ []) (none_left r.pending room e n));
}

whole_stream : (s : SparseJsonReader) (ds : List ℕ) → s.pending ++ normalized s ds ≡ stream s ds
unfolding stream
whole_stream s ds = refl

is_empty→[] : (xs : List ℕ) → is_empty xs ≡ true → xs ≡ []
is_empty→[] [] h = refl
is_empty→[] (x ∷ xs) h = absurd (cc h)

-- The step of the loop: copy all that is pending, and go on with the next byte.
step-IsRead :
    (r : SparseJsonReader) (c : ℕ) (cs : List ℕ) (room : ℕ) (written : Bool) (chunk : Chunk)
    → length r.pending ≤ room
    → IsRead
        (record (normalize r c).0 { pending = (normalize r c).1 })
        cs
        (room - length r.pending)
        (written || not (is_empty (take room r.pending)))
        chunk
    → IsRead r (c ∷ cs) room written (record chunk { bytes = take room r.pending ++ chunk.bytes })
step-IsRead r c cs room written chunk fits v =
    let copied : take room r.pending ≡ r.pending = (drop_all room r.pending fits).0 in
    let later : stream (record (normalize r c).0 { pending = (normalize r c).1 }) cs
        ≡ normalized r (c ∷ cs) =
      fed_stream r c cs in
    record {
      whole =
          append_assoc (take room r.pending) chunk.bytes (stream chunk.reader chunk.source)
          ∙ ap (◌++◌ (take room r.pending)) (v.whole ∙ later)
          ∙ ap (λ p. p ++ normalized r (c ∷ cs)) copied
          ∙ whole_stream r (c ∷ cs);
      bound =
          let l = length-append (take room r.pending) chunk.bytes in
          let k = length-take room r.pending in let b = v.bound in omega (arith, l, k, b);
      exhausted = λ h.
          let (w, e) = v.exhausted h in
          let n : is_empty (take room r.pending) ≡ true = ground arith in
          (
            ground arith,
            sym (whole_stream r (c ∷ cs))
                ∙ ap (λ p. p ++ normalized r (c ∷ cs))
                    (sym copied ∙ is_empty→[] (take room r.pending) n)
                ∙ sym later
                ∙ e,
          );
    }

-- Whatever the source has buffered, a call of `Read` gives at most as many bytes as there is room
-- for, these and what is still to come are what was to come before, and it reports the end only
-- where nothing was.
pub read-IsRead :
    (idle : List ℕ → Bool) (r : SparseJsonReader) (source : List ℕ) (room : ℕ) (written : Bool)
    → IsRead r source room written (read idle r source room written)
unfolding read
read-IsRead idle r [] room written = end-IsRead idle r room written
read-IsRead idle r (c ∷ cs) room written =
    if_cases (IsRead r (c ∷ cs) room written) (room - length r.pending == 0)
      (λ full. record {
        whole = put_back r room (c ∷ cs);
        bound = take_bound room r.pending;
        exhausted = λ h. absurd (cc h);
      })
      (λ left.
        let fits : length r.pending ≤ room = ground arith in
        if_cases (IsRead r (c ∷ cs) room written)
          ((written || not (is_empty (take room r.pending))) && idle (c ∷ cs))
          (λ stop. record {
            whole = emptied r room (c ∷ cs) fits;
            bound = take_bound room r.pending;
            exhausted = λ h. absurd (cc h);
          })
          (λ on. step-IsRead r c cs room written _ fits (
            read-IsRead idle (record (normalize r c).0 { pending = (normalize r c).1 }) cs
              (room - length r.pending) (written || not (is_empty (take room r.pending))))))
