-- ===== src/Server/Stream/Collect.antt =====
-- What `Write` emits: how large its chunks are, and what they say when they are put together.
use go_sdk.Prelude.{
  ℕ, zero, suc, ◌⊎◌, ◌+◌, ◌≤◌, ◌<◌, ◌≡◌, refl, sym, ◌∙◌, true, false, List, [], ◌∷◌, ◌++◌,
  append-nil, append_assoc, none, length, take, drop, All, take-append-drop, length-drop,
  length-take, arith,
}
use go_sdk.Server.Stream.{Codec, Chunk, Stream, chunk_of, write_segment, write_loop, write}

module _ ⦃C : Codec⦄ where
  -- The chunks that the loop adds for the segments of p.
  abbrev segments : ℕ → ℕ → List ℕ → List (List ℕ)
  segments fuel limit [] = []
  segments zero limit (c ∷ p) = []
  segments (suc fuel) limit (c ∷ p) = take limit (c ∷ p) ∷ segments fuel limit (drop limit (c ∷ p))

  abbrev pub concat_bytes : List (List ℕ) → List ℕ
  concat_bytes [] = []
  concat_bytes (x ∷ xs) = x ++ concat_bytes xs

  -- The chunks with more to come that carry the segments, numbered from `seq`.
  abbrev pub numbered : Stream → ℕ → List (List ℕ) → List Chunk
  numbered r seq [] = []
  numbered r seq (x ∷ xs) =
      record {
        result_id = r.result_id;
        chunk_seq = seq;
        data_text = C.encode r.encoding x;
        encoding = r.encoding;
        more = true;
      }
      ∷ numbered r (suc seq) xs

  segments-concat :
      (fuel limit : ℕ) (p : List ℕ)
      → 0 < limit
      → length p ≤ fuel
      → concat_bytes (segments fuel limit p) ≡ p
  segments-concat fuel limit [] pos enough = refl
  segments-concat zero limit (c ∷ p) pos enough = absurd (omega arith)
  segments-concat (suc fuel) limit (c ∷ p) pos enough =
      rw
        (segments-concat fuel limit (drop limit (c ∷ p)) pos
          (omega (arith, length-drop limit (c ∷ p))))
        (take-append-drop limit (c ∷ p))

  segments-small :
      (fuel limit : ℕ) (p : List ℕ) → All (λ x. length x ≤ limit) (segments fuel limit p)
  segments-small fuel limit [] = tt
  segments-small zero limit (c ∷ p) = tt
  segments-small (suc fuel) limit (c ∷ p) =
      (omega (arith, length-take limit (c ∷ p)), segments-small fuel limit (drop limit (c ∷ p)))

  write_loop-segments :
      (fuel limit : ℕ) (r : Stream) (p : List ℕ)
      → 0 < limit
      → length p ≤ fuel
      → ((write_loop fuel limit r p).chunks ≡ r.chunks ++ numbered r r.seq (segments fuel limit p))
        × ((write_loop fuel limit r p).size ≡ r.size + length p)
        × ((write_loop fuel limit r p).seq ≡ r.seq + length (segments fuel limit p))
  unfolding write_loop write_segment
  write_loop-segments fuel limit r [] pos enough =
      (sym (append-nil r.chunks), omega arith, omega arith)
  write_loop-segments zero limit r (c ∷ p) pos enough = absurd (omega arith)
  write_loop-segments (suc fuel) limit r (c ∷ p) pos enough =
      let next : Stream = write_segment r (take limit (c ∷ p)) in
      let (chunks, size, seq) =
        write_loop-segments fuel limit next (drop limit (c ∷ p)) pos
          (omega (arith, length-drop limit (c ∷ p))) in
      (
        chunks
            ∙ append_assoc r.chunks (chunk_of r (take limit (c ∷ p)) true ∷ [])
                (numbered r (suc r.seq) (segments fuel limit (drop limit (c ∷ p)))),
        omega (arith, size, length-drop limit (c ∷ p), length-take limit (c ∷ p)),
        omega (arith, seq),
      )

  write-loop :
      (r : Stream) (p : List ℕ)
      → r.closed ≡ false
      → 0 < r.chunk_size
      → (r.max ≡ 0) ⊎ (r.size + length p ≤ r.max)
      → write r p ≡ (write_loop (length p) r.chunk_size r p, none)
  unfolding write
  write-loop r p open_it pos fits = ground arith

  -- A write that the stream takes cuts its bytes into segments that make up the bytes in order, each of
  -- at most as many bytes as the chunk size, and appends one chunk for each, with the next number and
  -- the text of the segment in the stream's encoding. In base64 that text may be longer than the chunk
  -- size. The stream's size grows by the bytes. The stream is open with a chunk size above 0, and the
  -- bytes fit under its cap, if it has one.
  pub write-segments :
      (r : Stream) (p : List ℕ)
      → r.closed ≡ false
      → 0 < r.chunk_size
      → (r.max ≡ 0) ⊎ (r.size + length p ≤ r.max)
      → (parts : List (List ℕ)) × ((concat_bytes parts ≡ p)
          × (All (λ x. length x ≤ r.chunk_size) parts)
          × ((write r p).1 ≡ none)
          × ((write r p).0.chunks ≡ r.chunks ++ numbered r r.seq parts)
          × ((write r p).0.size ≡ r.size + length p)
          × ((write r p).0.seq ≡ r.seq + length parts))
  write-segments r p open_it pos fits =
      let (chunks, size, seq) = write_loop-segments (length p) r.chunk_size r p pos (omega arith) in
      (
        segments (length p) r.chunk_size p,
        (
          segments-concat (length p) r.chunk_size p pos (omega arith),
          segments-small (length p) r.chunk_size p,
          rw (write-loop r p open_it pos fits) refl,
          rw (write-loop r p open_it pos fits) chunks,
          rw (write-loop r p open_it pos fits) size,
          rw (write-loop r p open_it pos fits) seq,
        ),
      )
