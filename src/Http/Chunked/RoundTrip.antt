-- ===== src/Http/Chunked/RoundTrip.antt =====
-- A body that is written in chunks is decoded to what was written.
use vitex.Common.{
  ℕ, suc, ◌+◌, ◌*◌, ◌%◌, ◌^◌, ◌≡◌, ◌≢◌, ◌<◌, ◌≤◌, ◌∙◌, arith, refl, ap, sym, List, [], ◌∷◌, ◌++◌,
  Bool, true, false, ◌==◌, none, some, inl, inr, Option-cases,
}
use vitex.Common.Lists.{length, take, drop, length-append, take-append_length, drop-append_length}
use vitex.Http.Chunked.{
  size, ext, end, head, middle, complete, hex_digit, answer, parse_decode_chunked,
  prepare_for_chunked_parsing,
}
use vitex.Http.Chunked.Machine.{machine, prepend, read_byte, read_size, prepend-append}
use vitex.Http.Chunked.Agrees.{at_state, data_long, not_zero}
use vitex.Http.Chunked.Loop.{parse_decode_chunked-machine}
use mathlib.Core.List.{append-nil}
use vitex.Http.Chunked.Text.{
  number, IsLine, first, Chunk, IsChunk, size_line, AllTrailers, trailer_text, Body, AllChunks,
  IsBody, chunks_text, text, content,
}

number-le : (n m : ℕ) (ds : List ℕ) → number n ds ≡ some m → n ≤ m
number-le n m [] e = ground arith
number-le n m (d ∷ ds) e = elim (Option-cases (hex_digit d)) [
  | inl q ↦ absurd (ground (arith, e, q))
  | inr (v, q) ↦ omega (arith, number-le (n * 16 + v) m ds (rw (q, number) at e))
]

digits_lem :
    (n m h : ℕ) (t : Bool) (ds rest : List ℕ)
    → number n ds ≡ some m
    → m < 2 ^ 64
    → h + length ds ≤ 16
    → machine (ds ++ rest) (at_state size n t h) ≡ machine rest (at_state size m t (h + length ds))
unfolding machine read_byte read_size
digits_lem n m h t [] rest e f k = ground (arith, e)
digits_lem n m h t (d ∷ ds) rest e f k = elim (Option-cases (hex_digit d)) [
  | inl q ↦ absurd (ground (arith, e, q))
  | inr (v, q) ↦
      let e' : number (n * 16 + v) ds ≡ some m = rw (q, number) at e in
      let small : (n * 16 + v) % 2 ^ 64 ≡ n * 16 + v = omega (arith, number-le _ m ds e') in
      let free : (h == 16) ≡ false = ground arith in
      let count : h + 1 + length ds ≡ h + suc (length ds) = omega arith in
      rw (q, free, read_size, small, sym count)
        (digits_lem (n * 16 + v) m (h + 1) t ds rest e' f (omega arith))
]

line_lem :
    (l h : ℕ) (t : Bool) (line rest : List ℕ)
    → IsLine line
    → machine (line ++ 10 ∷ rest) (at_state ext l t h) ≡ machine (10 ∷ rest) (at_state ext l t h)
unfolding machine read_byte
line_lem l h t [] rest i = refl
line_lem l h t (b ∷ line) rest (e, i) = rw e (line_lem l h t line rest i)

start_byte :
    (l h : ℕ) (t : Bool) (b : ℕ) (bs : List ℕ)
    → h ≢ 0
    → hex_digit b ≡ none
    → machine (b ∷ bs) (at_state size l t h) ≡ machine (b ∷ bs) (at_state ext l t 0)
unfolding machine read_byte read_size
start_byte l h t b bs n q =
    let used : (h == 0) ≡ false = ground arith in rw (q, used, read_size) refl

line_start :
    (l h : ℕ) (t : Bool) (line rest : List ℕ)
    → h ≢ 0
    → hex_digit (first line) ≡ none
    → machine (line ++ 10 ∷ rest) (at_state size l t h)
      ≡ machine (line ++ 10 ∷ rest) (at_state ext l t 0)
line_start l h t [] rest n q = start_byte l h t 10 rest n q
line_start l h t (b ∷ line) rest n q = start_byte l h t b (line ++ 10 ∷ rest) n q

-- The line of a chunk's size.
size_line_lem :
    (k : Chunk) (t : Bool) (rest : List ℕ)
    → IsChunk k
    → machine (size_line k rest) (at_state size 0 t 0)
      ≡ machine (10 ∷ rest) (at_state ext (length k.bytes) t 0)
size_line_lem k t rest c =
    digits_lem 0 (length k.bytes) 0 t k.digits (k.line ++ 10 ∷ rest) c.counted c.fits
      (omega (arith, c.few))
    ∙ line_start (length k.bytes) (0 + length k.digits) t k.line rest
        (λ z. c.some_digit (omega arith)) c.no_digit
    ∙ line_lem (length k.bytes) 0 t k.line rest c.is_line

put_bytes :
    (bs rest : List ℕ) (t : Bool)
    → length bs ≢ 0
    → machine (10 ∷ bs ++ rest) (at_state ext (length bs) t 0)
      ≡ prepend bs (machine rest (at_state end 0 t 0))
unfolding machine read_byte
put_bytes [] rest t n = absurd (n refl)
put_bytes (b ∷ bs) rest t n =
    rw (not_zero (length bs))
      (data_long t 0 (length bs) (b ∷ bs ++ rest) (omega (arith, length-append bs rest)) ∙ parts)
  where
    parts :
        prepend
          (take (suc (length bs)) (b ∷ bs ++ rest))
          (machine (drop (suc (length bs)) (b ∷ bs ++ rest)) (at_state end 0 t 0))
        ≡ prepend (b ∷ bs) (machine rest (at_state end 0 t 0))
    parts =
        rw
          (take-append_length (length bs) bs rest refl, drop-append_length (length bs) bs rest refl)
          refl

chunk_text : Chunk → List ℕ → List ℕ
chunk_text k rest = size_line k (k.bytes ++ 13 ∷ 10 ∷ rest)

chunk_lem :
    (k : Chunk) (t : Bool) (rest : List ℕ)
    → IsChunk k
    → length k.bytes ≢ 0
    → machine (chunk_text k rest) (at_state size 0 t 0)
      ≡ prepend k.bytes (machine rest (at_state size 0 t 0))
unfolding chunk_text machine read_byte
chunk_lem k t rest c n =
    size_line_lem k t (k.bytes ++ 13 ∷ 10 ∷ rest) c ∙ put_bytes k.bytes (13 ∷ 10 ∷ rest) t n

middle_lem :
    (l h : ℕ) (t : Bool) (line rest : List ℕ)
    → IsLine line
    → machine (line ++ 10 ∷ rest) (at_state middle l t h) ≡ machine rest (at_state head l t h)
unfolding machine read_byte
middle_lem l h t [] rest i = refl
middle_lem l h t (b ∷ line) rest (e, i) = rw e (middle_lem l h t line rest i)

trailers_lem :
    (xs : List (List ℕ)) (l h : ℕ) (t : Bool) (rest : List ℕ)
    → AllTrailers xs
    → machine (trailer_text xs rest) (at_state head l t h)
      ≡ answer (complete (length rest)) (at_state head l t h) [] rest
unfolding machine read_byte
trailers_lem [] l h t rest i = refl
trailers_lem ([] ∷ xs) l h t rest (i, is) = absurd i
trailers_lem ((b ∷ bs) ∷ xs) l h t rest ((p, q, i), is) =
    rw (p, q) (middle_lem l h t bs (trailer_text xs rest) i ∙ trailers_lem xs l h t rest is)

feed_line :
    (rest : List ℕ)
    → machine (10 ∷ rest) (at_state ext 0 true 0) ≡ machine rest (at_state head 0 true 0)
unfolding machine read_byte
feed_line rest = refl

chunks_lem :
    (ks : List Chunk) (t : Bool) (rest : List ℕ)
    → AllChunks ks
    → machine (chunks_text ks rest) (at_state size 0 t 0)
      ≡ prepend (content ks) (machine rest (at_state size 0 t 0))
unfolding chunk_text
chunks_lem [] t rest i = refl
chunks_lem (k ∷ ks) t rest (i, n, is) =
    chunk_lem k t (chunks_text ks rest) i n
    ∙ ap (prepend k.bytes) (chunks_lem ks t rest is)
    ∙ sym (prepend-append k.bytes (content ks) (machine rest (at_state size 0 t 0)))

pub machine-text :
    (b : Body) (rest : List ℕ)
    → IsBody b
    → machine (text b rest) prepare_for_chunked_parsing
      ≡ answer (complete (length rest)) (at_state head 0 true 0) (content b.chunks) rest
machine-text b rest i =
    chunks_lem b.chunks true (size_line b.last (trailer_text b.trailers rest)) i.chunks
    ∙ ap (prepend (content b.chunks)) (
        size_line_lem b.last true (trailer_text b.trailers rest) i.last
        ∙ last_line
        ∙ trailers_lem b.trailers 0 0 true rest i.trailers)
    ∙ ap (λ (o : List ℕ). answer (complete (length rest)) (at_state head 0 true 0) o rest)
        (append-nil (content b.chunks))
  where
    last_line :
        machine (10 ∷ trailer_text b.trailers rest) (at_state ext (length b.last.bytes) true 0)
        ≡ machine (trailer_text b.trailers rest) (at_state head 0 true 0)
    last_line = rw i.ending (feed_line (trailer_text b.trailers rest))

-- A body that is written in chunks, each with its size in one to sixteen hexadecimal digits, the
-- rest of its line, and its bytes, fewer than 2^64 and at least one, with a last chunk of size
-- zero and a trailer, decodes from the start of the parser to the bytes of its chunks in order;
-- the bytes behind the body are left over and counted in the result.
pub parse_decode_chunked-text :
    (b : Body) (rest : List ℕ)
    → IsBody b
    → parse_decode_chunked prepare_for_chunked_parsing (text b rest)
      ≡ some (answer (complete (length rest)) (at_state head 0 true 0) (content b.chunks) rest)
parse_decode_chunked-text b rest i =
    parse_decode_chunked-machine prepare_for_chunked_parsing (text b rest)
      (λ q. absurd (ground arith))
    ∙ ap some (machine-text b rest i)
