-- ===== src/Http/Examples.antt =====
-- Runs of the theorems on bodies at concrete buffers.
use vitex.Common.{ℕ, ◌≡◌, ◌≢◌, refl, arith, List, [], ◌∷◌, true, false, some}
use vitex.Http.Chunked.{
  head, body, complete, malformed, hex_digit, answer, parse_decode_chunked,
  prepare_for_chunked_parsing,
}
use vitex.Http.Chunked.Machine.{machine, read_byte, read_size}
use vitex.Http.Chunked.Agrees.{at_state}
use vitex.Http.Chunked.Loop.{parse_decode_chunked-machine}
use vitex.Http.Chunked.Text.{Body, IsBody, IsChunk, Chunk, text}
use vitex.Http.Chunked.RoundTrip.{parse_decode_chunked-text}
use vitex.Http.Chunked.Download.{Download, started, download, Got, joined, download-joined}

-- "3\r\nabc\r\n" and the end "0\r\nx:y\r\n\r\n".
abbrev some_chunk : Chunk
some_chunk = record { digits = 51 ∷ []; line = 13 ∷ []; bytes = 97 ∷ 98 ∷ 99 ∷ [] }

abbrev last_chunk : Chunk
last_chunk = record { digits = 48 ∷ []; line = 13 ∷ []; bytes = [] }

abbrev some_body : Body
some_body = record {
  chunks = some_chunk ∷ [];
  last = last_chunk;
  trailers = (120 ∷ 58 ∷ 121 ∷ 13 ∷ []) ∷ [];
}

some_chunk-IsChunk : IsChunk some_chunk
unfolding hex_digit
some_chunk-IsChunk = record {
  counted = refl;
  few = omega arith;
  some_digit = omega arith;
  fits = omega arith;
  is_line = (refl, tt);
  no_digit = refl;
}

last_chunk-IsChunk : IsChunk last_chunk
unfolding hex_digit
last_chunk-IsChunk = record {
  counted = refl;
  few = omega arith;
  some_digit = omega arith;
  fits = omega arith;
  is_line = (refl, tt);
  no_digit = refl;
}

some_body-IsBody : IsBody some_body
some_body-IsBody = record {
  chunks = (some_chunk-IsChunk, omega arith, tt);
  last = last_chunk-IsChunk;
  ending = refl;
  trailers = ((refl, refl, (refl, (refl, (refl, tt)))), tt);
}

parse_decode_chunked-text_example :
    parse_decode_chunked prepare_for_chunked_parsing (text some_body (71 ∷ []))
    ≡ some (answer (complete 1) (at_state head 0 true 0) (97 ∷ 98 ∷ 99 ∷ []) (71 ∷ []))
parse_decode_chunked-text_example = parse_decode_chunked-text some_body (71 ∷ []) some_body-IsBody

parse_decode_chunked-machine_example :
    parse_decode_chunked (at_state body 2 true 0) (97 ∷ 98 ∷ 13 ∷ 10 ∷ 53 ∷ [])
    ≡ some (machine (97 ∷ 98 ∷ 13 ∷ 10 ∷ 53 ∷ []) (at_state body 2 true 0))
parse_decode_chunked-machine_example =
    parse_decode_chunked-machine (at_state body 2 true 0) (97 ∷ 98 ∷ 13 ∷ 10 ∷ 53 ∷ [])
      (λ q. omega arith)

-- The size, the bytes and the end of "2\r\nab\r\n0\r\n\r\n" in three buffers.
abbrev some_buffers : List (List ℕ)
some_buffers = (50 ∷ []) ∷ (13 ∷ 10 ∷ 97 ∷ []) ∷ (98 ∷ 13 ∷ 10 ∷ 48 ∷ 13 ∷ 10 ∷ 13 ∷ 10 ∷ []) ∷ []

some_buffers_end : (machine (joined some_buffers) prepare_for_chunked_parsing).result ≢ malformed
unfolding machine read_byte read_size hex_digit
some_buffers_end e = ground arith

download-joined_example :
    (e : Download) × (download false some_buffers started ≡ some e)
    × Got started e (machine (joined some_buffers) prepare_for_chunked_parsing)
download-joined_example =
    download-joined some_buffers started (λ q. absurd (ground arith)) refl some_buffers_end
