-- ===== src/Http/Chunked/Loop.antt =====
-- The loop of `parse_decode_chunked` does what the machine does.
use vitex.Common.{ℕ, zero, suc, ◌≡◌, ◌<◌, ◌≤◌, ◌∙◌, arith, refl, ap, List, [], some}
use vitex.Common.Lists.{length}
use vitex.Http.Chunked.{
  Status, size, ext, body, end, head, middle, Chunked, Answer, Turn, leave, again, in_data, turn,
  follow, loop, parse_decode_chunked,
}
use vitex.Http.Chunked.Machine.{IsOpen, machine, prepend}
use vitex.Http.Chunked.Agrees.{
  Agrees, at_state, in_data-Agrees, in_end-Agrees, in_ext-Agrees, in_head-Agrees, in_middle-Agrees,
  in_size-Agrees,
}

turn-Agrees :
    (s : Status) (c : Chunked) (out rest : List ℕ) (bound : ℕ)
    → c.state ≡ s
    → IsOpen c
    → length rest ≤ bound
    → Agrees bound
        (turn s (record c { state = s }) out rest)
        (prepend out (machine rest (record c { state = s })))
unfolding turn
turn-Agrees size c out rest bound e o k =
    in_size-Agrees c.consume_trailer c.hex_count c.length out rest bound k
turn-Agrees ext c out rest bound e o k =
    in_ext-Agrees c.consume_trailer c.hex_count c.length out rest bound k
turn-Agrees body c out rest bound e o k = go c.length refl
  where
    go :
        (l : ℕ)
        → c.length ≡ l
        → Agrees bound
            (in_data (at_state body c.length c.consume_trailer c.hex_count) out rest)
            (prepend out (machine rest (at_state body c.length c.consume_trailer c.hex_count)))
    go zero q = absurd (o e q)
    go (suc l) q = rw q (in_data-Agrees c.consume_trailer c.hex_count l out rest bound k)
turn-Agrees end c out rest bound e o k =
    in_end-Agrees c.consume_trailer c.hex_count c.length out rest bound k
turn-Agrees head c out rest bound e o k =
    in_head-Agrees c.consume_trailer c.hex_count c.length out rest bound k
turn-Agrees middle c out rest bound e o k =
    in_middle-Agrees c.consume_trailer c.hex_count c.length out rest bound k

follow-Agrees :
    (bound : ℕ) (t : Turn) (a : Answer)
    → Agrees bound t a
    → ((c : Chunked) (out rest : List ℕ)
        → IsOpen c
        → length rest < bound
        → loop bound c out rest ≡ some (prepend out (machine rest c)))
    → follow (loop bound) t ≡ some a
unfolding follow
follow-Agrees bound (leave r c out rest) a e ih = ap some e
follow-Agrees bound (again c out rest) a (e, o, k) ih = ih c out rest o k ∙ ap some e

loop-machine :
    (n : ℕ) (c : Chunked) (out rest : List ℕ)
    → IsOpen c
    → length rest < n
    → loop n c out rest ≡ some (prepend out (machine rest c))
unfolding loop
loop-machine zero c out rest o k = absurd (omega arith)
loop-machine (suc n) c out rest o k =
    follow-Agrees n _ _ (turn-Agrees c.state c out rest n refl o (omega arith)) (loop-machine n)

-- Decoding a buffer of a body in chunks always ends, and it gives the result, the state, the
-- decoded bytes and the bytes left over that a machine gives that reads one byte at a time, from
-- every state in which a chunk that is being read is not over.
pub parse_decode_chunked-machine :
    (c : Chunked) (buffer : List ℕ)
    → IsOpen c
    → parse_decode_chunked c buffer ≡ some (machine buffer c)
unfolding parse_decode_chunked
parse_decode_chunked-machine c buffer o =
    loop-machine (suc (length buffer)) c [] buffer o (omega arith)
