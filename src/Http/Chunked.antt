-- ===== src/Http/Chunked.antt =====
-- `parser::parse_decode_chunked`: a body in chunks is decoded in place, one buffer after the other.
-- What stands in the buffer before `dest` is `out`, what stands from `src` on is `rest`; the bytes
-- between them have been read and are never read again.
pub mod Machine
pub mod Agrees
pub mod Loop
pub mod Download
pub mod Text
pub mod RoundTrip
use vitex.Common.{
  ℕ, zero, suc, ◌+◌, ◌-◌, ◌*◌, ◌%◌, ◌^◌, List, [], ◌∷◌, ◌++◌, Bool, true, false, ltb, leb, ◌==◌,
  ◌&&◌, if◌then◌else◌, Option, none, some,
}
use vitex.Common.Lists.{length, take, drop}

pub data Status : Type 0 where
  size ext body end head middle : Status

pub record Chunked : Type 0 where
  pub length : ℕ  -- size_t
  pub state : Status
  pub consume_trailer : Bool
  pub hex_count : ℕ

abbrev pub prepare_for_chunked_parsing : Chunked
prepare_for_chunked_parsing = record {
  length = 0;
  state = size;
  consume_trailer = true;
  hex_count = 0;
}

-- -2, -1, or how many bytes stand behind the body.
pub data Result : Type 0 where
  incomplete malformed : Result
  complete : ℕ → Result

-- How one turn of the loop ends: with the result, the state, `out` and `rest`, or by another turn.
pub data Turn : Type 0 where
  leave : Result → Chunked → List ℕ → List ℕ → Turn
  again : Chunked → List ℕ → List ℕ → Turn

-- A hexadecimal digit.
unfoldable pub hex_digit : ℕ → Option ℕ
hex_digit b =
    if leb 48 b && leb b 57
    then some (b - 48)
    else if leb 65 b && leb b 70
    then some (b - 65 + 10)
    else if leb 97 b && leb b 102
    then some (b - 97 + 10)
    else none

-- The bytes behind the next line feed.
unfoldable pub skip_line : List ℕ → Option (List ℕ)
skip_line [] = none
skip_line (b ∷ bs) = elim (b == 10) [ true ↦ some bs | false ↦ skip_line bs ]

unfoldable pub skip_returns : List ℕ → List ℕ
skip_returns [] = []
skip_returns (b ∷ bs) = elim (b == 13) [ true ↦ skip_returns bs | false ↦ b ∷ bs ]

unfoldable pub after_end : Chunked → List ℕ → List ℕ → Turn
after_end c out [] = leave incomplete c out []
after_end c out (b ∷ bs) =
    if b == 10 then again (record c { state = size }) out bs else leave malformed c out (b ∷ bs)

unfoldable pub in_end : Chunked → List ℕ → List ℕ → Turn
unfolding after_end skip_returns
in_end c out rest = after_end c out (skip_returns rest)

unfoldable pub in_data : Chunked → List ℕ → List ℕ → Turn
unfolding in_end
in_data c out rest =
    if ltb (length rest) c.length
    then leave incomplete (record c { length = c.length - length rest }) (out ++ rest) []
    else in_end (record c { length = 0; state = end }) (out ++ take c.length rest)
        (drop c.length rest)

unfoldable pub after_line : Chunked → List ℕ → Option (List ℕ) → Turn
unfolding in_data
after_line c out none = leave incomplete c out []
after_line c out (some rest) =
    if c.length == 0
    then (if c.consume_trailer
        then again (record c { state = head }) out rest
        else leave (complete (length rest)) c out rest)
    else in_data (record c { state = body }) out rest

unfoldable pub in_ext : Chunked → List ℕ → List ℕ → Turn
unfolding after_line skip_line
in_ext c out rest = after_line c out (skip_line rest)

unfoldable pub in_size : Chunked → List ℕ → List ℕ → Turn
unfolding in_ext hex_digit
in_size c out [] = leave incomplete c out []
in_size c out (b ∷ bs) = elim (hex_digit b) [
  | none ↦
      if c.hex_count == 0
      then leave malformed c out (b ∷ bs)
      else in_ext (record c { hex_count = 0; state = ext }) out (b ∷ bs)
  | some v ↦ elim (c.hex_count == 16) [
    | true ↦ leave malformed c out (b ∷ bs)
    | false ↦
        in_size (record c { length = (c.length * 16 + v) % 2 ^ 64; hex_count = c.hex_count + 1 })
          out bs
  ]
]

unfoldable pub after_middle : Chunked → List ℕ → Option (List ℕ) → Turn
after_middle c out none = leave incomplete c out []
after_middle c out (some rest) = again (record c { state = head }) out rest

unfoldable pub in_middle : Chunked → List ℕ → List ℕ → Turn
unfolding after_middle skip_line
in_middle c out rest = after_middle c out (skip_line rest)

unfoldable pub after_head : Chunked → List ℕ → List ℕ → Turn
unfolding in_middle
after_head c out [] = leave incomplete c out []
after_head c out (b ∷ bs) =
    if b == 10
    then leave (complete (length bs)) c out bs
    else in_middle (record c { state = middle }) out bs

unfoldable pub in_head : Chunked → List ℕ → List ℕ → Turn
unfolding after_head skip_returns
in_head c out rest = after_head c out (skip_returns rest)

-- The `switch`.
unfoldable pub turn : Status → Chunked → List ℕ → List ℕ → Turn
unfolding in_size in_ext in_data in_end in_head in_middle
turn size c out rest = in_size c out rest
turn ext c out rest = in_ext c out rest
turn body c out rest = in_data c out rest
turn end c out rest = in_end c out rest
turn head c out rest = in_head c out rest
turn middle c out rest = in_middle c out rest

-- What the caller finds: the result, the state that is kept, the decoded bytes at the buffer's
-- start and the bytes behind them.
pub record Answer : Type 0 where
  pub result : Result
  pub chunked : Chunked
  pub decoded : List ℕ
  pub leftover : List ℕ

abbrev pub answer : Result → Chunked → List ℕ → List ℕ → Answer
answer r c out rest = record { result = r; chunked = c; decoded = out; leftover = rest }

unfoldable pub follow : (Chunked → List ℕ → List ℕ → Option Answer) → Turn → Option Answer
follow repeat (leave r c out rest) = some (answer r c out rest)
follow repeat (again c out rest) = repeat c out rest

unfoldable pub loop : ℕ → Chunked → List ℕ → List ℕ → Option Answer
unfolding turn follow
loop zero c out rest = none
loop (suc n) c out rest = follow (loop n) (turn c.state c out rest)

unfoldable pub parse_decode_chunked : Chunked → List ℕ → Option Answer
unfolding loop
parse_decode_chunked c buffer = loop (suc (length buffer)) c [] buffer
