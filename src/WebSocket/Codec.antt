-- ===== src/WebSocket/Codec.antt =====
-- `web_codec`: a state machine over the bytes of a frame, which keeps its place between two reads.
pub mod Steps
pub mod Total
use vitex.Common.{
  ℕ, zero, suc, ◌+◌, ◌-◌, ◌*◌, ◌/◌, ◌%◌, ◌^◌, ◌≡◌, List, [], ◌∷◌, ◌++◌, Bool, true, false, not,
  ◌&&◌, ◌||◌, ltb, ◌==◌, min, bit_or, bit_xor, Option, none, some, if◌then◌else◌,
}
use vitex.Common.Lists.{length, take, drop}

pub data Op : Type 0 where
  next text binary close ping pong : Op

-- The places in a frame: the bytes of its length and of its mask are read one at a time.
pub data Bytecode : Type 0 where
  begin length1 length160 length161 : Bytecode
  length640 length641 length642 length643 length644 length645 length646 length647 : Bytecode
  mask0 mask1 mask2 mask3 end : Bytecode

pub record Mask : Type 0 where
  pub m0 : ℕ
  pub m1 : ℕ
  pub m2 : ℕ
  pub m3 : ℕ

pub record Codec : Type 0 where
  pub queue : List (Op × List ℕ)
  pub remains : ℕ  -- uint64
  pub opcode : Op
  pub state : Bytecode
  pub mask : Mask
  pub fragment : Bool
  pub final : Bool
  pub control : Bool
  pub masked : Bool
  pub masks : ℕ  -- uint8

-- `web_codec::web_codec`: the fields that it does not set keep what the memory held.
abbrev pub web_codec : Codec → Codec
web_codec memory = record memory { queue = []; state = begin; fragment = false }

-- The end of one round of the loop: it goes on with the next byte, it jumps to `fetch_payload`, or
-- it returns and forgets the rest of the buffer.
pub data Outcome : Type 0 where
  more fetch : Codec → List ℕ → Outcome
  quit : Codec → Outcome

unfoldable pub of_control : ℕ → Option Op
of_control op =
    if op == 8
    then some close
    else if op == 9
    then some ping
    else if op == 10
    then some pong
    else none

unfoldable pub of_data : ℕ → Option Op
of_data op = if op == 1 then some text else if op == 2 then some binary else none

-- The first byte of a frame.
unfoldable pub read_begin : Codec → ℕ → List ℕ → Outcome
unfolding of_control of_data
read_begin c index rest =
    let op = index % 16 in
    let last = index / 128 % 2 == 1 in
    let started = record c { final = last } in
    if not (index / 16 % 8 == 0)
    then quit c
    else if op == 0
    then if not c.fragment
      then quit started
      else more (record started { control = false; state = length1 }) rest
    else if not (op / 8 % 2 == 0)
    then elim (of_control op) [
      | none ↦ quit started
      | some o ↦
          if not last
          then quit started
          else more (record started { control = true; opcode = o; state = length1 }) rest
    ]
    else elim (of_data op) [
      | none ↦ quit started
      | some o ↦
          more
            (record started { control = false; fragment = not last; opcode = o; state = length1 })
            rest
    ]

unfoldable pub after_length : Bool → Bytecode
after_length masked = if masked then mask0 else end

abbrev pub is_end : Bytecode → Bool
is_end end = true
is_end _ = false

-- An empty message is queued at once.
unfoldable pub finish_empty : Codec → List ℕ → Outcome
finish_empty c rest = fetch (record c { queue = c.queue ++ (c.opcode, []) ∷ [] }) rest

-- The second byte: the length of a short frame, or how many bytes the length takes.
unfoldable pub read_length : Codec → ℕ → List ℕ → Outcome
unfolding after_length finish_empty
read_length c index rest =
    let len = index % 128 in
    let masked = index / 128 % 2 == 1 in
    let c1 = record c { masked = masked; masks = 0 } in
    let short = record c1 { remains = len; state = after_length masked } in
    if c.control && ltb 125 len
    then quit c1
    else if c.control || ltb len 126
    then if is_end (after_length masked) && len == 0
      then finish_empty short rest
      else more short rest
    else if len == 126
    then more (record c1 { state = length160 }) rest
    else more (record c1 { state = length640 }) rest

-- The last byte of a longer length: a length that a shorter form could hold is refused.
unfoldable pub read_last : Codec → ℕ → ℕ → List ℕ → Outcome
unfolding after_length
read_last c index least rest =
    let c1 = record c { remains = bit_or c.remains index; state = after_length c.masked } in
    if ltb c1.remains least then quit c1 else more c1 rest

abbrev pub add_byte : Codec → ℕ → ℕ → Bytecode → Codec
add_byte c index place state' = record c {
  remains = bit_or c.remains (index * 2 ^ place);
  state = state';
}

abbrev pub mask_at : Mask → ℕ → ℕ
mask_at m zero = m.m0
mask_at m (suc zero) = m.m1
mask_at m (suc (suc zero)) = m.m2
mask_at m (suc (suc (suc i))) = m.m3

-- `data[i] ^= mask[masks++ % 4]`.
unfoldable pub unmask : Mask → ℕ → List ℕ → List ℕ
unmask m i [] = []
unmask m i (b ∷ bs) = bit_xor b (mask_at m (i % 4)) ∷ unmask m (i + 1) bs

abbrev pub message_op : Op → Op
message_op next = text
message_op o = o

-- Bytes after the first read of a payload go to the message at the front of the queue.
unfoldable pub put_message : Op → List ℕ → List (Op × List ℕ) → List (Op × List ℕ)
put_message next bytes ((o, top) ∷ queue) = (o, top ++ bytes) ∷ queue
put_message o bytes queue = queue ++ (message_op o, bytes) ∷ []

-- `n` bytes of the payload, and what stands behind them in the buffer.
unfoldable pub deliver : Codec → ℕ → List ℕ → List ℕ → Outcome
unfolding unmask put_message
deliver c n taken rest =
    let c1 = record c {
      queue =
          put_message c.opcode (if c.masked then unmask c.mask c.masks taken else taken) c.queue;
      masks = if c.masked then (c.masks + n) % 256 else c.masks;
      opcode = next;
      remains = c.remains - n;
    } in
    if c1.remains == 0 then fetch c1 rest else more c1 rest

-- The bytes of the payload that the buffer holds.
unfoldable pub read_payload : Codec → List ℕ → Outcome
unfolding deliver
read_payload c data' =
    let n = min (length data') c.remains in deliver c n (take n data') (drop n data')

-- The `switch` over the state.
unfoldable pub round : Bytecode → Codec → ℕ → List ℕ → Outcome
unfolding read_begin read_length read_last read_payload finish_empty
round begin c b bs = read_begin c b bs
round length1 c b bs = read_length c b bs
round length160 c b bs = more (record c { remains = b * 2 ^ 8; state = length161 }) bs
round length161 c b bs = read_last c b 126 bs
round length640 c b bs = more (record c { remains = b * 2 ^ 56; state = length641 }) bs
round length641 c b bs = more (add_byte c b 48 length642) bs
round length642 c b bs = more (add_byte c b 40 length643) bs
round length643 c b bs = more (add_byte c b 32 length644) bs
round length644 c b bs = more (add_byte c b 24 length645) bs
round length645 c b bs = more (add_byte c b 16 length646) bs
round length646 c b bs = more (add_byte c b 8 length647) bs
round length647 c b bs = read_last c b 65536 bs
round mask0 c b bs = more (record c { mask = record c.mask { m0 = b }; state = mask1 }) bs
round mask1 c b bs = more (record c { mask = record c.mask { m1 = b }; state = mask2 }) bs
round mask2 c b bs = more (record c { mask = record c.mask { m2 = b }; state = mask3 }) bs
round mask3 c b bs =
    let c1 = record c { mask = record c.mask { m3 = b }; state = end } in
    if c.remains == 0 then finish_empty c1 bs else more c1 bs
round end c b bs = read_payload c (b ∷ bs)

abbrev pub has_message : List (Op × List ℕ) → Bool
has_message [] = false
has_message (m ∷ ms) = true

-- `fetch_payload`: a message whose frames go on leaves the state as it is and ends the call.
unfoldable pub fetch_payload :
    (Codec → List ℕ → Option (Codec × Bool)) → Codec → List ℕ → Option (Codec × Bool)
fetch_payload go c rest =
    if not c.control && not c.final then some (c, has_message c.queue) else elim rest [
      | [] ↦ some (record c { state = begin }, true)
      | d ∷ ds ↦ go (record c { state = begin }) (d ∷ ds)
    ]

unfoldable pub follow : (Codec → List ℕ → Option (Codec × Bool)) → Outcome → Option (Codec × Bool)
unfolding fetch_payload
follow go (quit c) = some (c, has_message c.queue)
follow go (more c rest) = go c rest
follow go (fetch c rest) = fetch_payload go c rest

-- `while (size)`. `none`: the fuel ran out.
unfoldable pub loop : ℕ → Codec → List ℕ → Option (Codec × Bool)
unfolding round follow
loop fuel c [] = some (c, has_message c.queue)
loop zero c (b ∷ bs) = none
loop (suc fuel) c (b ∷ bs) = follow (loop fuel) (round c.state c b bs)

-- Two rounds for a byte are enough.
unfoldable pub parse_frame : Codec → List ℕ → Option (Codec × Bool)
unfolding loop
parse_frame c buffer = loop (2 * length buffer + 16) c buffer

unfoldable pub get_frame : Codec → Option ((Op × List ℕ) × Codec)
get_frame c = elim c.queue [ [] ↦ none | m ∷ ms ↦ some (m, record c { queue = ms }) ]
