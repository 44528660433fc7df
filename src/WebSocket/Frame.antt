-- ===== src/WebSocket/Frame.antt =====
-- `web_socket_frame::send`: the bytes that go out for a message, its header first.
pub mod Length
pub mod Payload
pub mod Header
pub mod RoundTrip
use vitex.Common.{
  ℕ, ◌+◌, ◌*◌, ◌/◌, ◌%◌, ◌^◌, ◌<◌, List, [], ◌∷◌, ◌++◌, ltb, leb, ◌==◌, bit_or, if◌then◌else◌,
}
use vitex.Common.Lists.{length}
use vitex.Common.Bytes.{be_bytes}
use vitex.WebSocket.Codec.{Op, next, text, binary, close, ping, pong, Mask}

unfoldable pub op_code : Op → ℕ
op_code next = 0
op_code text = 1
op_code binary = 2
op_code close = 8
op_code ping = 9
op_code pong = 10

-- The second byte and the bytes of the length, in the network's order.
unfoldable pub length_bytes : ℕ → List ℕ
length_bytes size =
    if ltb size 126
    then size ∷ []
    else if leb size 65535
    then 126 ∷ be_bytes 2 (size % 2 ^ 16)
    else 127 ∷ (be_bytes 4 (size / 2 ^ 32 % 2 ^ 32) ++ be_bytes 4 (size % 2 ^ 32))

-- `mask` in memory, on a host that stores the lowest byte first.
abbrev pub mask_of : ℕ → Mask
mask_of mask = record {
  m0 = mask % 256;
  m1 = mask / 2 ^ 8 % 256;
  m2 = mask / 2 ^ 16 % 256;
  m3 = mask / 2 ^ 24 % 256;
}

unfoldable pub mask_bytes : ℕ → List ℕ
mask_bytes mask = let m = mask_of mask in m.m0 ∷ m.m1 ∷ m.m2 ∷ m.m3 ∷ []

-- `header[1] |= 0x80`.
unfoldable pub set_mask_bit : List ℕ → List ℕ
set_mask_bit [] = []
set_mask_bit (b ∷ bs) = bit_or 128 b ∷ bs

unfoldable pub header : ℕ → ℕ → Op → List ℕ
unfolding op_code length_bytes set_mask_bit mask_bytes
header mask size opcode =
    if mask == 0
    then (128 + op_code opcode % 16) ∷ length_bytes size
    else (128 + op_code opcode % 16) ∷ (set_mask_bit (length_bytes size) ++ mask_bytes mask)

-- The payload goes out as it is given, masked or not.
unfoldable pub send : ℕ → List ℕ → Op → List ℕ
unfolding header
send mask buffer opcode = header mask (length buffer) opcode ++ buffer
