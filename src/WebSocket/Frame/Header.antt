-- ===== src/WebSocket/Frame/Header.antt =====
-- The header of a frame: the rounds that read it, and its parts.
use vitex.Common.{
  ◌⊎◌, ℕ, ◌+◌, ◌/◌, ◌%◌, ◌^◌, ◌≡◌, ◌<◌, arith, refl, ap, List, [], ◌∷◌, ◌++◌, Bool, true, false,
  not, ltb, leb, ◌==◌, bit_or, if◌then◌else◌,
}
use vitex.Common.Bytes.{be_bytes}
use vitex.Common.Bits.{or-disjoint}
use vitex.WebSocket.Codec.{
  Op, next, text, binary, close, ping, pong, Codec, more, fetch, round, read_begin, read_length,
  of_control, of_data, begin, length1, length160, length640, mask0, after_length, finish_empty,
}
use mathlib.Core.List.{append_assoc}
use vitex.WebSocket.Frame.{op_code, length_bytes, mask_bytes, set_mask_bit, header}

abbrev pub is_control : Op → Bool
is_control close = true
is_control ping = true
is_control pong = true
is_control _ = false

-- A message that one frame can carry: a control frame holds 125 bytes at most.
abbrev pub IsSendable : Op → ℕ → Type 0
IsSendable next n = ⊥
IsSendable text n = n < 2 ^ 64
IsSendable binary n = n < 2 ^ 64
IsSendable close n = n < 126
IsSendable ping n = n < 126
IsSendable pong n = n < 126

pub long_data :
    (op : Op) (n : ℕ) → IsSendable op n → 125 < n → (is_control op ≡ false) × (n < 2 ^ 64)
long_data next n h l = absurd h
long_data text n h l = (refl, h)
long_data binary n h l = (refl, h)
long_data close n h l = absurd (omega arith)
long_data ping n h l = absurd (omega arith)
long_data pong n h l = absurd (omega arith)

abbrev pub continues : Op → Bool → Bool
continues text fragment = false
continues binary fragment = false
continues _ fragment = fragment

abbrev pub started : Codec → Op → Codec
started c op = record c {
  final = true;
  control = is_control op;
  fragment = continues op c.fragment;
  opcode = op;
  state = length1;
}

pub begin_round :
    (c : Codec) (op : Op) (n : ℕ) (bs : List ℕ)
    → IsSendable op n
    → round begin c (128 + op_code op % 16) bs ≡ more (started c op) bs
unfolding round read_begin op_code of_control of_data
begin_round c next n bs h = absurd h
begin_round c text n bs h = refl
begin_round c binary n bs h = refl
begin_round c close n bs h = refl
begin_round c ping n bs h = refl
begin_round c pong n bs h = refl

-- The second byte of a frame, with the mask bit or without.
abbrev pub marked : Bool → ℕ → ℕ
marked masked n = if masked then bit_or 128 n else n

marked_parts :
    (masked : Bool) (n : ℕ)
    → n < 128
    → (marked masked n % 128 ≡ n) × ((marked masked n / 128 % 2 == 1) ≡ masked)
marked_parts true n h = let e : bit_or 128 n ≡ 128 + n = or-disjoint 7 1 n h in rw e (ground arith)
marked_parts false n h = ground arith

module _ (c : Codec) (masked : Bool) (n : ℕ) (bs : List ℕ) where
  abbrev pub measured : Codec
  measured = record c { masked = masked; masks = 0; remains = n; state = after_length masked }

  pub short_round :
      n < 126
      → (after_length masked ≡ mask0) ⊎ (0 < n)
      → round length1 c (marked masked n) bs ≡ more measured bs
  unfolding round read_length after_length
  short_round h pos =
      let parts = marked_parts masked n (omega arith) in ground (arith, parts.0, parts.1)

  pub empty_round :
      n ≡ 0
      → masked ≡ false
      → round length1 c (marked masked n) bs
        ≡ fetch (record measured { queue = c.queue ++ (c.opcode, []) ∷ [] }) bs
  unfolding round read_length after_length finish_empty
  empty_round h pos =
      let parts = marked_parts masked n (omega arith) in ground (arith, parts.0, parts.1)

  pub long_round :
      (code : ℕ)
      → 125 < code
      → code < 128
      → c.control ≡ false
      → round length1 c (marked masked code) bs
        ≡ more
            (record c {
              masked = masked;
              masks = 0;
              state = if code == 126 then length160 else length640;
            })
            bs
  unfolding round read_length after_length
  long_round code h k e =
      let parts = marked_parts masked code (omega arith) in ground (arith, parts.0, parts.1)

-- The header, split where the codec changes its state.
abbrev pub length_code : ℕ → ℕ
length_code n = if ltb n 126 then n else if leb n 65535 then 126 else 127

abbrev pub length_tail : ℕ → List ℕ
length_tail n =
    if ltb n 126
    then []
    else if leb n 65535
    then be_bytes 2 (n % 2 ^ 16)
    else be_bytes 4 (n / 2 ^ 32 % 2 ^ 32) ++ be_bytes 4 (n % 2 ^ 32)

abbrev pub mask_tail : Bool → ℕ → List ℕ
mask_tail true mask = mask_bytes mask
mask_tail false mask = []

pub length_parts : (n : ℕ) → length_bytes n ≡ length_code n ∷ length_tail n
unfolding length_bytes
length_parts n = ground arith

pub header_parts :
    (masked : Bool) (mask n : ℕ) (op : Op) (d : List ℕ)
    → mask == 0 ≡ not masked
    → header mask n op ++ d
      ≡ (128 + op_code op % 16)
        ∷ marked masked (length_code n)
        ∷ (length_tail n ++ (mask_tail masked mask ++ d))
unfolding header set_mask_bit
header_parts false mask n op d e = rw (e, length_parts n) refl
header_parts true mask n op d e =
    rw (e, length_parts n)
      (ap (λ (t : List ℕ). (128 + op_code op % 16) ∷ bit_or 128 (length_code n) ∷ t)
        (append_assoc (length_tail n) (mask_bytes mask) d))
