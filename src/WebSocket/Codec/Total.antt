-- ===== src/WebSocket/Codec/Total.antt =====
-- The loop of `parse_frame` ends for every codec and every buffer.
use vitex.Common.{
  ℕ, zero, suc, ◌+◌, ◌*◌, ◌≡◌, ◌≤◌, ◌<◌, ◌⊎◌, inl, inr, arith, refl, min, List, [], ◌∷◌, Bool, not,
  ◌&&◌, Bool-cases, Option, some,
}
use vitex.Common.Lists.{length, drop, length-drop}
use vitex.WebSocket.Codec.{
  Bytecode, begin, length1, length160, length161, length640, length641, length642, length643,
  length644, length645, length646, length647, mask0, mask1, mask2, mask3, end, Codec, Outcome, more,
  fetch, quit, round, read_begin, read_length, read_last, read_payload, deliver, finish_empty,
  fetch_payload, follow, loop, parse_frame,
}

abbrev weight : Bytecode → ℕ
weight begin = 0
weight _ = 1

-- A round that goes on has used up a byte, or leaves the end of a message.
abbrev Shrinks : Bytecode → List ℕ → Outcome → Type 0
Shrinks st bs (quit c) = Unit
Shrinks st bs (more c rest) = length rest ≤ length bs
Shrinks st bs (fetch c rest) =
    (length rest ≤ length bs) ⊎ ((weight st ≡ 1) × (length rest ≤ suc (length bs)))

deliver-Shrinks :
    (c : Codec) (b : ℕ) (bs taken : List ℕ) (n : ℕ)
    → n ≡ min (suc (length bs)) c.remains
    → Shrinks end bs (deliver c n taken (drop n (b ∷ bs)))
unfolding deliver
deliver-Shrinks c b bs taken n e = ground (arith, length-drop n (b ∷ bs))

round-Shrinks : (st : Bytecode) (c : Codec) (b : ℕ) (bs : List ℕ) → Shrinks st bs (round st c b bs)
unfolding round read_begin read_length read_last read_payload finish_empty
round-Shrinks begin c b bs = ground arith
round-Shrinks length1 c b bs = ground arith
round-Shrinks length160 c b bs = omega arith
round-Shrinks length161 c b bs = ground arith
round-Shrinks length640 c b bs = omega arith
round-Shrinks length641 c b bs = omega arith
round-Shrinks length642 c b bs = omega arith
round-Shrinks length643 c b bs = omega arith
round-Shrinks length644 c b bs = omega arith
round-Shrinks length645 c b bs = omega arith
round-Shrinks length646 c b bs = omega arith
round-Shrinks length647 c b bs = ground arith
round-Shrinks mask0 c b bs = omega arith
round-Shrinks mask1 c b bs = omega arith
round-Shrinks mask2 c b bs = omega arith
round-Shrinks mask3 c b bs = ground arith
round-Shrinks end c b bs = deliver-Shrinks c b bs _ _ refl

abbrev Ends : Option (Codec × Bool) → Type 0
Ends o = (r : Codec × Bool) × (o ≡ some r)

module _ (fuel : ℕ)
    (go : (c : Codec) (d : List ℕ)
      → 2 * length d + weight c.state < fuel
      → Ends (loop fuel c d)) where
  fetch_payload-Ends :
      (st : Bytecode) (bs : List ℕ) (c : Codec) (rest : List ℕ)
      → Shrinks st bs (fetch c rest)
      → 2 * suc (length bs) + weight st < suc fuel
      → Ends (fetch_payload (loop fuel) c rest)
  unfolding fetch_payload
  fetch_payload-Ends st bs c [] s h = elim (Bool-cases (not c.control && not c.final)) [
    | inl e ↦ rw e (_, refl)
    | inr e ↦ rw e (_, refl)
  ]
  fetch_payload-Ends st bs c (d ∷ ds) s h = elim (Bool-cases (not c.control && not c.final)) [
    | inl e ↦ rw e (_, refl)
    | inr e ↦ rw e (go (record c { state = begin }) (d ∷ ds) (omega (arith, s)))
  ]

  follow-Ends :
      (st : Bytecode) (bs : List ℕ) (o : Outcome)
      → Shrinks st bs o
      → 2 * suc (length bs) + weight st < suc fuel
      → Ends (follow (loop fuel) o)
  unfolding follow
  follow-Ends st bs (quit c) s h = (_, refl)
  follow-Ends st bs (more c rest) s h = go c rest (omega (arith, weight-le c.state))
    where
      weight-le : (b : Bytecode) → weight b ≤ 1
      weight-le b = ground arith
  follow-Ends st bs (fetch c rest) s h = fetch_payload-Ends st bs c rest s h

loop-Ends :
    (fuel : ℕ) (c : Codec) (d : List ℕ)
    → 2 * length d + weight c.state < fuel
    → Ends (loop fuel c d)
unfolding loop
loop-Ends fuel c [] h = (_, refl)
loop-Ends zero c (b ∷ bs) h = absurd (omega arith)
loop-Ends (suc fuel) c (b ∷ bs) h =
    follow-Ends fuel (loop-Ends fuel) c.state bs (round c.state c b bs)
      (round-Shrinks c.state c b bs) h

-- The loop of parse_frame ends for every codec and every buffer: the fuel, two rounds for a byte
-- and 16 more, does not run out.
pub parse_frame_total :
    (c : Codec) (buffer : List ℕ) → (r : Codec × Bool) × (parse_frame c buffer ≡ some r)
unfolding parse_frame
parse_frame_total c buffer = loop-Ends (2 * length buffer + 16) c buffer (ground arith)
