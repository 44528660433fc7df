-- ===== src/WebSocket/Frame/Payload.antt =====
-- The mask and the payload of a frame, read in one piece.
use vitex.Common.{
  ℕ, suc, ◌+◌, ◌-◌, ◌%◌, ◌≡◌, ◌≢◌, arith, refl, ap, ap₂, ◌∙◌, min, List, [], ◌∷◌, ◌++◌, Bool, true,
  some, if◌then◌else◌,
}
use vitex.Common.Lists.{length, take, drop, length-append, take-append_length, drop-append_length}
use vitex.WebSocket.Codec.{
  Op, next, text, binary, close, ping, pong, Codec, fetch, more, round, read_payload, deliver,
  begin, mask0, mask3, end, finish_empty, has_message, put_message, unmask, loop,
}
use vitex.WebSocket.Codec.Steps.{loop-more, loop-fetch, loop_more_fuel}
use vitex.WebSocket.Frame.{mask_of, mask_bytes}

-- The payload as it reaches the queue.
abbrev pub plain : Codec → List ℕ → List ℕ
plain c bytes = if c.masked then unmask c.mask c.masks bytes else bytes

-- After the last byte of a message that stands in one frame.
abbrev pub settle : Codec → List ℕ → Codec
settle c [] = record c { queue = c.queue ++ (c.opcode, []) ∷ []; state = begin }
settle c (b ∷ bs) = record c {
  queue = c.queue ++ (c.opcode, plain c (b ∷ bs)) ∷ [];
  masks = if c.masked then (c.masks + length (b ∷ bs)) % 256 else c.masks;
  opcode = next;
  remains = 0;
  state = begin;
}

pub has_last : (q : List (Op × List ℕ)) (m : Op × List ℕ) → has_message (q ++ m ∷ []) ≡ true
has_last [] m = refl
has_last (x ∷ q) m = refl

pub put_message-append :
    (o : Op) (bytes : List ℕ) (q : List (Op × List ℕ))
    → o ≢ next
    → put_message o bytes q ≡ q ++ (o, bytes) ∷ []
unfolding put_message
put_message-append next bytes q h = absurd (h refl)
put_message-append text bytes q h = refl
put_message-append binary bytes q h = refl
put_message-append close bytes q h = refl
put_message-append ping bytes q h = refl
put_message-append pong bytes q h = refl

module _ (c : Codec) (b : ℕ) (bs rest : List ℕ) where
  payload_round :
      c.remains ≡ length (b ∷ bs)
      → c.opcode ≢ next
      → read_payload c ((b ∷ bs) ++ rest)
        ≡ fetch (record (settle c (b ∷ bs)) { state = c.state }) rest
  unfolding read_payload
  payload_round e o =
      ap (λ (k : ℕ). deliver c k (take k ((b ∷ bs) ++ rest)) (drop k ((b ∷ bs) ++ rest))) size
      ∙ ap₂ (deliver c (length (b ∷ bs))) (take-append_length (length (b ∷ bs)) (b ∷ bs) rest refl)
          (drop-append_length (length (b ∷ bs)) (b ∷ bs) rest refl)
      ∙ delivered
    where
      size : min (length ((b ∷ bs) ++ rest)) c.remains ≡ length (b ∷ bs)
      size = omega (arith, length-append (b ∷ bs) rest)

      nothing_left : c.remains - length (b ∷ bs) ≡ 0
      nothing_left = omega arith

      delivered :
          deliver c (length (b ∷ bs)) (b ∷ bs) rest
          ≡ fetch (record (settle c (b ∷ bs)) { state = c.state }) rest
      delivered =
          unfold deliver in
          rw (nothing_left, put_message-append c.opcode (plain c (b ∷ bs)) c.queue o) refl

module _ (r : Codec × Bool) (f : ℕ) (c : Codec) (rest : List ℕ) where
  pub loop-payload :
      (b : ℕ) (bs : List ℕ)
      → c.remains ≡ length (b ∷ bs)
      → c.opcode ≢ next
      → c.final ≡ true
      → loop f (settle c (b ∷ bs)) rest ≡ some r
      → loop (suc f) (record c { state = end }) ((b ∷ bs) ++ rest) ≡ some r
  unfolding round
  loop-payload b bs e o last run =
      loop-fetch r f (record c { state = end }) _ b (bs ++ rest) rest
        (payload_round (record c { state = end }) b bs rest e o) (rw last (ground arith))
        (has_last c.queue _) run

module _ (r : Codec × Bool) (f : ℕ) (c : Codec) (m : ℕ) (rest : List ℕ) where
  mask3_more :
      (b : ℕ)
      → c.remains ≢ 0
      → round mask3 c b rest ≡ more (record c { mask = record c.mask { m3 = b }; state = end }) rest
  unfolding round finish_empty
  mask3_more b h = ground arith

  mask3_empty :
      (b : ℕ)
      → c.remains ≡ 0
      → round mask3 c b rest
        ≡ fetch
            (record c {
              queue = c.queue ++ (c.opcode, []) ∷ [];
              mask = record c.mask { m3 = b };
              state = end;
            })
            rest
  unfolding round finish_empty
  mask3_empty b h = rw h refl

-- The four bytes of the mask, and the payload behind them.
module _ (r : Codec × Bool) (f : ℕ) (c : Codec) (m : ℕ) (rest : List ℕ) (last : c.final ≡ true)
    (o : c.opcode ≢ next) where
  pub loop-masked :
      (p : List ℕ)
      → c.remains ≡ length p
      → loop f (settle (record c { mask = mask_of m }) p) rest ≡ some r
      → loop
          (suc (suc (suc (suc (suc f)))))
          (record c { state = mask0 })
          (mask_bytes m ++ (p ++ rest))
        ≡ some r
  unfolding round mask_bytes
  loop-masked [] e run =
      loop_more_fuel r (suc (suc (suc (suc f)))) _ (record c { state = mask0 })
        (mask_bytes m ++ rest) (omega arith)
        (loop-more r _ _ _ _ _ _ refl (
          loop-more r _ _ _ _ _ _ refl (
            loop-more r _ _ _ _ _ _ refl (
              loop-fetch r f _ _ _ rest rest
                (mask3_empty r f
                  (record c { mask = record (mask_of m) { m3 = c.mask.m3 }; state = mask3 }) m rest
                  _ e)
                (rw last (ground arith)) (has_last c.queue _) run))))
  loop-masked (b ∷ bs) e run = loop-more r _ _ _ _ _ _ refl (
      loop-more r _ _ _ _ _ _ refl (
        loop-more r _ _ _ _ _ _ refl (
          loop-more r _ _ _ _ _ _
            (mask3_more r f
              (record c { mask = record (mask_of m) { m3 = c.mask.m3 }; state = mask3 }) m
              ((b ∷ bs) ++ rest) _ (λ z. absurd (omega arith)))
            (loop-payload r f (record c { mask = mask_of m }) rest b bs e o last run))))
