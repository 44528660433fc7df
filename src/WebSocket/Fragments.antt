-- ===== src/WebSocket/Fragments.antt =====
-- A message that is sent in several frames.
use vitex.Common.{
  ℕ, ◌+◌, ◌-◌, ◌*◌, ◌%◌, ◌≡◌, ◌≢◌, ◌≤◌, ◌<◌, arith, refl, ap, ap₂, sym, ◌∙◌, min, List, [], ◌∷◌,
  ◌++◌, if◌then◌else◌, Bool, true, false, ◌==◌, ◌>>=◌, Option, some, inr,
}
use vitex.Common.Lists.{length, take, drop, take_all, drop-append_length}
use vitex.WebSocket.Codec.{
  Bytecode, Op, next, text, Codec, more, fetch, begin, length1, end, after_length, of_data,
  of_control, read_begin, round, read_payload, deliver, unmask, put_message, has_message,
  fetch_payload, follow, loop, parse_frame,
}
use vitex.WebSocket.Codec.Steps.{loop-more, loop_more_fuel}
use vitex.WebSocket.Frame.Payload.{put_message-append}
use vitex.WebSocket.Frame.Header.{short_round}
use mathlib.Core.List.{append-nil, append_assoc}

-- The bytes of all messages that wait in the queue.
abbrev pub queued_bytes : List (Op × List ℕ) → List ℕ
queued_bytes [] = []
queued_bytes ((o, bytes) ∷ ms) = bytes ++ queued_bytes ms

-- Where a frame that is not the last of its message has been read to its end.
record IsStuck (c : Codec) : Type 0 where
  at_end : c.state ≡ end
  nothing_remains : c.remains ≡ 0
  no_control : c.control ≡ false
  not_final : c.final ≡ false
  next_opcode : c.opcode ≡ next

put_nothing : (q : List (Op × List ℕ)) → queued_bytes (put_message next [] q) ≡ queued_bytes q
unfolding put_message
put_nothing [] = refl
put_nothing ((o, top) ∷ q) = ap (λ (t : List ℕ). t ++ queued_bytes q) (append-nil top)

-- The codec after a buffer that a stuck one is given.
abbrev ignoring : Codec → Codec
ignoring c = record c {
  queue = put_message next [] c.queue;
  masks = if c.masked then (c.masks + 0) % 256 else c.masks;
  opcode = next;
  remains = 0;
}

nothing_plain : (c : Codec) → (if c.masked then unmask c.mask c.masks [] else []) ≡ []
unfolding unmask
nothing_plain c = ground arith

stuck_round :
    (c : Codec) (b : ℕ) (bs : List ℕ)
    → IsStuck c
    → round c.state c b bs ≡ fetch (ignoring c) (b ∷ bs)
unfolding round read_payload
stuck_round c b bs s =
    ap (λ (st : Bytecode). round st c b bs) s.at_end
    ∙ ap (λ (n : ℕ). deliver c n (take n (b ∷ bs)) (drop n (b ∷ bs))) none_taken
    ∙ unfold deliver in rw (nothing_plain c, s.next_opcode, s.nothing_remains) refl
  where
    none_taken : min (length (b ∷ bs)) c.remains ≡ 0
    none_taken = omega (arith, s.nothing_remains)

stuck_loop :
    (c : Codec) (b : ℕ) (bs : List ℕ)
    → IsStuck c
    → loop 1 c (b ∷ bs) ≡ some (ignoring c, has_message (put_message next [] c.queue))
unfolding loop follow fetch_payload
stuck_loop c b bs s =
    ap (follow (loop 0)) (stuck_round c b bs s) ∙ rw (s.no_control, s.not_final) refl

-- A frame that is not the last of its message, of up to 125 bytes, without a mask.
abbrev pub fragment_frame : List ℕ → List ℕ
fragment_frame p = 1 ∷ length p ∷ p

abbrev fragment_started : Codec → Codec
fragment_started c = record c {
  final = false;
  control = false;
  fragment = true;
  opcode = text;
  state = length1;
}

fragment_begin :
    (c : Codec) (bs : List ℕ)
    → c.state ≡ begin
    → round c.state c 1 bs ≡ more (fragment_started c) bs
unfolding round read_begin of_control of_data
fragment_begin c bs e = ap (λ (st : Bytecode). round st c 1 bs) e

module _ (c : Codec) (b : ℕ) (bs : List ℕ) where
  -- A payload that stands in the buffer in part or as a whole, with nothing behind it.
  pub part_round :
      length (b ∷ bs) ≤ c.remains
      → read_payload c (b ∷ bs) ≡ deliver c (length (b ∷ bs)) (b ∷ bs) []
  unfolding read_payload
  part_round h =
      ap (λ (k : ℕ). deliver c k (take k (b ∷ bs)) (drop k (b ∷ bs))) size
      ∙ ap₂ (deliver c (length (b ∷ bs))) (take_all (length (b ∷ bs)) (b ∷ bs) (omega arith)) (
          ap (drop (length (b ∷ bs))) (sym (append-nil (b ∷ bs)))
          ∙ drop-append_length (length (b ∷ bs)) (b ∷ bs) [] refl)
    where
      size : min (length (b ∷ bs)) c.remains ≡ length (b ∷ bs)
      size = omega arith

  -- What the queue and the state are then.
  abbrev pub put_part : Codec
  put_part = record c {
    queue = c.queue ++ (c.opcode, b ∷ bs) ∷ [];
    opcode = next;
    remains = c.remains - length (b ∷ bs);
  }

  pub deliver_part :
      c.opcode ≢ next
      → c.masked ≡ false
      → deliver c (length (b ∷ bs)) (b ∷ bs) []
        ≡ (if c.remains - length (b ∷ bs) == 0 then fetch put_part [] else more put_part [])
  unfolding deliver
  deliver_part o e = rw (e, put_message-append c.opcode (b ∷ bs) c.queue o) refl

-- Buffers that are read one after the other.
pub parse_all : Codec → List (List ℕ) → Option Codec
parse_all c [] = some c
parse_all c (d ∷ ds) = parse_frame c d >>= λ r. parse_all r.0 ds

-- The codec after the first frame of a message in several frames.
abbrev first_part : Codec → ℕ → List ℕ → Codec
first_part c b bs =
    put_part
      (record (fragment_started c) {
        masked = false;
        masks = 0;
        remains = length (b ∷ bs);
        state = end;
      })
      b bs

first_loop :
    (c : Codec) (b : ℕ) (bs : List ℕ)
    → c.state ≡ begin
    → length (b ∷ bs) < 126
    → loop 3 c (fragment_frame (b ∷ bs))
      ≡ some (first_part c b bs, has_message (first_part c b bs).queue)
unfolding after_length
first_loop c b bs e h = loop-more _ 2 c (fragment_started c) _ _ _ (fragment_begin c _ e) (
    loop-more _ 1 (fragment_started c) at_payload _ _ _
      (short_round (fragment_started c) false (length (b ∷ bs)) (b ∷ bs) h (inr (omega arith)))
      last_round)
  where
    at_payload : Codec
    at_payload = record (fragment_started c) {
      masked = false;
      masks = 0;
      remains = length (b ∷ bs);
      state = end;
    }

    used_up : length (b ∷ bs) - length (b ∷ bs) ≡ 0
    used_up = omega arith

    settled :
        (if length (b ∷ bs) - length (b ∷ bs) == 0
          then fetch (first_part c b bs) []
          else more (first_part c b bs) [])
        ≡ fetch (first_part c b bs) []
    settled = ground (arith, used_up)

    last_round :
        loop 1 at_payload (b ∷ bs) ≡ some (first_part c b bs, has_message (first_part c b bs).queue)
    last_round =
        unfold loop follow fetch_payload round in
        ap (follow (loop 0)) (
          part_round at_payload b bs (omega arith)
          ∙ deliver_part at_payload b bs (λ z. ground arith) refl
          ∙ settled)

stuck_all :
    (c : Codec) (ds : List (List ℕ))
    → IsStuck c
    → (c1 : Codec) × (parse_all c ds ≡ some c1) × (queued_bytes c1.queue ≡ queued_bytes c.queue)
unfolding parse_all parse_frame
stuck_all c [] s = (c, refl, refl)
stuck_all c ([] ∷ ds) s = stuck_all c ds s
stuck_all c ((b ∷ bs) ∷ ds) s =
    let (c1, run, same) = stuck_all (ignoring c) ds (record {
      at_end = s.at_end;
      nothing_remains = refl;
      no_control = s.no_control;
      not_final = s.not_final;
      next_opcode = refl;
    }) in
    (
      c1,
      ap (λ (o : Option (Codec × Bool)). o >>= λ r. parse_all r.0 ds)
            (loop_more_fuel _ 1 (2 * length (b ∷ bs) + 16) c (b ∷ bs) (omega arith)
              (stuck_loop c b bs s))
          ∙ run,
      same ∙ put_nothing c.queue,
    )

queued_bytes-append :
    (q : List (Op × List ℕ)) (o : Op) (p : List ℕ)
    → queued_bytes (q ++ (o, p) ∷ []) ≡ queued_bytes q ++ p
queued_bytes-append [] o p = append-nil p
queued_bytes-append ((o', top) ∷ q) o p =
    ap (λ (t : List ℕ). top ++ t) (queued_bytes-append q o p)
    ∙ sym (append_assoc top (queued_bytes q) p)

-- Where a codec at the start of a frame reads an unmasked first frame of a text in several
-- frames, of 1 to 125 bytes, no buffer that arrives later adds a byte to the queued messages: the
-- rest of that message and all later ones are lost.
pub fragments_lost :
    (c : Codec) (b : ℕ) (bs : List ℕ) (later : List (List ℕ))
    → c.state ≡ begin
    → length (b ∷ bs) < 126
    → (c1 : Codec) × (parse_all c (fragment_frame (b ∷ bs) ∷ later) ≡ some c1)
      × (queued_bytes c1.queue ≡ queued_bytes c.queue ++ (b ∷ bs))
unfolding parse_all parse_frame
fragments_lost c b bs later e h =
    let (c1, run, same) = stuck_all (first_part c b bs) later (record {
      at_end = refl;
      nothing_remains = omega arith;
      no_control = refl;
      not_final = refl;
      next_opcode = refl;
    }) in
    (
      c1,
      ap (λ (o : Option (Codec × Bool)). o >>= λ r. parse_all r.0 later)
            (loop_more_fuel _ 3 (2 * length (fragment_frame (b ∷ bs)) + 16) c
              (fragment_frame (b ∷ bs)) (omega arith) (first_loop c b bs e h))
          ∙ run,
      same ∙ queued_bytes-append c.queue text (b ∷ bs),
    )
