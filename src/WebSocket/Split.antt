-- ===== src/WebSocket/Split.antt =====
-- A frame that is read in two parts.
use vitex.Common.{
  ℕ, ◌+◌, ◌-◌, ◌*◌, ◌%◌, ◌≡◌, ◌≤◌, ◌<◌, arith, refl, ap, ◌∙◌, List, [], ◌∷◌, if◌then◌else◌, true,
  false, ◌==◌, some, inr,
}
use vitex.Common.Lists.{length}
use vitex.WebSocket.Codec.{
  Op, next, text, Codec, more, fetch, begin, end, after_length, round, deliver, put_message,
  fetch_payload, follow, loop, parse_frame, get_frame,
}
use vitex.WebSocket.Codec.Steps.{loop-more, loop_more_fuel}
use vitex.WebSocket.Frame.{op_code}
use vitex.WebSocket.Frame.Header.{IsSendable, started, begin_round, short_round}
use vitex.WebSocket.Messages.{not-next}
use vitex.WebSocket.Fragments.{part_round, deliver_part}

-- A codec with nothing queued, where the rest of a frame is to come.
module _ (c : Codec) (b : ℕ) (bs : List ℕ) (same : c.remains ≡ length (b ∷ bs))
    (plain_text : c.masked ≡ false) (last : c.final ≡ true) where
  abbrev rest_read : Codec
  rest_read = record c {
    queue = (text, b ∷ bs) ∷ [];
    opcode = next;
    remains = c.remains - length (b ∷ bs);
  }

  rest_round :
      deliver (record c { queue = []; opcode = next }) (length (b ∷ bs)) (b ∷ bs) []
      ≡ fetch rest_read []
  unfolding deliver put_message
  rest_round =
      let used_up : c.remains - length (b ∷ bs) ≡ 0 = omega arith in ground (arith, used_up)

abbrev pub ready : Codec → Codec
ready c = record c { queue = []; state = begin }

module _ (c : Codec) (op : Op) (a b : ℕ) (as' bs : List ℕ) where
  abbrev at_payload : Codec
  at_payload = record (started (record c { queue = []; state = begin }) op) {
    masked = false;
    masks = 0;
    remains = length (a ∷ as') + length (b ∷ bs);
    state = end;
  }

  abbrev pub half_read : Codec
  half_read = record at_payload {
    queue = (op, a ∷ as') ∷ [];
    opcode = next;
    remains = length (a ∷ as') + length (b ∷ bs) - length (a ∷ as');
  }

  half_settled :
      (if length (a ∷ as') + length (b ∷ bs) - length (a ∷ as') == 0
        then fetch half_read []
        else more half_read [])
      ≡ more half_read []
  half_settled =
      let some_left : length (a ∷ as') + length (b ∷ bs) - length (a ∷ as') ≡ length (b ∷ bs) =
        omega arith in
      ground (arith, some_left)

  first_half :
      IsSendable op (length (a ∷ as') + length (b ∷ bs))
      → length (a ∷ as') + length (b ∷ bs) < 126
      → loop 3 (ready c) ((128 + op_code op % 16) ∷ (length (a ∷ as') + length (b ∷ bs)) ∷ a ∷ as')
        ≡ some (half_read, true)
  unfolding after_length
  first_half h k =
      loop-more _ 2 (ready c) (started (ready c) op) _ _ _
        (begin_round (ready c) op (length (a ∷ as') + length (b ∷ bs)) _ h)
        (loop-more _ 1 (started (ready c) op) at_payload _ _ _
          (short_round (started (ready c) op) false (length (a ∷ as') + length (b ∷ bs)) (a ∷ as') k
            (inr (omega arith)))
          read)
    where
      read : loop 1 at_payload (a ∷ as') ≡ some (half_read, true)
      read =
          unfold loop follow round in
          ap (follow (loop 0)) (
            part_round at_payload a as' (omega arith)
            ∙ deliver_part at_payload a as' (not-next op _ h) refl
            ∙ half_settled)

  -- The message that `get_frame` takes away, and the codec that is left.
  abbrev pub taken : Codec
  taken = record half_read { queue = [] }

  left_over : length (a ∷ as') + length (b ∷ bs) - length (a ∷ as') ≡ length (b ∷ bs)
  left_over = omega arith

  abbrev pub all_read : Codec
  all_read = record taken {
    queue = (text, b ∷ bs) ∷ [];
    remains = taken.remains - length (b ∷ bs);
    state = begin;
  }

  second_half : loop 1 taken (b ∷ bs) ≡ some (all_read, true)
  second_half =
      unfold loop follow round fetch_payload in
      ap (follow (loop 0))
        (part_round taken b bs (omega arith) ∙ rest_round taken b bs left_over refl refl)
      ∙ ground arith

  -- A message of any opcode but next, without a mask and of fewer than 126 bytes, whose frame
  -- arrives in two buffers is delivered as two messages where the first part is taken between the
  -- two: the first part with its opcode, the second part as a text.
  pub split_frame :
      IsSendable op (length (a ∷ as') + length (b ∷ bs))
      → length (a ∷ as') + length (b ∷ bs) < 126
      → (parse_frame
            (ready c)
            ((128 + op_code op % 16) ∷ (length (a ∷ as') + length (b ∷ bs)) ∷ a ∷ as')
          ≡ some (half_read, true))
        × (get_frame half_read ≡ some ((op, a ∷ as'), taken))
        × (parse_frame taken (b ∷ bs) ≡ some (all_read, true))
        × (get_frame all_read ≡ some ((text, b ∷ bs), record all_read { queue = [] }))
  unfolding parse_frame get_frame
  split_frame h k = (
    loop_more_fuel _ 3 _ (ready c)
        ((128 + op_code op % 16) ∷ (length (a ∷ as') + length (b ∷ bs)) ∷ a ∷ as') enough
        (first_half h k),
    refl,
    loop_more_fuel _ 1 _ taken (b ∷ bs) enough_again second_half,
    refl,
  )
    where
      enough :
          3
          ≤ 2 * length ((128 + op_code op % 16) ∷ (length (a ∷ as') + length (b ∷ bs)) ∷ a ∷ as')
            + 16
      enough = omega arith

      enough_again : 1 ≤ 2 * length (b ∷ bs) + 16
      enough_again = omega arith
