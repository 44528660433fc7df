-- ===== src/WebSocket/Examples.antt =====
-- Runs of the websocket theorems at concrete codecs and messages.
use vitex.Common.{◌≡◌, refl, arith, List, [], ◌∷◌, ◌++◌, map, true, false, some}
use vitex.WebSocket.Codec.{
  text, binary, ping, Codec, web_codec, begin, end, has_message, parse_frame, get_frame,
}
use vitex.WebSocket.Frame.{op_code}
use vitex.WebSocket.Messages.{Message, sent, received, parse_frame-sent}
use vitex.WebSocket.Fragments.{fragment_frame, parse_all, queued_bytes, fragments_lost}
use vitex.WebSocket.Split.{ready, half_read, taken, all_read, split_frame}

-- A new codec.
abbrev fresh : Codec
fresh = web_codec (record {
  queue = (text, []) ∷ [];
  remains = 7;
  opcode = ping;
  state = end;
  mask = record { m0 = 1; m1 = 2; m2 = 3; m3 = 4 };
  fragment = true;
  final = false;
  control = true;
  masked = true;
  masks = 9;
})

-- A ping without a mask and a text with one.
abbrev two_messages : List Message
two_messages =
    record { mask = 0; payload = 1 ∷ 2 ∷ []; op = ping }
    ∷ record { mask = 67305985; payload = 104 ∷ 105 ∷ []; op = text }
    ∷ []

parse_frame-sent_example :
    (c1 : Codec) × (parse_frame fresh (sent two_messages) ≡ some (c1, has_message c1.queue))
    × (c1.queue ≡ [] ++ map received two_messages)
    × (c1.state ≡ begin)
parse_frame-sent_example = parse_frame-sent fresh two_messages (omega arith, (omega arith, tt)) refl

fragments_lost_example :
    (c1 : Codec) × (parse_all fresh (fragment_frame (104 ∷ 105 ∷ []) ∷ (128 ∷ 1 ∷ 33 ∷ []) ∷ [])
      ≡ some c1)
    × (queued_bytes c1.queue ≡ [] ++ (104 ∷ 105 ∷ []))
fragments_lost_example =
    fragments_lost fresh 104 (105 ∷ []) ((128 ∷ 1 ∷ 33 ∷ []) ∷ []) refl (omega arith)

split_frame_example :
    (parse_frame (ready fresh) (130 ∷ 3 ∷ 1 ∷ [])
      ≡ some (half_read fresh binary 1 2 [] (3 ∷ []), true))
    × (get_frame (half_read fresh binary 1 2 [] (3 ∷ []))
        ≡ some ((binary, 1 ∷ []), taken fresh binary 1 2 [] (3 ∷ [])))
    × (parse_frame (taken fresh binary 1 2 [] (3 ∷ [])) (2 ∷ 3 ∷ [])
        ≡ some (all_read fresh binary 1 2 [] (3 ∷ []), true))
    × (get_frame (all_read fresh binary 1 2 [] (3 ∷ []))
        ≡ some ((text, 2 ∷ 3 ∷ []), record (all_read fresh binary 1 2 [] (3 ∷ [])) { queue = [] }))
unfolding op_code
split_frame_example = split_frame fresh binary 1 2 [] (3 ∷ []) (omega arith) (omega arith)
