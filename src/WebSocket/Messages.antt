-- ===== src/WebSocket/Messages.antt =====
-- Whole messages, one behind the other, through `send` and `parse_frame`.
use vitex.Common.{
  ◌%◌, ℕ, suc, ◌+◌, ◌*◌, ◌≡◌, ◌≢◌, arith, refl, ap, sym, ◌∙◌, List, [], ◌∷◌, ◌++◌, map, Bool, true,
  false, not, ◌==◌, some, if◌then◌else◌, max,
}
use vitex.Common.Lists.{length}
use vitex.WebSocket.Codec.{
  Bytecode, round, Op, next, text, binary, close, ping, pong, Codec, begin, unmask, has_message,
  loop, parse_frame,
}
use vitex.WebSocket.Codec.Steps.{loop-more, loop_more_fuel}
use vitex.WebSocket.Codec.Total.{parse_frame_total}
use vitex.WebSocket.Frame.{op_code, mask_of, header, send}
use vitex.WebSocket.Frame.RoundTrip.{after, loop-counted}
use vitex.WebSocket.Frame.Header.{
  marked, length_code, length_tail, mask_tail, IsSendable, begin_round, header_parts,
}
use mathlib.Core.List.{append-nil, append_assoc}

pub record Message : Type 0 where
  pub mask : ℕ
  pub payload : List ℕ
  pub op : Op

-- The messages in the order in which they are sent.
abbrev pub sent : List Message → List ℕ
sent [] = []
sent (m ∷ ms) = send m.mask m.payload m.op ++ sent ms

-- What the receiver makes of a message: with a mask it takes the mask off, which was not put on.
abbrev pub received : Message → Op × List ℕ
received m = (m.op, if m.mask == 0 then m.payload else unmask (mask_of m.mask) 0 m.payload)

abbrev pub AllSendable : List Message → Type 0
AllSendable [] = Unit
AllSendable (m ∷ ms) = IsSendable m.op (length m.payload) × AllSendable ms

pub not-next : (op : Op) (n : ℕ) → IsSendable op n → op ≢ next
not-next next n h = absurd h
not-next text n h = λ e. ground arith
not-next binary n h = λ e. ground arith
not-next close n h = λ e. ground arith
not-next ping n h = λ e. ground arith
not-next pong n h = λ e. ground arith

-- The queue after a frame.
queue-after :
    (c : Codec) (masked : Bool) (mask : ℕ) (p : List ℕ) (op : Op)
    → mask == 0 ≡ not masked
    → (after c masked mask p op).queue
      ≡ c.queue ++ (op, if mask == 0 then p else unmask (mask_of mask) 0 p) ∷ []
unfolding unmask
queue-after c false mask [] op e = rw e refl
queue-after c false mask (b ∷ bs) op e = rw e refl
queue-after c true mask [] op e = rw e refl
queue-after c true mask (b ∷ bs) op e = rw e refl

state-after :
    (c : Codec) (masked : Bool) (mask : ℕ) (p : List ℕ) (op : Op)
    → (after c masked mask p op).state ≡ begin
state-after c masked mask [] op = refl
state-after c masked mask (b ∷ bs) op = refl

module _ (r : Codec × Bool) (f : ℕ) (c : Codec) (mask : ℕ) (p : List ℕ) (op : Op)
    (rest : List ℕ) where
  loop-send :
      (masked : Bool)
      → mask == 0 ≡ not masked
      → IsSendable op (length p)
      → c.state ≡ begin
      → loop f (after c masked mask p op) rest ≡ some r
      → loop (suc (f + 14)) c (send mask p op ++ rest) ≡ some r
  unfolding send
  loop-send masked e h start run =
      ap (λ (d : List ℕ). loop (suc (f + 14)) c d)
        (append_assoc (header mask (length p) op) p rest
          ∙ header_parts masked mask (length p) op (p ++ rest) e)
      ∙ loop-more r _ c _ _ _ _
          (ap (λ (st : Bytecode). round st c (128 + op_code op % 16) tail) start
            ∙ begin_round c op (length p) tail h)
          (loop-counted r f c rest op mask (not-next op (length p) h) masked p (f + 14) h
            (omega arith) run)
    where
      tail : List ℕ
      tail =
          marked masked (length_code (length p))
          ∷ (length_tail (length p) ++ (mask_tail masked mask ++ (p ++ rest)))

-- The codec that has read messages: their queue, ready for the next frame.
record HasRead (c : Codec) (ms : List Message) (c1 : Codec) : Type 0 where
  queued : c1.queue ≡ c.queue ++ map received ms
  ready : c1.state ≡ begin
  enough : ℕ
  run : loop enough c (sent ms) ≡ some (c1, has_message c1.queue)

read_all :
    (c : Codec) (ms : List Message)
    → AllSendable ms
    → c.state ≡ begin
    → (c1 : Codec) × HasRead c ms c1
unfolding loop
read_all c [] h start =
    (c, record { queued = sym (append-nil c.queue); ready = start; enough = 0; run = refl })
read_all c (m ∷ ms) (h, hs) start =
    let masked = not (m.mask == 0) in
    let flag : m.mask == 0 ≡ not masked = ground arith in
    let (c1, rest) =
      read_all (after c masked m.mask m.payload m.op) ms hs
        (state-after c masked m.mask m.payload m.op) in
    (
      c1,
      record {
        queued =
            rest.queued
            ∙ ap (λ (q : List (Op × List ℕ)). q ++ map received ms)
                (queue-after c masked m.mask m.payload m.op flag)
            ∙ append_assoc c.queue (received m ∷ []) (map received ms);
        ready = rest.ready;
        enough = suc (rest.enough + 14);
        run =
            loop-send _ rest.enough c m.mask m.payload m.op (sent ms) masked flag h start rest.run;
      },
    )

-- Whole messages sent one behind the other and read as one buffer, by a codec that is at the
-- start of a frame, are queued behind what the queue held, in their order and with their opcodes,
-- and the codec is at the start of a frame again. Control messages are below 126 bytes. The
-- payload comes back as it was where the mask is 0, and otherwise combined with the mask, since
-- send does not apply it.
pub parse_frame-sent :
    (c : Codec) (ms : List Message)
    → AllSendable ms
    → c.state ≡ begin
    → (c1 : Codec) × (parse_frame c (sent ms) ≡ some (c1, has_message c1.queue))
      × (c1.queue ≡ c.queue ++ map received ms)
      × (c1.state ≡ begin)
unfolding parse_frame
parse_frame-sent c ms h start =
    let (c1, all) = read_all c ms h start in
    let (r, given) = parse_frame_total c (sent ms) in
    let most = max (2 * length (sent ms) + 16) all.enough in
    let by_given : loop most c (sent ms) ≡ some r =
      loop_more_fuel r (2 * length (sent ms) + 16) most c (sent ms) (omega arith) given in
    let by_run : loop most c (sent ms) ≡ some (c1, has_message c1.queue) =
      loop_more_fuel _ all.enough most c (sent ms) (omega arith) all.run in
    (c1, given ∙ sym by_given ∙ by_run, all.queued, all.ready)
