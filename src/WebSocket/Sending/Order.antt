-- ===== src/WebSocket/Sending/Order.antt =====
-- The order in which messages go out where nothing comes between the steps of one completion.
use vitex.Common.{
  ℕ, ◌≡◌, arith, refl, ap, sym, ◌∙◌, List, [], ◌∷◌, ◌++◌, Bool, true, false, ◌==◌, Bool-cases, inl,
  inr,
}
use vitex.Common.Lists.{length}
use vitex.WebSocket.Frame.{header}
use vitex.WebSocket.Sending.{
  Message, State, opened, receive, process, closed, healthy, Frame, Part, head, payload, bytes_of,
  send, call, is_closed, complete, after_part, Event, done, error, skip, on_event, written, pop,
  dequeue, resend,
}
use vitex.WebSocket.Sending.Frames.{frames, frame_out, header_only}
use mathlib.Core.List.{append_assoc, append-nil}

-- The end of a write, and what its callback goes on with: what `is_awaiting_writeable` says in
-- `dequeue` and in the `send` that follows it.
unfoldable pub settle : Frame → Event → Bool → Bool → Frame
unfolding written dequeue resend
settle f event awaiting again =
    let g = written f f.writing event in
    let h = dequeue g g.finishing awaiting in resend h h.taken again

pub data Turn : Type 0 where
  adds : Message → Bool → Turn
  settles : Event → Bool → Bool → Turn

unfoldable pub turn : Frame → Turn → Frame
unfolding send settle
turn f (adds m awaiting) = send f m awaiting
turn f (settles event awaiting again) = settle f event awaiting again

unfoldable pub turns : Frame → List Turn → Frame
unfolding turn
turns f [] = f
turns f (t ∷ ts) = turns (turn f t) ts

abbrev pub added : List Turn → List Message
added [] = []
added (adds m awaiting ∷ ts) = m ∷ added ts
added (settles event awaiting again ∷ ts) = added ts

-- No write fails or is cancelled, and the socket does not await writeability.
abbrev pub IsSmooth : Turn → Type 0
IsSmooth (adds m awaiting) = awaiting ≡ false
IsSmooth (settles done awaiting again) = (awaiting ≡ false) × (again ≡ false)
IsSmooth (settles (error n) awaiting again) = ⊥
IsSmooth (settles (skip n) awaiting again) = ⊥

abbrev pub AllSmooth : List Turn → Type 0
AllSmooth [] = Unit
AllSmooth (t ∷ ts) = IsSmooth t × AllSmooth ts

-- The end of a write that is not disturbed.
abbrev settled : Frame → Frame
settled f = settle f done false false

-- A connection that is open, with nothing between two steps.
abbrev pub quiet : State → List ℕ → List ℕ → Bool → List Part → List Message → Frame
quiet state called wire busy writing messages = record {
  messages = messages;
  state = state;
  tunneling = healthy;
  active = true;
  deadly = false;
  busy = busy;
  writing = writing;
  wire = wire;
  called = called;
  finishing = 0;
  taken = [];
  closings = [];
}

-- The first messages that were sent are out, the next one is being written, the others are queued,
-- in the order in which they were sent.
pub data IsInLine (s : State) (sent : List Message) (f : Frame) : Type 0 where
  rests :
      (called wire : List ℕ)
      → f ≡ quiet s called wire false [] []
      → wire ≡ frames sent
      → IsInLine s sent f
  begins :
      (called wire : List ℕ) (out : List Message) (m : Message) (ms : List Message)
      → f ≡ quiet s called wire true (head m ∷ []) ms
      → wire ≡ frames out
      → out ++ m ∷ ms ≡ sent
      → IsInLine s sent f
  goes_on :
      (called wire : List ℕ) (out : List Message) (m : Message) (ms : List Message)
      → f ≡ quiet s called wire true (payload m ∷ []) ms
      → wire ≡ frames out ++ header m.mask (length m.buffer) m.opcode
      → out ++ m ∷ ms ≡ sent
      → IsInLine s sent f

adds_lem :
    (s : State) (sent : List Message) (f : Frame) (m : Message)
    → IsInLine s sent f
    → IsInLine s (sent ++ m ∷ []) (send f m false)
unfolding send
adds_lem s sent f m (rests called wire e z) =
    begins called wire sent m [] (ap (λ (g : Frame). send g m false) e) z refl
adds_lem s sent f m (begins called wire out n ms e z l) =
    begins called wire out n (ms ++ m ∷ []) (ap (λ (g : Frame). send g m false) e) z
      (sym (append_assoc out (n ∷ ms) (m ∷ [])) ∙ ap (λ (t : List Message). t ++ m ∷ []) l)
adds_lem s sent f m (goes_on called wire out n ms e z l) =
    goes_on called wire out n (ms ++ m ∷ []) (ap (λ (g : Frame). send g m false) e) z
      (sym (append_assoc out (n ∷ ms) (m ∷ [])) ∙ ap (λ (t : List Message). t ++ m ∷ []) l)

-- The message that is out is followed by the next one in the queue.
after_message : State → List ℕ → List ℕ → Message → List Message → Frame
after_message s called wire m [] = quiet s (called ++ m.callback ∷ []) wire false [] []
after_message s called wire m (n ∷ ns) =
    quiet s (called ++ m.callback ∷ []) wire true (head n ∷ []) ns

settle-payload :
    (s : State) (called wire : List ℕ) (m : Message) (ms : List Message)
    → is_closed s ≡ false
    → settled (quiet s called wire true (payload m ∷ []) ms)
      ≡ after_message s called (wire ++ m.buffer) m ms
unfolding settle written on_event after_part bytes_of complete call dequeue pop resend send
    after_message
settle-payload opened called wire m [] o = refl
settle-payload opened called wire m (n ∷ ns) o = refl
settle-payload receive called wire m [] o = refl
settle-payload receive called wire m (n ∷ ns) o = refl
settle-payload process called wire m [] o = refl
settle-payload process called wire m (n ∷ ns) o = refl
settle-payload closed called wire m ms o = absurd (ground arith)

-- A message without bytes is out with its header.
settle-head_only :
    (s : State) (called wire : List ℕ) (m : Message) (ms : List Message)
    → is_closed s ≡ false
    → (length m.buffer == 0) ≡ true
    → settled (quiet s called wire true (head m ∷ []) ms)
      ≡ after_message s called (wire ++ header m.mask (length m.buffer) m.opcode) m ms
unfolding settle written on_event after_part bytes_of complete call dequeue pop resend send
    after_message
settle-head_only opened called wire m [] o e = ground (arith, e)
settle-head_only opened called wire m (n ∷ ns) o e = ground (arith, e)
settle-head_only receive called wire m [] o e = ground (arith, e)
settle-head_only receive called wire m (n ∷ ns) o e = ground (arith, e)
settle-head_only process called wire m [] o e = ground (arith, e)
settle-head_only process called wire m (n ∷ ns) o e = ground (arith, e)
settle-head_only closed called wire m ms o e = absurd (ground arith)

settle-head :
    (s : State) (called wire : List ℕ) (m : Message) (ms : List Message)
    → (length m.buffer == 0) ≡ false
    → settled (quiet s called wire true (head m ∷ []) ms)
      ≡ quiet s called (wire ++ header m.mask (length m.buffer) m.opcode) true (payload m ∷ []) ms
unfolding settle written on_event after_part bytes_of dequeue resend
settle-head s called wire m ms e = ground (arith, e)

settle-nothing :
    (s : State) (called wire : List ℕ)
    → settled (quiet s called wire false [] []) ≡ quiet s called wire false [] []
unfolding settle written dequeue resend
settle-nothing s called wire = refl

-- What follows a message that is out is in line.
next-IsInLine :
    (s : State) (sent : List Message) (f : Frame) (called wire : List ℕ) (out : List Message)
    → (m : Message) (ms : List Message) → f ≡ after_message s called wire m ms
    → wire ≡ frames (out ++ m ∷ [])
    → out ++ m ∷ ms ≡ sent
    → IsInLine s sent f
unfolding after_message
next-IsInLine s sent f called wire out m [] e z l =
    rests (called ++ m.callback ∷ []) wire e (z ∙ ap frames l)
next-IsInLine s sent f called wire out m (n ∷ ns) e z l =
    begins (called ++ m.callback ∷ []) wire (out ++ m ∷ []) n ns e z
      (append_assoc out (m ∷ []) (n ∷ ns) ∙ l)

settles_lem :
    (s : State) (sent : List Message) (f : Frame)
    → is_closed s ≡ false
    → IsInLine s sent f
    → IsInLine s sent (settled f)
settles_lem s sent f o (rests called wire e z) =
    rests called wire (ap settled e ∙ settle-nothing s called wire) z
settles_lem s sent f o (begins called wire out m ms e z l) =
    elim (Bool-cases (length m.buffer == 0)) [
      | inl h ↦
          next-IsInLine s sent (settled f) called (wire ++ header m.mask (length m.buffer) m.opcode)
            out m ms (ap settled e ∙ settle-head_only s called wire m ms o h)
            (header_only out m wire z h) l
      | inr h ↦
          goes_on called (wire ++ header m.mask (length m.buffer) m.opcode) out m ms
            (ap settled e ∙ settle-head s called wire m ms h)
            (ap (λ (w : List ℕ). w ++ header m.mask (length m.buffer) m.opcode) z) l
    ]
settles_lem s sent f o (goes_on called wire out m ms e z l) =
    next-IsInLine s sent (settled f) called (wire ++ m.buffer) out m ms
      (ap settled e ∙ settle-payload s called wire m ms o)
      (ap (λ (w : List ℕ). w ++ m.buffer) z ∙ frame_out out m (frames out) refl) l

-- Over calls of send and ends of writes, on an open connection whose state and tunnel nothing
-- else changes meanwhile, and as long as no write fails or is cancelled, the socket never awaits
-- writeability, and nothing comes between a completion and the send of the next message in the
-- queue, messages go out in the order in which they were sent: the bytes that are out are the
-- frames of the first of them, and the header of the next one at most, and the others are queued
-- in their order.
pub turns-IsInLine :
    (s : State) (sent : List Message) (f : Frame) (ts : List Turn)
    → is_closed s ≡ false
    → AllSmooth ts
    → IsInLine s sent f
    → IsInLine s (sent ++ added ts) (turns f ts)
unfolding turns turn
turns-IsInLine s sent f [] o c v = rw (append-nil sent) v
turns-IsInLine s sent f (adds m awaiting ∷ ts) o (c, cs) v =
    rw (sym (append_assoc sent (m ∷ []) (added ts)))
      (turns-IsInLine s (sent ++ m ∷ []) (send f m awaiting) ts o cs (rw c (adds_lem s sent f m v)))
turns-IsInLine s sent f (settles done awaiting again ∷ ts) o ((c, d), cs) v =
    turns-IsInLine s sent (settle f done awaiting again) ts o cs
      (rw (c, d) (settles_lem s sent f o v))
turns-IsInLine s sent f (settles (error n) awaiting again ∷ ts) o (c, cs) v = absurd c
turns-IsInLine s sent f (settles (skip n) awaiting again ∷ ts) o (c, cs) v = absurd c
