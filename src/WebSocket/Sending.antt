-- ===== src/WebSocket/Sending.antt =====
-- `web_socket_frame`: how messages are sent, queued while another one is written, and sent when that
-- one is out. `write_queued` calls back when the bytes are out or the write has failed, at once or
-- later; the lock is not held between the calls, so that the calls of other threads, and of the
-- callbacks, may come between any two of the steps.
pub mod Conserved
pub mod Frames
pub mod Wire
pub mod Order
pub mod Closing
mod Examples
use vitex.Common.{
  ℕ, zero, suc, ◌+◌, ◌-◌, List, [], ◌∷◌, ◌++◌, Bool, true, false, ◌==◌, ◌||◌, if◌then◌else◌,
}
use vitex.Common.Lists.{length, take}
use vitex.WebSocket.Codec.{Op, close}
use vitex.WebSocket.Frame.{header}

-- A message: `callback` is the number that names its callback; a missing one counts as one that does
-- nothing.
pub record Message : Type 0 where
  pub mask : ℕ
  pub buffer : List ℕ
  pub opcode : Op
  pub callback : ℕ

pub data State : Type 0 where
  opened receive process closed : State

pub data Tunnel : Type 0 where
  healthy closing gone : Tunnel

-- What a write has been given.
pub data Part : Type 0 where
  head payload : Message → Part

-- A call of `send_close` with its callback, after its tests and after its call of `finalize`.
pub data CloseCall : Type 0 where
  tested finalized : ℕ → CloseCall

-- `writing`: the parts given to `write_queued` that it has not called back for. `wire`: the bytes
-- that are out. `called`: the callbacks called so far. `finishing`: the callbacks of messages that
-- will go on with `dequeue`. `taken`: the messages that `dequeue` has popped and not yet sent. `closings`: the
-- calls of `send_close` that have passed the tests and not yet sent.
pub record Frame : Type 0 where
  pub messages : List Message
  pub state : State
  pub tunneling : Tunnel
  pub active : Bool
  pub deadly : Bool
  pub busy : Bool
  pub writing : List Part
  pub wire : List ℕ
  pub called : List ℕ
  pub finishing : ℕ
  pub taken : List Message
  pub closings : List CloseCall

abbrev pub web_socket_frame : Frame
web_socket_frame = record {
  messages = [];
  state = opened;
  tunneling = healthy;
  active = true;
  deadly = false;
  busy = false;
  writing = [];
  wire = [];
  called = [];
  finishing = 0;
  taken = [];
  closings = [];
}

abbrev pub is_healthy : Tunnel → Bool
is_healthy healthy = true
is_healthy closing = false
is_healthy gone = false

abbrev pub is_closed : State → Bool
is_closed closed = true
is_closed opened = false
is_closed receive = false
is_closed process = false

abbrev pub is_ignore : Frame → Bool
is_ignore f = f.deadly || is_closed f.state || (if is_healthy f.tunneling then false else true)

-- `awaiting`: what `is_awaiting_writeable` of the socket says.
unfoldable pub send : Frame → Message → Bool → Frame
send f m awaiting =
    if f.busy || awaiting
    then record f { messages = f.messages ++ m ∷ [] }
    else record f { busy = true; writing = f.writing ++ head m ∷ [] }

unfoldable pub call : Frame → ℕ → Frame
call f c = record f { called = f.called ++ c ∷ [] }

abbrev pub close_message : ℕ → Message
close_message c = record { mask = 0; buffer = []; opcode = close; callback = c }

unfoldable pub finalize : Frame → Frame
finalize f = if is_healthy f.tunneling then record f { state = closed } else f

-- `send_close` where no other call comes between its tests, `finalize` and `send`; the steps below
-- are also those of a call that others interrupt.
unfoldable pub send_close : Frame → ℕ → Bool → Frame
unfolding send call finalize
send_close f c awaiting =
    if f.deadly
    then call f c
    else if is_closed f.state || (if is_healthy f.tunneling then false else true)
    then call f c
    else if f.active
    then send (finalize f) (close_message c) awaiting
    else call f c

-- The tests of `send_close`; no lock is held from them to `finalize` and `send`.
unfoldable pub test_close : Frame → ℕ → Frame
unfolding call
test_close f c =
    if f.deadly
    then call f c
    else if is_closed f.state || (if is_healthy f.tunneling then false else true)
    then call f c
    else if f.active
    then record f { closings = f.closings ++ tested c ∷ [] }
    else call f c

-- The first of the calls of `send_close` goes on: with `finalize`, then with `send`.
unfoldable pub close_on : Frame → List CloseCall → Bool → Frame
unfolding send finalize
close_on f [] awaiting = f
close_on f (tested c ∷ cs) awaiting = finalize (record f { closings = finalized c ∷ cs })
close_on f (finalized c ∷ cs) awaiting =
    send (record f { closings = cs }) (close_message c) awaiting

-- Another of the threads that close comes first.
unfoldable pub close_later : Frame → List CloseCall → Frame
close_later f [] = f
close_later f (k ∷ ks) = record f { closings = ks ++ k ∷ [] }

abbrev pub completed : Frame → Frame
completed f = record f {
  busy = false;
  finishing = if is_ignore f then f.finishing else suc f.finishing;
}

-- The message is out, or its write was cancelled.
unfoldable pub complete : Frame → Message → Frame
unfolding call
complete f m = call (completed f) m.callback

abbrev pub failed : Frame → Frame
failed f = record f { tunneling = gone; busy = false }

unfoldable pub fail : Frame → Message → Frame
unfolding call
fail f m = call (failed f) m.callback

abbrev pub message_of : Part → Message
message_of (head m) = m
message_of (payload m) = m

unfoldable pub bytes_of : Part → List ℕ
unfolding header
bytes_of (head m) = header m.mask (length m.buffer) m.opcode
bytes_of (payload m) = m.buffer

-- A part is out: the payload follows the header, and a message without one is complete.
unfoldable pub after_part : Frame → Part → Frame
unfolding complete
after_part f (payload m) = complete f m
after_part f (head m) =
    if length m.buffer == 0 then complete f m else record f { writing = payload m ∷ f.writing }

-- The write of the first part ends: all of it is out, or some bytes, and it failed or was cancelled.
pub data Event : Type 0 where
  done : Event
  error skip : ℕ → Event

abbrev pub put : Frame → List ℕ → Frame
put f bytes = record f { wire = f.wire ++ bytes }

unfoldable pub on_event : Frame → Part → Event → Frame
unfolding after_part fail complete bytes_of
on_event f part done = after_part (put f (bytes_of part)) part
on_event f part (error n) = fail (put f (take n (bytes_of part))) (message_of part)
on_event f part (skip n) = complete (put f (take n (bytes_of part))) (message_of part)

unfoldable pub written : Frame → List Part → Event → Frame
unfolding on_event
written f [] event = f
written f (part ∷ parts) event = on_event (record f { writing = parts }) part event

unfoldable pub pop : Frame → List Message → Frame
pop f [] = f
pop f (m ∷ ms) = record f { messages = ms; taken = f.taken ++ m ∷ [] }

-- `dequeue` up to its call of `send`.
unfoldable pub dequeue : Frame → ℕ → Bool → Frame
unfolding pop
dequeue f zero awaiting = f
dequeue f (suc n) awaiting =
    if f.busy || awaiting
    then record f { finishing = n }
    else pop (record f { finishing = n }) f.messages

-- The call of `send` that `dequeue` makes.
unfoldable pub resend : Frame → List Message → Bool → Frame
unfolding send
resend f [] awaiting = f
resend f (m ∷ ms) awaiting = send (record f { taken = ms }) m awaiting

-- Another of the threads that have popped a message comes first.
unfoldable pub overtake : Frame → List Message → Frame
overtake f [] = f
overtake f (m ∷ ms) = record f { taken = ms ++ m ∷ [] }

-- `breaks`: the tunnel is closed or gone by `update`.
pub data Step : Type 0 where
  sends : Message → Bool → Step
  send_closes : ℕ → Bool → Step
  tests_close : ℕ → Step
  closes_on : Bool → Step
  writes : Event → Step
  dequeues resends : Bool → Step
  overtakes closes_later finalizes : Step
  breaks : Tunnel → Bool → Step

unfoldable pub step : Frame → Step → Frame
unfolding send send_close test_close close_on close_later written dequeue resend overtake finalize
step f (sends m awaiting) = send f m awaiting
step f (send_closes c awaiting) = send_close f c awaiting
step f (tests_close c) = test_close f c
step f (closes_on awaiting) = close_on f f.closings awaiting
step f closes_later = close_later f f.closings
step f (writes event) = written f f.writing event
step f (dequeues awaiting) = dequeue f f.finishing awaiting
step f (resends awaiting) = resend f f.taken awaiting
step f overtakes = overtake f f.taken
step f finalizes = finalize f
step f (breaks tunneling active) = record f { tunneling = tunneling; active = active }

unfoldable pub run : Frame → List Step → Frame
unfolding step
run f [] = f
run f (s ∷ ss) = run (step f s) ss
