-- ===== src/WebSocket/Update.antt =====
-- `web_socket_frame::update`: what a connection does next, by its state, and the hooks that it calls.
-- A reading is what the socket gives until it has no more: the buffers, and whether it would block
-- or has failed. What the hooks return, and what they do with the connection, is not known.
pub mod Total
pub mod Calls
pub mod Hooks
pub mod Shutdown
mod Examples
use vitex.Common.{
  ℕ, zero, suc, List, [], ◌∷◌, ◌++◌, Bool, true, false, not, ◌||◌, if◌then◌else◌, Option, none,
  some, ◌>>=◌,
}
use vitex.WebSocket.Codec.{Op, next, text, binary, close, ping, pong, Codec, parse_frame, get_frame}
use vitex.WebSocket.Sending.{
  State, opened, receive, process, closed, Tunnel, healthy, closing, gone, is_healthy, is_closed,
}

-- What an update calls: the hooks, `lifetime.close`, `when_readable`, `next`, and `send` or
-- `send_close` with `next` behind it.
pub data Call : Type 0 where
  connects befores disconnects : Call
  receives : Op → List ℕ → Call
  closes : Bool → Call
  listens nexts pongs send_closes : Call

-- The hooks are kept as whether they are set.
pub record Socket : Type 0 where
  pub state : State
  pub tunneling : Tunnel
  pub active : Bool
  pub connect : Bool
  pub before_disconnect : Bool
  pub disconnect : Bool
  pub receive_hook : Bool
  pub lifetime_close : Bool
  pub codec : Codec
  pub calls : List Call

pub record Reading : Type 0 where
  pub buffers : List (List ℕ)
  pub would_block : Bool

-- What an update meets: the answers of `lifetime.dead` and of the hook `receive`, and the readings.
pub record World : Type 0 where
  pub dead : Bool
  pub taken_over : Bool
  pub readings : List Reading

abbrev pub call : Socket → Call → Socket
call s c = record s { calls = s.calls ++ c ∷ [] }

-- An update returns, or jumps to `retry`.
pub data Turn : Type 0 where
  returns : Socket → Turn
  retries : Socket → List Reading → Turn

abbrev pub is_gone : Tunnel → Bool
is_gone gone = true
is_gone closing = false
is_gone healthy = false

abbrev pub set_closing : Tunnel → Tunnel
set_closing gone = gone
set_closing closing = closing
set_closing healthy = closing

unfoldable pub close_down : Socket → Socket
close_down s =
    if s.before_disconnect
    then call (record s { before_disconnect = false; tunneling = set_closing s.tunneling }) befores
    else if s.disconnect
    then call
        (record s { disconnect = false; receive_hook = false; tunneling = set_closing s.tunneling })
        disconnects
    else record s {
      tunneling = gone;
      active = false;
      calls =
          if s.lifetime_close then s.calls ++ closes (not (is_gone s.tunneling)) ∷ [] else s.calls;
    }

abbrev pub finalize : Socket → Socket
finalize s = if is_healthy s.tunneling then record s { state = closed } else s

unfoldable pub receive_turn : World → List Reading → Socket → Turn
receive_turn w rs s = if w.dead then retries (finalize s) rs else returns (call s listens)

-- The hook `receive`, and what follows it where it does not take over.
unfoldable pub hand : World → Socket → Op → List ℕ → Call → Socket
hand w s o bytes after =
    if w.taken_over then call s (receives o bytes) else call (call s (receives o bytes)) after

unfoldable pub dispatch : World → List Reading → Socket → Op → List ℕ → Turn
unfolding hand
dispatch w rs s text bytes = returns (if s.receive_hook then hand w s text bytes nexts else s)
dispatch w rs s binary bytes = returns (if s.receive_hook then hand w s binary bytes nexts else s)
dispatch w rs s ping bytes =
    returns (if s.receive_hook then hand w s ping [] pongs else call s pongs)
dispatch w rs s close bytes =
    returns (if s.receive_hook then hand w s close [] send_closes else call s send_closes)
dispatch w rs s next bytes =
    if s.receive_hook then returns (hand w s next [] nexts) else retries s rs
dispatch w rs s pong bytes =
    if s.receive_hook then returns (hand w s pong [] nexts) else retries s rs

unfoldable pub take_frame : World → List Reading → Socket → Option ((Op × List ℕ) × Codec) → Turn
unfolding dispatch
take_frame w rs s none = retries s rs
take_frame w rs s (some ((o, bytes), codec)) =
    dispatch w rs (record s { codec = codec; state = process }) o bytes

-- The buffers go through the codec, one after the other.
unfoldable pub parse_all : List (List ℕ) → Codec → Option Codec
unfolding parse_frame
parse_all [] c = some c
parse_all (b ∷ bs) c = parse_frame c b >>= λ (d, found). parse_all bs d

unfoldable pub after_reading : World → List Reading → Bool → Socket → Turn
unfolding take_frame get_frame
after_reading w rs true s =
    let s1 = record s { state = receive } in take_frame w rs s1 (get_frame s1.codec)
after_reading w rs false s = retries (finalize s) rs

-- Where nothing more is known of the socket it has nothing to read.
abbrev pub quiet : Reading
quiet = record { buffers = []; would_block = true }

unfoldable pub process_turn : World → List Reading → Socket → Option Turn
unfolding parse_all after_reading
process_turn w [] s = some (after_reading w [] true s)
process_turn w (r ∷ rs) s = parse_all r.buffers s.codec >>= λ c.
    some (after_reading w rs r.would_block (record s { codec = c }))

unfoldable pub open_turn : List Reading → Socket → Turn
open_turn rs s =
    if s.connect || s.receive_hook || s.disconnect
    then (if s.connect
        then returns (call (record s { state = receive; connect = false }) connects)
        else retries (record s { state = receive }) rs)
    else returns (call s send_closes)

unfoldable pub by_state : World → List Reading → Socket → State → Option Turn
unfolding receive_turn process_turn open_turn close_down
by_state w rs s closed = some (returns (close_down s))
by_state w rs s receive = some (receive_turn w rs s)
by_state w rs s process = process_turn w rs s
by_state w rs s opened = some (open_turn rs s)

unfoldable pub turn : World → List Reading → Socket → Option Turn
unfolding by_state close_down
turn w rs s = by_state w rs s (if is_healthy s.tunneling then s.state else closed)

unfoldable pub after_turn : (Socket → List Reading → Option Socket) → Turn → Option Socket
after_turn again (returns s) = some s
after_turn again (retries s rs) = again s rs

-- `none`: the fuel ran out.
unfoldable pub loop : ℕ → World → Socket → List Reading → Option Socket
unfolding turn after_turn
loop zero w s rs = none
loop (suc n) w s rs = turn w rs s >>= after_turn (loop n w)

unfoldable pub update : ℕ → World → Socket → Option Socket
unfolding loop
update fuel w s = loop fuel w s w.readings

-- What wakes the callback that waits for the socket: data, a failure, or a cancellation.
pub data Wake : Type 0 where
  done error skip : Wake

unfoldable pub on_readable : Socket → Wake → Socket
on_readable s done = call (record s { state = process }) nexts
on_readable s error = call (record s { state = closed }) nexts
on_readable s skip = s

abbrev pub is_finished : Socket → Bool
is_finished s = not s.active
