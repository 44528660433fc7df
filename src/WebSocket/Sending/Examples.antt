-- ===== src/WebSocket/Sending/Examples.antt =====
-- Runs of the theorems on sending at concrete messages and steps.
use vitex.Common.{◌+◌, ◌≡◌, refl, List, [], ◌∷◌, ◌++◌, false, true}
use vitex.WebSocket.Codec.{text}
use vitex.Uplinks.Counting.{count}
use vitex.WebSocket.Sending.Closing.{Keeps, send_close_stuck}
use vitex.WebSocket.Sending.{
  Frame, receive, head, close_message, send_close, Message, web_socket_frame, opened, run, sends,
  tests_close, closes_on, closes_later, writes, dequeues, resends, done, error, Step,
}
use vitex.WebSocket.Sending.Conserved.{present, given, present-run}
use vitex.WebSocket.Sending.Wire.{IsWhole, idle, run-IsWhole}
use vitex.WebSocket.Sending.Order.{IsInLine, Turn, adds, settles, rests, turns, turns-IsInLine}

-- "hi" and "yo".
abbrev hi_message : Message
hi_message = record { mask = 0; buffer = 104 ∷ 105 ∷ []; opcode = text; callback = 1 }

abbrev yo_message : Message
yo_message = record { mask = 7; buffer = 121 ∷ 111 ∷ []; opcode = text; callback = 2 }

-- Two messages, two calls that close the connection behind them at the same time, and a write that
-- fails.
abbrev some_steps : List Step
some_steps =
    sends hi_message false
    ∷ sends yo_message false
    ∷ tests_close 4
    ∷ writes done
    ∷ writes done
    ∷ dequeues false
    ∷ resends false
    ∷ tests_close 3
    ∷ closes_later
    ∷ closes_on false
    ∷ closes_on false
    ∷ writes (error 1)
    ∷ []

present-run_example :
    present 2 (run web_socket_frame some_steps)
    ≡ present 2 web_socket_frame + count 2 (given some_steps)
present-run_example = present-run 2 web_socket_frame some_steps

abbrev clean_steps : List Step
clean_steps =
    sends hi_message false
    ∷ writes done
    ∷ sends yo_message false
    ∷ writes done
    ∷ tests_close 3
    ∷ dequeues false
    ∷ closes_on false
    ∷ resends false
    ∷ closes_on false
    ∷ []

run-IsWhole_example :
    (more : List Message) × IsWhole (run web_socket_frame clean_steps) ([] ++ more)
run-IsWhole_example =
    run-IsWhole [] web_socket_frame clean_steps
      (tt, (tt, (tt, (tt, (tt, (tt, (tt, (tt, (tt, tt))))))))) (idle refl refl refl)

-- One message is out to its payload when the next one is sent.
abbrev smooth_turns : List Turn
smooth_turns =
    adds hi_message false
    ∷ settles done false false
    ∷ adds yo_message false
    ∷ settles done false false
    ∷ []

turns-IsInLine_example :
    IsInLine opened (hi_message ∷ yo_message ∷ []) (turns web_socket_frame smooth_turns)
turns-IsInLine_example =
    turns-IsInLine opened [] web_socket_frame smooth_turns refl
      (refl, ((refl, refl), (refl, ((refl, refl), tt)))) (rests [] [] refl refl)

-- A connection on which a message is being written and another one waits.
abbrev busy_frame : Frame
busy_frame = record web_socket_frame {
  state = receive;
  busy = true;
  writing = head hi_message ∷ [];
  messages = yo_message ∷ [];
}

send_close_stuck_example :
    Keeps
      (yo_message ∷ close_message 3 ∷ [])
      (run (send_close busy_frame 3 false) (writes done ∷ writes done ∷ dequeues false ∷ []))
send_close_stuck_example =
    send_close_stuck busy_frame 3 false (writes done ∷ writes done ∷ dequeues false ∷ []) refl refl
      refl refl refl
