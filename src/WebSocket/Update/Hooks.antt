-- ===== src/WebSocket/Update/Hooks.antt =====
-- No hook is called twice, and none that was called is still set.
use vitex.Common.{
  ℕ, zero, suc, ◌≡◌, arith, refl, ap, List, [], ◌∷◌, Bool, true, false, not, ◌||◌, if◌then◌else◌,
  if_both, Option, none, some, ◌>>=◌,
}
use vitex.WebSocket.Codec.{Op, next, text, binary, close, ping, pong, Codec, get_frame}
use vitex.WebSocket.Sending.{State, opened, receive, process, closed, gone, is_healthy}
use vitex.WebSocket.Update.Total.{update_total}
use mathlib.Core.Path.{subst}
use vitex.WebSocket.Update.{
  Call, connects, befores, disconnects, receives, closes, listens, nexts, pongs, send_closes,
  Socket, Reading, World, is_gone, call, Turn, returns, retries, close_down, finalize, receive_turn,
  hand, dispatch, take_frame, parse_all, after_reading, process_turn, open_turn, by_state, turn,
  after_turn, loop, update,
}
use vitex.WebSocket.Update.Calls.{
  connected, announced, disconnected, one_if, Keeps, adds_call, Keeps-trans, Keeps-refl, other_call,
}

abbrev KeepsTurn : Socket → Turn → Type 0
KeepsTurn s (returns r) = Keeps s r
KeepsTurn s (retries r rs) = Keeps s r

close_down-Keeps : (s : Socket) → Keeps s (close_down s)
unfolding close_down
close_down-Keeps s =
    if_both (Keeps s) s.before_disconnect
      (λ h. adds_call s _ befores refl (omega arith) (omega (arith, ap one_if h)) (omega arith))
      (λ h.
        if_both (Keeps s) s.disconnect
          (λ h.
            adds_call s _ disconnects refl (omega arith) (omega arith) (omega (arith, ap one_if h)))
          (λ h.
            if_both
              (λ (cs : List Call).
                Keeps s (record s { tunneling = gone; active = false; calls = cs }))
              s.lifetime_close
              (λ h.
                adds_call s _ (closes (not (is_gone s.tunneling))) refl (omega arith) (omega arith)
                  (omega arith))
              (λ h. record { connect = refl; before = refl; disconnect = refl })))

finalize-Keeps : (s : Socket) → Keeps s (finalize s)
finalize-Keeps s =
    if_both (Keeps s) (is_healthy s.tunneling)
      (λ h. record { connect = refl; before = refl; disconnect = refl }) (λ h. Keeps-refl s)

hand-Keeps :
    (w : World) (s : Socket) (o : Op) (bytes : List ℕ) (c : Call)
    → connected c ≡ 0
    → announced c ≡ 0
    → disconnected c ≡ 0
    → Keeps s (hand w s o bytes c)
unfolding hand
hand-Keeps w s o bytes c x y z =
    if_both (Keeps s) w.taken_over (λ h. other_call s (receives o bytes) refl refl refl)
      (λ h.
        Keeps-trans s (call s (receives o bytes)) _ (other_call s (receives o bytes) refl refl refl)
          (other_call (call s (receives o bytes)) c x y z))

dispatch-Keeps :
    (w : World) (rs : List Reading) (s : Socket) (o : Op) (bytes : List ℕ)
    → KeepsTurn s (dispatch w rs s o bytes)
unfolding dispatch
dispatch-Keeps w rs s text bytes =
    if_both (Keeps s) s.receive_hook (λ h. hand-Keeps w s text bytes nexts refl refl refl)
      (λ h. Keeps-refl s)
dispatch-Keeps w rs s binary bytes =
    if_both (Keeps s) s.receive_hook (λ h. hand-Keeps w s binary bytes nexts refl refl refl)
      (λ h. Keeps-refl s)
dispatch-Keeps w rs s ping bytes =
    if_both (Keeps s) s.receive_hook (λ h. hand-Keeps w s ping [] pongs refl refl refl)
      (λ h. other_call s pongs refl refl refl)
dispatch-Keeps w rs s close bytes =
    if_both (Keeps s) s.receive_hook (λ h. hand-Keeps w s close [] send_closes refl refl refl)
      (λ h. other_call s send_closes refl refl refl)
dispatch-Keeps w rs s next bytes =
    if_both (KeepsTurn s) s.receive_hook (λ h. hand-Keeps w s next [] nexts refl refl refl)
      (λ h. Keeps-refl s)
dispatch-Keeps w rs s pong bytes =
    if_both (KeepsTurn s) s.receive_hook (λ h. hand-Keeps w s pong [] nexts refl refl refl)
      (λ h. Keeps-refl s)

-- The codec and the state have nothing to do with the hooks.
same_hooks : (s : Socket) (k : Codec) (st : State) → Keeps s (record s { codec = k; state = st })
same_hooks s k st = record { connect = refl; before = refl; disconnect = refl }

from_same :
    (s : Socket) (k : Codec) (st : State) (t : Turn)
    → KeepsTurn (record s { codec = k; state = st }) t
    → KeepsTurn s t
from_same s k st (returns r) h = Keeps-trans s _ r (same_hooks s k st) h
from_same s k st (retries r rs) h = Keeps-trans s _ r (same_hooks s k st) h

take_frame-Keeps :
    (w : World) (rs : List Reading) (s : Socket) (m : Option ((Op × List ℕ) × Codec))
    → KeepsTurn s (take_frame w rs s m)
unfolding take_frame
take_frame-Keeps w rs s none = Keeps-refl s
take_frame-Keeps w rs s (some ((o, bytes), k)) =
    from_same s k process _ (dispatch-Keeps w rs (record s { codec = k; state = process }) o bytes)

after_reading-Keeps :
    (w : World) (rs : List Reading) (b : Bool) (s : Socket) → KeepsTurn s (after_reading w rs b s)
unfolding after_reading
after_reading-Keeps w rs true s =
    from_same s s.codec receive _
      (take_frame-Keeps w rs (record s { state = receive }) (get_frame s.codec))
after_reading-Keeps w rs false s = finalize-Keeps s

-- Where there is a turn, it keeps the hooks.
abbrev KeepsOption : Socket → Option Turn → Type 0
KeepsOption s none = Unit
KeepsOption s (some t) = KeepsTurn s t

process-Keeps : (w : World) (rs : List Reading) (s : Socket) → KeepsOption s (process_turn w rs s)
unfolding process_turn
process-Keeps w [] s = after_reading-Keeps w [] true s
process-Keeps w (r ∷ rs) s = read (parse_all r.buffers s.codec)
  where
    read :
        (c : Option Codec)
        → KeepsOption s
            (c >>= λ d. some (after_reading w rs r.would_block (record s { codec = d })))
    read none = tt
    read (some d) =
        from_same s d s.state _ (after_reading-Keeps w rs r.would_block (record s { codec = d }))

by_state-Keeps :
    (w : World) (rs : List Reading) (s : Socket) (st : State) → KeepsOption s (by_state w rs s st)
unfolding by_state receive_turn open_turn
by_state-Keeps w rs s closed = close_down-Keeps s
by_state-Keeps w rs s process = process-Keeps w rs s
by_state-Keeps w rs s receive =
    if_both (KeepsTurn s) w.dead (λ h. finalize-Keeps s) (λ h. other_call s listens refl refl refl)
by_state-Keeps w rs s opened =
    if_both (KeepsTurn s) (s.connect || s.receive_hook || s.disconnect)
      (λ h.
        if_both (KeepsTurn s) s.connect
          (λ h.
            adds_call s _ connects refl (omega (arith, ap one_if h)) (omega arith) (omega arith))
          (λ h. same_hooks s s.codec receive))
      (λ h. other_call s send_closes refl refl refl)

-- Where there is a socket, it keeps the hooks.
abbrev KeepsSocket : Socket → Option Socket → Type 0
KeepsSocket s none = Unit
KeepsSocket s (some r) = Keeps s r

KeepsSocket-trans :
    (s t : Socket) (o : Option Socket) → Keeps s t → KeepsSocket t o → KeepsSocket s o
KeepsSocket-trans s t none k l = tt
KeepsSocket-trans s t (some r) k l = Keeps-trans s t r k l

after_turn-Keeps :
    (s : Socket) (again : Socket → List Reading → Option Socket) (o : Option Turn)
    → ((t : Socket) (qs : List Reading) → KeepsSocket t (again t qs))
    → KeepsOption s o
    → KeepsSocket s (o >>= after_turn again)
unfolding after_turn
after_turn-Keeps s again none ih k = tt
after_turn-Keeps s again (some (returns t)) ih k = k
after_turn-Keeps s again (some (retries t qs)) ih k = KeepsSocket-trans s t (again t qs) k (ih t qs)

loop-Keeps : (n : ℕ) (w : World) (s : Socket) (rs : List Reading) → KeepsSocket s (loop n w s rs)
unfolding loop turn
loop-Keeps zero w s rs = tt
loop-Keeps (suc n) w s rs =
    after_turn-Keeps s (loop n w) (turn w rs s) (loop-Keeps n w)
      (by_state-Keeps w rs s (if is_healthy s.tunneling then s.state else closed))

-- An update ends, whatever the state of the connection, the bytes that its socket gives, the
-- messages in its codec and the answers of the hooks: some fuel is enough. For each of the hooks
-- connect, before_disconnect and disconnect, the number of its calls and one more where it is
-- still set are together what they were before: none is called twice, and none is dropped without
-- a call.
pub update-Keeps :
    (w : World) (s : Socket) → (fuel : ℕ) × (r : Socket) × (update fuel w s ≡ some r) × Keeps s r
unfolding update
update-Keeps w s =
    let (fuel, r, e) = update_total w s in
    (fuel, r, e, subst (KeepsSocket s) e (loop-Keeps fuel w s w.readings))
