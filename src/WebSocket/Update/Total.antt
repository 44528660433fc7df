-- ===== src/WebSocket/Update/Total.antt =====
-- An update ends: its jumps to `retry` use up what the socket gives and the messages in the codec.
use vitex.Common.{
  ℕ, suc, ◌≡◌, ◌∙◌, arith, refl, ap, inl, inr, List, [], ◌∷◌, Bool, true, false, ◌||◌,
  if◌then◌else◌, if_both, Bool-cases, Option, none, some, ◌>>=◌,
}
use vitex.WebSocket.Codec.{Op, next, text, binary, close, ping, pong, Codec, get_frame}
use vitex.WebSocket.Codec.Total.{parse_frame_total}
use vitex.WebSocket.Sending.{State, opened, receive, process, closed, is_healthy}
use vitex.WebSocket.Update.{
  Socket, Reading, World, Turn, returns, retries, finalize, receive_turn, dispatch, take_frame,
  parse_all, after_reading, process_turn, open_turn, by_state, turn, after_turn, loop, update,
}

abbrev tail {ℓ} : {A : Type ℓ} → List A → List A
tail [] = []
tail (x ∷ xs) = xs

module _ (w : World) where
  Ends : Socket → List Reading → Type 0
  Ends s rs = (n : ℕ) × (r : Socket) × (loop n w s rs ≡ some r)

  abbrev TurnEnds : Turn → Type 0
  TurnEnds (returns s) = Unit
  TurnEnds (retries s rs) = Ends s rs

  abbrev OptionEnds : Option Turn → Type 0
  OptionEnds none = ⊥
  OptionEnds (some t) = TurnEnds t

  after_turn-Ends :
      (s : Socket) (rs : List Reading) (o : Option Turn)
      → turn w rs s ≡ o
      → OptionEnds o
      → Ends s rs
  unfolding Ends loop after_turn
  after_turn-Ends s rs none e h = absurd h
  after_turn-Ends s rs (some (returns r)) e h =
      (1, r, ap (λ (o : Option Turn). o >>= after_turn (loop 0 w)) e)
  after_turn-Ends s rs (some (retries r qs)) e (n, r2, h) =
      (suc n, r2, ap (λ (o : Option Turn). o >>= after_turn (loop n w)) e ∙ h)

  -- What the next turn goes by.
  abbrev pub effective : Socket → State
  effective s = if is_healthy s.tunneling then s.state else closed

  state-Ends :
      (s : Socket) (rs : List Reading) (st : State)
      → effective s ≡ st
      → OptionEnds (by_state w rs s st)
      → Ends s rs
  unfolding turn
  state-Ends s rs st e h = after_turn-Ends s rs (by_state w rs s st) (ap (by_state w rs s) e) h

  closed-Ends : (s : Socket) (rs : List Reading) → effective s ≡ closed → Ends s rs
  unfolding by_state
  closed-Ends s rs e = state-Ends s rs closed e tt

  finalize-Ends : (s : Socket) (rs : List Reading) → Ends (finalize s) rs
  finalize-Ends s rs =
      if_both (λ t. Ends t rs) (is_healthy s.tunneling)
        (λ h. closed-Ends (record s { state = closed }) rs (rw h refl))
        (λ h. closed-Ends s rs (rw h refl))

  -- A state is the one that an update goes by, or the connection is closing.
  with_state :
      (s : Socket) (rs : List Reading) (st : State)
      → s.state ≡ st
      → OptionEnds (by_state w rs s st)
      → Ends s rs
  with_state s rs st e h = elim (Bool-cases (is_healthy s.tunneling)) [
    | inl q ↦ state-Ends s rs st (rw q e) h
    | inr q ↦ closed-Ends s rs (rw q refl)
  ]

  receive-Ends : (s : Socket) (rs : List Reading) → s.state ≡ receive → Ends s rs
  unfolding by_state receive_turn
  receive-Ends s rs e =
      with_state s rs receive e (if_both TurnEnds w.dead (λ h. finalize-Ends s rs) (λ h. tt))

  opened-Ends : (s : Socket) (rs : List Reading) → s.state ≡ opened → Ends s rs
  unfolding by_state open_turn
  opened-Ends s rs e = with_state s rs opened e (
      if_both TurnEnds (s.connect || s.receive_hook || s.disconnect)
        (λ h.
          if_both TurnEnds s.connect (λ h. tt)
            (λ h. receive-Ends (record s { state = receive }) rs refl))
        (λ h. tt))

  dispatch-Ends :
      (rs : List Reading) (s : Socket) (o : Op) (bytes : List ℕ)
      → Ends s rs
      → TurnEnds (dispatch w rs s o bytes)
  unfolding dispatch
  dispatch-Ends rs s text bytes h = tt
  dispatch-Ends rs s binary bytes h = tt
  dispatch-Ends rs s ping bytes h = tt
  dispatch-Ends rs s close bytes h = tt
  dispatch-Ends rs s next bytes h = if_both TurnEnds s.receive_hook (λ q. tt) (λ q. h)
  dispatch-Ends rs s pong bytes h = if_both TurnEnds s.receive_hook (λ q. tt) (λ q. h)

  -- What an update does with the codec's next message.
  take_frame-Ends :
      (rs : List Reading) (s : Socket) (ms : List (Op × List ℕ))
      → s.codec.queue ≡ ms
      → s.state ≡ receive
      → ((t : Socket) → t.state ≡ process → (m : Op × List ℕ) → m ∷ t.codec.queue ≡ ms → Ends t rs)
      → TurnEnds (take_frame w rs s (get_frame s.codec))
  unfolding take_frame get_frame
  take_frame-Ends rs s [] q e ih = rw (take_frame, get_frame, q) (receive-Ends s rs e)
  take_frame-Ends rs s ((o, bytes) ∷ ms) q e ih =
      rw (take_frame, get_frame, q)
        (dispatch-Ends rs (record s { codec = record s.codec { queue = ms }; state = process }) o
          bytes
          (ih (record s { codec = record s.codec { queue = ms }; state = process }) refl (o, bytes)
            refl))

  -- With nothing left to read, the messages in the codec are handed out one by one.
  drain-Ends :
      (ms : List (Op × List ℕ)) (s : Socket) → s.state ≡ process → s.codec.queue ≡ ms → Ends s []
  unfolding by_state process_turn after_reading
  drain-Ends [] s e q = with_state s [] process e (
      take_frame-Ends [] (record s { state = receive }) [] q refl
        (λ t h m x. absurd (ground arith)))
  drain-Ends (m ∷ ms) s e q = with_state s [] process e (
      take_frame-Ends [] (record s { state = receive }) (m ∷ ms) q refl
        (λ t h m2 x. drain-Ends ms t h (ap tail x)))

  parse_all_total : (bs : List (List ℕ)) (c : Codec) → (d : Codec) × (parse_all bs c ≡ some d)
  unfolding parse_all
  parse_all_total [] c = (c, refl)
  parse_all_total (b ∷ bs) c =
      let ((d, found), e) = parse_frame_total c b in
      let (r, f) = parse_all_total bs d in (r, (rw e f))

  after_reading-Ends :
      (rs : List Reading) (b : Bool) (s : Socket)
      → ((t : Socket) → t.state ≡ process → Ends t rs)
      → TurnEnds (after_reading w rs b s)
  unfolding after_reading
  after_reading-Ends rs true s ih =
      take_frame-Ends rs (record s { state = receive }) s.codec.queue refl refl (λ t h m x. ih t h)
  after_reading-Ends rs false s ih = finalize-Ends s rs

  process-Ends : (rs : List Reading) (s : Socket) → s.state ≡ process → Ends s rs
  unfolding by_state process_turn
  process-Ends [] s e = drain-Ends s.codec.queue s e refl
  process-Ends (r ∷ rs) s e =
      let (c, f) = parse_all_total r.buffers s.codec in
      with_state s (r ∷ rs) process e (
        rw (process_turn, f)
          (after_reading-Ends rs r.would_block (record s { codec = c }) (process-Ends rs)))

-- Some fuel is enough for an update, whatever it meets.
pub update_total : (w : World) (s : Socket) → (fuel : ℕ) × (r : Socket) × (update fuel w s ≡ some r)
unfolding update Ends
update_total w s = go s.state refl
  where
    go :
        (st : State)
        → s.state ≡ st
        → (fuel : ℕ) × (r : Socket) × (loop fuel w s w.readings ≡ some r)
    go opened e = opened-Ends w s w.readings e
    go receive e = receive-Ends w s w.readings e
    go process e = process-Ends w w.readings s e
    go closed e =
        closed-Ends w s w.readings
          (if_both (λ (t : State). t ≡ closed) (is_healthy s.tunneling) (λ h. e) (λ h. refl))
