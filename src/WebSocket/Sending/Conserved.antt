-- ===== src/WebSocket/Sending/Conserved.antt =====
-- No message is lost and none is sent twice, whatever comes between the steps.
use vitex.Common.{
  ℕ, zero, suc, ◌+◌, ◌≡◌, arith, refl, ap, List, [], ◌∷◌, ◌++◌, Bool, ◌==◌, ◌||◌, if_both,
}
use vitex.Common.Lists.{length, take}
use vitex.Uplinks.Counting.{count, count-append}
use vitex.WebSocket.Sending.{
  Message, Frame, Part, head, payload, message_of, bytes_of, put, completed, failed, send, call,
  close_message, finalize, send_close, test_close, close_on, close_later, CloseCall, tested,
  finalized, complete, fail, after_part, Event, done, error, skip, on_event, written, pop, dequeue,
  resend, overtake, Step, sends, send_closes, tests_close, closes_on, closes_later, writes,
  dequeues, resends, overtakes, finalizes, breaks, step, run,
}

-- The callbacks of messages.
abbrev pub callbacks : List Message → List ℕ
callbacks [] = []
callbacks (m ∷ ms) = m.callback ∷ callbacks ms

abbrev pub part_callbacks : List Part → List ℕ
part_callbacks [] = []
part_callbacks (p ∷ ps) = (message_of p).callback ∷ part_callbacks ps

abbrev pub closing_callbacks : List CloseCall → List ℕ
closing_callbacks [] = []
closing_callbacks (tested d ∷ ks) = d ∷ closing_callbacks ks
closing_callbacks (finalized d ∷ ks) = d ∷ closing_callbacks ks

-- The callbacks that steps bring.
abbrev pub given : List Step → List ℕ
given [] = []
given (sends m awaiting ∷ ss) = m.callback ∷ given ss
given (send_closes d awaiting ∷ ss) = d ∷ given ss
given (tests_close d ∷ ss) = d ∷ given ss
given (closes_on awaiting ∷ ss) = given ss
given (closes_later ∷ ss) = given ss
given (writes event ∷ ss) = given ss
given (dequeues awaiting ∷ ss) = given ss
given (resends awaiting ∷ ss) = given ss
given (overtakes ∷ ss) = given ss
given (finalizes ∷ ss) = given ss
given (breaks t a ∷ ss) = given ss

module _ (c : ℕ) where
  -- How often a callback is with a message or a call of send_close, or has been called.
  abbrev pub present : Frame → ℕ
  present f =
      count c (callbacks f.messages)
      + count c (part_callbacks f.writing)
      + count c (callbacks f.taken)
      + count c (closing_callbacks f.closings)
      + count c f.called

  queued-append :
      (ms ns : List Message)
      → count c (callbacks (ms ++ ns)) ≡ count c (callbacks ms) + count c (callbacks ns)
  queued-append [] ns = omega arith
  queued-append (m ∷ ms) ns = omega (arith, queued-append ms ns)

  writing-append :
      (ms ns : List Part)
      → count c (part_callbacks (ms ++ ns))
        ≡ count c (part_callbacks ms) + count c (part_callbacks ns)
  writing-append [] ns = omega arith
  writing-append (m ∷ ms) ns = omega (arith, writing-append ms ns)

  closing-append :
      (ks ls : List CloseCall)
      → count c (closing_callbacks (ks ++ ls))
        ≡ count c (closing_callbacks ks) + count c (closing_callbacks ls)
  closing-append [] ls = omega arith
  closing-append (tested d ∷ ks) ls = omega (arith, closing-append ks ls)
  closing-append (finalized d ∷ ks) ls = omega (arith, closing-append ks ls)

  present-send :
      (f : Frame) (m : Message) (awaiting : Bool)
      → present (send f m awaiting) ≡ present f + count c (m.callback ∷ [])
  unfolding send
  present-send f m awaiting =
      ground (arith, queued-append f.messages (m ∷ []), writing-append f.writing (head m ∷ []))

  present-call : (f : Frame) (d : ℕ) → present (call f d) ≡ present f + count c (d ∷ [])
  unfolding call
  present-call f d = omega (arith, count-append c f.called (d ∷ []))

  present-finalize : (f : Frame) → present (finalize f) ≡ present f
  unfolding finalize
  present-finalize f = ground arith

  present-send_close :
      (f : Frame) (d : ℕ) (awaiting : Bool)
      → present (send_close f d awaiting) ≡ present f + count c (d ∷ [])
  unfolding send_close
  present-send_close f d awaiting = ground (
    arith,
    present-call f d,
    present-send (finalize f) (close_message d) awaiting,
    present-finalize f,
  )

  present-test_close : (f : Frame) (d : ℕ) → present (test_close f d) ≡ present f + count c (d ∷ [])
  unfolding test_close
  present-test_close f d =
      ground (arith, present-call f d, closing-append f.closings (tested d ∷ []))

  present-close_on :
      (f : Frame) (ks : List CloseCall) (awaiting : Bool)
      → f.closings ≡ ks
      → present (close_on f ks awaiting) ≡ present f
  unfolding close_on
  present-close_on f [] awaiting e = refl
  present-close_on f (tested d ∷ ks) awaiting e = omega (
    arith,
    present-finalize (record f { closings = finalized d ∷ ks }),
    ap (λ (x : List CloseCall). count c (closing_callbacks x)) e,
  )
  present-close_on f (finalized d ∷ ks) awaiting e = omega (
    arith,
    present-send (record f { closings = ks }) (close_message d) awaiting,
    ap (λ (x : List CloseCall). count c (closing_callbacks x)) e,
  )

  present-close_later :
      (f : Frame) (ks : List CloseCall) → f.closings ≡ ks → present (close_later f ks) ≡ present f
  unfolding close_later
  present-close_later f [] e = refl
  present-close_later f (k ∷ ks) e = omega (
    arith,
    closing-append (k ∷ []) ks,
    closing-append ks (k ∷ []),
    ap (λ (x : List CloseCall). count c (closing_callbacks x)) e,
  )

  present-complete :
      (f : Frame) (m : Message) → present (complete f m) ≡ present f + count c (m.callback ∷ [])
  unfolding complete
  present-complete f m = present-call (completed f) m.callback

  present-fail :
      (f : Frame) (m : Message) → present (fail f m) ≡ present f + count c (m.callback ∷ [])
  unfolding fail
  present-fail f m = present-call (failed f) m.callback

  present-on_event :
      (f : Frame) (p : Part) (event : Event)
      → present (on_event f p event) ≡ present f + count c ((message_of p).callback ∷ [])
  unfolding on_event after_part
  present-on_event f (payload m) done = present-complete (put f (bytes_of (payload m))) m
  present-on_event f (head m) done =
      if_both (λ g. present g ≡ present f + count c (m.callback ∷ [])) (length m.buffer == 0)
        (λ h. present-complete (put f (bytes_of (head m))) m) (λ h. omega arith)
  present-on_event f p (error n) = present-fail (put f (take n (bytes_of p))) (message_of p)
  present-on_event f p (skip n) = present-complete (put f (take n (bytes_of p))) (message_of p)

  present-written :
      (f : Frame) (event : Event) (ps : List Part)
      → f.writing ≡ ps
      → present (written f ps event) ≡ present f
  unfolding written
  present-written f event [] e = refl
  present-written f event (p ∷ ps) e = omega (
    arith,
    present-on_event (record f { writing = ps }) p event,
    ap (λ (x : List Part). count c (part_callbacks x)) e,
  )

  present-dequeue :
      (f : Frame) (n : ℕ) (awaiting : Bool) → present (dequeue f n awaiting) ≡ present f
  unfolding dequeue
  present-dequeue f zero awaiting = refl
  present-dequeue f (suc n) awaiting =
      if_both (λ g. present g ≡ present f) (f.busy || awaiting) (λ h. refl)
        (λ h. popped f.messages refl)
    where
      popped :
          (ms : List Message)
          → f.messages ≡ ms
          → present (pop (record f { finishing = n }) ms) ≡ present f
      popped [] e = refl
      popped (m ∷ ms) e = omega (
        arith,
        queued-append f.taken (m ∷ []),
        ap (λ (x : List Message). count c (callbacks x)) e,
      )

  present-resend :
      (f : Frame) (awaiting : Bool) (ms : List Message)
      → f.taken ≡ ms
      → present (resend f ms awaiting) ≡ present f
  unfolding resend
  present-resend f awaiting [] e = refl
  present-resend f awaiting (m ∷ ms) e = omega (
    arith,
    present-send (record f { taken = ms }) m awaiting,
    ap (λ (x : List Message). count c (callbacks x)) e,
  )

  present-overtake :
      (f : Frame) (ms : List Message) → f.taken ≡ ms → present (overtake f ms) ≡ present f
  unfolding overtake
  present-overtake f [] e = refl
  present-overtake f (m ∷ ms) e =
      omega (arith, queued-append ms (m ∷ []), ap (λ (x : List Message). count c (callbacks x)) e)

  present-step : (f : Frame) (s : Step) → present (step f s) ≡ present f + count c (given (s ∷ []))
  unfolding step
  present-step f (sends m awaiting) = present-send f m awaiting
  present-step f (send_closes d awaiting) = present-send_close f d awaiting
  present-step f (tests_close d) = present-test_close f d
  present-step f (closes_on awaiting) = omega (arith, present-close_on f f.closings awaiting refl)
  present-step f closes_later = omega (arith, present-close_later f f.closings refl)
  present-step f (writes event) = omega (arith, present-written f event f.writing refl)
  present-step f (dequeues awaiting) = omega (arith, present-dequeue f f.finishing awaiting)
  present-step f (resends awaiting) = omega (arith, present-resend f awaiting f.taken refl)
  present-step f overtakes = omega (arith, present-overtake f f.taken refl)
  present-step f finalizes = omega (arith, present-finalize f)
  present-step f (breaks t a) = omega arith

  given-cons :
      (s : Step) (ss : List Step)
      → count c (given (s ∷ ss)) ≡ count c (given (s ∷ [])) + count c (given ss)
  given-cons (sends m awaiting) ss = omega arith
  given-cons (send_closes d awaiting) ss = omega arith
  given-cons (tests_close d) ss = omega arith
  given-cons (closes_on awaiting) ss = omega arith
  given-cons closes_later ss = omega arith
  given-cons (writes event) ss = omega arith
  given-cons (dequeues awaiting) ss = omega arith
  given-cons (resends awaiting) ss = omega arith
  given-cons overtakes ss = omega arith
  given-cons finalizes ss = omega arith
  given-cons (breaks t a) ss = omega arith

  -- Whatever the order of the steps of a connection, failed and cancelled writes included, a
  -- callback is queued, on its way, in the hand of dequeue or of a send_close that is
  -- interrupted, and called, together exactly as often as it was before and has been given to
  -- send and send_close since.
  pub present-run :
      (f : Frame) (ss : List Step) → present (run f ss) ≡ present f + count c (given ss)
  unfolding run
  present-run f [] = omega arith
  present-run f (s ∷ ss) =
      omega (arith, present-step f s, present-run (step f s) ss, given-cons s ss)
