-- ===== src/WebSocket/Sending/Closing.antt =====
-- What becomes of the messages that wait when the connection starts to close.
use vitex.Common.{
  ℕ, suc, ◌≡◌, arith, refl, ap, sym, ◌∙◌, List, [], ◌∷◌, ◌++◌, Bool, true, false, ◌==◌, ◌||◌,
  if◌then◌else◌, if_both,
}
use vitex.Common.Lists.{length, take}
use vitex.WebSocket.Sending.{
  Message, closed, Frame, Part, head, payload, message_of, bytes_of, put, send, call, close_message,
  is_healthy, is_closed, is_ignore, finalize, send_close, test_close, close_on, close_later,
  CloseCall, tested, finalized, completed, complete, failed, fail, after_part, Event, done, error,
  skip, on_event, written, dequeue, resend, overtake, Step, sends, send_closes, tests_close,
  closes_on, closes_later, writes, dequeues, resends, overtakes, finalizes, breaks, step, run,
}
use mathlib.Core.Path.{subst}
use mathlib.Core.List.{append_assoc, append-nil}

-- The frame is closing, no dequeue is due, and the queue begins with these messages.
pub record Keeps (queue : List Message) (f : Frame) : Type 0 where
  pub is_closing : is_closed f.state ≡ true
  pub none_due : f.finishing ≡ 0
  pub none_taken : f.taken ≡ []
  pub more : List Message
  pub queued : f.messages ≡ queue ++ more

module _ (queue : List Message) where
  -- What leaves the state, the queue and the dequeues alone.
  alike :
      (f g : Frame)
      → is_closed g.state ≡ is_closed f.state
      → g.finishing ≡ f.finishing
      → g.taken ≡ f.taken
      → g.messages ≡ f.messages
      → Keeps queue f
      → Keeps queue g
  alike f g s n t m k = record {
    is_closing = s ∙ k.is_closing;
    none_due = n ∙ k.none_due;
    none_taken = t ∙ k.none_taken;
    more = k.more;
    queued = m ∙ k.queued;
  }

  send-Keeps :
      (f : Frame) (m : Message) (awaiting : Bool) → Keeps queue f → Keeps queue (send f m awaiting)
  unfolding send
  send-Keeps f m awaiting k =
      if_both (Keeps queue) (f.busy || awaiting)
        (λ h. record {
          is_closing = k.is_closing;
          none_due = k.none_due;
          none_taken = k.none_taken;
          more = k.more ++ m ∷ [];
          queued =
              ap (λ (t : List Message). t ++ m ∷ []) k.queued ∙ append_assoc queue k.more (m ∷ []);
        })
        (λ h.
          alike f (record f { busy = true; writing = f.writing ++ head m ∷ [] }) refl refl refl refl
            k)

  finalize-Keeps : (f : Frame) → Keeps queue f → Keeps queue (finalize f)
  unfolding finalize
  finalize-Keeps f k =
      if_both (Keeps queue) (is_healthy f.tunneling)
        (λ h. alike f (record f { state = closed }) (sym k.is_closing) refl refl refl k) (λ h. k)

  call-Keeps : (f : Frame) (c : ℕ) → Keeps queue f → Keeps queue (call f c)
  unfolding call
  call-Keeps f c k = alike f (record f { called = f.called ++ c ∷ [] }) refl refl refl refl k

  send_close-Keeps :
      (f : Frame) (c : ℕ) (awaiting : Bool) → Keeps queue f → Keeps queue (send_close f c awaiting)
  unfolding send_close
  send_close-Keeps f c awaiting k =
      if_both (Keeps queue) f.deadly (λ h. call-Keeps f c k)
        (λ h.
          if_both (Keeps queue)
            (is_closed f.state || (if is_healthy f.tunneling then false else true))
            (λ h. call-Keeps f c k)
            (λ h.
              if_both (Keeps queue) f.active
                (λ h. send-Keeps (finalize f) (close_message c) awaiting (finalize-Keeps f k))
                (λ h. call-Keeps f c k)))

  test_close-Keeps : (f : Frame) (c : ℕ) → Keeps queue f → Keeps queue (test_close f c)
  unfolding test_close
  test_close-Keeps f c k =
      if_both (Keeps queue) f.deadly (λ h. call-Keeps f c k)
        (λ h.
          if_both (Keeps queue)
            (is_closed f.state || (if is_healthy f.tunneling then false else true))
            (λ h. call-Keeps f c k)
            (λ h.
              if_both (Keeps queue) f.active
                (λ h.
                  alike f (record f { closings = f.closings ++ tested c ∷ [] }) refl refl refl refl
                    k)
                (λ h. call-Keeps f c k)))

  close_on-Keeps :
      (f : Frame) (ks : List CloseCall) (awaiting : Bool)
      → Keeps queue f
      → Keeps queue (close_on f ks awaiting)
  unfolding close_on
  close_on-Keeps f [] awaiting k = k
  close_on-Keeps f (tested c ∷ ks) awaiting k =
      finalize-Keeps (record f { closings = finalized c ∷ ks })
        (alike f (record f { closings = finalized c ∷ ks }) refl refl refl refl k)
  close_on-Keeps f (finalized c ∷ ks) awaiting k =
      send-Keeps (record f { closings = ks }) (close_message c) awaiting
        (alike f (record f { closings = ks }) refl refl refl refl k)

  close_later-Keeps :
      (f : Frame) (ks : List CloseCall) → Keeps queue f → Keeps queue (close_later f ks)
  unfolding close_later
  close_later-Keeps f [] k = k
  close_later-Keeps f (c ∷ ks) k =
      alike f (record f { closings = ks ++ c ∷ [] }) refl refl refl refl k

  closing-is_ignore : (f : Frame) → is_closed f.state ≡ true → is_ignore f ≡ true
  closing-is_ignore f e = ground (arith, e)

  complete-Keeps : (f : Frame) (m : Message) → Keeps queue f → Keeps queue (complete f m)
  unfolding complete
  complete-Keeps f m k = call-Keeps (completed f) m.callback (
      alike f (completed f) refl
        (ap (λ (b : Bool). if b then f.finishing else suc f.finishing)
          (closing-is_ignore f k.is_closing))
        refl refl k)

  put-Keeps : (f : Frame) (bytes : List ℕ) → Keeps queue f → Keeps queue (put f bytes)
  put-Keeps f bytes k = alike f (put f bytes) refl refl refl refl k

  on_event-Keeps :
      (f : Frame) (p : Part) (event : Event) → Keeps queue f → Keeps queue (on_event f p event)
  unfolding on_event after_part fail
  on_event-Keeps f (payload m) done k = complete-Keeps _ m (put-Keeps f (bytes_of (payload m)) k)
  on_event-Keeps f (head m) done k =
      if_both (Keeps queue) (length m.buffer == 0)
        (λ h. complete-Keeps _ m (put-Keeps f (bytes_of (head m)) k))
        (λ h. alike f _ refl refl refl refl k)
  on_event-Keeps f p (error n) k =
      call-Keeps _ (message_of p).callback
        (alike f (failed (put f (take n (bytes_of p)))) refl refl refl refl k)
  on_event-Keeps f p (skip n) k =
      complete-Keeps _ (message_of p) (put-Keeps f (take n (bytes_of p)) k)

  written-Keeps :
      (f : Frame) (ps : List Part) (event : Event)
      → Keeps queue f
      → Keeps queue (written f ps event)
  unfolding written
  written-Keeps f [] event k = k
  written-Keeps f (p ∷ ps) event k =
      on_event-Keeps (record f { writing = ps }) p event
        (alike f (record f { writing = ps }) refl refl refl refl k)

  step-Keeps : (f : Frame) (s : Step) → Keeps queue f → Keeps queue (step f s)
  unfolding step dequeue resend overtake
  step-Keeps f (sends m awaiting) k = send-Keeps f m awaiting k
  step-Keeps f (send_closes c awaiting) k = send_close-Keeps f c awaiting k
  step-Keeps f (tests_close c) k = test_close-Keeps f c k
  step-Keeps f (closes_on awaiting) k = close_on-Keeps f f.closings awaiting k
  step-Keeps f closes_later k = close_later-Keeps f f.closings k
  step-Keeps f (writes event) k = written-Keeps f f.writing event k
  step-Keeps f (dequeues awaiting) k =
      subst (Keeps queue) (sym (ap (λ (n : ℕ). dequeue f n awaiting) k.none_due)) k
  step-Keeps f (resends awaiting) k =
      subst (Keeps queue) (sym (ap (λ (t : List Message). resend f t awaiting) k.none_taken)) k
  step-Keeps f overtakes k = subst (Keeps queue) (sym (ap (overtake f) k.none_taken)) k
  step-Keeps f finalizes k = finalize-Keeps f k
  step-Keeps f (breaks t a) k =
      alike f (record f { tunneling = t; active = a }) refl refl refl refl k

  run-Keeps : (f : Frame) (ss : List Step) → Keeps queue f → Keeps queue (run f ss)
  unfolding run
  run-Keeps f [] k = k
  run-Keeps f (s ∷ ss) k = run-Keeps (step f s) ss (step-Keeps f s k)

module _ (f : Frame) (c : ℕ) (awaiting : Bool) (ignored : is_ignore f ≡ false)
    (busy : f.busy ≡ true) (none_due : f.finishing ≡ 0) (none_taken : f.taken ≡ []) where
  Waits : Frame → Type 0
  Waits g = Keeps (f.messages ++ close_message c ∷ []) g

  healthy_lem : is_healthy f.tunneling ≡ true
  healthy_lem = ground (arith, ignored)

  close_queued : Waits (send (record f { state = closed }) (close_message c) awaiting)
  unfolding send Waits
  close_queued =
      if_both (λ g. Waits g) (f.busy || awaiting)
        (λ h. record {
          is_closing = refl;
          none_due = none_due;
          none_taken = none_taken;
          more = [];
          queued = sym (append-nil (f.messages ++ close_message c ∷ []));
        })
        (λ h. absurd (ground (arith, h, busy)))

  send_close-Waits : f.active ≡ true → Waits (send_close f c awaiting)
  unfolding send_close finalize
  send_close-Waits active =
      if_both Waits f.deadly (λ h. absurd (ground (arith, h, ignored)))
        (λ h.
          if_both Waits (is_closed f.state || (if is_healthy f.tunneling then false else true))
            (λ h2. absurd (ground (arith, h2, h, ignored)))
            (λ h2.
              if_both Waits f.active
                (λ h3.
                  if_both (λ g. Waits (send g (close_message c) awaiting)) (is_healthy f.tunneling)
                    (λ h4. close_queued) (λ h4. absurd (ground (arith, h4, healthy_lem))))
                (λ h3. absurd (ground (arith, h3, active)))))

-- Where send_close is called on an open connection while a message is being written and no
-- dequeue is due, the closing frame and the messages that wait before it stay in the queue for
-- ever: whatever steps follow, they are still its first messages, none is popped, and no dequeue
-- becomes due. The state is not set to another one by update meanwhile.
pub send_close_stuck :
    (f : Frame) (c : ℕ) (awaiting : Bool) (ss : List Step)
    → is_ignore f ≡ false
    → f.active ≡ true
    → f.busy ≡ true
    → f.finishing ≡ 0
    → f.taken ≡ []
    → Keeps (f.messages ++ close_message c ∷ []) (run (send_close f c awaiting) ss)
unfolding Waits
send_close_stuck f c awaiting ss i a b n t =
    run-Keeps (f.messages ++ close_message c ∷ []) (send_close f c awaiting) ss
      (send_close-Waits f c awaiting i b n t a)
