-- ===== src/WebSocket/Sending/Wire.antt =====
-- The frames of a connection go out one behind the other.
use vitex.Common.{
  ℕ, zero, suc, ◌≡◌, arith, refl, ap, sym, ◌∙◌, List, [], ◌∷◌, ◌++◌, Bool, true, false, ◌==◌, ◌||◌,
  if◌then◌else◌, if_both,
}
use vitex.Common.Lists.{length}
use vitex.WebSocket.Frame.{header}
use vitex.WebSocket.Sending.{
  Message, Frame, Part, head, payload, bytes_of, put, send, call, close_message, finalize,
  is_healthy, is_closed, closed, send_close, test_close, close_on, close_later, CloseCall, tested,
  finalized, complete, after_part, done, error, skip, on_event, written, pop, dequeue, resend,
  overtake, Step, sends, send_closes, tests_close, closes_on, closes_later, writes, dequeues,
  resends, overtakes, finalizes, breaks, step, run,
}
use vitex.WebSocket.Sending.Frames.{frames, frame_out, header_only}
use mathlib.Core.Path.{subst}
use mathlib.Core.List.{append_assoc, append-nil}

-- The bytes that are out are the frames of messages, and at most one message is being written, with
-- nothing or just its header out.
pub data IsWhole (f : Frame) (out : List Message) : Type 0 where
  idle : f.busy ≡ false → f.writing ≡ [] → f.wire ≡ frames out → IsWhole f out
  starting :
      (m : Message) → f.busy ≡ true → f.writing ≡ head m ∷ [] → f.wire ≡ frames out → IsWhole f out
  halfway :
      (m : Message)
      → f.busy ≡ true
      → f.writing ≡ payload m ∷ []
      → f.wire ≡ frames out ++ header m.mask (length m.buffer) m.opcode
      → IsWhole f out

-- No write fails or is cancelled.
abbrev pub IsClean : Step → Type 0
IsClean (writes done) = Unit
IsClean (writes (error n)) = ⊥
IsClean (writes (skip n)) = ⊥
IsClean (sends m awaiting) = Unit
IsClean (send_closes c awaiting) = Unit
IsClean (tests_close c) = Unit
IsClean (closes_on awaiting) = Unit
IsClean closes_later = Unit
IsClean (dequeues awaiting) = Unit
IsClean (resends awaiting) = Unit
IsClean overtakes = Unit
IsClean finalizes = Unit
IsClean (breaks t a) = Unit

abbrev pub AllClean : List Step → Type 0
AllClean [] = Unit
AllClean (s ∷ ss) = IsClean s × AllClean ss

module _ (out : List Message) where
  -- What does not touch the writes keeps the frames whole.
  untouched :
      (f g : Frame)
      → g.busy ≡ f.busy
      → g.writing ≡ f.writing
      → g.wire ≡ f.wire
      → IsWhole f out
      → IsWhole g out
  untouched f g b w o (idle x y z) = idle (b ∙ x) (w ∙ y) (o ∙ z)
  untouched f g b w o (starting m x y z) = starting m (b ∙ x) (w ∙ y) (o ∙ z)
  untouched f g b w o (halfway m x y z) = halfway m (b ∙ x) (w ∙ y) (o ∙ z)

  started :
      (f : Frame) (m : Message) (awaiting : Bool)
      → (f.busy || awaiting) ≡ false
      → IsWhole f out
      → IsWhole (record f { busy = true; writing = f.writing ++ head m ∷ [] }) out
  started f m awaiting h (idle x y z) =
      starting m refl (ap (λ (ps : List Part). ps ++ head m ∷ []) y) z
  started f m awaiting h (starting n x y z) = absurd (ground (arith, h, x))
  started f m awaiting h (halfway n x y z) = absurd (ground (arith, h, x))

  send-IsWhole :
      (f : Frame) (m : Message) (awaiting : Bool) → IsWhole f out → IsWhole (send f m awaiting) out
  unfolding send
  send-IsWhole f m awaiting v =
      if_both (λ g. IsWhole g out) (f.busy || awaiting)
        (λ h. untouched f (record f { messages = f.messages ++ m ∷ [] }) refl refl refl v)
        (λ h. started f m awaiting h v)

  finalize-IsWhole : (f : Frame) → IsWhole f out → IsWhole (finalize f) out
  unfolding finalize
  finalize-IsWhole f v =
      if_both (λ g. IsWhole g out) (is_healthy f.tunneling)
        (λ h. untouched f (record f { state = closed }) refl refl refl v) (λ h. v)

  call-IsWhole : (f : Frame) (c : ℕ) → IsWhole f out → IsWhole (call f c) out
  unfolding call
  call-IsWhole f c v = untouched f (record f { called = f.called ++ c ∷ [] }) refl refl refl v

  send_close-IsWhole :
      (f : Frame) (c : ℕ) (awaiting : Bool) → IsWhole f out → IsWhole (send_close f c awaiting) out
  unfolding send_close
  send_close-IsWhole f c awaiting v =
      if_both P f.deadly (λ h. call-IsWhole f c v)
        (λ h.
          if_both P (is_closed f.state || (if is_healthy f.tunneling then false else true))
            (λ h. call-IsWhole f c v)
            (λ h.
              if_both P f.active
                (λ h. send-IsWhole (finalize f) (close_message c) awaiting (finalize-IsWhole f v))
                (λ h. call-IsWhole f c v)))
    where
      P : Frame → Type 0
      P g = IsWhole g out

  test_close-IsWhole : (f : Frame) (c : ℕ) → IsWhole f out → IsWhole (test_close f c) out
  unfolding test_close
  test_close-IsWhole f c v =
      if_both P f.deadly (λ h. call-IsWhole f c v)
        (λ h.
          if_both P (is_closed f.state || (if is_healthy f.tunneling then false else true))
            (λ h. call-IsWhole f c v)
            (λ h. if_both P f.active (λ h. waits) (λ h. call-IsWhole f c v)))
    where
      P : Frame → Type 0
      P g = IsWhole g out

      waits : IsWhole (record f { closings = f.closings ++ tested c ∷ [] }) out
      waits = untouched f (record f { closings = f.closings ++ tested c ∷ [] }) refl refl refl v

  close_on-IsWhole :
      (f : Frame) (ks : List CloseCall) (awaiting : Bool)
      → IsWhole f out
      → IsWhole (close_on f ks awaiting) out
  unfolding close_on
  close_on-IsWhole f [] awaiting v = v
  close_on-IsWhole f (tested c ∷ ks) awaiting v =
      finalize-IsWhole (record f { closings = finalized c ∷ ks })
        (untouched f (record f { closings = finalized c ∷ ks }) refl refl refl v)
  close_on-IsWhole f (finalized c ∷ ks) awaiting v =
      send-IsWhole (record f { closings = ks }) (close_message c) awaiting
        (untouched f (record f { closings = ks }) refl refl refl v)

  close_later-IsWhole :
      (f : Frame) (ks : List CloseCall) → IsWhole f out → IsWhole (close_later f ks) out
  unfolding close_later
  close_later-IsWhole f [] v = v
  close_later-IsWhole f (k ∷ ks) v =
      untouched f (record f { closings = ks ++ k ∷ [] }) refl refl refl v

  dequeue-IsWhole :
      (f : Frame) (n : ℕ) (awaiting : Bool) → IsWhole f out → IsWhole (dequeue f n awaiting) out
  unfolding dequeue
  dequeue-IsWhole f zero awaiting v = v
  dequeue-IsWhole f (suc n) awaiting v =
      if_both (λ g. IsWhole g out) (f.busy || awaiting)
        (λ h. untouched f (record f { finishing = n }) refl refl refl v) (λ h. popped f.messages)
    where
      popped : (ms : List Message) → IsWhole (pop (record f { finishing = n }) ms) out
      popped [] = untouched f (record f { finishing = n }) refl refl refl v
      popped (m ∷ ms) =
          untouched f (record f { finishing = n; messages = ms; taken = f.taken ++ m ∷ [] }) refl
            refl refl v

  resend-IsWhole :
      (f : Frame) (ms : List Message) (awaiting : Bool)
      → IsWhole f out
      → IsWhole (resend f ms awaiting) out
  unfolding resend
  resend-IsWhole f [] awaiting v = v
  resend-IsWhole f (m ∷ ms) awaiting v =
      send-IsWhole (record f { taken = ms }) m awaiting
        (untouched f (record f { taken = ms }) refl refl refl v)

  overtake-IsWhole : (f : Frame) (ms : List Message) → IsWhole f out → IsWhole (overtake f ms) out
  unfolding overtake
  overtake-IsWhole f [] v = v
  overtake-IsWhole f (m ∷ ms) v = untouched f (record f { taken = ms ++ m ∷ [] }) refl refl refl v

  complete-IsWhole :
      (f : Frame) (m : Message) (bytes : List ℕ)
      → f.writing ≡ []
      → f.wire ++ bytes ≡ frames (out ++ m ∷ [])
      → IsWhole (complete (put f bytes) m) (out ++ m ∷ [])
  unfolding complete call
  complete-IsWhole f m bytes y z = idle refl y z

Continues : List Message → Frame → Type 0
Continues out g = (more : List Message) × IsWhole g (out ++ more)

as_before : (out : List Message) (f : Frame) → IsWhole f out → Continues out f
unfolding Continues
as_before out f v = ([], rw (append-nil out) v)

head_out :
    (out : List Message) (f : Frame) (m : Message)
    → f.busy ≡ true
    → f.wire ≡ frames out
    → Continues out (written f (head m ∷ []) done)
unfolding Continues written on_event after_part bytes_of
head_out out f m x z =
    if_both (Continues out) (length m.buffer == 0)
      (λ h. (
        m ∷ [],
        complete-IsWhole out (record f { writing = [] }) m
            (header m.mask (length m.buffer) m.opcode) refl (header_only out m f.wire z h),
      ))
      (λ h.
        as_before out _
          (halfway m x refl (ap (λ (w : List ℕ). w ++ header m.mask (length m.buffer) m.opcode) z)))

payload_out :
    (out : List Message) (f : Frame) (m : Message)
    → f.wire ≡ frames out ++ header m.mask (length m.buffer) m.opcode
    → Continues out (written f (payload m ∷ []) done)
unfolding Continues written on_event after_part bytes_of
payload_out out f m z = (
  m ∷ [],
  complete-IsWhole out (record f { writing = [] }) m m.buffer refl
      (ap (λ (w : List ℕ). w ++ m.buffer) z ∙ frame_out out m (frames out) refl),
)

written-IsWhole :
    (out : List Message) (f : Frame) → IsWhole f out → Continues out (written f f.writing done)
unfolding written
written-IsWhole out f v = go v
  where
    at_parts :
        (ps : List Part)
        → f.writing ≡ ps
        → Continues out (written f ps done)
        → Continues out (written f f.writing done)
    at_parts ps y =
        subst (λ (g : Frame). Continues out g) (sym (ap (λ (q : List Part). written f q done) y))

    go : IsWhole f out → Continues out (written f f.writing done)
    go (idle x y z) = at_parts [] y (as_before out f (idle x y z))
    go (starting m x y z) = at_parts (head m ∷ []) y (head_out out f m x z)
    go (halfway m x y z) = at_parts (payload m ∷ []) y (payload_out out f m z)

step-IsWhole :
    (out : List Message) (f : Frame) (s : Step)
    → IsClean s
    → IsWhole f out
    → Continues out (step f s)
unfolding step
step-IsWhole out f (sends m awaiting) c v = as_before out _ (send-IsWhole out f m awaiting v)
step-IsWhole out f (send_closes d awaiting) c v =
    as_before out _ (send_close-IsWhole out f d awaiting v)
step-IsWhole out f (tests_close d) c v = as_before out _ (test_close-IsWhole out f d v)
step-IsWhole out f (closes_on awaiting) c v =
    as_before out _ (close_on-IsWhole out f f.closings awaiting v)
step-IsWhole out f closes_later c v = as_before out _ (close_later-IsWhole out f f.closings v)
step-IsWhole out f (writes done) c v = written-IsWhole out f v
step-IsWhole out f (writes (error n)) c v = absurd c
step-IsWhole out f (writes (skip n)) c v = absurd c
step-IsWhole out f (dequeues awaiting) c v =
    as_before out _ (dequeue-IsWhole out f f.finishing awaiting v)
step-IsWhole out f (resends awaiting) c v =
    as_before out _ (resend-IsWhole out f f.taken awaiting v)
step-IsWhole out f overtakes c v = as_before out _ (overtake-IsWhole out f f.taken v)
step-IsWhole out f finalizes c v = as_before out _ (finalize-IsWhole out f v)
step-IsWhole out f (breaks t a) c v =
    as_before out _ (untouched out f (record f { tunneling = t; active = a }) refl refl refl v)

-- As long as no write fails or is cancelled, and whatever the order in which messages are sent,
-- queued, popped and sent again by any threads, at most one message is being written, busy tells
-- whether one is, and the bytes that are out are whole frames one behind the other and at most
-- the header of the message that is being written: no two frames are mixed.
pub run-IsWhole :
    (out : List Message) (f : Frame) (ss : List Step)
    → AllClean ss
    → IsWhole f out
    → (more : List Message) × IsWhole (run f ss) (out ++ more)
unfolding run Continues
run-IsWhole out f [] c v = as_before out f v
run-IsWhole out f (s ∷ ss) (c, cs) v =
    let (more, w) = step-IsWhole out f s c v in
    let (rest, x) = run-IsWhole (out ++ more) (step f s) ss cs w in
    (more ++ rest, rw (sym (append_assoc out more rest)) x)
