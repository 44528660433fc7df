-- ===== src/WebSocket/Sending/Frames.antt =====
-- The bytes of frames that go out one behind the other.
use vitex.Common.{ℕ, ◌≡◌, arith, refl, ap, sym, ◌∙◌, List, [], ◌∷◌, ◌++◌, true, ◌==◌}
use vitex.Common.Lists.{length}
use vitex.WebSocket.Frame.{header}
use vitex.WebSocket.Sending.{Message}
use mathlib.Core.List.{append_assoc, append-nil}

-- The frames of messages, one behind the other.
abbrev pub frames : List Message → List ℕ
frames [] = []
frames (m ∷ ms) = (header m.mask (length m.buffer) m.opcode ++ m.buffer) ++ frames ms

pub frames-append : (ms ns : List Message) → frames (ms ++ ns) ≡ frames ms ++ frames ns
frames-append [] ns = refl
frames-append (m ∷ ms) ns =
    ap (λ (t : List ℕ). (header m.mask (length m.buffer) m.opcode ++ m.buffer) ++ t)
      (frames-append ms ns)
    ∙ sym (
        append_assoc (header m.mask (length m.buffer) m.opcode ++ m.buffer) (frames ms) (frames ns))

-- A frame that is out is the next one.
pub frame_out :
    (out : List Message) (m : Message) (w : List ℕ)
    → w ≡ frames out
    → (w ++ header m.mask (length m.buffer) m.opcode) ++ m.buffer ≡ frames (out ++ m ∷ [])
frame_out out m w e =
    append_assoc w (header m.mask (length m.buffer) m.opcode) m.buffer
    ∙ ap (λ (t : List ℕ). t ++ (header m.mask (length m.buffer) m.opcode ++ m.buffer)) e
    ∙ ap (λ (t : List ℕ). frames out ++ t)
        (sym (append-nil (header m.mask (length m.buffer) m.opcode ++ m.buffer)))
    ∙ sym (frames-append out (m ∷ []))

pub no_bytes : (bs : List ℕ) → (length bs == 0) ≡ true → bs ≡ []
no_bytes [] e = refl
no_bytes (b ∷ bs) e = absurd (ground arith)

-- A frame without a payload is out with its header.
pub header_only :
    (out : List Message) (m : Message) (w : List ℕ)
    → w ≡ frames out
    → (length m.buffer == 0) ≡ true
    → w ++ header m.mask (length m.buffer) m.opcode ≡ frames (out ++ m ∷ [])
header_only out m w z h =
    sym (append-nil (w ++ header m.mask (length m.buffer) m.opcode))
    ∙ ap (λ (t : List ℕ). (w ++ header m.mask (length m.buffer) m.opcode) ++ t)
        (sym (no_bytes m.buffer h))
    ∙ frame_out out m w z
