-- ===== src/WebSocket/Update/Calls.antt =====
-- How often the hooks that are called once have been called, and whether they are still set.
use vitex.Common.{ℕ, ◌+◌, ◌≡◌, ◌∙◌, arith, refl, ap, List, [], ◌∷◌, ◌++◌, Bool, true, false}
use vitex.WebSocket.Update.{
  Call, connects, befores, disconnects, receives, closes, listens, nexts, pongs, send_closes,
  Socket, call,
}

-- How often each of the hooks that are called once stands among calls.
abbrev pub connected : Call → ℕ
connected connects = 1
connected befores = 0
connected disconnects = 0
connected (receives o bytes) = 0
connected (closes b) = 0
connected listens = 0
connected nexts = 0
connected pongs = 0
connected send_closes = 0

abbrev pub announced : Call → ℕ
announced befores = 1
announced connects = 0
announced disconnects = 0
announced (receives o bytes) = 0
announced (closes b) = 0
announced listens = 0
announced nexts = 0
announced pongs = 0
announced send_closes = 0

abbrev pub disconnected : Call → ℕ
disconnected disconnects = 1
disconnected befores = 0
disconnected connects = 0
disconnected (receives o bytes) = 0
disconnected (closes b) = 0
disconnected listens = 0
disconnected nexts = 0
disconnected pongs = 0
disconnected send_closes = 0

abbrev pub tally : (Call → ℕ) → List Call → ℕ
tally f [] = 0
tally f (c ∷ cs) = f c + tally f cs

tally-append : (f : Call → ℕ) (cs ds : List Call) → tally f (cs ++ ds) ≡ tally f cs + tally f ds
tally-append f [] ds = omega arith
tally-append f (c ∷ cs) ds = omega (arith, tally-append f cs ds)

abbrev pub one_if : Bool → ℕ
one_if true = 1
one_if false = 0

-- The hook connect, the hook before_disconnect and the hook disconnect: called so far, and still set.
abbrev pub of_connect : Socket → ℕ
of_connect s = tally connected s.calls + one_if s.connect

abbrev pub of_before : Socket → ℕ
of_before s = tally announced s.calls + one_if s.before_disconnect

abbrev pub of_disconnect : Socket → ℕ
of_disconnect s = tally disconnected s.calls + one_if s.disconnect

pub record Keeps (s r : Socket) : Type 0 where
  pub connect : of_connect r ≡ of_connect s
  pub before : of_before r ≡ of_before s
  pub disconnect : of_disconnect r ≡ of_disconnect s

-- One more call, and the hooks that are still set behind it.
pub adds_call :
    (s r : Socket) (c : Call)
    → r.calls ≡ s.calls ++ c ∷ []
    → connected c + one_if r.connect ≡ one_if s.connect
    → announced c + one_if r.before_disconnect ≡ one_if s.before_disconnect
    → disconnected c + one_if r.disconnect ≡ one_if s.disconnect
    → Keeps s r
adds_call s r c e x y z = record {
  connect = omega (arith, ap (tally connected) e, tally-append connected s.calls (c ∷ []), x);
  before = omega (arith, ap (tally announced) e, tally-append announced s.calls (c ∷ []), y);
  disconnect =
      omega (arith, ap (tally disconnected) e, tally-append disconnected s.calls (c ∷ []), z);
}

pub Keeps-trans : (s r t : Socket) → Keeps s r → Keeps r t → Keeps s t
Keeps-trans s r t k l = record {
  connect = l.connect ∙ k.connect;
  before = l.before ∙ k.before;
  disconnect = l.disconnect ∙ k.disconnect;
}

pub Keeps-refl : (s : Socket) → Keeps s s
Keeps-refl s = record { connect = refl; before = refl; disconnect = refl }

-- Calls that are none of the three hooks.
pub other_call :
    (s : Socket) (c : Call)
    → connected c ≡ 0
    → announced c ≡ 0
    → disconnected c ≡ 0
    → Keeps s (call s c)
other_call s c x y z =
    adds_call s (call s c) c refl (omega (arith, x)) (omega (arith, y)) (omega (arith, z))
