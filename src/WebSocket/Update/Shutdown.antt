-- ===== src/WebSocket/Update/Shutdown.antt =====
-- How a connection that is closing, or whose tunnel is broken, comes to its end.
use vitex.Common.{
  ℕ, ◌+◌, ◌≡◌, ◌∙◌, arith, refl, ap, sym, List, [], ◌∷◌, ◌++◌, Bool, true, false, not,
  if◌then◌else◌, Option, some, ◌>>=◌,
}
use vitex.Common.Lists.{length}
use vitex.WebSocket.Codec.{Codec}
use vitex.WebSocket.Sending.{State, closed, Tunnel, healthy, closing, gone}
use vitex.WebSocket.Update.{
  Call, befores, disconnects, closes, Socket, World, is_gone, set_closing, close_down, by_state,
  turn, after_turn, loop, update,
}
use vitex.WebSocket.Update.Calls.{one_if}
use vitex.WebSocket.Update.Total.{effective}
use mathlib.Core.List.{append_assoc, append-nil}

-- Updates, one after the other, each with a round as fuel.
abbrev pub updates : List World → Socket → Option Socket
updates [] s = some s
updates (w ∷ ws) s = update 1 w s >>= updates ws

abbrev pub hooks_left : Socket → ℕ
hooks_left s = one_if s.before_disconnect + one_if s.disconnect

-- The calls that a closing connection still makes.
abbrev pub last_calls : Socket → List Call
last_calls s =
    (if s.before_disconnect then befores ∷ [] else [])
    ++ ((if s.disconnect then disconnects ∷ [] else [])
        ++ (if s.lifetime_close then closes (not (is_gone s.tunneling)) ∷ [] else []))

closing_update :
    (w : World) (s : Socket) → effective w s ≡ closed → update 1 w s ≡ some (close_down s)
unfolding update loop turn after_turn by_state
closing_update w s e = rw (turn, e) refl

-- A connection that has come to its end.
pub record IsOver (s r : Socket) : Type 0 where
  pub calls : r.calls ≡ s.calls ++ last_calls s
  pub tunneling : r.tunneling ≡ gone
  pub active : r.active ≡ false

End : List World → Socket → Type 0
End ws s = (r : Socket) × (updates ws s ≡ some r) × IsOver s r

-- One update with a hook to call, and those behind it.
further :
    (w : World) (ws : List World) (s r : Socket) (c : Call)
    → effective w s ≡ closed
    → close_down s ≡ r
    → r.calls ≡ s.calls ++ c ∷ []
    → last_calls s ≡ c ∷ last_calls r
    → End ws r
    → End (w ∷ ws) s
unfolding End
further w ws s r c e step added left (o, run, over) = (
  o,
  ap (λ (x : Option Socket). x >>= updates ws) (closing_update w s e ∙ ap some step) ∙ run,
  record {
    calls =
        over.calls
        ∙ ap (λ (t : List Call). t ++ last_calls r) added
        ∙ append_assoc s.calls (c ∷ []) (last_calls r)
        ∙ ap (λ (t : List Call). s.calls ++ t) (sym left);
    tunneling = over.tunneling;
    active = over.active;
  },
)

abbrev socket :
    State → Tunnel → Bool → Bool → Bool → Bool → Bool → Bool → Codec → List Call → Socket
socket state tunneling active connect before disconnect receive_hook lifetime_close codec calls =
    record {
      state = state;
      tunneling = tunneling;
      active = active;
      connect = connect;
      before_disconnect = before;
      disconnect = disconnect;
      receive_hook = receive_hook;
      lifetime_close = lifetime_close;
      codec = codec;
      calls = calls;
    }

not_healthy :
    (w : World) (s : Socket) (t : Tunnel) → s.tunneling ≡ set_closing t → effective w s ≡ closed
not_healthy w s healthy e = rw e refl
not_healthy w s closing e = rw e refl
not_healthy w s gone e = rw e refl

same_end : (t : Tunnel) → is_gone t ≡ is_gone (set_closing t)
same_end healthy = refl
same_end closing = refl
same_end gone = refl

module _ (st : State) (c : Bool) (k : Codec) where
  last_update :
      (w : World) (t : Tunnel) (a r l : Bool) (cs : List Call)
      → effective w (socket st t a c false false r l k cs) ≡ closed
      → End (w ∷ []) (socket st t a c false false r l k cs)
  unfolding close_down End
  last_update w t a r true cs e = (
    _,
    ap (λ (x : Option Socket). x >>= updates [])
        (closing_update w (socket st t a c false false r true k cs) e),
    record { calls = refl; tunneling = refl; active = refl },
  )
  last_update w t a r false cs e = (
    _,
    ap (λ (x : Option Socket). x >>= updates [])
        (closing_update w (socket st t a c false false r false k cs) e),
    record { calls = sym (append-nil cs); tunneling = refl; active = refl },
  )

  disconnect_update :
      (w : World) (ws : List World) (t : Tunnel) (a d r l : Bool) (cs : List Call)
      → length ws ≡ one_if d
      → effective w (socket st t a c false d r l k cs) ≡ closed
      → End (w ∷ ws) (socket st t a c false d r l k cs)
  unfolding close_down
  disconnect_update w [] t a false r l cs n e = last_update w t a r l cs e
  disconnect_update w (v ∷ ws) t a false r l cs n e = absurd (omega arith)
  disconnect_update w [] t a true r l cs n e = absurd (omega arith)
  disconnect_update w (v ∷ []) t a true r l cs n e =
      further w (v ∷ []) (socket st t a c false true r l k cs)
        (socket st (set_closing t) a c false false false l k (cs ++ disconnects ∷ [])) disconnects e
        refl refl
        (ap (λ (g : Bool). disconnects ∷ (if l then closes (not g) ∷ [] else [])) (same_end t))
        (last_update v (set_closing t) a false l (cs ++ disconnects ∷ []) (
          not_healthy v
            (socket st (set_closing t) a c false false false l k (cs ++ disconnects ∷ [])) t refl))
  disconnect_update w (v ∷ u ∷ ws) t a true r l cs n e = absurd (omega arith)

  before_update :
      (w : World) (ws : List World) (t : Tunnel) (a b d r l : Bool) (cs : List Call)
      → length ws ≡ one_if b + one_if d
      → effective w (socket st t a c b d r l k cs) ≡ closed
      → End (w ∷ ws) (socket st t a c b d r l k cs)
  unfolding close_down
  before_update w ws t a false d r l cs n e =
      disconnect_update w ws t a d r l cs (omega (arith, n)) e
  before_update w [] t a true d r l cs n e = absurd (omega arith)
  before_update w (v ∷ ws) t a true d r l cs n e =
      further w (v ∷ ws) (socket st t a c true d r l k cs)
        (socket st (set_closing t) a c false d r l k (cs ++ befores ∷ [])) befores e refl refl
        (ap
          (λ (g : Bool).
            befores
            ∷ ((if d then disconnects ∷ [] else []) ++ (if l then closes (not g) ∷ [] else [])))
          (same_end t))
        (disconnect_update v ws (set_closing t) a d r l (cs ++ befores ∷ []) (omega arith)
          (not_healthy v (socket st (set_closing t) a c false d r l k (cs ++ befores ∷ [])) t refl))

-- A connection whose state is close or whose tunnel is not healthy comes to its end with one
-- update for each of the hooks before_disconnect and disconnect that is set and one more: these
-- hooks are called first, in this order, then lifetime.close, where it is set, with true exactly
-- where the tunnel was not gone before; then the tunnel is gone and the connection is not active.
-- One round is enough fuel for each of these updates.
pub updates_shut_down :
    (w : World) (ws : List World) (s : Socket)
    → effective w s ≡ closed
    → length ws ≡ hooks_left s
    → (r : Socket) × (updates (w ∷ ws) s ≡ some r) × IsOver s r
unfolding End
updates_shut_down w ws s e n =
    before_update s.state s.connect s.codec w ws s.tunneling s.active s.before_disconnect
      s.disconnect s.receive_hook s.lifetime_close s.calls n e
