-- ===== src/WebSocket/Update/Examples.antt =====
-- Runs of the theorems on `update` at a concrete connection.
use vitex.Common.{ℕ, ◌≡◌, refl, [], ◌∷◌, some, false, true}
use vitex.WebSocket.Codec.{Codec, text, begin}
use vitex.WebSocket.Sending.{process, closed, healthy}
use vitex.WebSocket.Update.{Socket, World, update}
use vitex.WebSocket.Update.Calls.{Keeps}
use vitex.WebSocket.Update.Hooks.{update-Keeps}
use vitex.WebSocket.Update.Shutdown.{updates, IsOver, updates_shut_down}

abbrev some_codec : Codec
some_codec = record {
  queue = [];
  remains = 0;
  opcode = text;
  state = begin;
  mask = record { m0 = 0; m1 = 0; m2 = 0; m3 = 0 };
  fragment = false;
  final = true;
  control = false;
  masked = false;
  masks = 0;
}

abbrev some_socket : Socket
some_socket = record {
  state = process;
  tunneling = healthy;
  active = true;
  connect = false;
  before_disconnect = true;
  disconnect = true;
  receive_hook = true;
  lifetime_close = true;
  codec = some_codec;
  calls = [];
}

-- A socket that gives a text "A" and has no more.
abbrev some_world : World
some_world = record {
  dead = false;
  taken_over = false;
  readings = record { buffers = (129 ∷ 1 ∷ 65 ∷ []) ∷ []; would_block = true } ∷ [];
}

update-Keeps_example :
    (fuel : ℕ) × (r : Socket) × (update fuel some_world some_socket ≡ some r) × Keeps some_socket r
update-Keeps_example = update-Keeps some_world some_socket

abbrev closed_socket : Socket
closed_socket = record some_socket { state = closed }

updates_shut_down_example :
    (r : Socket) × (updates (some_world ∷ some_world ∷ some_world ∷ []) closed_socket ≡ some r)
    × IsOver closed_socket r
updates_shut_down_example =
    updates_shut_down some_world (some_world ∷ some_world ∷ []) closed_socket refl refl
