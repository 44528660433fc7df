-- ===== src/Uplinks.antt =====
-- The pool of idle connections, `uplinks` of src/vitex/network.cpp, one operation for each of its
-- methods. A text is a list of bytes, a socket and a callback are numbers that name them. The lock
-- makes each operation one step; what an operation calls is in its answer, in order.
pub mod Entries
pub mod Counting
pub mod Callbacks
pub mod Streams
pub mod Find
pub mod Sound
pub mod Invariant
pub mod Order
pub mod Apart
pub mod Served
mod Examples
use vitex.Common.{
  ℕ, zero, suc, ◌+◌, ◌-◌, ◌%◌, ◌^◌, List, [], ◌∷◌, ◌++◌, Bool, true, false, leb, ◌==◌,
  if◌then◌else◌, Option, none, some,
}
use vitex.Common.Lists.{length}
use Entries.{
  SocketAddress, get_address_identification, Pool, Uplinks, find, put, erase, insert, remove,
}

-- What an operation leaves, what it returns, and its calls: a callback and the socket it is given.
pub record Answer : Type 0 where
  pub left : Uplinks
  pub result : Bool
  pub calls : List (ℕ × Option ℕ)

abbrev pub answer : Uplinks → Bool → List (ℕ × Option ℕ) → Answer
answer u b calls = record { left = u; result = b; calls = calls }

abbrev pub create : Uplinks
create = record { connections = []; max_duplicates = 1 }

abbrev pub no_pool : Pool
no_pool = record { requests = []; streams = []; duplicates = 0 }

abbrev pub is_empty : List ℕ → Bool
is_empty [] = true
is_empty (x ∷ xs) = false

abbrev pub is_some : Option ℕ → Bool
is_some none = false
is_some (some s) = true

unfoldable pub set_max_duplicates : Uplinks → ℕ → Uplinks
set_max_duplicates u max = record u { max_duplicates = (max + 1) % 2 ^ 64 }

-- `push_connection` where the name has no entry.
unfoldable pub push_new : Uplinks → List ℕ → Option ℕ → Answer
unfolding put insert
push_new u name none = answer u false []
push_new u name (some s) =
    answer
      (record u { connections = put name (record no_pool { streams = insert s [] }) u.connections })
      true []

-- `push_connection` where the name has an entry with these requests: the oldest one gets what is
-- pushed.
unfoldable pub push_pool : Uplinks → List ℕ → Pool → List ℕ → Option ℕ → Answer
unfolding put erase insert
push_pool u name pool (r ∷ rs) stream =
    answer (record u { connections = put name (record pool { requests = rs }) u.connections })
      (is_some stream) ((r, stream) ∷ [])
push_pool u name pool [] none =
    answer
      (if is_empty pool.streams then record u { connections = erase name u.connections } else u)
      false []
push_pool u name pool [] (some s) =
    if leb u.max_duplicates (length pool.streams)
    then answer u false []
    else answer
        (record u {
          connections = put name (record pool { streams = insert s pool.streams }) u.connections;
        })
        true []

unfoldable pub push_connection : Uplinks → SocketAddress → Option ℕ → Answer
unfolding get_address_identification find push_new push_pool
push_connection u address stream =
    let name = get_address_identification address in
    if u.max_duplicates == 0 then answer u false [] else elim (find name u.connections) [
      | none ↦ push_new u name stream
      | some pool ↦ push_pool u name pool pool.requests stream
    ]

-- `pop_connection_queued` where the name has an entry with these streams and duplicates.
unfoldable pub pop_pool : Uplinks → List ℕ → Pool → List ℕ → ℕ → ℕ → Answer
unfolding put
pop_pool u name pool (s ∷ ss) d callback =
    answer (record u { connections = put name (record pool { streams = ss }) u.connections }) true
      ((callback, some s) ∷ [])
pop_pool u name pool [] (suc d) callback =
    answer (record u { connections = put name (record pool { duplicates = d }) u.connections })
      false ((callback, none) ∷ [])
pop_pool u name pool [] zero callback =
    answer
      (record u {
        connections =
            put name (record pool { requests = pool.requests ++ callback ∷ [] }) u.connections;
      })
      true []

unfoldable pub pop_connection_queued : Uplinks → SocketAddress → ℕ → Answer
unfolding get_address_identification find put pop_pool
pop_connection_queued u address callback =
    let name = get_address_identification address in
    if u.max_duplicates == 0
    then answer u false ((callback, none) ∷ [])
    else elim (find name u.connections) [
      | none ↦
          answer
            (record u {
              connections =
                  put name (record no_pool { duplicates = u.max_duplicates - 1 }) u.connections;
            })
            false ((callback, none) ∷ [])
      | some pool ↦ pop_pool u name pool pool.streams pool.duplicates callback
    ]

abbrev pub refuse : List ℕ → List (ℕ × Option ℕ)
refuse [] = []
refuse (r ∷ rs) = (r, none) ∷ refuse rs

-- What wakes a listener: an error, a cancellation, or data, where the reads end because the socket
-- would block (`drained`) or because it fails (`broken`).
pub data Event : Type 0 where
  error skip drained broken : Event

-- `expire` of `listen_connection`: the entry loses its requests and the stream, and goes where no
-- stream is left.
unfoldable pub expire_pool : Uplinks → List ℕ → Pool → List ℕ → Answer
unfolding put erase
expire_pool u id pool [] =
    answer (record u { connections = erase id u.connections }) false (refuse pool.requests)
expire_pool u id pool (s ∷ ss) =
    answer
      (record u {
        connections = put id (record pool { requests = []; streams = s ∷ ss }) u.connections;
      })
      false (refuse pool.requests)

unfoldable pub expire : Uplinks → List ℕ → ℕ → Answer
unfolding find remove expire_pool
expire u id stream = elim (find id u.connections) [
  | none ↦ answer u false []
  | some pool ↦ expire_pool u id pool (remove stream pool.streams)
]

-- The listener of `listen_connection`; where it goes on listening, nothing of the pool changes.
unfoldable pub listen_connection : Uplinks → List ℕ → ℕ → Event → Answer
unfolding expire
listen_connection u id stream error = expire u id stream
listen_connection u id stream broken = expire u id stream
listen_connection u id stream skip = answer u false []
listen_connection u id stream drained = answer u false []

unfoldable pub all_requests : List (List ℕ × Pool) → List ℕ
all_requests [] = []
all_requests ((n, pool) ∷ cs) = pool.requests ++ all_requests cs

-- The destructor.
unfoldable pub destroy : Uplinks → Answer
unfolding all_requests
destroy u =
    answer (record { connections = []; max_duplicates = 0 }) false
      (refuse (all_requests u.connections))

abbrev pub get_max_duplicates : Uplinks → ℕ
get_max_duplicates u = u.max_duplicates

unfoldable pub get_size : Uplinks → ℕ
get_size u = length u.connections

-- The calls that a pool can get, from any thread and in any order.
pub data Call : Type 0 where
  pushes : SocketAddress → Option ℕ → Call
  pops : SocketAddress → ℕ → Call
  wakes : List ℕ → ℕ → Event → Call
  limits : ℕ → Call

unfoldable pub step : Uplinks → Call → Answer
unfolding push_connection pop_connection_queued listen_connection set_max_duplicates
step u (pushes address stream) = push_connection u address stream
step u (pops address callback) = pop_connection_queued u address callback
step u (wakes id stream event) = listen_connection u id stream event
step u (limits max) = answer (set_max_duplicates u max) false []

-- The pool after calls, and all that they called, in order.
unfoldable pub run : Uplinks → List Call → Uplinks × List (ℕ × Option ℕ)
unfolding step
run u [] = (u, [])
run u (c ∷ cs) = let a = step u c in let (v, later) = run a.left cs in (v, a.calls ++ later)
