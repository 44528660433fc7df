-- ===== src/Uplinks/Examples.antt =====
-- Runs of the theorems on the pool of connections at a concrete sequence of calls.
use vitex.Common.{◌+◌, ◌≡◌, ◌≤◌, refl, arith, List, [], ◌∷◌, ◌++◌, none, some}
use vitex.Uplinks.Entries.{SocketAddress}
use vitex.Uplinks.{
  create, destroy, error, Call, pushes, pops, wakes, limits, run, get_size, push_connection,
}
use vitex.Uplinks.Counting.{count}
use vitex.Uplinks.Callbacks.{called, asked, all_called-destroy}
use vitex.Uplinks.Streams.{handed, pushed, stored, handed_over}
use vitex.Uplinks.Invariant.{IsValid, run-IsValid}
use vitex.Uplinks.Served.{served, asked_at, served_in_order}
use vitex.Uplinks.Order.{waiting_at}

-- The hosts "a" at port 80 and "b" without a port.
abbrev first_host : SocketAddress
first_host = record { hostname = some (97 ∷ []); ip_port = some 80 }

abbrev second_host : SocketAddress
second_host = record { hostname = some (98 ∷ []); ip_port = none }

-- The first callback goes on alone, the second and third wait; the second gets socket 7, the third
-- nothing, and socket 8 is kept until it fails.
abbrev calls : List Call
calls =
    limits 0
    ∷ pops first_host 1
    ∷ pops first_host 2
    ∷ pops first_host 3
    ∷ pushes first_host (some 7)
    ∷ pushes second_host (some 8)
    ∷ pushes first_host none
    ∷ pops first_host 4
    ∷ wakes (98 ∷ []) 8 error
    ∷ []

create-IsValid : IsValid 1 create
create-IsValid = record { limit = omega arith; sound = tt }

all_called-destroy_example :
    count 4 (called ((run create calls).1 ++ (destroy (run create calls).0).calls))
    ≡ count 4 (asked calls)
all_called-destroy_example = all_called-destroy 4 calls

handed_over_example :
    count 7 (handed (run create calls).1) + stored 7 (run create calls).0
    ≤ stored 7 create + count 7 (pushed calls)
handed_over_example = handed_over 7 create calls

run-IsValid_example : IsValid 1 (run create calls).0
run-IsValid_example = run-IsValid 1 create calls create-IsValid (omega arith, tt)

served_in_order_example :
    served (97 ∷ 58 ∷ 56 ∷ 48 ∷ []) create calls
      ++ waiting_at (97 ∷ 58 ∷ 56 ∷ 48 ∷ []) (run create calls).0
    ≡ waiting_at (97 ∷ 58 ∷ 56 ∷ 48 ∷ []) create ++ asked_at (97 ∷ 58 ∷ 56 ∷ 48 ∷ []) calls
served_in_order_example =
    served_in_order (97 ∷ 58 ∷ 56 ∷ 48 ∷ []) 1 create calls create-IsValid (omega arith, tt)
      (λ e. ground arith) (λ e. ground arith, tt)

-- Socket 7 went to callback 2, and 4 waits; both hosts have an entry at first, and one at the end.
calls_test : (run create calls).1 ≡ (1, none) ∷ (2, some 7) ∷ (3, none) ∷ []
unfolding run get_size push_connection
calls_test = refl

size_test : get_size (run create calls).0 ≡ 1
unfolding run get_size push_connection
size_test = refl
