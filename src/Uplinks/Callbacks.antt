-- ===== src/Uplinks/Callbacks.antt =====
-- Each callback that asks for a connection is called once.
use vitex.Common.{
  Option-cases, ℕ, zero, suc, ◌+◌, ◌≡◌, inl, inr, arith, refl, ap, List, [], ◌∷◌, ◌++◌, ◌==◌,
  if_both, Option, none, some,
}
use vitex.Uplinks.Entries.{SocketAddress, get_address_identification, Pool, Uplinks, find, insert}
use vitex.Uplinks.{
  Answer, push_pool, push_new, push_connection, create, expire_pool, pop_pool,
  pop_connection_queued, error, skip, drained, broken, expire, listen_connection, refuse,
  all_requests, destroy, Call, pushes, pops, wakes, limits, step, run, set_max_duplicates,
}
use vitex.Uplinks.Counting.{count, count-append, total, total-put_new, total-put, total-erase}

-- The callbacks among calls.
abbrev pub called : List (ℕ × Option ℕ) → List ℕ
called [] = []
called ((c, s) ∷ cs) = c ∷ called cs

pub called-append : (xs ys : List (ℕ × Option ℕ)) → called (xs ++ ys) ≡ called xs ++ called ys
called-append [] ys = refl
called-append ((c, s) ∷ xs) ys = ap (λ (t : List ℕ). c ∷ t) (called-append xs ys)

pub called-refuse : (rs : List ℕ) → called (refuse rs) ≡ rs
called-refuse [] = refl
called-refuse (r ∷ rs) = ap (λ (t : List ℕ). r ∷ t) (called-refuse rs)

-- The callbacks that a sequence of calls brings.
abbrev pub asked : List Call → List ℕ
asked [] = []
asked (pops address c ∷ cs) = c ∷ asked cs
asked (pushes address s ∷ cs) = asked cs
asked (wakes id s e ∷ cs) = asked cs
asked (limits max ∷ cs) = asked cs

-- How often a callback waits in the pool.
abbrev pub waiting : ℕ → Uplinks → ℕ
waiting c u = total (λ p. count c p.requests) u.connections

module _ (c : ℕ) where
  -- An answer that calls or keeps the requests of the pool and those that were asked.
  abbrev Keeps : Uplinks → List ℕ → Answer → Type 0
  Keeps u more a = count c (called a.calls) + waiting c a.left ≡ waiting c u + count c more

  abbrev requested : Pool → ℕ
  requested p = count c p.requests

  push_new-Keeps :
      (u : Uplinks) (name : List ℕ) (stream : Option ℕ)
      → find name u.connections ≡ none
      → Keeps u [] (push_new u name stream)
  unfolding push_new
  push_new-Keeps u name none e = omega arith
  push_new-Keeps u name (some s) e = omega (arith, total-put_new requested name u.connections _ e)

  push_pool-Keeps :
      (u : Uplinks) (name : List ℕ) (pool : Pool) (rs : List ℕ) (stream : Option ℕ)
      → find name u.connections ≡ some pool
      → pool.requests ≡ rs
      → Keeps u [] (push_pool u name pool rs stream)
  unfolding push_pool
  push_pool-Keeps u name pool (r ∷ rs) stream e q = omega (
    arith,
    total-put requested name u.connections pool (record pool { requests = rs }) e,
    ap (count c) q,
  )
  push_pool-Keeps u name pool [] none e q =
      ground (arith, total-erase requested name u.connections pool e, ap (count c) q)
  push_pool-Keeps u name pool [] (some s) e q = ground (
    arith,
    total-put requested name u.connections pool (record pool { streams = insert s pool.streams }) e,
  )

  pop_pool-Keeps :
      (u : Uplinks) (name : List ℕ) (pool : Pool) (ss : List ℕ) (d r : ℕ)
      → find name u.connections ≡ some pool
      → Keeps u (r ∷ []) (pop_pool u name pool ss d r)
  unfolding pop_pool
  pop_pool-Keeps u name pool (s ∷ ss) d r e =
      omega (arith, total-put requested name u.connections pool (record pool { streams = ss }) e)
  pop_pool-Keeps u name pool [] (suc d) r e =
      omega (arith, total-put requested name u.connections pool (record pool { duplicates = d }) e)
  pop_pool-Keeps u name pool [] zero r e = omega (
    arith,
    total-put requested name u.connections pool (record pool { requests = pool.requests ++ r ∷ [] })
        e,
    count-append c pool.requests (r ∷ []),
  )

  expire_pool-Keeps :
      (u : Uplinks) (id : List ℕ) (pool : Pool) (ss : List ℕ)
      → find id u.connections ≡ some pool
      → Keeps u [] (expire_pool u id pool ss)
  unfolding expire_pool
  expire_pool-Keeps u id pool [] e = omega (
    arith,
    total-erase requested id u.connections pool e,
    ap (count c) (called-refuse pool.requests),
  )
  expire_pool-Keeps u id pool (s ∷ ss) e = omega (
    arith,
    total-put requested id u.connections pool (record pool { requests = []; streams = s ∷ ss }) e,
    ap (count c) (called-refuse pool.requests),
  )

  push-Keeps :
      (u : Uplinks) (address : SocketAddress) (stream : Option ℕ)
      → Keeps u [] (push_connection u address stream)
  unfolding push_connection
  push-Keeps u address stream =
      if_both (Keeps u []) (u.max_duplicates == 0) (λ h. omega arith)
        (λ h. elim (Option-cases (find (get_address_identification address) u.connections)) [
          | inl e ↦ rw e (push_new-Keeps u _ stream e)
          | inr (pool, e) ↦ rw e (push_pool-Keeps u _ pool pool.requests stream e refl)
        ])

  pop-Keeps :
      (u : Uplinks) (address : SocketAddress) (r : ℕ)
      → Keeps u (r ∷ []) (pop_connection_queued u address r)
  unfolding pop_connection_queued
  pop-Keeps u address r =
      if_both (Keeps u (r ∷ [])) (u.max_duplicates == 0) (λ h. omega arith)
        (λ h. elim (Option-cases (find (get_address_identification address) u.connections)) [
          | inl e ↦ rw e (omega (arith, total-put_new requested _ u.connections _ e))
          | inr (pool, e) ↦ rw e (pop_pool-Keeps u _ pool pool.streams pool.duplicates r e)
        ])

  expire-Keeps : (u : Uplinks) (id : List ℕ) (stream : ℕ) → Keeps u [] (expire u id stream)
  unfolding expire
  expire-Keeps u id stream = elim (Option-cases (find id u.connections)) [
    | inl e ↦ rw (e, expire) (omega arith)
    | inr (pool, e) ↦ rw (e, expire) (expire_pool-Keeps u id pool _ e)
  ]

  step-Keeps : (u : Uplinks) (call : Call) → Keeps u (asked (call ∷ [])) (step u call)
  unfolding step set_max_duplicates listen_connection
  step-Keeps u (pushes address stream) = push-Keeps u address stream
  step-Keeps u (pops address r) = pop-Keeps u address r
  step-Keeps u (wakes id stream error) = expire-Keeps u id stream
  step-Keeps u (wakes id stream broken) = expire-Keeps u id stream
  step-Keeps u (wakes id stream skip) = omega arith
  step-Keeps u (wakes id stream drained) = omega arith
  step-Keeps u (limits max) = omega arith

asked-cons :
    (c : ℕ) (call : Call) (cs : List Call)
    → count c (asked (call ∷ cs)) ≡ count c (asked (call ∷ [])) + count c (asked cs)
asked-cons c (pushes address s) cs = omega arith
asked-cons c (pops address r) cs = omega arith
asked-cons c (wakes id s e) cs = omega arith
asked-cons c (limits max) cs = omega arith

-- Over any sequence of calls of the pool of connections, a callback is called and left waiting
-- together as often as it waited before and asked: no callback is lost and none is called twice.
pub called_once :
    (c : ℕ) (u : Uplinks) (cs : List Call)
    → count c (called (run u cs).1) + waiting c (run u cs).0 ≡ waiting c u + count c (asked cs)
unfolding run
called_once c u [] = omega arith
called_once c u (call ∷ cs) = omega (
  arith,
  step-Keeps c u call,
  asked-cons c call cs,
  called_once c (step u call).left cs,
  ap (count c) (called-append (step u call).calls (run (step u call).left cs).1),
  count-append c (called (step u call).calls) (called (run (step u call).left cs).1),
)

count-all_requests :
    (c : ℕ) (cs : List (List ℕ × Pool))
    → count c (all_requests cs) ≡ total (λ p. count c p.requests) cs
unfolding all_requests
count-all_requests c [] = refl
count-all_requests c ((n, p) ∷ cs) =
    omega (arith, count-append c p.requests (all_requests cs), count-all_requests c cs)

-- From a new pool, whatever the calls, once the destructor has run each callback that asked for a
-- connection has been called exactly as often as it asked.
pub all_called-destroy :
    (c : ℕ) (cs : List Call)
    → count c (called ((run create cs).1 ++ (destroy (run create cs).0).calls)) ≡ count c (asked cs)
unfolding destroy
all_called-destroy c cs = omega (
  arith,
  called_once c create cs,
  count-all_requests c (run create cs).0.connections,
  ap (count c) (called-refuse (all_requests (run create cs).0.connections)),
  ap (count c) (called-append (run create cs).1 (destroy (run create cs).0).calls),
  count-append c (called (run create cs).1) (called (destroy (run create cs).0).calls),
)
