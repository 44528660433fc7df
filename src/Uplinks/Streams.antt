-- ===== src/Uplinks/Streams.antt =====
-- No socket is handed out more often than it was put into the pool.
use vitex.Common.{
  Option-cases, ℕ, zero, suc, ◌+◌, ◌≡◌, ◌≤◌, inl, inr, arith, refl, ap, List, [], ◌∷◌, ◌++◌, ◌==◌,
  if_both, Option, none, some,
}
use vitex.Uplinks.Entries.{
  SocketAddress, get_address_identification, Pool, Uplinks, find, insert, remove,
}
use vitex.Uplinks.{
  Answer, push_new, push_pool, push_connection, pop_pool, pop_connection_queued, error, skip,
  drained, broken, expire_pool, expire, listen_connection, refuse, Call, pushes, pops, wakes,
  limits, step, run, set_max_duplicates,
}
use vitex.Uplinks.Counting.{count, count-append, total, total-put_new, total-put, total-erase}

-- The sockets that calls hand over.
abbrev pub handed : List (ℕ × Option ℕ) → List ℕ
handed [] = []
handed ((c, none) ∷ cs) = handed cs
handed ((c, some s) ∷ cs) = s ∷ handed cs

handed-append : (xs ys : List (ℕ × Option ℕ)) → handed (xs ++ ys) ≡ handed xs ++ handed ys
handed-append [] ys = refl
handed-append ((c, none) ∷ xs) ys = handed-append xs ys
handed-append ((c, some s) ∷ xs) ys = ap (λ (t : List ℕ). s ∷ t) (handed-append xs ys)

handed-refuse : (rs : List ℕ) → handed (refuse rs) ≡ []
handed-refuse [] = refl
handed-refuse (r ∷ rs) = handed-refuse rs

-- The sockets that a sequence of calls brings.
abbrev pub pushed : List Call → List ℕ
pushed [] = []
pushed (pushes address none ∷ cs) = pushed cs
pushed (pushes address (some s) ∷ cs) = s ∷ pushed cs
pushed (pops address c ∷ cs) = pushed cs
pushed (wakes id s e ∷ cs) = pushed cs
pushed (limits max ∷ cs) = pushed cs

-- How often a socket stands in the pool.
abbrev pub stored : ℕ → Uplinks → ℕ
stored s u = total (λ p. count s p.streams) u.connections

abbrev of_stream : Option ℕ → List ℕ
of_stream none = []
of_stream (some t) = t ∷ []

module _ (s : ℕ) where
  -- An answer that hands out or keeps no more sockets than there were.
  abbrev Spares : Uplinks → List ℕ → Answer → Type 0
  Spares u more a = count s (handed a.calls) + stored s a.left ≤ stored s u + count s more

  abbrev held : Pool → ℕ
  held p = count s p.streams

  count-insert : (t : ℕ) (ts : List ℕ) → count s (insert t ts) ≤ count s ts + count s (t ∷ [])
  unfolding insert
  count-insert t ts = ground arith

  count-remove : (t : ℕ) (ts : List ℕ) → count s (remove t ts) ≤ count s ts
  unfolding remove
  count-remove t [] = omega arith
  count-remove t (x ∷ ts) = ground (arith, count-remove t ts)

  push_new-Spares :
      (u : Uplinks) (name : List ℕ) (stream : Option ℕ)
      → find name u.connections ≡ none
      → Spares u (of_stream stream) (push_new u name stream)
  unfolding push_new
  push_new-Spares u name none e = omega arith
  push_new-Spares u name (some t) e =
      omega (arith, total-put_new held name u.connections _ e, count-insert t [])

  push_pool-Spares :
      (u : Uplinks) (name : List ℕ) (pool : Pool) (rs : List ℕ) (stream : Option ℕ)
      → find name u.connections ≡ some pool
      → Spares u (of_stream stream) (push_pool u name pool rs stream)
  unfolding push_pool
  push_pool-Spares u name pool (r ∷ rs) none e =
      omega (arith, total-put held name u.connections pool (record pool { requests = rs }) e)
  push_pool-Spares u name pool (r ∷ rs) (some t) e =
      omega (arith, total-put held name u.connections pool (record pool { requests = rs }) e)
  push_pool-Spares u name pool [] none e =
      ground (arith, total-erase held name u.connections pool e)
  push_pool-Spares u name pool [] (some t) e = ground (
    arith,
    total-put held name u.connections pool (record pool { streams = insert t pool.streams }) e,
    count-insert t pool.streams,
  )

  pop_pool-Spares :
      (u : Uplinks) (name : List ℕ) (pool : Pool) (ss : List ℕ) (d r : ℕ)
      → find name u.connections ≡ some pool
      → pool.streams ≡ ss
      → Spares u [] (pop_pool u name pool ss d r)
  unfolding pop_pool
  pop_pool-Spares u name pool (t ∷ ss) d r e q = omega (
    arith,
    total-put held name u.connections pool (record pool { streams = ss }) e,
    ap (count s) q,
  )
  pop_pool-Spares u name pool [] (suc d) r e q =
      omega (arith, total-put held name u.connections pool (record pool { duplicates = d }) e)
  pop_pool-Spares u name pool [] zero r e q = omega (
    arith,
    total-put held name u.connections pool (record pool { requests = pool.requests ++ r ∷ [] }) e,
  )

  expire_pool-Spares :
      (u : Uplinks) (id : List ℕ) (pool : Pool) (t : ℕ) (ss : List ℕ)
      → find id u.connections ≡ some pool
      → remove t pool.streams ≡ ss
      → Spares u [] (expire_pool u id pool ss)
  unfolding expire_pool
  expire_pool-Spares u id pool t [] e q =
      omega (
        arith,
        total-erase held id u.connections pool e,
        ap (count s) (handed-refuse pool.requests),
      )
  expire_pool-Spares u id pool t (x ∷ ss) e q = omega (
    arith,
    total-put held id u.connections pool (record pool { requests = []; streams = x ∷ ss }) e,
    ap (count s) (handed-refuse pool.requests),
    ap (count s) q,
    count-remove t pool.streams,
  )

  push-Spares :
      (u : Uplinks) (address : SocketAddress) (stream : Option ℕ)
      → Spares u (of_stream stream) (push_connection u address stream)
  unfolding push_connection
  push-Spares u address stream =
      if_both (Spares u (of_stream stream)) (u.max_duplicates == 0) (λ h. omega arith)
        (λ h. elim (Option-cases (find (get_address_identification address) u.connections)) [
          | inl e ↦ rw e (push_new-Spares u _ stream e)
          | inr (pool, e) ↦ rw e (push_pool-Spares u _ pool pool.requests stream e)
        ])

  pop-Spares :
      (u : Uplinks) (address : SocketAddress) (r : ℕ)
      → Spares u [] (pop_connection_queued u address r)
  unfolding pop_connection_queued
  pop-Spares u address r =
      if_both (Spares u []) (u.max_duplicates == 0) (λ h. omega arith)
        (λ h. elim (Option-cases (find (get_address_identification address) u.connections)) [
          | inl e ↦ rw e (omega (arith, total-put_new held _ u.connections _ e))
          | inr (pool, e) ↦ rw e (pop_pool-Spares u _ pool pool.streams pool.duplicates r e refl)
        ])

  expire-Spares : (u : Uplinks) (id : List ℕ) (stream : ℕ) → Spares u [] (expire u id stream)
  unfolding expire
  expire-Spares u id stream = elim (Option-cases (find id u.connections)) [
    | inl e ↦ rw (e, expire) (omega arith)
    | inr (pool, e) ↦ rw (e, expire) (expire_pool-Spares u id pool stream _ e refl)
  ]

  step-Spares : (u : Uplinks) (call : Call) → Spares u (pushed (call ∷ [])) (step u call)
  unfolding step set_max_duplicates listen_connection
  step-Spares u (pushes address none) = push-Spares u address none
  step-Spares u (pushes address (some t)) = push-Spares u address (some t)
  step-Spares u (pops address r) = pop-Spares u address r
  step-Spares u (wakes id stream error) = expire-Spares u id stream
  step-Spares u (wakes id stream broken) = expire-Spares u id stream
  step-Spares u (wakes id stream skip) = omega arith
  step-Spares u (wakes id stream drained) = omega arith
  step-Spares u (limits max) = omega arith

  pushed-cons :
      (call : Call) (cs : List Call)
      → count s (pushed (call ∷ cs)) ≡ count s (pushed (call ∷ [])) + count s (pushed cs)
  pushed-cons (pushes address none) cs = omega arith
  pushed-cons (pushes address (some t)) cs = omega arith
  pushed-cons (pops address r) cs = omega arith
  pushed-cons (wakes id t e) cs = omega arith
  pushed-cons (limits max) cs = omega arith

  -- Over any sequence of calls, a socket is handed to callbacks and kept in the pool together no
  -- more often than it was in the pool before and pushed.
  pub handed_over :
      (u : Uplinks) (cs : List Call)
      → count s (handed (run u cs).1) + stored s (run u cs).0 ≤ stored s u + count s (pushed cs)
  unfolding run
  handed_over u [] = omega arith
  handed_over u (call ∷ cs) = omega (
    arith,
    step-Spares u call,
    pushed-cons call cs,
    handed_over (step u call).left cs,
    ap (count s) (handed-append (step u call).calls (run (step u call).left cs).1),
    count-append s (handed (step u call).calls) (handed (run (step u call).left cs).1),
  )
