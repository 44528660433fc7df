-- ===== src/Uplinks/Apart.antt =====
-- What an operation leaves as it was: the entries of other names, and the limit.
use vitex.Common.{
  Option-cases, ℕ, zero, suc, ◌+◌, ◌%◌, ◌^◌, ◌≡◌, ◌≢◌, inl, inr, arith, refl, ap, List, [], ◌∷◌,
  false, ◌==◌, if_both, leb, Option, none, some,
}
use vitex.Common.Lists.{length}
use vitex.Uplinks.Entries.{SocketAddress, get_address_identification, Pool, Uplinks, same, find}
use vitex.Uplinks.{
  Answer, push_new, push_pool, push_connection, pop_pool, pop_connection_queued, error, skip,
  drained, broken, expire_pool, expire, listen_connection, is_empty, Call, pushes, pops, wakes,
  limits, step, set_max_duplicates,
}
use vitex.Uplinks.Find.{find-put_other, find-erase_other}
use vitex.Uplinks.Order.{requests_of, waiting_at}

-- The limit is never 0, for which the pool is switched off.
abbrev pub NeverOff : List Call → Type 0
NeverOff [] = Unit
NeverOff (pushes address s ∷ cs) = NeverOff cs
NeverOff (pops address c ∷ cs) = NeverOff cs
NeverOff (wakes id s e ∷ cs) = NeverOff cs
NeverOff (limits max ∷ cs) = ((max + 1) % 2 ^ 64 ≢ 0) × NeverOff cs

module _ (u : Uplinks) (m name : List ℕ) (other : same m name ≡ false) where
  -- An answer that leaves what waits under the name.
  abbrev Leaves : Answer → Type 0
  Leaves a = waiting_at name a.left ≡ waiting_at name u

  pub push_new-Leaves : (stream : Option ℕ) → Leaves (push_new u m stream)
  unfolding push_new
  push_new-Leaves none = refl
  push_new-Leaves (some s) = ap requests_of (find-put_other name m _ u.connections other)

  pub push_pool-Leaves :
      (pool : Pool) (rs : List ℕ) (stream : Option ℕ) → Leaves (push_pool u m pool rs stream)
  unfolding push_pool
  push_pool-Leaves pool (r ∷ rs) stream =
      ap requests_of (find-put_other name m _ u.connections other)
  push_pool-Leaves pool [] none =
      if_both (λ (u' : Uplinks). waiting_at name u' ≡ waiting_at name u) (is_empty pool.streams)
        (λ h. ap requests_of (find-erase_other name m u.connections other)) (λ h. refl)
  push_pool-Leaves pool [] (some s) =
      if_both Leaves (leb u.max_duplicates (length pool.streams)) (λ h. refl)
        (λ h. ap requests_of (find-put_other name m _ u.connections other))

  pub pop_pool-Leaves : (pool : Pool) (ss : List ℕ) (d r : ℕ) → Leaves (pop_pool u m pool ss d r)
  unfolding pop_pool
  pop_pool-Leaves pool (t ∷ ss) d r = ap requests_of (find-put_other name m _ u.connections other)
  pop_pool-Leaves pool [] (suc d) r = ap requests_of (find-put_other name m _ u.connections other)
  pop_pool-Leaves pool [] zero r = ap requests_of (find-put_other name m _ u.connections other)

  pub expire_pool-Leaves : (pool : Pool) (ss : List ℕ) → Leaves (expire_pool u m pool ss)
  unfolding expire_pool
  expire_pool-Leaves pool [] = ap requests_of (find-erase_other name m u.connections other)
  expire_pool-Leaves pool (t ∷ ss) = ap requests_of (find-put_other name m _ u.connections other)

-- The limit changes by `set_max_duplicates` alone.
module _ (u : Uplinks) where
  abbrev Limited : Answer → Type 0
  Limited a = a.left.max_duplicates ≡ u.max_duplicates

  push-Limited :
      (address : SocketAddress) (stream : Option ℕ) → Limited (push_connection u address stream)
  unfolding push_connection push_new push_pool
  push-Limited address stream =
      if_both Limited (u.max_duplicates == 0) (λ h. refl)
        (λ h. elim (Option-cases (find (get_address_identification address) u.connections)) [
          | inl e ↦ rw e (ground arith)
          | inr (pool, e) ↦ rw e (ground arith)
        ])

  pop-Limited : (address : SocketAddress) (r : ℕ) → Limited (pop_connection_queued u address r)
  unfolding pop_connection_queued pop_pool
  pop-Limited address r =
      if_both Limited (u.max_duplicates == 0) (λ h. refl)
        (λ h. elim (Option-cases (find (get_address_identification address) u.connections)) [
          | inl e ↦ rw e refl
          | inr (pool, e) ↦ rw e (ground arith)
        ])

  expire-Limited : (id : List ℕ) (stream : ℕ) → Limited (expire u id stream)
  unfolding expire expire_pool
  expire-Limited id stream = elim (Option-cases (find id u.connections)) [
    | inl e ↦ rw (e, expire) refl
    | inr (pool, e) ↦ rw (e, expire) (ground arith)
  ]

  pub step_on :
      (call : Call)
      → u.max_duplicates ≢ 0
      → NeverOff (call ∷ [])
      → (step u call).left.max_duplicates ≢ 0
  unfolding step set_max_duplicates listen_connection
  step_on (pushes address stream) on h = rw (push-Limited address stream) on
  step_on (pops address r) on h = rw (pop-Limited address r) on
  step_on (wakes id stream error) on h = rw (expire-Limited id stream) on
  step_on (wakes id stream broken) on h = rw (expire-Limited id stream) on
  step_on (wakes id stream skip) on h = on
  step_on (wakes id stream drained) on h = on
  step_on (limits max) on (h, _) = h
