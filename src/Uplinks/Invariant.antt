-- ===== src/Uplinks/Invariant.antt =====
-- The operations keep the entries of the pool sound.
use vitex.Common.{
  Option-cases, ℕ, zero, suc, ◌+◌, ◌%◌, ◌^◌, ◌≡◌, ◌≤◌, inl, inr, arith, refl, ap, List, [], ◌∷◌,
  false, ◌==◌, if_both, leb, Option, none, some,
}
use vitex.Common.Lists.{length}
use vitex.Uplinks.Entries.{
  SocketAddress, get_address_identification, Pool, Uplinks, find, put, erase, insert, is_in, remove,
}
use vitex.Uplinks.{
  Answer, push_new, push_pool, push_connection, pop_pool, pop_connection_queued, error, skip,
  drained, broken, is_empty, expire_pool, expire, listen_connection, Call, pushes, pops, wakes,
  limits, step, run, set_max_duplicates,
}
use vitex.Uplinks.Sound.{
  IsSound, AllSound, find-IsSound, put-AllSound, erase-AllSound, length-remove, length-insert,
}

-- The calls keep the limit at `most`.
abbrev pub AllWithin : ℕ → List Call → Type 0
AllWithin most [] = Unit
AllWithin most (pushes address s ∷ cs) = AllWithin most cs
AllWithin most (pops address c ∷ cs) = AllWithin most cs
AllWithin most (wakes id s e ∷ cs) = AllWithin most cs
AllWithin most (limits max ∷ cs) = ((max + 1) % 2 ^ 64 ≤ most) × AllWithin most cs

pub record IsValid (most : ℕ) (u : Uplinks) : Type 0 where
  pub limit : u.max_duplicates ≤ most
  pub sound : AllSound most u.connections

module _ (most : ℕ) where
  module _ (u : Uplinks) (v : IsValid most u) where
    putting :
        (name : List ℕ) (pool : Pool)
        → IsSound most pool
        → IsValid most (record u { connections = put name pool u.connections })
    putting name pool s = record {
      limit = v.limit;
      sound = put-AllSound most name pool u.connections v.sound s;
    }

    erasing : (name : List ℕ) → IsValid most (record u { connections = erase name u.connections })
    erasing name = record {
      limit = v.limit;
      sound = erase-AllSound most name u.connections v.sound;
    }

    push_new-IsValid :
        (name : List ℕ) (stream : Option ℕ)
        → (u.max_duplicates == 0) ≡ false
        → IsValid most (push_new u name stream).left
    unfolding push_new insert is_in
    push_new-IsValid name none h = v
    push_new-IsValid name (some s) h = putting name _ (record {
      waits = inl refl;
      few = ground (arith, v.limit);
      allowed = ground (arith, v.limit);
    })

    push_pool-IsValid :
        (name : List ℕ) (pool : Pool) (rs : List ℕ) (stream : Option ℕ)
        → IsSound most pool
        → pool.requests ≡ rs
        → IsValid most (push_pool u name pool rs stream).left
    unfolding push_pool
    push_pool-IsValid name pool (r ∷ rs) stream s q = putting name _ (record {
      waits = elim s.waits [ inl none_wait ↦ absurd (ground (arith, q)) | inr gone ↦ inr gone ];
      few = s.few;
      allowed = s.allowed;
    })
    push_pool-IsValid name pool [] none s q =
        if_both (IsValid most) (is_empty pool.streams) (λ e. erasing name) (λ e. v)
    push_pool-IsValid name pool [] (some t) s q =
        if_both (λ (a : Answer). IsValid most a.left) (leb u.max_duplicates (length pool.streams))
          (λ e. v)
          (λ e. putting name _ (record {
            waits = inl q;
            few = ground (arith, e, v.limit, length-insert t pool.streams);
            allowed = s.allowed;
          }))

    pop_pool-IsValid :
        (name : List ℕ) (pool : Pool) (ss : List ℕ) (d r : ℕ)
        → IsSound most pool
        → pool.streams ≡ ss
        → pool.duplicates ≡ d
        → IsValid most (pop_pool u name pool ss d r).left
    unfolding pop_pool
    pop_pool-IsValid name pool (t ∷ ss) d r s q w = putting name _ (record {
      waits = elim s.waits [
        | inl none_wait ↦ inl none_wait
        | inr (gone, z) ↦ absurd (ground (arith, q, gone))
      ];
      few = omega (arith, s.few, ap length q);
      allowed = s.allowed;
    })
    pop_pool-IsValid name pool [] (suc d) r s q w = putting name _ (record {
      waits = elim s.waits [ inl none_wait ↦ inl none_wait | inr (gone, z) ↦ absurd (omega arith) ];
      few = s.few;
      allowed = omega (arith, s.allowed);
    })
    pop_pool-IsValid name pool [] zero r s q w =
        putting name _ (record { waits = inr (q, w); few = s.few; allowed = s.allowed })

    expire_pool-IsValid :
        (id : List ℕ) (pool : Pool) (t : ℕ) (ss : List ℕ)
        → IsSound most pool
        → remove t pool.streams ≡ ss
        → IsValid most (expire_pool u id pool ss).left
    unfolding expire_pool
    expire_pool-IsValid id pool t [] s q = erasing id
    expire_pool-IsValid id pool t (x ∷ ss) s q = putting id _ (record {
      waits = inl refl;
      few = omega (arith, s.few, ap length q, length-remove t pool.streams);
      allowed = s.allowed;
    })

    push-IsValid :
        (address : SocketAddress) (stream : Option ℕ)
        → IsValid most (push_connection u address stream).left
    unfolding push_connection
    push-IsValid address stream =
        if_both (λ (a : Answer). IsValid most a.left) (u.max_duplicates == 0) (λ h. v)
          (λ h. elim (Option-cases (find (get_address_identification address) u.connections)) [
            | inl e ↦ rw e (push_new-IsValid _ stream h)
            | inr (pool, e) ↦ rw e (
                push_pool-IsValid _ pool pool.requests stream
                  (find-IsSound most _ u.connections pool v.sound e) refl)
          ])

    pop-IsValid :
        (address : SocketAddress) (r : ℕ) → IsValid most (pop_connection_queued u address r).left
    unfolding pop_connection_queued
    pop-IsValid address r =
        if_both (λ (a : Answer). IsValid most a.left) (u.max_duplicates == 0) (λ h. v)
          (λ h. elim (Option-cases (find (get_address_identification address) u.connections)) [
            | inl e ↦ rw e (
                putting _ _ (record {
                  waits = inl refl;
                  few = omega arith;
                  allowed = ground (arith, v.limit);
                }))
            | inr (pool, e) ↦ rw e (
                pop_pool-IsValid _ pool pool.streams pool.duplicates r
                  (find-IsSound most _ u.connections pool v.sound e) refl refl)
          ])

    expire-IsValid : (id : List ℕ) (stream : ℕ) → IsValid most (expire u id stream).left
    unfolding expire
    expire-IsValid id stream = elim (Option-cases (find id u.connections)) [
      | inl e ↦ rw (e, expire) v
      | inr (pool, e) ↦
          rw (e, expire)
            (expire_pool-IsValid id pool stream _
              (find-IsSound most id u.connections pool v.sound e) refl)
    ]

    pub step-IsValid : (call : Call) → AllWithin most (call ∷ []) → IsValid most (step u call).left
    unfolding step set_max_duplicates listen_connection
    step-IsValid (pushes address stream) h = push-IsValid address stream
    step-IsValid (pops address r) h = pop-IsValid address r
    step-IsValid (wakes id stream error) h = expire-IsValid id stream
    step-IsValid (wakes id stream broken) h = expire-IsValid id stream
    step-IsValid (wakes id stream skip) h = v
    step-IsValid (wakes id stream drained) h = v
    step-IsValid (limits max) (h, _) = record { limit = h; sound = v.sound }

  pub within_head :
      (call : Call) (cs : List Call)
      → AllWithin most (call ∷ cs)
      → AllWithin most (call ∷ []) × AllWithin most cs
  within_head (pushes address s) cs h = (tt, h)
  within_head (pops address c) cs h = (tt, h)
  within_head (wakes id s e) cs h = (tt, h)
  within_head (limits max) cs (h, hs) = ((h, tt), hs)

  -- Any sequence of calls keeps the pool valid: no two entries have one name, an entry with
  -- waiting requests has neither streams nor duplicates to give, and no entry has more streams
  -- than the greatest limit that was set, nor as many duplicates.
  pub run-IsValid :
      (u : Uplinks) (cs : List Call)
      → IsValid most u
      → AllWithin most cs
      → IsValid most (run u cs).0
  unfolding run
  run-IsValid u [] v h = v
  run-IsValid u (call ∷ cs) v h =
      let (one, more) = within_head call cs h in
      run-IsValid (step u call).left cs (step-IsValid u v call one) more
