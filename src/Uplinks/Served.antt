-- ===== src/Uplinks/Served.antt =====
-- The callbacks of a name over a sequence of calls that concern any names.
use vitex.Common.{
  Option-cases, ℕ, ◌-◌, ◌≡◌, ◌≢◌, inl, inr, arith, refl, ap, sym, ◌∙◌, List, [], ◌∷◌, ◌++◌, Bool,
  true, false, ◌==◌, if◌then◌else◌, Bool-cases, if_both, Option, none,
}
use mathlib.Core.Path.{subst}
use mathlib.Core.List.{append-nil, append_assoc}
use vitex.Uplinks.Entries.{
  SocketAddress, get_address_identification, Pool, Uplinks, same, find, put, remove,
}
use vitex.Uplinks.{
  Answer, answer, push_new, push_pool, push_connection, pop_pool, pop_connection_queued, error,
  skip, drained, broken, expire_pool, expire, listen_connection, no_pool, Call, pushes, pops, wakes,
  limits, step, run, set_max_duplicates,
}
use vitex.Uplinks.Callbacks.{called, asked}
use vitex.Uplinks.Find.{same-eq, find-put_other}
use vitex.Uplinks.Invariant.{IsValid, AllWithin, step-IsValid, within_head}
use vitex.Uplinks.Apart.{
  NeverOff, push_new-Leaves, push_pool-Leaves, pop_pool-Leaves, expire_pool-Leaves, step_on,
}
use vitex.Uplinks.Order.{
  requests_of, waiting_at, InOrder, put-waiting, push_pool-InOrder, pop_pool-InOrder,
  expire_pool-InOrder, push_new-InOrder,
}

-- The call concerns the name.
abbrev pub concerns : List ℕ → Call → Bool
concerns name (pushes address s) = same (get_address_identification address) name
concerns name (pops address c) = same (get_address_identification address) name
concerns name (wakes id s e) = same id name
concerns name (limits max) = false

-- The callbacks that are called, and those that ask, under a name while other names are served too.
abbrev pub served : List ℕ → Uplinks → List Call → List ℕ
served name u [] = []
served name u (call ∷ cs) =
    (if concerns name call then called (step u call).calls else [])
    ++ served name (step u call).left cs

abbrev pub asked_at : List ℕ → List Call → List ℕ
asked_at name [] = []
asked_at name (call ∷ cs) =
    (if concerns name call then asked (call ∷ []) else []) ++ asked_at name cs

-- What an answer does to the callbacks of a name.
abbrev Serves : List ℕ → Uplinks → Bool → List ℕ → Answer → Type 0
Serves name u mine more a =
    (if mine then called a.calls else []) ++ waiting_at name a.left
    ≡ waiting_at name u ++ (if mine then more else [])

module _ (name : List ℕ) (most : ℕ) (u : Uplinks) (v : IsValid most u) where
  -- An operation under any name, by whether it is this one.
  by_name :
      (m : List ℕ) (more : List ℕ) (a : Answer)
      → (same m name ≡ true → InOrder u m more a)
      → (same m name ≡ false → waiting_at name a.left ≡ waiting_at name u)
      → Serves name u (same m name) more a
  by_name m more a mine others = elim (Bool-cases (same m name)) [
    | inl h ↦ rw h (subst (λ n. InOrder u n more a) (same-eq m name h) (mine h))
    | inr h ↦ rw h (others h ∙ sym (append-nil (waiting_at name u)))
  ]

  -- Nothing is asked, called or changed.
  nothing : (mine : Bool) → Serves name u mine [] (answer u false [])
  nothing true = sym (append-nil (waiting_at name u))
  nothing false = sym (append-nil (waiting_at name u))

  push-Serves :
      (address : SocketAddress) (stream : Option ℕ)
      → u.max_duplicates ≢ 0
      → Serves name u
          (same (get_address_identification address) name)
          []
          (push_connection u address stream)
  unfolding push_connection
  push-Serves address stream on =
      if_both (Serves name u (same (get_address_identification address) name) [])
        (u.max_duplicates == 0) (λ h. absurd (ground (arith, h, on)))
        (λ h. elim (Option-cases (find (get_address_identification address) u.connections)) [
          | inl e ↦ rw e (
              by_name _ [] (push_new u _ stream) (λ h. push_new-InOrder u _ most v stream e)
                (λ h. push_new-Leaves u _ name h stream))
          | inr (pool, e) ↦ rw e (
              by_name _ [] (push_pool u _ pool pool.requests stream)
                (λ h. push_pool-InOrder u _ most v pool e _ stream refl)
                (λ h. push_pool-Leaves u _ name h pool _ stream))
        ])

  pop-Serves :
      (address : SocketAddress) (r : ℕ)
      → u.max_duplicates ≢ 0
      → Serves name u
          (same (get_address_identification address) name)
          (r ∷ [])
          (pop_connection_queued u address r)
  unfolding pop_connection_queued
  pop-Serves address r on =
      if_both (Serves name u (same (get_address_identification address) name) (r ∷ []))
        (u.max_duplicates == 0) (λ h. absurd (ground (arith, h, on)))
        (λ h. elim (Option-cases (find (get_address_identification address) u.connections)) [
          | inl e ↦ rw e (first e)
          | inr (pool, e) ↦ rw e (
              by_name _ (r ∷ []) (pop_pool u _ pool pool.streams pool.duplicates r)
                (λ h. pop_pool-InOrder u _ most v pool e _ _ r refl refl)
                (λ h. pop_pool-Leaves u _ name h pool _ _ r))
        ])
    where
      entry : Pool
      entry = record no_pool { duplicates = u.max_duplicates - 1 }

      n : List ℕ
      n = get_address_identification address

      first :
          find n u.connections ≡ none
          → Serves name u
              (same n name)
              (r ∷ [])
              (answer (record u { connections = put n entry u.connections }) false ((r, none) ∷ []))
      first e =
          by_name n (r ∷ [])
            (answer (record u { connections = put n entry u.connections }) false ((r, none) ∷ []))
            (λ h.
              ap (λ (t : List ℕ). r ∷ t) (put-waiting u n entry)
              ∙ sym (ap (λ (t : List ℕ). t ++ r ∷ []) (ap requests_of e)))
            (λ h. ap requests_of (find-put_other name n entry u.connections h))

  expire-Serves : (id : List ℕ) (stream : ℕ) → Serves name u (same id name) [] (expire u id stream)
  unfolding expire
  expire-Serves id stream = elim (Option-cases (find id u.connections)) [
    | inl e ↦ rw (e, expire) (nothing (same id name))
    | inr (pool, e) ↦
        rw (e, expire)
          (by_name id [] (expire_pool u id pool (remove stream pool.streams))
            (λ h. expire_pool-InOrder u id most v pool e _)
            (λ h. expire_pool-Leaves u id name h pool _))
  ]

  step-Serves :
      (call : Call)
      → u.max_duplicates ≢ 0
      → Serves name u (concerns name call) (asked (call ∷ [])) (step u call)
  unfolding step set_max_duplicates listen_connection
  step-Serves (pushes address stream) on = push-Serves address stream on
  step-Serves (pops address r) on = pop-Serves address r on
  step-Serves (wakes id stream error) on = expire-Serves id stream
  step-Serves (wakes id stream broken) on = expire-Serves id stream
  step-Serves (wakes id stream skip) on = nothing (same id name)
  step-Serves (wakes id stream drained) on = nothing (same id name)
  step-Serves (limits max) on = sym (append-nil (waiting_at name u))

off_head :
    (call : Call) (cs : List Call) → NeverOff (call ∷ cs) → NeverOff (call ∷ []) × NeverOff cs
off_head (pushes address s) cs h = (tt, h)
off_head (pops address c) cs h = (tt, h)
off_head (wakes id s e) cs h = (tt, h)
off_head (limits max) cs (h, hs) = ((h, tt), hs)

-- Under each name the pool is a queue: over any sequence of calls, which may concern other names
-- too, the callbacks called under the name followed by those that wait there are those that
-- waited before followed by those that asked, in that order. The limit of duplicates is never set
-- so that it wraps around to 0.
pub served_in_order :
    (name : List ℕ) (most : ℕ) (u : Uplinks) (cs : List Call)
    → IsValid most u
    → AllWithin most cs
    → u.max_duplicates ≢ 0
    → NeverOff cs
    → served name u cs ++ waiting_at name (run u cs).0 ≡ waiting_at name u ++ asked_at name cs
unfolding run
served_in_order name most u [] v w on h = sym (append-nil (waiting_at name u))
served_in_order name most u (call ∷ cs) v w on h =
    append_assoc now later (waiting_at name (run a.left cs).0)
    ∙ ap (λ (t : List ℕ). now ++ t)
        (served_in_order name most a.left cs
          (step-IsValid most u v call (within_head most call cs w).0) (within_head most call cs w).1
          (step_on u call on (off_head call cs h).0) (off_head call cs h).1)
    ∙ sym (append_assoc now (waiting_at name a.left) (asked_at name cs))
    ∙ ap (λ (t : List ℕ). t ++ asked_at name cs) (step-Serves name most u v call on)
    ∙ append_assoc (waiting_at name u) (if concerns name call then asked (call ∷ []) else [])
        (asked_at name cs)
  where
    a : Answer
    a = step u call

    now : List ℕ
    now = if concerns name call then called a.calls else []

    later : List ℕ
    later = served name a.left cs
