-- ===== src/Uplinks/Order.antt =====
-- One operation under a name calls the callbacks of that name in the order in which they ask.
use vitex.Common.{
  ℕ, zero, suc, ◌≡◌, inl, inr, arith, refl, ap, ap₂, sym, ◌∙◌, List, [], ◌∷◌, ◌++◌, if_both, leb,
  Option, none, some,
}
use vitex.Common.Lists.{length}
use mathlib.Core.List.{append-nil}
use vitex.Uplinks.Entries.{Pool, Uplinks, find, put, erase, insert}
use vitex.Uplinks.{Answer, push_new, push_pool, pop_pool, expire_pool, is_empty, no_pool}
use vitex.Uplinks.Callbacks.{called, called-refuse}
use vitex.Uplinks.Sound.{IsSound, find-IsSound, find-erase}
use vitex.Uplinks.Find.{find-put}
use vitex.Uplinks.Invariant.{IsValid}

abbrev pub requests_of : Option Pool → List ℕ
requests_of none = []
requests_of (some p) = p.requests

-- The requests that wait under a name.
abbrev pub waiting_at : List ℕ → Uplinks → List ℕ
waiting_at name u = requests_of (find name u.connections)

module _ (u : Uplinks) (name : List ℕ) where
  -- An answer that serves the name in order.
  abbrev pub InOrder : List ℕ → Answer → Type 0
  InOrder more a = called a.calls ++ waiting_at name a.left ≡ waiting_at name u ++ more

  -- What waits under the name once an entry is put there.
  pub put-waiting : (p : Pool) → requests_of (find name (put name p u.connections)) ≡ p.requests
  put-waiting p = ap requests_of (find-put name p u.connections)

  module _ (most : ℕ) (v : IsValid most u) where
    erase-waiting : requests_of (find name (erase name u.connections)) ≡ []
    erase-waiting = ap requests_of (find-erase most name u.connections v.sound)

    module _ (pool : Pool) (e : find name u.connections ≡ some pool) where
      start : waiting_at name u ++ [] ≡ pool.requests
      start = append-nil (waiting_at name u) ∙ ap requests_of e

      sound : IsSound most pool
      sound = find-IsSound most name u.connections pool v.sound e

      pub push_pool-InOrder :
          (rs : List ℕ) (stream : Option ℕ)
          → pool.requests ≡ rs
          → InOrder [] (push_pool u name pool rs stream)
      unfolding push_pool
      push_pool-InOrder (r ∷ rs) stream q =
          ap (λ (t : List ℕ). r ∷ t) (put-waiting (record pool { requests = rs })) ∙ sym (start ∙ q)
      push_pool-InOrder [] none q =
          if_both (λ (u' : Uplinks). waiting_at name u' ≡ waiting_at name u ++ [])
            (is_empty pool.streams) (λ h. erase-waiting ∙ sym (start ∙ q))
            (λ h. sym (append-nil (waiting_at name u)))
      push_pool-InOrder [] (some s) q =
          if_both (InOrder []) (leb u.max_duplicates (length pool.streams))
            (λ h. sym (append-nil (waiting_at name u)))
            (λ h. put-waiting (record pool { streams = insert s pool.streams }) ∙ sym start)

      -- Nobody waits where something can be given.
      served_at_once :
          (p : Pool) (r : ℕ)
          → p.requests ≡ pool.requests
          → pool.requests ≡ []
          → r ∷ requests_of (find name (put name p u.connections)) ≡ waiting_at name u ++ r ∷ []
      served_at_once p r same_requests nobody =
          ap (λ (t : List ℕ). r ∷ t) (put-waiting p ∙ same_requests ∙ nobody)
          ∙ sym (ap (λ (t : List ℕ). t ++ r ∷ []) (ap requests_of e ∙ nobody))

      pub pop_pool-InOrder :
          (ss : List ℕ) (d r : ℕ)
          → pool.streams ≡ ss
          → pool.duplicates ≡ d
          → InOrder (r ∷ []) (pop_pool u name pool ss d r)
      unfolding pop_pool
      pop_pool-InOrder (t ∷ ss) d r q w =
          served_at_once (record pool { streams = ss }) r refl
            (elim sound.waits [
              | inl nobody ↦ nobody
              | inr (gone, z) ↦ absurd (ground (arith, q, gone))
            ])
      pop_pool-InOrder [] (suc d) r q w =
          served_at_once (record pool { duplicates = d }) r refl
            (elim sound.waits [ inl nobody ↦ nobody | inr (gone, z) ↦ absurd (omega arith) ])
      pop_pool-InOrder [] zero r q w =
          put-waiting (record pool { requests = pool.requests ++ r ∷ [] })
          ∙ sym (ap (λ (t : List ℕ). t ++ r ∷ []) (ap requests_of e))

      pub expire_pool-InOrder : (ss : List ℕ) → InOrder [] (expire_pool u name pool ss)
      unfolding expire_pool
      expire_pool-InOrder [] =
          ap₂ (λ (a b : List ℕ). a ++ b) (called-refuse pool.requests) erase-waiting
          ∙ append-nil pool.requests
          ∙ sym start
      expire_pool-InOrder (t ∷ ss) =
          ap₂ (λ (a b : List ℕ). a ++ b) (called-refuse pool.requests)
            (put-waiting (record pool { requests = []; streams = t ∷ ss }))
          ∙ append-nil pool.requests
          ∙ sym start

    pub push_new-InOrder :
        (stream : Option ℕ) → find name u.connections ≡ none → InOrder [] (push_new u name stream)
    unfolding push_new
    push_new-InOrder none e = sym (append-nil (waiting_at name u))
    push_new-InOrder (some s) e =
        put-waiting (record no_pool { streams = insert s [] })
        ∙ sym (append-nil (waiting_at name u) ∙ ap requests_of e)
