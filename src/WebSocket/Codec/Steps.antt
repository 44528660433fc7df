-- ===== src/WebSocket/Codec/Steps.antt =====
-- Rounds of the loop, one by one, and its fuel.
use vitex.Common.{
  ℕ, zero, suc, ◌≡◌, ◌≤◌, arith, ap, sym, ◌∙◌, Bool-cases, inl, inr, List, [], ◌∷◌, Bool, true,
  false, not, ◌&&◌, Option, some,
}
use vitex.WebSocket.Codec.{
  Codec, Outcome, more, fetch, quit, round, loop, follow, fetch_payload, begin, has_message,
}

module _ (r : Codec × Bool) where
  follow_mono :
      (go go' : Codec → List ℕ → Option (Codec × Bool))
      → ((c : Codec) (d : List ℕ) → go c d ≡ some r → go' c d ≡ some r)
      → (o : Outcome) → follow go o ≡ some r
      → follow go' o ≡ some r
  unfolding follow fetch_payload
  follow_mono go go' h (quit c) e = e
  follow_mono go go' h (more c rest) e = h c rest e
  follow_mono go go' h (fetch c []) e = e
  follow_mono go go' h (fetch c (d ∷ ds)) e = elim (Bool-cases (not c.control && not c.final)) [
    | inl stop ↦ rw stop (rw stop at e)
    | inr on ↦ rw on (h (record c { state = begin }) (d ∷ ds) (rw on at e))
  ]

  -- What a run gives with some fuel it gives with more.
  pub loop_more_fuel :
      (f g : ℕ) (c : Codec) (d : List ℕ) → f ≤ g → loop f c d ≡ some r → loop g c d ≡ some r
  unfolding loop
  loop_more_fuel f g c [] h e = e
  loop_more_fuel zero g c (b ∷ bs) h e = cc
  loop_more_fuel (suc f) zero c (b ∷ bs) h e = absurd (omega arith)
  loop_more_fuel (suc f) (suc g) c (b ∷ bs) h e =
      follow_mono (loop f) (loop g) (λ c1 d. loop_more_fuel f g c1 d (omega arith))
        (round c.state c b bs) e

  pub loop-more :
      (f : ℕ) (c c1 : Codec) (b : ℕ) (bs rest : List ℕ)
      → round c.state c b bs ≡ more c1 rest
      → loop f c1 rest ≡ some r
      → loop (suc f) c (b ∷ bs) ≡ some r
  unfolding loop follow
  loop-more f c c1 b bs rest e h = ap (follow (loop f)) e ∙ h

  fetched :
      (f : ℕ) (c : Codec) (rest : List ℕ)
      → (not c.control && not c.final) ≡ false
      → has_message c.queue ≡ true
      → loop f (record c { state = begin }) rest ≡ some r
      → fetch_payload (loop f) c rest ≡ some r
  unfolding fetch_payload loop
  fetched f c [] k m h = rw k (ap (λ (t : Bool). some (record c { state = begin }, t)) (sym m) ∙ h)
  fetched f c (d ∷ ds) k m h = rw k h

  pub loop-fetch :
      (f : ℕ) (c c1 : Codec) (b : ℕ) (bs rest : List ℕ)
      → round c.state c b bs ≡ fetch c1 rest
      → (not c1.control && not c1.final) ≡ false
      → has_message c1.queue ≡ true
      → loop f (record c1 { state = begin }) rest ≡ some r
      → loop (suc f) c (b ∷ bs) ≡ some r
  unfolding loop follow
  loop-fetch f c c1 b bs rest e k m h = ap (follow (loop f)) e ∙ fetched f c1 rest k m h
