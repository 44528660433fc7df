-- ===== src/WebSocket/Frame/RoundTrip.antt =====
-- A whole frame through the codec.
use vitex.Common.{
  ◌⊎◌, ◌≢◌, ℕ, suc, ◌+◌, ◌/◌, ◌%◌, ◌^◌, ◌≡◌, ◌≤◌, ◌<◌, arith, refl, List, [], ◌∷◌, ◌++◌, Bool, true,
  false, ltb, leb, some, Bool-cases, inl, inr,
}
use vitex.Common.Lists.{length}
use vitex.Common.Bytes.{be_bytes}
use vitex.WebSocket.Codec.{Op, next, Codec, after_length, loop}
use vitex.WebSocket.Codec.Steps.{loop-more, loop-fetch, loop_more_fuel}
use vitex.WebSocket.Frame.Payload.{settle, has_last, loop-payload, loop-masked}
use vitex.WebSocket.Frame.Length.{loop-length16, loop-length64}
use vitex.WebSocket.Frame.{mask_of}
use vitex.WebSocket.Frame.Header.{
  is_control, IsSendable, long_data, started, marked, short_round, empty_round, long_round,
  length_code, length_tail, mask_tail,
}

-- The codec where a frame's length has been read, with the new mask if there is one.
abbrev pub counted : Codec → Bool → Op → ℕ → Codec
counted c masked op n = record (started c op) { masked = masked; masks = 0; remains = n }

abbrev pub with_mask : Bool → ℕ → Codec → Codec
with_mask true mask c = record c { mask = mask_of mask }
with_mask false mask c = c

-- The codec after a whole frame.
abbrev pub after : Codec → Bool → ℕ → List ℕ → Op → Codec
after c masked mask payload op =
    settle (with_mask masked mask (counted c masked op (length payload))) payload

module _ (r : Codec × Bool) (f : ℕ) (c : Codec) (rest : List ℕ) (op : Op) (mask : ℕ)
    (o : op ≢ next) where
  -- From the place behind the length to the end of the frame.
  loop-body :
      (masked : Bool) (p : List ℕ)
      → (masked ≡ true) ⊎ (0 < length p)
      → loop f (after c masked mask p op) rest ≡ some r
      → loop
          (suc (suc (suc (suc (suc f)))))
          (record (counted c masked op (length p)) { state = after_length masked })
          (mask_tail masked mask ++ (p ++ rest))
        ≡ some r
  unfolding after_length
  loop-body true p h run =
      loop-masked r f (counted c true op (length p)) mask rest refl o p refl run
  loop-body false [] h run = ground arith
  loop-body false (b ∷ bs) h run =
      loop_more_fuel r (suc f) _ _ _ (omega arith)
        (loop-payload r f (counted c false op (length (b ∷ bs))) rest b bs refl o refl run)

  -- The three forms of the length, from its first byte on.
  short_length :
      (masked : Bool) (p : List ℕ)
      → length p < 126
      → loop f (after c masked mask p op) rest ≡ some r
      → loop
          (suc (suc (suc (suc (suc (suc f))))))
          (started c op)
          (marked masked (length p) ∷ (mask_tail masked mask ++ (p ++ rest)))
        ≡ some r
  short_length false [] h run = loop_more_fuel r (suc f) _ _ _ (omega arith) (
      loop-fetch r f (started c op) _ _ rest rest
        (empty_round (started c op) false 0 rest refl refl) (ground arith) (has_last c.queue _) run)
  short_length true p h run =
      loop-more r _ _ _ _ _ _
        (short_round (started c op) true (length p) _ h (inl (unfold after_length in refl)))
        (loop-body true p (inl refl) run)
  short_length false (b ∷ bs) h run =
      loop-more r _ _ _ _ _ _
        (short_round (started c op) false (length (b ∷ bs)) _ h (inr (omega arith)))
        (loop-body false (b ∷ bs) (inr (omega arith)) run)

  middle_length :
      (masked : Bool) (p : List ℕ)
      → 125 < length p
      → length p < 65536
      → is_control op ≡ false
      → loop f (after c masked mask p op) rest ≡ some r
      → loop (suc (suc (suc (suc (suc (suc (suc (suc f)))))))) (started c op) (
          marked masked 126
          ∷ (be_bytes 2 (length p % 2 ^ 16) ++ (mask_tail masked mask ++ (p ++ rest))))
        ≡ some r
  middle_length masked p h k e run =
      loop-more r _ _ _ _ _ _
        (long_round (started c op) masked 0 _ 126 (omega arith) (omega arith) e)
        (loop-length16 r _ (counted c masked op c.remains) (length p) _ h k
          (loop-body masked p (inr (omega arith)) run))

  long_length :
      (masked : Bool) (p : List ℕ)
      → 65535 < length p
      → length p < 2 ^ 64
      → is_control op ≡ false
      → loop f (after c masked mask p op) rest ≡ some r
      → loop
          (suc (suc (suc (suc (suc (suc (suc (suc (suc (suc (suc (suc (suc (suc f))))))))))))))
          (started c op)
          (marked masked 127
            ∷ ((be_bytes 4 (length p / 2 ^ 32 % 2 ^ 32) ++ be_bytes 4 (length p % 2 ^ 32))
                ++ (mask_tail masked mask ++ (p ++ rest))))
        ≡ some r
  long_length masked p h k e run =
      loop-more r _ _ _ _ _ _
        (long_round (started c op) masked 0 _ 127 (omega arith) (omega arith) e)
        (loop-length64 r _ (counted c masked op c.remains) (length p) _ h k
          (loop-body masked p (inr (omega arith)) run))

  pub loop-counted :
      (masked : Bool) (p : List ℕ) (g : ℕ)
      → IsSendable op (length p)
      → f + 14 ≤ g
      → loop f (after c masked mask p op) rest ≡ some r
      → loop g (started c op) (
          marked masked (length_code (length p))
          ∷ (length_tail (length p) ++ (mask_tail masked mask ++ (p ++ rest))))
        ≡ some r
  loop-counted masked p g h fuel run = elim (Bool-cases (ltb (length p) 126)) [
    | inl short ↦
        rw short (loop_more_fuel r _ g _ _ (omega arith) (short_length masked p (ground arith) run))
    | inr other ↦ elim (Bool-cases (leb (length p) 65535)) [
      | inl middle ↦
          rw (other, middle)
            (loop_more_fuel r _ g _ _ (omega arith) (
              middle_length masked p (ground arith) (ground arith)
                (long_data op (length p) h (ground arith)).0 run))
      | inr long ↦
          rw (other, long)
            (loop_more_fuel r _ g _ _ (omega arith) (
              long_length masked p (ground arith) (long_data op (length p) h (ground arith)).1
                (long_data op (length p) h (ground arith)).0 run))
    ]
  ]
