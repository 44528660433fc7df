-- ===== src/WebSocket/Frame/Length.antt =====
-- The longer forms of the length, byte by byte.
use vitex.Common.{
  ℕ, suc, ◌+◌, ◌*◌, ◌/◌, ◌%◌, ◌^◌, ◌≡◌, ◌≤◌, ◌<◌, arith, refl, ap, ◌∙◌, List, ◌++◌, Bool, bit_or,
  some, pow-add, two-pow-pos,
}
use vitex.Common.Bytes.{be_bytes}
use vitex.Common.Bits.{or-disjoint}
use vitex.WebSocket.Codec.{
  Codec, more, round, read_last, length160, length161, length640, length647, after_length, loop,
}
use vitex.WebSocket.Codec.Steps.{loop-more}
use native.Mathlib.Nat.{mul-le-mul_right}

-- The next lower byte of a number that is read from the highest byte on.
or_byte :
    (place a i : ℕ)
    → i < 256
    → bit_or (a * 2 ^ (place + 8)) (i * 2 ^ place) ≡ (a * 256 + i) * 2 ^ place
or_byte place a i h =
    or-disjoint (place + 8) a (i * 2 ^ place) below
    ∙ omega (arith, ap (λ (t : ℕ). a * t) (pow-add 2 place 8))
  where
    below : i * 2 ^ place < 2 ^ (place + 8)
    below =
        omega
          (arith, pow-add 2 place 8, mul-le-mul_right (2 ^ place) (next_le h), two-pow-pos place)
      where
        next_le : {k : ℕ} → k < 256 → k + 1 ≤ 256
        next_le l = omega arith

module _ (i0 i1 i2 i3 i4 i5 i6 i7 : ℕ) (h1 : i1 < 256) (h2 : i2 < 256) (h3 : i3 < 256)
    (h4 : i4 < 256) (h5 : i5 < 256) (h6 : i6 < 256) (h7 : i7 < 256) where
  join8 :
      bit_or
        (bit_or
          (bit_or
            (bit_or
              (bit_or (bit_or (bit_or (i0 * 2 ^ 56) (i1 * 2 ^ 48)) (i2 * 2 ^ 40)) (i3 * 2 ^ 32))
              (i4 * 2 ^ 24))
            (i5 * 2 ^ 16))
          (i6 * 2 ^ 8))
        i7
      ≡ ((((((i0 * 256 + i1) * 256 + i2) * 256 + i3) * 256 + i4) * 256 + i5) * 256 + i6) * 256 + i7
  join8 =
      rw
        (
          or_byte 48 i0 i1 h1,
          or_byte 40 _ i2 h2,
          or_byte 32 _ i3 h3,
          or_byte 24 _ i4 h4,
          or_byte 16 _ i5 h5,
          or_byte 8 _ i6 h6,
        )
        (or-disjoint 8 _ i7 h7)

last_round :
    (c : Codec) (index least n : ℕ) (bs : List ℕ)
    → bit_or c.remains index ≡ n
    → least ≤ n
    → read_last c index least bs ≡ more (record c { remains = n; state = after_length c.masked }) bs
unfolding read_last after_length
last_round c index least n bs e h = rw e (ground arith)

module _ (r : Codec × Bool) (f : ℕ) (c : Codec) (n : ℕ) (rest : List ℕ) where
  pub loop-length16 :
      125 < n
      → n < 65536
      → loop f (record c { remains = n; state = after_length c.masked }) rest ≡ some r
      → loop (suc (suc f)) (record c { state = length160 }) (be_bytes 2 (n % 2 ^ 16) ++ rest)
        ≡ some r
  unfolding round
  loop-length16 h k run = loop-more r _ _ _ _ _ _ refl (
      loop-more r _ _ _ _ _ _
        (last_round (record c { remains = n % 2 ^ 16 / 256 % 256 * 2 ^ 8; state = length161 }) _ 126
          n rest joined h)
        run)
    where
      joined : bit_or (n % 2 ^ 16 / 256 % 256 * 2 ^ 8) (n % 2 ^ 16 % 256) ≡ n
      joined = or-disjoint 8 (n % 2 ^ 16 / 256 % 256) (n % 2 ^ 16 % 256) (omega arith) ∙ omega arith

  pub loop-length64 :
      65535 < n
      → n < 2 ^ 64
      → loop f (record c { remains = n; state = after_length c.masked }) rest ≡ some r
      → loop
          (suc (suc (suc (suc (suc (suc (suc (suc f))))))))
          (record c { state = length640 })
          (be_bytes 4 (n / 2 ^ 32 % 2 ^ 32) ++ be_bytes 4 (n % 2 ^ 32) ++ rest)
        ≡ some r
  unfolding round
  loop-length64 h k run = loop-more r _ _ _ _ _ _ refl (
      loop-more r _ _ _ _ _ _ refl (
        loop-more r _ _ _ _ _ _ refl (
          loop-more r _ _ _ _ _ _ refl (
            loop-more r _ _ _ _ _ _ refl (
              loop-more r _ _ _ _ _ _ refl (
                loop-more r _ _ _ _ _ _ refl (
                  loop-more r _ _ _ _ _ _
                    (last_round (record c { remains = seven; state = length647 }) _ 65536 n rest
                      joined h)
                    run)))))))
    where
      hi : ℕ
      hi = n / 2 ^ 32 % 2 ^ 32

      lo : ℕ
      lo = n % 2 ^ 32

      seven : ℕ
      seven =
          bit_or
            (bit_or
              (bit_or
                (bit_or
                  (bit_or
                    (bit_or (hi / 256 / 256 / 256 % 256 * 2 ^ 56) (hi / 256 / 256 % 256 * 2 ^ 48))
                    (hi / 256 % 256 * 2 ^ 40))
                  (hi % 256 * 2 ^ 32))
                (lo / 256 / 256 / 256 % 256 * 2 ^ 24))
              (lo / 256 / 256 % 256 * 2 ^ 16))
            (lo / 256 % 256 * 2 ^ 8)

      joined : bit_or seven (lo % 256) ≡ n
      joined =
          join8 (hi / 256 / 256 / 256 % 256) (hi / 256 / 256 % 256) (hi / 256 % 256) (hi % 256)
            (lo / 256 / 256 / 256 % 256) (lo / 256 / 256 % 256) (lo / 256 % 256) (lo % 256)
            (omega arith) (omega arith) (omega arith) (omega arith) (omega arith) (omega arith)
            (omega arith)
          ∙ omega arith
