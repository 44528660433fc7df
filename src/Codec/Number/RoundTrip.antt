-- ===== src/Codec/Number/RoundTrip.antt =====
-- A number that is written in hexadecimal digits is read again.
use vitex.Common.{
  ℕ, zero, suc, ◌+◌, ◌*◌, ◌/◌, ◌%◌, ◌^◌, ◌≡◌, ◌<◌, arith, refl, ap, ◌∙◌, List, [], ◌∷◌, Bool, true,
  false, not, ◌==◌, ◌&&◌, Bool-cases, inl, inr, Option, none, some, pow-add,
}
use vitex.Common.Lists.{length}
use vitex.Codec.Chars.{at, and_both, equal_of, all_below_lem}
use vitex.Codec.Url.{hex_lower_case}
use vitex.Codec.Number.{write_hex, decimal_to_hex, hex, hex_loop, hex_to_decimal}

abbrev is_digit : Option ℕ → ℕ → Bool
is_digit none i = false
is_digit (some v) i = v == i

digit_some : (o : Option ℕ) (i : ℕ) → is_digit o i ≡ true → o ≡ some i
digit_some none i h = absurd (ground arith)
digit_some (some v) i h = ap some (equal_of v i h)

abbrev is_read : ℕ → Bool
is_read i = not (at hex_lower_case i == 0) && is_digit (hex (at hex_lower_case i)) i

hex-at :
    (i : ℕ)
    → i < 16
    → (hex (at hex_lower_case i) ≡ some i) × (not (at hex_lower_case i == 0) ≡ true)
unfolding hex
hex-at i h =
    let (one, two) = and_both _ _ (all_below_lem 16 is_read refl i h) in (digit_some _ i two, one)

-- One digit in front of a text.
hex_loop-digit :
    (i value : ℕ) (text : List ℕ)
    → i < 16
    → hex_loop (suc (length text)) (at hex_lower_case i ∷ text) value
      ≡ hex_loop (length text) text (value * 16 + i)
unfolding hex_loop
hex_loop-digit i value text h =
    let some_digit : at hex_lower_case i == 0 ≡ false =
      no_end (at hex_lower_case i) (hex-at i h).1 in
    rw (some_digit, (hex-at i h).0, hex_loop) refl
  where
    no_end : (c : ℕ) → not (c == 0) ≡ true → c == 0 ≡ false
    no_end c e = ground (arith, e)

sixteen_pow : (fuel n : ℕ) → n < 16 ^ suc (suc fuel) → n / 16 < 16 ^ suc fuel
sixteen_pow fuel n h = omega (arith, pow-add 16 1 (suc fuel))

last_digit :
    (n : ℕ) (result : List ℕ)
    → n / 16 == 0 ≡ true
    → hex_loop (suc (length result)) (at hex_lower_case (n % 16) ∷ result) 0
      ≡ hex_loop (length result) result n
last_digit n result e =
    hex_loop-digit (n % 16) 0 result (omega arith)
    ∙ ap (hex_loop (length result) result) (ground (arith, e))

write_hex_lem :
    (fuel n : ℕ) (result : List ℕ)
    → n < 16 ^ suc fuel
    → hex_loop (length (write_hex (suc fuel) n result)) (write_hex (suc fuel) n result) 0
      ≡ hex_loop (length result) result n
unfolding write_hex
write_hex_lem zero n result h = elim (Bool-cases (n / 16 == 0)) [
  | inl e ↦ rw e (last_digit n result e)
  | inr e ↦ absurd (ground (arith, e))
]
write_hex_lem (suc fuel) n result h = elim (Bool-cases (n / 16 == 0)) [
  | inl e ↦ rw e (last_digit n result e)
  | inr e ↦ rw e (
      write_hex_lem fuel (n / 16) (at hex_lower_case (n % 16) ∷ result) (sixteen_pow fuel n h)
      ∙ hex_loop-digit (n % 16) (n / 16) result (omega arith)
      ∙ ap (hex_loop (length result) result) (omega arith))
]

-- Reading all of the hexadecimal text of a number below 2^31 succeeds and gives the number.
pub hex_to_decimal-decimal_to_hex :
    (n : ℕ)
    → n < 2 ^ 31
    → hex_to_decimal (decimal_to_hex n) 0 (length (decimal_to_hex n)) ≡ (true, n)
unfolding hex_to_decimal decimal_to_hex
hex_to_decimal-decimal_to_hex n h = write_hex_lem 15 n [] (omega arith)
