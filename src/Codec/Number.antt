-- ===== src/Codec/Number.antt =====
-- Numbers as texts: `base10_to_base_n`, `decimal_to_hex`, `hex` and `hex_to_decimal`.
pub mod Radix
pub mod RoundTrip
use vitex.Common.{
  ℕ, zero, suc, ◌+◌, ◌-◌, ◌*◌, ◌/◌, ◌%◌, List, [], ◌∷◌, ◌++◌, Bool, true, false, leb, ◌==◌, ◌&&◌,
  if◌then◌else◌, Option, none, some,
}
use vitex.Common.Lists.{drop}
use vitex.Codec.Chars.{at, isdigit}
use vitex.Codec.Base64.{base64_set, codes}
use vitex.Codec.Url.{hex_lower_case}

-- 0 to 9, A to Z, a to z and two more.
abbrev pub base62_set : List ℕ
base62_set = codes 48 10 ++ codes 65 26 ++ codes 97 26 ++ 43 ∷ 47 ∷ []

abbrev pub base_set : ℕ → List ℕ
base_set base = if base == 64 then base64_set else base62_set

-- The loop puts each digit in front of the output. `none`: the fuel ran out.
unfoldable pub write_base : ℕ → List ℕ → ℕ → ℕ → List ℕ → Option (List ℕ)
write_base zero set base value output = if value == 0 then some output else none
write_base (suc fuel) set base value output =
    let rest = write_base fuel set base (value / base) (at set (value % base) ∷ output) in
    if value == 0 then some output else rest

-- A round for each binary digit is enough for a base of 2 or more.
unfoldable pub base10_to_base_n : ℕ → ℕ → Option (List ℕ)
unfolding write_base
base10_to_base_n value base =
    if value == 0 then some (48 ∷ []) else write_base 64 (base_set base) base value []

unfoldable pub write_hex : ℕ → ℕ → List ℕ → List ℕ
write_hex zero n result = result
write_hex (suc fuel) n result =
    let longer = write_hex fuel (n / 16) (at hex_lower_case (n % 16) ∷ result) in
    if n / 16 == 0 then at hex_lower_case (n % 16) ∷ result else longer

-- A number of 64 bits has 16 digits at most.
unfoldable pub decimal_to_hex : ℕ → List ℕ
unfolding write_hex
decimal_to_hex n = write_hex 16 n []

unfoldable pub hex : ℕ → Option ℕ
hex code =
    if leb 32 code && isdigit code
    then some (code - 48)
    else if leb 65 code && leb code 70
    then some (code - 65 + 10)
    else if leb 97 code && leb code 102
    then some (code - 97 + 10)
    else none

-- The value that is left in the argument, whether or not all characters are digits.
unfoldable pub hex_loop : ℕ → List ℕ → ℕ → Bool × ℕ
unfolding hex
hex_loop zero text value = (true, value)
hex_loop (suc count) [] value = (false, value)
hex_loop (suc count) (c ∷ text) value =
    if c == 0
    then (false, value)
    else elim (hex c) [ none ↦ (false, value) | some v ↦ hex_loop count text (value * 16 + v) ]

unfoldable pub hex_to_decimal : List ℕ → ℕ → ℕ → Bool × ℕ
unfolding hex_loop
hex_to_decimal text index count = hex_loop count (drop index text) 0
