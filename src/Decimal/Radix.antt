-- ===== src/Decimal/Radix.antt =====
-- `decimal::from`: a number from its digits in a base of up to 36.
pub mod Laws
use vitex.Common.{ℕ, ◌+◌, ◌-◌, ◌/◌, ◌%◌, List, [], ◌∷◌, ◌&&◌, ltb, leb, if◌then◌else◌}
use vitex.Decimal.Number.{plus, Decimal, zero_number}
use vitex.Decimal.Arith.{add, mul}

-- The table of the source: digits and letters of both cases, and 0 for every other byte.
pub mapping : ℕ → ℕ
mapping c =
    if leb b'0' c && leb c b'9'
    then c - b'0'
    else if leb b'A' c && leb c b'Z'
    then c - b'A' + 10
    else if leb b'a' c && leb c b'z'
    then c - b'a' + 10
    else 0

-- What the constructor makes of a `uint8_t` below 100, which a digit and a base are.
of_small : ℕ → Decimal
of_small n =
    if ltb n 10
    then record { source = (n + b'0') ∷ []; length = 0; sign = plus }
    else record { source = (n % 10 + b'0') ∷ (n / 10 + b'0') ∷ []; length = 0; sign = plus }

from_digits : Decimal → Decimal → List ℕ → Decimal
from_digits radix value [] = value
from_digits radix value (c ∷ cs) =
    from_digits radix (add (mul value radix) (of_small (mapping c))) cs

pub from : List ℕ → ℕ → Decimal
from data' base = from_digits (of_small base) zero_number data'
