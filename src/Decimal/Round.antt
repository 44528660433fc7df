-- ===== src/Decimal/Round.antt =====
-- `truncate` and `round` of `decimal`.
pub mod Laws
use vitex.Common.{ℕ, zero, suc, ◌+◌, ◌-◌, List, [], ◌∷◌, ◌++◌, Bool, ltb, leb, ◌==◌, if◌then◌else◌}
use vitex.Common.Lists.{replicate, drop}
use vitex.Decimal.Digits.{char_to_int}
use vitex.Decimal.Number.{Sign, plus, Decimal, is_nan, pad}
use vitex.Decimal.Arith.{add, increment}

-- Digits behind the point are added as zeros or erased, until there are `precision`.
unfoldable pub set_length : Decimal → ℕ → Decimal
set_length x precision =
    if ltb x.length precision
    then pad x precision
    else record x { source = drop (x.length - precision) x.source; length = precision }

unfoldable pub truncate : Decimal → ℕ → Decimal
truncate x precision = if is_nan x then x else set_length x precision

-- `source[0]`, which is '\0' for an empty string.
unfoldable pub first_char : List ℕ → ℕ
first_char [] = 0
first_char (c ∷ cs) = c

-- "0.0...01" as a decimal with `precision` digits behind the point.
abbrev pub last_place : ℕ → Decimal
last_place precision = record {
  source = b'1' ∷ replicate precision b'0';
  length = precision;
  sign = plus;
}

unfoldable pub round_up : Decimal → ℕ → Decimal
round_up x precision = if precision == 0 then increment x else add x (last_place precision)

-- `last` is the digit that is erased last; a digit below '0' as a char is no digit and is not 5 or
-- more.
unfoldable pub round : Decimal → ℕ → Decimal
round x precision =
    if is_nan x
    then x
    else if ltb precision x.length
    then if leb 5 (char_to_int (first_char (drop (x.length - precision - 1) x.source)))
      then round_up (set_length x precision) precision
      else set_length x precision
    else set_length x precision
