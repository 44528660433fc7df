-- ===== src/Decimal/Number.antt =====
-- The record `decimal` of src/vitex/core.h, its predicates, the removal of needless zeros, and
-- `compare_num` with the six comparison operators.
pub mod Laws
pub mod Zeros
use vitex.Common.{
  max, ℕ, zero, suc, ◌+◌, ◌-◌, ◌≤◌, ◌<◌, List, [], ◌∷◌, ◌++◌, Bool, true, false, not, ◌&&◌, ◌||◌,
  ltb, ◌==◌, if◌then◌else◌,
}
use vitex.Common.Lists.{length, replicate}
use vitex.Decimal.Digits.Compare.{compare_digits}

-- The characters that `sign` holds: '\0' for no number, '+' and '-'.
pub data Sign : Type 0 where
  nan plus minus : Sign

-- `source` holds the digits as characters, the lowest first, and `length` counts those behind the
-- point. The `int32_t length` is never negative.
pub record Decimal : Type 0 where
  pub source : List ℕ
  pub length : ℕ
  pub sign : Sign

unfoldable pub is_nan_sign : Sign → Bool
is_nan_sign nan = true
is_nan_sign plus = false
is_nan_sign minus = false

unfoldable pub is_nan : Decimal → Bool
is_nan x = is_nan_sign x.sign

-- `decimal()`, which is also `decimal::nan()`.
abbrev pub not_a_number : Decimal
not_a_number = record { source = []; length = 0; sign = nan }

-- `decimal::zero()`, and what the assignment of the integer 0 gives.
abbrev pub zero_number : Decimal
zero_number = record { source = b'0' ∷ []; length = 0; sign = plus }

unfoldable pub all_zeros : List ℕ → Bool
all_zeros [] = true
all_zeros (c ∷ cs) = if c == b'0' then all_zeros cs else false

unfoldable pub is_zero : Decimal → Bool
is_zero x = all_zeros x.source

pub is_integer : Decimal → Bool
is_integer x = x.length == 0

pub is_fractional : Decimal → Bool
is_fractional x = ltb 0 x.length

-- Zeros are put in front of the lowest digit until `length` is at least `n`.
unfoldable pub pad : Decimal → ℕ → Decimal
pad x n = record x {
  source = replicate (n - x.length) b'0' ++ x.source;
  length = x.length + (n - x.length);
}

-- A character before what is left of those behind it: a zero goes where nothing is left.
unfoldable pub strip_char : ℕ → List ℕ → List ℕ
strip_char c [] = if c == b'0' then [] else c ∷ []
strip_char c (d ∷ ds) = c ∷ d ∷ ds

-- Removes zeros at the end of the list, down to `keep` characters.
unfoldable pub strip : ℕ → List ℕ → List ℕ
strip zero [] = []
strip zero (c ∷ cs) = strip_char c (strip zero cs)
strip (suc keep) [] = []
strip (suc keep) (c ∷ cs) = c ∷ strip keep cs

-- Leading zeros go, except for the digit before the point.
unfoldable pub unlead : Decimal → Decimal
unlead x = record x { source = strip (x.length + 1) x.source }

-- Zeros behind the point go, from the lowest digit on.
unfoldable pub drop_zeros : List ℕ → ℕ → List ℕ × ℕ
drop_zeros [] n = ([], n)
drop_zeros (c ∷ cs) zero = (c ∷ cs, zero)
drop_zeros (c ∷ cs) (suc n) =
    let rest = drop_zeros cs n in if c == b'0' then rest else (c ∷ cs, suc n)

unfoldable pub untrail : Decimal → Decimal
untrail x =
    if is_nan x
    then x
    else let (source', length') = drop_zeros x.source x.length in
      record x { source = source'; length = length' }

unfoldable pub trim : Decimal → Decimal
trim x = untrail (unlead x)

-- 0 for equal, 1 where `left` is greater and 2 where `right` is, without the signs.
unfoldable pub compare_num : Decimal → Decimal → ℕ
compare_num left right =
    let left_size = length left.source - left.length in
    let right_size = length right.source - right.length in
    if ltb right_size left_size
    then 1
    else if ltb left_size right_size
    then 2
    else if ltb right.length left.length
    then compare_digits left.source (pad right left.length).source
    else if ltb left.length right.length
    then compare_digits (pad left right.length).source right.source
    else compare_digits left.source right.source

unfoldable pub is_zero_or_nan : Decimal → Bool
is_zero_or_nan x = is_nan x || is_zero x

-- The counts of characters behind and before the point, one before it at least.
unfoldable pub decimal_size : Decimal → ℕ
decimal_size x = x.length

unfoldable pub integer_size : Decimal → ℕ
integer_size x = if ltb x.length (length x.source) then max 1 (length x.source - x.length) else 1
