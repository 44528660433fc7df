-- ===== src/Decimal/Digits.antt =====
-- The digit loops of src/vitex/core.cpp behind the decimal operators: `sum`, `subtract` and
-- `multiply` on the characters of `source`, the lowest digit first. Both operands hold at least
-- one digit, as those of every number do that was read from a valid text.
pub mod Value
pub mod Laws
pub mod Multiply
pub mod Compare
use vitex.Common.{
  ℕ, zero, suc, ◌+◌, ◌-◌, ◌*◌, ◌/◌, ◌%◌, ◌≤◌, ◌<◌, ◌≡◌, arith, refl, List, [], ◌∷◌, ◌++◌, Bool, ltb,
  ◌==◌, if◌then◌else◌,
}
use vitex.Common.Lists.{replicate}

unfoldable pub char_to_int : ℕ → ℕ
char_to_int c = c - b'0'

-- The result is cut off to a `char`.
unfoldable pub int_to_char : ℕ → ℕ
int_to_char v = (v + b'0') % 256

-- One round of `sum` over two digits: what is written, and the new carry.
unfoldable pub sum_digit : ℕ → ℕ
sum_digit aus = int_to_char (if ltb 9 aus then aus - 10 else aus)

unfoldable pub sum_carry : ℕ → ℕ
sum_carry aus = if ltb 9 aus then 1 else 0

-- A digit past the end of the shorter number is 0; a last carry becomes a digit.
unfoldable pub sum_from : ℕ → List ℕ → List ℕ → List ℕ
sum_from carry [] [] = if carry == 0 then [] else int_to_char carry ∷ []
sum_from carry (a ∷ as') [] =
    let aus = char_to_int a + 0 + carry in sum_digit aus ∷ sum_from (sum_carry aus) as' []
sum_from carry [] (b ∷ bs) =
    let aus = 0 + char_to_int b + carry in sum_digit aus ∷ sum_from (sum_carry aus) [] bs
sum_from carry (a ∷ as') (b ∷ bs) =
    let aus = char_to_int a + char_to_int b + carry in
    sum_digit aus ∷ sum_from (sum_carry aus) as' bs

unfoldable pub sum : List ℕ → List ℕ → List ℕ
sum left right = sum_from 0 left right

-- One round of `subtract`. `val1 - carry` may be -1 in the source, so the carry is counted on the
-- other side here.
unfoldable pub subtract_digit : ℕ → ℕ → ℕ → ℕ
subtract_digit val1 val2 carry =
    int_to_char
      (if ltb val1 (val2 + carry) then 10 + val1 - (val2 + carry) else val1 - (val2 + carry))

unfoldable pub subtract_carry : ℕ → ℕ → ℕ → ℕ
subtract_carry val1 val2 carry = if ltb val1 (val2 + carry) then 1 else 0

unfoldable pub subtract_from : ℕ → List ℕ → List ℕ → List ℕ
subtract_from carry [] right = []
subtract_from carry (a ∷ as') [] =
    subtract_digit (char_to_int a) 0 carry
    ∷ subtract_from (subtract_carry (char_to_int a) 0 carry) as' []
subtract_from carry (a ∷ as') (b ∷ bs) =
    subtract_digit (char_to_int a) (char_to_int b) carry
    ∷ subtract_from (subtract_carry (char_to_int a) (char_to_int b) carry) as' bs

unfoldable pub subtract : List ℕ → List ℕ → List ℕ
subtract left right = subtract_from 0 left right

-- `while (aus > 9) { carry++; aus -= 10; }`, with the fuel `aus`.
unfoldable pub reduce : ℕ → ℕ → ℕ → ℕ × ℕ
reduce zero carry aus = (carry, aus)
reduce (suc fuel) carry aus =
    let rest = reduce fuel (carry + 1) (aus - 10) in if ltb 9 aus then rest else (carry, aus)

-- The digits of `left` times the digit `r`.
unfoldable pub multiply_row : ℕ → ℕ → List ℕ → List ℕ
multiply_row r carry [] = if carry == 0 then [] else int_to_char carry ∷ []
multiply_row r carry (a ∷ as') =
    let aus = r * char_to_int a + carry in
    let (carry', rest) = reduce aus 0 aus in int_to_char rest ∷ multiply_row r carry' as'

-- The round for the digit at place `i` adds its row, moved up by `i` zeros.
unfoldable pub multiply_from : ℕ → List ℕ → List ℕ → List ℕ → List ℕ
multiply_from i result left [] = result
multiply_from i result left (b ∷ bs) =
    multiply_from (suc i) (sum result (replicate i b'0' ++ multiply_row (char_to_int b) 0 left))
      left bs

unfoldable pub multiply : List ℕ → List ℕ → List ℕ
multiply left right = multiply_from 0 (b'0' ∷ []) left right
