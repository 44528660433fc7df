-- ===== src/Decimal/Digits/Multiply.antt =====
-- `multiply` computes the product of two numbers of any length.
use vitex.Common.{
  ℕ, suc, ◌+◌, ◌-◌, ◌*◌, ◌/◌, ◌%◌, ◌^◌, ◌≤◌, ◌<◌, ◌≡◌, max, arith, ap, List, [], ◌∷◌, ◌++◌, inl,
  inr,
}
use vitex.Common.Lists.{length, replicate, length-append, length-replicate}
use vitex.Decimal.Digits.{char_to_int, sum, multiply, multiply_row, multiply_from}
use vitex.Decimal.Digits.Value.{
  AreDigits, number, int_to_char_lem, number-zeros, AreDigits-append, AreDigits-zeros,
}
use vitex.Decimal.Digits.Laws.{sum_lem, reduce_lem, sum-SumSize}
use native.Mathlib.Nat.{pow-suc, mul-le-mul}

digit_product : (r a : ℕ) → r < 10 → a < 10 → r * a ≤ 81
digit_product r a hr ha = mul-le-mul {n₂ = 9} {m₂ = 9} (omega arith) (omega arith)

multiply_row_lem :
    (r carry : ℕ) (left : List ℕ)
    → r < 10
    → carry < 10
    → AreDigits left
    → AreDigits (multiply_row r carry left)
      × (number (multiply_row r carry left) ≡ r * number left + carry)
unfolding multiply_row char_to_int
multiply_row_lem r carry [] hr hc _ = ground (arith, int_to_char_lem carry)
multiply_row_lem r carry (a ∷ as') hr hc (ha, has) =
    let aus = r * (a - b'0') + carry in
    let small = digit_product r (a - b'0') hr (omega arith) in
    let rest = multiply_row_lem r (0 + aus / 10) as' hr (omega arith) has in
    let digit = int_to_char_lem (aus % 10) (omega arith) in
    rw (reduce_lem aus 0 aus (omega arith)) ((digit.0, rest.0), omega (arith, digit.1, rest.1))

multiply_from_lem :
    (i : ℕ) (result left right : List ℕ)
    → AreDigits result
    → AreDigits left
    → AreDigits right
    → AreDigits (multiply_from i result left right)
      × (number (multiply_from i result left right)
          ≡ number result + 10 ^ i * (number left * number right))
unfolding multiply_from char_to_int
multiply_from_lem i result left [] h l _ = (h, omega arith)
multiply_from_lem i result left (b ∷ bs) h l (hb, hbs) =
    let row = multiply_row_lem (b - b'0') 0 left (omega arith) (omega arith) l in
    let line = replicate i b'0' ++ multiply_row (b - b'0') 0 left in
    let added = sum_lem result line h (AreDigits-append _ _ (AreDigits-zeros i) row.0) in
    let rest = multiply_from_lem (suc i) (sum result line) left bs added.0 l hbs in
    (
      rest.0,
      omega (
        arith,
        rest.1,
        added.1,
        number-zeros i (multiply_row (b - b'0') 0 left),
        ap (λ (t : ℕ). 10 ^ i * t) row.1,
        ap (λ (t : ℕ). t * (number left * number bs)) (pow-suc 10 i),
      ),
    )

-- For digit lists, multiply gives digits of the product of the numbers.
pub multiply_lem :
    (left right : List ℕ)
    → AreDigits left
    → AreDigits right
    → AreDigits (multiply left right) × (number (multiply left right) ≡ number left * number right)
unfolding multiply
multiply_lem left right hl hr =
    let all = multiply_from_lem 0 (b'0' ∷ []) left right (omega arith) hl hr in
    (all.0, omega (arith, all.1))

-- A product has at least as many digits as the operands together, less one.
length-multiply_row :
    (r carry : ℕ) (left : List ℕ) → length left ≤ length (multiply_row r carry left)
unfolding multiply_row
length-multiply_row r carry [] = omega arith
length-multiply_row r carry (a ∷ as') =
    let aus = r * char_to_int a + carry in
    rw (reduce_lem aus 0 aus (omega arith))
      (omega (arith, length-multiply_row r (0 + aus / 10) as'))

length-sum : (left right : List ℕ) → max (length left) (length right) ≤ length (sum left right)
length-sum left right = elim (sum-SumSize left right) [
  | inl same ↦ omega (arith, same)
  | inr (longer, top) ↦ omega (arith, longer)
]

length-multiply_from :
    (i : ℕ) (result left : List ℕ) (b : ℕ) (bs : List ℕ)
    → i + length left + length (b ∷ bs) ≤ length (multiply_from i result left (b ∷ bs)) + 1
unfolding multiply_from
length-multiply_from i result left b [] =
    let row = multiply_row (char_to_int b) 0 left in
    omega (
      arith,
      length-sum result (replicate i b'0' ++ row),
      length-append (replicate i b'0') row,
      length-replicate {A = ℕ} i b'0',
      length-multiply_row (char_to_int b) 0 left,
    )
length-multiply_from i result left b (c ∷ cs) = omega (
  arith,
  length-multiply_from (suc i)
      (sum result (replicate i b'0' ++ multiply_row (char_to_int b) 0 left)) left c cs,
)

pub length-multiply :
    (left right : List ℕ)
    → 0 < length right
    → length left + length right ≤ length (multiply left right) + 1
unfolding multiply
length-multiply left [] h = absurd (omega arith)
length-multiply left (b ∷ bs) h = omega (arith, length-multiply_from 0 (b'0' ∷ []) left b bs)
