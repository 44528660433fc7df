-- ===== src/Decimal/Digits/Laws.antt =====
-- The digit loops compute sums, differences and products of the numbers, without a bound.
use vitex.Common.{
  ℕ, zero, suc, ◌+◌, ◌-◌, ◌*◌, ◌/◌, ◌%◌, ◌^◌, ◌≤◌, ◌<◌, ◌≡◌, ◌==◌, ◌⊎◌, max, arith, refl, List, [],
  ◌∷◌, Bool-cases, inl, inr,
}
use vitex.Common.Lists.{length}
use vitex.Decimal.Digits
use vitex.Decimal.Digits.{
  char_to_int, int_to_char, sum, sum_from, subtract, subtract_from, multiply, multiply_row,
  multiply_from, reduce,
}
use vitex.Decimal.Digits.Value.{IsDigit, AreDigits, number, int_to_char_lem}
use native.Mathlib.Nat.{pow-suc}

-- A digit and a carry of 0 or 1 come out of two digits and a carry.
sum_round :
    (aus : ℕ)
    → aus < 20
    → IsDigit (Digits.sum_digit aus)
      × (Digits.sum_carry aus ≤ 1)
      × ((Digits.sum_digit aus - b'0') + 10 * Digits.sum_carry aus ≡ aus)
unfolding Digits.sum_digit Digits.sum_carry
sum_round aus h = ground (arith, int_to_char_lem aus, int_to_char_lem (aus - 10))

sum_from_lem :
    (carry : ℕ) (left right : List ℕ)
    → carry ≤ 1
    → AreDigits left
    → AreDigits right
    → AreDigits (sum_from carry left right)
      × (number (sum_from carry left right) ≡ number left + number right + carry)
unfolding sum_from char_to_int
sum_from_lem carry [] [] h _ _ = ground (arith, int_to_char_lem carry)
sum_from_lem carry (a ∷ as') [] h (ha, has) r =
    let round = sum_round ((a - b'0') + 0 + carry) (omega arith) in
    let rest = sum_from_lem (Digits.sum_carry ((a - b'0') + 0 + carry)) as' [] round.1 has tt in
    ((round.0, rest.0), omega (arith, round.2, rest.1))
sum_from_lem carry [] (b ∷ bs) h l (hb, hbs) =
    let round = sum_round (0 + (b - b'0') + carry) (omega arith) in
    let rest = sum_from_lem (Digits.sum_carry (0 + (b - b'0') + carry)) [] bs round.1 tt hbs in
    ((round.0, rest.0), omega (arith, round.2, rest.1))
sum_from_lem carry (a ∷ as') (b ∷ bs) h (ha, has) (hb, hbs) =
    let round = sum_round ((a - b'0') + (b - b'0') + carry) (omega arith) in
    let rest =
      sum_from_lem (Digits.sum_carry ((a - b'0') + (b - b'0') + carry)) as' bs round.1 has hbs in
    ((round.0, rest.0), omega (arith, round.2, rest.1))

-- `sum` adds numbers of any length.
pub sum_lem :
    (left right : List ℕ)
    → AreDigits left
    → AreDigits right
    → AreDigits (sum left right) × (number (sum left right) ≡ number left + number right)
unfolding sum
sum_lem left right hl hr =
    let all = sum_from_lem 0 left right (omega arith) hl hr in (all.0, omega (arith, all.1))

subtract_round :
    (u v carry : ℕ)
    → u < 10
    → v < 10
    → carry ≤ 1
    → IsDigit (Digits.subtract_digit u v carry)
      × (Digits.subtract_carry u v carry ≤ 1)
      × ((Digits.subtract_digit u v carry - b'0') + v + carry
          ≡ u + 10 * Digits.subtract_carry u v carry)
unfolding Digits.subtract_digit Digits.subtract_carry
subtract_round u v carry hu hv hc =
    ground (arith, int_to_char_lem (u - (v + carry)), int_to_char_lem (10 + u - (v + carry)))

-- The difference is exact where it is not negative; the digits of the second number end first.
subtract_from_lem :
    (carry : ℕ) (left right : List ℕ)
    → carry ≤ 1
    → AreDigits left
    → AreDigits right
    → number right + carry ≤ number left
    → AreDigits (subtract_from carry left right)
      × (number (subtract_from carry left right) + number right + carry ≡ number left)
      × (length (subtract_from carry left right) ≡ length left)
unfolding subtract_from char_to_int
subtract_from_lem carry [] right h l r le = (tt, omega arith, refl)
subtract_from_lem carry (a ∷ as') [] h (ha, has) r le =
    let round = subtract_round (a - b'0') 0 carry (omega arith) (omega arith) h in
    let rest =
      subtract_from_lem (Digits.subtract_carry (a - b'0') 0 carry) as' [] round.1 has tt
        (omega (arith, round.2, le)) in
    ((round.0, rest.0), omega (arith, round.2, rest.1), omega (arith, rest.2))
subtract_from_lem carry (a ∷ as') (b ∷ bs) h (ha, has) (hb, hbs) le =
    let round = subtract_round (a - b'0') (b - b'0') carry (omega arith) (omega arith) h in
    let rest =
      subtract_from_lem (Digits.subtract_carry (a - b'0') (b - b'0') carry) as' bs round.1 has hbs
        (omega (arith, round.0, round.2, le)) in
    ((round.0, rest.0), omega (arith, round.2, rest.1), omega (arith, rest.2))

-- For digit lists with right not greater than left, subtract gives digits, as many as left has,
-- of the difference of the numbers.
pub subtract_lem :
    (left right : List ℕ)
    → AreDigits left
    → AreDigits right
    → number right ≤ number left
    → AreDigits (subtract left right)
      × (number (subtract left right) ≡ number left - number right)
      × (length (subtract left right) ≡ length left)
unfolding subtract
subtract_lem left right hl hr le =
    let all = subtract_from_lem 0 left right (omega arith) hl hr (omega arith) in
    (all.0, omega (arith, all.1), all.2)

-- The loop that takes tens away divides by ten.
pub reduce_lem :
    (fuel carry aus : ℕ) → aus ≤ fuel → reduce fuel carry aus ≡ (carry + aus / 10, aus % 10)
unfolding reduce
reduce_lem zero carry aus h = ground arith
reduce_lem (suc fuel) carry aus h = ground (arith, reduce_lem fuel (carry + 1) (aus - 10))

-- A sum has as many digits as the longer number, or one more and then that one is not 0.
abbrev pub SumSize : ℕ → List ℕ → Type 0
SumSize n digits = (length digits ≡ n) ⊎ ((length digits ≡ n + 1) × (10 ^ n ≤ number digits))

SumSize-cons : (n c : ℕ) (cs : List ℕ) → SumSize n cs → SumSize (suc n) (c ∷ cs)
SumSize-cons n c cs (inl same) = inl (omega arith)
SumSize-cons n c cs (inr (longer, top)) = inr (omega arith, omega (arith, pow-suc 10 n))

sum_carry-le : (aus : ℕ) → Digits.sum_carry aus ≤ 1
unfolding Digits.sum_carry
sum_carry-le aus = ground arith

SumSize-max :
    (m n k c : ℕ) (cs : List ℕ) → max m n ≡ suc k → SumSize k cs → SumSize (max m n) (c ∷ cs)
SumSize-max m n k c cs e s = rw e (SumSize-cons k c cs s)

sum_from-SumSize :
    (carry : ℕ) (left right : List ℕ)
    → carry ≤ 1
    → SumSize (max (length left) (length right)) (sum_from carry left right)
unfolding sum_from
sum_from-SumSize carry [] [] h = elim (Bool-cases (carry == 0)) [
  | inl z ↦ rw z (inl refl)
  | inr nz ↦ rw nz (inr (omega arith, ground (arith, int_to_char_lem carry)))
]
sum_from-SumSize carry (a ∷ as') [] h =
    SumSize-max (length (a ∷ as')) 0 (max (length as') 0) _ _ (omega arith)
      (sum_from-SumSize (Digits.sum_carry (char_to_int a + 0 + carry)) as' [] (sum_carry-le _))
sum_from-SumSize carry [] (b ∷ bs) h =
    SumSize-max 0 (length (b ∷ bs)) (max 0 (length bs)) _ _ (omega arith)
      (sum_from-SumSize (Digits.sum_carry (0 + char_to_int b + carry)) [] bs (sum_carry-le _))
sum_from-SumSize carry (a ∷ as') (b ∷ bs) h =
    SumSize-max (length (a ∷ as')) (length (b ∷ bs)) (max (length as') (length bs)) _ _
      (omega arith)
      (sum_from-SumSize (Digits.sum_carry (char_to_int a + char_to_int b + carry)) as' bs
        (sum_carry-le _))

pub sum-SumSize :
    (left right : List ℕ) → SumSize (max (length left) (length right)) (sum left right)
unfolding sum
sum-SumSize left right = sum_from-SumSize 0 left right (omega arith)
