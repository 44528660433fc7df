-- ===== src/Decimal/Digits/Compare.antt =====
-- The digit comparison inside `compare_num`, from the highest digit down: 0 for equal, 1 where the
-- first number is greater and 2 where the second is.
use vitex.Common.{ℕ, ◌≡◌, arith, refl, List, [], ◌∷◌, ltb, ◌==◌, if◌then◌else◌}
use vitex.Common.Lists.{length}
use vitex.Decimal.Digits.Value.{AreDigits, number}

-- The characters at one place.
unfoldable pub compare_chars : ℕ → ℕ → ℕ
compare_chars a b = if ltb b a then 1 else if ltb a b then 2 else 0

-- Lists of the same length; the places above decide first.
unfoldable pub compare_digits : List ℕ → List ℕ → ℕ
unfolding compare_chars
compare_digits [] right = 0
compare_digits (a ∷ as') [] = 0
compare_digits (a ∷ as') (b ∷ bs) =
    let above = compare_digits as' bs in if above == 0 then compare_chars a b else above

-- The code of an order between numbers.
abbrev pub order_code : ℕ → ℕ → ℕ
order_code m n = if ltb n m then 1 else if ltb m n then 2 else 0

-- Digits compare as the numbers do.
pub compare_digits_lem :
    (left right : List ℕ)
    → length left ≡ length right
    → AreDigits left
    → AreDigits right
    → compare_digits left right ≡ order_code (number left) (number right)
unfolding compare_digits
compare_digits_lem [] [] e _ _ = refl
compare_digits_lem [] (b ∷ bs) e _ _ = absurd (omega arith)
compare_digits_lem (a ∷ as') [] e _ _ = absurd (omega arith)
compare_digits_lem (a ∷ as') (b ∷ bs) e (ha, has) (hb, hbs) =
    ground (arith, compare_digits_lem as' bs (omega arith) has hbs)
