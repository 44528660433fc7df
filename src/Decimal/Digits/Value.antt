-- ===== src/Decimal/Digits/Value.antt =====
-- The number that a list of digits stands for, the lowest digit first.
use vitex.Common.{ℕ, zero, suc, ◌+◌, ◌-◌, ◌*◌, ◌^◌, ◌≤◌, ◌<◌, ◌≡◌, arith, ap, List, [], ◌∷◌, ◌++◌}
use vitex.Common.Lists.{length, replicate}
use vitex.Decimal.Digits.{int_to_char}
use native.Mathlib.Nat.{pow-suc}

abbrev pub IsDigit : ℕ → Type 0
IsDigit c = (b'0' ≤ c) × (c ≤ b'9')

abbrev pub AreDigits : List ℕ → Type 0
AreDigits [] = Unit
AreDigits (c ∷ cs) = IsDigit c × AreDigits cs

abbrev pub number : List ℕ → ℕ
number [] = 0
number (c ∷ cs) = (c - b'0') + 10 * number cs

pub int_to_char_lem : (v : ℕ) → v < 10 → IsDigit (int_to_char v) × (int_to_char v - b'0' ≡ v)
unfolding int_to_char
int_to_char_lem v h = omega arith

pub AreDigits-append : (xs ys : List ℕ) → AreDigits xs → AreDigits ys → AreDigits (xs ++ ys)
AreDigits-append [] ys _ hy = hy
AreDigits-append (x ∷ xs) ys (hx, hxs) hy = (hx, AreDigits-append xs ys hxs hy)

pub AreDigits-zeros : (n : ℕ) → AreDigits (replicate n b'0')
AreDigits-zeros zero = tt
AreDigits-zeros (suc n) = (omega arith, AreDigits-zeros n)

-- Digits behind `n` lower ones count `10 ^ n` times as much.
pub number-append : (xs ys : List ℕ) → number (xs ++ ys) ≡ number xs + 10 ^ length xs * number ys
number-append [] ys = omega arith
number-append (x ∷ xs) ys =
    omega (arith, number-append xs ys, ap (λ (t : ℕ). t * number ys) (pow-suc 10 (length xs)))

pub number-zeros : (n : ℕ) (ys : List ℕ) → number (replicate n b'0' ++ ys) ≡ 10 ^ n * number ys
number-zeros zero ys = omega arith
number-zeros (suc n) ys =
    omega (arith, number-zeros n ys, ap (λ (t : ℕ). t * number ys) (pow-suc 10 n))

pub number-lt : (xs : List ℕ) → AreDigits xs → number xs < 10 ^ length xs
number-lt [] _ = omega arith
number-lt (x ∷ xs) (hx, hxs) = omega (arith, number-lt xs hxs, pow-suc 10 (length xs))
