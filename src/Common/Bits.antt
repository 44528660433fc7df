-- ===== src/Common/Bits.antt =====
-- The bit operations at variables. An operation that works digit by digit works on the two parts
-- of a number split at any bit; `bit_and`, `bit_or` and `bit_xor` are such operations.
use Prim.Native.Nat.{
  ℕ, zero, suc, ◌+◌, ◌-◌, ◌*◌, ◌/◌, ◌%◌, ◌^◌, ◌≤◌, ◌<◌, min, max, bit_and, bit_or, bit_xor,
}
use Prim.Native.Nat.{digits, bitwise, differ, bit_and-bitwise, bit_or-bitwise, bit_xor-bitwise}
use mathlib.Core.Path.{◌≡◌, refl, ap, ap₂, ◌∙◌, sym}
use native.Mathlib.Omega.{arith}
use native.Mathlib.Nat.{one-le-pow, add-suc, add-zero, pow-suc, le_refl}

-- One more digit to go than the first number has changes nothing, if it changes nothing at 0.
module _ (z : ℕ → ℕ) (f : ℕ → ℕ → ℕ) where
  one_more_digit : (n a b : ℕ) → a ≤ n → digits z f (suc n) a b ≡ digits z f n a b
  one_more_digit zero zero b h = refl
  one_more_digit zero (suc a) b h = absurd (omega arith)
  one_more_digit (suc n) zero b h = refl
  one_more_digit (suc n) (suc a) b h =
      ap (λ (t : ℕ). t * 2 + f (suc a % 2) (b % 2))
        (one_more_digit n (suc a / 2) (b / 2) (omega arith))

  more_digits : (k n a b : ℕ) → a ≤ n → digits z f (n + k) a b ≡ digits z f n a b
  more_digits zero n a b h = rw add-zero
  more_digits (suc k) n a b h =
      rw (add-suc, one_more_digit (n + k) a b (omega arith)) (more_digits k n a b h)

  -- The lowest digit of the native operation, and the rest.
  bitwise_step :
      (a b : ℕ)
      → bitwise z f (suc a) b ≡ bitwise z f (suc a / 2) (b / 2) * 2 + f (suc a % 2) (b % 2)
  bitwise_step a b =
      ap (λ (t : ℕ). t * 2 + f (suc a % 2) (b % 2))
        (ap (λ n. digits z f n (suc a / 2) (b / 2)) fuel
          ∙ more_digits (a - suc a / 2) (suc a / 2) (suc a / 2) (b / 2) (le_refl _))
    where
      fuel : a ≡ suc a / 2 + (a - suc a / 2)
      fuel = omega arith

-- `op` works digit by digit, lowest first.
pub record IsDigitwise (op : ℕ → ℕ → ℕ) : Type 0 where
  pub digit : ℕ → ℕ → ℕ
  pub digit_zero : digit 0 0 ≡ 0
  pub digit_le : (a b : ℕ) → a < 2 → b < 2 → digit a b < 2
  pub step : (a b : ℕ) → op a b ≡ op (a / 2) (b / 2) * 2 + digit (a % 2) (b % 2)

whole : (a : ℕ) → a * 2 ^ 0 + 0 ≡ a
whole a = omega arith

halve : (a k b : ℕ) → (a * 2 ^ suc k + b) / 2 ≡ a * 2 ^ k + b / 2
halve a k b = omega (arith, ap (λ (t : ℕ). a * t) (pow-suc 2 k))

parity : (a k b : ℕ) → (a * 2 ^ suc k + b) % 2 ≡ b % 2
parity a k b = omega (arith, ap (λ (t : ℕ). a * t) (pow-suc 2 k))

module _ (op : ℕ → ℕ → ℕ) (d : IsDigitwise op) where
  zero_zero : op 0 0 ≡ 0
  zero_zero = omega (arith, d.step 0 0, d.digit_zero)

  pub digitwise-lt : (k a b : ℕ) → a < 2 ^ k → b < 2 ^ k → op a b < 2 ^ k
  digitwise-lt zero zero zero ha hb = omega (arith, zero_zero)
  digitwise-lt zero zero (suc b) ha hb = absurd (omega arith)
  digitwise-lt zero (suc a) b ha hb = absurd (omega arith)
  digitwise-lt (suc k) a b ha hb = omega (
    arith,
    d.step a b,
    d.digit_le (a % 2) (b % 2) (omega arith) (omega arith),
    pow-suc 2 k,
    digitwise-lt k (a / 2) (b / 2) (omega (arith, pow-suc 2 k)) (omega (arith, pow-suc 2 k)),
  )

  pub digitwise-split :
      (k a b c d : ℕ)
      → b < 2 ^ k
      → d < 2 ^ k
      → op (a * 2 ^ k + b) (c * 2 ^ k + d) ≡ op a c * 2 ^ k + op b d
  digitwise-split zero a zero c zero hb hd = omega (arith, zero_zero, ap₂ op (whole a) (whole c))
  digitwise-split zero a zero c (suc y) hb hd = absurd (omega arith)
  digitwise-split zero a (suc b) c y hb hd = absurd (omega arith)
  digitwise-split (suc k) a b c y hb hd = omega (
    arith,
    d.step (a * 2 ^ suc k + b) (c * 2 ^ suc k + y),
    ap₂ op (halve a k b) (halve c k y),
    ap₂ d.digit (parity a k b) (parity c k y),
    digitwise-split k a (b / 2) c (y / 2) (omega (arith, pow-suc 2 k)) (omega (arith, pow-suc 2 k)),
    d.step b y,
    ap (λ (t : ℕ). op a c * t) (pow-suc 2 k),
  )

IsDigitwise_of :
    (op : ℕ → ℕ → ℕ) (z : ℕ → ℕ) (f : ℕ → ℕ → ℕ)
    → ((a b : ℕ) → op a b ≡ bitwise z f a b)
    → ((b : ℕ) → z b ≡ z (b / 2) * 2 + f 0 (b % 2))
    → f 0 0 ≡ 0
    → ((a b : ℕ) → a < 2 → b < 2 → f a b < 2)
    → IsDigitwise op
IsDigitwise_of op z f e hz f0 fle = record {
  digit = f;
  digit_zero = f0;
  digit_le = fle;
  step = step;
}
  where
    step : (a b : ℕ) → op a b ≡ op (a / 2) (b / 2) * 2 + f (a % 2) (b % 2)
    step zero b = e 0 b ∙ hz b ∙ ap (λ (t : ℕ). t * 2 + f 0 (b % 2)) (sym (e 0 (b / 2)))
    step (suc a) b =
        e (suc a) b
        ∙ bitwise_step z f a b
        ∙ ap (λ (t : ℕ). t * 2 + f (suc a % 2) (b % 2)) (sym (e (suc a / 2) (b / 2)))

pub and-IsDigitwise : IsDigitwise bit_and
and-IsDigitwise =
    IsDigitwise_of bit_and (λ b. 0) min bit_and-bitwise (λ b. omega arith) refl
      (λ a b h k. omega arith)

pub or-IsDigitwise : IsDigitwise bit_or
or-IsDigitwise =
    IsDigitwise_of bit_or (λ b. b) max bit_or-bitwise (λ b. omega arith) refl
      (λ a b h k. omega arith)

differ_zero : (b : ℕ) → differ 0 b ≡ b
differ_zero b = refl

differ-lt : (a b : ℕ) → a < 2 → b < 2 → differ a b < 2
differ-lt zero b h k = k
differ-lt (suc a) zero h k = h
differ-lt (suc a) (suc b) h k = differ-lt a b (omega arith) (omega arith)

pub xor-IsDigitwise : IsDigitwise bit_xor
xor-IsDigitwise =
    IsDigitwise_of bit_xor (λ b. b) differ bit_xor-bitwise (λ b. omega arith) refl differ-lt

-- All the digits of a number beside a zero are its own.
or_zero_digits : (n a : ℕ) → a ≤ n → digits (λ b. b) max n a 0 ≡ a
or_zero_digits zero a h = omega arith
or_zero_digits (suc n) zero h = refl
or_zero_digits (suc n) (suc a) h = omega (arith, or_zero_digits n (suc a / 2) (omega arith))

pub bit_or-zero : (a : ℕ) → bit_or a 0 ≡ a
bit_or-zero a = bit_or-bitwise a 0 ∙ or_zero_digits a a (le_refl a)

pub zero-bit_or : (b : ℕ) → bit_or 0 b ≡ b
zero-bit_or b = bit_or-bitwise 0 b

-- `|` of disjoint fields is a sum.
pub or-disjoint : (k a b : ℕ) → b < 2 ^ k → bit_or (a * 2 ^ k) b ≡ a * 2 ^ k + b
or-disjoint k a b h =
    ap₂ bit_or (sym (add-zero (a * 2 ^ k))) low
    ∙ digitwise-split bit_or or-IsDigitwise k a 0 0 b (one-le-pow k 2 (omega arith)) h
    ∙ omega (arith, ap (λ (t : ℕ). t * 2 ^ k) (bit_or-zero a), zero-bit_or b)
  where
    low : b ≡ 0 * 2 ^ k + b
    low = omega arith

and_zero_digits : (n a : ℕ) → digits (λ b. 0) min n a 0 ≡ 0
and_zero_digits zero a = refl
and_zero_digits (suc n) zero = refl
and_zero_digits (suc n) (suc a) = omega (arith, and_zero_digits n (suc a / 2))

pub bit_and-zero : (a : ℕ) → bit_and a 0 ≡ 0
bit_and-zero a = bit_and-bitwise a 0 ∙ and_zero_digits a a

-- The lowest digit, by the mask 1.
pub bit_and-one : (a : ℕ) → bit_and a 1 ≡ a % 2
unfolding and-IsDigitwise IsDigitwise_of
bit_and-one a = omega (arith, and-IsDigitwise.step a 1, bit_and-zero (a / 2))
