-- ===== src/Uint128/Width.antt =====
-- `bits` and `bytes`: how many binary digits and how many bytes a number takes.
use vitex.Common.{
  byte_powers, true, false, ℕ, zero, suc, ◌+◌, ◌-◌, ◌*◌, ◌/◌, ◌%◌, ◌^◌, ◌≤◌, ◌<◌, ◌≡◌, arith, ◌==◌,
  min, max, if◌then◌else◌, not, ◌≢◌, pow-add, two-pow-lt_inv, Bool-cases, inl, inr,
}
use vitex.Uint128.Word.{Uint128, IsWide, value, value-lt, to_bool, to_bool_lem}
use native.Mathlib.Nat.{pow-suc, pow-le-pow_right}

-- `while (n) { n >>= 1; out++; }`; the fuel is a number of rounds that is not exceeded.
count_bits : ℕ → ℕ → ℕ → ℕ
count_bits zero n out = out
count_bits (suc fuel) n out =
    let rest = count_bits fuel (n / 2) (out + 1) in if n == 0 then out else rest

pub bits : Uint128 → ℕ
bits x = if not (x.upper == 0) then count_bits 64 x.upper 64 else count_bits 64 x.lower 0

-- `k` is the number of binary digits of `n`.
pub record IsBitLength (n k : ℕ) : Type 0 where
  pub below : n < 2 ^ k
  pub least : 2 ^ k ≤ 2 * n + 1

IsBitLength-half : (n k : ℕ) → n ≢ 0 → IsBitLength (n / 2) k → IsBitLength n (suc k)
IsBitLength-half n zero ne b = omega arith
IsBitLength-half n (suc k) ne b = omega (arith, pow-suc 2 k, pow-suc 2 (suc k))

-- With enough fuel the loop ends by its test, and adds the number of digits to `out`.
count_bits_lem :
    (fuel n out : ℕ) → n < 2 ^ fuel → (k : ℕ) × (count_bits fuel n out ≡ out + k) × IsBitLength n k
unfolding count_bits
count_bits_lem zero n out h = (0, omega arith, omega arith)
count_bits_lem (suc fuel) n out h =
    let (k, counted, length) =
      count_bits_lem fuel (n / 2) (out + 1) (omega (arith, pow-suc 2 fuel)) in
    elim (Bool-cases (n == 0)) [
      | inl stop ↦ (0, rw stop (omega arith), ground arith)
      | inr go ↦ (suc k, rw go (omega arith), IsBitLength-half n k (ground arith) length)
    ]

IsBitLength-low :
    (u l k : ℕ) → u == 0 ≡ true → IsBitLength l k → IsBitLength (u * 2 ^ 64 + l) (0 + k)
IsBitLength-low u l k low b = ground arith

IsBitLength-high :
    (u l k : ℕ)
    → u == 0 ≡ false
    → l < 2 ^ 64
    → IsBitLength u k
    → IsBitLength (u * 2 ^ 64 + l) (64 + k)
IsBitLength-high u l zero high h b = ground arith
IsBitLength-high u l (suc k) high h b = ground (arith, pow-add 2 64 (suc k), pow-suc 2 k)

-- bits counts the binary digits of a 128-bit value: the number is below 2^bits, and bits is the
-- least such count.
pub bits_lem : (x : Uint128) → IsWide x → IsBitLength (value x) (bits x)
unfolding bits
bits_lem x w = elim (Bool-cases (x.upper == 0)) [
  | inl low ↦
      let (k, counted, length) = count_bits_lem 64 x.lower 0 w.lower_fits in
      rw (low, counted) (IsBitLength-low x.upper x.lower k low length)
  | inr high ↦
      let (k, counted, length) = count_bits_lem 64 x.upper 64 w.upper_fits in
      rw (high, counted) (IsBitLength-high x.upper x.lower k high w.lower_fits length)
]

pub bits-le : (x : Uint128) → IsWide x → bits x ≤ 128
bits-le x w = omega (arith, two-pow-lt_inv (bits x) 129, (bits_lem x w).least, value-lt x w)

-- The count of bytes leaves out the `length--` that the 256-bit version has.
pub bytes : Uint128 → ℕ
bytes x = if not (to_bool x) then 0 else let n = bits x in max 1 (min 16 ((n - n % 8 + 8) / 8))

-- For a 128-bit value other than 0, bytes is one more than the number of whole bytes among its
-- binary digits, and 16 at most.
pub bytes_lem : (x : Uint128) → IsWide x → value x ≢ 0 → bytes x ≡ min 16 (bits x / 8 + 1)
unfolding bytes
bytes_lem x w ne = ground (arith, to_bool_lem x)

bits-le-bytes : (x : Uint128) → IsWide x → bits x ≤ 8 * bytes x
bits-le-bytes x w = elim (Bool-cases (value x == 0)) [
  | inl z ↦ ground (arith, two-pow-lt_inv (bits x) 1, (bits_lem x w).least)
  | inr nz ↦ ground (arith, bytes_lem x w, bits-le x w)
]

-- The bytes counted are enough.
pub value-lt-bytes : (x : Uint128) → IsWide x → value x < 256 ^ bytes x
value-lt-bytes x w = rw (byte_powers (bytes x)) (
    omega (arith, (bits_lem x w).below, pow-le-pow_right {n = 2} (omega arith) (bits-le-bytes x w)))

pub bytes-le : (x : Uint128) → bytes x ≤ 16
unfolding bytes
bytes-le x = ground arith
