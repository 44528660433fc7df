-- ===== src/Uint256/Width.antt =====
-- `uint256::bits` and `bytes`: how many binary digits and how many bytes a number takes.
use vitex.Common.{
  ℕ, zero, suc, ◌+◌, ◌-◌, ◌*◌, ◌/◌, ◌%◌, ◌^◌, ◌≤◌, ◌<◌, ◌≡◌, ◌≢◌, arith, ◌==◌, min, max,
  if◌then◌else◌, not, Bool-cases, inl, inr, pow-add, two-pow-lt_inv, byte_powers,
}
use vitex.Uint128.Word as Half
use vitex.Uint128.Word.{Uint128, of_word}
use vitex.Uint128.Shift.{shr, value-shr_by, shr-IsWide}
use vitex.Uint128.Width.{IsBitLength}
use vitex.Uint256.Word.{Uint256, IsWide, value, value-lt, to_bool, to_bool_lem}
use native.Mathlib.Nat.{pow-suc, pow-le-pow_right}

-- `while (n) { n >>= 1; out++; }` on a half; the fuel is a number of rounds that is not exceeded.
count_bits : ℕ → Uint128 → ℕ → ℕ
count_bits zero n out = out
count_bits (suc fuel) n out =
    let rest = count_bits fuel (shr n (of_word 1)) (out + 1) in if Half.to_bool n then rest else out

pub bits : Uint256 → ℕ
bits x = if Half.to_bool x.upper then count_bits 128 x.upper 128 else count_bits 128 x.lower 0

pub bytes : Uint256 → ℕ
bytes x =
    if not (to_bool x)
    then 0
    else let n = bits x in if n == 0 then 0 else max 1 (min 32 ((n - 1 - (n - 1) % 8 + 8) / 8))

IsBitLength-half : (n k : ℕ) → n ≢ 0 → IsBitLength (n / 2) k → IsBitLength n (suc k)
IsBitLength-half n zero ne b = omega arith
IsBitLength-half n (suc k) ne b = omega (arith, pow-suc 2 k, pow-suc 2 (suc k))

-- With enough fuel the loop ends by its test, and adds the number of digits to `out`.
count_bits_lem :
    (fuel : ℕ) (n : Uint128) (out : ℕ)
    → Half.IsWide n
    → Half.value n < 2 ^ fuel
    → (k : ℕ) × (count_bits fuel n out ≡ out + k) × IsBitLength (Half.value n) k
unfolding count_bits
count_bits_lem zero n out w h = (0, omega arith, omega arith)
count_bits_lem (suc fuel) n out w h =
    let (k, counted, length) =
      count_bits_lem fuel (shr n (of_word 1)) (out + 1) (shr-IsWide n (of_word 1) w)
        (omega (arith, pow-suc 2 fuel, value-shr_by n 1 w)) in
    elim (Bool-cases (Half.to_bool n)) [
      | inl go ↦ (
        suc k,
        rw go (omega arith),
        IsBitLength-half (Half.value n) k (ground (arith, Half.to_bool_lem n)) (halved k length),
      )
      | inr stop ↦ (0, rw stop (omega arith), ground (arith, Half.to_bool_lem n))
    ]
  where
    halved :
        (k : ℕ) → IsBitLength (Half.value (shr n (of_word 1))) k → IsBitLength (Half.value n / 2) k
    halved k b = omega (arith, value-shr_by n 1 w)

IsBitLength-low : (u l k : ℕ) → u ≡ 0 → IsBitLength l k → IsBitLength (u * 2 ^ 128 + l) (0 + k)
IsBitLength-low u l k low b = ground arith

IsBitLength-high :
    (u l k : ℕ) → u ≢ 0 → l < 2 ^ 128 → IsBitLength u k → IsBitLength (u * 2 ^ 128 + l) (128 + k)
IsBitLength-high u l zero high h b = omega arith
IsBitLength-high u l (suc k) high h b = ground (arith, pow-add 2 128 (suc k), pow-suc 2 k)

-- bits counts the binary digits of a 256-bit value: the number is below 2^bits, and bits is the
-- least such count.
pub bits_256_lem : (x : Uint256) → IsWide x → IsBitLength (value x) (bits x)
unfolding bits
bits_256_lem x w = elim (Bool-cases (Half.to_bool x.upper)) [
  | inl high ↦
      let (k, counted, length) =
        count_bits_lem 128 x.upper 128 w.upper_wide (Half.value-lt x.upper w.upper_wide) in
      rw (high, counted)
        (IsBitLength-high (Half.value x.upper) (Half.value x.lower) k
          (ground (arith, Half.to_bool_lem x.upper)) (Half.value-lt x.lower w.lower_wide) length)
  | inr low ↦
      let (k, counted, length) =
        count_bits_lem 128 x.lower 0 w.lower_wide (Half.value-lt x.lower w.lower_wide) in
      rw (low, counted)
        (IsBitLength-low (Half.value x.upper) (Half.value x.lower) k
          (ground (arith, Half.to_bool_lem x.upper)) length)
]

pub bits-le : (x : Uint256) → IsWide x → bits x ≤ 256
bits-le x w = omega (arith, two-pow-lt_inv (bits x) 257, (bits_256_lem x w).least, value-lt x w)

bits-zero : (n k : ℕ) → IsBitLength n k → n ≡ 0 → k ≡ 0
bits-zero n k b e = omega (arith, two-pow-lt_inv k 1, b.least)

-- For a 256-bit value, bytes is the number of binary digits divided by 8 and rounded up.
pub bytes_256_lem : (x : Uint256) → IsWide x → bytes x ≡ (bits x + 7) / 8
unfolding bytes
bytes_256_lem x w =
    ground (arith, to_bool_lem x, bits-le x w, bits-zero (value x) (bits x) (bits_256_lem x w))

pub value-lt-bytes : (x : Uint256) → IsWide x → value x < 256 ^ bytes x
value-lt-bytes x w =
    rw (byte_powers (bytes x))
      (omega (arith, (bits_256_lem x w).below, pow-le-pow_right {n = 2} (omega arith) enough))
  where
    enough : bits x ≤ 8 * bytes x
    enough = omega (arith, bytes_256_lem x w)
