-- ===== src/Common/Powers.antt =====
-- Powers of native numbers, as far as shifts and place values need them.
use Prim.Native.Nat.{ℕ, zero, suc, ◌+◌, ◌-◌, ◌*◌, ◌^◌, ◌≤◌, ◌<◌}
use mathlib.Core.Path.{◌≡◌, refl, sym, ap, ◌∙◌}
use native.Mathlib.Decide.{dec_lt}
use native.Mathlib.Omega.{arith}
use native.Mathlib.Nat.{pow-le-pow_right, add-zero, add-suc, pow-zero, pow-suc, one-le-pow}

pub pow-add : (b m n : ℕ) → b ^ (m + n) ≡ b ^ m * b ^ n
pow-add b m zero = rw (add-zero, pow-zero) (omega arith)
pow-add b m (suc n) =
    rw (add-suc, pow-suc b (m + n), pow-suc b n)
      (omega (arith, ap (λ (t : ℕ). t * b) (pow-add b m n)))

pub pow-sub-mul : (b m n : ℕ) → m ≤ n → b ^ m * b ^ (n - m) ≡ b ^ n
pow-sub-mul b m n h = sym (pow-add b m (n - m)) ∙ ap (λ k. b ^ k) (omega arith)

pub two-pow-pos : (n : ℕ) → 0 < 2 ^ n
two-pow-pos n = one-le-pow n 2 (omega arith)

not_lt : {m n : ℕ} → ¬ (m < n) → n ≤ m
not_lt h = omega arith

pub two-pow-lt_inv : (m n : ℕ) → 2 ^ m < 2 ^ n → m < n
two-pow-lt_inv m n h = elim (dec_lt m n) [
  | yes p ↦ p
  | no p ↦ absurd (omega (arith, pow-le-pow_right {n = 2} (omega arith) (not_lt p)))
]

-- `8 * suc n` is eight more.
pub byte_powers : (n : ℕ) → 256 ^ n ≡ 2 ^ (8 * n)
byte_powers zero = refl
byte_powers (suc n) =
    pow-suc 256 n
    ∙ ap (λ (t : ℕ). t * 256) (byte_powers n)
    ∙ sym (pow-add 2 (8 * n) 8)
    ∙ ap (λ (k : ℕ). 2 ^ k) (omega arith)
