-- ===== src/Decimal/Arith/Aligned.antt =====
-- Numbers of the same `length`: how the operators bring them about, and their digit sum.
use native.Mathlib.Decide.{dec_le}
use vitex.Common.{ℕ, ◌+◌, ◌-◌, ◌*◌, ◌^◌, ◌≤◌, ◌≡◌, inl, inr, arith, ap, ◌∙◌, false, max}
use vitex.Common.Lists.{length}
use vitex.Decimal.Digits.Value.{number}
use vitex.Decimal.Digits.Laws.{sum_lem, sum-SumSize}
use vitex.Decimal.Number.{Sign, Decimal, is_nan, is_nan_sign, pad}
use vitex.Decimal.Number.Laws.{
  IsValid, IsLean, scaled, pad-IsValid, number-pad, length-pad, le-scaled,
}
use vitex.Decimal.Order.Laws.{above, below, IsNumber}
use vitex.Decimal.Arith.{total}

-- `z` is a well-formed number that stands for `p - n`, in units of 10^(-scale).
pub record Stands (z : Decimal) (scale p n : ℕ) : Type 0 where
  pub number_ok : IsNumber z
  pub deep : z.length ≤ scale
  pub exact : above z.sign (scaled z scale) + n ≡ below z.sign (scaled z scale) + p

-- Two well-formed numbers of the same `length`.
pub record AreAligned (left right : Decimal) (scale a b : ℕ) : Type 0 where
  pub left_valid : IsValid left
  pub right_valid : IsValid right
  pub left_lean : IsLean left
  pub right_lean : IsLean right
  pub left_length : left.length ≡ scale
  pub right_length : right.length ≡ scale
  pub left_number : number left.source ≡ a
  pub right_number : number right.source ≡ b

pub scaled_full : (x : Decimal) (scale : ℕ) → x.length ≡ scale → scaled x scale ≡ number x.source
scaled_full x scale e = ap (λ (k : ℕ). 10 ^ k * number x.source) none_below ∙ omega arith
  where
    none_below : scale - x.length ≡ 0
    none_below = omega arith

pub pad-IsLean : (x : Decimal) (n : ℕ) → IsValid x → IsLean x → IsLean (pad x n)
pad-IsLean x n v (inl single) = inl (omega (arith, length-pad x n))
pad-IsLean x n v (inr top) = inr (rw (number-pad x n) (rw size (le-scaled x n top)))
  where
    size : length (pad x n).source - 1 ≡ n - x.length + (length x.source - 1)
    size = omega (arith, length-pad x n, v.whole)

module _ (left right : Decimal) (v : IsNumber left) (w : IsNumber right) where
  pub aligned :
      AreAligned
        (pad left right.length)
        (pad right left.length)
        (max left.length right.length)
        (scaled left (max left.length right.length))
        (scaled right (max left.length right.length))
  aligned = record {
    left_valid = pad-IsValid left right.length v.valid;
    right_valid = pad-IsValid right left.length w.valid;
    left_lean = pad-IsLean left right.length v.valid v.lean;
    right_lean = pad-IsLean right left.length w.valid w.lean;
    left_length = (length-pad left right.length).1;
    right_length = omega (arith, (length-pad right left.length).1);
    left_number =
        number-pad left right.length ∙ ap (λ (k : ℕ). 10 ^ k * number left.source) left_gap;
    right_number =
        number-pad right left.length ∙ ap (λ (k : ℕ). 10 ^ k * number right.source) right_gap;
  }
    where
      left_gap : right.length - left.length ≡ max left.length right.length - left.length
      left_gap = omega arith

      right_gap : left.length - right.length ≡ max left.length right.length - right.length
      right_gap = omega arith

module _ {left right : Decimal} {scale a b : ℕ} (al : AreAligned left right scale a b) where
  pub total-IsValid : (s : Sign) → IsValid (total s left right)
  unfolding total
  total-IsValid s = record {
    digits = (sum_lem left.source right.source al.left_valid.digits al.right_valid.digits).0;
    whole = elim (sum-SumSize left.source right.source) [
      | inl same ↦ omega (arith, al.left_valid.whole)
      | inr longer ↦ omega (arith, al.left_valid.whole)
    ];
  }

  number-total : (s : Sign) → number (total s left right).source ≡ a + b
  unfolding total
  number-total s = omega (
    arith,
    (sum_lem left.source right.source al.left_valid.digits al.right_valid.digits).1,
    al.left_number,
    al.right_number,
  )

  -- The longer number has no leading zero, and the sum is not less than it.
  long_operand :
      (s : Sign) (x : Decimal)
      → IsLean x
      → x.length ≡ scale
      → length (total s left right).source ≡ length x.source
      → number x.source ≤ a + b
      → IsLean (total s left right)
  long_operand s x (inl single) e size le = inl (unfold total in omega (arith, al.left_length))
  long_operand s x (inr top) e size le = inr (rw size (omega (arith, top, number-total s)))

  pub total-IsLean : (s : Sign) → IsLean (total s left right)
  total-IsLean s = elim (sum-SumSize left.source right.source) [
    | inl same ↦ elim (dec_le (length right.source) (length left.source)) [
      | yes h ↦
          long_operand s left al.left_lean al.left_length (unfold total in omega (arith, same))
            (omega (arith, al.left_number))
      | no h ↦
          long_operand s right al.right_lean al.right_length (unfold total in omega (arith, same))
            (omega (arith, al.right_number))
    ]
    | inr (longer, top) ↦ inr (unfold total in rw (one_less longer) top)
  ]
    where
      one_less : {k n : ℕ} → k ≡ n + 1 → k - 1 ≡ n
      one_less e = omega arith

  module _ (s : Sign) (signed : is_nan_sign s ≡ false) where
    pub total-IsNumber : IsNumber (total s left right)
    unfolding is_nan
    total-IsNumber = record {
      valid = total-IsValid s;
      lean = total-IsLean s;
      signed = unfold total in signed;
    }

    pub scaled-total : scaled (total s left right) scale ≡ a + b
    scaled-total =
        scaled_full (total s left right) scale (unfold total in al.left_length) ∙ number-total s
