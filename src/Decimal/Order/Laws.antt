-- ===== src/Decimal/Order/Laws.antt =====
-- The comparison operators order numbers by their signed values.
use vitex.Common.{
  ℕ, ◌+◌, ◌-◌, ◌*◌, ◌^◌, ◌<◌, ◌≡◌, arith, ap, ap₂, ◌∙◌, sym, ◌↔◌, Bool, true, false, not, ◌&&◌, ltb,
  ◌==◌, max,
}
use vitex.Common.Lists.{length}
use vitex.Decimal.Digits.Value.{number}
use vitex.Decimal.Digits.Compare.{order_code}
use vitex.Decimal.Number.{
  Sign, nan, plus, minus, Decimal, is_nan, is_nan_sign, is_zero, compare_num,
}
use vitex.Decimal.Number.Laws.{IsValid, IsLean, scaled, compare_num_lem}
use vitex.Decimal.Number.Zeros.{is_zero_lem}
use vitex.Decimal.Order.{eq, gt, lt, ge, le, gt_cases, lt_cases, same_sign}
use native.Mathlib.Nat.{one-le-pow, mul-le-mul_right}

-- The magnitude on the positive side, and the one on the negative side: a number stands for the
-- difference of the two.
abbrev pub above : Sign → ℕ → ℕ
above nan n = 0
above plus n = n
above minus n = 0

abbrev pub below : Sign → ℕ → ℕ
below nan n = 0
below plus n = 0
below minus n = n

-- The value of `left` is less than the value of `right`, in units of 10^(-scale).
abbrev pub value_lt : Decimal → Decimal → ℕ → Bool
value_lt left right scale =
    ltb (above left.sign (scaled left scale) + below right.sign (scaled right scale))
      (above right.sign (scaled right scale) + below left.sign (scaled left scale))

-- A well-formed number without leading zeros.
pub record IsNumber (x : Decimal) : Type 0 where
  pub valid : IsValid x
  pub lean : IsLean x
  pub signed : is_nan x ≡ false

scaled-zero : (x : Decimal) (m : ℕ) → (scaled x m == 0) ≡ (number x.source == 0)
scaled-zero x m = ground (
  arith,
  mul-le-mul_right (number x.source) (one-le-pow (m - x.length) 10 (omega arith)),
  zero_times (10 ^ (m - x.length)) (number x.source),
)
  where
    zero_times : (k n : ℕ) → n ≡ 0 → k * n ≡ 0
    zero_times k n e = rw e (omega arith)

-- The tests on the signs, over the two magnitudes.
gt_cases_lem :
    (s t : Sign) (m n : ℕ)
    → is_nan_sign s ≡ false
    → is_nan_sign t ≡ false
    → gt_cases s t (order_code m n) ((m == 0) && (n == 0))
      ≡ ltb (above t n + below s m) (above s m + below t n)
unfolding gt_cases is_nan_sign
gt_cases_lem nan t m n h k = cc
gt_cases_lem plus nan m n h k = cc
gt_cases_lem minus nan m n h k = cc
gt_cases_lem plus plus m n h k = ground arith
gt_cases_lem plus minus m n h k = ground arith
gt_cases_lem minus plus m n h k = ground arith
gt_cases_lem minus minus m n h k = ground arith

lt_cases_lem :
    (s t : Sign) (m n : ℕ)
    → is_nan_sign s ≡ false
    → is_nan_sign t ≡ false
    → lt_cases s t (order_code m n) ((m == 0) && (n == 0))
      ≡ ltb (above s m + below t n) (above t n + below s m)
unfolding lt_cases is_nan_sign
lt_cases_lem nan t m n h k = cc
lt_cases_lem plus nan m n h k = cc
lt_cases_lem minus nan m n h k = cc
lt_cases_lem plus plus m n h k = ground arith
lt_cases_lem plus minus m n h k = ground arith
lt_cases_lem minus plus m n h k = ground arith
lt_cases_lem minus minus m n h k = ground arith

eq_cases_lem :
    (s t : Sign) (m n : ℕ)
    → is_nan_sign s ≡ false
    → is_nan_sign t ≡ false
    → ((order_code m n == 0) && same_sign s t ≡ true) ↔ ((s ≡ t) × (m ≡ n))
unfolding same_sign is_nan_sign
eq_cases_lem nan t m n h k = cc
eq_cases_lem plus nan m n h k = cc
eq_cases_lem minus nan m n h k = cc
eq_cases_lem plus plus m n h k = ground arith
eq_cases_lem plus minus m n h k = ground arith
eq_cases_lem minus plus m n h k = ground arith
eq_cases_lem minus minus m n h k = ground arith

module _ (left right : Decimal) (v : IsNumber left) (w : IsNumber right) where
  checked :
      compare_num left right
      ≡ order_code
          (scaled left (max left.length right.length))
          (scaled right (max left.length right.length))
  checked = compare_num_lem left right v.valid w.valid v.lean w.lean

  zeros : (is_zero left && is_zero right) ≡ (
      (scaled left (max left.length right.length) == 0)
      && (scaled right (max left.length right.length) == 0))
  zeros =
      ap₂ ◌&&◌ (is_zero_lem left v.valid ∙ sym (scaled-zero left (max left.length right.length)))
        (is_zero_lem right w.valid ∙ sym (scaled-zero right (max left.length right.length)))

  -- For two well-formed decimals without leading zeros, < and > decide the strict order of their
  -- signed values, negative zero included.
  pub lt-gt_lem :
      (lt left right ≡ value_lt left right (max left.length right.length))
      × (gt left right ≡ value_lt right left (max left.length right.length))
  unfolding lt gt is_nan
  lt-gt_lem =
      rw (v.signed, w.signed)
        (
          ap₂ (lt_cases left.sign right.sign) checked zeros
              ∙ lt_cases_lem left.sign right.sign _ _ v.signed w.signed,
          ap₂ (gt_cases left.sign right.sign) checked zeros
              ∙ gt_cases_lem left.sign right.sign _ _ v.signed w.signed,
        )

  -- For two well-formed decimals without leading zeros, <= and >= hold exactly where the strict
  -- order of their signed values the other way round does not.
  pub le-ge_lem :
      (le left right ≡ not (value_lt right left (max left.length right.length)))
      × (ge left right ≡ not (value_lt left right (max left.length right.length)))
  unfolding le ge is_nan
  le-ge_lem = rw (v.signed, w.signed) (ap not lt-gt_lem.1, ap not lt-gt_lem.0)

  -- For two well-formed decimals without leading zeros, < and > decide the strict order of their
  -- signed values, negative zero included, and <= and >= hold exactly where the strict order the
  -- other way round does not.
  pub orders_lem :
      ((lt left right ≡ value_lt left right (max left.length right.length))
        × (gt left right ≡ value_lt right left (max left.length right.length)))
      × ((le left right ≡ not (value_lt right left (max left.length right.length)))
          × (ge left right ≡ not (value_lt left right (max left.length right.length))))
  orders_lem = (lt-gt_lem, le-ge_lem)

  -- `==` holds of numbers with the same sign character and the same magnitude.
  pub eq_lem : (eq left right ≡ true) ↔ (
      (left.sign ≡ right.sign)
      × (scaled left (max left.length right.length) ≡ scaled right (max left.length right.length)))
  unfolding eq is_nan
  eq_lem =
      rw (v.signed, w.signed, checked) (eq_cases_lem left.sign right.sign _ _ v.signed w.signed)

-- Two well-formed decimals without leading zeros that are both zero, the left one with a plus
-- sign and the right one with a minus sign, differ under == although neither < nor > holds and <=
-- does.
pub signed_zeros :
    (left right : Decimal)
    → IsNumber left
    → IsNumber right
    → left.sign ≡ plus
    → right.sign ≡ minus
    → number left.source ≡ 0
    → number right.source ≡ 0
    → (eq left right ≡ false)
      × (lt left right ≡ false)
      × (gt left right ≡ false)
      × (le left right ≡ true)
unfolding eq same_sign
signed_zeros left right v w p q zl zr =
    let m = max left.length right.length in
    let left_zero : scaled left m ≡ 0 = vanishes (10 ^ (m - left.length)) (number left.source) zl in
    let right_zero : scaled right m ≡ 0 =
      vanishes (10 ^ (m - right.length)) (number right.source) zr in
    ground (arith, lt-gt_lem left right v w, le-ge_lem left right v w)
  where
    vanishes : (k n : ℕ) → n ≡ 0 → k * n ≡ 0
    vanishes k n e = rw e (omega arith)

-- With more digits before the point the left number is the greater one for compare_num, leading
-- zeros or not.
pub compare_num_sizes :
    (left right : Decimal)
    → length right.source - right.length < length left.source - left.length
    → compare_num left right ≡ 1
unfolding compare_num
compare_num_sizes left right h = ground arith
