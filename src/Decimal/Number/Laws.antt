-- ===== src/Decimal/Number/Laws.antt =====
-- Well-formed numbers, what they stand for, and what the removal of zeros and `compare_num` do.
use vitex.Common.{
  ℕ, ◌+◌, ◌-◌, ◌*◌, ◌^◌, ◌≤◌, ◌<◌, ◌≡◌, ◌⊎◌, inl, inr, arith, if_both, sym, ap, ap₂, ◌∙◌, List,
  ◌++◌, true, false, ltb, max, pow-add,
}
use vitex.Common.Lists.{length, replicate, length-append, length-replicate}
use vitex.Decimal.Digits.Value.{
  AreDigits, number, number-zeros, number-lt, AreDigits-append, AreDigits-zeros,
}
use vitex.Decimal.Digits.Compare.{compare_digits, order_code, compare_digits_lem}
use vitex.Decimal.Number.{Decimal, pad, compare_num}
use native.Mathlib.Nat.{pow-le-pow_right, mul-le-mul_left, one-le-pow}

-- Characters that are digits, one of them at least before the point.
pub record IsValid (x : Decimal) : Type 0 where
  pub digits : AreDigits x.source
  pub whole : x.length < length x.source

-- No leading zero, but for a single digit before the point.
abbrev pub IsLean : Decimal → Type 0
IsLean x = (length x.source ≡ x.length + 1) ⊎ (10 ^ (length x.source - 1) ≤ number x.source)

-- The digits without their sign, in units of 10^(-scale).
abbrev pub scaled : Decimal → ℕ → ℕ
scaled x scale = 10 ^ (scale - x.length) * number x.source

pub pad-IsValid : (x : Decimal) (n : ℕ) → IsValid x → IsValid (pad x n)
unfolding pad
pad-IsValid x n v = record {
  digits =
      AreDigits-append (replicate (n - x.length) b'0') x.source (AreDigits-zeros (n - x.length))
        v.digits;
  whole = omega (
    arith,
    length-append (replicate (n - x.length) b'0') x.source,
    length-replicate {A = ℕ} (n - x.length) b'0',
    v.whole,
  );
}

pub number-pad : (x : Decimal) (n : ℕ) → number (pad x n).source ≡ scaled x n
unfolding pad
number-pad x n = number-zeros (n - x.length) x.source

pub length-pad :
    (x : Decimal) (n : ℕ)
    → (length (pad x n).source ≡ n - x.length + length x.source)
      × ((pad x n).length ≡ max x.length n)
unfolding pad
length-pad x n = (
  omega (
    arith,
    length-append (replicate (n - x.length) b'0') x.source,
    length-replicate {A = ℕ} (n - x.length) b'0',
  ),
  omega arith,
)

-- The scaled digits of `y` stay below the power of ten of their place.
scaled-lt : (y : Decimal) (m : ℕ) → IsValid y → scaled y m < 10 ^ (m - y.length + length y.source)
scaled-lt y m w = rw (pow-add 10 (m - y.length) (length y.source)) (
    omega (
      arith,
      mul-le-mul_left (10 ^ (m - y.length)) (number-lt y.source w.digits),
      one-le-pow (m - y.length) 10 (omega arith),
    ))

pub le-scaled :
    (x : Decimal) (m : ℕ)
    → 10 ^ (length x.source - 1) ≤ number x.source
    → 10 ^ (m - x.length + (length x.source - 1)) ≤ scaled x m
le-scaled x m h =
    rw (pow-add 10 (m - x.length) (length x.source - 1)) (mul-le-mul_left (10 ^ (m - x.length)) h)

-- More digits before the point make a number without leading zeros greater.
longer_greater :
    (x y : Decimal) (m : ℕ)
    → x.length ≤ m
    → y.length ≤ m
    → IsValid x
    → IsValid y
    → IsLean x
    → length y.source - y.length < length x.source - x.length
    → scaled y m < scaled x m
longer_greater x y m hx hy v w (inl single) more = absurd (omega (arith, v.whole, w.whole))
longer_greater x y m hx hy v w (inr lean) more = omega (
  arith,
  scaled-lt y m w,
  le-scaled x m lean,
  pow-le-pow_right {n = 10} (omega arith) {i = m - y.length + length y.source}
      {j = m - x.length + (length x.source - 1)} (omega (arith, v.whole, w.whole)),
)

module _ (left right : Decimal) (v : IsValid left) (w : IsValid right) where
  -- After padding to the same scale, the digits compare as the numbers do.
  padded_compare :
      (m : ℕ)
      → left.length ≤ m
      → right.length ≤ m
      → length left.source - left.length ≡ length right.source - right.length
      → compare_digits (pad left m).source (pad right m).source
        ≡ order_code (scaled left m) (scaled right m)
  padded_compare m hl hr same =
      compare_digits_lem (pad left m).source (pad right m).source
        (omega (arith, length-pad left m, length-pad right m, v.whole, w.whole))
        (pad-IsValid left m v).digits (pad-IsValid right m w).digits
      ∙ ap₂ (λ (a b : ℕ). order_code a b) (number-pad left m) (number-pad right m)

unpadded : (x : Decimal) (n : ℕ) → n ≤ x.length → (pad x n).source ≡ x.source
unfolding pad
unpadded x n h = ap (λ (k : ℕ). replicate k b'0' ++ x.source) none_missing
  where
    none_missing : n - x.length ≡ 0
    none_missing = omega arith

module _ (left right : Decimal) (v : IsValid left) (w : IsValid right) (l : IsLean left)
    (r : IsLean right) where
  -- For two well-formed decimals without leading zeros, compare_num gives the code of the order
  -- of their magnitudes, brought to the same number of digits behind the point.
  pub compare_num_lem :
      compare_num left right
      ≡ order_code
          (scaled left (max left.length right.length))
          (scaled right (max left.length right.length))
  unfolding compare_num
  compare_num_lem = if_both Ordered (ltb right_size left_size) left_longer λ not_left.
      if_both Ordered (ltb left_size right_size) right_longer λ not_right.
        let same = same_size not_left not_right in
        if_both Ordered (ltb right.length left.length) (λ below. left_deeper same below)
          λ not_below.
            if_both Ordered (ltb left.length right.length) (λ above. right_deeper same above)
              λ not_above. equally_deep same not_below not_above
    where
      left_size : ℕ
      left_size = length left.source - left.length

      right_size : ℕ
      right_size = length right.source - right.length

      scale : ℕ
      scale = max left.length right.length

      Ordered : ℕ → Type 0
      Ordered code = code ≡ order_code (scaled left scale) (scaled right scale)

      left_longer : ltb right_size left_size ≡ true → Ordered 1
      left_longer e =
          ground (arith, longer_greater left right scale (omega arith) (omega arith) v w l)

      right_longer : ltb left_size right_size ≡ true → Ordered 2
      right_longer e =
          ground (arith, longer_greater right left scale (omega arith) (omega arith) w v r)

      same_size :
          ltb right_size left_size ≡ false
          → ltb left_size right_size ≡ false
          → left_size ≡ right_size
      same_size e f = ground arith

      left_deeper :
          left_size ≡ right_size
          → ltb right.length left.length ≡ true
          → Ordered (compare_digits left.source (pad right left.length).source)
      left_deeper same e =
          let deep : max left.length right.length ≡ left.length = ground arith in
          rw deep (
            ap (λ (t : List ℕ). compare_digits t (pad right left.length).source)
              (sym (unpadded left left.length (omega arith)))
            ∙ padded_compare left right v w left.length (omega arith) (ground arith) same)

      right_deeper :
          left_size ≡ right_size
          → ltb left.length right.length ≡ true
          → Ordered (compare_digits (pad left right.length).source right.source)
      right_deeper same e =
          let deep : max left.length right.length ≡ right.length = ground arith in
          rw deep (
            ap (λ (t : List ℕ). compare_digits (pad left right.length).source t)
              (sym (unpadded right right.length (omega arith)))
            ∙ padded_compare left right v w right.length (ground arith) (omega arith) same)

      equally_deep :
          left_size ≡ right_size
          → ltb right.length left.length ≡ false
          → ltb left.length right.length ≡ false
          → Ordered (compare_digits left.source right.source)
      equally_deep same e f =
          let flat : max left.length right.length ≡ left.length = ground arith in
          let below : right.length ≤ left.length = ground arith in
          let above : left.length ≤ right.length = ground arith in
          rw flat (
            ap₂ compare_digits (sym (unpadded left left.length (omega arith)))
              (sym (unpadded right left.length above))
            ∙ padded_compare left right v w left.length (omega arith) below same)
