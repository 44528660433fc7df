-- ===== src/Decimal/Arith/Laws.antt =====
-- The sum, the difference and the product of two numbers are exact.
use vitex.Common.{ℕ, ◌+◌, ◌-◌, ◌≤◌, ◌<◌, ◌≡◌, inl, arith, refl, ap₂, ◌∙◌, false, ◌==◌, max, if_both}
use vitex.Common.Lists.{length}
use vitex.Decimal.Digits.{subtract}
use vitex.Decimal.Digits.Value.{AreDigits, number}
use vitex.Decimal.Digits.Laws.{subtract_lem}
use vitex.Decimal.Digits.Compare.{order_code}
use vitex.Decimal.Number.{
  Sign, nan, plus, minus, Decimal, is_nan, is_nan_sign, unlead, compare_num, zero_number,
}
use vitex.Decimal.Number.Laws.{IsValid, scaled, compare_num_lem}
use vitex.Decimal.Number.Zeros.{unlead-IsValid, unlead-IsLean, number-unlead}
use vitex.Decimal.Order.Laws.{above, below, IsNumber}
use vitex.Decimal.Arith.Aligned.{
  Stands, AreAligned, scaled_full, aligned, total-IsNumber, scaled-total,
}
use vitex.Decimal.Arith.{difference, total, add_cases, subtract_cases, add, sub}

-- What a subtraction of magnitudes leaves: `d` in units of 10^(-scale), with the sign `s`.
record IsRest (z : Decimal) (scale : ℕ) (s : Sign) (d : ℕ) : Type 0 where
  number_ok : IsNumber z
  rest_length : z.length ≡ scale
  rest_sign : z.sign ≡ s
  rest_scaled : scaled z scale ≡ d

IsRest-of :
    (s : Sign) (x y : Decimal) (n scale : ℕ)
    → n ≡ scale
    → is_nan_sign s ≡ false
    → IsValid x
    → IsValid y
    → x.length ≡ scale
    → number y.source ≤ number x.source
    → IsRest
        (unlead (record { source = subtract x.source y.source; length = n; sign = s }))
        scale
        s
        (number x.source - number y.source)
IsRest-of s x y n scale same signed v w e le = record {
  number_ok = record {
    valid = unlead-IsValid raw raw_valid;
    lean = unlead-IsLean raw raw_valid;
    signed = unfold is_nan unlead in signed;
  };
  rest_length = unfold unlead in same;
  rest_sign = unfold unlead in refl;
  rest_scaled =
      scaled_full (unlead raw) scale (unfold unlead in same)
      ∙ number-unlead raw raw_valid
      ∙ taken.1;
}
  where
    taken :
        AreDigits (subtract x.source y.source)
        × (number (subtract x.source y.source) ≡ number x.source - number y.source)
        × (length (subtract x.source y.source) ≡ length x.source)
    taken = subtract_lem x.source y.source v.digits w.digits le

    raw : Decimal
    raw = record { source = subtract x.source y.source; length = n; sign = s }

    raw_valid : IsValid raw
    raw_valid = record { digits = taken.0; whole = omega (arith, taken.2, v.whole, e, same) }

Stands-rest-plus :
    {z : Decimal} {scale d p n : ℕ} → IsRest z scale plus d → n + d ≡ p → Stands z scale p n
Stands-rest-plus {z} {scale} {p} {n} r e = record {
  number_ok = r.number_ok;
  deep = omega (arith, r.rest_length);
  exact = rw (r.rest_sign, r.rest_scaled) (omega arith);
}

Stands-rest-minus :
    {z : Decimal} {scale d p n : ℕ} → IsRest z scale minus d → p + d ≡ n → Stands z scale p n
Stands-rest-minus r e = record {
  number_ok = r.number_ok;
  deep = omega (arith, r.rest_length);
  exact = rw (r.rest_sign, r.rest_scaled) (omega arith);
}

zero-IsNumber : IsNumber zero_number
zero-IsNumber = record {
  valid = record { digits = (omega arith, tt); whole = omega arith };
  lean = inl refl;
  signed = unfold is_nan is_nan_sign in refl;
}

module _ {left right : Decimal} {scale a b : ℕ} (al : AreAligned left right scale a b) where
  checked : compare_num left right ≡ order_code a b
  checked =
      compare_num_lem left right al.left_valid al.right_valid al.left_lean al.right_lean
      ∙ ap₂ (λ (m n : ℕ). order_code m n)
          (scaled_full left (max left.length right.length) left_deep ∙ al.left_number)
          (scaled_full right (max left.length right.length) right_deep ∙ al.right_number)
    where
      left_deep : left.length ≡ max left.length right.length
      left_deep = omega (arith, al.left_length, al.right_length)

      right_deep : right.length ≡ max left.length right.length
      right_deep = omega (arith, al.left_length, al.right_length)

  -- The three outcomes, for a property that each has.
  difference_cases :
      (s1 s2 : Sign) (P : Decimal → Type 0)
      → (a ≡ b → P zero_number)
      → (b < a
          → P (
              unlead (record {
                source = subtract left.source right.source;
                length = left.length;
                sign = s1;
              })))
      → (a < b
          → P (
              unlead (record {
                source = subtract right.source left.source;
                length = left.length;
                sign = s2;
              })))
      → P (difference s1 s2 left right)
  unfolding difference
  difference_cases s1 s2 P same more less =
      if_both P (compare_num left right == 0) (λ e. same (ground (arith, checked)))
        λ n.
          if_both P (compare_num left right == 1) (λ e. more (ground (arith, checked)))
            λ m. less (ground (arith, checked))

  more-IsRest :
      (s : Sign)
      → is_nan_sign s ≡ false
      → b < a
      → IsRest
          (unlead
            (record { source = subtract left.source right.source; length = left.length; sign = s }))
          scale
          s
          (a - b)
  more-IsRest s signed h =
      rw (← al.left_number, ← al.right_number)
        (IsRest-of s left right left.length scale al.left_length signed al.left_valid al.right_valid
          al.left_length (omega (arith, al.left_number, al.right_number)))

  less-IsRest :
      (s : Sign)
      → is_nan_sign s ≡ false
      → a < b
      → IsRest
          (unlead
            (record { source = subtract right.source left.source; length = left.length; sign = s }))
          scale
          s
          (b - a)
  less-IsRest s signed h =
      rw (← al.left_number, ← al.right_number)
        (IsRest-of s right left left.length scale al.left_length signed al.right_valid al.left_valid
          al.right_length (omega (arith, al.left_number, al.right_number)))

  Stands-zero : a ≡ b → Stands zero_number scale a b
  Stands-zero e = record { number_ok = zero-IsNumber; deep = omega arith; exact = omega arith }

  Stands-plus-minus : Stands (difference plus minus left right) scale a b
  Stands-plus-minus =
      difference_cases plus minus (λ z. Stands z scale a b) Stands-zero
        (λ h. Stands-rest-plus (more-IsRest plus (unfold is_nan_sign in refl) h) (omega arith))
        (λ h. Stands-rest-minus (less-IsRest minus (unfold is_nan_sign in refl) h) (omega arith))

  Stands-minus-plus : Stands (difference minus plus left right) scale b a
  Stands-minus-plus =
      difference_cases minus plus (λ z. Stands z scale b a)
        (λ e. record { number_ok = zero-IsNumber; deep = omega arith; exact = omega arith })
        (λ h. Stands-rest-minus (more-IsRest minus (unfold is_nan_sign in refl) h) (omega arith))
        (λ h. Stands-rest-plus (less-IsRest plus (unfold is_nan_sign in refl) h) (omega arith))

  Stands-total-plus : Stands (total plus left right) scale (a + b) 0
  Stands-total-plus = record {
    number_ok = total-IsNumber al plus (unfold is_nan_sign in refl);
    deep = unfold total in omega (arith, al.left_length);
    exact = unfold total in omega (arith, scaled-total al plus (unfold is_nan_sign in refl));
  }

  Stands-total-minus : Stands (total minus left right) scale 0 (a + b)
  Stands-total-minus = record {
    number_ok = total-IsNumber al minus (unfold is_nan_sign in refl);
    deep = unfold total in omega (arith, al.left_length);
    exact = unfold total in omega (arith, scaled-total al minus (unfold is_nan_sign in refl));
  }

Stands-eq :
    {z : Decimal} {scale p n p' n' : ℕ}
    → Stands z scale p n
    → p ≡ p'
    → n ≡ n'
    → Stands z scale p' n'
Stands-eq s e f = record { number_ok = s.number_ok; deep = s.deep; exact = omega (arith, s.exact) }

module _ {left right : Decimal} {scale a b : ℕ} (al : AreAligned left right scale a b) where
  add_cases-Stands :
      (s t : Sign)
      → is_nan_sign s ≡ false
      → is_nan_sign t ≡ false
      → Stands (add_cases s t left right) scale (above s a + above t b) (below s a + below t b)
  unfolding add_cases is_nan_sign
  add_cases-Stands nan t h k = cc
  add_cases-Stands plus nan h k = cc
  add_cases-Stands minus nan h k = cc
  add_cases-Stands plus plus h k = Stands-eq (Stands-total-plus al) refl (omega arith)
  add_cases-Stands plus minus h k = Stands-eq (Stands-plus-minus al) (omega arith) (omega arith)
  add_cases-Stands minus plus h k = Stands-eq (Stands-minus-plus al) (omega arith) (omega arith)
  add_cases-Stands minus minus h k = Stands-eq (Stands-total-minus al) (omega arith) refl

  subtract_cases-Stands :
      (s t : Sign)
      → is_nan_sign s ≡ false
      → is_nan_sign t ≡ false
      → Stands (subtract_cases s t left right) scale (above s a + below t b) (below s a + above t b)
  unfolding subtract_cases is_nan_sign
  subtract_cases-Stands nan t h k = cc
  subtract_cases-Stands plus nan h k = cc
  subtract_cases-Stands minus nan h k = cc
  subtract_cases-Stands plus minus h k = Stands-eq (Stands-total-plus al) refl (omega arith)
  subtract_cases-Stands plus plus h k = Stands-eq (Stands-plus-minus al) (omega arith) (omega arith)
  subtract_cases-Stands minus minus h k =
      Stands-eq (Stands-minus-plus al) (omega arith) (omega arith)
  subtract_cases-Stands minus plus h k = Stands-eq (Stands-total-minus al) (omega arith) refl

module _ (left right : Decimal) (v : IsNumber left) (w : IsNumber right) where
  -- The sum of two well-formed decimals without leading zeros is again such a decimal, has no
  -- more digits behind the point than the deeper operand, and its signed value is exactly the sum
  -- of theirs.
  pub add-Stands :
      let scale = max left.length right.length in
      Stands
        (add left right)
        scale
        (above left.sign (scaled left scale) + above right.sign (scaled right scale))
        (below left.sign (scaled left scale) + below right.sign (scaled right scale))
  unfolding add is_nan
  add-Stands =
      rw (v.signed, w.signed)
        (add_cases-Stands (aligned left right v w) left.sign right.sign v.signed w.signed)

  -- The difference of two well-formed decimals without leading zeros is again such a decimal, has
  -- no more digits behind the point than the deeper operand, and its signed value is exactly the
  -- difference of theirs.
  pub sub-Stands :
      let scale = max left.length right.length in
      Stands
        (sub left right)
        scale
        (above left.sign (scaled left scale) + below right.sign (scaled right scale))
        (below left.sign (scaled left scale) + above right.sign (scaled right scale))
  unfolding sub is_nan
  sub-Stands =
      rw (v.signed, w.signed)
        (subtract_cases-Stands (aligned left right v w) left.sign right.sign v.signed w.signed)
