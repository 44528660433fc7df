-- ===== src/Decimal/Arith/Product.antt =====
-- The product of two numbers is exact.
use vitex.Common.{ℕ, ◌+◌, ◌*◌, ◌≡◌, arith, refl, ◌∙◌, false, max}
use vitex.Decimal.Digits.{multiply}
use vitex.Decimal.Digits.Value.{number}
use vitex.Decimal.Digits.Multiply.{multiply_lem, length-multiply}
use vitex.Decimal.Number.{Sign, nan, plus, minus, Decimal, is_nan, is_nan_sign, unlead}
use vitex.Decimal.Number.Laws.{IsValid, scaled}
use vitex.Decimal.Number.Zeros.{unlead-IsValid, unlead-IsLean, number-unlead}
use vitex.Decimal.Order.Laws.{above, below, IsNumber}
use vitex.Decimal.Arith.{add, sub, mul, product_sign}
use vitex.Decimal.Arith.Laws.{add-Stands, sub-Stands}
use vitex.Decimal.Arith.Aligned.{Stands, scaled_full}

-- The sign of a product, over the two magnitudes.
product_sign_lem :
    (s t : Sign) (a b : ℕ)
    → is_nan_sign s ≡ false
    → is_nan_sign t ≡ false
    → (is_nan_sign (product_sign s t) ≡ false)
      × (above (product_sign s t) (a * b) + (above s a * below t b + below s a * above t b)
          ≡ below (product_sign s t) (a * b) + (above s a * above t b + below s a * below t b))
unfolding product_sign is_nan_sign
product_sign_lem nan t a b h k = cc
product_sign_lem plus nan a b h k = cc
product_sign_lem minus nan a b h k = cc
product_sign_lem plus plus a b h k = (refl, omega arith)
product_sign_lem plus minus a b h k = (refl, omega arith)
product_sign_lem minus plus a b h k = (refl, omega arith)
product_sign_lem minus minus a b h k = (refl, omega arith)

module _ (left right : Decimal) (v : IsNumber left) (w : IsNumber right) where
  raw : Decimal
  raw = record {
    source = multiply left.source right.source;
    length = left.length + right.length;
    sign = product_sign left.sign right.sign;
  }

  raw-IsValid : IsValid raw
  unfolding raw
  raw-IsValid = record {
    digits = (multiply_lem left.source right.source v.valid.digits w.valid.digits).0;
    whole = omega (arith, length-multiply left.source right.source, v.valid.whole, w.valid.whole);
  }

  number-raw : number (unlead raw).source ≡ number left.source * number right.source
  unfolding raw
  number-raw =
      number-unlead raw raw-IsValid
      ∙ (multiply_lem left.source right.source v.valid.digits w.valid.digits).1

  -- The product of two well-formed decimals without leading zeros is again such a decimal, has no
  -- more digits behind the point than both operands together, and its signed value is exactly the
  -- product of theirs.
  pub mul-Stands :
      Stands
        (mul left right)
        (left.length + right.length)
        (above left.sign (number left.source) * above right.sign (number right.source)
          + below left.sign (number left.source) * below right.sign (number right.source))
        (above left.sign (number left.source) * below right.sign (number right.source)
          + below left.sign (number left.source) * above right.sign (number right.source))
  unfolding mul is_nan raw
  mul-Stands =
      rw (v.signed, w.signed)
        (record {
          number_ok = record {
            valid = unlead-IsValid raw raw-IsValid;
            lean = unlead-IsLean raw raw-IsValid;
            signed =
                unfold unlead raw is_nan in
                (product_sign_lem left.sign right.sign (number left.source) (number right.source)
                  v.signed w.signed).0;
          };
          deep = unfold unlead raw in omega arith;
          exact = product-exact;
        })
    where
      product-exact :
          above (unlead raw).sign (scaled (unlead raw) (left.length + right.length))
            + (above left.sign (number left.source) * below right.sign (number right.source)
                + below left.sign (number left.source) * above right.sign (number right.source))
          ≡ below (unlead raw).sign (scaled (unlead raw) (left.length + right.length))
            + (above left.sign (number left.source) * above right.sign (number right.source)
                + below left.sign (number left.source) * below right.sign (number right.source))
      product-exact =
          rw
            (
              scaled_full (unlead raw) (left.length + right.length) (unfold unlead raw in refl),
              number-raw,
            )
            (unfold unlead raw in
              (product_sign_lem left.sign right.sign (number left.source) (number right.source)
                v.signed w.signed).1)

  -- The sum, the difference and the product of two well-formed decimals without leading zeros are
  -- again such decimals, and their signed values are exactly the sum, the difference and the
  -- product of the operands; the first two have no more digits behind the point than the deeper
  -- operand, and the product no more than both together.
  pub arithmetic_lem :
      let scale = max left.length right.length in
      (Stands
          (add left right)
          scale
          (above left.sign (scaled left scale) + above right.sign (scaled right scale))
          (below left.sign (scaled left scale) + below right.sign (scaled right scale))
        × Stands
            (sub left right)
            scale
            (above left.sign (scaled left scale) + below right.sign (scaled right scale))
            (below left.sign (scaled left scale) + above right.sign (scaled right scale)))
      × Stands
          (mul left right)
          (left.length + right.length)
          (above left.sign (number left.source) * above right.sign (number right.source)
            + below left.sign (number left.source) * below right.sign (number right.source))
          (above left.sign (number left.source) * below right.sign (number right.source)
            + below left.sign (number left.source) * above right.sign (number right.source))
  arithmetic_lem = ((add-Stands left right v w, sub-Stands left right v w), mul-Stands)
