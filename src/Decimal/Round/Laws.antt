-- ===== src/Decimal/Round/Laws.antt =====
-- What `truncate` and `round` do to the value of a number.
use vitex.Common.{
  ℕ, zero, suc, ◌+◌, ◌-◌, ◌*◌, ◌/◌, ◌%◌, ◌^◌, ◌≤◌, ◌<◌, ◌≡◌, inl, inr, arith, refl, ap, sym, ◌∙◌,
  List, [], ◌∷◌, leb, ◌==◌, max, if◌then◌else◌, if_both, pow-add, Bool-cases, lt→ltb,
}
use vitex.Common.Lists.{length, drop, length-drop, replicate, length-replicate}
use vitex.Decimal.Digits.{char_to_int}
use vitex.Decimal.Digits.Value.{AreDigits, number, AreDigits-zeros, number-zeros}
use vitex.Decimal.Number.{plus, Decimal, is_nan, is_nan_sign}
use vitex.Decimal.Number.Laws.{scaled}
use vitex.Decimal.Order.Laws.{above, below, IsNumber}
use vitex.Decimal.Arith.{add, increment, one_number}
use vitex.Decimal.Arith.Aligned.{Stands, scaled_full}
use vitex.Decimal.Arith.Laws.{add-Stands}
use vitex.Decimal.Round.{set_length, truncate, first_char, last_place, round_up, round}
use mathlib.Core.List.{append-nil}
use native.Mathlib.Nat.{
  pow-suc, div-div-eq-div-mul, mul_comm, div-eq_of_lt, one-le-pow, le-div_iff_mul-le,
}

-- A lowest digit that is divided away.
div_shift : (k c n : ℕ) → c < 10 → n / 10 ^ k ≡ (c + 10 * n) / 10 ^ suc k
div_shift k c n h =
    rw (pow-suc 10 k, mul_comm (10 ^ k) 10, ← div-div-eq-div-mul (c + 10 * n) 10 (10 ^ k))
      (ap (λ (t : ℕ). t / 10 ^ k) (lowest c n h))
  where
    lowest : (u v : ℕ) → u < 10 → v ≡ (u + 10 * v) / 10
    lowest u v l = omega arith

zero_div : (k : ℕ) → 0 ≡ 0 / 10 ^ k
zero_div k = sym (div-eq_of_lt (one-le-pow k 10 (omega arith)))

-- Erased digits are divided away.
number-drop :
    (k : ℕ) (xs : List ℕ)
    → AreDigits xs
    → AreDigits (drop k xs) × (number (drop k xs) ≡ number xs / 10 ^ k)
number-drop zero xs h = (h, omega arith)
number-drop (suc k) [] h = (tt, zero_div (suc k))
number-drop (suc k) (c ∷ cs) (hc, hcs) =
    let rest = number-drop k cs hcs in
    (rest.0, rest.1 ∙ div_shift k (c - b'0') (number cs) (omega arith))

-- The digit at place `k`.
first_char-drop :
    (k : ℕ) (xs : List ℕ)
    → AreDigits xs
    → k < length xs
    → first_char (drop k xs) - b'0' ≡ number xs / 10 ^ k % 10
unfolding first_char
first_char-drop zero (c ∷ cs) (hc, hcs) lt = omega arith
first_char-drop (suc k) (c ∷ cs) (hc, hcs) lt =
    first_char-drop k cs hcs (omega arith)
    ∙ ap (λ (t : ℕ). t % 10) (div_shift k (c - b'0') (number cs) (omega arith))
first_char-drop k [] h lt = absurd (omega arith)

pow_le_div : (n a b : ℕ) → 10 ^ (a + b) ≤ n → 10 ^ a ≤ n / 10 ^ b
pow_le_div n a b h = (le-div_iff_mul-le (one-le-pow b 10 (omega arith))).1 (rw (← pow-add 10 a b) h)

last_place-IsNumber : (precision : ℕ) → IsNumber (last_place precision)
last_place-IsNumber precision = record {
  valid = record {
    digits = (omega arith, AreDigits-zeros precision);
    whole = omega (arith, length-replicate {A = ℕ} precision b'0');
  };
  lean = inl (omega (arith, length-replicate {A = ℕ} precision b'0'));
  signed = unfold is_nan is_nan_sign in refl;
}

number-last_place : (precision : ℕ) → number (last_place precision).source ≡ 1
number-last_place precision =
    ap (λ (t : List ℕ). 1 + 10 * number t) (sym (append-nil {A = ℕ} (replicate precision b'0')))
    ∙ omega (arith, number-zeros precision [])

Stands-move :
    {z : Decimal} {m k p n p' n' : ℕ} → Stands z m p n → m ≡ k → p ≡ p' → n ≡ n' → Stands z k p' n'
Stands-move s e f g = record {
  number_ok = s.number_ok;
  deep = omega (arith, s.deep);
  exact = rw (← e) (omega (arith, s.exact));
}

module _ (x : Decimal) (v : IsNumber x) (precision : ℕ) (less : precision < x.length) where
  -- The number with the digits behind the wanted ones erased.
  cut : Decimal
  cut = record x { source = drop (x.length - precision) x.source; length = precision }

  cut_digits :
      AreDigits (drop (x.length - precision) x.source)
      × (number (drop (x.length - precision) x.source)
          ≡ number x.source / 10 ^ (x.length - precision))
  cut_digits = number-drop (x.length - precision) x.source v.valid.digits

  cut-IsNumber : IsNumber cut
  unfolding cut is_nan
  cut-IsNumber = record {
    valid = record {
      digits = cut_digits.0;
      whole = omega (arith, length-drop (x.length - precision) x.source, v.valid.whole);
    };
    lean = elim v.lean [
      | inl single ↦ inl (omega (arith, length-drop (x.length - precision) x.source))
      | inr top ↦
          inr (
            rw cut_digits.1
              (pow_le_div (number x.source) _ (x.length - precision) (rw shorter top)))
    ];
    signed = unfold is_nan in v.signed;
  }
    where
      shorter :
          length (drop (x.length - precision) x.source) - 1 + (x.length - precision)
          ≡ length x.source - 1
      shorter = omega (arith, length-drop (x.length - precision) x.source, v.valid.whole)

  set_length-cut : set_length x precision ≡ cut
  unfolding set_length cut
  set_length-cut = ground arith

  scaled-cut : scaled cut precision ≡ number x.source / 10 ^ (x.length - precision)
  unfolding cut
  scaled-cut = scaled_full cut precision refl ∙ cut_digits.1

  -- One unit in the last place is added, whatever the sign.
  Stands-add_unit :
      (t : Decimal)
      → IsNumber t
      → t.length ≡ precision
      → t.sign ≡ plus
      → number t.source ≡ 1
      → Stands
          (add cut t)
          precision
          (above x.sign (number x.source / 10 ^ (x.length - precision)) + 1)
          (below x.sign (number x.source / 10 ^ (x.length - precision)))
  Stands-add_unit t ok deep positive one =
      Stands-move (add-Stands cut t cut-IsNumber ok) same
        (rw (same, positive, scaled-cut, scaled_full t precision deep, one) (unfold cut in refl))
        (rw (same, positive, scaled-cut) (unfold cut in omega arith))
    where
      same : max cut.length t.length ≡ precision
      same = unfold cut in omega arith

  one-IsNumber : IsNumber one_number
  one-IsNumber = record {
    valid = record { digits = (omega arith, tt); whole = omega arith };
    lean = inl refl;
    signed = unfold is_nan is_nan_sign in refl;
  }

  round_up-Stands :
      Stands
        (round_up cut precision)
        precision
        (above x.sign (number x.source / 10 ^ (x.length - precision)) + 1)
        (below x.sign (number x.source / 10 ^ (x.length - precision)))
  unfolding round_up increment
  round_up-Stands =
      if_both
        (λ z.
          Stands z precision (above x.sign (number x.source / 10 ^ (x.length - precision)) + 1)
            (below x.sign (number x.source / 10 ^ (x.length - precision))))
        (precision == 0)
        (λ e. Stands-add_unit one_number one-IsNumber (ground arith) refl (omega arith))
        (λ _.
          Stands-add_unit (last_place precision) (last_place-IsNumber precision) refl refl
            (number-last_place precision))

  cut-Stands :
      Stands cut precision
        (above x.sign (number x.source / 10 ^ (x.length - precision)) + 0)
        (below x.sign (number x.source / 10 ^ (x.length - precision)))
  cut-Stands = record {
    number_ok = cut-IsNumber;
    deep = unfold cut in omega arith;
    exact = rw scaled-cut (unfold cut in omega arith);
  }

  -- Truncation to fewer digits behind the point rounds the signed value towards 0.
  pub truncate-Stands :
      Stands
        (truncate x precision)
        precision
        (above x.sign (number x.source / 10 ^ (x.length - precision)))
        (below x.sign (number x.source / 10 ^ (x.length - precision)))
  unfolding truncate
  truncate-Stands = rw (v.signed, set_length-cut) (Stands-move cut-Stands refl (omega arith) refl)

  digit_below :
      char_to_int (first_char (drop (x.length - precision - 1) x.source))
      ≡ number x.source / 10 ^ (x.length - precision - 1) % 10
  unfolding char_to_int
  digit_below =
      first_char-drop (x.length - precision - 1) x.source v.valid.digits
        (omega (arith, v.valid.whole))

  -- Rounding a well-formed decimal without leading zeros to fewer digits behind the point gives
  -- its signed value truncated towards 0, plus one unit in the last place (plus for negative
  -- numbers as well) where the first erased digit is 5 or more.
  pub round-Stands :
      Stands
        (round x precision)
        precision
        (above x.sign (number x.source / 10 ^ (x.length - precision))
          + (if leb 5 (number x.source / 10 ^ (x.length - precision - 1) % 10) then 1 else 0))
        (below x.sign (number x.source / 10 ^ (x.length - precision)))
  unfolding round
  round-Stands =
      rw (v.signed, lt→ltb precision x.length less, digit_below, set_length-cut)
        (elim (Bool-cases (leb 5 (number x.source / 10 ^ (x.length - precision - 1) % 10))) [
          | inl up ↦ rw up round_up-Stands
          | inr down ↦ rw down cut-Stands
        ])
